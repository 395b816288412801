-- ===== src/Tests/Packets.antt =====
-- Packets (oryx/packet.cpp) over memory that is all zero.
use oryxgame.Common.{ℕ, ◌≡◌, refl, some, [], ◌∷◌, arith, length-replicate, replicate}
use oryxgame.Common.Int.{pos, negsuc}
use oryxgame.Common.Bytes.{Bytes, Allocator}
use oryxgame.Packet.{Packet, append, get_real_data, new_packet_with, read_int32, write_int32}
use oryxgame.Packet.Buffer.{IsValid}
use oryxgame.Packet.Append.{Appended, append-Appended}
use oryxgame.Packet.RealData.{get_real_data-new_packet_with}
use oryxgame.Packet.Numbers.{
  read_uint32, read_int16, read_uint16, write_uint32, write_int16, write_uint16,
}
use oryxgame.Packet.Numbers.Exchange.{read-write}
use oryxgame.Packet.Wire.{Carried, wire, new_packet_with-Carried}

abbrev heap : Allocator
heap = record { fresh = λ n. replicate n 0; length_fresh = λ n. length-replicate {A = ℕ} n 0 }

-- A packet whose buffer has room for twenty bytes, three of which are used.
abbrev small : Packet
small = record {
  message_len = pos 17;
  version = pos 1;
  operate_code = pos 1001;
  error_code = pos 0;
  bytes = 1 ∷ 2 ∷ 3 ∷ replicate 17 0;
  data_max_len = 20;
  data_now_len = 3;
}

small-IsValid : IsValid small
small-IsValid = record { size = refl; used = omega arith }

append-Appended_example : Appended small (4 ∷ 5 ∷ []) (append heap small (some (4 ∷ 5 ∷ [])))
append-Appended_example = append-Appended heap {p = small} (4 ∷ 5 ∷ []) small-IsValid (omega arith)

abbrev sixteen : Bytes
sixteen = 1 ∷ 2 ∷ 3 ∷ 4 ∷ 5 ∷ 6 ∷ 7 ∷ 8 ∷ 9 ∷ 10 ∷ 11 ∷ 12 ∷ 13 ∷ 14 ∷ 15 ∷ 16 ∷ []

get_real_data-new_packet_with_example :
    ((new_packet_with heap (pos 1001) (pos 0) (some sixteen)).message_len ≡ pos 30)
    × (get_real_data (new_packet_with heap (pos 1001) (pos 0) (some sixteen))
        ≡ (2, some (15 ∷ 16 ∷ [])))
get_real_data-new_packet_with_example =
    get_real_data-new_packet_with heap (pos 1001) (pos 0) sixteen (omega arith)

new_packet_with-Carried_example :
    Carried heap 30
      (pos 1001)
      (pos 0)
      (wire heap (new_packet_with heap (pos 1001) (pos 0) (some sixteen)))
new_packet_with-Carried_example =
    new_packet_with-Carried heap (pos 1001) (pos 0) (some sixteen) (omega arith, omega arith)
      (omega arith, omega arith) (omega arith)

abbrev used : Packet
used = record small { data_now_len = 16 }

used-IsValid : IsValid used
used-IsValid = record { size = refl; used = omega arith }

read-write_example :
    (read_int32 (write_int32 heap used (negsuc 4) 2) 2 ≡ negsuc 4)
    × (read_uint32 (write_uint32 heap used 4000000000 2) 2 ≡ 4000000000)
    × (read_int16 (write_int16 heap used (negsuc 299) 2) 2 ≡ negsuc 299)
    × (read_uint16 (write_uint16 heap used 65000 2) 2 ≡ 65000)
    × (read_int32 used 15 ≡ pos 0)
    × (read_uint32 used 15 ≡ 0)
    × (read_int16 used 15 ≡ pos 0)
    × (read_uint16 used 15 ≡ 0)
read-write_example =
    read-write heap {p = used} 2 15 (negsuc 4) 4000000000 (negsuc 299) 65000 used-IsValid
      (omega arith) (omega arith) (omega arith, omega arith) (omega arith)
      (omega arith, omega arith) (omega arith)
