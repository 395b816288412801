-- ===== src/Packet/Numbers.antt =====
-- The other `Write` and `Read` functions of oryx/packet.cpp, and `PrintData`.
pub mod Exchange
use oryxgame.Common.{
  ℕ, ◌+◌, ◌-◌, ◌*◌, ◌/◌, ◌%◌, ◌^◌, Option, none, some, List, [], ◌∷◌, ltb, if◌then◌else◌, set,
}
use oryxgame.Common.Int.{ℤ, pos, negsuc, word32}
use oryxgame.Common.Bytes.{Bytes, Allocator, htonl, slice}
use oryxgame.Packet.{Packet, packet_head_len, write_data}

-- The pattern of a 16-bit number, and the number that a pattern stands for.
abbrev pub word16 : ℤ → ℕ
word16 (pos n) = n % 2 ^ 16
word16 (negsuc n) = 2 ^ 16 - 1 - n % 2 ^ 16

abbrev pub signed16 : ℕ → ℤ
signed16 w = if ltb w (2 ^ 15) then pos w else negsuc (2 ^ 16 - w - 1)

-- `htons` of a pattern as the two bytes that it leaves in memory, and `ntohs` of two bytes.
unfoldable pub htons : ℕ → Bytes
htons w = (w / 2 ^ 8) ∷ (w % 2 ^ 8) ∷ []

unfoldable pub ntohs : Bytes → ℕ
ntohs (a ∷ b ∷ rest) = a * 2 ^ 8 + b
ntohs _ = 0

-- `ntohl` of four bytes, as an unsigned number.
unfoldable pub ntohl_unsigned : Bytes → ℕ
ntohl_unsigned (a ∷ b ∷ c ∷ d ∷ rest) = a * 2 ^ 24 + b * 2 ^ 16 + c * 2 ^ 8 + d
ntohl_unsigned _ = 0

-- Unsigned arguments are reduced to their width by the call.
unfoldable pub write_uint32 : Allocator → Packet → ℕ → ℕ → Packet
write_uint32 heap p value at = write_data heap p (some (htonl (pos value))) (pos at)

unfoldable pub write_int16 : Allocator → Packet → ℤ → ℕ → Packet
write_int16 heap p value at = write_data heap p (some (htons (word16 value))) (pos at)

unfoldable pub write_uint16 : Allocator → Packet → ℕ → ℕ → Packet
write_uint16 heap p value at = write_data heap p (some (htons (value % 2 ^ 16))) (pos at)

unfoldable pub read_uint32 : Packet → ℕ → ℕ
read_uint32 p at = if ltb p.data_now_len (at + 4) then 0 else ntohl_unsigned (slice at 4 p.bytes)

unfoldable pub read_int16 : Packet → ℕ → ℤ
read_int16 p at =
    if ltb p.data_now_len (at + 2) then pos 0 else signed16 (ntohs (slice at 2 p.bytes))

unfoldable pub read_uint16 : Packet → ℕ → ℕ
read_uint16 p at = if ltb p.data_now_len (at + 2) then 0 else ntohs (slice at 2 p.bytes)

-- `PrintData`; `none` is a write behind the end of the buffer.
unfoldable pub print_data : Packet → Option Packet
print_data p =
    if ltb 0 (p.data_now_len - packet_head_len)
    then if ltb p.data_now_len p.data_max_len
      then some (record p { bytes = set p.bytes p.data_now_len 0 })
      else none
    else some p
