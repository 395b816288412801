-- ===== src/Tests/Net.antt =====
-- Devices and the loops of oryx/EpollHandler.cpp on short streams.
use oryxgame.Common.{
  ℕ, ◌≡◌, refl, true, if◌then◌else◌, some, List, [], ◌∷◌, ◌++◌, map, arith, length-replicate,
  replicate,
}
use oryxgame.Common.Int.{pos}
use oryxgame.Common.Bytes.{Bytes, overwrite, ntohl}
use oryxgame.Device.{Device, device_server_external, clear_recv_buff, clear_send_buff, write}
use oryxgame.Device.Inv.{IsValid}
use oryxgame.Device.Buffers.{pending, outgoing, frame, fits, outgoing-write}
use oryxgame.Frames.{short}
use oryxgame.Frames.Laws.{concat}
use oryxgame.Epoll.Read.{
  Recv, received, failed, eagain, is_transient, recv_loop, read_packets, packet_task,
  store_received,
}
use oryxgame.Epoll.Read.Stream.{IsSettled, KeepsLimit, Streamed, recv_loop-Streamed}
use oryxgame.Epoll.Read.Settled.{recv_loop-concat}
use oryxgame.Epoll.Write.{Send, accepted, refused, write_device}
use oryxgame.Epoll.Write.Flow
use oryxgame.Epoll.Write.Flow.{Sent, write_device-Sent}

abbrev device : Device
device = record {
  fd = pos 7;
  session_id = pos 42;
  device_type = device_server_external;
  recv_buffer = replicate 4096 0;
  recv_begin = 0;
  recv_end = 0;
  send_buffer = replicate 4096 0;
  send_begin = 0;
  send_end = 0;
  sock_addr = record { sin_family = 2; sin_addr = 0; sin_port = 0 };
}

device-IsValid : IsValid device
device-IsValid = record {
  recv_size = length-replicate {A = ℕ} 4096 0;
  send_size = length-replicate {A = ℕ} 4096 0;
  recv_order = omega arith;
  recv_in = omega arith;
  send_order = omega arith;
  send_in = omega arith;
}

pending_device : pending device ≡ []
unfolding pending
pending_device = refl

device-IsSettled : IsSettled device
device-IsSettled = rw pending_device (short (omega arith) refl refl refl)

abbrev first : Bytes
first = 0 ∷ 0 ∷ 0 ∷ 6 ∷ 65 ∷ 66 ∷ []

abbrev second : Bytes
second = 0 ∷ 0 ∷ 0 ∷ 5 ∷ 67 ∷ []

-- Two packets at once, and in two chunks.
abbrev at_once : List Recv
at_once = received (first ++ second) ∷ failed eagain ∷ []

abbrev in_pieces : List Recv
in_pieces =
    received (0 ∷ 0 ∷ 0 ∷ 6 ∷ 65 ∷ 66 ∷ 0 ∷ 0 ∷ [])
    ∷ received (0 ∷ 5 ∷ 67 ∷ [])
    ∷ failed eagain
    ∷ []

within : KeepsLimit (pos 1) at_once device
unfolding clear_recv_buff
within = (omega arith, tt)

within_pieces : KeepsLimit (pos 1) in_pieces device
unfolding clear_recv_buff store_received read_packets overwrite ntohl
within_pieces = (omega arith, (omega arith, tt))

recv_loop-Streamed_example : Streamed (pos 1) in_pieces device (recv_loop (pos 1) in_pieces device)
recv_loop-Streamed_example =
    recv_loop-Streamed (pos 1) in_pieces device device-IsValid device-IsSettled within_pieces

-- A packet of its length only, between two others and at the end.
abbrev bare : Bytes
bare = 0 ∷ 0 ∷ 0 ∷ 4 ∷ []

abbrev with_bare : List Bytes
with_bare = first ∷ bare ∷ second ∷ bare ∷ []

abbrev all_together : List Recv
all_together = received (concat with_bare) ∷ failed eagain ∷ []

recv_loop-concat_example :
    ((recv_loop (pos 1) all_together device).tasks
      ≡ map (packet_task (pos 1) (pos 42)) (first ∷ bare ∷ second ∷ []))
    × ((recv_loop (pos 1) all_together device).result ≡ true)
    × (pending (recv_loop (pos 1) all_together device).device ≡ bare)
unfolding is_transient clear_recv_buff ntohl
recv_loop-concat_example =
    recv_loop-concat (pos 1) all_together device with_bare device-IsValid pending_device
      (omega arith, tt)
      (
        (omega arith, omega arith, refl),
        (
          (omega arith, omega arith, refl),
          ((omega arith, omega arith, refl), ((omega arith, omega arith, refl), tt)),
        ),
      )
      refl

at_once_result : (recv_loop (pos 1) at_once device).result ≡ true
unfolding recv_loop clear_recv_buff store_received read_packets overwrite ntohl is_transient
at_once_result = refl

-- A device on which a packet and a half are pending.
abbrev filled : Device
filled = record device { recv_buffer = first ++ second ++ replicate 4085 0; recv_end = 9 }

filled-IsValid : IsValid filled
filled-IsValid = record {
  recv_size = omega (arith, length-replicate {A = ℕ} 4085 0);
  send_size = length-replicate {A = ℕ} 4096 0;
  recv_order = omega arith;
  recv_in = omega arith;
  send_order = omega arith;
  send_in = omega arith;
}

filled_once : (read_packets (pos 1) 10 filled).tasks ≡ packet_task (pos 1) (pos 42) first ∷ []
unfolding read_packets ntohl
filled_once = refl

outgoing-write_example :
    ((write device (some (65 ∷ 66 ∷ []))).0 ≡ (if fits device (65 ∷ 66 ∷ []) then 2 else 0))
    × (outgoing (write device (some (65 ∷ 66 ∷ []))).1 ≡ (
        if fits device (65 ∷ 66 ∷ [])
        then outgoing device ++ frame (65 ∷ 66 ∷ [])
        else outgoing device))
outgoing-write_example = outgoing-write {d = device} (65 ∷ 66 ∷ []) device-IsValid (omega arith)

abbrev queued : Device
queued = record device { send_buffer = first ++ replicate 4090 0; send_end = 6 }

queued-IsValid : IsValid queued
queued-IsValid = record {
  recv_size = length-replicate {A = ℕ} 4096 0;
  send_size = omega (arith, length-replicate {A = ℕ} 4090 0);
  recv_order = omega arith;
  recv_in = omega arith;
  send_order = omega arith;
  send_in = omega arith;
}

-- The socket takes four bytes and then blocks.
abbrev slow : List Send
slow = accepted 4 ∷ refused eagain ∷ []

slow_within : Flow.KeepsLimit slow queued
unfolding clear_send_buff
slow_within = (omega arith, tt)

write_device-Sent_example : Sent slow queued (write_device slow queued)
write_device-Sent_example = write_device-Sent slow queued queued-IsValid slow_within
