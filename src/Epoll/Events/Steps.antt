-- ===== src/Epoll/Events/Steps.antt =====
-- The keys of a device, through the handlers of oryx/EpollHandler.cpp.
use oryxgame.Common.{ℕ, zero, suc, ◌+◌, ◌≡◌, refl, ◌∙◌, Option, none, some, List, [], ◌∷◌, arith}
use oryxgame.Common.Int.{ℤ, pos_part, eqb_ℤ_refl}
use oryxgame.Common.Map.{find, insert, find-insert}
use oryxgame.Common.Bytes.{Bytes, slice, ntohl}
use oryxgame.Device.{Device, clear_recv_buff, clear_send_buff, write, put_frame}
use oryxgame.Epoll.Read.{Recv, received, failed, read_packets, store_received, recv_loop}
use oryxgame.Epoll.Write.{Send, accepted, refused, send_loop, write_device}
use oryxgame.Epoll.State.{Address, Handler}

-- Both keys are the same.
abbrev pub SameKeys : Device → Device → Type 0
SameKeys d d' = (d'.fd ≡ d.fd) × (d'.session_id ≡ d.session_id)

read_packets-SameKeys :
    (thread : ℤ) (fuel : ℕ) (d : Device) → SameKeys d (read_packets thread fuel d).device
unfolding read_packets
read_packets-SameKeys thread zero d = (refl, refl)
read_packets-SameKeys thread (suc fuel) d = ground (
  arith,
  read_packets-SameKeys thread fuel (record d {
    recv_begin = d.recv_begin + pos_part (ntohl (slice d.recv_begin 4 d.recv_buffer));
  }),
)

clear_recv_buff-SameKeys : (d : Device) → SameKeys d (clear_recv_buff d)
unfolding clear_recv_buff
clear_recv_buff-SameKeys d = ground arith

clear_send_buff-SameKeys : (d : Device) → SameKeys d (clear_send_buff d)
unfolding clear_send_buff
clear_send_buff-SameKeys d = ground arith

chunk-SameKeys :
    (thread : ℤ) (bytes : Bytes) (d : Device)
    → SameKeys d
        (read_packets thread
          ((store_received (clear_recv_buff d) bytes).recv_end + 1)
          (store_received (clear_recv_buff d) bytes)).device
unfolding store_received
chunk-SameKeys thread bytes d = ground (
  arith,
  clear_recv_buff-SameKeys d,
  read_packets-SameKeys thread ((store_received (clear_recv_buff d) bytes).recv_end + 1)
      (store_received (clear_recv_buff d) bytes),
)

pub recv_loop-SameKeys :
    (thread : ℤ) (calls : List Recv) (d : Device) → SameKeys d (recv_loop thread calls d).device
unfolding recv_loop
recv_loop-SameKeys thread [] d = clear_recv_buff-SameKeys d
recv_loop-SameKeys thread (failed e ∷ calls) d = clear_recv_buff-SameKeys d
recv_loop-SameKeys thread (received bytes ∷ calls) d =
    let got = store_received (clear_recv_buff d) bytes in
    let parsed = read_packets thread (got.recv_end + 1) got in
    ground (
      arith,
      clear_recv_buff-SameKeys d,
      chunk-SameKeys thread bytes d,
      recv_loop-SameKeys thread calls parsed.device,
    )

send_loop-SameKeys : (calls : List Send) (d : Device) → SameKeys d (send_loop calls d).device
unfolding send_loop
send_loop-SameKeys [] d = clear_send_buff-SameKeys d
send_loop-SameKeys (refused e ∷ calls) d = ground (arith, clear_send_buff-SameKeys d)
send_loop-SameKeys (accepted n ∷ calls) d = ground (
  arith,
  clear_send_buff-SameKeys d,
  send_loop-SameKeys calls
      (record (clear_send_buff d) { send_begin = (clear_send_buff d).send_begin + n }),
)

pub write_device-SameKeys :
    (calls : List Send) (d : Device) → SameKeys d (write_device calls d).device
unfolding write_device
write_device-SameKeys calls d = ground (arith, send_loop-SameKeys calls d)

pub write-SameKeys : (d : Device) (bytes : Option Bytes) → SameKeys d (write d bytes).1
unfolding write put_frame
write-SameKeys d none = (refl, refl)
write-SameKeys d (some bytes) = ground (arith, clear_send_buff-SameKeys d)

-- The state with another device at an address, and more tasks for the logic thread.
abbrev pub stored : Handler → Address → Device → Handler
stored h p d = record h { devices = insert p d h.devices }

pub find-stored : (h : Handler) (p : Address) (d : Device) → find p (stored h p d).devices ≡ some d
find-stored h p d = find-insert p p d h.devices ∙ rw (eqb_ℤ_refl p)
