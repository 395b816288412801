-- ===== src/Tests/Link.antt =====
-- Two ends of a connection (oryx/DeviceInfo.h, oryx/EpollHandler.cpp).
use oryxgame.Common.{
  ℕ, ◌*◌, ◌^◌, ◌≡◌, refl, false, some, List, [], ◌∷◌, map, arith, length-replicate, replicate,
}
use oryxgame.Common.Int.{pos}
use oryxgame.Common.Bytes.{Allocator, overwrite, htonl, ntohl}
use oryxgame.Device.{
  Device, device_client_external, clear_recv_buff, clear_send_buff, write, put_frame,
}
use oryxgame.Device.Inv.{IsValid}
use oryxgame.Device.Buffers.{pending, outgoing, frame}
use oryxgame.Epoll.Read.{
  Recv, received, failed, eagain, is_transient, recv_loop, read_packets, packet_task,
  store_received,
}
use oryxgame.Epoll.Read.Stream.{KeepsLimit, stays_open}
use oryxgame.Epoll.Write.{accepted, refused, write_device, send_loop}
use oryxgame.Epoll.Link.{Op, queues, sends, run, Allowed, recv_loop-run}
use oryxgame.Epoll.Link.Misread.{frame-misread}
use oryxgame.MessageHandler.{message_id_is_valid}
use oryxgame.Packet.{Packet, new_packet_with, new_packet_from_bytes}
use oryxgame.Packet.Wire.{wire}

abbrev pub device : Device
device = record {
  fd = pos 7;
  session_id = pos 42;
  device_type = device_client_external;
  recv_buffer = replicate 4096 0;
  recv_begin = 0;
  recv_end = 0;
  send_buffer = replicate 4096 0;
  send_begin = 0;
  send_end = 0;
  sock_addr = record { sin_family = 2; sin_addr = 0; sin_port = 0 };
}

pub device-IsValid : IsValid device
device-IsValid = record {
  recv_size = length-replicate {A = ℕ} 4096 0;
  send_size = length-replicate {A = ℕ} 4096 0;
  recv_order = omega arith;
  recv_in = omega arith;
  send_order = omega arith;
  send_in = omega arith;
}

pub nothing_pending : pending device ≡ []
unfolding pending
nothing_pending = refl

nothing_outgoing : outgoing device ≡ []
unfolding outgoing
nothing_outgoing = refl

-- Two pieces of data, sent in two parts.
abbrev ops : List Op
ops =
    queues (65 ∷ [])
    ∷ sends (accepted 3 ∷ refused eagain ∷ [])
    ∷ queues (66 ∷ 67 ∷ [])
    ∷ sends (accepted 8 ∷ [])
    ∷ []

all_sent : outgoing (run ops device).device ≡ []
unfolding run write put_frame write_device send_loop clear_send_buff outgoing overwrite htonl
    is_transient
all_sent = refl

allowed : Allowed ops device
unfolding write put_frame write_device send_loop clear_send_buff overwrite htonl is_transient
allowed = (omega arith, ((omega arith, tt), (omega arith, ((omega arith, tt), tt))))

abbrev calls : List Recv
calls =
    received (0 ∷ 0 ∷ 0 ∷ 5 ∷ 65 ∷ 0 ∷ 0 ∷ [])
    ∷ received (0 ∷ 6 ∷ 66 ∷ 67 ∷ [])
    ∷ failed eagain
    ∷ []

within : KeepsLimit (pos 1) calls device
unfolding clear_recv_buff store_received read_packets overwrite ntohl
within = (omega arith, (omega arith, tt))

recv_loop-run_example :
    ((recv_loop (pos 1) calls device).tasks
      ≡ map (packet_task (pos 1) (pos 42)) (map frame (run ops device).queued))
    × ((recv_loop (pos 1) calls device).result ≡ stays_open calls)
    × (pending (recv_loop (pos 1) calls device).device ≡ [])
unfolding run write put_frame write_device send_loop clear_send_buff overwrite htonl is_transient
recv_loop-run_example =
    recv_loop-run ops device device (pos 1) calls device-IsValid nothing_outgoing allowed all_sent
      device-IsValid nothing_pending within refl

abbrev pub memory : Allocator
memory = record { fresh = λ n. replicate n 0; length_fresh = λ n. length-replicate {A = ℕ} n 0 }

frame-misread_example :
    (p : Packet) × (new_packet_from_bytes memory
        (some (frame (wire memory (new_packet_with memory (pos 101) (pos 0) (some (8 ∷ []))))))
      ≡ some p)
    × (p.operate_code ≡ pos (15 * 2 ^ 16))
    × (message_id_is_valid p.operate_code ≡ false)
frame-misread_example =
    frame-misread memory (pos 101) (pos 0) (some (8 ∷ [])) (omega arith, omega arith)
      (omega arith, omega arith) (omega arith)
