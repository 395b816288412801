-- ===== src/Epoll/Read.antt =====
-- `EpollHandler::doRead` (oryx/EpollHandler.cpp) on the device that it found: the loop round `recv`
-- and the loop that cuts packets out of the buffer.
pub mod Refine
pub mod Stream
pub mod Settled
use oryxgame.Common.{
  ℕ, zero, suc, ◌+◌, ◌-◌, ◌<◌, Bool, true, false, List, [], ◌∷◌, ◌++◌, some, ltb, ◌==◌,
  if◌then◌else◌, length,
}
use oryxgame.Common.Int.{ℤ, pos, pos_part, ltb_ℤ}
use oryxgame.Common.Bytes.{Bytes, overwrite, slice, ntohl}
use oryxgame.Device.{Device, clear_recv_buff}
use oryxgame.Frames.{is_illegal}
use oryxgame.Task.{Task, task_client_conn_packet, new_client_conn_packet, init_client_packet}

-- The values of `errno` that the loops tell apart.
pub data Errno : Type 0 where
  eagain : Errno
  ewouldblock : Errno
  eintr : Errno
  other_error : Errno

unfoldable pub is_transient : Errno → Bool
is_transient eagain = true
is_transient ewouldblock = true
is_transient eintr = true
is_transient other_error = false

-- What one call of `recv` stores and returns: bytes, none of them at the end of the stream, or -1.
pub data Recv : Type 0 where
  received : Bytes → Recv
  failed : Errno → Recv

-- The device as the loop leaves it, what was pushed to the main queue, and `result`.
pub record Reading : Type 0 where
  pub result : Bool
  pub device : Device
  pub tasks : List Task

unfoldable pub packet_task : ℤ → ℤ → Bytes → Task
packet_task thread session bytes =
    task_client_conn_packet
      (init_client_packet (new_client_conn_packet thread session) (some bytes))

-- The inner `while`. `recv_end - recv_begin` is never negative where it is tested above 4.
unfoldable pub read_packets : ℤ → ℕ → Device → Reading
read_packets thread zero d = record { result = true; device = d; tasks = [] }
read_packets thread (suc fuel) d =
    let packet_len = ntohl (slice d.recv_begin 4 d.recv_buffer) in
    let rest =
      read_packets thread fuel (record d { recv_begin = d.recv_begin + pos_part packet_len }) in
    if ltb 4 (d.recv_end - d.recv_begin)
    then (if is_illegal packet_len
        then record { result = false; device = d; tasks = [] }
        else if ltb_ℤ (pos (d.recv_end - d.recv_begin)) packet_len
        then record { result = true; device = d; tasks = [] }
        else record {
          result = rest.result;
          device = rest.device;
          tasks =
              packet_task thread d.session_id
                (slice d.recv_begin (pos_part packet_len) d.recv_buffer)
              ∷ rest.tasks;
        })
    else record { result = true; device = d; tasks = [] }

-- `recv` into the free end of the buffer, and `recv_end += recvNum`.
unfoldable pub store_received : Device → Bytes → Device
store_received d bytes = record d {
  recv_buffer = overwrite d.recv_buffer d.recv_end bytes;
  recv_end = d.recv_end + length bytes;
}

-- The outer loop, over what the calls of `recv` return; behind them the socket would block.
unfoldable pub recv_loop : ℤ → List Recv → Device → Reading
recv_loop thread [] d = record { result = true; device = clear_recv_buff d; tasks = [] }
recv_loop thread (failed e ∷ calls) d = record {
  result = is_transient e;
  device = clear_recv_buff d;
  tasks = [];
}
recv_loop thread (received bytes ∷ calls) d =
    let c = clear_recv_buff d in
    let got = store_received c bytes in
    let parsed = read_packets thread (got.recv_end + 1) got in
    let rest = recv_loop thread calls parsed.device in
    if length bytes == 0
    then record { result = false; device = c; tasks = [] }
    else if parsed.result
    then record { result = rest.result; device = rest.device; tasks = parsed.tasks ++ rest.tasks }
    else parsed
