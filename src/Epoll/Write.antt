-- ===== src/Epoll/Write.antt =====
-- `EpollHandler::doWrite` (oryx/EpollHandler.cpp) on the device that it found.
pub mod Flow
use oryxgame.Common.{
  ℕ, ◌+◌, ◌-◌, ◌<◌, Bool, true, false, List, [], ◌∷◌, ltb, leb, ◌==◌, if◌then◌else◌,
}
use oryxgame.Common.Bytes.{Bytes, slice}
use oryxgame.Device.{Device, clear_send_buff}
use oryxgame.Epoll.Read.{Errno, is_transient}

-- What one call of `send` returns: a count of bytes, or -1.
pub data Send : Type 0 where
  accepted : ℕ → Send
  refused : Errno → Send

-- The device as the loop leaves it, the bytes that were sent, and `result`.
pub record Writing : Type 0 where
  pub result : Bool
  pub device : Device
  pub sent : List Bytes

-- The loop, over what the calls of `send` return; behind them the socket would block.
unfoldable pub send_loop : List Send → Device → Writing
send_loop [] d = record { result = true; device = clear_send_buff d; sent = [] }
send_loop (refused e ∷ calls) d =
    let c = clear_send_buff d in
    if leb c.send_end c.send_begin
    then record { result = true; device = c; sent = [] }
    else record { result = is_transient e; device = c; sent = [] }
send_loop (accepted n ∷ calls) d =
    let c = clear_send_buff d in
    let rest = send_loop calls (record c { send_begin = c.send_begin + n }) in
    if leb c.send_end c.send_begin
    then record { result = true; device = c; sent = [] }
    else if n == 0
    then record { result = false; device = c; sent = [] }
    else record {
      result = rest.result;
      device = rest.device;
      sent = slice c.send_begin n c.send_buffer ∷ rest.sent;
    }

unfoldable pub write_device : List Send → Device → Writing
write_device calls d =
    if leb d.send_end d.send_begin
    then record { result = true; device = d; sent = [] }
    else send_loop calls d
