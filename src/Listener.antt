-- ===== src/Listener.antt =====
-- oryx/Listener.h and oryx/Listener.cpp: the socket that clients connect to.
pub mod Opening
use oryxgame.Common.{ℕ, Bool, true, false, Option, none, some, if◌then◌else◌}
use oryxgame.Common.Int.{ℤ, pos, negsuc, ltb_ℤ}
use oryxgame.Device.{DeviceType, device_unknown, SockAddr}
use oryxgame.Task.{Listening, new_listener}

-- `class Listener`; the address is what `inet_addr` makes of it, and the port is in network order.
pub record Listener : Type 0 where
  pub fd : ℤ
  pub listen_addr : ℕ
  pub listen_port : ℕ
  pub svr_type : DeviceType
  pub svr_addr : SockAddr

abbrev pub no_address : SockAddr
no_address = record { sin_family = 0; sin_addr = 0; sin_port = 0 }

-- `AF_INET`
abbrev pub af_inet : ℕ
af_inet = 2

-- Both constructors.
unfoldable pub listener : Listener
listener = record {
  fd = negsuc 0;
  listen_addr = 0;
  listen_port = 0;
  svr_type = device_unknown;
  svr_addr = no_address;
}

unfoldable pub listener_at : ℕ → ℕ → DeviceType → Listener
listener_at addr port type = record {
  fd = negsuc 0;
  listen_addr = addr;
  listen_port = port;
  svr_type = type;
  svr_addr = no_address;
}

-- What the calls return, `bind` and `listen` for the descriptor that they are given.
pub record SocketCalls : Type 0 where
  pub socket : ℤ
  pub bind : ℤ → ℤ
  pub listen : ℤ → ℤ

-- The descriptor and the address as they stand before `bind`.
unfoldable pub prepared : SocketCalls → Listener → Listener
prepared calls l = record l {
  fd = if ltb_ℤ calls.socket (pos 0) then negsuc 0 else calls.socket;
  svr_addr = record { sin_family = af_inet; sin_addr = l.listen_addr; sin_port = l.listen_port };
}

-- A failure of `socket` does not return.
unfoldable pub do_listen : SocketCalls → Listener → Bool × Listener
do_listen calls l =
    let q = prepared calls l in
    if ltb_ℤ (calls.bind q.fd) (pos 0)
    then (false, q)
    else if ltb_ℤ (calls.listen q.fd) (pos 0)
    then (false, q)
    else (true, q)

unfoldable pub create_task : Listener → Option Listening
create_task l = if ltb_ℤ l.fd (pos 0) then none else some (new_listener l.fd l.svr_type l.svr_addr)
