-- ===== src/Device.antt =====
-- oryx/DeviceInfo.h: a connected socket with its two byte buffers.
pub mod Inv
pub mod Buffers
use oryxgame.Common.{ℕ, ◌+◌, ◌-◌, ◌<◌, Bool, Option, none, some, ltb, ◌==◌, if◌then◌else◌, length}
use oryxgame.Common.Int.{ℤ, pos}
use oryxgame.Common.Bytes.{Bytes, overwrite, slice, htonl}

-- `enum DEVICE_TYPE`
pub data DeviceType : Type 0 where
  device_unknown : DeviceType
  device_server_internal : DeviceType
  device_server_external : DeviceType
  device_client_internal : DeviceType
  device_client_external : DeviceType
  device_max : DeviceType

-- `struct sockaddr_in`; the program only copies it.
pub record SockAddr : Type 0 where
  pub sin_family : ℕ
  pub sin_addr : ℕ
  pub sin_port : ℕ

abbrev pub max_recv_buffer_len : ℕ
max_recv_buffer_len = 4096

abbrev pub max_send_buffer_len : ℕ
max_send_buffer_len = 4096

-- `struct DEVICE_INFO`. The four positions start at 0 and never fall below it.
pub record Device : Type 0 where
  pub fd : ℤ
  pub session_id : ℤ
  pub device_type : DeviceType
  pub recv_buffer : Bytes
  pub recv_begin : ℕ
  pub recv_end : ℕ
  pub send_buffer : Bytes
  pub send_begin : ℕ
  pub send_end : ℕ
  pub sock_addr : SockAddr

-- The constructor, run on the raw memory that `new` found.
unfoldable pub device_info : Device → DeviceType → Device
device_info raw type = record raw {
  device_type = type;
  recv_begin = 0;
  recv_end = 0;
  send_begin = 0;
  send_end = 0;
}

unfoldable pub clear_recv_buff : Device → Device
clear_recv_buff d =
    if ltb 0 d.recv_begin
    then (if d.recv_end == d.recv_begin
        then record d { recv_end = 0; recv_begin = 0 }
        else if ltb d.recv_begin d.recv_end
        then record d {
          recv_buffer =
              overwrite d.recv_buffer 0
                (slice d.recv_begin (d.recv_end - d.recv_begin) d.recv_buffer);
          recv_end = d.recv_end - d.recv_begin;
          recv_begin = 0;
        }
        else record d { recv_end = 0; recv_begin = 0 })
    else d

unfoldable pub clear_send_buff : Device → Device
clear_send_buff d =
    if ltb 0 d.send_begin
    then (if d.send_end == d.send_begin
        then record d { send_end = 0; send_begin = 0 }
        else if ltb d.send_begin d.send_end
        then record d {
          send_buffer =
              overwrite d.send_buffer 0
                (slice d.send_begin (d.send_end - d.send_begin) d.send_buffer);
          send_end = d.send_end - d.send_begin;
          send_begin = 0;
        }
        else record d { send_end = 0; send_begin = 0 })
    else d

-- The copy that `write` makes when there is room: the frame's length, then the data.
unfoldable pub put_frame : Device → Bytes → Device
put_frame d bytes = record d {
  send_buffer =
      overwrite (overwrite d.send_buffer d.send_end (htonl (pos (length bytes + 4))))
        (d.send_end + 4) bytes;
  send_end = d.send_end + 4 + length bytes;
}

-- The data and its size are one argument, `none` for a null pointer. The result is the return value
-- beside the device.
unfoldable pub write : Device → Option Bytes → ℕ × Device
unfolding put_frame
write d none = (0, d)
write d (some bytes) =
    if length bytes == 0
    then (0, d)
    else let c = clear_send_buff d in
      if ltb (max_send_buffer_len - c.send_end) (length bytes + 4)
      then (0, c)
      else (length bytes, put_frame c bytes)

unfoldable pub get_client_device_type : DeviceType → DeviceType
get_client_device_type device_unknown = device_unknown
get_client_device_type device_server_internal = device_client_internal
get_client_device_type device_server_external = device_client_external
get_client_device_type device_client_internal = device_unknown
get_client_device_type device_client_external = device_unknown
get_client_device_type device_max = device_unknown
