-- ===== src/Device/Inv.antt =====
-- The bounds of a device's buffers (oryx/DeviceInfo.h).
use oryxgame.Common.{◌+◌, ◌-◌, ◌≤◌, ◌≡◌, Option, none, some, arith, length}
use oryxgame.Common.Bytes.{Bytes, overwrite, length-overwrite, slice, htonl}
use oryxgame.Common.Int.{pos}
use oryxgame.Device.{
  Device, DeviceType, max_recv_buffer_len, max_send_buffer_len, device_info, clear_recv_buff,
  clear_send_buff, write, put_frame,
}

pub record IsValid (d : Device) : Type 0 where
  pub recv_size : length d.recv_buffer ≡ max_recv_buffer_len
  pub send_size : length d.send_buffer ≡ max_send_buffer_len
  pub recv_order : d.recv_begin ≤ d.recv_end
  pub recv_in : d.recv_end ≤ max_recv_buffer_len
  pub send_order : d.send_begin ≤ d.send_end
  pub send_in : d.send_end ≤ max_send_buffer_len

pub device_info-IsValid :
    (raw : Device) (type : DeviceType)
    → length raw.recv_buffer ≡ max_recv_buffer_len
    → length raw.send_buffer ≡ max_send_buffer_len
    → IsValid (device_info raw type)
unfolding device_info
device_info-IsValid raw type r s = ground arith

pub clear_recv_buff-IsValid :
    {d : Device} → IsValid d → IsValid (clear_recv_buff d) × ((clear_recv_buff d).recv_begin ≡ 0)
unfolding clear_recv_buff
clear_recv_buff-IsValid {d} v = ground (
  arith,
  length-overwrite d.recv_buffer 0 (slice d.recv_begin (d.recv_end - d.recv_begin) d.recv_buffer),
)

pub clear_send_buff-IsValid :
    {d : Device} → IsValid d → IsValid (clear_send_buff d) × ((clear_send_buff d).send_begin ≡ 0)
unfolding clear_send_buff
clear_send_buff-IsValid {d} v = ground (
  arith,
  length-overwrite d.send_buffer 0 (slice d.send_begin (d.send_end - d.send_begin) d.send_buffer),
)

put_frame-IsValid :
    {d : Device} (bytes : Bytes)
    → IsValid d
    → d.send_end + length bytes + 4 ≤ max_send_buffer_len
    → IsValid (put_frame d bytes)
unfolding put_frame
put_frame-IsValid {d} bytes v h =
    let framed = overwrite d.send_buffer d.send_end (htonl (pos (length bytes + 4))) in
    ground (
      arith,
      length-overwrite framed (d.send_end + 4) bytes,
      length-overwrite d.send_buffer d.send_end (htonl (pos (length bytes + 4))),
    )

-- `write` of any data, or of a null pointer, to a valid device leaves a valid device: both buffers
-- keep their size, and the positions stay in order and within them.
pub write-IsValid : {d : Device} (bytes : Option Bytes) → IsValid d → IsValid (write d bytes).1
unfolding write
write-IsValid none v = v
write-IsValid {d} (some bytes) v =
    ground (arith, clear_send_buff-IsValid v, put_frame-IsValid {d = clear_send_buff d} bytes)
