-- ===== src/Device/Buffers.antt =====
-- What the buffers of a device hold, and what the operations do to it (oryx/DeviceInfo.h).
use oryxgame.Common.{
  ℕ, ◌+◌, ◌-◌, ◌≤◌, ◌<◌, ◌≡◌, ap, ◌∙◌, ◌++◌, append_assoc, some, arith, length, take, if◌then◌else◌,
  leb, Bool,
}
use oryxgame.Common.Bytes.{Bytes, overwrite, slice, htonl}
use oryxgame.Common.Int.{pos}
use oryxgame.Common.Slices.{length-slice, take-overwrite, take-overwrite-overwrite}
use oryxgame.Device.{
  Device, max_send_buffer_len, clear_recv_buff, clear_send_buff, write, put_frame,
}
use oryxgame.Device.Inv.{IsValid, clear_send_buff-IsValid}

-- The bytes that were received and not yet handed on.
unfoldable pub pending : Device → Bytes
pending d = slice d.recv_begin (d.recv_end - d.recv_begin) d.recv_buffer

-- The bytes that were written and not yet sent.
unfoldable pub outgoing : Device → Bytes
outgoing d = slice d.send_begin (d.send_end - d.send_begin) d.send_buffer

-- Moving a window of the array to its front keeps the bytes of the window.
move_front :
    (buf : Bytes) (b e : ℕ)
    → b ≤ e
    → e ≤ length buf
    → take (e - b) (overwrite buf 0 (slice b (e - b) buf)) ≡ slice b (e - b) buf
move_front buf b e h k =
    ap (λ n. take n (overwrite buf 0 (slice b (e - b) buf))) size
    ∙ take-overwrite buf 0 (slice b (e - b) buf) (omega (arith, length-slice b (e - b) buf))
  where
    size : e - b ≡ 0 + length (slice b (e - b) buf)
    size = omega (arith, length-slice b (e - b) buf)

-- Clearing the receive buffer moves what is pending to the front and changes none of it.
pub pending-clear_recv_buff : {d : Device} → IsValid d → pending (clear_recv_buff d) ≡ pending d
unfolding clear_recv_buff pending
pending-clear_recv_buff {d} v = ground (arith, move_front d.recv_buffer d.recv_begin d.recv_end)

pub outgoing-clear_send_buff : {d : Device} → IsValid d → outgoing (clear_send_buff d) ≡ outgoing d
unfolding clear_send_buff outgoing
outgoing-clear_send_buff {d} v = ground (arith, move_front d.send_buffer d.send_begin d.send_end)

pub length-pending : {d : Device} → IsValid d → length (pending d) ≡ d.recv_end - d.recv_begin
unfolding pending
length-pending {d} v =
    length-slice d.recv_begin (d.recv_end - d.recv_begin) d.recv_buffer (omega arith)

pub length-outgoing : {d : Device} → IsValid d → length (outgoing d) ≡ d.send_end - d.send_begin
unfolding outgoing
length-outgoing {d} v =
    length-slice d.send_begin (d.send_end - d.send_begin) d.send_buffer (omega arith)

outgoing-put_frame :
    {d : Device} (bytes : Bytes)
    → IsValid d
    → d.send_begin ≡ 0
    → d.send_end + length bytes + 4 ≤ max_send_buffer_len
    → outgoing (put_frame d bytes) ≡ outgoing d ++ htonl (pos (length bytes + 4)) ++ bytes
unfolding put_frame outgoing htonl
outgoing-put_frame {d} bytes v e h = ground (
  arith,
  take-overwrite-overwrite d.send_buffer d.send_end (htonl (pos (length bytes + 4))) bytes,
)

-- The bytes of one frame: its length, the length field's four bytes included, then the data.
unfoldable pub frame : Bytes → Bytes
frame bytes = htonl (pos (length bytes + 4)) ++ bytes

abbrev pub fits : Device → Bytes → Bool
fits d bytes = leb (length (outgoing d) + (length bytes + 4)) max_send_buffer_len

-- `write` on a valid device queues exactly one frame behind what is to be sent if the frame fits,
-- and returns the size of the data; otherwise it returns 0 and queues nothing.
pub outgoing-write :
    {d : Device} (bytes : Bytes)
    → IsValid d
    → 0 < length bytes
    → ((write d (some bytes)).0 ≡ (if fits d bytes then length bytes else 0))
      × (outgoing (write d (some bytes)).1
          ≡ (if fits d bytes then outgoing d ++ frame bytes else outgoing d))
unfolding write frame
outgoing-write {d} bytes v h = ground (
  arith,
  clear_send_buff-IsValid v,
  outgoing-clear_send_buff v,
  length-outgoing (clear_send_buff-IsValid v).0,
  outgoing-put_frame {d = clear_send_buff d} bytes,
  append_assoc (outgoing d) (htonl (pos (length bytes + 4))) bytes,
)
