-- ===== src/Epoll/Link/Misread.antt =====
-- What `NewPacketFromBytes` (oryx/packet.cpp) makes of a packet that came through `DEVICE_INFO::write`
-- (oryx/DeviceInfo.h), which puts a second length in front of it.
use oryxgame.Common.{
  ℕ, ◌+◌, ◌*◌, ◌/◌, ◌%◌, ◌^◌, ◌≤◌, ◌<◌, ◌≡◌, refl, ap, ◌∙◌, true, false, Option, some, ◌++◌, arith,
  ltb, length, drop,
}
use oryxgame.Common.Int.{ℤ, pos, signed32, IsInt32}
use oryxgame.Common.Bytes.{Bytes, Allocator, htonl, ntohl, slice}
use oryxgame.Device.{max_recv_buffer_len}
use oryxgame.Device.Buffers.{frame}
use oryxgame.MessageHandler.{message_id_is_valid}
use oryxgame.Packet.{
  Packet, packet_version, packet_head_len, packet_of_bytes, new_packet_with, new_packet_from_bytes,
}
use oryxgame.Packet.Head.{head}
use oryxgame.Packet.Framing.{length-wire}
use oryxgame.Packet.Reading.{packet_of_bytes-Loaded}
use oryxgame.Packet.Wire.{payload_len, wire, new_packet_with-Carried}

-- Behind the length of the frame, the place of the operation code has the low half of the packet's own
-- length and the empty half of its version.
read_late :
    (n size : ℕ) (opercode errcode : ℤ) (tail : Bytes)
    → n < 2 ^ 15
    → ntohl (slice 6 4 (htonl (pos size) ++ (head (pos n) packet_version opercode errcode ++ tail)))
      ≡ pos (n * 2 ^ 16)
unfolding htonl ntohl head
read_late n size opercode errcode tail short = ap signed32 regroup ∙ not_negative
  where
    regroup :
        n % 2 ^ 32 / 2 ^ 8 % 2 ^ 8 * 2 ^ 24 + n % 2 ^ 32 % 2 ^ 8 * 2 ^ 16 + 0 * 2 ^ 8 + 0
        ≡ n * 2 ^ 16
    regroup = omega (arith, short)

    not_negative : signed32 (n * 2 ^ 16) ≡ pos (n * 2 ^ 16)
    not_negative = let low : ltb (n * 2 ^ 16) (2 ^ 31) ≡ true = ground (arith, short) in rw low refl

no_message : (n : ℕ) → packet_head_len ≤ n → message_id_is_valid (pos (n * 2 ^ 16)) ≡ false
unfolding message_id_is_valid
no_message n h = ground (arith, h)

accepted :
    (heap : Allocator) (bytes : Bytes)
    → packet_head_len ≤ length bytes
    → new_packet_from_bytes heap (some bytes) ≡ some (packet_of_bytes heap bytes)
unfolding new_packet_from_bytes
accepted heap bytes long =
    let enough : ltb (length bytes) packet_head_len ≡ false = ground (arith, long) in
    rw (enough, new_packet_from_bytes) refl

length-frame : (bytes : Bytes) → length (frame bytes) ≡ length bytes + 4
unfolding frame htonl
length-frame bytes = omega arith

-- A packet of 32-bit codes that fits the receiver's buffer with 4 bytes to spare, queued by `write` and
-- received as one task, becomes a packet whose operation code is its length times 2^16, whatever its
-- operation code was: never one of the numbers of messages.
pub frame-misread :
    (heap : Allocator) (opercode errcode : ℤ) (content : Option Bytes)
    → IsInt32 opercode
    → IsInt32 errcode
    → packet_head_len + payload_len content + 4 ≤ max_recv_buffer_len
    → let sent = frame (wire heap (new_packet_with heap opercode errcode content)) in
      (p : Packet) × (new_packet_from_bytes heap (some sent) ≡ some p)
      × (p.operate_code ≡ pos ((packet_head_len + payload_len content) * 2 ^ 16))
      × (message_id_is_valid p.operate_code ≡ false)
unfolding frame
frame-misread heap opercode errcode content o e short =
    let bytes = wire heap (new_packet_with heap opercode errcode content) in
    let n = packet_head_len + payload_len content in
    let c = new_packet_with-Carried heap opercode errcode content o e (omega (arith, short)) in
    let size = length-wire heap opercode errcode content in
    let long : packet_head_len ≤ length (frame bytes) = omega (arith, size, length-frame bytes) in
    let p = packet_of_bytes-Loaded heap (frame bytes) long in
    let late =
      ap (λ b. ntohl (slice 6 4 (htonl (pos (length bytes + 4)) ++ b))) c.shape
      ∙ read_late n (length bytes + 4) opercode errcode (drop packet_head_len bytes)
          (omega (arith, short)) in
    let code : (packet_of_bytes heap (frame bytes)).operate_code ≡ pos (n * 2 ^ 16) =
      p.operate_code ∙ late in
    (
      packet_of_bytes heap (frame bytes),
      accepted heap (frame bytes) long,
      code,
      ap message_id_is_valid code ∙ no_message n (omega arith),
    )
