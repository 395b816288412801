-- ===== src/Packet/Framing.antt =====
-- A packet of oryx/packet.cpp as a frame of the stream that a connection carries.
use oryxgame.Common.{
  ◌+◌, ◌≤◌, ◌<◌, ◌≡◌, sym, ap, ◌∙◌, Option, none, some, [], ◌∷◌, arith, length, length-take,
}
use oryxgame.Common.Int.{ℤ, pos, pos_part, IsInt32}
use oryxgame.Common.Bytes.{Bytes, Allocator}
use oryxgame.Device.{max_recv_buffer_len}
use oryxgame.Frames.Laws.{IsFrame}
use oryxgame.Packet.{packet_head_len, packet_of_codes, new_packet_with}
use oryxgame.Packet.Append.{packet_of_codes-Made}
use oryxgame.Packet.RealData.{new_packet_with-Appended, get_real_data-new_packet_with}
use oryxgame.Packet.Wire.{payload_len, wire, new_packet_with-Carried}

module _ (heap : Allocator) where
  codes-length :
      (opercode errcode : ℤ)
      → length (wire heap (packet_of_codes heap opercode errcode)) ≡ packet_head_len
  codes-length opercode errcode =
      let p = packet_of_codes heap opercode errcode in
      let m = packet_of_codes-Made heap opercode errcode in
      omega (
        arith,
        length-take (pos_part p.message_len) p.bytes,
        ap pos_part m.message_len,
        m.valid.size,
        m.room,
      )

  data-length :
      (opercode errcode : ℤ) (bytes : Bytes)
      → 0 < length bytes
      → length (wire heap (new_packet_with heap opercode errcode (some bytes)))
        ≡ packet_head_len + length bytes
  data-length opercode errcode bytes h =
      let q = new_packet_with heap opercode errcode (some bytes) in
      let a = new_packet_with-Appended heap opercode errcode bytes h in
      let len = (get_real_data-new_packet_with heap opercode errcode bytes h).0 in
      let room : packet_head_len + length bytes ≤ q.data_max_len = ground (arith, len, a.room) in
      omega
        (arith, length-take (pos_part q.message_len) q.bytes, ap pos_part len, a.valid.size, room)

  pub length-wire :
      (opercode errcode : ℤ) (content : Option Bytes)
      → length (wire heap (new_packet_with heap opercode errcode content))
        ≡ packet_head_len + payload_len content
  unfolding new_packet_with
  length-wire opercode errcode none = codes-length opercode errcode
  length-wire opercode errcode (some []) = codes-length opercode errcode
  length-wire opercode errcode (some (c ∷ bytes)) =
      data-length opercode errcode (c ∷ bytes) (omega arith)

  -- What goes over the wire is one frame, if it is not longer than the buffer of the receiver.
  pub wire-IsFrame :
      (opercode errcode : ℤ) (content : Option Bytes)
      → IsInt32 opercode
      → IsInt32 errcode
      → packet_head_len + payload_len content ≤ max_recv_buffer_len
      → IsFrame (wire heap (new_packet_with heap opercode errcode content))
  wire-IsFrame opercode errcode content o e short =
      let len = length-wire opercode errcode content in
      let c = new_packet_with-Carried heap opercode errcode content o e (omega (arith, short)) in
      (omega (arith, len), omega (arith, len, short), c.frame_len ∙ ap pos (sym len))
