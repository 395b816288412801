-- ===== src/Packet/Wire.antt =====
-- `NewPacketFromBytes` of oryx/packet.cpp on what a packet's buffer holds.
use oryxgame.Common.{
  ℕ, ◌+◌, ◌/◌, ◌^◌, ◌≤◌, ◌<◌, ◌≡◌, refl, sym, ap, subst, ◌∙◌, Option, none, some, [], ◌∷◌, ◌++◌,
  arith, length, take, drop, take-append-drop,
}
use oryxgame.Common.Int.{ℤ, pos, pos_part, IsInt32, word32, word32-lt}
use oryxgame.Common.Bytes.{Bytes, Allocator, htonl, ntohl, ntohl-htonl, slice}
use oryxgame.Common.Slices.{take-take}
use oryxgame.Packet.{
  packet_version, Packet, packet_head_len, packet_of_bytes, packet_of_codes, new_packet_with,
  new_packet_from_bytes,
}
use oryxgame.Packet.Head.{head}
use oryxgame.Packet.Append.{Made, packet_of_codes-Made, Appended}
use oryxgame.Packet.RealData.{new_packet_with-Appended, get_real_data-new_packet_with}
use oryxgame.Packet.Reading.{Loaded, packet_of_bytes-Loaded}

-- The size of the data, 0 for a null pointer.
abbrev pub payload_len : Option Bytes → ℕ
payload_len none = 0
payload_len (some bytes) = length bytes

-- The four fields of a head that stands in front of other bytes.
module _ (len opercode errcode : ℤ) (tail : Bytes) where
  slice_len : slice 0 4 (head len packet_version opercode errcode ++ tail) ≡ htonl len ++ []
  unfolding head htonl
  slice_len = refl

  slice_opercode :
      slice 6 4 (head len packet_version opercode errcode ++ tail) ≡ htonl opercode ++ []
  unfolding head htonl
  slice_opercode = refl

  slice_errcode :
      slice 10 4 (head len packet_version opercode errcode ++ tail) ≡ htonl errcode ++ []
  unfolding head htonl
  slice_errcode = refl

  read_version :
      ntohl (slice 4 4 (head len packet_version opercode errcode ++ tail))
      ≡ pos (word32 opercode / 2 ^ 16)
  unfolding head htonl ntohl
  read_version = ground (arith, word32-lt opercode)

  length-head : packet_head_len ≤ length (head len packet_version opercode errcode ++ tail)
  unfolding head htonl
  length-head = omega arith

module _ (heap : Allocator) where
  -- What a packet is after a round over the wire.
  pub record Carried (len : ℕ) (opercode errcode : ℤ) (bytes : Bytes) : Type 0 where
    pub packet : Packet
    pub accepted : new_packet_from_bytes heap (some bytes) ≡ some packet
    pub message_len : packet.message_len ≡ pos len
    pub frame_len : ntohl (take 4 bytes) ≡ pos len
    pub shape : bytes ≡ head (pos len) packet_version opercode errcode ++ drop packet_head_len bytes
    pub operate_code : packet.operate_code ≡ opercode
    pub error_code : packet.error_code ≡ errcode
    pub version : packet.version ≡ pos (word32 opercode / 2 ^ 16)

  head-Carried :
      (len : ℕ) (opercode errcode : ℤ) (tail : Bytes)
      → len < 2 ^ 31
      → IsInt32 opercode
      → IsInt32 errcode
      → Carried len opercode errcode (head (pos len) packet_version opercode errcode ++ tail)
  unfolding new_packet_from_bytes head htonl
  head-Carried len opercode errcode tail l o e = record {
    packet = packet_of_bytes heap bytes;
    accepted = ground (arith, length-head (pos len) opercode errcode tail);
    message_len =
        p.message_len
        ∙ ap ntohl (slice_len (pos len) opercode errcode tail)
        ∙ ntohl-htonl (pos len) [] (omega arith);
    shape = refl;
    frame_len =
        ap ntohl (slice_len (pos len) opercode errcode tail)
        ∙ ntohl-htonl (pos len) [] (omega arith);
    operate_code =
        p.operate_code
        ∙ ap ntohl (slice_opercode (pos len) opercode errcode tail)
        ∙ ntohl-htonl opercode [] o;
    error_code =
        p.error_code
        ∙ ap ntohl (slice_errcode (pos len) opercode errcode tail)
        ∙ ntohl-htonl errcode [] e;
    version = p.version ∙ read_version (pos len) opercode errcode tail;
  }
    where
      bytes : Bytes
      bytes = head (pos len) packet_version opercode errcode ++ tail

      long : packet_head_len ≤ length bytes
      long = length-head (pos len) opercode errcode tail

      p : Loaded bytes (packet_of_bytes heap bytes)
      p = packet_of_bytes-Loaded heap bytes long

  -- The bytes that go over the wire: `message_len` bytes from the start of the buffer.
  abbrev pub wire : Packet → Bytes
  wire p = take (pos_part p.message_len) p.bytes

  wire-front :
      (p : Packet) (n : ℕ) (h : Bytes)
      → take packet_head_len p.bytes ≡ h
      → p.message_len ≡ pos n
      → packet_head_len ≤ n
      → wire p ≡ h ++ drop packet_head_len (wire p)
  wire-front p n h front m k =
      sym (take-append-drop packet_head_len (wire p))
      ∙ ap (λ front. front ++ drop packet_head_len (wire p))
          (ap (λ k. take packet_head_len (take (pos_part k) p.bytes)) m
            ∙ take-take packet_head_len n p.bytes k
            ∙ front)

  wire-Carried :
      (p : Packet) (n : ℕ) (opercode errcode : ℤ)
      → take packet_head_len p.bytes ≡ head (pos n) packet_version opercode errcode
      → p.message_len ≡ pos n
      → packet_head_len ≤ n
      → n < 2 ^ 31
      → IsInt32 opercode
      → IsInt32 errcode
      → Carried n opercode errcode (wire p)
  wire-Carried p n opercode errcode front m k l o e =
      subst (Carried n opercode errcode)
        (sym (wire-front p n (head (pos n) packet_version opercode errcode) front m k))
        (head-Carried n opercode errcode (drop packet_head_len (wire p)) l o e)

  codes-Carried :
      (opercode errcode : ℤ) (n : ℕ)
      → n ≡ packet_head_len
      → IsInt32 opercode
      → IsInt32 errcode
      → Carried n opercode errcode (wire (packet_of_codes heap opercode errcode))
  codes-Carried opercode errcode n z o e =
      let m = packet_of_codes-Made heap opercode errcode in
      wire-Carried (packet_of_codes heap opercode errcode) n opercode errcode
        (ground (arith, m.front)) (ground (arith, m.message_len)) (omega arith) (omega arith) o e

  data-Carried :
      (opercode errcode : ℤ) (bytes : Bytes)
      → 0 < length bytes
      → packet_head_len + length bytes < 2 ^ 31
      → IsInt32 opercode
      → IsInt32 errcode
      → Carried
          (packet_head_len + length bytes)
          opercode
          errcode
          (wire (new_packet_with heap opercode errcode (some bytes)))
  data-Carried opercode errcode bytes h l o e =
      wire-Carried q (packet_head_len + length bytes) opercode errcode front len (omega arith) l o e
    where
      q : Packet
      q = new_packet_with heap opercode errcode (some bytes)

      m : Made opercode errcode (packet_of_codes heap opercode errcode)
      m = packet_of_codes-Made heap opercode errcode

      a : Appended (packet_of_codes heap opercode errcode) bytes q
      a = new_packet_with-Appended heap opercode errcode bytes h

      len : q.message_len ≡ pos (packet_head_len + length bytes)
      len = (get_real_data-new_packet_with heap opercode errcode bytes h).0

      front :
          take packet_head_len q.bytes
          ≡ head (pos (packet_head_len + length bytes)) packet_version opercode errcode
      front = ground (arith, a.front, len, m.version, m.operate_code, m.error_code)

  -- A new packet with codes of 32 bits and data or none, fewer than 2^31 bytes in all, is read back from
  -- its bytes with its message length and both codes. The version that is read is the high half of the
  -- operation code, whatever the packet's version was.
  pub new_packet_with-Carried :
      (opercode errcode : ℤ) (content : Option Bytes)
      → IsInt32 opercode
      → IsInt32 errcode
      → packet_head_len + payload_len content < 2 ^ 31
      → Carried
          (packet_head_len + payload_len content)
          opercode
          errcode
          (wire (new_packet_with heap opercode errcode content))
  unfolding new_packet_with
  new_packet_with-Carried opercode errcode none o e l = codes-Carried opercode errcode 14 refl o e
  new_packet_with-Carried opercode errcode (some []) o e l =
      codes-Carried opercode errcode 14 refl o e
  new_packet_with-Carried opercode errcode (some (b ∷ bytes)) o e l =
      data-Carried opercode errcode (b ∷ bytes) (omega arith) l o e
