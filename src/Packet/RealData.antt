-- ===== src/Packet/RealData.antt =====
-- `NewPacket` with data and `GetRealData` (oryx/packet.cpp).
use oryxgame.Common.{
  ℕ, ◌+◌, ◌-◌, ◌<◌, ◌≡◌, sym, ap, ◌∙◌, none, some, ◌++◌, arith, ltb, if◌then◌else◌, length, take,
  drop,
}
use oryxgame.Common.Int.{ℤ, pos, ◌+ℤ◌, +ℤ-pos}
use oryxgame.Common.Bytes.{Bytes, Allocator}
use oryxgame.Common.Slices.{drop-take}
use oryxgame.Packet.{
  Packet, packet_head_len, append, packet_of_codes, new_packet_with, get_real_data,
}
use oryxgame.Packet.Append.{Appended, append-Appended, Made, packet_of_codes-Made}

real_data :
    (q : Packet) (n : ℕ)
    → q.data_now_len ≡ n
    → get_real_data q ≡ (
        if ltb packet_head_len n
        then (n - packet_head_len, some (drop packet_head_len (take n q.bytes)))
        else (0, none))
unfolding get_real_data
real_data q n e = ground (arith, drop-take packet_head_len n q.bytes)

module _ (heap : Allocator) where
  new_packet_with-append :
      (opercode errcode : ℤ) (bytes : Bytes)
      → 0 < length bytes
      → new_packet_with heap opercode errcode (some bytes)
        ≡ append heap (packet_of_codes heap opercode errcode) (some bytes)
  unfolding new_packet_with
  new_packet_with-append opercode errcode bytes h = ground arith

  pub new_packet_with-Appended :
      (opercode errcode : ℤ) (bytes : Bytes)
      → 0 < length bytes
      → Appended
          (packet_of_codes heap opercode errcode)
          bytes
          (new_packet_with heap opercode errcode (some bytes))
  new_packet_with-Appended opercode errcode bytes h =
      rw (new_packet_with-append opercode errcode bytes h)
        (append-Appended heap bytes (packet_of_codes-Made heap opercode errcode).valid h)

  -- A new packet with at least one byte of data: its message length counts the head and all of the data,
  -- but `GetRealData` finds the data without its first 14 bytes, and nothing if there are no more.
  pub get_real_data-new_packet_with :
      (opercode errcode : ℤ) (bytes : Bytes)
      → 0 < length bytes
      → ((new_packet_with heap opercode errcode (some bytes)).message_len
          ≡ pos (packet_head_len + length bytes))
        × (get_real_data (new_packet_with heap opercode errcode (some bytes)) ≡ (
            if ltb packet_head_len (length bytes)
            then (length bytes - packet_head_len, some (drop packet_head_len bytes))
            else (0, none)))
  get_real_data-new_packet_with opercode errcode bytes h = (
    a.message_len
        ∙ ap (λ len. len +ℤ pos (length bytes)) m.message_len
        ∙ +ℤ-pos packet_head_len (length bytes),
    found,
  )
    where
      p : Packet
      p = packet_of_codes heap opercode errcode

      q : Packet
      q = new_packet_with heap opercode errcode (some bytes)

      m : Made opercode errcode p
      m = packet_of_codes-Made heap opercode errcode

      a : Appended p bytes q
      a = new_packet_with-Appended opercode errcode bytes h

      now : q.data_now_len ≡ length bytes
      now = omega (arith, a.now, m.now)

      content : drop packet_head_len (take (length bytes) q.bytes) ≡ drop packet_head_len bytes
      content =
          ap (λ n. drop packet_head_len (take n q.bytes)) (sym now)
          ∙ a.content
          ∙ ap (λ n. drop packet_head_len (take n p.bytes ++ bytes)) m.now

      found : get_real_data q ≡ (
          if ltb packet_head_len (length bytes)
          then (length bytes - packet_head_len, some (drop packet_head_len bytes))
          else (0, none))
      found =
          real_data q (length bytes) now
          ∙ ap
              (λ rest.
                if ltb packet_head_len (length bytes)
                then (length bytes - packet_head_len, some rest)
                else (0, none))
              content
