-- ===== src/Packet/Numbers/Exchange.antt =====
-- Numbers that are written into a packet and read again (oryx/packet.cpp).
use oryxgame.Common.{
  ℕ, zero, suc, append-nil, ◌+◌, ◌-◌, ◌%◌, ◌^◌, ◌≤◌, ◌<◌, ◌≡◌, refl, sym, ap, ◌∙◌, true, false,
  some, [], ◌∷◌, arith, ltb, ◌==◌, length, ◌||◌,
}
use oryxgame.Common.Int.{ℤ, pos, negsuc, IsInt32, ◌≤ℤ◌, ltb_ℤ}
use oryxgame.Common.Bytes.{Bytes, Allocator, htonl, ntohl, ntohl-htonl, slice, overwrite}
use oryxgame.Packet.{Packet, needed, check_len, write_data, write_int32, read_int32}
use oryxgame.Packet.Buffer.{IsValid, reserve-Reserved}
use oryxgame.Packet.Numbers.{
  word16, signed16, htons, ntohs, ntohl_unsigned, write_uint32, write_int16, write_uint16,
  read_uint32, read_int16, read_uint16,
}

-- The range of `short`.
abbrev pub IsInt16 : ℤ → Type 0
IsInt16 z = (negsuc (2 ^ 15 - 1) ≤ℤ z) × (z ≤ℤ pos (2 ^ 15 - 1))

signed16-word16 : (z : ℤ) → IsInt16 z → signed16 (word16 z) ≡ z
signed16-word16 z h = ground arith

word16-lt : (z : ℤ) → word16 z < 2 ^ 16
word16-lt z = ground arith

slice-overwrite :
    (dst : Bytes) (at : ℕ) (src : Bytes)
    → at + length src ≤ length dst
    → slice at (length src) (overwrite dst at src) ≡ src
unfolding overwrite
slice-overwrite [] zero [] h = refl
slice-overwrite [] zero (s ∷ src) h = absurd (omega (arith, h))
slice-overwrite [] (suc at) src h = absurd (omega (arith, h))
slice-overwrite (x ∷ dst) zero [] h = refl
slice-overwrite (x ∷ dst) zero (s ∷ src) h =
    ap (◌∷◌ s) (slice-overwrite dst zero src (omega (arith, h)))
slice-overwrite (x ∷ dst) (suc at) src h = slice-overwrite dst at src (omega (arith, h))

module _ (heap : Allocator) where
  -- Bytes that are written within the used part are found there.
  found_again :
      {p : Packet} (bytes : Bytes) (at : ℕ)
      → IsValid p
      → 0 < length bytes
      → (slice at (length bytes) (write_data heap p (some bytes) (pos at)).bytes ≡ bytes)
        × ((write_data heap p (some bytes) (pos at)).data_now_len ≡ p.data_now_len)
  unfolding write_data check_len
  found_again {p} bytes at v some_bytes =
      let need = needed (pos (length bytes + at)) in
      let r = reserve-Reserved heap {p = p} need v in
      let enough : length bytes + at ≤ need = ground arith in
      let written : (length bytes == 0 || ltb_ℤ (pos at) (pos 0)) ≡ false =
        ground (arith, some_bytes) in
      rw written (
        slice-overwrite (check_len heap p (pos (length bytes + at))).bytes at bytes
            (omega (arith, r.valid.size, r.enough, enough)),
        r.now,
      )

  module _ {p : Packet} (at : ℕ) (v : IsValid p) where
    int32_again :
        (value : ℤ)
        → IsInt32 value
        → at + 4 ≤ p.data_now_len
        → read_int32 (write_int32 heap p value at) at ≡ value
    unfolding read_int32 write_int32 htonl
    int32_again value i used =
        let q = write_int32 heap p value at in
        let (bytes, now) = found_again {p = p} (htonl value) at v (omega arith) in
        let room : ltb q.data_now_len (at + 4) ≡ false = ground (arith, now, used) in
        rw room (ap ntohl (bytes ∙ sym (append-nil (htonl value))) ∙ ntohl-htonl value [] i)

    uint32_again :
        (value : ℕ)
        → value < 2 ^ 32
        → at + 4 ≤ p.data_now_len
        → read_uint32 (write_uint32 heap p value at) at ≡ value
    unfolding read_uint32 write_uint32 htonl ntohl_unsigned
    uint32_again value i used =
        let q = write_uint32 heap p value at in
        let (bytes, now) = found_again {p = p} (htonl (pos value)) at v (omega arith) in
        let room : ltb q.data_now_len (at + 4) ≡ false = ground (arith, now, used) in
        let whole : ntohl_unsigned (htonl (pos value)) ≡ value = omega (arith, i) in
        rw room (ap ntohl_unsigned bytes ∙ whole)

    int16_again :
        (value : ℤ)
        → IsInt16 value
        → at + 2 ≤ p.data_now_len
        → read_int16 (write_int16 heap p value at) at ≡ value
    unfolding read_int16 write_int16 htons ntohs
    int16_again value i used =
        let q = write_int16 heap p value at in
        let (bytes, now) = found_again {p = p} (htons (word16 value)) at v (omega arith) in
        let room : ltb q.data_now_len (at + 2) ≡ false = ground (arith, now, used) in
        let whole : ntohs (htons (word16 value)) ≡ word16 value = omega arith in
        rw room (ap (λ b. signed16 (ntohs b)) bytes ∙ ap signed16 whole ∙ signed16-word16 value i)

    uint16_again :
        (value : ℕ)
        → value < 2 ^ 16
        → at + 2 ≤ p.data_now_len
        → read_uint16 (write_uint16 heap p value at) at ≡ value
    unfolding read_uint16 write_uint16 htons ntohs
    uint16_again value i used =
        let q = write_uint16 heap p value at in
        let (bytes, now) = found_again {p = p} (htons (value % 2 ^ 16)) at v (omega arith) in
        let room : ltb q.data_now_len (at + 2) ≡ false = ground (arith, now, used) in
        let whole : ntohs (htons (value % 2 ^ 16)) ≡ value = omega (arith, i) in
        rw room (ap ntohs bytes ∙ whole)

  -- A number of each of the four types that is written within the used part of a packet is read back as it
  -- was. Behind the used part every read returns 0.
  pub read-write :
      {p : Packet} (at behind : ℕ) (int32 : ℤ) (uint32 : ℕ) (int16 : ℤ) (uint16 : ℕ)
      → IsValid p
      → at + 4 ≤ p.data_now_len
      → p.data_now_len < behind + 2
      → IsInt32 int32
      → uint32 < 2 ^ 32
      → IsInt16 int16
      → uint16 < 2 ^ 16
      → (read_int32 (write_int32 heap p int32 at) at ≡ int32)
        × (read_uint32 (write_uint32 heap p uint32 at) at ≡ uint32)
        × (read_int16 (write_int16 heap p int16 at) at ≡ int16)
        × (read_uint16 (write_uint16 heap p uint16 at) at ≡ uint16)
        × (read_int32 p behind ≡ pos 0)
        × (read_uint32 p behind ≡ 0)
        × (read_int16 p behind ≡ pos 0)
        × (read_uint16 p behind ≡ 0)
  unfolding read_int32 read_uint32 read_int16 read_uint16
  read-write {p} at behind int32 uint32 int16 uint16 v used far i32 u32 i16 u16 =
      let short : ltb p.data_now_len (behind + 2) ≡ true = ground (arith, far) in
      let shorter : ltb p.data_now_len (behind + 4) ≡ true = ground (arith, far) in
      (
        int32_again at v int32 i32 used,
        uint32_again at v uint32 u32 used,
        int16_again at v int16 i16 (omega (arith, used)),
        uint16_again at v uint16 u16 (omega (arith, used)),
        rw shorter refl,
        rw shorter refl,
        rw short refl,
        rw short refl,
      )
