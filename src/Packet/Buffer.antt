-- ===== src/Packet/Buffer.antt =====
-- `CheckLen` and `WriteData` of oryx/packet.cpp, and the size of the buffer.
use oryxgame.Common.{
  ℕ, zero, suc, ◌+◌, ◌*◌, ◌^◌, ◌≤◌, ◌<◌, ◌≡◌, ap, ◌∙◌, arith, ltb, if◌then◌else◌, length, take,
  length-take,
}
use oryxgame.Common.Int.{ℤ, pos_part}
use oryxgame.Common.Bytes.{Bytes, Allocator, overwrite, length-overwrite}
use oryxgame.Common.Slices.{take-overwrite}
use oryxgame.Packet.{Packet, packet_head_len, needed, grow, reserve, check_len}

-- The loop of `CheckLen` ends with a size that is large enough.
pub grow-ge : (fuel size len : ℕ) → len ≤ size + fuel → len ≤ grow fuel size len
unfolding grow
grow-ge zero size len h = omega arith
grow-ge (suc fuel) size len h =
    ground (arith, grow-ge fuel (if ltb size 256 then 256 else size * 2) len)

-- The sizes that the loop goes through fit an `INT32` while the length is at most 2^30.
pub grow-lt : (fuel size len : ℕ) → size < 2 ^ 31 → len ≤ 2 ^ 30 → grow fuel size len < 2 ^ 31
unfolding grow
grow-lt zero size len h k = h
grow-lt (suc fuel) size len h k =
    ground (arith, grow-lt fuel (if ltb size 256 then 256 else size * 2) len)

pub record IsValid (p : Packet) : Type 0 where
  pub size : length p.bytes ≡ p.data_max_len
  pub used : p.data_now_len ≤ p.data_max_len

-- What `CheckLen` does for a need that it was given.
pub record Reserved (p : Packet) (need : ℕ) (q : Packet) : Type 0 where
  pub valid : IsValid q
  pub enough : need ≤ q.data_max_len
  pub grown : p.data_max_len ≤ q.data_max_len
  pub kept : take p.data_now_len q.bytes ≡ take p.data_now_len p.bytes
  pub message_len : q.message_len ≡ p.message_len
  pub version : q.version ≡ p.version
  pub operate_code : q.operate_code ≡ p.operate_code
  pub error_code : q.error_code ≡ p.error_code
  pub now : q.data_now_len ≡ p.data_now_len

copied_len : (p : Packet) → IsValid p → length (take p.data_now_len p.bytes) ≡ p.data_now_len
copied_len p v = omega (arith, length-take p.data_now_len p.bytes)

-- The used bytes, copied into a larger array, are its first bytes.
take-copied :
    (p : Packet) (buff : Bytes)
    → IsValid p
    → p.data_now_len ≤ length buff
    → take p.data_now_len (overwrite buff 0 (take p.data_now_len p.bytes))
      ≡ take p.data_now_len p.bytes
take-copied p buff v h =
    ap (λ n. take n (overwrite buff 0 (take p.data_now_len p.bytes))) size
    ∙ take-overwrite buff 0 (take p.data_now_len p.bytes) (omega (arith, copied_len p v))
  where
    size : p.data_now_len ≡ 0 + length (take p.data_now_len p.bytes)
    size = omega (arith, copied_len p v)

module _ (heap : Allocator) where
  pub reserve-Reserved : {p : Packet} (need : ℕ) → IsValid p → Reserved p need (reserve heap p need)
  unfolding reserve
  reserve-Reserved {p} need v =
      let size = grow need p.data_max_len need in
      ground (
        arith,
        heap.length_fresh size,
        grow-ge need p.data_max_len need,
        length-overwrite (heap.fresh size) 0 (take p.data_now_len p.bytes),
        take-copied p (heap.fresh size) v,
      )

  pub data_max_len-reserve-lt :
      (p : Packet) (need : ℕ)
      → p.data_max_len < 2 ^ 31
      → need ≤ 2 ^ 30
      → (reserve heap p need).data_max_len < 2 ^ 31
  unfolding reserve
  data_max_len-reserve-lt p need h k = ground (arith, grow-lt need p.data_max_len need)

  -- `CheckLen` on a consistent packet makes room for the length it is given and for the head, keeps the
  -- used bytes and all fields, and never shrinks; from a size below 2^31 and for a length of at most
  -- 2^30 the size stays below 2^31.
  pub check_len_lem :
      {p : Packet} (len : ℤ)
      → IsValid p
      → p.data_max_len < 2 ^ 31
      → pos_part len ≤ 2 ^ 30
      → Reserved p (needed len) (check_len heap p len)
        × (packet_head_len ≤ needed len)
        × (pos_part len ≤ needed len)
        × ((check_len heap p len).data_max_len < 2 ^ 31)
  unfolding check_len
  check_len_lem {p} len v h k = (
    reserve-Reserved (needed len) v,
    ground arith,
    ground arith,
    data_max_len-reserve-lt p (needed len) h (ground arith),
  )
