-- ===== src/Common/Bytes.antt =====
-- C byte arrays: lists of bytes, with `memcpy`, fresh memory and network byte order.
use oryxgame.Common.Lists.{length, take, drop}
use oryxgame.Common.Int.{ℤ, signed32, word32, IsInt32, signed32-word32}
use Prim.Native.Nat.{ℕ, zero, suc, ◌+◌, ◌*◌, ◌/◌, ◌%◌, ◌^◌, ◌≤◌}
use mathlib.Core.Path.{◌≡◌, refl, ap}
use mathlib.Core.List.{List, [], ◌∷◌, ◌++◌}
use native.Mathlib.Omega.{arith}

abbrev pub Bytes : Type 0
Bytes = List ℕ

-- What `new char[n]` returns: `n` bytes of any content.
pub record Allocator : Type 0 where
  pub fresh : ℕ → Bytes
  pub length_fresh : (n : ℕ) → length (fresh n) ≡ n

-- `memcpy(dst + pos, src, length src)`. Nothing is written past the end of `dst`.
unfoldable pub overwrite : Bytes → ℕ → Bytes → Bytes
overwrite [] pos src = []
overwrite (x ∷ dst) zero [] = x ∷ dst
overwrite (x ∷ dst) zero (s ∷ src) = s ∷ overwrite dst zero src
overwrite (x ∷ dst) (suc pos) src = x ∷ overwrite dst pos src

-- The `n` bytes at `src + pos`.
abbrev pub slice : ℕ → ℕ → Bytes → Bytes
slice pos n src = take n (drop pos src)

pub length-overwrite :
    (dst : Bytes) (pos : ℕ) (src : Bytes) → length (overwrite dst pos src) ≡ length dst
unfolding overwrite
length-overwrite [] pos src = refl
length-overwrite (x ∷ dst) zero [] = refl
length-overwrite (x ∷ dst) zero (s ∷ src) = ap suc (length-overwrite dst zero src)
length-overwrite (x ∷ dst) (suc pos) src = ap suc (length-overwrite dst pos src)

-- A copy that fits replaces those bytes and no other.
pub overwrite_lem :
    (dst : Bytes) (pos : ℕ) (src : Bytes)
    → pos + length src ≤ length dst
    → overwrite dst pos src ≡ take pos dst ++ (src ++ drop (length src) (drop pos dst))
unfolding overwrite
overwrite_lem [] zero [] h = refl
overwrite_lem [] zero (s ∷ src) h = absurd (omega arith)
overwrite_lem [] (suc pos) src h = absurd (omega arith)
overwrite_lem (x ∷ dst) zero [] h = refl
overwrite_lem (x ∷ dst) zero (s ∷ src) h = ap (◌∷◌ s) (overwrite_lem dst zero src (omega arith))
overwrite_lem (x ∷ dst) (suc pos) src h = ap (◌∷◌ x) (overwrite_lem dst pos src (omega arith))

-- `htonl` as the four bytes that it leaves in memory, and `ntohl` of four bytes.
unfoldable pub htonl : ℤ → Bytes
htonl z =
    let w = word32 z in (w / 2 ^ 24) ∷ (w / 2 ^ 16 % 2 ^ 8) ∷ (w / 2 ^ 8 % 2 ^ 8) ∷ (w % 2 ^ 8) ∷ []

unfoldable pub ntohl : Bytes → ℤ
ntohl (a ∷ b ∷ c ∷ d ∷ rest) = signed32 (a * 2 ^ 24 + b * 2 ^ 16 + c * 2 ^ 8 + d)
ntohl _ = signed32 0

pub length-htonl : (z : ℤ) → length (htonl z) ≡ 4
unfolding htonl
length-htonl z = refl

pub ntohl-htonl : (z : ℤ) (rest : Bytes) → IsInt32 z → ntohl (htonl z ++ rest) ≡ z
unfolding ntohl htonl
ntohl-htonl z rest h = rw regroup (signed32-word32 z h)
  where
    regroup :
        word32 z / 2 ^ 24 * 2 ^ 24
          + word32 z / 2 ^ 16 % 2 ^ 8 * 2 ^ 16
          + word32 z / 2 ^ 8 % 2 ^ 8 * 2 ^ 8
          + word32 z % 2 ^ 8
        ≡ word32 z
    regroup = omega arith
