-- ===== src/Common/Slices.antt =====
-- How `take`, `drop`, `++` and a copy into an array go together.
use oryxgame.Common.Lists.{length, take, drop, length-take, length-drop}
use oryxgame.Common.Bytes.{Bytes, overwrite, slice, length-overwrite}
use Prim.Native.Nat.{ℕ, zero, suc, ◌+◌, ◌-◌, ◌≤◌}
use mathlib.Core.Path.{◌≡◌, refl, sym, ap, ◌∙◌}
use mathlib.Core.List.{List, [], ◌∷◌, ◌++◌}
use native.Mathlib.Omega.{arith}

module _ {ℓ} {A : Type ℓ} where
  pub take-all : (n : ℕ) (xs : List A) → length xs ≤ n → take n xs ≡ xs
  take-all zero [] h = refl
  take-all zero (x ∷ xs) h = absurd (omega arith)
  take-all (suc n) [] h = refl
  take-all (suc n) (x ∷ xs) h = ap (◌∷◌ x) (take-all n xs (omega arith))

  pub drop-all : (n : ℕ) (xs : List A) → length xs ≤ n → drop n xs ≡ []
  drop-all zero [] h = refl
  drop-all zero (x ∷ xs) h = absurd (omega arith)
  drop-all (suc n) [] h = refl
  drop-all (suc n) (x ∷ xs) h = drop-all n xs (omega arith)

  pub take-append_le : (n : ℕ) (xs ys : List A) → n ≤ length xs → take n (xs ++ ys) ≡ take n xs
  take-append_le zero xs ys h = refl
  take-append_le (suc n) [] ys h = absurd (omega arith)
  take-append_le (suc n) (x ∷ xs) ys h = ap (◌∷◌ x) (take-append_le n xs ys (omega arith))

  pub drop-append_le :
      (n : ℕ) (xs ys : List A) → n ≤ length xs → drop n (xs ++ ys) ≡ drop n xs ++ ys
  drop-append_le zero xs ys h = refl
  drop-append_le (suc n) [] ys h = absurd (omega arith)
  drop-append_le (suc n) (x ∷ xs) ys h = drop-append_le n xs ys (omega arith)

  pub take-append_self : (xs ys : List A) → take (length xs) (xs ++ ys) ≡ xs
  take-append_self [] ys = refl
  take-append_self (x ∷ xs) ys = ap (◌∷◌ x) (take-append_self xs ys)

  pub drop-append_self : (xs ys : List A) → drop (length xs) (xs ++ ys) ≡ ys
  drop-append_self [] ys = refl
  drop-append_self (x ∷ xs) ys = drop-append_self xs ys

  pub drop-append_add : (n : ℕ) (xs ys : List A) → drop (length xs + n) (xs ++ ys) ≡ drop n ys
  drop-append_add n [] ys = ap (λ k. drop k ys) (omega arith)
  drop-append_add n (x ∷ xs) ys = ap (λ k. drop k (x ∷ xs ++ ys)) shift ∙ drop-append_add n xs ys
    where
      shift : length (x ∷ xs) + n ≡ suc (length xs + n)
      shift = omega arith

  pub take-take : (m n : ℕ) (xs : List A) → m ≤ n → take m (take n xs) ≡ take m xs
  take-take zero n xs h = refl
  take-take (suc m) zero xs h = absurd (omega arith)
  take-take (suc m) (suc n) [] h = refl
  take-take (suc m) (suc n) (x ∷ xs) h = ap (◌∷◌ x) (take-take m n xs (omega arith))

  pub drop-drop : (m n : ℕ) (xs : List A) → drop m (drop n xs) ≡ drop (n + m) xs
  drop-drop m zero xs = ap (λ k. drop k xs) (omega arith)
  drop-drop zero (suc n) [] = sym (drop-all (suc n + zero) [] (omega arith))
  drop-drop (suc m) (suc n) [] = sym (drop-all (suc n + suc m) [] (omega arith))
  drop-drop m (suc n) (x ∷ xs) = drop-drop m n xs ∙ ap (λ k. drop k (x ∷ xs)) shift
    where
      shift : suc (n + m) ≡ suc n + m
      shift = omega arith

  pub drop-take : (m n : ℕ) (xs : List A) → drop m (take n xs) ≡ take (n - m) (drop m xs)
  drop-take zero n xs = ap (λ k. take k xs) (omega arith)
  drop-take (suc m) zero xs = ap (λ k. take k (drop (suc m) xs)) zero_sub
    where
      zero_sub : zero ≡ zero - suc m
      zero_sub = omega arith
  drop-take (suc m) (suc n) [] = sym (take-all (suc n - suc m) [] (omega arith))
  drop-take (suc m) (suc n) (x ∷ xs) = drop-take m n xs ∙ ap (λ k. take k (drop m xs)) shift
    where
      shift : n - m ≡ suc n - suc m
      shift = omega arith

pub length-slice : (pos n : ℕ) (src : Bytes) → pos + n ≤ length src → length (slice pos n src) ≡ n
length-slice pos n src h = omega (arith, length-take n (drop pos src), length-drop pos src)

-- What stands up to the end of a copy that fits.
pub take-overwrite :
    (dst : Bytes) (pos : ℕ) (src : Bytes)
    → pos + length src ≤ length dst
    → take (pos + length src) (overwrite dst pos src) ≡ take pos dst ++ src
unfolding overwrite
take-overwrite [] zero [] h = take-all (zero + zero) [] (omega arith)
take-overwrite [] zero (s ∷ src) h = absurd (omega arith)
take-overwrite [] (suc pos) src h = absurd (omega arith)
take-overwrite (x ∷ dst) zero [] h = ap (λ k. take k (x ∷ dst)) none_left
  where
    none_left : zero + zero ≡ zero
    none_left = omega arith
take-overwrite (x ∷ dst) zero (s ∷ src) h =
    ap (λ k. take k (s ∷ overwrite dst zero src)) shift
    ∙ ap (◌∷◌ s) (take-overwrite dst zero src (omega arith))
  where
    shift : zero + length (s ∷ src) ≡ suc (zero + length src)
    shift = omega arith
take-overwrite (x ∷ dst) (suc pos) src h =
    ap (λ k. take k (x ∷ overwrite dst pos src)) shift
    ∙ ap (◌∷◌ x) (take-overwrite dst pos src (omega arith))
  where
    shift : suc pos + length src ≡ suc (pos + length src)
    shift = omega arith

-- Two copies, one behind the other.
pub take-overwrite-overwrite :
    (dst : Bytes) (pos : ℕ) (src more : Bytes)
    → pos + length src + length more ≤ length dst
    → take
        (pos + length src + length more)
        (overwrite (overwrite dst pos src) (pos + length src) more)
      ≡ (take pos dst ++ src) ++ more
take-overwrite-overwrite dst pos src more h =
    take-overwrite (overwrite dst pos src) (pos + length src) more
      (omega (arith, length-overwrite dst pos src))
    ∙ ap (λ front. front ++ more) (take-overwrite dst pos src (omega arith))
