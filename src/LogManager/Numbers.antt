-- ===== src/LogManager/Numbers.antt =====
-- Decimal numbers as `sprintf` writes them (oryx/LogManager.cpp), and what they say.
use oryxgame.Common.{
  ℕ, zero, suc, ◌+◌, ◌-◌, ◌*◌, ◌/◌, ◌%◌, ◌^◌, ◌≤◌, ◌<◌, ◌≡◌, refl, ◌∙◌, inl, inr, [], ◌∷◌, ◌++◌,
  arith, ltb, length, replicate, Bool-cases,
}
use native.Mathlib.Nat.{mod-lt, div-add-mod'}
use oryxgame.Common.Bytes.{Bytes}
use oryxgame.LogManager.{digits, padded}
use oryxgame.LogManager.Names.{length-padded}

-- The number that decimal digits stand for, behind a number that was read before.
abbrev pub value_from : ℕ → Bytes → ℕ
value_from before [] = before
value_from before (c ∷ text) = value_from (before * 10 + (c - 48)) text

abbrev pub AreDigits : Bytes → Type 0
AreDigits [] = Unit {0}
AreDigits (c ∷ text) = (48 ≤ c) × (c < 58) × AreDigits text

-- A number of so many digits.
pub record IsNumber (width n : ℕ) (text : Bytes) : Type 0 where
  pub size : length text ≡ width
  pub digits : AreDigits text
  pub value : value_from 0 text ≡ n

value_from-append :
    (before : ℕ) (front more : Bytes)
    → value_from before (front ++ more) ≡ value_from (value_from before front) more
value_from-append before [] more = refl
value_from-append before (c ∷ front) more = value_from-append (before * 10 + (c - 48)) front more

AreDigits-append :
    (front more : Bytes) → AreDigits front → AreDigits more → AreDigits (front ++ more)
AreDigits-append [] more h k = k
AreDigits-append (c ∷ front) more (l, u, h) k = (l, u, AreDigits-append front more h k)

last_digit : (n : ℕ) → n % 10 < 10
last_digit n = let ten : 0 < 10 = omega arith in mod-lt n ten

value_from-digits : (fuel n : ℕ) → n < fuel → value_from 0 (digits fuel n) ≡ n
unfolding digits
value_from-digits zero n h = absurd (omega (arith, h))
value_from-digits (suc fuel) n h = elim (Bool-cases (ltb n 10)) [
  | inl small ↦ rw small (omega arith)
  | inr large ↦ rw large (
      value_from-append 0 (digits fuel (n / 10)) ((48 + n % 10) ∷ [])
      ∙ omega (
        arith,
        value_from-digits fuel (n / 10)
            (let more : 10 ≤ n = ground (arith, large) in omega (arith, h, more)),
        div-add-mod' n 10,
      ))
]

digits-AreDigits : (fuel n : ℕ) → AreDigits (digits fuel n)
unfolding digits
digits-AreDigits zero n = tt
digits-AreDigits (suc fuel) n = elim (Bool-cases (ltb n 10)) [
  | inl small ↦ rw small (omega arith, ground (arith, small), tt)
  | inr large ↦ rw large (
      AreDigits-append (digits fuel (n / 10)) ((48 + n % 10) ∷ []) (digits-AreDigits fuel (n / 10))
        (omega arith, omega (arith, last_digit n), tt))
]

value_from-zeros :
    (k : ℕ) (text : Bytes) → value_from 0 (replicate k 48 ++ text) ≡ value_from 0 text
value_from-zeros zero text = refl
value_from-zeros (suc k) text = value_from-zeros k text

zeros-AreDigits : (k : ℕ) → AreDigits (replicate k 48)
zeros-AreDigits zero = tt
zeros-AreDigits (suc k) = (omega arith, omega arith, zeros-AreDigits k)

pub padded-AreDigits :
    (width n : ℕ) → AreDigits (padded width n) × (value_from 0 (padded width n) ≡ n)
unfolding padded
padded-AreDigits width n =
    let text = digits (suc n) n in
    (
      AreDigits-append (replicate (width - length text) 48) text
          (zeros-AreDigits (width - length text)) (digits-AreDigits (suc n) n),
      value_from-zeros (width - length text) text ∙ value_from-digits (suc n) n (omega arith),
    )

pub padded-IsNumber :
    (width n : ℕ) → n < 10 ^ suc width → IsNumber (suc width) n (padded (suc width) n)
padded-IsNumber width n h =
    let (digits, value) = padded-AreDigits (suc width) n in
    record { size = length-padded width n h; digits = digits; value = value }
