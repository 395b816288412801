-- ===== src/Common/Sizes.antt =====
-- The size of a `std::unordered_map`.
use oryxgame.Common.Tests.{Bool-cases}
use oryxgame.Common.Int.{ℤ, eqb_ℤ, eqb_ℤ_iff}
use oryxgame.Common.Map.{Map, find, insert, erase, find-insert, find-erase}
use oryxgame.Common.Lists.{length}
use Prim.Native.Nat.{suc}
use mathlib.Core.Path.{◌≡◌, refl, sym, ap, ◌∙◌}
use mathlib.Core.Logic.{inl, inr}
use mathlib.Core.Option.{none, some}
use mathlib.Core.List.{[], ◌∷◌}
use native.Mathlib.Omega.{arith}

module _ {ℓ} {V : Type ℓ} where
  -- No key has two entries.
  unfoldable pub IsDistinct : Map V → Type ℓ
  IsDistinct [] = Unit
  IsDistinct ((k, v) ∷ m) = (find k m ≡ none) × IsDistinct m

  pub insert-IsDistinct : (k : ℤ) (v : V) (m : Map V) → IsDistinct m → IsDistinct (insert k v m)
  unfolding IsDistinct insert find
  insert-IsDistinct k v [] d = (refl, tt)
  insert-IsDistinct k v ((j, w) ∷ m) d = elim (Bool-cases (eqb_ℤ j k)) [
    | inl same ↦ rw same (ap (λ i. find i m) (sym ((eqb_ℤ_iff j k).0 same)) ∙ d.0, d.1)
    | inr other ↦ rw other (
      ground (arith, find-insert k j v m, eqb_ℤ_iff k j, eqb_ℤ_iff j k, other, d.0),
      insert-IsDistinct k v m d.1,
    )
  ]

  pub erase-IsDistinct : (k : ℤ) (m : Map V) → IsDistinct m → IsDistinct (erase k m)
  unfolding IsDistinct erase
  erase-IsDistinct k [] d = tt
  erase-IsDistinct k ((j, w) ∷ m) d = elim (Bool-cases (eqb_ℤ j k)) [
    | inl same ↦ rw same (erase-IsDistinct k m d.1)
    | inr other ↦ rw other (ground (arith, find-erase k j m, d.0), erase-IsDistinct k m d.1)
  ]

  pub length-insert :
      (k : ℤ) (v : V) (m : Map V) → find k m ≡ none → length (insert k v m) ≡ suc (length m)
  unfolding find insert
  length-insert k v [] free = refl
  length-insert k v ((j, w) ∷ m) free = elim (Bool-cases (eqb_ℤ j k)) [
    | inl same ↦ absurd (ground (arith, free, same))
    | inr other ↦ rw other (ap suc (length-insert k v m (ground (arith, free, other))))
  ]

  erase-free : (k : ℤ) (m : Map V) → find k m ≡ none → length (erase k m) ≡ length m
  unfolding find erase
  erase-free k [] free = refl
  erase-free k ((j, w) ∷ m) free = elim (Bool-cases (eqb_ℤ j k)) [
    | inl same ↦ absurd (ground (arith, free, same))
    | inr other ↦ rw other (ap suc (erase-free k m (ground (arith, free, other))))
  ]

  pub length-erase :
      (k : ℤ) (v : V) (m : Map V)
      → IsDistinct m
      → find k m ≡ some v
      → suc (length (erase k m)) ≡ length m
  unfolding find erase IsDistinct
  length-erase k v [] d here = absurd (ground (arith, here))
  length-erase k v ((j, w) ∷ m) d here = elim (Bool-cases (eqb_ℤ j k)) [
    | inl same ↦
        rw same (ap suc (erase-free k m (ap (λ i. find i m) (sym ((eqb_ℤ_iff j k).0 same)) ∙ d.0)))
    | inr other ↦ rw other (ap suc (length-erase k v m d.1 (ground (arith, here, other))))
  ]
