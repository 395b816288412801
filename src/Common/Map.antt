-- ===== src/Common/Map.antt =====
-- `std::unordered_map` with integer keys, as an association list that holds each key once.
use oryxgame.Common.Tests.{if◌then◌else◌}
use oryxgame.Common.Int.{ℤ, eqb_ℤ, eqb_ℤ_iff}
use mathlib.Core.Path.{◌≡◌, refl}
use mathlib.Core.Option.{Option, none, some}
use mathlib.Core.List.{List, [], ◌∷◌}
use native.Mathlib.Omega.{arith}

abbrev pub Map {ℓ} : Type ℓ → Type ℓ
Map V = List (ℤ × V)

module _ {ℓ} {V : Type ℓ} where
  unfoldable pub find : ℤ → Map V → Option V
  find k [] = none
  find k ((j, v) ∷ m) = if eqb_ℤ j k then some v else find k m

  -- `m[k] = v`
  unfoldable pub insert : ℤ → V → Map V → Map V
  insert k v [] = (k, v) ∷ []
  insert k v ((j, w) ∷ m) = if eqb_ℤ j k then (k, v) ∷ m else (j, w) ∷ insert k v m

  -- `m.erase(k)`; every entry of that key goes.
  unfoldable pub erase : ℤ → Map V → Map V
  erase k [] = []
  erase k ((j, w) ∷ m) = let rest = erase k m in if eqb_ℤ j k then rest else (j, w) ∷ rest

  pub find-insert :
      (k j : ℤ) (v : V) (m : Map V)
      → find j (insert k v m) ≡ (if eqb_ℤ k j then some v else find j m)
  unfolding find insert
  find-insert k j v [] = refl
  find-insert k j v ((i, w) ∷ m) =
      ground (arith, eqb_ℤ_iff k j, eqb_ℤ_iff i k, eqb_ℤ_iff i j, find-insert k j v m)

  pub find-erase :
      (k j : ℤ) (m : Map V) → find j (erase k m) ≡ (if eqb_ℤ k j then none else find j m)
  unfolding find erase
  find-erase k j [] = ground arith
  find-erase k j ((i, w) ∷ m) =
      ground (arith, eqb_ℤ_iff k j, eqb_ℤ_iff i k, eqb_ℤ_iff i j, find-erase k j m)
