-- ===== src/LogManager/Names.antt =====
-- The texts of oryx/LogManager.cpp: numbers of fixed width, the name of the log file, and the last part of
-- a path.
use oryxgame.Common.{
  ℕ, zero, suc, ◌+◌, ◌-◌, ◌*◌, ◌/◌, ◌%◌, ◌^◌, ◌≤◌, ◌<◌, ◌≡◌, ◌≢◌, refl, sym, ap, ◌∙◌, inl, inr,
  true, false, [], ◌∷◌, ◌++◌, arith, ltb, ◌==◌, length, drop, get_or, replicate, Bool-cases,
  length-append, length-replicate,
}
use native.Mathlib.Nat.{mod-lt, div-add-mod'}
use oryxgame.Common.Bytes.{Bytes}
use oryxgame.LogManager.{Tm, digits, padded, log_file_name, find_file_name, file_name_begin}

-- A date until the end of the year 9999.
abbrev pub IsTm : Tm → Type 0
IsTm now = (now.tm_year < 8100) × (now.tm_mon < 12) × (now.tm_mday < 32) × (now.tm_hour < 24)

tenth : (n m : ℕ) → n < m * 10 → n / 10 < m
tenth n m h =
    let below : 0 < 10 = omega arith in grind (arith, div-add-mod' n 10, mod-lt n below, h)

length-digits : (fuel n width : ℕ) → n < 10 ^ suc width → length (digits fuel n) ≤ suc width
unfolding digits
length-digits zero n width h = omega arith
length-digits (suc fuel) n zero h =
    let small : ltb n 10 ≡ true = ground (arith, h) in rw small (omega arith)
length-digits (suc fuel) n (suc width) h =
    let shorter : n / 10 < 10 ^ suc width = tenth n (10 ^ suc width) (omega arith) in
    elim (Bool-cases (ltb n 10)) [
      | inl small ↦ rw small (omega arith)
      | inr large ↦ rw large (
          omega (
            arith,
            length-append (digits fuel (n / 10)) ((48 + n % 10) ∷ []),
            length-digits fuel (n / 10) width shorter,
          ))
    ]

pub length-padded : (width n : ℕ) → n < 10 ^ suc width → length (padded (suc width) n) ≡ suc width
unfolding padded
length-padded width n h = omega (
  arith,
  length-append (replicate (suc width - length (digits (suc n) n)) 48) (digits (suc n) n),
  length-replicate {A = ℕ} (suc width - length (digits (suc n) n)) 48,
  length-digits (suc n) n width h,
)

pub length-log_file_name :
    (name : Bytes) (now : Tm) → IsTm now → length (log_file_name name now) ≡ length name + 16
unfolding log_file_name
length-log_file_name name now (year, month, day, hour) =
    let y = length-padded 3 (now.tm_year + 1900) (omega arith) in
    let m = length-padded 1 (now.tm_mon + 1) (omega arith) in
    let d = length-padded 1 now.tm_mday (omega arith) in
    let h = length-padded 1 now.tm_hour (omega arith) in
    simp length-append (omega (arith, y, m, d, h))

-- No character is a `/`.
abbrev pub IsPlain : Bytes → Type 0
IsPlain [] = Unit {0}
IsPlain (c ∷ text) = (c ≢ 47) × IsPlain text

plain_at : (text : Bytes) (i : ℕ) → IsPlain text → get_or text i 0 ≢ 47
plain_at [] i h e = absurd (omega (arith, e))
plain_at (c ∷ text) zero h e = h.0 e
plain_at (c ∷ text) (suc i) h e = plain_at text i h.1 e

found_at : (path : Bytes) (d : ℕ) → 0 < d → get_or path d 0 ≡ 47 → find_file_name path d ≡ suc d
unfolding find_file_name
found_at path zero h e = absurd (omega (arith, h))
found_at path (suc d) h e =
    let test : (get_or path (suc d) 0 == 47) ≡ true = ground (arith, e) in rw test refl

find_from :
    (path : Bytes) (d i : ℕ)
    → 0 < d
    → d ≤ i
    → get_or path d 0 ≡ 47
    → ((k : ℕ) → d < k → get_or path k 0 ≢ 47)
    → find_file_name path i ≡ suc d
unfolding find_file_name
find_from path d zero h le e far = absurd (omega (arith, h, le))
find_from path d (suc i) h le e far = elim (Bool-cases (ltb d (suc i))) [
  | inl beyond ↦
      let test : (get_or path (suc i) 0 == 47) ≡ false =
        ground (arith, far (suc i) (ground (arith, beyond))) in
      rw test (find_from path d i h (ground (arith, beyond)) e far)
  | inr here ↦
      let same : d ≡ suc i = ground (arith, here, le) in
      ap (find_file_name path) (sym same) ∙ found_at path d h e
]

none_from :
    (path : Bytes) (i : ℕ) → ((k : ℕ) → 0 < k → get_or path k 0 ≢ 47) → find_file_name path i ≡ 0
unfolding find_file_name
none_from path zero far = refl
none_from path (suc i) far =
    let test : (get_or path (suc i) 0 == 47) ≡ false = ground (arith, far (suc i) (omega arith)) in
    rw test (none_from path i far)

get_or-append_front : (dir rest : Bytes) → get_or (dir ++ rest) (length dir) 0 ≡ get_or rest 0 0
get_or-append_front [] rest = refl
get_or-append_front (c ∷ dir) rest = get_or-append_front dir rest

beyond_slash :
    (dir name : Bytes) (k : ℕ)
    → IsPlain name
    → length dir < k
    → get_or (dir ++ (47 ∷ name)) k 0 ≢ 47
beyond_slash [] name zero h lt = absurd (omega (arith, lt))
beyond_slash [] name (suc k) h lt = plain_at name k h
beyond_slash (c ∷ dir) name zero h lt = absurd (omega (arith, lt))
beyond_slash (c ∷ dir) name (suc k) h lt = beyond_slash dir name k h (omega (arith, lt))

drop-append :
    (dir : Bytes) (c : ℕ) (name : Bytes) → drop (suc (length dir)) (dir ++ (c ∷ name)) ≡ name
drop-append [] c name = refl
drop-append (x ∷ dir) c name = drop-append dir c name

-- The part of a path that the log shows: what stands behind the last `/`, if that is not the first
-- character of the path, and the whole path if no `/` stands behind its first character.
pub file_name_begin_lem :
    (dir name : Bytes)
    → IsPlain name
    → 0 < length dir
    → (file_name_begin (dir ++ (47 ∷ name)) ≡ name)
      × (file_name_begin (47 ∷ name) ≡ 47 ∷ name)
      × (file_name_begin name ≡ name)
unfolding file_name_begin
file_name_begin_lem dir name h some_dir = (
  ap (λ i. drop i (dir ++ (47 ∷ name)))
        (find_from (dir ++ (47 ∷ name)) (length dir) (length (dir ++ (47 ∷ name))) some_dir
          (omega (arith, length-append dir (47 ∷ name))) (get_or-append_front dir (47 ∷ name))
          (λ k. beyond_slash dir name k h))
      ∙ drop-append dir 47 name,
  ap (λ i. drop i (47 ∷ name))
      (none_from (47 ∷ name) (length (47 ∷ name)) (λ k lt. beyond_slash [] name k h lt)),
  ap (λ i. drop i name) (none_from name (length name) (λ k lt. plain_at name k h)),
)
