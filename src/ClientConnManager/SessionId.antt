-- ===== src/ClientConnManager/SessionId.antt =====
-- `ClientConnManager::getRandNewSession` (oryx/ClientConnManager.cpp).
use oryxgame.Common.{
  ℕ, zero, suc, ◌+◌, ◌*◌, ◌%◌, ◌≤◌, ◌<◌, ◌≡◌, ◌∙◌, inl, inr, false, Option, none, some, [], ◌∷◌,
  arith, Bool-cases, Option-cases, length,
}
use oryxgame.Common.Int.{ℤ, pos, eqb_ℤ}
use oryxgame.Common.Map.{Map, find, erase, find-erase}
use oryxgame.ClientConnManager.State.{Manager, Address}

abbrev pub next_counter : ℕ → ℕ
next_counter c = c % 100000 + 1

-- `GetCourrentTime() * 100000L + m_iAutoIncriSessionID`
abbrev pub candidate : ℕ → ℕ → ℤ
candidate now c = pos (now * 100000 + c)

-- The loop. `clock i` is what the i-th call of `GetCourrentTime` returns; `none` if the fuel runs out.
unfoldable pub find_new_session : ℕ → (ℕ → ℕ) → ℕ → ℕ → Map Address → Option (ℤ × ℕ)
find_new_session zero clock i c taken = none
find_new_session (suc fuel) clock i c taken = elim (find (candidate (clock i) c) taken) [
  | none ↦ some (candidate (clock i) c, next_counter c)
  | some _ ↦ find_new_session fuel clock (i + 1) (next_counter c) taken
]

unfoldable pub get_rand_new_session : ℕ → (ℕ → ℕ) → Manager → Option (ℤ × Manager)
get_rand_new_session fuel clock m =
    elim (find_new_session fuel clock 0 m.auto_incri_session_id m.session_conn_info) [
      | none ↦ none
      | some (id, c) ↦ some (id, record m { auto_incri_session_id = c })
    ]

-- The first `k` candidates are all in use.
abbrev AllTaken : ℕ → (ℕ → ℕ) → ℕ → ℕ → Map Address → Type 0
AllTaken zero clock i c taken = Unit {0}
AllTaken (suc k) clock i c taken =
    ((a : Address) × (find (candidate (clock i) c) taken ≡ some a))
    × AllTaken k clock (i + 1) (next_counter c) taken

find_new_session-none :
    (fuel : ℕ) (clock : ℕ → ℕ) (i c : ℕ) (taken : Map Address)
    → find_new_session fuel clock i c taken ≡ none
    → AllTaken fuel clock i c taken
unfolding find_new_session
find_new_session-none zero clock i c taken e = tt
find_new_session-none (suc fuel) clock i c taken e =
    elim (Option-cases (find (candidate (clock i) c) taken)) [
      | inl free ↦ absurd (ground (arith, free))
      | inr (a, used) ↦ (
        (a, used),
        find_new_session-none fuel clock (i + 1) (next_counter c) taken (ground (arith, used)),
      )
    ]

-- The remainder of a candidate is that of its counter, whatever the clock says.
candidate-ne :
    (x now c d : ℕ)
    → c % 100000 ≡ (x + d) % 100000
    → 0 < d
    → d < 100000
    → eqb_ℤ (pos x) (candidate now c) ≡ false
candidate-ne x now c d e p h = elim (Bool-cases (eqb_ℤ (pos x) (candidate now c))) [
  | inr differ ↦ differ
  | inl same ↦
      let equal : x ≡ now * 100000 + c = ground (arith, same) in absurd (omega (arith, equal))
]

-- Taking an entry out of use leaves those of other remainders.
AllTaken-erase :
    (k : ℕ) (clock : ℕ → ℕ) (i c : ℕ) (taken : Map Address) (x d : ℕ)
    → c % 100000 ≡ (x + d) % 100000
    → 0 < d
    → d + k ≤ 100000
    → AllTaken k clock i c taken
    → AllTaken k clock i c (erase (pos x) taken)
AllTaken-erase zero clock i c taken x d e p h t = tt
AllTaken-erase (suc k) clock i c taken x d e p h ((a, used), t) = (
  (
    a,
    find-erase (pos x) (candidate (clock i) c) taken
        ∙ rw (candidate-ne x (clock i) c d e p (omega arith)) used,
  ),
  AllTaken-erase k clock (i + 1) (next_counter c) taken x (d + 1) (omega arith) (omega arith)
      (omega arith) t,
)

length-erase : {V : Type 0} (k : ℤ) (m : Map V) → length (erase k m) ≤ length m
unfolding erase
length-erase k [] = omega arith
length-erase k ((j, w) ∷ m) = ground (arith, length-erase k m)

length-erase-lt :
    {V : Type 0} (k : ℤ) (m : Map V) (v : V) → find k m ≡ some v → length (erase k m) < length m
unfolding erase find
length-erase-lt k [] v e = absurd (cc)
length-erase-lt k ((j, w) ∷ m) v e = ground (arith, length-erase k m, length-erase-lt k m v)

AllTaken-le :
    (k : ℕ) (clock : ℕ → ℕ) (i c : ℕ) (taken : Map Address)
    → k ≤ 100000
    → AllTaken k clock i c taken
    → k ≤ length taken
AllTaken-le zero clock i c taken h t = omega arith
AllTaken-le (suc k) clock i c taken h ((a, used), t) =
    let x = clock i * 100000 + c in
    omega (
      arith,
      length-erase-lt (pos x) taken a used,
      AllTaken-le k clock (i + 1) (next_counter c) (erase (pos x) taken) (omega arith) (
          AllTaken-erase k clock (i + 1) (next_counter c) taken x 1 (omega arith) (omega arith)
            (omega arith) t),
    )

find_new_session-fresh :
    (fuel : ℕ) (clock : ℕ → ℕ) (i c : ℕ) (taken : Map Address) (id : ℤ) (c' : ℕ)
    → find_new_session fuel clock i c taken ≡ some (id, c')
    → (find id taken ≡ none) × (0 < c') × (c' ≤ 100000)
unfolding find_new_session
find_new_session-fresh zero clock i c taken id c' e = absurd (cc)
find_new_session-fresh (suc fuel) clock i c taken id c' e =
    elim (Option-cases (find (candidate (clock i) c) taken)) [
      | inl free ↦ ground (arith, free)
      | inr (a, used) ↦
          find_new_session-fresh fuel clock (i + 1) (next_counter c) taken id c'
            (ground (arith, used))
    ]

-- With fewer than 100000 sessions `getRandNewSession` ends after at most one round more than there are
-- sessions, whatever the clock shows; the id that it returns is not in use, and the counter is again
-- between 1 and 100000. Nothing but the counter changes.
pub get_rand_new_session-fresh :
    (fuel : ℕ) (clock : ℕ → ℕ) (m : Manager)
    → length m.session_conn_info < fuel
    → fuel ≤ 100000
    → (id : ℤ) × (c : ℕ) × (get_rand_new_session fuel clock m
        ≡ some (id, record m { auto_incri_session_id = c }))
      × (find id m.session_conn_info ≡ none)
      × (0 < c)
      × (c ≤ 100000)
unfolding get_rand_new_session
get_rand_new_session-fresh fuel clock m few h =
    elim (Option-cases
      (find_new_session fuel clock 0 m.auto_incri_session_id m.session_conn_info)) [
        | inl ran_out ↦ absurd (
            omega (
              arith,
              AllTaken-le fuel clock 0 m.auto_incri_session_id m.session_conn_info h (
                  find_new_session-none fuel clock 0 m.auto_incri_session_id m.session_conn_info
                    ran_out),
            ))
        | inr ((id, c), got) ↦
            let (free, low, high) =
              find_new_session-fresh fuel clock 0 m.auto_incri_session_id m.session_conn_info id c
                got in
            (id, c, rw (got, get_rand_new_session), free, low, high)
      ]
