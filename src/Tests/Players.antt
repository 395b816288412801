-- ===== src/Tests/Players.antt =====
-- Players (logic/PlayerManager.cpp) on small tables.
use oryxgame.Common.{
  ℕ, ◌≡◌, refl, inl, inr, ◌⊎◌, true, false, none, some, [], ◌∷◌, arith, length-replicate, replicate,
  Bool-cases,
}
use oryxgame.Common.Int.{ℤ, pos, ltb_ℤ, eqb_ℤ, eqb_ℤ_iff}
use oryxgame.Common.Map.{find}
use oryxgame.Common.Bytes.{Allocator}
use oryxgame.ClientConnManager.{SessionConn, Manager, Address}
use oryxgame.PlayerManager.{
  result_success, result_login_noexist, result_login_repeated, on_player_login, on_player_logoff,
  Message,
}
use oryxgame.PlayerManager.Logoff.{LoggedOff, on_player_logoff-LoggedOff}
use oryxgame.PlayerManager.Leaving.{OnlineAt, IsConsistent}
use oryxgame.PlayerManager.Matching.{IsMatched, on_player_login-IsMatched}
use oryxgame.PlayerManager.Taking.{LoggedIn}
use oryxgame.PlayerManager.Matching.{IsMatched, on_player_login-IsMatched}
use oryxgame.PlayerManager.Taking.{LoggedIn}
use oryxgame.PlayerManager.Login.{on_player_login-IsConsistent, on_player_login-other_player}
use oryxgame.Tests.Sessions.{conn_of, known_player, tables, tables-IsValid}

-- Player 8 is online on the session.
abbrev busy : Manager
busy = record (tables (pos 8)) { player_online = (pos 8, some (pos 0)) ∷ [] }

nobody-IsConsistent : IsConsistent (tables (pos 0))
unfolding find
nobody-IsConsistent k p o = absurd (cc)

nobody_online : (k : ℤ) → OnlineAt (tables (pos 0)) k (pos 0) → ⊥
unfolding find
nobody_online k o = cc

on_player_login-IsConsistent_example :
    (m' : Manager) × (code : ℤ) × (on_player_login (pos 9) (some (pos 0)) (tables (pos 0))
      ≡ some (code, m'))
    × IsConsistent m'
    × (((code ≡ result_success) × LoggedIn (tables (pos 0)) (pos 9) (pos 0) (conn_of (pos 0)) m')
        ⊎ ((m' ≡ tables (pos 0))
            × (((code ≡ result_login_noexist)
                  × ((ltb_ℤ (pos 0) (pos 9) ≡ false)
                      ⊎ (find (pos 9) (tables (pos 0)).player_all ≡ none)))
                ⊎ ((code ≡ result_login_repeated) × (pos 0 ≡ pos 9)))))
unfolding find
on_player_login-IsConsistent_example =
    on_player_login-IsConsistent (tables (pos 0)) (pos 9) (pos 0) (conn_of (pos 0))
      nobody-IsConsistent refl nobody_online

busy-IsConsistent : IsConsistent busy
unfolding find
busy-IsConsistent k p o = elim (Bool-cases (eqb_ℤ (pos 8) k)) [
  | inl same ↦ (conn_of (pos 8), ground (arith, o, same), (eqb_ℤ_iff (pos 8) k).0 same)
  | inr other ↦ absurd (ground (arith, o, other))
]

on_player_login-other_player_example :
    (m' : Manager) × (on_player_login (pos 9) (some (pos 0)) busy ≡ some (result_success, m'))
    × OnlineAt m' (pos 8) (pos 0)
    × OnlineAt m' (pos 9) (pos 0)
    × (¬ IsConsistent m')
unfolding find
on_player_login-other_player_example =
    on_player_login-other_player busy (pos 9) (pos 8) (pos 0) known_player busy-IsConsistent refl
      (λ e. ground (arith, e)) refl refl

abbrev memory : Allocator
memory = record { fresh = λ n. replicate n 0; length_fresh = λ n. length-replicate {A = ℕ} n 0 }

live_session :
    (p : Address)
    → find (pos 42) (tables (pos 0)).session_conn_info ≡ some p
    → (conn : SessionConn) × (find p (tables (pos 0)).objects ≡ some conn)
live_session p e = let (conn, here, own) = tables-IsValid.live (pos 42) p e in (conn, here)

-- A message of two bytes.
abbrev message : Message
message = record { byte_size = pos 2; serialize_to_array = (true, 8 ∷ 1 ∷ []) }

on_player_logoff-LoggedOff_example : (m' : Manager) × LoggedOff busy (pos 8) m'
on_player_logoff-LoggedOff_example = on_player_logoff-LoggedOff busy (pos 8) busy-IsConsistent

-- Player 9 is online on a second session, and logs in on the first.
abbrev moving : Manager
moving = record (tables (pos 0)) {
  objects = (pos 0, conn_of (pos 0)) ∷ (pos 1, conn_of (pos 9)) ∷ [];
  player_online = (pos 9, some (pos 1)) ∷ [];
}

moving-IsMatched : IsMatched moving
unfolding find
moving-IsMatched = record {
  consistent = λ k p o. elim (Bool-cases (eqb_ℤ (pos 9) k)) [
    | inl same ↦ (
      conn_of (pos 9),
      ground (arith, o, same, eqb_ℤ_iff (pos 1) p),
      (eqb_ℤ_iff (pos 9) k).0 same,
    )
    | inr other ↦ absurd (ground (arith, o, other))
  ];
  named = λ q conn e positive. elim (Bool-cases (eqb_ℤ (pos 0) q)) [
    | inl same ↦
        let nobody : conn.player_id ≡ pos 0 = ground (arith, e, same) in
        absurd (ground (arith, positive, nobody))
    | inr other ↦ elim (Bool-cases (eqb_ℤ (pos 1) q)) [
      | inl same ↦
          let nine : pos 9 ≡ conn.player_id = ground (arith, e, same, other) in
          ground (arith, nine, eqb_ℤ_iff (pos 9) conn.player_id, eqb_ℤ_iff (pos 1) q, same)
      | inr apart ↦ absurd (ground (arith, e, other, apart))
    ]
  ];
}

nobody_on_first : (k : ℤ) → OnlineAt moving k (pos 0) → ⊥
unfolding find
nobody_on_first k o = elim (Bool-cases (eqb_ℤ (pos 9) k)) [
  | inl same ↦ ground (arith, o, same)
  | inr other ↦ ground (arith, o, other)
]

on_player_login-IsMatched_example :
    ((m' : Manager) × (code : ℤ) × (on_player_login (pos 9) (some (pos 0)) moving ≡ some (code, m'))
      × IsMatched m')
    × ((m' : Manager) × (on_player_logoff (pos 9) moving ≡ some (tt, m')) × IsMatched m')
unfolding find
on_player_login-IsMatched_example =
    on_player_login-IsMatched moving (pos 9) (pos 0) (conn_of (pos 0)) moving-IsMatched refl
      nobody_on_first
