-- ===== src/PlayerManager/Matching.antt =====
-- Sessions and players that name each other (logic/PlayerManager.cpp).
use oryxgame.Common.{
  ◌≡◌, ◌≢◌, sym, ap, subst, ◌∙◌, ◌⊎◌, inl, inr, true, Option, none, some, arith, Bool-cases,
}
use oryxgame.Common.Int.{ℤ, pos, ltb_ℤ, eqb_ℤ, eqb_ℤ_iff}
use oryxgame.Common.Map.{find}
use oryxgame.ClientConnManager.{SessionConn, Manager, Address}
use oryxgame.PlayerManager.{on_player_login, on_player_logoff}
use oryxgame.PlayerManager.Leaving.{OnlineAt, IsConsistent}
use oryxgame.PlayerManager.Taking.{LoggedIn}
use oryxgame.PlayerManager.Login.{on_player_login-IsConsistent}
use oryxgame.PlayerManager.Logoff.{LoggedOff, on_player_logoff-LoggedOff}

-- Every player that is online is so on a live session that names it, and a session that names a player is
-- the one on which that player is online.
pub record IsMatched (m : Manager) : Type 0 where
  pub consistent : IsConsistent m
  pub named :
      (q : Address) (conn : SessionConn)
      → find q m.objects ≡ some conn
      → ltb_ℤ (pos 0) conn.player_id ≡ true
      → OnlineAt m conn.player_id q

at_or_not :
    (entry : Option (Option Address)) (q : Address)
    → (entry ≡ some (some q)) ⊎ (entry ≡ some (some q) → ⊥)
at_or_not none q = inr (λ e. cc)
at_or_not (some none) q = inr (λ e. cc)
at_or_not (some (some r)) q = elim (Bool-cases (eqb_ℤ r q)) [
  | inl same ↦ inl (ap (λ x. some (some x)) ((eqb_ℤ_iff r q).0 same))
  | inr apart ↦ inr (λ e. ground (arith, e, apart, eqb_ℤ_iff r q))
]

module _ (m m' : Manager) (player : ℤ) (k : IsMatched m) where
  -- A session that has kept its player still is where that player is online.
  kept :
      (q : Address) (conn : SessionConn)
      → ((j : ℤ) → j ≢ player → find j m'.player_online ≡ find j m.player_online)
      → (OnlineAt m player q → ⊥)
      → find q m.objects ≡ some conn
      → ltb_ℤ (pos 0) conn.player_id ≡ true
      → OnlineAt m' conn.player_id q
  kept q conn others elsewhere there positive =
      let online = k.named q conn there positive in
      let other : conn.player_id ≢ player =
        λ same. elsewhere (ap (λ j. find j m.player_online) (sym same) ∙ online) in
      others conn.player_id other ∙ online

  freed_now :
      (q : Address) (old conn : SessionConn)
      → find q m'.objects ≡ some (record old { player_id = pos 0 })
      → find q m'.objects ≡ some conn
      → ltb_ℤ (pos 0) conn.player_id ≡ true
      → ⊥
  freed_now q old conn free there positive =
      let none_named : conn.player_id ≡ pos 0 = ground (arith, free, there) in
      ground (arith, positive, none_named)

  LoggedIn-named :
      (p : Address) (conn : SessionConn)
      → LoggedIn m player p conn m'
      → (q : Address) (c : SessionConn) → find q m'.objects ≡ some c
      → ltb_ℤ (pos 0) c.player_id ≡ true
      → OnlineAt m' c.player_id q
  LoggedIn-named p conn l q c there positive = elim (Bool-cases (eqb_ℤ q p)) [
    | inl same ↦
        let here : q ≡ p = (eqb_ℤ_iff q p).0 same in
        let who : c.player_id ≡ player =
          ground (arith, there, l.marked, ap (λ x. find x m'.objects) here) in
        ap (λ j. find j m'.player_online) who ∙ l.online ∙ ap (λ x. some (some x)) (sym here)
    | inr apart ↦ elim (at_or_not (find player m.player_online) q) [
      | inl online ↦
          let (old, _, free) = l.freed q online in absurd (freed_now q old c free there positive)
      | inr elsewhere ↦
          let other : q ≢ p = ground (arith, apart, eqb_ℤ_iff q p) in
          kept q c l.others elsewhere (sym (l.same q other elsewhere) ∙ there) positive
    ]
  ]

  LoggedOff-IsMatched : LoggedOff m player m' → IsMatched m'
  LoggedOff-IsMatched l = record {
    consistent = l.consistent;
    named = λ q c there positive. elim (at_or_not (find player m.player_online) q) [
      | inl online ↦
          let (old, _, free) = l.freed q online in absurd (freed_now q old c free there positive)
      | inr elsewhere ↦ kept q c l.others elsewhere (sym (l.same q elsewhere) ∙ there) positive
    ];
  }

-- On tables in which sessions and online players name each other, both a log-off of any player and a login of
-- any player on a live session on which nobody is online return and leave tables in which they do so.
pub on_player_login-IsMatched :
    (m : Manager) (player : ℤ) (p : Address) (conn : SessionConn)
    → IsMatched m
    → find p m.objects ≡ some conn
    → ((k : ℤ) → OnlineAt m k p → ⊥)
    → ((m' : Manager) × (code : ℤ) × (on_player_login player (some p) m ≡ some (code, m'))
        × IsMatched m')
      × ((m' : Manager) × (on_player_logoff player m ≡ some (tt, m')) × IsMatched m')
on_player_login-IsMatched m player p conn k here unused =
    let (m', code, done, consistent, outcome) =
      on_player_login-IsConsistent m player p conn k.consistent here unused in
    let (off, l) = on_player_logoff-LoggedOff m player k.consistent in
    (
      (
        m',
        code,
        done,
        elim outcome [
          | inl (success, logged_in) ↦ record {
            consistent = consistent;
            named = LoggedIn-named m m' player k p conn logged_in;
          }
          | inr (unchanged, _) ↦ subst IsMatched (sym unchanged) k
        ],
      ),
      (off, l.done, LoggedOff-IsMatched m off player k l),
    )
