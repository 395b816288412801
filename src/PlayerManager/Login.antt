-- ===== src/PlayerManager/Login.antt =====
-- Who is logged in on which session (logic/PlayerManager.cpp).
use oryxgame.Common.{
  ◌≡◌, ◌≢◌, refl, sym, ap, ◌∙◌, ◌⊎◌, inl, inr, true, false, Option, none, some, arith, Bool-cases,
  Option-cases,
}
use oryxgame.Common.Int.{ℤ, pos, eqb_ℤ, eqb_ℤ_iff, eqb_ℤ_refl, ltb_ℤ}
use oryxgame.Common.Map.{find, find-insert}
use oryxgame.ClientConnManager.{SessionConn, Player, Manager, Address, load}
use oryxgame.PlayerManager.{
  result_success, result_login_noexist, result_login_repeated, get_player, take_session,
  login_session, on_player_login,
}
use oryxgame.PlayerManager.Leaving.{OnlineAt, IsConsistent, Left, left}
use oryxgame.PlayerManager.Taking.{
  taken, LoggedIn, find-online, take_session-taken, taken-IsConsistent, taken-LoggedIn,
}

module _ (m : Manager) (player : ℤ) (p : Address) where
  login-low :
      ltb_ℤ (pos 0) player ≡ false
      → on_player_login player (some p) m ≡ some (result_login_noexist, m)
  unfolding on_player_login
  login-low low = rw (low, on_player_login)

  module _ {conn : SessionConn} (here : find p m.objects ≡ some conn)
      (positive : ltb_ℤ (pos 0) player ≡ true) where
    login-repeated :
        eqb_ℤ conn.player_id player ≡ true
        → on_player_login player (some p) m ≡ some (result_login_repeated, m)
    unfolding on_player_login login_session load get_player
    login-repeated same = ground (arith, here, positive, same)

    login-unknown :
        eqb_ℤ conn.player_id player ≡ false
        → find player m.player_all ≡ none
        → on_player_login player (some p) m ≡ some (result_login_noexist, m)
    unfolding on_player_login login_session load get_player
    login-unknown other unknown = ground (arith, here, positive, other, unknown)

    login-known :
        {known : Player} {r : Option (ℤ × Manager)}
        → eqb_ℤ conn.player_id player ≡ false
        → find player m.player_all ≡ some known
        → take_session player p m ≡ r
        → on_player_login player (some p) m ≡ r
    unfolding on_player_login login_session load get_player
    login-known other found taken_eq = ground (arith, here, positive, other, found, taken_eq)

-- `onPlayerLogin` on consistent tables and a live session on which no player is online always returns,
-- and leaves consistent tables. It succeeds exactly if the player's number is positive, the session is not
-- marked with it and the player is known. Then the player is online on this session, which is marked with
-- it, and the session on which it was online before names no player any more; every other session, and
-- where every other player is online, is as before. If it does not succeed, the tables stay as they were,
-- and the code says that the login is repeated, or that the player does not exist.
pub on_player_login-IsConsistent :
    (m : Manager) (player : ℤ) (p : Address) (conn : SessionConn)
    → IsConsistent m
    → find p m.objects ≡ some conn
    → ((k : ℤ) → OnlineAt m k p → ⊥)
    → (m' : Manager) × (code : ℤ) × (on_player_login player (some p) m ≡ some (code, m'))
      × IsConsistent m'
      × (((code ≡ result_success) × LoggedIn m player p conn m')
          ⊎ ((m' ≡ m)
              × (((code ≡ result_login_noexist)
                    × ((ltb_ℤ (pos 0) player ≡ false) ⊎ (find player m.player_all ≡ none)))
                  ⊎ ((code ≡ result_login_repeated) × (conn.player_id ≡ player)))))
on_player_login-IsConsistent m player p conn c here unused =
    elim (Bool-cases (ltb_ℤ (pos 0) player)) [
      | inr low ↦
          (m, result_login_noexist, login-low m player p low, c, inr (refl, inl (refl, inl low)))
      | inl positive ↦ elim (Bool-cases (eqb_ℤ conn.player_id player)) [
        | inl same ↦ (
          m,
          result_login_repeated,
          login-repeated m player p here positive same,
          c,
          inr (refl, inr (refl, (eqb_ℤ_iff _ _).0 same)),
        )
        | inr other ↦ elim (Option-cases (find player m.player_all)) [
          | inl unknown ↦ (
            m,
            result_login_noexist,
            login-unknown m player p here positive other unknown,
            c,
            inr (refl, inl (refl, inr unknown)),
          )
          | inr (known, found) ↦
              let ne : conn.player_id ≢ player =
                ground (arith, other, eqb_ℤ_iff conn.player_id player) in
              let (m', l) = left m player p conn c here ne in
              (
                taken m' player p conn,
                result_success,
                login-known m player p here positive other found
                    (take_session-taken m player p conn c here ne l),
                taken-IsConsistent m player p conn c here ne l unused,
                inl (refl, taken-LoggedIn m player p conn c here ne l unused known found positive),
              )
        ]
      ]
    ]

-- On consistent tables, the login of a known player with a positive number on a session on which
-- another player is online succeeds and leaves the tables inconsistent: both players are online on the
-- session.
pub on_player_login-other_player :
    (m : Manager) (player other : ℤ) (p : Address) (known : Player)
    → IsConsistent m
    → OnlineAt m other p
    → other ≢ player
    → ltb_ℤ (pos 0) player ≡ true
    → find player m.player_all ≡ some known
    → (m' : Manager) × (on_player_login player (some p) m ≡ some (result_success, m'))
      × OnlineAt m' other p
      × OnlineAt m' player p
      × (¬ IsConsistent m')
on_player_login-other_player m player other p known c online differs positive found = (
  taken m' player p conn,
  login-known m player p here positive (ground (arith, ne, eqb_ℤ_iff conn.player_id player)) found
      (take_session-taken m player p conn c here ne l),
  still,
  find-online player p m'.player_online,
  λ consistent.
      let (conn', there, own') = consistent other p still in
      let new : find p (taken m' player p conn).objects
          ≡ some (record conn { player_id = player }) =
        find-insert p p (record conn { player_id = player }) m'.objects ∙ rw (eqb_ℤ_refl p) in
      let one : record conn { player_id = player } ≡ conn' = ground (arith, new, there) in
      differs (sym own' ∙ ap (λ s. s.player_id) (sym one)),
)
  where
    session : (conn : SessionConn) × (find p m.objects ≡ some conn) × (conn.player_id ≡ other)
    session = c other p online

    conn : SessionConn
    conn = session.0

    here : find p m.objects ≡ some conn
    here = session.1

    ne : conn.player_id ≢ player
    ne same = differs (sym session.2 ∙ same)

    left_state : (m' : Manager) × Left m player p m'
    left_state = left m player p conn c here ne

    m' : Manager
    m' = left_state.0

    l : Left m player p m'
    l = left_state.1

    still : OnlineAt (taken m' player p conn) other p
    still = ground (
      arith,
      l.kept other p differs online,
      find-insert player other (some p) m'.player_online,
      eqb_ℤ_iff player other,
      differs,
    )
