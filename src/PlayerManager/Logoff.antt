-- ===== src/PlayerManager/Logoff.antt =====
-- `onPlayerLogoff` (logic/PlayerManager.cpp).
use oryxgame.Common.{
  ◌≡◌, ◌≢◌, refl, sym, ap, ◌∙◌, inl, inr, false, Option, none, some, arith, Bool-cases,
}
use oryxgame.Common.Int.{ℤ, pos, eqb_ℤ, eqb_ℤ_iff, eqb_ℤ_refl}
use oryxgame.Common.Map.{find, insert, erase, find-erase, find-insert}
use oryxgame.ClientConnManager.{SessionConn, Manager, Address, load, store}
use oryxgame.PlayerManager.{get_player_session, set_player, on_player_logoff}
use oryxgame.PlayerManager.Leaving.{OnlineAt, IsConsistent}

-- What the log-off leaves.
pub record LoggedOff (m : Manager) (player : ℤ) (m' : Manager) : Type 0 where
  pub done : on_player_logoff player m ≡ some (tt, m')
  pub consistent : IsConsistent m'
  pub offline : find player m'.player_online ≡ none
  pub others : (k : ℤ) → k ≢ player → find k m'.player_online ≡ find k m.player_online
  pub sessions : m'.session_conn_info ≡ m.session_conn_info
  pub freed :
      (p : Address)
      → OnlineAt m player p
      → (conn : SessionConn) × (find p m.objects ≡ some conn)
        × (find p m'.objects ≡ some (record conn { player_id = pos 0 }))
  pub same : (p : Address) → (OnlineAt m player p → ⊥) → find p m'.objects ≡ find p m.objects

module _ (m : Manager) (player : ℤ) (c : IsConsistent m) where
  other_entry :
      (k : ℤ) → k ≢ player → find k (erase player m.player_online) ≡ find k m.player_online
  other_entry k differs =
      let apart : eqb_ℤ player k ≡ false = ground (arith, differs, eqb_ℤ_iff player k) in
      find-erase player k m.player_online ∙ rw apart refl

  own_entry : find player (erase player m.player_online) ≡ none
  own_entry = find-erase player player m.player_online ∙ rw (eqb_ℤ_refl player) refl

  -- A player that is online after the entry of `player` is gone is another one.
  is_other :
      (k : ℤ) (p : Address)
      → find k (erase player m.player_online) ≡ some (some p)
      → (k ≢ player) × OnlineAt m k p
  is_other k p e = elim (Bool-cases (eqb_ℤ player k)) [
    | inl same ↦ absurd (ground (arith, e, same, find-erase player k m.player_online))
    | inr apart ↦ (
      ground (arith, apart, eqb_ℤ_iff player k),
      ground (arith, e, apart, find-erase player k m.player_online),
    )
  ]

  nobody-LoggedOff : find player m.player_online ≡ none → LoggedOff m player m
  unfolding on_player_logoff get_player_session
  nobody-LoggedOff e = record {
    done = ground (arith, e);
    consistent = c;
    offline = e;
    others = λ k differs. refl;
    sessions = refl;
    freed = λ p online. absurd (ground (arith, e, online));
    same = λ p elsewhere. refl;
  }

  null-LoggedOff :
      find player m.player_online ≡ some none
      → LoggedOff m player (record m { player_online = erase player m.player_online })
  unfolding on_player_logoff get_player_session
  null-LoggedOff e = record {
    done = ground (arith, e);
    consistent = λ k p o. c k p (is_other k p o).1;
    offline = own_entry;
    others = other_entry;
    sessions = refl;
    freed = λ p online. absurd (ground (arith, e, online));
    same = λ p elsewhere. refl;
  }

  -- Another player's session is another object.
  apart_from :
      (q r : Address) (old conn : SessionConn) (k : ℤ)
      → find q m.objects ≡ some old
      → old.player_id ≡ player
      → find r m.objects ≡ some conn
      → conn.player_id ≡ k
      → k ≢ player
      → eqb_ℤ q r ≡ false
  apart_from q r old conn k f own g own' differs = elim (Bool-cases (eqb_ℤ q r)) [
    | inr apart ↦ apart
    | inl same ↦
        let one : old ≡ conn =
          ground (arith, f, g, ap (λ x. find x m.objects) ((eqb_ℤ_iff q r).0 same)) in
        absurd (differs (sym own' ∙ ap (λ s. s.player_id) (sym one) ∙ own))
  ]

  online-LoggedOff :
      (q : Address) (old : SessionConn)
      → OnlineAt m player q
      → find q m.objects ≡ some old
      → old.player_id ≡ player
      → LoggedOff m player (record m {
        objects = insert q (record old { player_id = pos 0 }) m.objects;
        player_online = erase player m.player_online;
      })
  unfolding on_player_logoff get_player_session set_player load store
  online-LoggedOff q old e f own = record {
    done = ground (arith, e, f);
    consistent = λ k r o.
        let (differs, online) = is_other k r o in
        let (conn, there, own') = c k r online in
        (
          conn,
          find-insert q r (record old { player_id = pos 0 }) m.objects
              ∙ rw (apart_from q r old conn k f own there own' differs) there,
          own',
        );
    offline = own_entry;
    others = other_entry;
    sessions = refl;
    freed = λ p online.
        let there : q ≡ p = ground (arith, e, online) in
        (
          old,
          ap (λ x. find x m.objects) (sym there) ∙ f,
          find-insert q p (record old { player_id = pos 0 }) m.objects
              ∙ ground (arith, eqb_ℤ_iff q p, there),
        );
    same = λ p elsewhere. elim (Bool-cases (eqb_ℤ q p)) [
      | inr apart ↦ find-insert q p (record old { player_id = pos 0 }) m.objects ∙ rw apart refl
      | inl here ↦ absurd (elsewhere (e ∙ ap (λ x. some (some x)) ((eqb_ℤ_iff q p).0 here)))
    ];
  }

-- `onPlayerLogoff` on consistent tables always returns and leaves consistent tables, in which the player is
-- offline and every other player is online as before. The session on which the player was online names no
-- player any more and is otherwise as before; every other session is as before. The table of sessions stays.
pub on_player_logoff-LoggedOff :
    (m : Manager) (player : ℤ) → IsConsistent m → (m' : Manager) × LoggedOff m player m'
on_player_logoff-LoggedOff m player c = from (find player m.player_online) refl
  where
    from :
        (entry : Option (Option Address))
        → find player m.player_online ≡ entry
        → (m' : Manager) × LoggedOff m player m'
    from none e = (m, nobody-LoggedOff m player c e)
    from (some none) e =
        (record m { player_online = erase player m.player_online }, null-LoggedOff m player c e)
    from (some (some q)) e =
        let (old, f, own) = c player q e in
        (
          record m {
            objects = insert q (record old { player_id = pos 0 }) m.objects;
            player_online = erase player m.player_online;
          },
          online-LoggedOff m player c q old e f own,
        )
