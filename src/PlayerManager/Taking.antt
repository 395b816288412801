-- ===== src/PlayerManager/Taking.antt =====
-- How `onPlayerLogin` gives a player the session (logic/PlayerManager.cpp).
use oryxgame.Common.{◌≡◌, ◌≢◌, refl, ◌∙◌, inl, inr, true, Option, some, arith, Bool-cases}
use oryxgame.Common.Int.{ℤ, pos, eqb_ℤ, eqb_ℤ_iff, eqb_ℤ_refl, ltb_ℤ}
use oryxgame.Common.Map.{Map, find, insert, find-insert}
use oryxgame.ClientConnManager.{SessionConn, Player, Manager, Address, load, store}
use oryxgame.PlayerManager.{result_success, set_player, take_session}
use oryxgame.PlayerManager.Leaving.{OnlineAt, IsConsistent, Left}

-- The tables after `player` has taken the session at `p`.
abbrev pub taken : Manager → ℤ → Address → SessionConn → Manager
taken m player p conn = record m {
  objects = insert p (record conn { player_id = player }) m.objects;
  player_online = insert player (some p) m.player_online;
}

-- What a login that succeeds leaves.
pub record LoggedIn (m : Manager) (player : ℤ) (p : Address) (conn : SessionConn) (m' : Manager)
    : Type 0 where
  pub positive : ltb_ℤ (pos 0) player ≡ true
  pub known : (who : Player) × (find player m.player_all ≡ some who)
  pub online : OnlineAt m' player p
  pub others : (k : ℤ) → k ≢ player → find k m'.player_online ≡ find k m.player_online
  pub marked : find p m'.objects ≡ some (record conn { player_id = player })
  pub freed :
      (q : Address)
      → OnlineAt m player q
      → (old : SessionConn) × (find q m.objects ≡ some old)
        × (find q m'.objects ≡ some (record old { player_id = pos 0 }))
  pub same :
      (q : Address) → q ≢ p → (OnlineAt m player q → ⊥) → find q m'.objects ≡ find q m.objects
  pub players : m'.player_all ≡ m.player_all
  pub sessions : m'.session_conn_info ≡ m.session_conn_info

pub find-online :
    (player : ℤ) (p : Address) (online : Map (Option Address))
    → find player (insert player (some p) online) ≡ some (some p)
find-online player p online = find-insert player player (some p) online ∙ rw (eqb_ℤ_refl player)

module _ (m : Manager) (player : ℤ) (p : Address) (conn : SessionConn) (c : IsConsistent m)
    (here : find p m.objects ≡ some conn) (ne : conn.player_id ≢ player) {m' : Manager}
    (l : Left m player p m') where
  pub take_session-taken : take_session player p m ≡ some (result_success, taken m' player p conn)
  unfolding take_session set_player load store
  take_session-taken = ground (arith, l.done, l.same_session, here)

  -- Logging in keeps the tables consistent unless another player is online on the session.
  pub taken-IsConsistent : ((k : ℤ) → OnlineAt m k p → ⊥) → IsConsistent (taken m' player p conn)
  taken-IsConsistent unused k q o = elim (Bool-cases (eqb_ℤ player k)) [
    | inl same ↦
        let there : p ≡ q =
          ground (arith, o, same, find-insert player k (some p) m'.player_online) in
        (
          record conn { player_id = player },
          ground (
            arith,
            there,
            find-insert p q (record conn { player_id = player }) m'.objects,
            eqb_ℤ_iff p q,
          ),
          (eqb_ℤ_iff player k).0 same,
        )
    | inr other ↦
        let differs : k ≢ player = ground (arith, other, eqb_ℤ_iff player k) in
        let online' : OnlineAt m' k q =
          ground (arith, o, other, find-insert player k (some p) m'.player_online) in
        let (online, object) = l.others k q differs online' in
        let (conn', there, own) = c k q online in
        let apart : p ≢ q = λ same. unused k (ground (arith, online, same)) in
        (
          conn',
          ground (
            arith,
            object,
            there,
            apart,
            find-insert p q (record conn { player_id = player }) m'.objects,
            eqb_ℤ_iff p q,
          ),
          own,
        )
  ]

  pub taken-LoggedIn :
      ((k : ℤ) → OnlineAt m k p → ⊥)
      → (who : Player) → find player m.player_all ≡ some who
      → ltb_ℤ (pos 0) player ≡ true
      → LoggedIn m player p conn (taken m' player p conn)
  taken-LoggedIn unused who known positive = record {
    positive = positive;
    known = (who, known);
    online = find-online player p m'.player_online;
    others = λ k other. ground (
      arith,
      find-insert player k (some p) m'.player_online,
      eqb_ℤ_iff player k,
      other,
      l.entries k other,
    );
    marked =
        find-insert p p (record conn { player_id = player }) m'.objects ∙ rw (eqb_ℤ_refl p) refl;
    freed = λ q online.
        let (old, there, left_it) = l.freed q online in
        let apart : p ≢ q = λ same. unused player (ground (arith, online, same)) in
        (
          old,
          there,
          ground (
            arith,
            left_it,
            apart,
            find-insert p q (record conn { player_id = player }) m'.objects,
            eqb_ℤ_iff p q,
          ),
        );
    same = λ q apart elsewhere. ground (
      arith,
      l.same q elsewhere,
      apart,
      find-insert p q (record conn { player_id = player }) m'.objects,
      eqb_ℤ_iff p q,
    );
    players = l.players;
    sessions = l.sessions;
  }
