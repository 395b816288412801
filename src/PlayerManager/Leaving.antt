-- ===== src/PlayerManager/Leaving.antt =====
-- How `onPlayerLogin` takes a player off its old session (logic/PlayerManager.cpp).
use oryxgame.Common.{
  ◌≡◌, ◌≢◌, refl, sym, ap, ◌∙◌, inl, inr, false, Option, none, some, arith, Bool-cases,
}
use oryxgame.Common.Int.{ℤ, pos, eqb_ℤ, eqb_ℤ_iff}
use oryxgame.Common.Map.{find, insert, erase, find-erase, find-insert}
use oryxgame.ClientConnManager.{SessionConn, Manager, Address, load, store}
use oryxgame.PlayerManager.{get_player_session, set_player, leave_old_session}

-- The session on which a player is online.
abbrev pub OnlineAt : Manager → ℤ → Address → Type 0
OnlineAt m player p = find player m.player_online ≡ some (some p)

-- Every player that is online is so on a live session that names it.
abbrev pub IsConsistent : Manager → Type 0
IsConsistent m =
    (player : ℤ) (p : Address)
    → OnlineAt m player p
    → (conn : SessionConn) × (find p m.objects ≡ some conn) × (conn.player_id ≡ player)

-- What leaving the old session makes of the tables.
pub record Left (m : Manager) (player : ℤ) (p : Address) (m' : Manager) : Type 0 where
  pub done : leave_old_session player m ≡ some (tt, m')
  pub players : m'.player_all ≡ m.player_all
  pub same_session : find p m'.objects ≡ find p m.objects
  pub others :
      (k : ℤ) (q : Address)
      → k ≢ player
      → OnlineAt m' k q
      → OnlineAt m k q × (find q m'.objects ≡ find q m.objects)
  pub freed :
      (q : Address)
      → OnlineAt m player q
      → (old : SessionConn) × (find q m.objects ≡ some old)
        × (find q m'.objects ≡ some (record old { player_id = pos 0 }))
  pub same : (q : Address) → (OnlineAt m player q → ⊥) → find q m'.objects ≡ find q m.objects
  pub entries : (k : ℤ) → k ≢ player → find k m'.player_online ≡ find k m.player_online
  pub sessions : m'.session_conn_info ≡ m.session_conn_info
  pub kept : (k : ℤ) (q : Address) → k ≢ player → OnlineAt m k q → OnlineAt m' k q

module _ (m : Manager) (player : ℤ) (p : Address) (conn : SessionConn) (c : IsConsistent m)
    (here : find p m.objects ≡ some conn) (ne : conn.player_id ≢ player) where
  nobody_before : find player m.player_online ≡ none → Left m player p m
  unfolding leave_old_session get_player_session
  nobody_before e = record {
    done = ground (arith, e);
    players = refl;
    same_session = refl;
    others = λ k q other o. (o, refl);
    freed = λ q online. absurd (ground (arith, e, online));
    same = λ q elsewhere. refl;
    entries = λ k other. refl;
    sessions = refl;
    kept = λ k q other o. o;
  }

  null_before :
      find player m.player_online ≡ some none
      → Left m player p (record m { player_online = erase player m.player_online })
  unfolding leave_old_session get_player_session
  null_before e = record {
    done = ground (arith, e);
    players = refl;
    same_session = refl;
    others = λ k q other o. (ground (arith, o, find-erase player k m.player_online), refl);
    freed = λ q online. absurd (ground (arith, e, online));
    same = λ q elsewhere. refl;
    entries =
        λ k other. ground (arith, find-erase player k m.player_online, eqb_ℤ_iff player k, other);
    sessions = refl;
    kept =
        λ k q other o. ground (arith, o, find-erase player k m.player_online, eqb_ℤ_iff player k);
  }

  -- A session of another player is another object.
  elsewhere :
      (q : Address) (old : SessionConn) (k : ℤ) (r : Address) (conn' : SessionConn)
      → old.player_id ≡ player
      → find q m.objects ≡ some old
      → conn'.player_id ≢ player
      → find r m.objects ≡ some conn'
      → eqb_ℤ q r ≡ false
  elsewhere q old k r conn' o f differs g = elim (Bool-cases (eqb_ℤ q r)) [
    | inr apart ↦ apart
    | inl same ↦
        let one : old ≡ conn' =
          ground (arith, f, g, ap (λ x. find x m.objects) ((eqb_ℤ_iff q r).0 same)) in
        absurd (differs (ap (λ s. s.player_id) (sym one) ∙ o))
  ]

  session_before :
      (q : Address) (old : SessionConn)
      → OnlineAt m player q
      → find q m.objects ≡ some old
      → old.player_id ≡ player
      → Left m player p
          (record m { objects = insert q (record old { player_id = pos 0 }) m.objects })
  unfolding leave_old_session get_player_session set_player load store
  session_before q old e f own = record {
    done = ground (arith, e, f);
    players = refl;
    same_session = ground (
      arith,
      find-insert q p (record old { player_id = pos 0 }) m.objects,
      elsewhere q old player p conn own f ne here,
    );
    others = λ k r other o.
        let (conn', there, own') = c k r o in
        (
          o,
          ground (
            arith,
            find-insert q r (record old { player_id = pos 0 }) m.objects,
            elsewhere q old k r conn' own f (λ same. other (sym own' ∙ same)) there,
          ),
        );
    freed = λ r online.
        let there : q ≡ r = ground (arith, e, online) in
        (
          old,
          ap (λ x. find x m.objects) (sym there) ∙ f,
          find-insert q r (record old { player_id = pos 0 }) m.objects
              ∙ ground (arith, eqb_ℤ_iff q r, there),
        );
    same = λ r apart. elim (Bool-cases (eqb_ℤ q r)) [
      | inr differ ↦ find-insert q r (record old { player_id = pos 0 }) m.objects ∙ rw differ refl
      | inl here ↦ absurd (apart (e ∙ ap (λ x. some (some x)) ((eqb_ℤ_iff q r).0 here)))
    ];
    entries = λ k other. refl;
    sessions = refl;
    kept = λ k r other o. o;
  }

  pub left : (m' : Manager) × Left m player p m'
  left = from (find player m.player_online) refl
    where
      from :
          (entry : Option (Option Address))
          → find player m.player_online ≡ entry
          → (m' : Manager) × Left m player p m'
      from none e = (m, nobody_before e)
      from (some none) e =
          (record m { player_online = erase player m.player_online }, null_before e)
      from (some (some q)) e =
          let (old, f, own) = c player q e in
          (
            record m { objects = insert q (record old { player_id = pos 0 }) m.objects },
            session_before q old e f own,
          )
