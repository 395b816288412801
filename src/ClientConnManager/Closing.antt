-- ===== src/ClientConnManager/Closing.antt =====
-- `removeSessionConn` and `closeConn` (oryx/ClientConnManager.cpp) on consistent tables.
use oryxgame.Common.{
  ◌≡◌, ◌≢◌, refl, sym, ap, ◌∙◌, ◌⊎◌, inl, inr, false, none, some, [], ◌∷◌, ◌++◌, arith,
  if◌then◌else◌, Bool-cases, Option-cases,
}
use oryxgame.Common.Int.{ℤ, pos, eqb_ℤ, eqb_ℤ_iff}
use oryxgame.Common.Map.{find, erase, find-erase}
use oryxgame.Task.{task_client_conn_delete, new_client_conn_delete}
use oryxgame.ClientConnManager.State.{
  SessionConn, Manager, Address, load, push_task, delete_session,
}
use oryxgame.ClientConnManager.Ops.{
  conn_manager, get_session_by_session_id, remove_session_conn, close_conn,
}
use oryxgame.ClientConnManager.Sessions.{IsValid, session_of}

-- The state in which the removal of a session leaves the tables.
abbrev pub removed : Manager → ℤ → Address → Manager
removed m session p = record m {
  objects = erase p m.objects;
  session_conn_info = erase session m.session_conn_info;
}

-- Two sessions do not share an object.
apart :
    {m : Manager} (j k : ℤ) (p q : Address)
    → IsValid m
    → find j m.session_conn_info ≡ some p
    → find k m.session_conn_info ≡ some q
    → j ≢ k
    → eqb_ℤ p q ≡ false
apart {m} j k p q v e f ne = elim (Bool-cases (eqb_ℤ p q)) [
  | inr differ ↦ differ
  | inl same ↦
      let (conn, here, own) = v.live j p e in
      let (conn', here', own') = v.live k q f in
      let one : conn ≡ conn' =
        ground (arith, here, here', ap (λ x. find x m.objects) ((eqb_ℤ_iff p q).0 same)) in
      absurd (ne (sym own ∙ ap (λ c. c.session_id) one ∙ own'))
]

removed-IsValid :
    (m : Manager) (session : ℤ) (p : Address)
    → IsValid m
    → find session m.session_conn_info ≡ some p
    → IsValid (removed m session p)
removed-IsValid m session p v e = record {
  live = λ k q f.
      let differ : eqb_ℤ session k ≡ false =
        ground (arith, f, find-erase session k m.session_conn_info) in
      let old : find k m.session_conn_info ≡ some q =
        ground (arith, f, find-erase session k m.session_conn_info) in
      let (conn, here, own) = v.live k q old in
      (
        conn,
        ground (
          arith,
          find-erase p q m.objects,
          here,
          apart session k p q v e old,
          eqb_ℤ_iff session k,
        ),
        own,
      );
  unused = λ n h. ground (arith, find-erase p (pos n) m.objects, v.unused n h);
}

session_of-removed :
    (m : Manager) (session k : ℤ) (p : Address)
    → IsValid m
    → find session m.session_conn_info ≡ some p
    → session_of (removed m session p) k ≡ (if eqb_ℤ session k then none else session_of m k)
unfolding session_of
session_of-removed m session k p v e = elim (Option-cases (find k m.session_conn_info)) [
  | inl none_there ↦ ground (arith, none_there, find-erase session k m.session_conn_info)
  | inr (q, there) ↦ ground (
    arith,
    there,
    find-erase session k m.session_conn_info,
    apart session k p q v e there,
    eqb_ℤ_iff session k,
    find-erase p q m.objects,
  )
]

remove_session_conn-removed :
    (m : Manager) (session : ℤ) (p : Address)
    → IsValid m
    → find session m.session_conn_info ≡ some p
    → remove_session_conn conn_manager session m ≡ some (tt, removed m session p)
unfolding remove_session_conn get_session_by_session_id delete_session
remove_session_conn-removed m session p v e =
    let (conn, here, _) = v.live session p e in ground (arith, e, here)

session_of-found :
    (m : Manager) (session : ℤ) (p : Address) (conn : SessionConn)
    → find session m.session_conn_info ≡ some p
    → find p m.objects ≡ some conn
    → session_of m session ≡ some conn
unfolding session_of
session_of-found m session p conn e here = ground (arith, e, here)

-- The state after the deletion task was pushed.
abbrev told : Manager → SessionConn → ℤ → Manager
told m conn session = record m {
  pushed =
      m.pushed ++ (task_client_conn_delete (new_client_conn_delete conn.thread_id session) ∷ []);
}

close_conn-unknown :
    (m : Manager) (session : ℤ)
    → find session m.session_conn_info ≡ none
    → close_conn conn_manager session m ≡ some (tt, m)
unfolding close_conn get_session_by_session_id
close_conn-unknown m session free = ground (arith, free)

close_conn-known :
    (m : Manager) (session : ℤ) (p : Address) (conn : SessionConn)
    → IsValid m
    → find session m.session_conn_info ≡ some p
    → find p m.objects ≡ some conn
    → conn.session_id ≡ session
    → close_conn conn_manager session m ≡ some (tt, removed (told m conn session) session p)
unfolding close_conn get_session_by_session_id load push_task
close_conn-known m session p conn v e here own = ground (
  arith,
  e,
  here,
  own,
  remove_session_conn-removed (told m conn session) session p
      (record { live = v.live; unused = v.unused }) e,
)

-- `closeConn` of the base class on consistent tables: an unknown session changes nothing. A known one is
-- removed with its object, the others stay, one deletion task goes to the thread that serves it, and the
-- tables stay consistent.
pub close_conn_lem :
    (m : Manager) (session : ℤ)
    → IsValid m
    → ((find session m.session_conn_info ≡ none)
        × (close_conn conn_manager session m ≡ some (tt, m)))
      ⊎ ((conn : SessionConn) × (m' : Manager) × (session_of m session ≡ some conn)
          × (close_conn conn_manager session m ≡ some (tt, m'))
          × IsValid m'
          × (m'.pushed
              ≡ m.pushed
                ++ (task_client_conn_delete (new_client_conn_delete conn.thread_id session) ∷ []))
          × ((k : ℤ) → session_of m' k ≡ (if eqb_ℤ session k then none else session_of m k)))
unfolding session_of
close_conn_lem m session v = elim (Option-cases (find session m.session_conn_info)) [
  | inl free ↦ inl (free, close_conn-unknown m session free)
  | inr (p, used) ↦
      let (conn, here, own) = v.live session p used in
      let m' = told m conn session in
      let v' : IsValid m' = record { live = v.live; unused = v.unused } in
      inr (
        conn,
        removed m' session p,
        session_of-found m session p conn used here,
        close_conn-known m session p conn v used here own,
        removed-IsValid m' session p v' used,
        refl,
        λ k. session_of-removed m' session k p v' used,
      )
]
