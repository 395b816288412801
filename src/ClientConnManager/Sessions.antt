-- ===== src/ClientConnManager/Sessions.antt =====
-- The table of sessions (oryx/ClientConnManager.cpp) and its objects.
use oryxgame.Common.{
  ℕ, suc, length, ◌+◌, ◌≤◌, ◌≡◌, ap, ◌∙◌, ◌⊎◌, inl, inr, true, false, Option, none, some, arith,
  if◌then◌else◌, Bool-cases, Option-cases,
}
use oryxgame.Common.Int.{ℤ, pos, eqb_ℤ, eqb_ℤ_iff, eqb_ℤ_refl}
use oryxgame.Common.Map.{find, insert, find-insert}
use oryxgame.Common.Sizes.{length-insert}
use oryxgame.Device.{DeviceType, SockAddr}
use oryxgame.ClientConnManager.State.{SessionConn, Manager, Address, new_session}
use oryxgame.ClientConnManager.Ops.{
  Virtual, conn_manager, session_conn, get_session_by_session_id, add_new_conn,
}

-- Every entry of the table points to an object of its own session, and what comes next is new.
pub record IsValid (m : Manager) : Type 0 where
  pub live :
      (session : ℤ) (p : Address)
      → find session m.session_conn_info ≡ some p
      → (conn : SessionConn) × (find p m.objects ≡ some conn) × (conn.session_id ≡ session)
  pub unused : (n : ℕ) → m.next_object ≤ n → find (pos n) m.objects ≡ none

-- The object of a session.
unfoldable pub session_of : Manager → ℤ → Option SessionConn
session_of m session = elim (find session m.session_conn_info) [
  | none ↦ none
  | some p ↦ find p m.objects
]

-- The state in which `addNewConn` leaves the tables.
abbrev pub added : Manager → ℤ → ℤ → DeviceType → SockAddr → Manager
added m thread session type addr = record m {
  objects = insert (pos m.next_object) (session_conn thread session type addr) m.objects;
  next_object = m.next_object + 1;
  session_conn_info = insert session (pos m.next_object) m.session_conn_info;
}

add_new_conn-added :
    (m : Manager) (thread session : ℤ) (type : DeviceType) (addr : SockAddr)
    → find session m.session_conn_info ≡ none
    → add_new_conn conn_manager thread session type addr m
      ≡ some (true, added m thread session type addr)
unfolding add_new_conn get_session_by_session_id new_session
add_new_conn-added m thread session type addr e = ground (arith, e)

add_new_conn-repeated :
    (v : Virtual) (m : Manager) (thread session : ℤ) (type : DeviceType) (addr : SockAddr)
    (p : Address)
    → find session m.session_conn_info ≡ some p
    → add_new_conn v thread session type addr m ≡ some (false, m)
unfolding add_new_conn get_session_by_session_id
add_new_conn-repeated v m thread session type addr p e = ground (arith, e)

-- An object that is in use is older than the next one.
older :
    {m : Manager} (session : ℤ) (p : Address)
    → IsValid m
    → find session m.session_conn_info ≡ some p
    → eqb_ℤ (pos m.next_object) p ≡ false
older {m} session p v e = elim (Bool-cases (eqb_ℤ (pos m.next_object) p)) [
  | inr differ ↦ differ
  | inl same ↦
      let (conn, here, _) = v.live session p e in
      let equal : pos m.next_object ≡ p = (eqb_ℤ_iff _ _).0 same in
      absurd (
        ground
          (arith, here, v.unused m.next_object (omega arith), ap (λ q. find q m.objects) equal))
]

added-IsValid :
    (m : Manager) (thread session : ℤ) (type : DeviceType) (addr : SockAddr)
    → IsValid m
    → find session m.session_conn_info ≡ none
    → IsValid (added m thread session type addr)
unfolding session_conn
added-IsValid m thread session type addr v free = record {
  live = λ k p e. elim (Bool-cases (eqb_ℤ session k)) [
    | inl same ↦
        let new : pos m.next_object ≡ p =
          ground (arith, e, find-insert session k (pos m.next_object) m.session_conn_info, same) in
        (
          session_conn thread session type addr,
          ground (
            arith,
            find-insert (pos m.next_object) p (session_conn thread session type addr) m.objects,
            eqb_ℤ_iff (pos m.next_object) p,
            new,
          ),
          (eqb_ℤ_iff session k).0 same,
        )
    | inr other ↦
        let old : find k m.session_conn_info ≡ some p =
          ground (arith, e, find-insert session k (pos m.next_object) m.session_conn_info, other) in
        let (conn, here, own) = v.live k p old in
        (
          conn,
          ground (
            arith,
            find-insert (pos m.next_object) p (session_conn thread session type addr) m.objects,
            older k p v old,
            here,
          ),
          own,
        )
  ];
  unused = λ n h.
      find-insert (pos m.next_object) (pos n) (session_conn thread session type addr) m.objects
      ∙ ground (arith, v.unused n);
}

session_of-added :
    (m : Manager) (thread session : ℤ) (type : DeviceType) (addr : SockAddr) (k : ℤ)
    → IsValid m
    → session_of (added m thread session type addr) k
      ≡ (if eqb_ℤ session k then some (session_conn thread session type addr) else session_of m k)
unfolding session_of
session_of-added m thread session type addr k v =
    let table = find-insert session k (pos m.next_object) m.session_conn_info in
    let conn = session_conn thread session type addr in
    elim (Bool-cases (eqb_ℤ session k)) [
      | inl same ↦ ground (
        arith,
        table,
        same,
        eqb_ℤ_refl (pos m.next_object),
        find-insert (pos m.next_object) (pos m.next_object) conn m.objects,
      )
      | inr other ↦ elim (Option-cases (find k m.session_conn_info)) [
        | inl none_there ↦ ground (arith, none_there, table, other)
        | inr (p, there) ↦ ground (
          arith,
          there,
          table,
          other,
          older k p v there,
          find-insert (pos m.next_object) p conn m.objects,
        )
      ]
    ]

-- `addNewConn` on consistent tables: a session that is in use is refused and nothing changes; otherwise
-- it has a new object with the thread, type and address given and no player, the other sessions keep
-- theirs, the table has one entry more, and the tables stay consistent.
pub add_new_conn_lem :
    (m : Manager) (thread session : ℤ) (type : DeviceType) (addr : SockAddr)
    → IsValid m
    → ((p : Address) × (find session m.session_conn_info ≡ some p)
        × (add_new_conn conn_manager thread session type addr m ≡ some (false, m)))
      ⊎ ((m' : Manager) × (add_new_conn conn_manager thread session type addr m ≡ some (true, m'))
          × IsValid m'
          × ((k : ℤ)
              → session_of m' k ≡ (
                  if eqb_ℤ session k
                  then some (session_conn thread session type addr)
                  else session_of m k))
          × (length m'.session_conn_info ≡ suc (length m.session_conn_info)))
add_new_conn_lem m thread session type addr v =
    elim (Option-cases (find session m.session_conn_info)) [
      | inr (p, used) ↦
          inl (p, used, add_new_conn-repeated conn_manager m thread session type addr p used)
      | inl free ↦ inr (
        added m thread session type addr,
        add_new_conn-added m thread session type addr free,
        added-IsValid m thread session type addr v free,
        λ k. session_of-added m thread session type addr k v,
        length-insert session (pos m.next_object) m.session_conn_info free,
      )
    ]
