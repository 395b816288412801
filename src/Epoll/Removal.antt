-- ===== src/Epoll/Removal.antt =====
-- `removeDevice_ByFD` and `removeDevice_BySession` (oryx/EpollHandler.cpp) on tables that agree.
use oryxgame.Common.{
  ◌≡◌, ◌≢◌, refl, ap, ◌∙◌, ◌⊎◌, inl, inr, false, none, some, List, [], ◌∷◌, ◌++◌, append_assoc,
  arith, if◌then◌else◌, Bool-cases, Option-cases,
}
use oryxgame.Common.Int.{ℤ, pos, negsuc, ◌+ℤ◌, eqb_ℤ, eqb_ℤ_iff}
use oryxgame.Common.Map.{find, erase, find-erase}
use oryxgame.Device.{Device}
use oryxgame.Epoll.State.{
  Address, SysCall, epoll_del, close_fd, Handler, load, delete_device, sys_call, add_pressure,
}
use oryxgame.Epoll.Devices.{
  get_device_by_fd, get_device_by_session, epoll_remove, forget_device, remove_device_by_session,
  remove_device_by_fd,
}
use oryxgame.Epoll.Table.{TablesAgree}

-- The state without the device, after these system calls.
abbrev pub without : Handler → Address → Device → List SysCall → Handler
without h p d calls = record h {
  pressure = h.pressure +ℤ negsuc 0;
  devices = erase p h.devices;
  map_device_info = erase d.fd h.map_device_info;
  map_device_session_info = erase d.session_id h.map_device_session_info;
  sys_calls = h.sys_calls ++ calls;
}

module _ {h : Handler} (p : Address) (d : Device) (v : TablesAgree h)
    (here : find p h.devices ≡ some d) (by_fd : find d.fd h.map_device_info ≡ some p)
    (by_session : find d.session_id h.map_device_session_info ≡ some p) where
  -- Another device of the tables has another address, descriptor and session.
  apart :
      (q : Address) (d' : Device)
      → find q h.devices ≡ some d'
      → (d.fd ≢ d'.fd) ⊎ (d.session_id ≢ d'.session_id)
      → eqb_ℤ p q ≡ false
  apart q d' there differs = elim (Bool-cases (eqb_ℤ p q)) [
    | inr other ↦ other
    | inl same ↦
        let one : d ≡ d' =
          ground (arith, here, there, ap (λ x. find x h.devices) ((eqb_ℤ_iff p q).0 same)) in
        absurd (elim differs [
          | inl fd ↦ fd (ap (λ x. x.fd) one)
          | inr session ↦ session (ap (λ x. x.session_id) one)
        ])
  ]

  without_by_fd :
      (calls : List SysCall) (fd : ℤ) (q : Address)
      → find fd (without h p d calls).map_device_info ≡ some q
      → (d' : Device) × (find q (without h p d calls).devices ≡ some d')
        × (d'.fd ≡ fd)
        × (find d'.session_id (without h p d calls).map_device_session_info ≡ some q)
  without_by_fd calls fd q e =
      let table = find-erase d.fd fd h.map_device_info in
      let other : eqb_ℤ d.fd fd ≡ false = ground (arith, e, table) in
      let old : find fd h.map_device_info ≡ some q = ground (arith, e, table) in
      let (d', there, own, back) = v.by_fd fd q old in
      let differs : d.fd ≢ d'.fd = λ same. ground (arith, other, eqb_ℤ_iff d.fd fd, same ∙ own) in
      let far : eqb_ℤ p q ≡ false = apart q d' there (inl differs) in
      (
        d',
        ground (arith, find-erase p q h.devices, far, there),
        own,
        elim (Bool-cases (eqb_ℤ d.session_id d'.session_id)) [
          | inl clash ↦
              let q_here : find d.session_id h.map_device_session_info ≡ some q =
                ap (λ s. find s h.map_device_session_info)
                  ((eqb_ℤ_iff d.session_id d'.session_id).0 clash)
                ∙ back in
              absurd (ground (arith, by_session, q_here, far, eqb_ℤ_iff p q))
          | inr free ↦
              ground
                (arith, find-erase d.session_id d'.session_id h.map_device_session_info, free, back)
        ],
      )

  without_by_session :
      (calls : List SysCall) (session : ℤ) (q : Address)
      → find session (without h p d calls).map_device_session_info ≡ some q
      → (d' : Device) × (find q (without h p d calls).devices ≡ some d')
        × (d'.session_id ≡ session)
        × (find d'.fd (without h p d calls).map_device_info ≡ some q)
  without_by_session calls session q e =
      let table = find-erase d.session_id session h.map_device_session_info in
      let other : eqb_ℤ d.session_id session ≡ false = ground (arith, e, table) in
      let old : find session h.map_device_session_info ≡ some q = ground (arith, e, table) in
      let (d', there, own, back) = v.by_session session q old in
      let differs : d.session_id ≢ d'.session_id =
        λ same. ground (arith, other, eqb_ℤ_iff d.session_id session, same ∙ own) in
      let far : eqb_ℤ p q ≡ false = apart q d' there (inr differs) in
      (
        d',
        ground (arith, find-erase p q h.devices, far, there),
        own,
        elim (Bool-cases (eqb_ℤ d.fd d'.fd)) [
          | inl clash ↦
              let q_here : find d.fd h.map_device_info ≡ some q =
                ap (λ k. find k h.map_device_info) ((eqb_ℤ_iff d.fd d'.fd).0 clash) ∙ back in
              absurd (ground (arith, by_fd, q_here, far, eqb_ℤ_iff p q))
          | inr free ↦ ground (arith, find-erase d.fd d'.fd h.map_device_info, free, back)
        ],
      )

  without-TablesAgree : (calls : List SysCall) → TablesAgree (without h p d calls)
  without-TablesAgree calls = record {
    by_fd = without_by_fd calls;
    by_session = without_by_session calls;
    unused = λ n k. ground (arith, find-erase p (pos n) h.devices, v.unused n k);
  }

-- What the removal of a device leaves.
pub record Removed (h : Handler) (d : Device) (p : Address) (h' : Handler) : Type 0 where
  pub agree : TablesAgree h'
  pub pressure : h'.pressure ≡ h.pressure +ℤ negsuc 0
  pub by_fd :
      (k : ℤ)
      → find k h'.map_device_info ≡ (if eqb_ℤ d.fd k then none else find k h.map_device_info)
  pub by_session :
      (k : ℤ)
      → find k h'.map_device_session_info
        ≡ (if eqb_ℤ d.session_id k then none else find k h.map_device_session_info)
  pub devices : (q : Address) → find q h'.devices ≡ (if eqb_ℤ p q then none else find q h.devices)
  pub main_queue : h'.main_queue ≡ h.main_queue

pub without-Removed :
    {h : Handler} (p : Address) (d : Device) (calls : List SysCall)
    → TablesAgree h
    → find p h.devices ≡ some d
    → find d.fd h.map_device_info ≡ some p
    → find d.session_id h.map_device_session_info ≡ some p
    → Removed h d p (without h p d calls)
without-Removed {h} p d calls v here by_fd by_session = record {
  agree = without-TablesAgree p d v here by_fd by_session calls;
  pressure = refl;
  by_fd = λ k. find-erase d.fd k h.map_device_info;
  by_session = λ k. find-erase d.session_id k h.map_device_session_info;
  devices = λ q. find-erase p q h.devices;
  main_queue = refl;
}

pub remove_device_by_fd-without :
    (h : Handler) (fd : ℤ) (p : Address) (d : Device)
    → find fd h.map_device_info ≡ some p
    → find p h.devices ≡ some d
    → remove_device_by_fd fd h ≡ some (tt, without h p d (epoll_del d.fd ∷ close_fd d.fd ∷ []))
unfolding remove_device_by_fd get_device_by_fd load epoll_remove sys_call forget_device add_pressure
    delete_device
remove_device_by_fd-without h fd p d e here =
    ground (arith, e, here, append_assoc h.sys_calls (epoll_del d.fd ∷ []) (close_fd d.fd ∷ []))

pub remove_device_by_session-without :
    (h : Handler) (session : ℤ) (p : Address) (d : Device)
    → find session h.map_device_session_info ≡ some p
    → find p h.devices ≡ some d
    → remove_device_by_session session h
      ≡ some (tt, without h p d (close_fd d.fd ∷ epoll_del d.fd ∷ []))
unfolding remove_device_by_session get_device_by_session load epoll_remove sys_call forget_device
    add_pressure delete_device
remove_device_by_session-without h session p d e here =
    ground (arith, e, here, append_assoc h.sys_calls (close_fd d.fd ∷ []) (epoll_del d.fd ∷ []))

-- `removeDevice_ByFD` on tables that agree: an unknown descriptor changes nothing. A known one leaves both
-- tables and the heap, and no other device does; epoll forgets the descriptor before it is closed, the
-- pressure falls by one, no task is pushed, and the tables agree.
pub remove_device_by_fd_lem :
    (h : Handler) (fd : ℤ)
    → TablesAgree h
    → ((find fd h.map_device_info ≡ none) × (remove_device_by_fd fd h ≡ some (tt, h)))
      ⊎ ((p : Address) × (d : Device) × (h' : Handler) × (find p h.devices ≡ some d)
          × (d.fd ≡ fd)
          × (remove_device_by_fd fd h ≡ some (tt, h'))
          × (h'.sys_calls ≡ h.sys_calls ++ (epoll_del fd ∷ close_fd fd ∷ []))
          × Removed h d p h')
unfolding remove_device_by_fd get_device_by_fd
remove_device_by_fd_lem h fd v = elim (Option-cases (find fd h.map_device_info)) [
  | inl unknown ↦ inl (unknown, ground (arith, unknown))
  | inr (p, e) ↦
      let (d, here, own, back) = v.by_fd fd p e in
      inr (
        p,
        d,
        without h p d (epoll_del d.fd ∷ close_fd d.fd ∷ []),
        here,
        own,
        remove_device_by_fd-without h fd p d e here,
        ap (λ k. h.sys_calls ++ (epoll_del k ∷ close_fd k ∷ [])) own,
        without-Removed p d _ v here (ap (λ k. find k h.map_device_info) own ∙ e) back,
      )
]

-- `removeDevice_BySession` on tables that agree: an unknown session changes nothing. A known one's
-- device leaves both tables and the heap, and no other device does; the descriptor is closed before
-- epoll forgets it, the pressure falls by one, no task is pushed, and the tables agree.
pub remove_device_by_session_lem :
    (h : Handler) (session : ℤ)
    → TablesAgree h
    → ((find session h.map_device_session_info ≡ none)
        × (remove_device_by_session session h ≡ some (tt, h)))
      ⊎ ((p : Address) × (d : Device) × (h' : Handler) × (find p h.devices ≡ some d)
          × (d.session_id ≡ session)
          × (remove_device_by_session session h ≡ some (tt, h'))
          × (h'.sys_calls ≡ h.sys_calls ++ (close_fd d.fd ∷ epoll_del d.fd ∷ []))
          × Removed h d p h')
unfolding remove_device_by_session get_device_by_session
remove_device_by_session_lem h session v =
    elim (Option-cases (find session h.map_device_session_info)) [
      | inl unknown ↦ inl (unknown, ground (arith, unknown))
      | inr (p, e) ↦
          let (d, here, own, back) = v.by_session session p e in
          inr (
            p,
            d,
            without h p d (close_fd d.fd ∷ epoll_del d.fd ∷ []),
            here,
            own,
            remove_device_by_session-without h session p d e here,
            refl,
            without-Removed p d _ v here back (ap (λ k. find k h.map_device_session_info) own ∙ e),
          )
    ]
