-- ===== src/Epoll/Events/Safety.antt =====
-- The handlers of oryx/EpollHandler.cpp and the memory of devices.
use oryxgame.Common.{
  ◌≡◌, refl, sym, ap, ◌∙◌, inl, inr, true, false, some, List, [], ◌∷◌, ◌++◌, arith, Bool-cases,
  Option-cases,
}
use oryxgame.Common.Int.{ℤ, pos, eqb_ℤ, eqb_ℤ_iff}
use oryxgame.Common.Map.{find, find-insert}
use oryxgame.Device.{Device, DeviceType, SockAddr}
use oryxgame.Epoll.Read.{Recv, recv_loop}
use oryxgame.Epoll.Write.{Send, write_device}
use oryxgame.Epoll.State.{
  Address, SysCall, epoll_del, close_fd, Handler, M, ◌>>=◌, give, load, store, sys_call,
  push_task_main,
}
use oryxgame.Epoll.Devices.{
  get_device_by_fd, get_device_by_session, remove_device_by_fd, remove_device_by_session,
}
use oryxgame.Epoll.Table.{TablesAgree}
use oryxgame.Epoll.Removal.{
  without, without-Removed, remove_device_by_fd-without, remove_device_by_session-without,
}
use oryxgame.Epoll.Balance.{Balanced, Balanced-trans, without-Balanced}
use oryxgame.Epoll.Events.{accept_loop, do_accept, do_read, do_write, push_on_close}
use oryxgame.Epoll.Events.Steps.{SameKeys, recv_loop-SameKeys, write_device-SameKeys, stored}

-- Run on tables that agree, it uses no deleted device and leaves tables that agree, and the pressure
-- still counts the devices.
unfoldable pub IsSafe : {A : Type 0} → M A → Type 0
IsSafe {A} m =
    (h : Handler)
    → TablesAgree h
    → (a : A) × (h' : Handler) × (m h ≡ some (a, h')) × TablesAgree h' × Balanced h h'

pub give-IsSafe : {A : Type 0} (a : A) → IsSafe (give a)
unfolding IsSafe
give-IsSafe a h v = (a, h, refl, v, λ u. (u, refl))

pub bind-IsSafe :
    {A B : Type 0} (m : M A) (f : A → M B) → IsSafe m → ((a : A) → IsSafe (f a)) → IsSafe (m >>= f)
unfolding IsSafe
bind-IsSafe m f s t h v =
    let (a, h', e, v', k) = s h v in
    let (b, h'', e', v'', k') = t a h' v' in
    (b, h'', ground (arith, e, e'), v'', Balanced-trans h h' h'' k k')

-- A device may be replaced by one with the same keys.
pub stored-TablesAgree :
    {h : Handler} (p : Address) (d d' : Device)
    → TablesAgree h
    → find p h.devices ≡ some d
    → SameKeys d d'
    → TablesAgree (stored h p d')
stored-TablesAgree {h} p d d' v here (same_fd, same_session) = record {
  by_fd = λ fd q e.
      let (old, there, own, back) = v.by_fd fd q e in
      elim (Bool-cases (eqb_ℤ p q)) [
        | inl same ↦
            let one : d ≡ old =
              ground (arith, here, there, ap (λ x. find x h.devices) ((eqb_ℤ_iff p q).0 same)) in
            (
              d',
              ground (arith, find-insert p q d' h.devices, same),
              same_fd ∙ ap (λ x. x.fd) one ∙ own,
              ap (λ s. find s h.map_device_session_info) (same_session ∙ ap (λ x. x.session_id) one)
                  ∙ back,
            )
        | inr other ↦ (old, ground (arith, find-insert p q d' h.devices, other, there), own, back)
      ];
  by_session = λ session q e.
      let (old, there, own, back) = v.by_session session q e in
      elim (Bool-cases (eqb_ℤ p q)) [
        | inl same ↦
            let one : d ≡ old =
              ground (arith, here, there, ap (λ x. find x h.devices) ((eqb_ℤ_iff p q).0 same)) in
            (
              d',
              ground (arith, find-insert p q d' h.devices, same),
              same_session ∙ ap (λ x. x.session_id) one ∙ own,
              ap (λ k. find k h.map_device_info) (same_fd ∙ ap (λ x. x.fd) one) ∙ back,
            )
        | inr other ↦ (old, ground (arith, find-insert p q d' h.devices, other, there), own, back)
      ];
  unused = λ n k.
      let free = v.unused n k in
      elim (Bool-cases (eqb_ℤ p (pos n))) [
        | inl same ↦
            let used : find (pos n) h.devices ≡ some d =
              ap (λ x. find x h.devices) (sym ((eqb_ℤ_iff p (pos n)).0 same)) ∙ here in
            absurd (ground (arith, used, free))
        | inr other ↦ find-insert p (pos n) d' h.devices ∙ ground (arith, other, free)
      ];
}

accept_loop-IsSafe :
    (thread : ℤ) (type : DeviceType) (accepts : List (ℤ × SockAddr))
    → IsSafe (accept_loop thread type accepts)
unfolding accept_loop IsSafe sys_call push_task_main
accept_loop-IsSafe thread type [] h v = (tt, h, refl, v, λ u. (u, refl))
accept_loop-IsSafe thread type ((fd, addr) ∷ accepts) h v =
    accept_loop-IsSafe thread type accepts _
      (record { by_fd = v.by_fd; by_session = v.by_session; unused = v.unused })

pub do_accept-IsSafe : (accepts : List (ℤ × SockAddr)) (fd : ℤ) → IsSafe (do_accept accepts fd)
unfolding do_accept get_device_by_fd IsSafe load
do_accept-IsSafe accepts fd h v = elim (Option-cases (find fd h.map_device_info)) [
  | inl unknown ↦ (false, h, ground (arith, unknown), v, λ u. (u, refl))
  | inr (p, e) ↦
      let (d, here, _, _) = v.by_fd fd p e in
      let (u, h', done, v', k) = accept_loop-IsSafe h.thread_id d.device_type accepts h v in
      (true, h', ground (arith, e, here, done), v', k)
]

pub do_read-IsSafe : (recvs : List Recv) (fd : ℤ) → IsSafe (do_read recvs fd)
unfolding do_read get_device_by_fd IsSafe load store
do_read-IsSafe recvs fd h v = elim (Option-cases (find fd h.map_device_info)) [
  | inl unknown ↦ (false, h, ground (arith, unknown), v, λ u. (u, refl))
  | inr (p, e) ↦
      let (d, here, _, _) = v.by_fd fd p e in
      let r = recv_loop h.thread_id recvs d in
      let v' = stored-TablesAgree p d r.device v here (recv_loop-SameKeys h.thread_id recvs d) in
      (
        r.result,
        record (stored h p r.device) { main_queue = h.main_queue ++ r.tasks },
        ground (arith, e, here),
        record { by_fd = v'.by_fd; by_session = v'.by_session; unused = v'.unused },
        λ u. (u, refl),
      )
]

pub do_write-IsSafe : (sends : List Send) (fd : ℤ) → IsSafe (do_write sends fd)
unfolding do_write get_device_by_fd IsSafe load store
do_write-IsSafe sends fd h v = elim (Option-cases (find fd h.map_device_info)) [
  | inl unknown ↦ (false, h, ground (arith, unknown), v, λ u. (u, refl))
  | inr (p, e) ↦
      let (d, here, _, _) = v.by_fd fd p e in
      let w = write_device sends d in
      (
        w.result,
        stored h p w.device,
        ground (arith, e, here),
        stored-TablesAgree p d w.device v here (write_device-SameKeys sends d),
        λ u. (u, refl),
      )
]

pub push_on_close-IsSafe : (session : ℤ) → IsSafe (push_on_close session)
unfolding push_on_close push_task_main IsSafe
push_on_close-IsSafe session h v = (
  tt,
  _,
  refl,
  record { by_fd = v.by_fd; by_session = v.by_session; unused = v.unused },
  λ u. (u, refl),
)

-- A device that the tables hold is removed.
pub removed-IsSafe :
    (h : Handler) (p : Address) (d : Device) (calls : List SysCall)
    → TablesAgree h
    → find p h.devices ≡ some d
    → find d.fd h.map_device_info ≡ some p
    → find d.session_id h.map_device_session_info ≡ some p
    → TablesAgree (without h p d calls) × Balanced h (without h p d calls)
removed-IsSafe h p d calls v here by_fd by_session = (
  (without-Removed p d calls v here by_fd by_session).agree,
  without-Balanced h p p d by_fd calls,
)

pub remove_device_by_fd-IsSafe : (fd : ℤ) → IsSafe (remove_device_by_fd fd)
unfolding IsSafe remove_device_by_fd get_device_by_fd
remove_device_by_fd-IsSafe fd h v = elim (Option-cases (find fd h.map_device_info)) [
  | inl unknown ↦ (tt, h, ground (arith, unknown), v, λ u. (u, refl))
  | inr (p, e) ↦
      let (d, here, own, back) = v.by_fd fd p e in
      let there : find d.fd h.map_device_info ≡ some p =
        ap (λ k. find k h.map_device_info) own ∙ e in
      let calls = epoll_del d.fd ∷ close_fd d.fd ∷ [] in
      (
        tt,
        without h p d calls,
        remove_device_by_fd-without h fd p d e here,
        (removed-IsSafe h p d calls v here there back).0,
        (removed-IsSafe h p d calls v here there back).1,
      )
]

pub remove_device_by_session-IsSafe : (session : ℤ) → IsSafe (remove_device_by_session session)
unfolding IsSafe remove_device_by_session get_device_by_session
remove_device_by_session-IsSafe session h v =
    elim (Option-cases (find session h.map_device_session_info)) [
      | inl unknown ↦ (tt, h, ground (arith, unknown), v, λ u. (u, refl))
      | inr (p, e) ↦
          let (d, here, own, back) = v.by_session session p e in
          let there : find d.session_id h.map_device_session_info ≡ some p =
            ap (λ k. find k h.map_device_session_info) own ∙ e in
          let calls = close_fd d.fd ∷ epoll_del d.fd ∷ [] in
          (
            tt,
            without h p d calls,
            remove_device_by_session-without h session p d e here,
            (removed-IsSafe h p d calls v here back there).0,
            (removed-IsSafe h p d calls v here back there).1,
          )
    ]
