-- ===== src/Epoll/Events/Sending.antt =====
-- `WritePacketToConn` (oryx/EpollHandler.cpp) on tables that agree.
use oryxgame.Common.{
  ◌≡◌, refl, sym, ap, ◌∙◌, ◌⊎◌, inl, inr, true, false, none, some, List, [], ◌∷◌, ◌++◌, arith,
  if◌then◌else◌, Bool-cases, Option-cases,
}
use oryxgame.Common.Int.{ℤ, eqb_ℤ_refl}
use oryxgame.Common.Map.{find}
use oryxgame.Device.{Device}
use oryxgame.Task.{Task, SendPacket, task_client_conn_on_close, new_client_conn_on_close}
use oryxgame.Epoll.Write.{Send}
use oryxgame.Epoll.State.{Address, epoll_del, close_fd, Handler, load, push_task_main}
use oryxgame.Epoll.Devices.{get_device_by_session, remove_device_by_fd}
use oryxgame.Epoll.Table.{TablesAgree}
use oryxgame.Epoll.Balance.{Balanced, Balanced-trans, without-Balanced}
use oryxgame.Epoll.Removal.{Removed, without, without-Removed, remove_device_by_fd-without}
use oryxgame.Epoll.Events.{push_on_close, queue_packet, write_packet_to_conn}
use oryxgame.Epoll.Events.Queueing.{after, went_well, Queued, queue_packet-Queued}

-- The logic thread was told that the session is closed.
abbrev pub told : Handler → ℤ → Handler
told h session = record h {
  main_queue =
      h.main_queue
      ++ (task_client_conn_on_close (new_client_conn_on_close h.thread_id session) ∷ []);
}

wrote_well :
    (sends : List Send) (t : SendPacket) (h h' : Handler) (p : Address)
    → find t.session_id h.map_device_session_info ≡ some p
    → queue_packet sends t p h ≡ some (true, h')
    → write_packet_to_conn sends t h ≡ some (tt, h')
unfolding write_packet_to_conn get_device_by_session
wrote_well sends t h h' p e done = ground (arith, e, done)

wrote_badly :
    (sends : List Send) (t : SendPacket) (h h' h'' : Handler) (p : Address) (d : Device)
    → find t.session_id h.map_device_session_info ≡ some p
    → queue_packet sends t p h ≡ some (false, h')
    → find p h'.devices ≡ some d
    → remove_device_by_fd d.fd (told h' d.session_id) ≡ some (tt, h'')
    → write_packet_to_conn sends t h ≡ some (tt, h'')
unfolding write_packet_to_conn get_device_by_session load push_on_close push_task_main
wrote_badly sends t h h' h'' p d e done here removed = ground (arith, e, done, here, removed)

-- What a packet for the connected device `d` makes of the state.
pub record Written (sends : List Send) (t : SendPacket) (p : Address) (d : Device) (h h' : Handler)
    : Type 0 where
  pub agree : TablesAgree h'
  pub main_queue : h'.main_queue ≡ (
      if went_well sends t d
      then h.main_queue
      else h.main_queue
        ++ (task_client_conn_on_close (new_client_conn_on_close h.thread_id d.session_id) ∷ []))
  pub sys_calls : h'.sys_calls ≡ (
      if went_well sends t d
      then h.sys_calls
      else h.sys_calls ++ (epoll_del d.fd ∷ close_fd d.fd ∷ []))
  pub device : find p h'.devices ≡ (if went_well sends t d then some (after sends t d) else none)
  pub balanced : Balanced h h'

module _ {sends : List Send} {t : SendPacket} {p : Address} {d : Device} {h h' : Handler}
    (q : Queued sends t p d h h') where
  well-Written : went_well sends t d ≡ true → Written sends t p d h h'
  well-Written well = record {
    agree = q.agree;
    main_queue = q.main_queue ∙ rw well;
    sys_calls = q.sys_calls ∙ rw well;
    device = q.device ∙ rw well;
    balanced = q.balanced;
  }

  close_task : Task
  close_task = task_client_conn_on_close (new_client_conn_on_close h.thread_id d.session_id)

  told_queue : (told h' (after sends t d).session_id).main_queue ≡ h.main_queue ++ (close_task ∷ [])
  unfolding close_task
  told_queue = rw (q.main_queue, q.thread_id, q.keys.1)

  badly-Written :
      {h'' : Handler}
      → went_well sends t d ≡ false
      → h''.sys_calls
        ≡ h'.sys_calls ++ (epoll_del (after sends t d).fd ∷ close_fd (after sends t d).fd ∷ [])
      → Balanced h' h''
      → Removed (told h' (after sends t d).session_id) (after sends t d) p h''
      → Written sends t p d h h''
  unfolding close_task
  badly-Written {h''} bad calls k r = record {
    agree = r.agree;
    main_queue = r.main_queue ∙ told_queue ∙ rw bad;
    sys_calls = calls ∙ rw (q.sys_calls, q.keys.0, bad);
    device = r.devices p ∙ rw (eqb_ℤ_refl p, bad);
    balanced = Balanced-trans h h' h'' q.balanced k;
  }

-- The removal of the device at `p` after the logic thread was told.
removal :
    (h : Handler) (p : Address) (d : Device)
    → TablesAgree h
    → find d.fd h.map_device_info ≡ some p
    → find p h.devices ≡ some d
    → (h' : Handler) × (remove_device_by_fd d.fd (told h d.session_id) ≡ some (tt, h'))
      × (h'.sys_calls ≡ h.sys_calls ++ (epoll_del d.fd ∷ close_fd d.fd ∷ []))
      × Balanced h h'
      × Removed (told h d.session_id) d p h'
removal h p d v e here =
    let (d', there, own, back) = v.by_fd d.fd p e in
    let one : d' ≡ d = ground (arith, here, there) in
    let back_to_d : find d.session_id h.map_device_session_info ≡ some p =
      ap (λ x. find x.session_id h.map_device_session_info) (sym one) ∙ back in
    let v' : TablesAgree (told h d.session_id) = record {
      by_fd = v.by_fd;
      by_session = v.by_session;
      unused = v.unused;
    } in
    (
      without (told h d.session_id) p d (epoll_del d.fd ∷ close_fd d.fd ∷ []),
      remove_device_by_fd-without (told h d.session_id) d.fd p d e here,
      refl,
      without-Balanced (told h d.session_id) p p d e (epoll_del d.fd ∷ close_fd d.fd ∷ []),
      without-Removed p d (epoll_del d.fd ∷ close_fd d.fd ∷ []) v' here e back_to_d,
    )

-- `WritePacketToConn` on tables that agree always returns. For an unknown session nothing changes.
-- Otherwise the packet is queued and sent as far as the socket takes it; if it does not fit, or sending
-- fails, the logic thread gets one task that says that the session is closed, epoll forgets the
-- descriptor, it is closed, and the device is deleted. The tables agree again.
pub write_packet_to_conn_lem :
    (sends : List Send) (t : SendPacket) (h : Handler)
    → TablesAgree h
    → ((find t.session_id h.map_device_session_info ≡ none)
        × (write_packet_to_conn sends t h ≡ some (tt, h)))
      ⊎ ((p : Address) × (d : Device) × (h' : Handler) × (find t.session_id
              h.map_device_session_info
            ≡ some p)
          × (find p h.devices ≡ some d)
          × (write_packet_to_conn sends t h ≡ some (tt, h'))
          × Written sends t p d h h')
unfolding write_packet_to_conn get_device_by_session
write_packet_to_conn_lem sends t h v =
    elim (Option-cases (find t.session_id h.map_device_session_info)) [
      | inl unknown ↦ inl (unknown, ground (arith, unknown))
      | inr (p, e) ↦
          let (d, here, own, by_fd) = v.by_session t.session_id p e in
          let (h1, q) = queue_packet-Queued sends t h p d v by_fd here in
          elim (Bool-cases (went_well sends t d)) [
            | inl well ↦ inr (
              p,
              d,
              h1,
              e,
              here,
              wrote_well sends t h h1 p e (q.done ∙ rw well),
              well-Written q well,
            )
            | inr bad ↦
                let fd_there : find (after sends t d).fd h1.map_device_info ≡ some p =
                  ap (λ k. find k h1.map_device_info) q.keys.0 ∙ ap (find d.fd) q.by_fd ∙ by_fd in
                let (h2, gone, calls, k, r) =
                  removal h1 p (after sends t d) q.agree fd_there q.device in
                inr (
                  p,
                  d,
                  h2,
                  e,
                  here,
                  wrote_badly sends t h h1 h2 p (after sends t d) e (q.done ∙ rw bad) q.device gone,
                  badly-Written q bad calls k r,
                )
          ]
    ]
