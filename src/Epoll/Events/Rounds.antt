-- ===== src/Epoll/Events/Rounds.antt =====
-- Whole rounds of `doEpollEvents` (oryx/EpollHandler.cpp).
use oryxgame.Common.{
  ◌≡◌, refl, inl, inr, Bool, true, false, none, some, List, [], ◌∷◌, ◌++◌, arith, if◌then◌else◌,
  Option-cases,
}
use oryxgame.Common.Int.{ℤ}
use oryxgame.Common.Map.{find}
use oryxgame.Device.{
  DeviceType, device_unknown, device_server_internal, device_server_external,
  device_client_internal, device_client_external, device_max,
}
use oryxgame.Task.{task_client_conn_on_close, new_client_conn_on_close}
use oryxgame.Epoll.State.{Handler, M, ◌>>=◌, give, load, push_task_main}
use oryxgame.Epoll.Devices.{
  get_device_by_fd, get_device_type_by_fd, type_of_device, remove_device_by_fd,
}
use oryxgame.Epoll.Table.{TablesAgree}
use oryxgame.Epoll.Events.{
  Calls, Event, push_on_close, close_broken, read_event, client_event, listen_event, event_of_type,
  do_event, do_epoll_events,
}
use oryxgame.Epoll.Events.Safety.{
  IsSafe, give-IsSafe, bind-IsSafe, do_accept-IsSafe, do_read-IsSafe, do_write-IsSafe,
  remove_device_by_fd-IsSafe,
}

told-IsSafe :
    (fd : ℤ)
    → IsSafe (
        get_device_by_fd fd >>= λ found. elim found [
          | none ↦ give tt
          | some p ↦ load p >>= λ d. push_on_close d.session_id
        ])
unfolding IsSafe get_device_by_fd load push_on_close push_task_main
told-IsSafe fd h v = elim (Option-cases (find fd h.map_device_info)) [
  | inl unknown ↦ (tt, h, ground (arith, unknown), v, λ u. (u, refl))
  | inr (p, e) ↦
      let (d, here, _, _) = v.by_fd fd p e in
      (
        tt,
        record h {
          main_queue =
              h.main_queue
              ++ (task_client_conn_on_close (new_client_conn_on_close h.thread_id d.session_id)
                  ∷ []);
        },
        ground (arith, e, here),
        record { by_fd = v.by_fd; by_session = v.by_session; unused = v.unused },
        λ u. (u, refl),
      )
]

close_broken-IsSafe : (fd : ℤ) → IsSafe (close_broken fd)
unfolding close_broken remove_device_by_fd get_device_by_fd
close_broken-IsSafe fd = bind-IsSafe _ _ (told-IsSafe fd) (λ _. remove_device_by_fd-IsSafe fd)

pub if-IsSafe :
    {A : Type 0} (b : Bool) (m n : M A) → IsSafe m → IsSafe n → IsSafe (if b then m else n)
if-IsSafe true m n s t = s
if-IsSafe false m n s t = t

read_event-IsSafe : (calls : Calls) (e : Event) → IsSafe (read_event calls e)
unfolding read_event
read_event-IsSafe calls e =
    if-IsSafe e.readable _ _ (do_read-IsSafe calls.recvs e.fd) (give-IsSafe true)

client_event-IsSafe : (calls : Calls) (e : Event) → IsSafe (client_event calls e)
unfolding client_event
client_event-IsSafe calls e =
    bind-IsSafe _ _ (if-IsSafe e.writable _ _ (do_write-IsSafe calls.sends e.fd) (give-IsSafe true))
      (λ written. if-IsSafe written _ _ (read_event-IsSafe calls e) (give-IsSafe false))

listen_event-IsSafe : (calls : Calls) (e : Event) → IsSafe (listen_event calls e)
unfolding listen_event
listen_event-IsSafe calls e =
    bind-IsSafe _ _ (do_accept-IsSafe calls.accepts e.fd) (λ _. give-IsSafe true)

event_of_type-IsSafe :
    (type : DeviceType) (calls : Calls) (e : Event) → IsSafe (event_of_type type calls e)
unfolding event_of_type
event_of_type-IsSafe device_server_internal calls e = listen_event-IsSafe calls e
event_of_type-IsSafe device_server_external calls e = listen_event-IsSafe calls e
event_of_type-IsSafe device_client_internal calls e = client_event-IsSafe calls e
event_of_type-IsSafe device_client_external calls e = client_event-IsSafe calls e
event_of_type-IsSafe device_unknown calls e = give-IsSafe true
event_of_type-IsSafe device_max calls e = give-IsSafe true

get_device_type-IsSafe : (fd : ℤ) → IsSafe (get_device_type_by_fd fd)
unfolding IsSafe get_device_type_by_fd get_device_by_fd type_of_device load
get_device_type-IsSafe fd h v = elim (Option-cases (find fd h.map_device_info)) [
  | inl unknown ↦ (device_unknown, h, ground (arith, unknown), v, λ u. (u, refl))
  | inr (p, e) ↦
      let (d, here, _, _) = v.by_fd fd p e in
      (d.device_type, h, ground (arith, e, here), v, λ u. (u, refl))
]

do_event-IsSafe : (calls : Calls) (e : Event) → IsSafe (do_event calls e)
unfolding do_event
do_event-IsSafe calls e = bind-IsSafe _ _ (get_device_type-IsSafe e.fd) (λ type.
    bind-IsSafe _ _ (event_of_type-IsSafe type calls e)
      (λ result. if-IsSafe result _ _ (give-IsSafe tt) (close_broken-IsSafe e.fd)))

pub events-IsSafe : (events : List (Calls × Event)) → IsSafe (do_epoll_events events)
unfolding do_epoll_events
events-IsSafe [] = give-IsSafe tt
events-IsSafe ((calls, e) ∷ events) =
    bind-IsSafe _ _ (do_event-IsSafe calls e) (λ _. events-IsSafe events)

-- Whatever events epoll reports, in whatever order and also for one descriptor many times, and whatever
-- the system calls return: `doEpollEvents` on tables that agree never uses a device that was deleted, and
-- leaves tables that agree.
pub do_epoll_events-TablesAgree :
    (events : List (Calls × Event)) (h : Handler)
    → TablesAgree h
    → (h' : Handler) × (do_epoll_events events h ≡ some (tt, h')) × TablesAgree h'
unfolding IsSafe
do_epoll_events-TablesAgree events h v =
    let (u, h', done, v', _) = events-IsSafe events h v in (h', done, v')
