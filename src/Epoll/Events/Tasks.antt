-- ===== src/Epoll/Events/Tasks.antt =====
-- The tasks of an epoll thread (oryx/EpollHandler.cpp), all of them.
use oryxgame.Common.{refl, inl, inr, Bool, true, false, List, if◌then◌else◌, Option-cases}
use oryxgame.Common.Int.{ℤ}
use oryxgame.Common.Map.{find}
use oryxgame.Device.{Device, DeviceType, SockAddr}
use oryxgame.Task.{
  Task, Listening, ClientConnInsert, SendPacket, task_client_conn, task_listener,
  task_client_conn_insert, task_client_conn_delete, task_client_conn_packet, task_send_packet,
  task_client_conn_on_close,
}
use oryxgame.Epoll.Write.{Send}
use oryxgame.Epoll.State.{◌>>=◌, give, get_handler, sys_call}
use oryxgame.Epoll.Devices.{epoll_register, add_device}
use oryxgame.Epoll.Table.{made, added, added-TablesAgree, add_device-added, add_device-known}
use oryxgame.Epoll.Balance.{added-Balanced}
use oryxgame.Epoll.Events.{
  write_packet_to_conn, add_listener, add_client_conn, del_client_conn, dotask,
}
use oryxgame.Epoll.Events.Safety.{IsSafe, give-IsSafe, bind-IsSafe, remove_device_by_session-IsSafe}
use oryxgame.Epoll.Events.Rounds.{if-IsSafe}
use oryxgame.Epoll.Events.Sending.{write_packet_to_conn_lem}

epoll_register-IsSafe : (registered : Bool) (fd : ℤ) → IsSafe (epoll_register registered fd)
unfolding IsSafe epoll_register sys_call
epoll_register-IsSafe registered fd h v = (
  registered,
  _,
  refl,
  record { by_fd = v.by_fd; by_session = v.by_session; unused = v.unused },
  λ u. (u, refl),
)

add_device-IsSafe :
    (raw : Device) (fd session : ℤ) (type : DeviceType) (addr : SockAddr)
    → IsSafe (add_device raw fd session type addr)
unfolding IsSafe
add_device-IsSafe raw fd session type addr h v =
    elim (Option-cases (find session h.map_device_session_info)) [
      | inr (p, used) ↦
          (false, h, add_device-known h raw fd session type addr p (inl used), v, λ u. (u, refl))
      | inl free_session ↦ elim (Option-cases (find fd h.map_device_info)) [
        | inr (p, used) ↦
            (false, h, add_device-known h raw fd session type addr p (inr used), v, λ u. (u, refl))
        | inl free_fd ↦
            let d = made raw fd session type addr in
            (
              true,
              added h d,
              add_device-added h raw fd session type addr free_session free_fd,
              added-TablesAgree d v free_session free_fd,
              added-Balanced h d free_fd,
            )
      ]
    ]

registered-IsSafe :
    (result : Bool) (raw : Device) (fd session : ℤ) (type : DeviceType) (addr : SockAddr)
    → IsSafe
        (if result then (add_device raw fd session type addr >>= λ added. give tt) else give tt)
registered-IsSafe result raw fd session type addr =
    if-IsSafe result _ _
      (bind-IsSafe _ _ (add_device-IsSafe raw fd session type addr) (λ _. give-IsSafe tt))
      (give-IsSafe tt)

add_listener-IsSafe :
    (registered : Bool) (raw : Device) (t : Listening) → IsSafe (add_listener registered raw t)
unfolding add_listener
add_listener-IsSafe registered raw t =
    bind-IsSafe _ _ (epoll_register-IsSafe registered t.listen_fd)
      (λ result. registered-IsSafe result raw t.listen_fd _ t.device_type t.sock_addr)

get_handler-IsSafe : IsSafe get_handler
unfolding IsSafe
get_handler-IsSafe h v = (h, h, refl, v, λ u. (u, refl))

add_client_conn-IsSafe :
    (registered : Bool) (raw : Device) (t : ClientConnInsert)
    → IsSafe (add_client_conn registered raw t)
unfolding add_client_conn
add_client_conn-IsSafe registered raw t = bind-IsSafe _ _ get_handler-IsSafe (λ h.
    bind-IsSafe _ _ (epoll_register-IsSafe registered t.client_fd) (λ result.
      bind-IsSafe _ _
        (registered-IsSafe result raw t.client_fd t.session_id t.device_type t.sock_addr)
        (λ _. give-IsSafe _)))

write_packet_to_conn-IsSafe :
    (sends : List Send) (t : SendPacket) → IsSafe (write_packet_to_conn sends t)
unfolding IsSafe
write_packet_to_conn-IsSafe sends t h v = elim (write_packet_to_conn_lem sends t h v) [
  | inl (_, done) ↦ (tt, h, done, v, λ u. (u, refl))
  | inr (p, d, h', _, _, done, w) ↦ (tt, h', done, w.agree, w.balanced)
]

pub dotask-IsSafe :
    (registered : Bool) (raw : Device) (sends : List Send) (t : Task)
    → IsSafe (dotask registered raw sends t)
unfolding dotask del_client_conn
dotask-IsSafe registered raw sends (task_listener t) =
    bind-IsSafe _ _ (add_listener-IsSafe registered raw t) (λ _. give-IsSafe _)
dotask-IsSafe registered raw sends (task_client_conn_insert t) =
    bind-IsSafe _ _ (add_client_conn-IsSafe registered raw t) (λ _. give-IsSafe _)
dotask-IsSafe registered raw sends (task_client_conn_delete t) =
    bind-IsSafe _ _ (remove_device_by_session-IsSafe t.session_id) (λ _. give-IsSafe _)
dotask-IsSafe registered raw sends (task_send_packet t) =
    bind-IsSafe _ _ (write_packet_to_conn-IsSafe sends t) (λ _. give-IsSafe _)
dotask-IsSafe registered raw sends (task_client_conn t) = give-IsSafe _
dotask-IsSafe registered raw sends (task_client_conn_on_close t) = give-IsSafe _
dotask-IsSafe registered raw sends (task_client_conn_packet t) = give-IsSafe _
