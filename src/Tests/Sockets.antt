-- ===== src/Tests/Sockets.antt =====
-- The tables of devices and the handlers of oryx/EpollHandler.cpp with one connection.
use oryxgame.Common.{
  ◌≡◌, ◌⊎◌, inl, inr, true, false, none, some, List, [], ◌∷◌, ◌++◌, arith, replicate, Bool-cases,
}
use oryxgame.Common.Int.{pos, eqb_ℤ, eqb_ℤ_iff}
use oryxgame.Common.Map.{find}
use oryxgame.Device.{Device, device_client_external, SockAddr}
use oryxgame.Task.{SendPacket}
use oryxgame.Epoll.Read.{received, other_error}
use oryxgame.Epoll.Write.{Send, accepted, refused}
use oryxgame.Epoll.State.{Address, epoll_del, close_fd, Handler}
use oryxgame.Epoll.Devices.{add_device, remove_device_by_fd}
use oryxgame.Epoll.Table.{TablesAgree, Added, made, add_device_lem}
use oryxgame.Epoll.Removal.{Removed, remove_device_by_fd_lem}
use oryxgame.Epoll.Events.{Calls, Event, write_packet_to_conn}
use oryxgame.Epoll.Events.Sending.{Written, write_packet_to_conn_lem}

abbrev address : SockAddr
address = record { sin_family = 2; sin_addr = 0; sin_port = 0 }

abbrev client : Device
client = record {
  fd = pos 7;
  session_id = pos 42;
  device_type = device_client_external;
  recv_buffer = replicate 4096 0;
  recv_begin = 0;
  recv_end = 0;
  send_buffer = replicate 4096 0;
  send_begin = 0;
  send_end = 0;
  sock_addr = address;
}

abbrev handler : Handler
handler = record {
  thread_id = pos 3;
  pressure = pos 1;
  devices = (pos 0, client) ∷ [];
  next_device = 1;
  map_device_info = (pos 7, pos 0) ∷ [];
  map_device_session_info = (pos 42, pos 0) ∷ [];
  main_queue = [];
  sys_calls = [];
}

handler-TablesAgree : TablesAgree handler
unfolding find
handler-TablesAgree = record {
  by_fd = λ fd p e. elim (Bool-cases (eqb_ℤ (pos 7) fd)) [
    | inl same ↦
        (client, ground (arith, e, same), (eqb_ℤ_iff (pos 7) fd).0 same, ground (arith, e, same))
    | inr other ↦ absurd (ground (arith, e, other))
  ];
  by_session = λ session p e. elim (Bool-cases (eqb_ℤ (pos 42) session)) [
    | inl same ↦ (
      client,
      ground (arith, e, same),
      (eqb_ℤ_iff (pos 42) session).0 same,
      ground (arith, e, same),
    )
    | inr other ↦ absurd (ground (arith, e, other))
  ];
  unused = λ n h. ground arith;
}

add_device_lem_example :
    ((add_device client (pos 8) (pos 43) device_client_external address handler
        ≡ some (false, handler))
      × ((p : Address) × ((find (pos 43) handler.map_device_session_info ≡ some p)
            ⊎ (find (pos 8) handler.map_device_info ≡ some p))))
    ⊎ ((h' : Handler) × (add_device client (pos 8) (pos 43) device_client_external address handler
          ≡ some (true, h'))
        × Added handler
            (pos 8)
            (pos 43)
            (made client (pos 8) (pos 43) device_client_external address)
            h')
add_device_lem_example =
    add_device_lem {h = handler} client (pos 8) (pos 43) device_client_external address
      handler-TablesAgree

remove_device_by_fd_lem_example :
    ((find (pos 7) handler.map_device_info ≡ none)
      × (remove_device_by_fd (pos 7) handler ≡ some (tt, handler)))
    ⊎ ((p : Address) × (d : Device) × (h' : Handler) × (find p handler.devices ≡ some d)
        × (d.fd ≡ pos 7)
        × (remove_device_by_fd (pos 7) handler ≡ some (tt, h'))
        × (h'.sys_calls ≡ [] ++ (epoll_del (pos 7) ∷ close_fd (pos 7) ∷ []))
        × Removed handler d p h')
remove_device_by_fd_lem_example = remove_device_by_fd_lem handler (pos 7) handler-TablesAgree

-- The peer sends a packet and closes; a second event for the same descriptor follows.
abbrev events : List (Calls × Event)
events =
    (
      record {
        accepts = [];
        recvs = received (0 ∷ 0 ∷ 0 ∷ 5 ∷ 9 ∷ []) ∷ received [] ∷ [];
        sends = [];
      },
      record { fd = pos 7; writable = true; readable = true },
    )
    ∷ (
      record { accepts = []; recvs = []; sends = [] },
      record { fd = pos 7; writable = false; readable = true },
    )
    ∷ []

abbrev greeting : SendPacket
greeting = record { thrd_id = pos 3; session_id = pos 42; packet = some (72 ∷ 105 ∷ []) }

abbrev broken : List Send
broken = accepted 4 ∷ refused other_error ∷ []

write_packet_to_conn_lem_example :
    ((find (pos 42) handler.map_device_session_info ≡ none)
      × (write_packet_to_conn broken greeting handler ≡ some (tt, handler)))
    ⊎ ((p : Address) × (d : Device) × (h' : Handler) × (find
            (pos 42)
            handler.map_device_session_info
          ≡ some p)
        × (find p handler.devices ≡ some d)
        × (write_packet_to_conn broken greeting handler ≡ some (tt, h'))
        × Written broken greeting p d handler h')
write_packet_to_conn_lem_example =
    write_packet_to_conn_lem broken greeting handler handler-TablesAgree
