-- ===== src/PlayerManager/Sending.antt =====
-- What `sendProtoToSession` (logic/PlayerManager.cpp) sends.
use oryxgame.Common.{
  ◌≡◌, ap, ◌∙◌, ◌⊎◌, inl, inr, Bool, true, false, Option, none, some, [], ◌∷◌, ◌++◌, arith, take,
  Bool-cases, Option-cases,
}
use oryxgame.Common.Int.{ℤ, pos, pos_part, ltb_ℤ}
use oryxgame.Common.Map.{find}
use oryxgame.Common.Bytes.{Bytes, Allocator, htonl}
use oryxgame.Task.{task_send_packet, new_send_packet, init_send_packet}
use oryxgame.Packet.{packet_version, packet_head_len, new_packet_with, packet_of_codes}
use oryxgame.Packet.Head.{head}
use oryxgame.Packet.Append.{packet_of_codes-Made}
use oryxgame.ClientConnManager.{SessionConn, Manager, Address, load, push_task}
use oryxgame.ClientConnManager.Ops.{
  send_msg_to_conn, send_msg_to_session, get_session_by_session_id,
}
use oryxgame.PlayerManager.{Message, send_packet, send_proto_to_session}

codes_wire :
    (heap : Allocator) (id err : ℤ)
    → take
        (pos_part (new_packet_with heap id err none).message_len)
        (new_packet_with heap id err none).bytes
      ≡ head (pos packet_head_len) packet_version id err
unfolding new_packet_with
codes_wire heap id err =
    let m = packet_of_codes-Made heap id err in
    ap (λ len. take (pos_part len) (packet_of_codes heap id err).bytes) m.message_len ∙ m.front

-- The state in which these bytes have been sent to a session.
abbrev pub sent : Manager → ℤ → ℤ → Bytes → Manager
sent m thread session bytes = record m {
  pushed =
      m.pushed
      ++ (task_send_packet (record { thrd_id = thread; session_id = session; packet = some bytes })
          ∷ []);
}

head_sent :
    (m : Manager) (session id err : ℤ) (p : Address) (conn : SessionConn)
    → find session m.session_conn_info ≡ some p
    → find p m.objects ≡ some conn
    → send_msg_to_conn session (some (head (pos packet_head_len) packet_version id err)) m
      ≡ some
          (true, sent m conn.thread_id session (head (pos packet_head_len) packet_version id err))
unfolding send_msg_to_conn send_msg_to_session get_session_by_session_id load push_task
    init_send_packet new_send_packet head htonl
head_sent m session id err p conn e here = ground (arith, e, here)

head_unsent :
    (m : Manager) (session id err : ℤ)
    → find session m.session_conn_info ≡ none
    → send_msg_to_conn session (some (head (pos packet_head_len) packet_version id err)) m
      ≡ some (false, m)
unfolding send_msg_to_conn send_msg_to_session get_session_by_session_id head htonl
head_unsent m session id err e = ground (arith, e)

no_number :
    (heap : Allocator) (m : Manager) (session id err : ℤ)
    → ltb_ℤ (pos 0) session ≡ false
    → send_proto_to_session heap session id err none m ≡ some (false, m)
unfolding send_proto_to_session
no_number heap m session id err low = ground (arith, low)

by_head :
    (heap : Allocator) (m : Manager) (session id err : ℤ) {r : Option (Bool × Manager)}
    → ltb_ℤ (pos 0) session ≡ true
    → send_msg_to_conn session (some (head (pos packet_head_len) packet_version id err)) m ≡ r
    → send_proto_to_session heap session id err none m ≡ r
unfolding send_proto_to_session send_packet
by_head heap m session id err positive done =
    rw (positive, send_proto_to_session)
      (ap (λ bytes. send_msg_to_conn session (some bytes) m) (codes_wire heap id err) ∙ done)

-- Without a message, `sendProtoToSession` to a live session gives the session's thread one task with
-- exactly the 14-byte head of the message's number and error code; to an unknown session, or to one
-- whose number is not positive, it sends nothing and returns false.
pub send_proto_to_session-head :
    (heap : Allocator) (m : Manager) (session id err : ℤ)
    → ((p : Address)
        → find session m.session_conn_info ≡ some p
        → (conn : SessionConn) × (find p m.objects ≡ some conn))
    → ((send_proto_to_session heap session id err none m ≡ some (false, m))
        × ((ltb_ℤ (pos 0) session ≡ false) ⊎ (find session m.session_conn_info ≡ none)))
      ⊎ ((p : Address) × (conn : SessionConn) × (find session m.session_conn_info ≡ some p)
          × (find p m.objects ≡ some conn)
          × (send_proto_to_session heap session id err none m
              ≡ some (
                true,
                sent m conn.thread_id session (head (pos packet_head_len) packet_version id err),
              )))
send_proto_to_session-head heap m session id err live = elim (Bool-cases (ltb_ℤ (pos 0) session)) [
  | inr low ↦ inl (no_number heap m session id err low, inl low)
  | inl positive ↦ elim (Option-cases (find session m.session_conn_info)) [
    | inl unknown ↦
        inl (
          by_head heap m session id err positive (head_unsent m session id err unknown),
          inr unknown,
        )
    | inr (p, e) ↦
        let (conn, here) = live p e in
        inr (
          p,
          conn,
          e,
          here,
          by_head heap m session id err positive (head_sent m session id err p conn e here),
        )
  ]
]

-- A message for which `SerializeToArray` reports success is never sent: the result is false, and the
-- tables stay as they were.
pub send_proto_to_session-serialized :
    (heap : Allocator) (m : Manager) (session id err : ℤ) (proto : Message)
    → proto.serialize_to_array.0 ≡ true
    → send_proto_to_session heap session id err (some proto) m ≡ some (false, m)
unfolding send_proto_to_session
send_proto_to_session-serialized heap m session id err proto e = ground (arith, e)
