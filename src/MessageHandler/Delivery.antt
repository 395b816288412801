-- ===== src/MessageHandler/Delivery.antt =====
-- Messages on their whole way: built as oryx/packet.cpp does, sent one after another over a connection,
-- taken apart by `EpollHandler::doRead` (oryx/EpollHandler.cpp) and run by oryx/MessageHandler.cpp.
use oryxgame.Common.{
  ◌+◌, ◌≤◌, ◌<◌, ltb, length, true, ◌≡◌, refl, sym, ap, subst, ◌∙◌, Option, some, List, [], ◌∷◌,
  map, arith,
}
use oryxgame.Common.Int.{ℤ, IsInt32}
use oryxgame.Common.Map.{Map, find}
use oryxgame.Common.Bytes.{Bytes, Allocator}
use oryxgame.Device.{Device, max_recv_buffer_len}
use oryxgame.Device.Inv.{IsValid}
use oryxgame.Device.Buffers.{pending}
use oryxgame.Task.{
  Task, task_client_conn, task_listener, task_client_conn_insert, task_client_conn_delete,
  task_client_conn_packet, task_send_packet, task_client_conn_on_close, new_client_conn_packet,
  init_client_packet,
}
use oryxgame.Frames.Laws.{AreFrames, concat}
use oryxgame.Epoll.Read.{Recv, recv_loop, packet_task}
use oryxgame.Epoll.Read.Stream.{arrived, stays_open, KeepsLimit}
use oryxgame.Epoll.Read.Settled.{recv_loop-frames}
use oryxgame.Packet.{Packet, packet_head_len, new_packet_with}
use oryxgame.Packet.Wire.{payload_len, wire}
use oryxgame.Packet.Framing.{wire-IsFrame}
use oryxgame.MessageHandler.{ActionResult, run_action, process_message}
use oryxgame.MessageHandler.Dispatch.{process_message-run_action}

-- A message that is sent: its number, its error code and its data.
pub record Sent : Type 0 where
  pub message_id : ℤ
  pub err_code : ℤ
  pub content : Option Bytes

-- The numbers are of 32 bits, and the packet is not longer than the receiver's buffer.
abbrev pub AreSendable : List Sent → Type 0
AreSendable [] = Unit {0}
AreSendable (m ∷ messages) =
    (IsInt32 m.message_id
      × IsInt32 m.err_code
      × (packet_head_len + payload_len m.content ≤ max_recv_buffer_len))
    × AreSendable messages

module _ (heap : Allocator) where
  abbrev pub sent_bytes : Sent → Bytes
  sent_bytes m = wire heap (new_packet_with heap m.message_id m.err_code m.content)

  frames : (messages : List Sent) → AreSendable messages → AreFrames (map sent_bytes messages)
  frames [] h = tt
  frames (m ∷ messages) ((id, err, short), h) =
      (wire-IsFrame heap m.message_id m.err_code m.content id err short, frames messages h)

packet_task_lem :
    (thread session : ℤ) (bytes : Bytes)
    → 4 < length bytes
    → packet_task thread session bytes
      ≡ task_client_conn_packet
          (record { thrd_id = thread; session_id = session; packet = some bytes })
unfolding packet_task new_client_conn_packet init_client_packet
packet_task_lem thread session bytes long =
    let some_bytes : ltb 0 (length bytes) ≡ true = ground (arith, long) in rw some_bytes refl

module _ {Act S : Type 0} (heap : Allocator)
    (process : Act → Packet → ℤ → S → ActionResult × S) where
  -- `on_thread_call` of the tasks of received packets, one after another: the result of `processMessage` is
  -- not looked at.
  unfoldable pub process_tasks : List Task → Map (Option Act) → S → Map (Option Act) × S
  process_tasks [] table s = (table, s)
  process_tasks (task_client_conn_packet t ∷ tasks) table s =
      let r = process_message heap process (some t) table s in process_tasks tasks r.table r.state
  process_tasks (task_client_conn t ∷ tasks) table s = process_tasks tasks table s
  process_tasks (task_listener t ∷ tasks) table s = process_tasks tasks table s
  process_tasks (task_client_conn_insert t ∷ tasks) table s = process_tasks tasks table s
  process_tasks (task_client_conn_delete t ∷ tasks) table s = process_tasks tasks table s
  process_tasks (task_send_packet t ∷ tasks) table s = process_tasks tasks table s
  process_tasks (task_client_conn_on_close t ∷ tasks) table s = process_tasks tasks table s

  -- The actions of these messages run one after another, each with a packet of its message's number and
  -- error code, and lead from the one state to the other.
  pub data Acted (session : ℤ) (table : Map (Option Act)) : List Sent → S → S → Type 0 where
    nothing : (s : S) → Acted session table [] s s
    acts :
        {m : Sent} {messages : List Sent} {s s' : S} (act : Act) (p : Packet)
        → find m.message_id table ≡ some (some act)
        → p.operate_code ≡ m.message_id
        → p.error_code ≡ m.err_code
        → Acted session table messages (process act p session s).1 s'
        → Acted session table (m ∷ messages) s s'

  -- Every message has an action.
  abbrev pub AreRegistered : Map (Option Act) → List Sent → Type 0
  AreRegistered table [] = Unit {0}
  AreRegistered table (m ∷ messages) =
      ((act : Act) × (find m.message_id table ≡ some (some act))) × AreRegistered table messages

  acted :
      (thread session : ℤ) (table : Map (Option Act)) (messages : List Sent) (s : S)
      → AreSendable messages
      → AreRegistered table messages
      → let done =
          process_tasks
            (map (packet_task thread session) (map (sent_bytes heap) messages))
            table
            s in
        (done.0 ≡ table) × Acted session table messages s done.1
  unfolding process_tasks run_action
  acted thread session table [] s h r = (refl, nothing s)
  acted thread session table (m ∷ messages) s ((id, err, short), h) ((act, here), r) =
      let (p, ran, code, error) =
        process_message-run_action heap process m.message_id m.err_code m.content thread session
          table s act id err (omega (arith, short)) here in
      let (same, rest) = acted thread session table messages (process act p session s).1 h r in
      let later = map (packet_task thread session) (map (sent_bytes heap) messages) in
      let whole = wire-IsFrame heap m.message_id m.err_code m.content id err short in
      subst
        (λ t.
          ((process_tasks (t ∷ later) table s).0 ≡ table)
          × Acted session table (m ∷ messages) s (process_tasks (t ∷ later) table s).1)
        (sym (packet_task_lem thread session (sent_bytes heap m) whole.0))
        (subst
          (λ x.
            ((process_tasks later x.table x.state).0 ≡ table)
            × Acted session table (m ∷ messages) s (process_tasks later x.table x.state).1)
          (sym ran) (same, acts act p here code error rest))

  -- Messages of 32-bit numbers, no longer than the receiver's buffer, each with a registered action, are
  -- built, sent one after another and received on a device with nothing pending, in whatever chunks `recv`
  -- brings them, where it stores no more than it is asked for. Then `doRead` succeeds exactly if the socket
  -- stays good and leaves nothing pending, and the logic thread, given the tasks that it pushed, runs for
  -- each message, in the order of sending, its action once with the message's number and error code.
  pub process_tasks-Acted :
      (thread : ℤ) (calls : List Recv) (d : Device) (messages : List Sent)
      (table : Map (Option Act)) (s : S)
      → IsValid d
      → pending d ≡ []
      → KeepsLimit thread calls d
      → AreSendable messages
      → AreRegistered table messages
      → arrived calls ≡ concat (map (sent_bytes heap) messages)
      → let r = recv_loop thread calls d in
        let done = process_tasks r.tasks table s in
        (r.result ≡ stays_open calls)
        × (pending r.device ≡ [])
        × (done.0 ≡ table)
        × Acted d.session_id table messages s done.1
  process_tasks-Acted thread calls d messages table s v empty limit sendable registered came =
      let (tasks, result, clear) =
        recv_loop-frames thread calls d (map (sent_bytes heap) messages) v empty limit
          (frames heap messages sendable) came in
      let (same, rest) = acted thread d.session_id table messages s sendable registered in
      (
        result,
        clear,
        ap (λ tasks. (process_tasks tasks table s).0) tasks ∙ same,
        subst (λ tasks. Acted d.session_id table messages s (process_tasks tasks table s).1)
            (sym tasks) rest,
      )
