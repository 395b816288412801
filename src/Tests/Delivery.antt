-- ===== src/Tests/Delivery.antt =====
-- Two messages on their way over a connection (oryx/packet.cpp, oryx/EpollHandler.cpp,
-- oryx/MessageHandler.cpp), and heart-beats of the test client (clientTest/client.cpp).
use oryxgame.Common.{
  ℕ, ◌+◌, ◌<◌, ◌≡◌, refl, Option, none, some, List, [], ◌∷◌, map, arith, length, length-append,
  append-nil, sym, ◌∙◌,
}
use oryxgame.Common.Int.{ℤ, pos}
use oryxgame.Common.Map.{Map, find}
use oryxgame.Common.Bytes.{Bytes}
use oryxgame.Device.{clear_recv_buff}
use oryxgame.Device.Buffers.{pending}
use oryxgame.Frames.Laws.{concat}
use oryxgame.Epoll.Read.{Recv, received, failed, eagain, recv_loop}
use oryxgame.Epoll.Read.Stream.{KeepsLimit, arrived, stays_open}
use oryxgame.Packet.{Packet, new_packet_with}
use oryxgame.Packet.Wire.{wire}
use oryxgame.Packet.Framing.{length-wire}
use oryxgame.MessageHandler.{
  ActionResult, result_success, msgid_heart_beat, init_test_action, process_message,
}
use oryxgame.MessageHandler.Answering.{only, answer, Answered, process_message-test_action}
use oryxgame.Tests.Sessions.{tables, tables-IsValid}
use oryxgame.MessageHandler.Delivery.{Sent, sent_bytes, process_tasks, Acted, process_tasks-Acted}
use oryxgame.Client.{beat, send_proto, send_bytes}
use oryxgame.Client.Beats.{heart_beat, stream, AreDone, beat-Acted}
use oryxgame.Tests.Link.{device, device-IsValid, nothing_pending, memory}

-- The action counts; its number is what it adds.
abbrev count_up : ℕ → Packet → ℤ → ℕ → ActionResult × ℕ
count_up act packet session s = (result_success, s + act)

abbrev table : Map (Option ℕ)
table = (pos 101, some 5) ∷ (pos 0, some 1) ∷ []

abbrev messages : List Sent
messages =
    record { message_id = pos 101; err_code = pos 0; content = some (8 ∷ 1 ∷ []) }
    ∷ record { message_id = pos 0; err_code = pos 3; content = none }
    ∷ []

abbrev bytes : Bytes
bytes = concat (map (sent_bytes memory) messages)

abbrev calls : List Recv
calls = received bytes ∷ failed eagain ∷ []

arrived_once :
    (bytes : Bytes) → 0 < length bytes → arrived (received bytes ∷ failed eagain ∷ []) ≡ bytes
arrived_once [] h = absurd (omega (arith, h))
arrived_once (c ∷ bytes) h = append-nil (c ∷ bytes)

short : length bytes ≡ 30
short = simp length-append (
    omega (
      arith,
      length-wire memory (pos 101) (pos 0) (some (8 ∷ 1 ∷ [])),
      length-wire memory (pos 0) (pos 3) none,
    ))

within : KeepsLimit (pos 1) calls device
unfolding clear_recv_buff
within = (omega (arith, short), tt)

process_tasks-Acted_example :
    let r = recv_loop (pos 1) calls device in
    let done = process_tasks memory count_up r.tasks table 7 in
    (r.result ≡ stays_open calls)
    × (pending r.device ≡ [])
    × (done.0 ≡ table)
    × Acted memory count_up (pos 42) table messages 7 done.1
unfolding find
process_tasks-Acted_example =
    process_tasks-Acted memory count_up (pos 1) calls device messages table 7 device-IsValid
      nothing_pending within
      (
        ((omega arith, omega arith), (omega arith, omega arith), omega arith),
        (((omega arith, omega arith), (omega arith, omega arith), omega arith), tt),
      )
      ((5, refl), ((1, refl), tt)) (arrived_once bytes (omega (arith, short)))

beats : stream (beat 1 memory (λ bytes. pos (length bytes)) (pos 4)) ≡ sent_bytes memory heart_beat
unfolding beat send_proto send_bytes
beats = append-nil (sent_bytes memory heart_beat)

abbrev one_beat : List Recv
one_beat = received (sent_bytes memory heart_beat) ∷ failed eagain ∷ []

within_one : KeepsLimit (pos 1) one_beat device
unfolding clear_recv_buff
within_one = (omega (arith, length-wire memory (pos 0) (pos 0) none), tt)

beat-Acted_example :
    let r = recv_loop (pos 1) one_beat device in
    AreDone (beat 1 memory (λ bytes. pos (length bytes)) (pos 4))
    × (r.result ≡ stays_open one_beat)
    × (pending r.device ≡ [])
    × Acted memory count_up
        (pos 42)
        table
        (heart_beat ∷ [])
        7
        (process_tasks memory count_up r.tasks table 7).1
unfolding find
beat-Acted_example =
    beat-Acted memory count_up 1 (λ bytes. pos (length bytes)) (pos 4) (pos 1) one_beat device table
      1 7 refl (λ bytes. refl) device-IsValid nothing_pending within_one refl
      (arrived_once (sent_bytes memory heart_beat)
          (omega (arith, length-wire memory (pos 0) (pos 0) none))
        ∙ sym beats)

-- A heart-beat of a client whose session, number 43, was removed before it came.
process_message-test_action_example :
    let r =
      process_message memory answer
        (some (record {
          thrd_id = pos 1;
          session_id = pos 43;
          packet = some (wire memory (new_packet_with memory msgid_heart_beat (pos 0) none));
        }))
        (init_test_action only [])
        (some (tables (pos 0))) in
    Answered (tables (pos 0)) (pos 43) r
    × (r.state ≡ some (tables (pos 0)))
    × (r.kept ≡ none)
    × (r.table ≡ init_test_action only [])
process_message-test_action_example =
    process_message-test_action (tables (pos 0)) tables-IsValid memory (pos 0) none (pos 1) (pos 43)
      [] (omega arith) (omega arith)
