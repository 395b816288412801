-- ===== src/Client/Beats.antt =====
-- The heart-beats of clientTest/client.cpp at the server.
use oryxgame.Common.{
  ℕ, zero, suc, ◌≡◌, refl, ap, ap₂, ◌∙◌, true, Option, none, some, List, [], ◌∷◌, ◌++◌, map, arith,
  length, replicate,
}
use oryxgame.Common.Int.{ℤ, pos, ltb_ℤ, eqb_ℤ, eqb_ℤ_iff}
use oryxgame.Common.Map.{Map, find}
use oryxgame.Common.Bytes.{Bytes, Allocator}
use oryxgame.Device.{Device}
use oryxgame.Device.Inv.{IsValid}
use oryxgame.Device.Buffers.{pending}
use oryxgame.Frames.Laws.{concat}
use oryxgame.Epoll.Read.{Recv, recv_loop}
use oryxgame.Epoll.Read.Stream.{arrived, stays_open, KeepsLimit}
use oryxgame.Packet.{Packet}
use oryxgame.MessageHandler.{ActionResult, msgid_heart_beat}
use oryxgame.MessageHandler.Delivery.{
  Sent, AreSendable, AreRegistered, sent_bytes, process_tasks, Acted, process_tasks-Acted,
}
use oryxgame.Client.{Sending, send_data, send_bytes, send_proto, beat}

abbrev pub heart_beat : Sent
heart_beat = record { message_id = msgid_heart_beat; err_code = pos 0; content = none }

-- The bytes that were given to `send`, one after another, and whether every call reported success.
abbrev pub stream : List Sending → Bytes
stream [] = []
stream (s ∷ sendings) = elim s.bytes [ none ↦ [] | some bytes ↦ bytes ] ++ stream sendings

abbrev pub AreDone : List Sending → Type 0
AreDone [] = Unit {0}
AreDone (s ∷ sendings) = (s.result ≡ true) × AreDone sendings

module _ (heap : Allocator) (send : Bytes → ℤ) (fd : ℤ) (open_fd : ltb_ℤ (pos 0) fd ≡ true) where
  one_beat : send_proto heap send fd msgid_heart_beat (pos 0) none ≡ record {
    result = eqb_ℤ (send (sent_bytes heap heart_beat)) (pos (length (sent_bytes heap heart_beat)));
    bytes = some (sent_bytes heap heart_beat);
  }
  unfolding send_proto send_bytes send_data
  one_beat = rw (open_fd, send_proto) refl

  stream-beat :
      (rounds : ℕ)
      → stream (beat rounds heap send fd)
        ≡ concat (map (sent_bytes heap) (replicate rounds heart_beat))
  unfolding beat
  stream-beat zero = refl
  stream-beat (suc rounds) =
      ap₂ (λ s rest. elim s.bytes [ none ↦ [] | some bytes ↦ bytes ] ++ rest) one_beat
        (stream-beat rounds)

  beat-AreDone :
      ((bytes : Bytes) → send bytes ≡ pos (length bytes))
      → (rounds : ℕ) → AreDone (beat rounds heap send fd)
  unfolding beat
  beat-AreDone takes_all zero = tt
  beat-AreDone takes_all (suc rounds) = (
    ap (λ s. s.result) one_beat ∙ (eqb_ℤ_iff _ _).1 (takes_all (sent_bytes heap heart_beat)),
    beat-AreDone takes_all rounds,
  )

sendable : (rounds : ℕ) → AreSendable (replicate rounds heart_beat)
sendable zero = tt
sendable (suc rounds) = ((ground arith, ground arith, omega arith), sendable rounds)

module _ {Act S : Type 0} (heap : Allocator)
    (process : Act → Packet → ℤ → S → ActionResult × S) where
  registered :
      (table : Map (Option Act)) (act : Act) (rounds : ℕ)
      → find msgid_heart_beat table ≡ some (some act)
      → AreRegistered heap process table (replicate rounds heart_beat)
  registered table act zero e = tt
  registered table act (suc rounds) e = ((act, e), registered table act rounds e)

  -- Any number of rounds of the test client's loop on an open connection, where `send` takes all that it is
  -- given: each heart-beat is reported as sent. When their bytes reach the server, in whatever chunks, on a
  -- device with nothing pending, where `recv` stores no more than it is asked for, `doRead` succeeds exactly
  -- if the socket stays good and leaves nothing pending, and the logic thread runs the action of the
  -- heart-beat as often, each time with its number and no error.
  pub beat-Acted :
      (rounds : ℕ) (send : Bytes → ℤ) (fd thread : ℤ) (calls : List Recv) (d : Device)
      (table : Map (Option Act)) (act : Act) (s : S)
      → ltb_ℤ (pos 0) fd ≡ true
      → ((bytes : Bytes) → send bytes ≡ pos (length bytes))
      → IsValid d
      → pending d ≡ []
      → KeepsLimit thread calls d
      → find msgid_heart_beat table ≡ some (some act)
      → arrived calls ≡ stream (beat rounds heap send fd)
      → let r = recv_loop thread calls d in
        AreDone (beat rounds heap send fd)
        × (r.result ≡ stays_open calls)
        × (pending r.device ≡ [])
        × Acted heap process d.session_id table
            (replicate rounds heart_beat)
            s
            (process_tasks heap process r.tasks table s).1
  beat-Acted rounds send fd thread calls d table act s open_fd takes_all v empty limit here came =
      let (result, clear, same, rest) =
        process_tasks-Acted heap process thread calls d (replicate rounds heart_beat) table s v
          empty limit (sendable rounds) (registered table act rounds here)
          (came ∙ stream-beat heap send fd open_fd rounds) in
      (beat-AreDone heap send fd open_fd takes_all rounds, result, clear, rest)
