-- ===== src/Epoll/Read/Settled.antt =====
-- What follows for `doRead` from the stream that it takes apart: calls on end, and whole packets.
use oryxgame.Common.{
  ◌-◌, ◌<◌, ◌≡◌, refl, sym, ap, ap₂, subst, ◌∙◌, true, ◌&&◌, List, [], ◌++◌, append-nil, map, arith,
  length,
}
use oryxgame.Common.Int.{ℤ}
use oryxgame.Common.Bytes.{Bytes}
use oryxgame.Device.{Device, max_recv_buffer_len, clear_recv_buff}
use oryxgame.Device.Inv.{IsValid, clear_recv_buff-IsValid}
use oryxgame.Device.Buffers.{pending, length-pending, pending-clear_recv_buff}
use oryxgame.Frames.{Deframes, short}
use oryxgame.Frames.Laws.{Deframes-rest, Deframes-deterministic, Deframes-length_rest}
use oryxgame.Epoll.Read.{Recv, Reading, packet_task, recv_loop}
use oryxgame.Frames.Laws.{AreFrames, concat, Deframes-concat}
use oryxgame.Frames.Whole.{AreLegal, delivered, held, Deframes-delivered}
use oryxgame.Epoll.Read.Stream.{
  arrived, stays_open, IsSettled, KeepsLimit, Streamed, recv_loop-Streamed,
}

-- If `doRead` on a valid device on which no whole packet is pending returns true, where `recv` stores
-- no more than it is asked for, it leaves a valid device on which no whole packet is pending.
pub recv_loop-IsSettled :
    (thread : ℤ) (calls : List Recv) (d : Device)
    → IsValid d
    → IsSettled d
    → KeepsLimit thread calls d
    → (recv_loop thread calls d).result ≡ true
    → IsValid (recv_loop thread calls d).device × IsSettled (recv_loop thread calls d).device
recv_loop-IsSettled thread calls d v s k e = (p.valid, settled)
  where
    r : Reading
    r = recv_loop thread calls d

    p : Streamed thread calls d r
    p = recv_loop-Streamed thread calls d v s k

    legal : p.legal ≡ true
    legal = ground (arith, p.outcome)

    all_read : p.unread ≡ []
    all_read = ground (arith, p.all_read, legal)

    settled : IsSettled r.device
    settled =
        subst (λ rest. Deframes rest [] true rest)
          (ap (λ more. pending r.device ++ more) all_read ∙ append-nil (pending r.device))
          (Deframes-rest p.stream legal)

-- On a valid device on which no whole packet is pending, `doRead` asks `recv` for at least one byte.
pub room-clear_recv_buff :
    {d : Device} → IsValid d → IsSettled d → 0 < max_recv_buffer_len - (clear_recv_buff d).recv_end
room-clear_recv_buff {d} v s = omega (
  arith,
  Deframes-length_rest s refl,
  clear_recv_buff-IsValid v,
  length-pending (clear_recv_buff-IsValid v).0,
  ap length (pending-clear_recv_buff v),
)

-- Two sequences of calls of `recv` that bring the same bytes in different chunks and leave the socket
-- in the same state, each storing no more than it is asked for, make `doRead` on a valid device on
-- which no whole packet is pending push the same tasks and return the same result.
pub recv_loop-chunks :
    (thread : ℤ) (calls calls' : List Recv) (d : Device)
    → IsValid d
    → IsSettled d
    → KeepsLimit thread calls d
    → KeepsLimit thread calls' d
    → arrived calls ≡ arrived calls'
    → stays_open calls ≡ stays_open calls'
    → ((recv_loop thread calls d).tasks ≡ (recv_loop thread calls' d).tasks)
      × ((recv_loop thread calls d).result ≡ (recv_loop thread calls' d).result)
recv_loop-chunks thread calls calls' d v s k k' a o = (
  p.pushed ∙ ap (map (packet_task thread d.session_id)) same.0 ∙ sym p'.pushed,
  p.outcome ∙ ap₂ ◌&&◌ same.1 o ∙ sym p'.outcome,
)
  where
    p : Streamed thread calls d (recv_loop thread calls d)
    p = recv_loop-Streamed thread calls d v s k

    p' : Streamed thread calls' d (recv_loop thread calls' d)
    p' = recv_loop-Streamed thread calls' d v s k'

    same :
        (p.frames ≡ p'.frames)
        × (p.legal ≡ p'.legal)
        × (pending (recv_loop thread calls d).device ++ p.unread
            ≡ pending (recv_loop thread calls' d).device ++ p'.unread)
    same = Deframes-deterministic p.stream (
        subst
          (λ more.
            Deframes (pending d ++ more) p'.frames p'.legal
              (pending (recv_loop thread calls' d).device ++ p'.unread))
          (sym a) p'.stream)

-- A stream that is taken apart into these frames with this rest, received on a valid device with nothing
-- pending.
recv_loop-Deframes :
    (thread : ℤ) (calls : List Recv) (d : Device) (frames : List Bytes) (rest : Bytes)
    → IsValid d
    → pending d ≡ []
    → KeepsLimit thread calls d
    → Deframes (arrived calls) frames true rest
    → ((recv_loop thread calls d).tasks ≡ map (packet_task thread d.session_id) frames)
      × ((recv_loop thread calls d).result ≡ stays_open calls)
      × (pending (recv_loop thread calls d).device ≡ rest)
recv_loop-Deframes thread calls d frames rest v z k apart = (
  p.pushed ∙ ap (map (packet_task thread d.session_id)) same.0,
  p.outcome ∙ ap (λ legal. legal && stays_open calls) same.1,
  sym (append-nil (pending (recv_loop thread calls d).device))
      ∙ ap (λ more. pending (recv_loop thread calls d).device ++ more) (sym all_read)
      ∙ same.2,
)
  where
    settled : IsSettled d
    settled = rw z (short (omega arith) refl refl refl)

    p : Streamed thread calls d (recv_loop thread calls d)
    p = recv_loop-Streamed thread calls d v settled k

    same :
        (p.frames ≡ frames)
        × (p.legal ≡ true)
        × (pending (recv_loop thread calls d).device ++ p.unread ≡ rest)
    same =
        Deframes-deterministic
          (subst
            (λ bytes.
              Deframes bytes p.frames p.legal
                (pending (recv_loop thread calls d).device ++ p.unread))
            (ap (λ front. front ++ arrived calls) z) p.stream)
          apart

    all_read : p.unread ≡ []
    all_read = ground (arith, p.all_read, same.1)

-- Packets of more than four bytes.
pub recv_loop-frames :
    (thread : ℤ) (calls : List Recv) (d : Device) (frames : List Bytes)
    → IsValid d
    → pending d ≡ []
    → KeepsLimit thread calls d
    → AreFrames frames
    → arrived calls ≡ concat frames
    → ((recv_loop thread calls d).tasks ≡ map (packet_task thread d.session_id) frames)
      × ((recv_loop thread calls d).result ≡ stays_open calls)
      × (pending (recv_loop thread calls d).device ≡ [])
recv_loop-frames thread calls d frames v z k whole a =
    recv_loop-Deframes thread calls d frames [] v z k
      (subst (λ bytes. Deframes bytes frames true []) (sym a) (Deframes-concat frames whole))

-- Packets of legal lengths, from 4 bytes on, sent one after another to a valid device with nothing
-- pending, are handed on one by one as they were sent, however `recv` cuts them into chunks, where it
-- stores no more than it is asked for; but if the last one has exactly four bytes, it is not handed on and
-- stays pending. Nothing else is pending afterwards, and the reading succeeds exactly if the socket stays
-- good.
pub recv_loop-concat :
    (thread : ℤ) (calls : List Recv) (d : Device) (frames : List Bytes)
    → IsValid d
    → pending d ≡ []
    → KeepsLimit thread calls d
    → AreLegal frames
    → arrived calls ≡ concat frames
    → ((recv_loop thread calls d).tasks ≡ map (packet_task thread d.session_id) (delivered frames))
      × ((recv_loop thread calls d).result ≡ stays_open calls)
      × (pending (recv_loop thread calls d).device ≡ held frames)
recv_loop-concat thread calls d frames v z k legal a =
    recv_loop-Deframes thread calls d (delivered frames) (held frames) v z k (
      subst (λ bytes. Deframes bytes (delivered frames) true (held frames)) (sym a)
        (Deframes-delivered frames legal))
