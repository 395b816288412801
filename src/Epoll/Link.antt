-- ===== src/Epoll/Link.antt =====
-- The two ends of a connection: what one thread writes (oryx/DeviceInfo.h) and `doWrite` sends, `doRead` of
-- another thread takes apart (oryx/EpollHandler.cpp).
pub mod Misread
use oryxgame.Common.{
  ℕ, ◌+◌, ◌≤◌, ◌<◌, ◌≡◌, refl, sym, ap, ap₂, subst, ◌∙◌, inl, inr, Bool, true, false, some, List,
  [], ◌∷◌, ◌++◌, append-nil, append_assoc, map, arith, length, length-append, ltb, leb,
  if◌then◌else◌, Bool-cases,
}
use oryxgame.Common.Int.{ℤ, pos, IsInt32}
use oryxgame.Common.Bytes.{Bytes, htonl, ntohl, ntohl-htonl, length-htonl}
use oryxgame.Device.{Device, max_recv_buffer_len, max_send_buffer_len, write}
use oryxgame.Device.Inv.{IsValid, write-IsValid}
use oryxgame.Device.Buffers.{pending, outgoing, frame, fits, outgoing-write}
use oryxgame.Frames.Laws.{IsFrame, AreFrames, concat}
use oryxgame.Epoll.Read.{Recv, recv_loop, packet_task}
use oryxgame.Epoll.Read.Stream.{arrived, stays_open, KeepsLimit}
use oryxgame.Epoll.Read.Settled.{recv_loop-frames}
use oryxgame.Epoll.Write.{Send, write_device}
use oryxgame.Epoll.Write.Flow.{Sent, write_device-Sent}
use oryxgame.Epoll.Write.Flow

-- What the sending thread does with a device: it queues data, or it sends.
pub data Op : Type 0 where
  queues : Bytes → Op
  sends : List Send → Op

-- The device at the end, what was sent, and the data that was queued.
pub record Carried : Type 0 where
  pub device : Device
  pub sent : List Bytes
  pub queued : List Bytes

unfoldable pub run : List Op → Device → Carried
run [] d = record { device = d; sent = []; queued = [] }
run (queues bytes ∷ ops) d =
    let rest = run ops (write d (some bytes)).1 in
    if ltb 0 (write d (some bytes)).0 then record rest { queued = bytes ∷ rest.queued } else rest
run (sends calls ∷ ops) d =
    let w = write_device calls d in
    let rest = run ops w.device in record rest { sent = w.sent ++ rest.sent }

-- The data is not empty, and `send` takes no more than it is given.
abbrev pub Allowed : List Op → Device → Type 0
Allowed [] d = Unit {0}
Allowed (queues bytes ∷ ops) d = (0 < length bytes) × Allowed ops (write d (some bytes)).1
Allowed (sends calls ∷ ops) d = Flow.KeepsLimit calls d × Allowed ops (write_device calls d).device

concat-append : (xs ys : List Bytes) → concat (xs ++ ys) ≡ concat xs ++ concat ys
concat-append [] ys = refl
concat-append (x ∷ xs) ys =
    ap (λ rest. x ++ rest) (concat-append xs ys) ∙ sym (append_assoc x (concat xs) (concat ys))

frame-IsFrame :
    (bytes : Bytes)
    → 0 < length bytes
    → length bytes + 4 ≤ max_recv_buffer_len
    → IsFrame (frame bytes)
unfolding frame htonl
frame-IsFrame bytes some_bytes short = (
  omega (arith, some_bytes),
  omega (arith, short),
  ntohl-htonl (pos (length bytes + 4)) [] (omega (arith, short))
      ∙ ap pos (
          let whole : length bytes + 4 ≡ length (htonl (pos (length bytes + 4)) ++ bytes) =
            omega arith in
          whole),
)

-- What is sent, and then what is still queued at the end.
pub record Flows (ops : List Op) (d : Device) (c : Carried) : Type 0 where
  pub flow : concat c.sent ++ outgoing c.device ≡ outgoing d ++ concat (map frame c.queued)
  pub valid : IsValid c.device
  pub frames : AreFrames (map frame c.queued)

queued_well :
    (bytes : Bytes) (ops : List Op) (d : Device)
    → fits d bytes ≡ true
    → IsValid d
    → 0 < length bytes
    → Flows ops (write d (some bytes)).1 (run ops (write d (some bytes)).1)
    → Flows (queues bytes ∷ ops) d (run (queues bytes ∷ ops) d)
unfolding run
queued_well bytes ops d room v some_bytes f =
    let d' = (write d (some bytes)).1 in
    let rest = run ops d' in
    let (n, out) = outgoing-write {d = d} bytes v some_bytes in
    let taken : ltb 0 (write d (some bytes)).0 ≡ true = ground (arith, n, room, some_bytes) in
    let grown : outgoing d' ≡ outgoing d ++ frame bytes = out ∙ rw room refl in
    let short : length bytes + 4 ≤ max_recv_buffer_len = ground (arith, room) in
    rw taken (record {
      flow =
          f.flow
          ∙ ap (λ front. front ++ concat (map frame rest.queued)) grown
          ∙ append_assoc (outgoing d) (frame bytes) (concat (map frame rest.queued));
      valid = f.valid;
      frames = (frame-IsFrame bytes some_bytes short, f.frames);
    })

queued_badly :
    (bytes : Bytes) (ops : List Op) (d : Device)
    → fits d bytes ≡ false
    → IsValid d
    → 0 < length bytes
    → Flows ops (write d (some bytes)).1 (run ops (write d (some bytes)).1)
    → Flows (queues bytes ∷ ops) d (run (queues bytes ∷ ops) d)
unfolding run
queued_badly bytes ops d full v some_bytes f =
    let d' = (write d (some bytes)).1 in
    let rest = run ops d' in
    let (n, out) = outgoing-write {d = d} bytes v some_bytes in
    let refused : ltb 0 (write d (some bytes)).0 ≡ false = ground (arith, n, full) in
    let same : outgoing d' ≡ outgoing d = out ∙ rw full refl in
    rw refused (record {
      flow = f.flow ∙ ap (λ front. front ++ concat (map frame rest.queued)) same;
      valid = f.valid;
      frames = f.frames;
    })

run-Flows : (ops : List Op) (d : Device) → IsValid d → Allowed ops d → Flows ops d (run ops d)
unfolding run
run-Flows [] d v a = record { flow = sym (append-nil (outgoing d)); valid = v; frames = tt }
run-Flows (queues bytes ∷ ops) d v (some_bytes, a) =
    let f = run-Flows ops (write d (some bytes)).1 (write-IsValid {d = d} (some bytes) v) a in
    elim (Bool-cases (fits d bytes)) [
      | inl room ↦ queued_well bytes ops d room v some_bytes f
      | inr full ↦ queued_badly bytes ops d full v some_bytes f
    ]
run-Flows (sends calls ∷ ops) d v (k, a) =
    let w = write_device calls d in
    let s = write_device-Sent calls d v k in
    let rest = run ops w.device in
    let f = run-Flows ops w.device s.valid a in
    record {
      flow =
          ap (λ front. front ++ outgoing rest.device) (concat-append w.sent rest.sent)
          ∙ append_assoc (concat w.sent) (concat rest.sent) (outgoing rest.device)
          ∙ ap (λ later. concat w.sent ++ later) f.flow
          ∙ sym (append_assoc (concat w.sent) (outgoing w.device) (concat (map frame rest.queued)))
          ∙ ap (λ front. front ++ concat (map frame rest.queued)) s.flow;
      valid = f.valid;
      frames = f.frames;
    }

-- A thread queues data and sends on a device with nothing left to send, in any order, where `send` takes no
-- more than it is given and the data is never empty; at the end nothing is left to send. Another thread
-- receives these bytes on a device with nothing pending, in whatever chunks, where `recv` stores no more
-- than it is asked for. Then it hands on exactly what `write` accepted, in order and each with the length
-- that `write` puts in front, as one packet each; its reading succeeds exactly if the socket stays good.
pub recv_loop-run :
    (ops : List Op) (from to : Device) (thread : ℤ) (calls : List Recv)
    → IsValid from
    → outgoing from ≡ []
    → Allowed ops from
    → outgoing (run ops from).device ≡ []
    → IsValid to
    → pending to ≡ []
    → KeepsLimit thread calls to
    → arrived calls ≡ concat (run ops from).sent
    → ((recv_loop thread calls to).tasks
        ≡ map (packet_task thread to.session_id) (map frame (run ops from).queued))
      × ((recv_loop thread calls to).result ≡ stays_open calls)
      × (pending (recv_loop thread calls to).device ≡ [])
recv_loop-run ops from to thread calls v clear a empty v' clear' k came =
    let f = run-Flows ops from v a in
    let all : concat (run ops from).sent ≡ concat (map frame (run ops from).queued) =
      sym (append-nil (concat (run ops from).sent))
      ∙ ap (λ rest. concat (run ops from).sent ++ rest) (sym empty)
      ∙ f.flow
      ∙ ap (λ front. front ++ concat (map frame (run ops from).queued)) clear in
    recv_loop-frames thread calls to (map frame (run ops from).queued) v' clear' k f.frames
      (came ∙ all)
