-- ===== src/Epoll/Write/Flow.antt =====
-- What `doWrite` (oryx/EpollHandler.cpp) gives to the socket.
use oryxgame.Common.{
  ℕ, ◌+◌, ◌-◌, ◌≤◌, ◌≡◌, refl, sym, ap, ap₂, ◌==◌, ◌∙◌, inl, inr, Bool, true, false, List, [], ◌∷◌,
  ◌++◌, append_assoc, arith, leb, Bool-cases, take, drop, take-append-drop, length, length-append,
  if◌then◌else◌,
}
use oryxgame.Common.Bytes.{slice}
use oryxgame.Common.Slices.{take-take, drop-take, drop-drop}
use oryxgame.Device.{Device, clear_send_buff}
use oryxgame.Device.Inv.{IsValid, clear_send_buff-IsValid}
use oryxgame.Device.Buffers.{outgoing, outgoing-clear_send_buff, length-outgoing}
use oryxgame.Frames.Laws.{concat}
use oryxgame.Epoll.Read.{is_transient}
use oryxgame.Epoll.Write.{Send, accepted, refused, Writing, send_loop, write_device}

abbrev gone : Device → ℕ → Device
gone d n = record (clear_send_buff d) { send_begin = (clear_send_buff d).send_begin + n }

-- `send` takes no more bytes than it is given.
abbrev pub KeepsLimit : List Send → Device → Type 0
KeepsLimit [] d = Unit {0}
KeepsLimit (refused e ∷ calls) d = Unit {0}
KeepsLimit (accepted n ∷ calls) d =
    (n ≤ (clear_send_buff d).send_end - (clear_send_buff d).send_begin)
    × KeepsLimit calls (gone d n)

-- How many of so many queued bytes these answers of `send` take: they are asked while bytes are left, up to
-- the first that takes none.
abbrev pub amount_taken : List Send → ℕ → ℕ
amount_taken [] queued = 0
amount_taken (refused e ∷ calls) queued = 0
amount_taken (accepted n ∷ calls) queued =
    let later = amount_taken calls (queued - n) in
    if queued == 0 then 0 else (if n == 0 then 0 else n + later)

-- Whether the last answer that is asked for lets the connection go on: an error may only say that the call
-- is to be made again, and a count is not 0.
abbrev pub ends_well : List Send → ℕ → Bool
ends_well [] queued = true
ends_well (refused e ∷ calls) queued = if queued == 0 then true else is_transient e
ends_well (accepted n ∷ calls) queued =
    let later = ends_well calls (queued - n) in
    if queued == 0 then true else (if n == 0 then false else later)

-- What was sent and what is left of the bytes that were queued, and the result.
pub record Sent (calls : List Send) (d : Device) (w : Writing) : Type 0 where
  pub flow : concat w.sent ++ outgoing w.device ≡ outgoing d
  pub amount : length (concat w.sent) ≡ amount_taken calls (length (outgoing d))
  pub outcome : w.result ≡ ends_well calls (length (outgoing d))
  pub valid : IsValid w.device
  pub session : w.device.session_id ≡ d.session_id

nothing_sent :
    {d : Device} (calls : List Send) (result : Bool)
    → IsValid d
    → amount_taken calls (length (outgoing d)) ≡ 0
    → ends_well calls (length (outgoing d)) ≡ result
    → Sent calls d (record { result = result; device = clear_send_buff d; sent = [] })
unfolding clear_send_buff
nothing_sent {d} calls result v none_taken ends = record {
  flow = outgoing-clear_send_buff v;
  amount = sym none_taken;
  outcome = sym ends;
  valid = (clear_send_buff-IsValid v).0;
  session = ground arith;
}

outgoing-gone :
    (c : Device) (n : ℕ)
    → n ≤ c.send_end - c.send_begin
    → slice c.send_begin n c.send_buffer ++ outgoing (record c { send_begin = c.send_begin + n })
      ≡ outgoing c
unfolding outgoing
outgoing-gone c n h =
    ap (λ front. front ++ slice (c.send_begin + n) (c.send_end - (c.send_begin + n)) c.send_buffer)
      (sym (take-take n (c.send_end - c.send_begin) (drop c.send_begin c.send_buffer) h))
    ∙ ap (λ rest. take n (outgoing c) ++ rest) later
    ∙ take-append-drop n (outgoing c)
  where
    later :
        slice (c.send_begin + n) (c.send_end - (c.send_begin + n)) c.send_buffer
        ≡ drop n (outgoing c)
    later =
        rw (drop-take n (c.send_end - c.send_begin), drop-drop n c.send_begin)
          (ap (λ k. take k (drop (c.send_begin + n) c.send_buffer)) (omega arith))

length-outgoing_clear :
    {d : Device}
    → IsValid d
    → length (outgoing d) ≡ (clear_send_buff d).send_end - (clear_send_buff d).send_begin
length-outgoing_clear v =
    ap length (sym (outgoing-clear_send_buff v)) ∙ length-outgoing (clear_send_buff-IsValid v).0

gone-IsValid :
    {d : Device} (n : ℕ)
    → IsValid d
    → n ≤ (clear_send_buff d).send_end - (clear_send_buff d).send_begin
    → IsValid (gone d n)
gone-IsValid {d} n v h = ground (arith, clear_send_buff-IsValid v)

length-gone :
    {d : Device} (n : ℕ)
    → IsValid d
    → n ≤ (clear_send_buff d).send_end - (clear_send_buff d).send_begin
    → length (outgoing (gone d n)) ≡ length (outgoing d) - n
length-gone n v h = omega (arith, length-outgoing (gone-IsValid n v h), length-outgoing_clear v)

some_sent :
    {d : Device} (n : ℕ) (calls : List Send) (rest : Writing)
    → IsValid d
    → n ≤ (clear_send_buff d).send_end - (clear_send_buff d).send_begin
    → (length (outgoing d) == 0) ≡ false
    → (n == 0) ≡ false
    → Sent calls (gone d n) rest
    → Sent (accepted n ∷ calls) d (record rest {
      sent = slice (clear_send_buff d).send_begin n (clear_send_buff d).send_buffer ∷ rest.sent;
    })
unfolding clear_send_buff
some_sent {d} n calls rest v h busy progress s = record {
  flow =
      append_assoc (slice (clear_send_buff d).send_begin n (clear_send_buff d).send_buffer)
        (concat rest.sent) (outgoing rest.device)
      ∙ ap
          (λ later. slice (clear_send_buff d).send_begin n (clear_send_buff d).send_buffer ++ later)
          s.flow
      ∙ outgoing-gone (clear_send_buff d) n h
      ∙ outgoing-clear_send_buff v;
  amount =
      let split : slice (clear_send_buff d).send_begin n (clear_send_buff d).send_buffer
            ++ outgoing (gone d n)
          ≡ outgoing d =
        outgoing-gone (clear_send_buff d) n h ∙ outgoing-clear_send_buff v in
      let now : length (slice (clear_send_buff d).send_begin n (clear_send_buff d).send_buffer)
          ≡ n =
        omega (
          arith,
          ap length split,
          length-append (slice (clear_send_buff d).send_begin n (clear_send_buff d).send_buffer)
              (outgoing (gone d n)),
          length-gone n v h,
          length-outgoing_clear v,
        ) in
      length-append (slice (clear_send_buff d).send_begin n (clear_send_buff d).send_buffer)
        (concat rest.sent)
      ∙ ap₂ ◌+◌ now (s.amount ∙ ap (amount_taken calls) (length-gone n v h))
      ∙ rw (busy, progress) refl;
  outcome = s.outcome ∙ ap (ends_well calls) (length-gone n v h) ∙ rw (busy, progress) refl;
  valid = s.valid;
  session = ground (arith, s.session);
}

is_empty :
    {d : Device} (b : Bool)
    → IsValid d
    → leb (clear_send_buff d).send_end (clear_send_buff d).send_begin ≡ b
    → (length (outgoing d) == 0) ≡ b
is_empty true v e = ground (arith, e, length-outgoing_clear v)
is_empty false v e = ground (arith, e, length-outgoing_clear v)

nothing_taken : (calls : List Send) → (amount_taken calls 0 ≡ 0) × (ends_well calls 0 ≡ true)
nothing_taken [] = (refl, refl)
nothing_taken (refused e ∷ calls) = (refl, refl)
nothing_taken (accepted n ∷ calls) = (refl, refl)

all_sent :
    (calls : List Send) (n : ℕ)
    → (n == 0) ≡ true
    → (amount_taken calls n ≡ 0) × (ends_well calls n ≡ true)
all_sent calls n e = let none_left : n ≡ 0 = ground (arith, e) in rw none_left (nothing_taken calls)

send_loop-Sent :
    (calls : List Send) (d : Device)
    → IsValid d
    → KeepsLimit calls d
    → Sent calls d (send_loop calls d)
unfolding send_loop
send_loop-Sent [] d v k = nothing_sent [] true v refl refl
send_loop-Sent (refused e ∷ calls) d v k =
    elim (Bool-cases (leb (clear_send_buff d).send_end (clear_send_buff d).send_begin)) [
      | inl empty ↦
          let (none_taken, well) = all_sent (refused e ∷ calls) _ (is_empty {d = d} true v empty) in
          rw empty (nothing_sent (refused e ∷ calls) true v none_taken well)
      | inr more ↦ rw more (
          nothing_sent (refused e ∷ calls) (is_transient e) v refl
            (rw (is_empty {d = d} false v more) refl))
    ]
send_loop-Sent (accepted n ∷ calls) d v k =
    elim (Bool-cases (leb (clear_send_buff d).send_end (clear_send_buff d).send_begin)) [
      | inl empty ↦
          let (none_taken, well) =
            all_sent (accepted n ∷ calls) _ (is_empty {d = d} true v empty) in
          rw empty (nothing_sent (accepted n ∷ calls) true v none_taken well)
      | inr more ↦
          let busy = is_empty {d = d} false v more in
          elim (Bool-cases (n == 0)) [
            | inl none_sent ↦
                rw (more, none_sent)
                  (nothing_sent (accepted n ∷ calls) false v (rw (busy, none_sent) refl)
                    (rw (busy, none_sent) refl))
            | inr progress ↦
                rw (more, progress)
                  (some_sent n calls (send_loop calls (gone d n)) v k.0 busy progress
                    (send_loop-Sent calls (gone d n) (gone-IsValid n v k.0) k.1))
          ]
    ]

-- `doWrite` on a valid device, where `send` takes no more than it is given: what was sent is as many bytes
-- from the front of the queued ones as the answers of `send` take, what is left is all the others, and the
-- result is true unless an answer that was asked for is 0 or a lasting error. The device stays valid and
-- keeps its session.
pub write_device-Sent :
    (calls : List Send) (d : Device)
    → IsValid d
    → KeepsLimit calls d
    → Sent calls d (write_device calls d)
unfolding write_device
write_device-Sent calls d v k = elim (Bool-cases (leb d.send_end d.send_begin)) [
  | inl empty ↦
      let none_queued : (length (outgoing d) == 0) ≡ true =
        ground (arith, empty, length-outgoing v) in
      let (none_taken, well) = all_sent calls _ none_queued in
      rw empty (record {
        flow = refl;
        amount = sym none_taken;
        outcome = sym well;
        valid = v;
        session = refl;
      })
  | inr more ↦ rw more (send_loop-Sent calls d v k)
]
