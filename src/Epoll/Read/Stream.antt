-- ===== src/Epoll/Read/Stream.antt =====
-- One call of `doRead`, over everything that `recv` returns to it.
use mathlib.Core.List.{map-append}
use oryxgame.Common.{
  ℕ, ◌+◌, ◌-◌, ◌≤◌, ◌≡◌, refl, sym, ap, ap₂, subst, ◌==◌, ◌∙◌, ◌⊎◌, inl, inr, Bool, true, false,
  ◌&&◌, List, [], ◌∷◌, ◌++◌, append-nil, append_assoc, map, arith, Bool-cases, length,
  if◌then◌else◌,
}
use oryxgame.Common.Int.{ℤ}
use oryxgame.Common.Bytes.{Bytes, length-overwrite}
use oryxgame.Common.Slices.{take-overwrite}
use oryxgame.Device.{Device, max_recv_buffer_len, clear_recv_buff}
use oryxgame.Device.Inv.{IsValid, clear_recv_buff-IsValid}
use oryxgame.Device.Buffers.{pending, pending-clear_recv_buff}
use oryxgame.Frames.{Deframes}
use oryxgame.Frames.Laws.{
  Deframes-append, Deframes-append_illegal, Deframes-rest, IsWaiting, Deframes-IsWaiting,
}
use oryxgame.Epoll.Read.{
  Recv, received, failed, is_transient, Reading, read_packets, packet_task, store_received,
  recv_loop,
}
use oryxgame.Epoll.Read.Refine.{Parsed, read_packets-Parsed}

-- The bytes that the calls bring before the first that brings none.
abbrev pub arrived : List Recv → Bytes
arrived [] = []
arrived (failed e ∷ calls) = []
arrived (received [] ∷ calls) = []
arrived (received (b ∷ bytes) ∷ calls) = (b ∷ bytes) ++ arrived calls

-- Whether the calls end with a socket that is still good.
abbrev pub stays_open : List Recv → Bool
stays_open [] = true
stays_open (failed e ∷ calls) = is_transient e
stays_open (received [] ∷ calls) = false
stays_open (received (b ∷ bytes) ∷ calls) = stays_open calls

-- Nothing that is pending makes up a whole packet: so `doRead` leaves each device that it keeps.
abbrev pub IsSettled : Device → Type 0
IsSettled d = Deframes (pending d) [] true (pending d)

abbrev parsed : ℤ → Device → Bytes → Reading
parsed thread d bytes =
    let got = store_received (clear_recv_buff d) bytes in read_packets thread (got.recv_end + 1) got

-- `recv` stores no more bytes than it is asked for.
abbrev pub KeepsLimit : ℤ → List Recv → Device → Type 0
KeepsLimit thread [] d = Unit {0}
KeepsLimit thread (failed e ∷ calls) d = Unit {0}
KeepsLimit thread (received bytes ∷ calls) d =
    (length bytes ≤ max_recv_buffer_len - (clear_recv_buff d).recv_end)
    × KeepsLimit thread calls (parsed thread d bytes).device

store_received-IsValid :
    {c : Device} (bytes : Bytes)
    → IsValid c
    → length bytes ≤ max_recv_buffer_len - c.recv_end
    → IsValid (store_received c bytes)
unfolding store_received
store_received-IsValid {c} bytes v h =
    ground (arith, length-overwrite c.recv_buffer c.recv_end bytes)

pending-store_received :
    {c : Device} (bytes : Bytes)
    → IsValid c
    → c.recv_begin ≡ 0
    → length bytes ≤ max_recv_buffer_len - c.recv_end
    → pending (store_received c bytes) ≡ pending c ++ bytes
unfolding store_received pending
pending-store_received {c} bytes v z h =
    ground (arith, take-overwrite c.recv_buffer c.recv_end bytes)

pub record Streamed (thread : ℤ) (calls : List Recv) (d : Device) (r : Reading) : Type 0 where
  pub frames : List Bytes
  pub legal : Bool
  pub unread : Bytes
  pub stream : Deframes (pending d ++ arrived calls) frames legal (pending r.device ++ unread)
  pub pushed : r.tasks ≡ map (packet_task thread d.session_id) frames
  pub outcome : r.result ≡ (legal && stays_open calls)
  pub all_read : (if legal then unread else []) ≡ []
  pub waits : (legal ≡ false) ⊎ IsWaiting (pending r.device)
  pub valid : IsValid r.device
  pub session : r.device.session_id ≡ d.session_id

session-clear_recv_buff : (d : Device) → (clear_recv_buff d).session_id ≡ d.session_id
unfolding clear_recv_buff
session-clear_recv_buff d = ground arith

-- The call brings nothing.
no_bytes :
    {d : Device} (thread : ℤ) (calls : List Recv) (still : Bool)
    → IsValid d
    → IsSettled d
    → arrived calls ≡ []
    → stays_open calls ≡ still
    → Streamed thread calls d (record { result = still; device = clear_recv_buff d; tasks = [] })
no_bytes {d} thread calls still v s a o = record {
  frames = [];
  legal = true;
  unread = [];
  stream =
      rw
        (
          a,
          append-nil (pending d),
          append-nil (pending (clear_recv_buff d)),
          pending-clear_recv_buff v,
        )
        s;
  pushed = refl;
  outcome = sym o;
  all_read = refl;
  waits = inr (subst IsWaiting (sym (pending-clear_recv_buff v)) (Deframes-IsWaiting s refl));
  valid = (clear_recv_buff-IsValid v).0;
  session = session-clear_recv_buff d;
}

-- What the first chunk does to the device.
record Chunk (thread : ℤ) (d : Device) (bytes : Bytes) (r : Reading) : Type 0 where
  frames : List Bytes
  stream : Deframes (pending d ++ bytes) frames r.result (pending r.device)
  pushed : r.tasks ≡ map (packet_task thread d.session_id) frames
  valid : IsValid r.device
  session : r.device.session_id ≡ d.session_id

parsed-Chunk :
    {d : Device} (thread : ℤ) (bytes : Bytes)
    → IsValid d
    → length bytes ≤ max_recv_buffer_len - (clear_recv_buff d).recv_end
    → Chunk thread d bytes (parsed thread d bytes)
unfolding store_received
parsed-Chunk {d} thread bytes v within = record {
  frames = p.frames;
  stream = subst (λ whole. Deframes whole p.frames r.result (pending r.device)) start p.stream;
  pushed = p.pushed ∙ ap (λ session. map (packet_task thread session) p.frames) same;
  valid = p.valid;
  session = p.session ∙ same;
}
  where
    c : Device
    c = clear_recv_buff d

    r : Reading
    r = parsed thread d bytes

    cleared : IsValid c × (c.recv_begin ≡ 0)
    cleared = clear_recv_buff-IsValid v

    p : Parsed thread (store_received c bytes) r
    p = read_packets-Parsed thread _ _ (store_received-IsValid bytes cleared.0 within) (omega arith)

    start : pending (store_received c bytes) ≡ pending d ++ bytes
    start =
        pending-store_received bytes cleared.0 cleared.1 within
        ∙ ap (λ front. front ++ bytes) (pending-clear_recv_buff v)

    same : (store_received c bytes).session_id ≡ d.session_id
    same = session-clear_recv_buff d

-- The chunk ends the call: what the later calls would bring stays unread.
stops :
    {d : Device} (thread : ℤ) (b : ℕ) (bytes : Bytes) (calls : List Recv) (r : Reading)
    → Chunk thread d (b ∷ bytes) r
    → r.result ≡ false
    → Streamed thread (received (b ∷ bytes) ∷ calls) d (record r { result = false })
stops {d} thread b bytes calls r c e = record {
  frames = c.frames;
  legal = false;
  unread = arrived calls;
  stream =
      subst (λ whole. Deframes whole c.frames false (pending r.device ++ arrived calls))
        (append_assoc (pending d) (b ∷ bytes) (arrived calls))
        (Deframes-append_illegal (arrived calls)
          (subst (λ ok. Deframes (pending d ++ (b ∷ bytes)) c.frames ok (pending r.device)) e
            c.stream)
          refl);
  pushed = c.pushed;
  outcome = refl;
  all_read = refl;
  waits = inl refl;
  valid = c.valid;
  session = c.session;
}

-- The call goes on with the device that the chunk left.
goes_on :
    {d : Device} (thread : ℤ) (b : ℕ) (bytes : Bytes) (calls : List Recv) (r rest : Reading)
    → Chunk thread d (b ∷ bytes) r
    → r.result ≡ true
    → Streamed thread calls r.device rest
    → Streamed thread
        (received (b ∷ bytes) ∷ calls)
        d
        (record rest { tasks = r.tasks ++ rest.tasks })
goes_on {d} thread b bytes calls r rest c e more = record {
  frames = c.frames ++ more.frames;
  legal = more.legal;
  unread = more.unread;
  stream =
      subst
        (λ whole.
          Deframes whole (c.frames ++ more.frames) more.legal (pending rest.device ++ more.unread))
        (append_assoc (pending d) (b ∷ bytes) (arrived calls))
        (Deframes-append (arrived calls) c.stream e more.stream);
  pushed =
      ap₂ ◌++◌ c.pushed
        (more.pushed ∙ ap (λ session. map (packet_task thread session) more.frames) c.session)
      ∙ sym (map-append (packet_task thread d.session_id) c.frames more.frames);
  outcome = more.outcome;
  all_read = more.all_read;
  waits = more.waits;
  valid = more.valid;
  session = more.session ∙ c.session;
}

-- `doRead` on a valid device on which no whole packet is pending, where `recv` stores no more than it
-- is asked for. From the front of what was pending and of what `recv` brought it takes off one packet after
-- another, as long as more than four bytes are there, the length that they begin with is legal, and that many
-- bytes are there; it hands on exactly these packets, in order. Unless it met an illegal length, what stays
-- pending is at most four bytes, so also a last packet of exactly four, or fewer bytes than their legal
-- length. It fails exactly when a packet's length is illegal, the peer has closed, or `recv` failed for good.
-- Only an illegal length leaves bytes unread. The device stays valid and keeps its session.
pub recv_loop-Streamed :
    (thread : ℤ) (calls : List Recv) (d : Device)
    → IsValid d
    → IsSettled d
    → KeepsLimit thread calls d
    → Streamed thread calls d (recv_loop thread calls d)
unfolding recv_loop
recv_loop-Streamed thread [] d v s k = no_bytes thread [] true v s refl refl
recv_loop-Streamed thread (failed e ∷ calls) d v s k =
    no_bytes thread (failed e ∷ calls) (is_transient e) v s refl refl
recv_loop-Streamed thread (received [] ∷ calls) d v s k =
    no_bytes thread (received [] ∷ calls) false v s refl refl
recv_loop-Streamed thread (received (b ∷ bytes) ∷ calls) d v s k =
    let chunk = parsed-Chunk thread (b ∷ bytes) v k.0 in
    let some_bytes : (length (b ∷ bytes) == 0) ≡ false = ground arith in
    elim (Bool-cases (parsed thread d (b ∷ bytes)).result) [
      | inl more ↦
          rw (some_bytes, more)
            (goes_on thread b bytes calls (parsed thread d (b ∷ bytes))
              (recv_loop thread calls (parsed thread d (b ∷ bytes)).device) chunk more
              (recv_loop-Streamed thread calls (parsed thread d (b ∷ bytes)).device chunk.valid
                (Deframes-rest chunk.stream more) k.1))
      | inr stop ↦
          rw (some_bytes, stop)
            (stops thread b bytes calls (parsed thread d (b ∷ bytes)) chunk stop)
    ]
