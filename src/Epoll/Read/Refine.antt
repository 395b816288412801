-- ===== src/Epoll/Read/Refine.antt =====
-- The inner loop of `doRead` (oryx/EpollHandler.cpp) and the relation of Frames.
use oryxgame.Common.{
  ℕ, zero, suc, ◌+◌, ◌-◌, ◌≤◌, ◌<◌, ◌≡◌, refl, ap, subst, ◌∙◌, inl, inr, true, false, List, [], ◌∷◌,
  map, arith, ltb, Bool-cases, length, take, drop,
}
use oryxgame.Common.Int.{ℤ, pos, pos_part, ltb_ℤ}
use oryxgame.Common.Bytes.{Bytes, slice, ntohl}
use oryxgame.Common.Slices.{take-take, drop-take, drop-drop}
use oryxgame.Device.{Device}
use oryxgame.Device.Inv.{IsValid}
use oryxgame.Device.Buffers.{pending, length-pending}
use oryxgame.Frames.{Deframes, short, illegal, partial, next, frame_len, is_illegal}
use oryxgame.Epoll.Read.{Reading, read_packets, packet_task}

abbrev advance : Device → ℕ → Device
advance d n = record d { recv_begin = d.recv_begin + n }

frame_len-pending :
    (d : Device)
    → 4 < d.recv_end - d.recv_begin
    → frame_len (pending d) ≡ ntohl (slice d.recv_begin 4 d.recv_buffer)
unfolding pending
frame_len-pending d h = ap ntohl (take-take 4 _ _ (omega arith))

pending-advance : (d : Device) (n : ℕ) → pending (advance d n) ≡ drop n (pending d)
unfolding pending
pending-advance d n =
    rw (drop-take n (d.recv_end - d.recv_begin), drop-drop n d.recv_begin)
      (ap (λ k. take k (drop (d.recv_begin + n) d.recv_buffer)) (omega arith))

take-pending :
    (d : Device) (n : ℕ)
    → n ≤ d.recv_end - d.recv_begin
    → take n (pending d) ≡ slice d.recv_begin n d.recv_buffer
unfolding pending
take-pending d n h = take-take n _ _ h

legal-pos : (n : ℤ) → is_illegal n ≡ false → n ≡ pos (pos_part n)
legal-pos n h = ground arith

-- What one run of the inner loop has done.
pub record Parsed (thread : ℤ) (d : Device) (r : Reading) : Type 0 where
  pub frames : List Bytes
  pub stream : Deframes (pending d) frames r.result (pending r.device)
  pub pushed : r.tasks ≡ map (packet_task thread d.session_id) frames
  pub valid : IsValid r.device
  pub session : r.device.session_id ≡ d.session_id

-- The steps of the inner loop.
few_bytes :
    {d : Device} (thread : ℤ)
    → IsValid d
    → ltb 4 (d.recv_end - d.recv_begin) ≡ false
    → Parsed thread d (record { result = true; device = d; tasks = [] })
few_bytes thread v few = record {
  frames = [];
  stream = short (ground (arith, length-pending v)) refl refl refl;
  pushed = refl;
  valid = v;
  session = refl;
}

abbrev packet_len : Device → ℤ
packet_len d = ntohl (slice d.recv_begin 4 d.recv_buffer)

module _ {d : Device} (thread : ℤ) (v : IsValid d)
    (many : ltb 4 (d.recv_end - d.recv_begin) ≡ true) where
  enough : 4 < length (pending d)
  enough = ground (arith, length-pending v)

  len_eq : frame_len (pending d) ≡ packet_len d
  len_eq = frame_len-pending d (ground arith)

  bad_length :
      is_illegal (packet_len d) ≡ true
      → Parsed thread d (record { result = false; device = d; tasks = [] })
  bad_length bad = record {
    frames = [];
    stream = illegal enough (rw len_eq bad) refl refl refl;
    pushed = refl;
    valid = v;
    session = refl;
  }

  module _ (legal : is_illegal (packet_len d) ≡ false) where
    len_pos : frame_len (pending d) ≡ pos (pos_part (packet_len d))
    len_pos = len_eq ∙ legal-pos (packet_len d) legal

    legal_pos : is_illegal (pos (pos_part (packet_len d))) ≡ false
    legal_pos = subst (λ n. is_illegal n ≡ false) (legal-pos (packet_len d) legal) legal

    part_of_packet :
        ltb_ℤ (pos (d.recv_end - d.recv_begin)) (packet_len d) ≡ true
        → Parsed thread d (record { result = true; device = d; tasks = [] })
    part_of_packet less = record {
      frames = [];
      stream =
          partial (pos_part (packet_len d)) enough len_pos legal_pos
            (ground (arith, length-pending v)) refl refl refl;
      pushed = refl;
      valid = v;
      session = refl;
    }

    whole_packet :
        (rest : Reading)
        → ltb_ℤ (pos (d.recv_end - d.recv_begin)) (packet_len d) ≡ false
        → Parsed thread (advance d (pos_part (packet_len d))) rest
        → Parsed thread d (record {
          result = rest.result;
          device = rest.device;
          tasks =
              packet_task thread d.session_id
                (slice d.recv_begin (pos_part (packet_len d)) d.recv_buffer)
              ∷ rest.tasks;
        })
    whole_packet rest more p = record {
      frames = slice d.recv_begin (pos_part (packet_len d)) d.recv_buffer ∷ p.frames;
      stream =
          next (pos_part (packet_len d)) p.frames enough len_pos legal_pos
            (ground (arith, length-pending v, legal-pos (packet_len d) legal))
            (rw (
              take-pending d (pos_part (packet_len d))
                (ground (arith, legal-pos (packet_len d) legal))))
            (rw (← pending-advance d (pos_part (packet_len d))) p.stream);
      pushed =
          ap
            (◌∷◌ (
              packet_task thread d.session_id
                (slice d.recv_begin (pos_part (packet_len d)) d.recv_buffer)))
            p.pushed;
      valid = p.valid;
      session = p.session;
    }

    advance-IsValid :
        ltb_ℤ (pos (d.recv_end - d.recv_begin)) (packet_len d) ≡ false
        → IsValid (advance d (pos_part (packet_len d)))
    advance-IsValid more = ground (arith, legal-pos (packet_len d) legal)

-- The inner loop of `doRead` on a valid device, with a fuel above the number of bytes pending, takes
-- what is pending apart as the relation `Deframes` does, pushes one task for each packet, in order,
-- and leaves a valid device with the same session.
pub read_packets-Parsed :
    (thread : ℤ) (fuel : ℕ) (d : Device)
    → IsValid d
    → d.recv_end - d.recv_begin < fuel
    → Parsed thread d (read_packets thread fuel d)
unfolding read_packets
read_packets-Parsed thread zero d v h = absurd (omega arith)
read_packets-Parsed thread (suc fuel) d v h =
    elim (Bool-cases (ltb 4 (d.recv_end - d.recv_begin))) [
      | inr few ↦ rw few (few_bytes thread v few)
      | inl many ↦ elim (Bool-cases (is_illegal (packet_len d))) [
        | inl bad ↦ rw (many, bad) (bad_length thread v many bad)
        | inr legal ↦ elim (Bool-cases (ltb_ℤ (pos (d.recv_end - d.recv_begin)) (packet_len d))) [
          | inl less ↦ rw (many, legal, less) (part_of_packet thread v many legal less)
          | inr more ↦
              rw (many, legal, more)
                (whole_packet thread v many legal
                  (read_packets thread fuel (advance d (pos_part (packet_len d)))) more
                  (read_packets-Parsed thread fuel (advance d (pos_part (packet_len d)))
                    (advance-IsValid thread v many legal more)
                    (ground (arith, legal-pos (packet_len d) legal))))
        ]
      ]
    ]
