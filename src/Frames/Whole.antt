-- ===== src/Frames/Whole.antt =====
-- Streams of packets of every legal length (oryx/EpollHandler.cpp), also of those that consist of their
-- length only.
use oryxgame.Common.{
  ◌+◌, ◌≤◌, ◌≡◌, refl, ◌∙◌, inl, inr, true, List, [], ◌∷◌, ◌++◌, append-nil, arith, length,
  length-append, ltb, if◌then◌else◌, Bool-cases,
}
use oryxgame.Common.Int.{pos}
use oryxgame.Common.Bytes.{Bytes}
use oryxgame.Common.Slices.{take-append_self, drop-append_self}
use oryxgame.Device.{max_recv_buffer_len}
use oryxgame.Frames.{frame_len, Deframes, short, next}
use oryxgame.Frames.Laws.{concat, frame_len-append}

-- The length field is right, and the length is one that `doRead` accepts.
abbrev pub IsLegal : Bytes → Type 0
IsLegal bytes =
    (4 ≤ length bytes)
    × (length bytes ≤ max_recv_buffer_len)
    × (frame_len bytes ≡ pos (length bytes))

abbrev pub AreLegal : List Bytes → Type 0
AreLegal [] = Unit {0}
AreLegal (bytes ∷ frames) = IsLegal bytes × AreLegal frames

-- The packets that are taken off: all, but for a last one of four bytes.
abbrev pub delivered : List Bytes → List Bytes
delivered [] = []
delivered (bytes ∷ []) = if ltb 4 (length bytes) then bytes ∷ [] else []
delivered (bytes ∷ more ∷ frames) = bytes ∷ delivered (more ∷ frames)

-- What waits: a last packet of four bytes.
abbrev pub held : List Bytes → Bytes
held [] = []
held (bytes ∷ []) = if ltb 4 (length bytes) then [] else bytes
held (bytes ∷ more ∷ frames) = held (more ∷ frames)

first_off :
    (bytes more : Bytes) (later : List Bytes) (rest : Bytes)
    → IsLegal bytes
    → 4 + 1 ≤ length bytes + length more
    → Deframes more later true rest
    → Deframes (bytes ++ more) (bytes ∷ later) true rest
first_off bytes more later rest (l, u, e) long d =
    next (length bytes) later (omega (arith, long, length-append bytes more))
      (frame_len-append bytes more l ∙ e) (ground arith) (omega (arith, length-append bytes more))
      (rw (take-append_self bytes more)) (rw (drop-append_self bytes more) d)

pub Deframes-delivered :
    (frames : List Bytes)
    → AreLegal frames
    → Deframes (concat frames) (delivered frames) true (held frames)
Deframes-delivered [] h = short (omega arith) refl refl refl
Deframes-delivered (bytes ∷ []) (h, hs) = elim (Bool-cases (ltb 4 (length bytes))) [
  | inl long ↦
      rw long
        (first_off bytes [] [] [] h (ground (arith, long)) (short (omega arith) refl refl refl))
  | inr exact ↦ rw (exact, append-nil bytes) (short (ground (arith, exact)) refl refl refl)
]
Deframes-delivered (bytes ∷ more ∷ frames) (h, hs) =
    first_off bytes (concat (more ∷ frames)) (delivered (more ∷ frames)) (held (more ∷ frames)) h
      (omega (arith, h.0, hs.0.0, length-append more (concat frames)))
      (Deframes-delivered (more ∷ frames) hs)
