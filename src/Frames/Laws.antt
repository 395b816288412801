-- ===== src/Frames/Laws.antt =====
-- The relation of Frames on streams that come in pieces.
use oryxgame.Common.{
  ℕ, ◌≤◌, ◌<◌, ◌≡◌, refl, sym, ap, subst, ◌∙◌, ◌⊎◌, inl, inr, Bool, true, false, List, [], ◌∷◌,
  ◌++◌, arith, length, drop, length-append,
}
use oryxgame.Common.Int.{ℤ, pos, pos_part}
use oryxgame.Common.Bytes.{Bytes, ntohl}
use oryxgame.Common.Slices.{take-append_le, drop-append_le, take-append_self, drop-append_self}
use oryxgame.Device.{max_recv_buffer_len}
use oryxgame.Frames.{frame_len, is_illegal, Deframes, short, illegal, partial, next}

pub frame_len-append :
    (bytes more : Bytes) → 4 ≤ length bytes → frame_len (bytes ++ more) ≡ frame_len bytes
frame_len-append bytes more h = ap ntohl (take-append_le 4 bytes more (omega arith))

clash : {n : ℕ} {len : ℤ} → len ≡ pos n → is_illegal len ≡ true → is_illegal (pos n) ≡ false → ⊥
clash l i i' = ground arith

pos-injective : {m n : ℕ} → pos m ≡ pos n → m ≡ n
pos-injective e = ap pos_part e

-- Bytes that come later continue where the earlier ones left off.
pub Deframes-append :
    {bytes mid : Bytes} {frames : List Bytes} {ok' : Bool} (more : Bytes) {later : List Bytes}
    {ok : Bool} {rest : Bytes}
    → Deframes bytes frames ok' mid
    → ok' ≡ true
    → Deframes (mid ++ more) later ok rest
    → Deframes (bytes ++ more) (frames ++ later) ok rest
Deframes-append more (short h f o r) e d = rw (f, ← r) d
Deframes-append more (illegal h i f o r) e d = absurd (cc)
Deframes-append more (partial n h l i p f o r) e d = rw (f, ← r) d
Deframes-append {bytes} more {later} {ok} {rest} (next n first h l i p f s) e d =
    next n (first ++ later) (omega (arith, length-append bytes more))
      (frame_len-append bytes more (omega (arith, h)) ∙ l) i
      (omega (arith, length-append bytes more)) (rw (f, take-append_le n bytes more p))
      (rw (drop-append_le n bytes more p) (Deframes-append more s e d))

-- A stream that was given up stays given up, whatever follows.
pub Deframes-append_illegal :
    {bytes rest : Bytes} {frames : List Bytes} {ok : Bool} (more : Bytes)
    → Deframes bytes frames ok rest
    → ok ≡ false
    → Deframes (bytes ++ more) frames ok (rest ++ more)
Deframes-append_illegal more (short h f o r) e = absurd (cc)
Deframes-append_illegal {bytes} more (illegal h i f o r) e =
    illegal (omega (arith, length-append bytes more))
      (rw (frame_len-append bytes more (omega (arith, h))) i) f o (ap (λ front. front ++ more) r)
Deframes-append_illegal more (partial n h l i p f o r) e = absurd (cc)
Deframes-append_illegal {bytes} more (next n first h l i p f s) e =
    next n first (omega (arith, length-append bytes more))
      (frame_len-append bytes more (omega (arith, h)) ∙ l) i
      (omega (arith, length-append bytes more)) (rw (take-append_le n bytes more p) f)
      (rw (drop-append_le n bytes more p) (Deframes-append_illegal more s e))

-- What is left of a stream that goes on is shorter than the longest frame.
pub Deframes-length_rest :
    {bytes rest : Bytes} {frames : List Bytes} {ok : Bool}
    → Deframes bytes frames ok rest
    → ok ≡ true
    → length rest < max_recv_buffer_len
Deframes-length_rest (short h f o r) e = rw r (omega arith)
Deframes-length_rest (illegal h i f o r) e = absurd (cc)
Deframes-length_rest (partial n h l i p f o r) e = rw r (ground arith)
Deframes-length_rest (next n first h l i p f s) e = Deframes-length_rest s e

-- A stream is taken apart in one way only.
pub Deframes-deterministic :
    {bytes rest rest' : Bytes} {fs gs : List Bytes} {ok ok' : Bool}
    → Deframes bytes fs ok rest
    → Deframes bytes gs ok' rest'
    → (fs ≡ gs) × (ok ≡ ok') × (rest ≡ rest')
Deframes-deterministic (short h f o r) (short h' f' o' r') = (cc, cc, cc)
Deframes-deterministic (short h f o r) (illegal h' i' f' o' r') = absurd (omega arith)
Deframes-deterministic (short h f o r) (partial n' h' l' i' p' f' o' r') = absurd (omega arith)
Deframes-deterministic (short h f o r) (next n' later' h' l' i' p' f' s') = absurd (omega arith)
Deframes-deterministic (illegal h i f o r) (short h' f' o' r') = absurd (omega arith)
Deframes-deterministic (illegal h i f o r) (illegal h' i' f' o' r') = (cc, cc, cc)
Deframes-deterministic (illegal h i f o r) (partial n' h' l' i' p' f' o' r') =
    absurd (clash l' i i')
Deframes-deterministic (illegal h i f o r) (next n' later' h' l' i' p' f' s') =
    absurd (clash l' i i')
Deframes-deterministic (partial n h l i p f o r) (short h' f' o' r') = absurd (omega arith)
Deframes-deterministic (partial n h l i p f o r) (illegal h' i' f' o' r') = absurd (clash l i' i)
Deframes-deterministic (partial n h l i p f o r) (partial n' h' l' i' p' f' o' r') = (cc, cc, cc)
Deframes-deterministic (partial n h l i p f o r) (next n' later' h' l' i' p' f' s') =
    absurd (omega (arith, pos-injective (sym l ∙ l')))
Deframes-deterministic (next n later h l i p f s) (short h' f' o' r') = absurd (omega arith)
Deframes-deterministic (next n later h l i p f s) (illegal h' i' f' o' r') = absurd (clash l i' i)
Deframes-deterministic (next n later h l i p f s) (partial n' h' l' i' p' f' o' r') =
    absurd (omega (arith, pos-injective (sym l ∙ l')))
Deframes-deterministic {bytes} {rest' = rest'} {ok' = ok'} (next n later h l i p f s)
      (next n' later' h' l' i' p' f' s') =
    let m : n ≡ n' = pos-injective (sym l ∙ l') in
    let (fs_eq, ok_eq, rest_eq) =
      Deframes-deterministic s (subst (λ k. Deframes (drop k bytes) later' ok' rest') (sym m) s') in
    (rw (f, f', m, fs_eq), ok_eq, rest_eq)

-- One packet as it goes over the wire: longer than its length field, and its length field is right.
abbrev pub IsFrame : Bytes → Type 0
IsFrame bytes =
    (4 < length bytes)
    × (length bytes ≤ max_recv_buffer_len)
    × (frame_len bytes ≡ pos (length bytes))

abbrev pub AreFrames : List Bytes → Type 0
AreFrames [] = Unit {0}
AreFrames (bytes ∷ frames) = IsFrame bytes × AreFrames frames

abbrev pub concat : List Bytes → Bytes
concat [] = []
concat (bytes ∷ frames) = bytes ++ concat frames

-- Packets sent one after another are taken apart into the same packets, with nothing left.
pub Deframes-concat :
    (frames : List Bytes) → AreFrames frames → Deframes (concat frames) frames true []
Deframes-concat [] h = short (omega arith) refl refl refl
Deframes-concat (bytes ∷ frames) ((l, u, e), hs) =
    next (length bytes) frames (omega (arith, length-append bytes (concat frames)))
      (frame_len-append bytes (concat frames) (omega (arith, l)) ∙ e) (ground arith)
      (omega (arith, length-append bytes (concat frames)))
      (rw (take-append_self bytes (concat frames)))
      (rw (drop-append_self bytes (concat frames)) (Deframes-concat frames hs))

-- What a stream leaves behind holds no whole frame.
pub Deframes-rest :
    {bytes rest : Bytes} {frames : List Bytes} {ok : Bool}
    → Deframes bytes frames ok rest
    → ok ≡ true
    → Deframes rest [] true rest
Deframes-rest (short h f o r) e = rw r (short h refl refl refl)
Deframes-rest (illegal h i f o r) e = absurd (cc)
Deframes-rest (partial n h l i p f o r) e = rw r (partial n h l i p refl refl refl)
Deframes-rest (next n later h l i p f s) e = Deframes-rest s e

-- Nothing is taken off the front of these bytes: there are no more than four, or fewer than their length says.
abbrev pub IsWaiting : Bytes → Type 0
IsWaiting bytes =
    (length bytes ≤ 4)
    ⊎ ((n : ℕ) × (frame_len bytes ≡ pos n) × (is_illegal (pos n) ≡ false) × (length bytes < n))

pub Deframes-IsWaiting :
    {bytes rest : Bytes} {frames : List Bytes} {ok : Bool}
    → Deframes bytes frames ok rest
    → ok ≡ true
    → IsWaiting rest
Deframes-IsWaiting (short h f o r) e = rw r (inl h)
Deframes-IsWaiting (illegal h i f o r) e = absurd (cc)
Deframes-IsWaiting (partial n h l i p f o r) e = rw r (inr (n, l, i, p))
Deframes-IsWaiting (next n later h l i p f s) e = Deframes-IsWaiting s e
