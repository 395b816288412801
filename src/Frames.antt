-- ===== src/Frames.antt =====
-- The packet stream that `EpollHandler::doRead` (oryx/EpollHandler.cpp) takes apart: every packet
-- begins with its own length, in network order, these four bytes counted. A packet is taken off only when
-- more than four bytes are there, so that one of exactly four bytes waits for a later byte.
pub mod Laws
pub mod Whole
use oryxgame.Common.{
  ℕ, ◌≤◌, ◌<◌, ◌≡◌, Bool, true, false, ◌||◌, List, [], ◌∷◌, ◌++◌, length, take, drop,
}
use oryxgame.Common.Int.{ℤ, pos, ltb_ℤ}
use oryxgame.Common.Bytes.{Bytes, ntohl}
use oryxgame.Device.{max_recv_buffer_len}

abbrev pub frame_len : Bytes → ℤ
frame_len bytes = ntohl (take 4 bytes)

-- The lengths at which the connection is given up.
abbrev pub is_illegal : ℤ → Bool
is_illegal n = ltb_ℤ (pos max_recv_buffer_len) n || ltb_ℤ n (pos 4)

-- `Deframes bytes frames ok rest`: from the front of `bytes` come these frames; then either what is
-- left is no whole frame yet (`ok`), or its length is illegal.
pub data Deframes : Bytes → List Bytes → Bool → Bytes → Type 0 where
  short :
      {bytes rest : Bytes} {frames : List Bytes} {ok : Bool}
      → length bytes ≤ 4
      → frames ≡ []
      → ok ≡ true
      → rest ≡ bytes
      → Deframes bytes frames ok rest
  illegal :
      {bytes rest : Bytes} {frames : List Bytes} {ok : Bool}
      → 4 < length bytes
      → is_illegal (frame_len bytes) ≡ true
      → frames ≡ []
      → ok ≡ false
      → rest ≡ bytes
      → Deframes bytes frames ok rest
  partial :
      {bytes rest : Bytes} {frames : List Bytes} {ok : Bool} (n : ℕ)
      → 4 < length bytes
      → frame_len bytes ≡ pos n
      → is_illegal (pos n) ≡ false
      → length bytes < n
      → frames ≡ []
      → ok ≡ true
      → rest ≡ bytes
      → Deframes bytes frames ok rest
  next :
      {bytes rest : Bytes} {frames : List Bytes} {ok : Bool} (n : ℕ) (later : List Bytes)
      → 4 < length bytes
      → frame_len bytes ≡ pos n
      → is_illegal (pos n) ≡ false
      → n ≤ length bytes
      → frames ≡ take n bytes ∷ later
      → Deframes (drop n bytes) later ok rest
      → Deframes bytes frames ok rest
