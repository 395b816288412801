-- ===== src/Packet/Reading.antt =====
-- The constructor of oryx/packet.cpp that reads a packet from bytes.
use oryxgame.Common.{ℕ, ◌+◌, ◌-◌, ◌≤◌, ◌≡◌, refl, true, ap, ◌∙◌, arith, leb, length, take, drop}
use oryxgame.Common.Int.{pos}
use oryxgame.Common.Bytes.{Bytes, Allocator, overwrite, length-overwrite, ntohl, slice}
use oryxgame.Common.Slices.{take-overwrite, drop-take, take-take}
use oryxgame.Packet.{
  Packet, packet_head_len, needed, check_len, load_bytes, read_int32, packet_of_bytes, init,
}
use oryxgame.Packet.Buffer.{IsValid, Reserved, reserve-Reserved}
use oryxgame.Packet.Append.{init-Made}

slice-take : (at k n : ℕ) (xs : Bytes) → at + k ≤ n → slice at k (take n xs) ≡ slice at k xs
slice-take at k n xs h =
    ap (take k) (drop-take at n xs) ∙ take-take k (n - at) (drop at xs) (omega arith)

-- What a packet that was read holds.
pub record Loaded (bytes : Bytes) (r : Packet) : Type 0 where
  pub valid : IsValid r
  pub now : r.data_now_len ≡ length bytes
  pub content : take (length bytes) r.bytes ≡ bytes
  pub message_len : r.message_len ≡ ntohl (slice 0 4 bytes)
  pub version : r.version ≡ ntohl (slice 4 4 bytes)
  pub operate_code : r.operate_code ≡ ntohl (slice 6 4 bytes)
  pub error_code : r.error_code ≡ ntohl (slice 10 4 bytes)

read_int32-loaded :
    (r : Packet) (bytes : Bytes) (at : ℕ)
    → at + 4 ≤ length bytes
    → r.data_now_len ≡ length bytes
    → take (length bytes) r.bytes ≡ bytes
    → read_int32 r at ≡ ntohl (slice at 4 bytes)
unfolding read_int32
read_int32-loaded r bytes at h n c =
    ground (arith, slice-take at 4 (length bytes) r.bytes, ap (slice at 4) c)

module _ (heap : Allocator) where
  load_bytes-Loaded :
      (p : Packet) (bytes : Bytes)
      → IsValid p
      → packet_head_len ≤ length bytes
      → Loaded bytes (load_bytes heap p bytes)
  unfolding load_bytes check_len
  load_bytes-Loaded p bytes v h = record {
    valid = record { size = length-overwrite q.bytes 0 bytes ∙ c.valid.size; used = fits };
    now = refl;
    content = content;
    message_len = read_int32-loaded r bytes 0 (omega arith) refl content;
    version = read_int32-loaded r bytes 4 (omega arith) refl content;
    operate_code = read_int32-loaded r bytes 6 (omega arith) refl content;
    error_code = read_int32-loaded r bytes 10 (omega arith) refl content;
  }
    where
      q : Packet
      q = check_len heap p (pos (length bytes))

      c : Reserved p (needed (pos (length bytes))) q
      c = reserve-Reserved heap (needed (pos (length bytes))) v

      r : Packet
      r = record q { bytes = overwrite q.bytes 0 bytes; data_now_len = length bytes }

      fits : length bytes ≤ q.data_max_len
      fits = ground (arith, c.enough)

      from_start : length bytes ≡ 0 + length bytes
      from_start = omega arith

      content : take (length bytes) (overwrite q.bytes 0 bytes) ≡ bytes
      content =
          ap (λ n. take n (overwrite q.bytes 0 bytes)) from_start
          ∙ take-overwrite q.bytes 0 bytes (omega (arith, fits, c.valid.size))

  -- A packet made from at least 14 bytes has the four fields that stand at their offsets and holds all
  -- of the bytes.
  pub packet_of_bytes-Loaded :
      (bytes : Bytes) → packet_head_len ≤ length bytes → Loaded bytes (packet_of_bytes heap bytes)
  unfolding packet_of_bytes
  packet_of_bytes-Loaded bytes h =
      let long : leb packet_head_len (length bytes) ≡ true = ground arith in
      rw long (load_bytes-Loaded (init heap) bytes (init-Made heap).valid h)
