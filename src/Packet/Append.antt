-- ===== src/Packet/Append.antt =====
-- The constructors and `Append` of oryx/packet.cpp.
use oryxgame.Common.{◌+◌, ◌≤◌, ◌<◌, ◌≡◌, refl, ap, ◌∙◌, some, ◌++◌, arith, length, take, drop}
use oryxgame.Common.Int.{ℤ, pos, ◌+ℤ◌}
use oryxgame.Common.Bytes.{Bytes, Allocator, overwrite, length-overwrite}
use oryxgame.Common.Slices.{take-overwrite}
use oryxgame.Packet.{
  packet_version, Packet, packet_head_len, needed, check_len, write_data, write_head, append, init,
  packet_of_codes,
}
use oryxgame.Packet.Buffer.{IsValid, Reserved, reserve-Reserved}
use oryxgame.Packet.Head.{head, HeadWritten, write_head-HeadWritten}

-- What `Append` of `bytes` to `p` leaves.
pub record Appended (p : Packet) (bytes : Bytes) (q : Packet) : Type 0 where
  pub valid : IsValid q
  pub now : q.data_now_len ≡ p.data_now_len + length bytes
  pub message_len : q.message_len ≡ p.message_len +ℤ pos (length bytes)
  pub front :
      take packet_head_len q.bytes ≡ head q.message_len p.version p.operate_code p.error_code
  pub content :
      drop packet_head_len (take q.data_now_len q.bytes)
      ≡ drop packet_head_len (take p.data_now_len p.bytes ++ bytes)
  pub room : needed q.message_len ≤ q.data_max_len
  pub version : q.version ≡ p.version
  pub operate_code : q.operate_code ≡ p.operate_code
  pub error_code : q.error_code ≡ p.error_code

module _ (heap : Allocator) where
  abbrev reserved : Packet → Bytes → Packet
  reserved p bytes = check_len heap p (pos (length bytes + p.data_now_len))

  write_data-at_end :
      (p : Packet) (bytes : Bytes)
      → 0 < length bytes
      → write_data heap p (some bytes) (pos p.data_now_len) ≡ record (reserved p bytes) {
        bytes = overwrite (reserved p bytes).bytes p.data_now_len bytes;
      }
  unfolding write_data
  write_data-at_end p bytes h = ground arith

  -- The packet on which `Append` calls `WriteHead`.
  abbrev extended : Packet → Bytes → Packet
  extended p bytes =
      let r = reserved p bytes in
      record r {
        bytes = overwrite r.bytes p.data_now_len bytes;
        data_now_len = r.data_now_len + length bytes;
        message_len = r.message_len +ℤ pos (length bytes);
      }

  append-extended :
      (p : Packet) (bytes : Bytes)
      → 0 < length bytes
      → append heap p (some bytes) ≡ write_head heap (extended p bytes)
  unfolding append
  append-extended p bytes h = rw (write_data-at_end p bytes h) (ground arith)

  -- `Append` of some bytes to a consistent packet puts them behind the used ones, behind the head only
  -- as far as these reach, counts them in both lengths, and writes the head anew.
  pub append-Appended :
      {p : Packet} (bytes : Bytes)
      → IsValid p
      → 0 < length bytes
      → Appended p bytes (append heap p (some bytes))
  unfolding check_len
  append-Appended {p} bytes v h = rw (append-extended p bytes h) (record {
    valid = w.valid;
    now = w.now ∙ ap (λ n. n + length bytes) c.now;
    message_len = w.message_len ∙ ap (λ n. n +ℤ pos (length bytes)) c.message_len;
    front = ground (arith, w.front, w.message_len, c.version, c.operate_code, c.error_code);
    content = content;
    room = ground (arith, w.enough, w.message_len);
    version = w.version ∙ c.version;
    operate_code = w.operate_code ∙ c.operate_code;
    error_code = w.error_code ∙ c.error_code;
  })
    where
      r : Packet
      r = reserved p bytes

      c : Reserved p (needed (pos (length bytes + p.data_now_len))) r
      c = reserve-Reserved heap (needed (pos (length bytes + p.data_now_len))) v

      fits : p.data_now_len + length bytes ≤ length r.bytes
      fits = ground (arith, c.enough, c.valid.size)

      valid : IsValid (extended p bytes)
      valid = ground (arith, c.valid, c.now, fits, length-overwrite r.bytes p.data_now_len bytes)

      w : HeadWritten (extended p bytes) (write_head heap (extended p bytes))
      w = write_head-HeadWritten heap valid

      content :
          drop packet_head_len (
            take
              (write_head heap (extended p bytes)).data_now_len
              (write_head heap (extended p bytes)).bytes)
          ≡ drop packet_head_len (take p.data_now_len p.bytes ++ bytes)
      content =
          ap (λ n. drop packet_head_len (take n (write_head heap (extended p bytes)).bytes)) w.now
          ∙ w.kept
          ∙ ap
              (λ n.
                drop packet_head_len
                  (take (n + length bytes) (overwrite r.bytes p.data_now_len bytes)))
              c.now
          ∙ ap (drop packet_head_len) (take-overwrite r.bytes p.data_now_len bytes fits)
          ∙ ap (λ used. drop packet_head_len (used ++ bytes)) c.kept

-- A packet that was made from two codes holds its head, and counts none of it as used.
pub record Made (opercode errcode : ℤ) (p : Packet) : Type 0 where
  pub valid : IsValid p
  pub front :
      take packet_head_len p.bytes ≡ head (pos packet_head_len) packet_version opercode errcode
  pub room : packet_head_len ≤ p.data_max_len
  pub message_len : p.message_len ≡ pos packet_head_len
  pub version : p.version ≡ packet_version
  pub operate_code : p.operate_code ≡ opercode
  pub error_code : p.error_code ≡ errcode
  pub now : p.data_now_len ≡ 0

module _ (heap : Allocator) where
  head_written :
      {p : Packet} {opercode errcode : ℤ} {q : Packet}
      → p.message_len ≡ pos packet_head_len
      → p.version ≡ packet_version
      → p.operate_code ≡ opercode
      → p.error_code ≡ errcode
      → p.data_now_len ≡ 0
      → HeadWritten p q
      → Made opercode errcode q
  head_written m v o e n w = record {
    valid = w.valid;
    front = ground (arith, w.front);
    room = ground (arith, w.enough);
    message_len = w.message_len ∙ m;
    version = w.version ∙ v;
    operate_code = w.operate_code ∙ o;
    error_code = w.error_code ∙ e;
    now = w.now ∙ n;
  }

  pub init-Made : Made (pos 0) (pos 0) (init heap)
  unfolding init
  init-Made =
      head_written refl refl refl refl refl
        (write_head-HeadWritten heap (record { size = refl; used = omega arith }))

  pub packet_of_codes-Made :
      (opercode errcode : ℤ) → Made opercode errcode (packet_of_codes heap opercode errcode)
  unfolding packet_of_codes
  packet_of_codes-Made opercode errcode =
      head_written init-Made.message_len init-Made.version refl refl init-Made.now (
        write_head-HeadWritten heap
          (record { size = init-Made.valid.size; used = init-Made.valid.used }))
