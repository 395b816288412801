-- ===== src/Packet/Head.antt =====
-- `WriteHead` of oryx/packet.cpp.
use oryxgame.Common.{
  ℕ, ◌+◌, ◌-◌, ◌≤◌, ◌≡◌, refl, sym, ap, ◌∙◌, [], ◌∷◌, ◌++◌, arith, length, take, drop,
}
use oryxgame.Common.Int.{ℤ, pos}
use oryxgame.Common.Bytes.{Bytes, Allocator, overwrite, length-overwrite, htonl}
use oryxgame.Common.Slices.{drop-take}
use oryxgame.Packet.{
  Packet, packet_head_len, needed, reserve, check_len, write_data, write_int32, write_head,
}
use oryxgame.Packet.Buffer.{IsValid, Reserved, reserve-Reserved}

-- The four writes of `WriteHead`. The version's four bytes begin at 4 and the code's at 6.
put_head : Bytes → ℤ → ℤ → ℤ → ℤ → Bytes
put_head bytes len version opercode errcode =
    overwrite
      (overwrite (overwrite (overwrite bytes 0 (htonl len)) 4 (htonl version)) 6 (htonl opercode))
      10 (htonl errcode)

-- The head as it goes over the wire: of the version only the upper half is left.
unfoldable pub head : ℤ → ℤ → ℤ → ℤ → Bytes
head len version opercode errcode =
    htonl len ++ (take 2 (htonl version) ++ (htonl opercode ++ htonl errcode))

overwrite-nil : (dst : Bytes) → overwrite dst 0 [] ≡ dst
unfolding overwrite
overwrite-nil [] = refl
overwrite-nil (x ∷ dst) = refl

put_head_lem :
    (bytes : Bytes) (len version opercode errcode : ℤ)
    → packet_head_len ≤ length bytes
    → put_head bytes len version opercode errcode
      ≡ head len version opercode errcode ++ drop packet_head_len bytes
unfolding put_head overwrite head htonl
put_head_lem (a ∷ b ∷ c ∷ d ∷ e ∷ f ∷ g ∷ h ∷ i ∷ j ∷ k ∷ l ∷ m ∷ n ∷ rest) len version opercode
      errcode enough =
    rw (overwrite-nil rest)
put_head_lem _ len version opercode errcode enough = absurd (omega arith)

module _ (heap : Allocator) where
  check_len-same :
      (p : Packet) (n : ℕ)
      → n ≤ packet_head_len
      → packet_head_len ≤ p.data_max_len
      → check_len heap p (pos n) ≡ p
  unfolding check_len reserve
  check_len-same p n h k = ground arith

  -- Once there is room for the head, `WriteHead` writes it and does nothing else.
  write_int32-same :
      (p : Packet) (value : ℤ) (at : ℕ)
      → at + 4 ≤ packet_head_len
      → packet_head_len ≤ p.data_max_len
      → write_int32 heap p value at ≡ record p { bytes = overwrite p.bytes at (htonl value) }
  unfolding write_int32 write_data htonl
  write_int32-same p value at h k = ground (arith, check_len-same p (4 + at))

  write_head-put :
      (p : Packet)
      → packet_head_len ≤ (check_len heap p p.message_len).data_max_len
      → let q = check_len heap p p.message_len in
        write_head heap p
        ≡ record q { bytes = put_head q.bytes q.message_len q.version q.operate_code q.error_code }
  unfolding write_head put_head
  write_head-put p h =
      let q = check_len heap p p.message_len in
      let q1 = record q { bytes = overwrite q.bytes 0 (htonl q.message_len) } in
      let q2 = record q1 { bytes = overwrite q1.bytes 4 (htonl q.version) } in
      let q3 = record q2 { bytes = overwrite q2.bytes 6 (htonl q.operate_code) } in
      rw (
        write_int32-same q q.message_len 0 (omega arith) h,
        write_int32-same q1 q.version 4 (omega arith) h,
        write_int32-same q2 q.operate_code 6 (omega arith) h,
        write_int32-same q3 q.error_code 10 (omega arith) h,
      )

-- What `WriteHead` does to a consistent packet.
pub record HeadWritten (p : Packet) (q : Packet) : Type 0 where
  pub valid : IsValid q
  pub enough : needed p.message_len ≤ q.data_max_len
  pub front :
      take packet_head_len q.bytes ≡ head p.message_len p.version p.operate_code p.error_code
  pub kept :
      drop packet_head_len (take p.data_now_len q.bytes)
      ≡ drop packet_head_len (take p.data_now_len p.bytes)
  pub message_len : q.message_len ≡ p.message_len
  pub version : q.version ≡ p.version
  pub operate_code : q.operate_code ≡ p.operate_code
  pub error_code : q.error_code ≡ p.error_code
  pub now : q.data_now_len ≡ p.data_now_len

take-head :
    (len version opercode errcode : ℤ) (rest : Bytes)
    → take packet_head_len (head len version opercode errcode ++ rest)
      ≡ head len version opercode errcode
unfolding head htonl
take-head len version opercode errcode rest = refl

drop-head :
    (len version opercode errcode : ℤ) (rest : Bytes)
    → drop packet_head_len (head len version opercode errcode ++ rest) ≡ rest
unfolding head htonl
drop-head len version opercode errcode rest = refl

length-put_head :
    (bytes : Bytes) (len version opercode errcode : ℤ)
    → length (put_head bytes len version opercode errcode) ≡ length bytes
unfolding put_head
length-put_head bytes len version opercode errcode =
    rw (length-overwrite, length-overwrite, length-overwrite, length-overwrite)

needed-ge : (len : ℤ) → packet_head_len ≤ needed len
needed-ge len = ground arith

module _ {p r : Packet} (c : Reserved p (needed p.message_len) r) where
  written : Packet
  written = record r {
    bytes = put_head r.bytes r.message_len r.version r.operate_code r.error_code;
  }

  written_bytes :
      put_head r.bytes r.message_len r.version r.operate_code r.error_code
      ≡ head p.message_len p.version p.operate_code p.error_code ++ drop packet_head_len r.bytes
  written_bytes =
      put_head_lem r.bytes r.message_len r.version r.operate_code r.error_code
        (omega (arith, c.enough, c.valid.size, needed-ge p.message_len))
      ∙ ground (arith, c.message_len, c.version, c.operate_code, c.error_code)

  written_kept :
      drop packet_head_len
        (take p.data_now_len (put_head r.bytes r.message_len r.version r.operate_code r.error_code))
      ≡ drop packet_head_len (take p.data_now_len p.bytes)
  written_kept =
      drop-take packet_head_len p.data_now_len _
      ∙ ap (λ bytes. take (p.data_now_len - packet_head_len) (drop packet_head_len bytes))
          written_bytes
      ∙ ap (take (p.data_now_len - packet_head_len)) (
          drop-head p.message_len p.version p.operate_code p.error_code
            (drop packet_head_len r.bytes))
      ∙ sym (drop-take packet_head_len p.data_now_len r.bytes)
      ∙ ap (drop packet_head_len) c.kept

  written-HeadWritten : HeadWritten p written
  unfolding written
  written-HeadWritten = record {
    valid = record {
      size =
          length-put_head r.bytes r.message_len r.version r.operate_code r.error_code
          ∙ c.valid.size;
      used = c.valid.used;
    };
    enough = c.enough;
    front =
        ap (take packet_head_len) written_bytes
        ∙ take-head p.message_len p.version p.operate_code p.error_code
            (drop packet_head_len r.bytes);
    kept = written_kept;
    message_len = c.message_len;
    version = c.version;
    operate_code = c.operate_code;
    error_code = c.error_code;
    now = c.now;
  }

module _ (heap : Allocator) where
  -- `WriteHead` on a consistent packet writes the head of its four fields, keeps the used bytes
  -- behind the head, and leaves room for the message length.
  pub write_head-HeadWritten : {p : Packet} → IsValid p → HeadWritten p (write_head heap p)
  unfolding check_len written
  write_head-HeadWritten {p} v =
      let c = reserve-Reserved heap (needed p.message_len) v in
      rw (write_head-put heap p (omega (arith, c.enough, needed-ge p.message_len)))
        (written-HeadWritten c)
