-- ===== src/Packet.antt =====
-- oryx/packet.h and oryx/packet.cpp: a message with its 14-byte head, in a buffer that grows.
pub mod Buffer
pub mod Head
pub mod Append
pub mod RealData
pub mod Reading
pub mod Wire
pub mod Framing
pub mod Numbers
use oryxgame.Common.{
  ℕ, zero, suc, ◌+◌, ◌-◌, ◌*◌, ◌<◌, Bool, true, false, ◌||◌, Option, none, some, [], ◌∷◌, ltb, leb,
  ◌==◌, if◌then◌else◌, length, take,
}
use oryxgame.Common.Int.{ℤ, pos, pos_part, ltb_ℤ, ◌+ℤ◌}
use oryxgame.Common.Bytes.{Bytes, Allocator, overwrite, slice, htonl, ntohl}

abbrev pub packet_version : ℤ
packet_version = pos 1

abbrev pub packet_head_len : ℕ
packet_head_len = 14

abbrev pub packet_min_size : ℕ
packet_min_size = 256

abbrev pub offset_messlen : ℕ
offset_messlen = 0

abbrev pub offset_version : ℕ
offset_version = 4

abbrev pub offset_opercode : ℕ
offset_opercode = 6

abbrev pub offset_errcode : ℕ
offset_errcode = 10

-- `class Packet`. `bytes` is what `data` points to, empty for the null pointer; the two lengths are
-- never negative.
pub record Packet : Type 0 where
  pub message_len : ℤ
  pub version : ℤ
  pub operate_code : ℤ
  pub error_code : ℤ
  pub bytes : Bytes
  pub data_max_len : ℕ
  pub data_now_len : ℕ

-- The `while` of `CheckLen`; each round brings the size nearer to the length by at least one.
unfoldable pub grow : ℕ → ℕ → ℕ → ℕ
grow zero size len = size
grow (suc fuel) size len = elim (ltb size len) [
  | true ↦ grow fuel (if ltb size packet_min_size then packet_min_size else size * 2) len
  | false ↦ size
]

-- `CheckLen` when its argument, raised to the head's length, is `need`.
unfoldable pub reserve : Allocator → Packet → ℕ → Packet
reserve heap p need =
    let size = grow need p.data_max_len need in
    let buff = heap.fresh size in
    if leb need p.data_max_len then p else record p {
      data_max_len = size;
      bytes = if ltb 0 p.data_now_len then overwrite buff 0 (take p.data_now_len p.bytes) else buff;
    }

abbrev pub needed : ℤ → ℕ
needed len = if ltb_ℤ len (pos packet_head_len) then packet_head_len else pos_part len

unfoldable pub check_len : Allocator → Packet → ℤ → Packet
check_len heap p len = reserve heap p (needed len)

-- The data and its length are one argument, `none` for a null pointer.
unfoldable pub write_data : Allocator → Packet → Option Bytes → ℤ → Packet
write_data heap p none at = p
write_data heap p (some bytes) at =
    let q = check_len heap p (pos (length bytes + pos_part at)) in
    if length bytes == 0 || ltb_ℤ at (pos 0)
    then p
    else record q { bytes = overwrite q.bytes (pos_part at) bytes }

unfoldable pub write_int32 : Allocator → Packet → ℤ → ℕ → Packet
write_int32 heap p value at = write_data heap p (some (htonl value)) (pos at)

unfoldable pub read_int32 : Packet → ℕ → ℤ
read_int32 p at = if ltb p.data_now_len (at + 4) then pos 0 else ntohl (slice at 4 p.bytes)

unfoldable pub write_head : Allocator → Packet → Packet
write_head heap p =
    let p0 = check_len heap p p.message_len in
    let p1 = write_int32 heap p0 p0.message_len offset_messlen in
    let p2 = write_int32 heap p1 p1.version offset_version in
    let p3 = write_int32 heap p2 p2.operate_code offset_opercode in
    write_int32 heap p3 p3.error_code offset_errcode

unfoldable pub pack : Allocator → Packet → Packet
pack heap p = write_head heap p

unfoldable pub init : Allocator → Packet
init heap = write_head heap (record {
  message_len = pos packet_head_len;
  version = packet_version;
  operate_code = pos 0;
  error_code = pos 0;
  bytes = [];
  data_max_len = 0;
  data_now_len = 0;
})

-- `Packet(INT32 opercode, INT32 errcode)`
unfoldable pub packet_of_codes : Allocator → ℤ → ℤ → Packet
packet_of_codes heap opercode errcode =
    write_head heap (record (init heap) { operate_code = opercode; error_code = errcode })

-- The body of `Packet(byte *data, INT32 len)` once the length is at least that of the head.
unfoldable pub load_bytes : Allocator → Packet → Bytes → Packet
load_bytes heap p bytes =
    let q = check_len heap p (pos (length bytes)) in
    let r = record q { bytes = overwrite q.bytes 0 bytes; data_now_len = length bytes } in
    record r {
      message_len = read_int32 r offset_messlen;
      version = read_int32 r offset_version;
      operate_code = read_int32 r offset_opercode;
      error_code = read_int32 r offset_errcode;
    }

-- `Packet(byte *data, INT32 len)`
unfoldable pub packet_of_bytes : Allocator → Bytes → Packet
packet_of_bytes heap bytes =
    if leb packet_head_len (length bytes) then load_bytes heap (init heap) bytes else init heap

-- The lengths are added to as they stand; `INT32` holds them as long as they stay below 2^31.
unfoldable pub append : Allocator → Packet → Option Bytes → Packet
append heap p none = p
append heap p (some bytes) =
    let q = write_data heap p (some bytes) (pos p.data_now_len) in
    if ltb 0 (length bytes)
    then write_head heap (record q {
      data_now_len = q.data_now_len + length bytes;
      message_len = q.message_len +ℤ pos (length bytes);
    })
    else p

unfoldable pub get_real_data : Packet → ℕ × Option Bytes
get_real_data p =
    if ltb 0 (p.data_now_len - packet_head_len)
    then (
      p.data_now_len - packet_head_len,
      some (slice packet_head_len (p.data_now_len - packet_head_len) p.bytes),
    )
    else (0, none)

-- `NewPacket()` and `NewPacket(opercode, errcode, data, len)`
unfoldable pub new_packet : Allocator → Packet
new_packet heap = packet_of_codes heap (pos 0) (pos 0)

unfoldable pub new_packet_with : Allocator → ℤ → ℤ → Option Bytes → Packet
new_packet_with heap opercode errcode none = packet_of_codes heap opercode errcode
new_packet_with heap opercode errcode (some bytes) =
    let p = packet_of_codes heap opercode errcode in
    if ltb 0 (length bytes) then append heap p (some bytes) else p

unfoldable pub new_packet_from_bytes : Allocator → Option Bytes → Option Packet
new_packet_from_bytes heap none = none
new_packet_from_bytes heap (some bytes) =
    if ltb (length bytes) packet_head_len then none else some (packet_of_bytes heap bytes)
