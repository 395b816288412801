-- ===== src/Client.antt =====
-- clientTest/client.cpp: the test client, which sends a thousand heart-beats on each of its connections.
pub mod Beats
use oryxgame.Common.{
  ℕ, zero, suc, Bool, true, false, ◌||◌, Option, none, some, List, [], ◌∷◌, if◌then◌else◌, take,
  length,
}
use oryxgame.Common.Int.{ℤ, pos, pos_part, ltb_ℤ, eqb_ℤ}
use oryxgame.Common.Bytes.{Bytes, Allocator}
use oryxgame.Packet.{Packet, new_packet_with, append}
use oryxgame.PlayerManager.{Message}
use oryxgame.MessageHandler.{msgid_heart_beat}

-- `sendData`, given what `send` returns for these bytes.
unfoldable pub send_data : (Bytes → ℤ) → Bytes → Bool
send_data send bytes = eqb_ℤ (send bytes) (pos (length bytes))

-- What `sendProto` returns, and the bytes that it gives to `send`, if it does.
pub record Sending : Type 0 where
  pub result : Bool
  pub bytes : Option Bytes

unfoldable pub send_bytes : (Bytes → ℤ) → Packet → Sending
send_bytes send p =
    let bytes = take (pos_part p.message_len) p.bytes in
    record { result = send_data send bytes; bytes = some bytes }

abbrev nothing_sent : Sending
nothing_sent = record { result = false; bytes = none }

-- `sendProto`; as in the player manager, the test of `SerializeToArray` is inverted.
unfoldable pub send_proto : Allocator → (Bytes → ℤ) → ℤ → ℤ → ℤ → Option Message → Sending
send_proto heap send fd message_id err_code none =
    if ltb_ℤ (pos 0) fd
    then send_bytes send (new_packet_with heap message_id err_code none)
    else nothing_sent
send_proto heap send fd message_id err_code (some proto) =
    let packet = new_packet_with heap message_id err_code none in
    if ltb_ℤ (pos 0) fd
    then if ltb_ℤ proto.byte_size (pos 1) || proto.serialize_to_array.0
      then nothing_sent
      else send_bytes send (append heap packet (some proto.serialize_to_array.1))
    else nothing_sent

-- The loop of `mutiClient`, for what is left of its thousand rounds.
unfoldable pub beat : ℕ → Allocator → (Bytes → ℤ) → ℤ → List Sending
beat zero heap send fd = []
beat (suc rounds) heap send fd =
    send_proto heap send fd msgid_heart_beat (pos 0) none ∷ beat rounds heap send fd

-- `mutiClient`, given the socket, and whether `connect` succeeds.
unfoldable pub muti_client : Allocator → (Bytes → ℤ) → ℤ → Bool → List Sending
muti_client heap send fd connected = if connected then beat 1000 heap send fd else []
