-- ===== src/PlayerManager.antt =====
-- logic/PlayerManager.h and logic/PlayerManager.cpp: players on top of the session tables.
pub mod Closing
pub mod Leaving
pub mod Login
pub mod Logoff
pub mod Matching
pub mod Sending
pub mod Taking
use oryxgame.Common.{ℕ, Bool, true, false, ◌||◌, Option, none, some, List, [], if◌then◌else◌, take}
use oryxgame.Common.Int.{ℤ, pos, pos_part, ltb_ℤ, eqb_ℤ}
use oryxgame.Common.Map.{find, insert, erase}
use oryxgame.Common.Bytes.{Bytes, Allocator}
use oryxgame.Packet.{Packet, new_packet_with, append}
use oryxgame.ClientConnManager.{
  SessionConn, Player, Manager, Address, M, ◌>>=◌, ◌>>◌, load, store, update_manager, give,
}
use oryxgame.ClientConnManager.Ops
use oryxgame.ClientConnManager.Ops.{Virtual, send_msg_to_conn}

-- The `Proto::RESULT_ID` values that are returned.
abbrev pub result_success : ℤ
result_success = pos 0

abbrev pub result_login_noexist : ℤ
result_login_noexist = pos 101

abbrev pub result_login_repeated : ℤ
result_login_repeated = pos 102

unfoldable pub init : Manager → Manager
init m = Ops.init (record m { auto_incr_player_id = pos 1001 })

unfoldable pub get_player : ℤ → M (Option Player)
get_player player m = some (find player m.player_all, m)

unfoldable pub is_player_online : ℤ → M Bool
is_player_online player m = elim (find player m.player_online) [
  | none ↦ some (false, m)
  | some _ ↦ some (true, m)
]

-- An entry that holds the null pointer is erased.
unfoldable pub get_player_session : ℤ → M (Option Address)
get_player_session player m = elim (find player m.player_online) [
  | none ↦ some (none, m)
  | some entry ↦ elim entry [
    | none ↦ some (none, record m { player_online = erase player m.player_online })
    | some p ↦ some (some p, m)
  ]
]

-- `p->player_id = player`
unfoldable pub set_player : Address → ℤ → M (Unit {0})
set_player p player = do conn ← load p; store p (record conn { player_id = player })

unfoldable pub on_player_logoff : ℤ → M (Unit {0})
on_player_logoff player = do
  session ← get_player_session player
  elim session [
    | none ↦ give tt
    | some p ↦ do
      set_player p (pos 0)
      update_manager (λ m. record m { player_online = erase player m.player_online })
  ]

unfoldable pub on_session_close : Address → M (Unit {0})
on_session_close p = do
  conn ← load p
  if ltb_ℤ (pos 0) conn.player_id then on_player_logoff conn.player_id else give tt

-- The virtual functions of `PlayerManager`.
unfoldable pub player_manager : Virtual
player_manager = record { on_session_begin = λ p. give tt; on_session_close = on_session_close }

-- The session on which the player was online so far loses it.
unfoldable pub leave_old_session : ℤ → M (Unit {0})
leave_old_session player = do
  old ← get_player_session player
  elim old [ none ↦ give tt | some q ↦ set_player q (pos 0) ]

-- The last part of `onPlayerLogin`: the player exists and the session is not yet its own.
unfoldable pub take_session : ℤ → Address → M ℤ
take_session player p = do
  leave_old_session player
  set_player p player
  update_manager (λ m. record m { player_online = insert player (some p) m.player_online })
  give result_success

unfoldable pub login_session : ℤ → Address → M ℤ
login_session player p = do
  conn ← load p
  found ← get_player player
  if eqb_ℤ conn.player_id player
      then give result_login_repeated
      else elim found [ none ↦ give result_login_noexist | some _ ↦ take_session player p ]

unfoldable pub on_player_login : ℤ → Option Address → M ℤ
on_player_login player none = give result_login_noexist
on_player_login player (some p) =
    if ltb_ℤ (pos 0) player then login_session player p else give result_login_noexist

-- `google::protobuf::Message`: its size, and what `SerializeToArray` with that size returns and leaves
-- in the array.
pub record Message : Type 0 where
  pub byte_size : ℤ
  pub serialize_to_array : Bool × Bytes

-- The packet's first `message_len` bytes are sent.
unfoldable pub send_packet : ℤ → Packet → M Bool
send_packet session p = send_msg_to_conn session (some (take (pos_part p.message_len) p.bytes))

unfoldable pub send_proto_to_session : Allocator → ℤ → ℤ → ℤ → Option Message → M Bool
send_proto_to_session heap session message_id err_code none =
    if ltb_ℤ (pos 0) session
    then send_packet session (new_packet_with heap message_id err_code none)
    else give false
send_proto_to_session heap session message_id err_code (some proto) =
    let packet = new_packet_with heap message_id err_code none in
    if ltb_ℤ (pos 0) session
    then (if ltb_ℤ proto.byte_size (pos 1) || proto.serialize_to_array.0
        then give false
        else send_packet session (append heap packet (some proto.serialize_to_array.1)))
    else give false

unfoldable pub send_proto_to_player : Allocator → ℤ → ℤ → ℤ → Option Message → M Bool
send_proto_to_player heap player message_id err_code proto =
    if ltb_ℤ (pos 0) player
    then (do
      session ← get_player_session player
      elim session [
        | none ↦ give false
        | some p ↦ do
          conn ← load p
          send_proto_to_session heap conn.session_id message_id err_code proto
      ])
    else give false
