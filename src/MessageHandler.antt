-- ===== src/MessageHandler.antt =====
-- oryx/MessageHandler.h, oryx/MessageHandler.cpp, oryx/Action.h and logic/TestAction.cpp: what happens to a
-- packet on the logic thread.
pub mod Dispatch
pub mod Delivery
pub mod Answering
use oryxgame.Common.{ℕ, Bool, true, false, ◌||◌, Option, none, some, if◌then◌else◌}
use oryxgame.Common.Int.{ℤ, pos, eqb_ℤ, ltb_ℤ}
use oryxgame.Common.Map.{Map, find, insert, erase}
use oryxgame.Common.Bytes.{Bytes, Allocator}
use oryxgame.Task.{ClientConnPacket}
use oryxgame.Packet.{Packet, new_packet_from_bytes}
use oryxgame.ClientConnManager.{Manager, Address, M, ◌>>=◌, load, give}
use oryxgame.ClientConnManager.Ops.{get_session_by_session_id}

pub data ActionResult : Type 0 where
  result_success : ActionResult
  result_async_wait : ActionResult
  result_unknown_message : ActionResult
  result_parse_error : ActionResult
  result_session_closed : ActionResult
  result_max : ActionResult

-- What `processMessage` returns and leaves: the table, the state that actions work on, and the packet
-- that it made if it did not delete it. `read_deleted` tells whether it reads the number of the packet for
-- the log after it has deleted the packet.
pub record Processed (Act S : Type 0) : Type 0 where
  pub result : ActionResult
  pub table : Map (Option Act)
  pub state : S
  pub kept : Option Packet
  pub read_deleted : Bool

-- `Act` stands for the objects of `Action`; a null pointer is `none`.
module _ {Act : Type 0} where
  unfoldable pub register_handler_fun : ℤ → Option Act → Map (Option Act) → Bool × Map (Option Act)
  register_handler_fun message_id none table = (false, table)
  register_handler_fun message_id (some act) table = (true, insert message_id (some act) table)

module _ {Act S : Type 0} where
  -- `process` is the virtual `Action::processMessage`.
  module _ (heap : Allocator) (process : Act → Packet → ℤ → S → ActionResult × S) where
    unfoldable pub kept_after : ActionResult → Packet → Option Packet
    kept_after result_async_wait p = some p
    kept_after result_success p = none
    kept_after result_unknown_message p = none
    kept_after result_parse_error p = none
    kept_after result_session_closed p = none
    kept_after result_max p = none

    unfoldable pub is_failure : ActionResult → Bool
    is_failure result_success = false
    is_failure result_async_wait = false
    is_failure result_unknown_message = true
    is_failure result_parse_error = true
    is_failure result_session_closed = true
    is_failure result_max = true

    unfoldable pub run_action : Act → Packet → ℤ → Map (Option Act) → S → Processed Act S
    run_action act p session table s =
        let (result, s') = process act p session s in
        record {
          result = result;
          table = table;
          state = s';
          kept = kept_after result p;
          read_deleted = is_failure result;
        }

    -- The part that finds the action for the packet.
    unfoldable pub find_action : Packet → ℤ → Map (Option Act) → S → Processed Act S
    find_action p session table s = elim (find p.operate_code table) [
      | none ↦ record {
        result = result_unknown_message;
        table = table;
        state = s;
        kept = some p;
        read_deleted = false;
      }
      | some entry ↦ elim entry [
        | none ↦ record {
          result = result_unknown_message;
          table = erase p.operate_code table;
          state = s;
          kept = some p;
          read_deleted = false;
        }
        | some act ↦ run_action act p session table s
      ]
    ]

    unfoldable pub process_message :
        Option ClientConnPacket → Map (Option Act) → S → Processed Act S
    process_message none table s = record {
      result = result_parse_error;
      table = table;
      state = s;
      kept = none;
      read_deleted = false;
    }
    process_message (some t) table s = elim (new_packet_from_bytes heap t.packet) [
      | none ↦ record {
        result = result_parse_error;
        table = table;
        state = s;
        kept = none;
        read_deleted = false;
      }
      | some p ↦ find_action p t.session_id table s
    ]

-- `MESSAGE_ID_IsValid`
unfoldable pub message_id_is_valid : ℤ → Bool
message_id_is_valid id =
    eqb_ℤ id (pos 0)
    || eqb_ℤ id (pos 101)
    || eqb_ℤ id (pos 102)
    || eqb_ℤ id (pos 103)
    || eqb_ℤ id (pos 104)
    || eqb_ℤ id (pos 105)

abbrev pub msgid_heart_beat : ℤ
msgid_heart_beat = pos 0

-- `TestAction::processMessage`
unfoldable pub test_action : Packet → ℤ → M ActionResult
test_action packet session =
    if message_id_is_valid packet.operate_code
    then (do
      found ← get_session_by_session_id session
      elim found [
        | none ↦ give result_session_closed
        | some p ↦ do conn ← load p; give result_success
      ])
    else give result_parse_error

-- `TestAction::initAction`
unfoldable pub init_test_action : {Act : Type 0} → Act → Map (Option Act) → Map (Option Act)
init_test_action act table = (register_handler_fun msgid_heart_beat (some act) table).1
