-- ===== src/MessageHandler/Answering.antt =====
-- What logic/TestAction.cpp makes of the packets that oryx/MessageHandler.cpp gives it.
use oryxgame.Common.{
  ◌+◌, ◌<◌, ◌^◌, ◌≡◌, refl, ◌∙◌, sym, ap, subst, ◌⊎◌, inl, inr, true, false, Option, none, some,
  Option-cases, arith,
}
use oryxgame.Common.Int.{ℤ, IsInt32}
use oryxgame.Common.Map.{Map, find, find-insert}
use oryxgame.Common.Bytes.{Bytes, Allocator}
use oryxgame.Packet.{Packet, packet_head_len, new_packet_with}
use oryxgame.Packet.Wire.{payload_len, wire}
use oryxgame.ClientConnManager.{Manager, SessionConn, load}
use oryxgame.ClientConnManager.Ops.{get_session_by_session_id}
use oryxgame.ClientConnManager.Sessions.{IsValid, session_of}
use oryxgame.MessageHandler.{
  ActionResult, result_success, result_max, result_session_closed, run_action, kept_after,
  is_failure, Processed, process_message, message_id_is_valid, msgid_heart_beat, test_action,
  register_handler_fun, init_test_action,
}
use oryxgame.MessageHandler.Dispatch.{process_message-run_action}

pub found_heart_beat :
    {Act : Type 0} (act : Act) (table : Map (Option Act))
    → find msgid_heart_beat (init_test_action act table) ≡ some (some act)
unfolding init_test_action register_handler_fun
found_heart_beat act table =
    find-insert msgid_heart_beat msgid_heart_beat (some act) table ∙ ground arith

-- The one action is the test action. The state is that of the sessions, `none` after an access to a deleted
-- one, when no result means anything any more.
pub data Only : Type 0 where
  only : Only

abbrev answered : Option (ActionResult × Manager) → ActionResult × Option Manager
answered none = (result_max, none)
answered (some (result, m)) = (result, some m)

abbrev pub answer : Only → Packet → ℤ → Option Manager → ActionResult × Option Manager
answer act packet session none = (result_max, none)
answer act packet session (some m) = answered (test_action packet session m)

abbrev pub Answer : Type 0
Answer = Processed Only (Option Manager)

-- The session is in the table, or it is not and the deleted packet is read.
abbrev pub Answered : Manager → ℤ → Answer → Type 0
Answered m session r =
    ((conn : SessionConn) × (session_of m session ≡ some conn)
      × (r.result ≡ result_success)
      × (r.read_deleted ≡ false))
    ⊎ ((session_of m session ≡ none) × (r.result ≡ result_session_closed) × (r.read_deleted ≡ true))

module _ (m : Manager) (v : IsValid m) where
  open_session :
      (p : Packet) (session : ℤ)
      → p.operate_code ≡ msgid_heart_beat
      → ((conn : SessionConn) × (session_of m session ≡ some conn)
          × (answer only p session (some m) ≡ (result_success, some m)))
        ⊎ ((session_of m session ≡ none)
            × (answer only p session (some m) ≡ (result_session_closed, some m)))
  unfolding test_action message_id_is_valid get_session_by_session_id session_of load
  open_session p session code =
      let valid : message_id_is_valid p.operate_code ≡ true = ap message_id_is_valid code ∙ refl in
      elim (Option-cases (find session m.session_conn_info)) [
        | inl absent ↦ inr (ground (arith, absent), ground (arith, valid, absent))
        | inr (q, there) ↦
            let (conn, here, _) = v.live session q there in
            inl (conn, ground (arith, there, here), ground (arith, valid, there, here))
      ]

  answers :
      (heap : Allocator) (p : Packet) (session : ℤ) (table : Map (Option Only))
      → p.operate_code ≡ msgid_heart_beat
      → let r = run_action heap answer only p session table (some m) in
        Answered m session r × (r.state ≡ some m) × (r.kept ≡ none) × (r.table ≡ table)
  unfolding run_action kept_after is_failure
  answers heap p session table code = elim (open_session p session code) [
    | inl (conn, there, e) ↦ rw (e, run_action) (inl (conn, there, refl, refl), refl, refl, refl)
    | inr (absent, e) ↦ rw (e, run_action) (inr (absent, refl, refl), refl, refl, refl)
  ]

  -- A heart-beat of a client, with any error code of 32 bits and any data, fewer than 2^31 bytes in all, on a
  -- server with consistent tables of sessions whose table of actions has the test action. If its session is
  -- in the table, the result is success. If the session is there no longer, the result says so, and the
  -- packet is read after it was deleted. In both cases the packet is deleted and the sessions and the actions
  -- are as before.
  pub process_message-test_action :
      (heap : Allocator) (errcode : ℤ) (content : Option Bytes) (thread session : ℤ)
      (table : Map (Option Only))
      → IsInt32 errcode
      → packet_head_len + payload_len content < 2 ^ 31
      → let r =
          process_message heap answer
            (some (record {
              thrd_id = thread;
              session_id = session;
              packet = some (wire heap (new_packet_with heap msgid_heart_beat errcode content));
            }))
            (init_test_action only table)
            (some m) in
        Answered m session r
        × (r.state ≡ some m)
        × (r.kept ≡ none)
        × (r.table ≡ init_test_action only table)
  process_message-test_action heap errcode content thread session table err short =
      let (p, ran, code, _) =
        process_message-run_action heap answer msgid_heart_beat errcode content thread session
          (init_test_action only table) (some m) only (omega arith) err short
          (found_heart_beat only table) in
      subst
        (λ r.
          Answered m session r
          × (r.state ≡ some m)
          × (r.kept ≡ none)
          × (r.table ≡ init_test_action only table))
        (sym ran) (answers heap p session (init_test_action only table) code)
