-- ===== src/MessageHandler/Dispatch.antt =====
-- From the bytes of a packet to the action of its number (oryx/MessageHandler.cpp).
use oryxgame.Common.{◌+◌, ◌<◌, ◌^◌, ◌≡◌, ap, ◌∙◌, Option, some, arith}
use oryxgame.Common.Int.{ℤ, IsInt32}
use oryxgame.Common.Map.{Map, find}
use oryxgame.Common.Bytes.{Bytes, Allocator}
use oryxgame.Packet.{Packet, packet_head_len, new_packet_with, new_packet_from_bytes}
use oryxgame.Packet.Wire.{payload_len, wire, new_packet_with-Carried}
use oryxgame.MessageHandler.{ActionResult, run_action, find_action, process_message}

module _ {Act S : Type 0} (heap : Allocator)
    (process : Act → Packet → ℤ → S → ActionResult × S) where
  found_action :
      (p : Packet) (bytes : Bytes) (thread session : ℤ) (table : Map (Option Act)) (s : S)
      (act : Act) (code : ℤ)
      → new_packet_from_bytes heap (some bytes) ≡ some p
      → p.operate_code ≡ code
      → find code table ≡ some (some act)
      → process_message heap process
          (some (record { thrd_id = thread; session_id = session; packet = some bytes }))
          table
          s
        ≡ run_action heap process act p session table s
  unfolding process_message find_action
  found_action p bytes thread session table s act code made same registered =
      let entry : find p.operate_code table ≡ some (some act) =
        ap (λ c. find c table) same ∙ registered in
      ground (arith, made, entry)

  -- A packet that was built with a number and an error code of 32 bits and some data or none, fewer than
  -- 2^31 bytes in all, is sent as it lies in its buffer and received as one task. If an action is
  -- registered under the number, `processMessage` is one run of this action, with the session and with a
  -- packet that has the number and the error code.
  pub process_message-run_action :
      (opercode errcode : ℤ) (content : Option Bytes) (thread session : ℤ)
      (table : Map (Option Act)) (s : S) (act : Act)
      → IsInt32 opercode
      → IsInt32 errcode
      → packet_head_len + payload_len content < 2 ^ 31
      → find opercode table ≡ some (some act)
      → (p : Packet) × (process_message heap process
            (some (record {
              thrd_id = thread;
              session_id = session;
              packet = some (wire heap (new_packet_with heap opercode errcode content));
            }))
            table
            s
          ≡ run_action heap process act p session table s)
        × (p.operate_code ≡ opercode)
        × (p.error_code ≡ errcode)
  process_message-run_action opercode errcode content thread session table s act o e l registered =
      let c = new_packet_with-Carried heap opercode errcode content o e l in
      (
        c.packet,
        found_action c.packet _ thread session table s act opercode c.accepted c.operate_code
            registered,
        c.operate_code,
        c.error_code,
      )
