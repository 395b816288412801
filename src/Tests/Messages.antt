-- ===== src/Tests/Messages.antt =====
-- A message on its way to its action (oryx/MessageHandler.cpp), and a listener (oryx/Listener.cpp).
use oryxgame.Common.{
  ℕ, ◌+◌, ◌≡◌, refl, true, false, Option, some, [], ◌∷◌, arith, length-replicate, replicate,
  if◌then◌else◌,
}
use oryxgame.Common.Int.{ℤ, pos, negsuc, ltb_ℤ}
use oryxgame.Common.Map.{Map}
use oryxgame.Common.Bytes.{Allocator}
use oryxgame.Device.{device_server_external}
use oryxgame.Task.{ClientConnPacket}
use oryxgame.Packet.{Packet, new_packet_with}
use oryxgame.Packet.Wire.{wire}
use oryxgame.MessageHandler.{ActionResult, result_success, message_id_is_valid}
use oryxgame.Listener.{Listener, SocketCalls}

abbrev memory : Allocator
memory = record { fresh = λ n. replicate n 0; length_fresh = λ n. length-replicate {A = ℕ} n 0 }

-- The action counts; its number is what it adds.
abbrev count_up : ℕ → Packet → ℤ → ℕ → ActionResult × ℕ
count_up act packet session s = (result_success, s + act)

abbrev table : Map (Option ℕ)
table = (pos 101, some 5) ∷ (pos 0, some 1) ∷ []

abbrev login : ClientConnPacket
login = record {
  thrd_id = pos 3;
  session_id = pos 42;
  packet = some (wire memory (new_packet_with memory (pos 101) (pos 0) (some (8 ∷ 1 ∷ []))));
}

login_is_valid : message_id_is_valid (pos 104) ≡ true
unfolding message_id_is_valid
login_is_valid = refl

no_such_message : message_id_is_valid (pos 1) ≡ false
unfolding message_id_is_valid
no_such_message = refl

abbrev calls : SocketCalls
calls = record {
  socket = pos 5;
  bind = λ fd. if ltb_ℤ fd (pos 0) then negsuc 0 else pos 0;
  listen = λ fd. pos 0;
}

abbrev unopened : Listener
unopened = record {
  fd = negsuc 0;
  listen_addr = 0;
  listen_port = 8888;
  svr_type = device_server_external;
  svr_addr = record { sin_family = 0; sin_addr = 0; sin_port = 0 };
}

refuses : (fd : ℤ) → ltb_ℤ fd (pos 0) ≡ true → ltb_ℤ (calls.bind fd) (pos 0) ≡ true
refuses fd bad = ground (arith, bad)
