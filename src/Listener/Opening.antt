-- ===== src/Listener/Opening.antt =====
-- `doListen` and `CreateTask` together (oryx/Listener.h, oryx/Listener.cpp).
use oryxgame.Common.{◌≡◌, true, false, some, arith}
use oryxgame.Common.Int.{ℤ, pos, negsuc, ltb_ℤ}
use oryxgame.Task.{new_listener}
use oryxgame.Listener.{Listener, SocketCalls, prepared, do_listen, create_task, af_inet}

-- Although a failure of `socket` does not end `doListen`: if it returns true, and `bind` refuses descriptors
-- that are not open, then `CreateTask` has a task for the socket, with the listener's address, port and type.
pub do_listen-create_task :
    (calls : SocketCalls) (l : Listener)
    → ((fd : ℤ) → ltb_ℤ fd (pos 0) ≡ true → ltb_ℤ (calls.bind fd) (pos 0) ≡ true)
    → (do_listen calls l).0 ≡ true
    → (create_task (do_listen calls l).1
        ≡ some (
            new_listener calls.socket l.svr_type (record {
              sin_family = af_inet;
              sin_addr = l.listen_addr;
              sin_port = l.listen_port;
            })))
      × (ltb_ℤ calls.socket (pos 0) ≡ false)
unfolding do_listen create_task prepared
do_listen-create_task calls l refuses done =
    ground (arith, done, refuses (negsuc 0), refuses calls.socket)
