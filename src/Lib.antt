-- ===== src/Lib.antt =====
-- oryxgame: a game server. A logic thread owns the sessions and the players; epoll threads own the
-- sockets. They hand one another tasks through queues with one producer and one consumer each.
--
-- The parts and their files:
-- - Device: oryx/DeviceInfo.h. A connected socket with a receive and a send buffer of 4096 bytes.
--   `clear_Recv_buff`, `clear_Send_buff` and `write` are `clear_recv_buff`, `clear_send_buff` and
--   `write`; Device.Inv has the bounds of the buffers, Device.Buffers what they hold.
-- - Frames: the packet stream that `EpollHandler::doRead` takes apart, as a relation between the bytes
--   that arrive and the packets in them; Frames.Whole is about streams that hold packets of every legal
--   length, from four bytes on.
-- - Epoll: oryx/EpollHandler.h and oryx/EpollHandler.cpp. Epoll.Read is `doRead` and Epoll.Write
--   `doWrite` on the device that they find; what the calls of `recv` and `send` return is an argument,
--   a list, at whose end the socket would block. Epoll.State is the thread's state and the monad over
--   it, Epoll.Devices the operations on its tables of devices, with Epoll.Table and Epoll.Removal on
--   what they do to them, and Epoll.Events the handlers: `doAccept`, `doEpollEvents`,
--   `WritePacketToConn`, `AddListener`, `AddClientConn`, `DelClientConn` and `dotask`. Epoll.Balance
--   counts the devices. Epoll.Run is the life of the thread: the constructor, `CreateEpoll`, `EpollRun`
--   and the rounds of `epoll_thread_run`, in which the logic thread may change the queues before each
--   round. Epoll.Link joins the two ends of a connection: what `write` and `doWrite` do on one side and
--   `doRead` on the other.
-- - Thread: oryx/thread.h and oryx/thread.cpp. The four queues of a thread, and the round of each of the
--   two threads, `update_main` and `update_thread`, over any `dotask` and `dotask_complete`.
--   Thread.Creation is the constructor and `run`, given what `pthread_create` does.
-- - ThreadManager: oryx/threadManager.h and oryx/threadManager.cpp. The choice of the epoll thread that
--   gets a task; ThreadManager.Turns is `init` and `update`, ThreadManager.Unordered the map of threads
--   without the order of its iteration, a quotient.
-- - Task: oryx/task.h and task/. The tasks, their constructors and `InitData`.
-- - SpscQueue: oryx/spsc_queue.h. The queue with its cache, over a parameter for boost's bounded queue
--   with what its documentation says of `push` and `pop`. SpscQueue has every function of the queue as
--   one step; SpscQueue.Overlap has the steps within `push` and `checkCache`, a relation, with pops of the
--   other thread between them.
-- - Packet: oryx/packet.h and oryx/packet.cpp. The message with its 14-byte head in a buffer that grows;
--   `CheckLen`, `WriteData`, `WriteHead`, `Append`, `GetRealData` and the constructors. Packet.Numbers has
--   the other `Read` and `Write` functions and `PrintData`, Packet.Framing how `doRead` sees a packet.
-- - ClientConnManager: oryx/ClientConnManager.h and oryx/ClientConnManager.cpp. The logic thread's table
--   of sessions. Sessions are objects that several tables point to, so the state has a heap of them, and
--   an access to a deleted one is `none`.
-- - PlayerManager: logic/PlayerManager.h and logic/PlayerManager.cpp, on top of the session tables.
--   PlayerManager.Leaving and PlayerManager.Taking are the two halves of a login that succeeds.
-- - TimerControl: oryx/TimerControl.h and oryx/TimerControl.cpp. Functions that run at intervals.
-- - MessageHandler: oryx/MessageHandler.h, oryx/MessageHandler.cpp, oryx/Action.h and
--   logic/TestAction.cpp. Actions by message number, and what `processMessage` does with a packet.
--   MessageHandler.Delivery follows messages from the packets that are built to the actions that run, with
--   `on_thread_call` of task/task_clientPacket.cpp; MessageHandler.Answering has the test action on the
--   table of sessions.
-- - Listener: oryx/Listener.h and oryx/Listener.cpp. `doListen`, given what the socket calls return.
-- - TaskCalls: task/task_clientConn.cpp. What the tasks of a new and of a closed connection do on the
--   logic thread; TaskCalls.Freeing is `on_free` of every task.
-- - LogManager: oryx/LogManager.h and oryx/LogManager.cpp. The loggers, the name of the file of the hour
--   and the line that is written; LogManager.Numbers reads the decimal numbers back that they hold.
-- - Server: logic/ServerHandler.h and logic/ServerHandler.cpp. `ServerHandler::init`, with the managers
--   of the log, the threads and the players, and the rounds of
--   `ServerHandler::run`.
-- - Client: clientTest/client.cpp. What the test client sends.
-- - LogicThread: `on_thread_call` of every task of task/ on the logic thread, by way of oryx/task.h, over
--   the tables of sessions and players and the map of threads, and any number of tasks after one another.
-- - Common: integers, maps, byte arrays and the lemmas that the parts share. Tests: runs at concrete
--   inputs.
--
-- How the parts meet: `doRead` gives the logic thread one task for each packet and `doWrite` takes what
-- `write` has queued; `sendMsgToConn` and `closeConn` push tasks for the thread that serves a session,
-- `sendProtoToSession` builds a packet and gives its bytes to `sendMsgToConn`. The task of an accepted
-- connection makes its session and sends the task that inserts it to the thread of least pressure; the
-- task of a received packet ends in `processMessage`. `SINGLETON_INIT(PlayerManager)` makes the player
-- manager the one `ClientConnManager`, so that its virtual functions run.
--
-- Fuel: the inner loop of `doRead` has one unit more than there are bytes in the buffer, and each round
-- takes at least four; the loop of `CheckLen` has as many units as the length, and each round brings the
-- size nearer to it; the loop of `getRandNewSession` has more units than there are sessions; the loops
-- that complete tasks have one unit more than the queue holds.
--
-- Integers: `int` and `long` are unbounded integers, and byte order is written out on 32-bit patterns;
-- where a sum or a product of the code could leave the range, the theorem has the bound or the
-- definition's comment names it. Memory that `new` returns holds any bytes.
--
-- Not modelled: what only calls the operating system - `setDaemonProcess`, `signalIgnore`,
-- oryx/SignalTool.h, logic/ServerMain.cpp, the helpers of oryx/common.h - and
-- clientTest/threadtest.cpp, an experiment with threads; logic/LoginAction.h, which has no body; the messages
-- that protoc generated in proto/pb, and the copy of the protocol buffers library in
-- proto/protocolbuf-windows, of which a message is a parameter. System calls answer with arguments of the
-- definitions. In a round of a thread each call of a queue is one step.
pub mod Common
pub mod Device
pub mod Frames
pub mod Task
pub mod Packet
pub mod SpscQueue
pub mod Thread
pub mod TaskCalls
pub mod ThreadManager
pub mod TimerControl
pub mod ClientConnManager
pub mod Listener
pub mod MessageHandler
pub mod PlayerManager
pub mod Epoll
pub mod Tests
pub mod LogManager
pub mod Server
pub mod Client
pub mod LogicThread
