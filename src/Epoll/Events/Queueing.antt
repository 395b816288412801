-- ===== src/Epoll/Events/Queueing.antt =====
-- The first part of `WritePacketToConn` (oryx/EpollHandler.cpp): queueing the packet and sending.
use oryxgame.Common.{
  ◌≡◌, refl, ◌∙◌, inl, inr, Bool, true, false, some, List, arith, if◌then◌else◌, Bool-cases, ltb,
}
use oryxgame.Common.Int.{ℤ}
use oryxgame.Common.Map.{find}
use oryxgame.Device.{Device, write}
use oryxgame.Task.{SendPacket}
use oryxgame.Epoll.Write.{Send, write_device}
use oryxgame.Epoll.State.{Address, Handler, load, store}
use oryxgame.Epoll.Devices.{get_device_by_fd}
use oryxgame.Epoll.Table.{TablesAgree}
use oryxgame.Epoll.Balance.{Balanced}
use oryxgame.Epoll.Events.{do_write, data_size, queue_packet}
use oryxgame.Epoll.Events.Steps.{
  SameKeys, write_device-SameKeys, write-SameKeys, stored, find-stored,
}
use oryxgame.Epoll.Events.Safety.{stored-TablesAgree}

abbrev pub was_queued : SendPacket → Device → Bool
was_queued t d = if ltb (write d t.packet).0 (data_size t.packet) then false else true

-- The device after the packet was queued, if it fits, and sent as far as the socket takes it.
abbrev pub after : List Send → SendPacket → Device → Device
after sends t d =
    if was_queued t d
    then (write_device sends (write d t.packet).1).device
    else (write d t.packet).1

abbrev pub went_well : List Send → SendPacket → Device → Bool
went_well sends t d =
    if was_queued t d then (write_device sends (write d t.packet).1).result else false

do_write-found :
    (sends : List Send) (fd : ℤ) (h : Handler) (p : Address) (d : Device)
    → find fd h.map_device_info ≡ some p
    → find p h.devices ≡ some d
    → do_write sends fd h
      ≡ some ((write_device sends d).result, stored h p (write_device sends d).device)
unfolding do_write get_device_by_fd load store
do_write-found sends fd h p d e here = ground (arith, e, here)

pub record Queued (sends : List Send) (t : SendPacket) (p : Address) (d : Device) (h h' : Handler)
    : Type 0 where
  pub done : queue_packet sends t p h ≡ some (went_well sends t d, h')
  pub agree : TablesAgree h'
  pub device : find p h'.devices ≡ some (after sends t d)
  pub keys : SameKeys d (after sends t d)
  pub main_queue : h'.main_queue ≡ h.main_queue
  pub sys_calls : h'.sys_calls ≡ h.sys_calls
  pub thread_id : h'.thread_id ≡ h.thread_id
  pub by_fd : h'.map_device_info ≡ h.map_device_info
  pub balanced : Balanced h h'

pub queue_packet-Queued :
    (sends : List Send) (t : SendPacket) (h : Handler) (p : Address) (d : Device)
    → TablesAgree h
    → find d.fd h.map_device_info ≡ some p
    → find p h.devices ≡ some d
    → (h' : Handler) × Queued sends t p d h h'
unfolding queue_packet load store
queue_packet-Queued sends t h p d v e here =
    elim (Bool-cases (ltb (write d t.packet).0 (data_size t.packet))) [
      | inl full ↦ (
        stored h p d1,
        record {
          done = ground (arith, here, full);
          agree = agree1;
          device = find-stored h p d1 ∙ rw full;
          keys = rw full keys1;
          main_queue = refl;
          sys_calls = refl;
          thread_id = refl;
          by_fd = refl;
          balanced = λ u. (u, refl);
        },
      )
      | inr room ↦ (
        stored (stored h p d1) p d2,
        record {
          done = ground (
            arith,
            here,
            room,
            do_write-found sends d.fd (stored h p d1) p d1 e (find-stored h p d1),
          );
          agree =
              stored-TablesAgree p d1 d2 agree1 (find-stored h p d1)
                (write_device-SameKeys sends d1);
          device = find-stored (stored h p d1) p d2 ∙ rw room;
          keys = rw room (
            (write_device-SameKeys sends d1).0 ∙ keys1.0,
            (write_device-SameKeys sends d1).1 ∙ keys1.1,
          );
          main_queue = refl;
          sys_calls = refl;
          thread_id = refl;
          by_fd = refl;
          balanced = λ u. (u, refl);
        },
      )
    ]
  where
    d1 : Device
    d1 = (write d t.packet).1

    d2 : Device
    d2 = (write_device sends d1).device

    keys1 : SameKeys d d1
    keys1 = write-SameKeys d t.packet

    agree1 : TablesAgree (stored h p d1)
    agree1 = stored-TablesAgree p d d1 v here keys1
