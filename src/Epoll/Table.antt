-- ===== src/Epoll/Table.antt =====
-- The two tables of devices (oryx/EpollHandler.cpp) and `addDevice`.
use oryxgame.Common.{
  ℕ, ◌+◌, ◌≤◌, ◌≡◌, ◌≢◌, refl, sym, ap, ◌∙◌, ◌⊎◌, inl, inr, true, false, none, some, arith,
  if◌then◌else◌, Bool-cases, Option-cases,
}
use oryxgame.Common.Int.{ℤ, pos, ◌+ℤ◌, eqb_ℤ, eqb_ℤ_iff, eqb_ℤ_refl}
use oryxgame.Common.Map.{find, insert, find-insert}
use oryxgame.Device.{Device, DeviceType, SockAddr, device_info}
use oryxgame.Epoll.State.{Address, Handler, new_device, add_pressure}
use oryxgame.Epoll.Devices.{get_device_by_fd, get_device_by_session, add_device}

pub record TablesAgree (h : Handler) : Type 0 where
  pub by_fd :
      (fd : ℤ) (p : Address)
      → find fd h.map_device_info ≡ some p
      → (d : Device) × (find p h.devices ≡ some d)
        × (d.fd ≡ fd)
        × (find d.session_id h.map_device_session_info ≡ some p)
  pub by_session :
      (session : ℤ) (p : Address)
      → find session h.map_device_session_info ≡ some p
      → (d : Device) × (find p h.devices ≡ some d)
        × (d.session_id ≡ session)
        × (find d.fd h.map_device_info ≡ some p)
  pub unused : (n : ℕ) → h.next_device ≤ n → find (pos n) h.devices ≡ none

-- The device that `addDevice` makes, and the tables that it leaves.
abbrev pub made : Device → ℤ → ℤ → DeviceType → SockAddr → Device
made raw fd session type addr = record (device_info raw type) {
  fd = fd;
  session_id = session;
  sock_addr = addr;
}

abbrev pub added : Handler → Device → Handler
added h d = record h {
  pressure = h.pressure +ℤ pos 1;
  devices = insert (pos h.next_device) d h.devices;
  next_device = h.next_device + 1;
  map_device_info = insert d.fd (pos h.next_device) h.map_device_info;
  map_device_session_info = insert d.session_id (pos h.next_device) h.map_device_session_info;
}

-- An address in use is not the next one.
older :
    {h : Handler} (p : Address) (d : Device)
    → TablesAgree h
    → find p h.devices ≡ some d
    → eqb_ℤ (pos h.next_device) p ≡ false
older {h} p d v e = elim (Bool-cases (eqb_ℤ (pos h.next_device) p)) [
  | inr differ ↦ differ
  | inl same ↦
      let equal : pos h.next_device ≡ p = (eqb_ℤ_iff (pos h.next_device) p).0 same in
      absurd
        (ground (arith, e, v.unused h.next_device (omega arith), ap (λ q. find q h.devices) equal))
]

module _ {h : Handler} (d : Device) (v : TablesAgree h)
    (free_session : find d.session_id h.map_device_session_info ≡ none)
    (free_fd : find d.fd h.map_device_info ≡ none) where
  new_address : Address
  new_address = pos h.next_device

  found_new : find (pos h.next_device) (added h d).devices ≡ some d
  found_new =
      find-insert (pos h.next_device) (pos h.next_device) d h.devices
      ∙ rw (eqb_ℤ_refl (pos h.next_device))

  found_old :
      (p : Address) (old : Device)
      → find p h.devices ≡ some old
      → find p (added h d).devices ≡ some old
  found_old p old e =
      ground (arith, find-insert (pos h.next_device) p d h.devices, older p old v e, e)

  added_by_fd :
      (fd : ℤ) (p : Address)
      → find fd (added h d).map_device_info ≡ some p
      → (d' : Device) × (find p (added h d).devices ≡ some d')
        × (d'.fd ≡ fd)
        × (find d'.session_id (added h d).map_device_session_info ≡ some p)
  added_by_fd fd p e =
      let table = find-insert d.fd fd (pos h.next_device) h.map_device_info in
      elim (Bool-cases (eqb_ℤ d.fd fd)) [
        | inl same ↦
            let new : pos h.next_device ≡ p = ground (arith, e, same, table) in
            (
              d,
              ap (λ q. find q (added h d).devices) (sym new) ∙ found_new,
              (eqb_ℤ_iff d.fd fd).0 same,
              find-insert d.session_id d.session_id (pos h.next_device) h.map_device_session_info
                  ∙ rw (eqb_ℤ_refl d.session_id) (ap some new),
            )
        | inr other ↦
            let old : find fd h.map_device_info ≡ some p = ground (arith, e, other, table) in
            let (d', here, own, back) = v.by_fd fd p old in
            let sessions =
              find-insert d.session_id d'.session_id (pos h.next_device)
                h.map_device_session_info in
            (
              d',
              found_old p d' here,
              own,
              elim (Bool-cases (eqb_ℤ d.session_id d'.session_id)) [
                | inl clash ↦
                    let used : find d.session_id h.map_device_session_info ≡ some p =
                      ap (λ s. find s h.map_device_session_info)
                        ((eqb_ℤ_iff d.session_id d'.session_id).0 clash)
                      ∙ back in
                    absurd (ground (arith, used, free_session))
                | inr apart ↦ ground (arith, sessions, apart, back)
              ],
            )
      ]

  added_by_session :
      (session : ℤ) (p : Address)
      → find session (added h d).map_device_session_info ≡ some p
      → (d' : Device) × (find p (added h d).devices ≡ some d')
        × (d'.session_id ≡ session)
        × (find d'.fd (added h d).map_device_info ≡ some p)
  added_by_session session p e =
      let table = find-insert d.session_id session (pos h.next_device) h.map_device_session_info in
      elim (Bool-cases (eqb_ℤ d.session_id session)) [
        | inl same ↦
            let new : pos h.next_device ≡ p = ground (arith, e, same, table) in
            (
              d,
              ap (λ q. find q (added h d).devices) (sym new) ∙ found_new,
              (eqb_ℤ_iff d.session_id session).0 same,
              find-insert d.fd d.fd (pos h.next_device) h.map_device_info
                  ∙ rw (eqb_ℤ_refl d.fd) (ap some new),
            )
        | inr other ↦
            let old : find session h.map_device_session_info ≡ some p =
              ground (arith, e, other, table) in
            let (d', here, own, back) = v.by_session session p old in
            let fds = find-insert d.fd d'.fd (pos h.next_device) h.map_device_info in
            (
              d',
              found_old p d' here,
              own,
              elim (Bool-cases (eqb_ℤ d.fd d'.fd)) [
                | inl clash ↦
                    let used : find d.fd h.map_device_info ≡ some p =
                      ap (λ fd. find fd h.map_device_info) ((eqb_ℤ_iff d.fd d'.fd).0 clash)
                      ∙ back in
                    absurd (ground (arith, used, free_fd))
                | inr apart ↦ ground (arith, fds, apart, back)
              ],
            )
      ]

  pub added-TablesAgree : TablesAgree (added h d)
  added-TablesAgree = record {
    by_fd = added_by_fd;
    by_session = added_by_session;
    unused =
        λ n k. find-insert (pos h.next_device) (pos n) d h.devices ∙ ground (arith, v.unused n);
  }

-- What `addDevice` does to the tables.
pub record Added (h : Handler) (fd session : ℤ) (d : Device) (h' : Handler) : Type 0 where
  pub agree : TablesAgree h'
  pub pressure : h'.pressure ≡ h.pressure +ℤ pos 1
  pub by_fd :
      (k : ℤ)
      → find k h'.map_device_info
        ≡ (if eqb_ℤ fd k then some (pos h.next_device) else find k h.map_device_info)
  pub by_session :
      (k : ℤ)
      → find k h'.map_device_session_info
        ≡ (if eqb_ℤ session k then some (pos h.next_device) else find k h.map_device_session_info)
  pub device : find (pos h.next_device) h'.devices ≡ some d
  pub other_devices : (p : Address) → pos h.next_device ≢ p → find p h'.devices ≡ find p h.devices

pub add_device-added :
    (h : Handler) (raw : Device) (fd session : ℤ) (type : DeviceType) (addr : SockAddr)
    → find session h.map_device_session_info ≡ none
    → find fd h.map_device_info ≡ none
    → add_device raw fd session type addr h ≡ some (true, added h (made raw fd session type addr))
unfolding add_device get_device_by_session get_device_by_fd new_device add_pressure device_info
add_device-added h raw fd session type addr free_session free_fd =
    ground (arith, free_session, free_fd)

pub add_device-known :
    (h : Handler) (raw : Device) (fd session : ℤ) (type : DeviceType) (addr : SockAddr)
    (p : Address)
    → (find session h.map_device_session_info ≡ some p) ⊎ (find fd h.map_device_info ≡ some p)
    → add_device raw fd session type addr h ≡ some (false, h)
unfolding add_device get_device_by_session get_device_by_fd
add_device-known h raw fd session type addr p (inl used) = ground (arith, used)
add_device-known h raw fd session type addr p (inr used) =
    elim (Option-cases (find session h.map_device_session_info)) [
      | inl free ↦ ground (arith, used, free)
      | inr (q, taken) ↦ ground (arith, used, taken)
    ]

-- `addDevice` on tables that agree: if the session or the descriptor is in use it returns false and
-- changes nothing; otherwise it returns true, both tables name one new device with them, the other
-- entries and devices stay, the pressure grows by one, and the tables agree.
pub add_device_lem :
    {h : Handler} (raw : Device) (fd session : ℤ) (type : DeviceType) (addr : SockAddr)
    → TablesAgree h
    → ((add_device raw fd session type addr h ≡ some (false, h))
        × ((p : Address) × ((find session h.map_device_session_info ≡ some p)
              ⊎ (find fd h.map_device_info ≡ some p))))
      ⊎ ((h' : Handler) × (add_device raw fd session type addr h ≡ some (true, h'))
          × Added h fd session (made raw fd session type addr) h')
unfolding device_info
add_device_lem {h} raw fd session type addr v =
    elim (Option-cases (find session h.map_device_session_info)) [
      | inr (p, used) ↦
          inl (add_device-known h raw fd session type addr p (inl used), (p, inl used))
      | inl free_session ↦ elim (Option-cases (find fd h.map_device_info)) [
        | inr (p, used) ↦
            inl (add_device-known h raw fd session type addr p (inr used), (p, inr used))
        | inl free_fd ↦
            let d = made raw fd session type addr in
            inr (
              added h d,
              add_device-added h raw fd session type addr free_session free_fd,
              record {
                agree = added-TablesAgree d v free_session free_fd;
                pressure = refl;
                by_fd = λ k. find-insert fd k (pos h.next_device) h.map_device_info;
                by_session =
                    λ k. find-insert session k (pos h.next_device) h.map_device_session_info;
                device = found_new d v free_session free_fd;
                other_devices = λ p other.
                    find-insert (pos h.next_device) p d h.devices
                    ∙ ground (arith, other, eqb_ℤ_iff (pos h.next_device) p);
              },
            )
      ]
    ]
