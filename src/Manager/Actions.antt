-- ===== src/Manager/Actions.antt =====
-- server/device.cpp and server/dev_manager.cpp: the requests that name one device, in
-- DevManager::run, and Device::print.
use device.Base.{
  ℕ, none, some, List, [], ◌∷◌, ◌++◌, ◌==◌, length, if◌then◌else◌, Bytes, text, newline, beq,
  Result, ok, err, crash, Exec,
}
use device.Map.{number_key, bytes_key, has, lookup, insert}
use device.Device.{
  Drivers, Device, use_device, release, close, lock, unlock, log_start, log_finish, log_get, ask,
  reset_drv,
}
use device.Manager.{Libs, Manager}

opt_lines : List (Bytes × Bytes) → Bytes
opt_lines [] = []
opt_lines ((k, v) ∷ os) = text "  -" ++ k ++ text ": " ++ v ++ newline ∷ opt_lines os

module _ {Opt Drv World : Type 0} (libs : Libs Opt World) where
  -- Device::print
  unfoldable pub print : ℕ → Device Opt Drv → Bytes
  unfolding opt_lines
  print conn d =
      text "Device: "
      ++ d.dev_name
      ++ newline ∷ text "Driver: "
      ++ d.drv_name
      ++ newline
        ∷ (if length (libs.opt_entries d.drv_args) == 0
            then []
            else text "Driver arguments:" ++ newline ∷ [])
      ++ opt_lines (libs.opt_entries d.drv_args)
      ++ text "Device is "
      ++ (if length d.users == 0 then text "closed" else text "open")
      ++ newline ∷ text "Number of users: "
      ++ libs.show (length d.users)
      ++ newline
        ∷ (if conn == 0
            then []
            else if has conn d.users
            then text "You are currently using the device" ++ newline ∷ []
            else [])
      ++ (if d.locked then text "Device is locked" ++ newline ∷ [] else [])

-- What a request does to one device.
pub data DeviceAction : Type 0 where
  asks uses releases locks unlocks log_starts log_finishes log_gets infos closes : DeviceAction

pub data Action : Type 0 where
  on_device : DeviceAction → Action
  devices reload ping get_time set_name get_name list_names release_all : Action
  unknown : Action

-- The chain of tests on the first part of the URL.
unfoldable pub action_of : Bytes → Action
action_of act =
    if beq act (text "ask")
    then on_device asks
    else if beq act (text "use")
    then on_device uses
    else if beq act (text "release")
    then on_device releases
    else if beq act (text "lock")
    then on_device locks
    else if beq act (text "unlock")
    then on_device unlocks
    else if beq act (text "log_start")
    then on_device log_starts
    else if beq act (text "log_finish")
    then on_device log_finishes
    else if beq act (text "log_get")
    then on_device log_gets
    else if beq act (text "info")
    then on_device infos
    else if beq act (text "devices")
    then devices
    else if beq act (text "list")
    then devices
    else if beq act (text "reload")
    then reload
    else if beq act (text "close")
    then on_device closes
    else if beq act (text "ping")
    then ping
    else if beq act (text "get_time")
    then get_time
    else if beq act (text "set_conn_name")
    then set_name
    else if beq act (text "get_conn_name")
    then get_name
    else if beq act (text "list_conn_names")
    then list_names
    else if beq act (text "release_all")
    then release_all
    else unknown

abbrev pub no_text : {S : Type 0} → Result (Unit {0}) × S → Result Bytes × S
no_text (ok a, s) = (ok [], s)
no_text (err e, s) = (err e, s)
no_text (crash, s) = (crash, s)

module _ {Opt Drv World : Type 0} (libs : Libs Opt World) (drivers : Drivers Opt Drv World) where
  -- The call on the device, and the text of the answer.
  unfoldable pub call_device : DeviceAction → ℕ → Bytes → Exec (Device Opt Drv × World) Bytes
  call_device asks conn msg s = ask drivers conn msg s
  call_device uses conn msg s = no_text (use_device drivers conn s)
  call_device releases conn msg (d, w) = (ok [], (release conn d, w))
  call_device locks conn msg s = no_text (lock drivers conn s)
  call_device unlocks conn msg (d, w) = let (r, d') = no_text (unlock conn d) in (r, (d', w))
  call_device log_starts conn msg (d, w) = (ok [], (log_start conn d, w))
  call_device log_finishes conn msg (d, w) = (ok [], (log_finish conn d, w))
  call_device log_gets conn msg (d, w) = let (r, d') = log_get conn d in (r, (d', w))
  call_device infos conn msg (d, w) = (ok (print libs conn d), (d, w))
  call_device closes conn msg (d, w) = (ok [], (close d, reset_drv drivers d w))

  unfoldable pub put_back :
      Bytes
      → Manager Opt Drv
      → Result Bytes × (Device Opt Drv × World)
      → Result Bytes × (Manager Opt Drv × World)
  put_back name m (r, (d, w)) = (r, (record m { devices = insert name d m.devices }, w))

  -- The name is checked, the device is found, and the call is made on it.
  unfoldable pub run_device :
      DeviceAction → Bytes → Bytes → Bytes → ℕ → Exec (Manager Opt Drv × World) Bytes
  unfolding put_back
  run_device action url arg msg conn (m, w) = elim arg [
    | [] ↦ (err (text "device name expected: " ++ url), (m, w))
    | c ∷ cs ↦ elim (lookup (c ∷ cs) m.devices) [
      | none ↦ (err (text "unknown device: " ++ c ∷ cs), (m, w))
      | some d ↦ put_back (c ∷ cs) m (call_device action conn msg (d, w))
    ]
  ]
