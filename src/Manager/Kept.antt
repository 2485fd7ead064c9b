-- ===== src/Manager/Kept.antt =====
-- server/dev_manager.cpp: predicates on the map of devices, through every method of the manager.
use device.Base.{
  ℕ, ◌≡◌, refl, Option, none, some, List, [], ◌∷◌, arith, Bytes, Result, ok, err, crash, inl, inr,
  Option-cases, Exec,
}
use device.Map.{Map, bytes_key, lookup, insert}
use device.Device.{Drivers, Device}
use device.Manager.{Libs, ConfLine, Manager}
use device.Manager.Actions.{
  DeviceAction, Action, on_device, devices, reload, ping, get_time, set_name, get_name, list_names,
  unknown, action_of, no_text, call_device, run_device,
}
use device.Manager.Conf.{read_lines, copy_all, read_opened, applied, read_conf}
use device.Manager.Names
use device.Manager.Names.{release_each, set_conn_name, get_conn_name, conn_open, conn_close}
use device.Manager.Run.{no_argument, reloaded, run_action, run, reread}
use device.Manager.Url.{parse_url}

module _ {Opt Drv World : Type 0} (libs : Libs Opt World)
    (P : Map Bytes (Device Opt Drv) → Type 0) where
  pub record IsKept : Type 0 where
    pub released : (conn : ℕ) (ds : Map Bytes (Device Opt Drv)) → P ds → P (release_each conn ds)
    pub read :
        (f : Bytes) (ls : List ConfLine) (ds : Map Bytes (Device Opt Drv))
        → read_lines libs f ls [] ≡ ok ds
        → P (copy_all ds)

  module _ (kept : IsKept) where
    read_opened_stays :
        (f : Option (List ConfLine)) (m : Manager Opt Drv) (w : World)
        → P m.devices
        → P (read_opened libs f (m, w)).1.0.devices
    unfolding read_opened
    read_opened_stays none m w p = p
    read_opened_stays (some ls) m w p = go (read_lines libs m.devfile ls []) refl
      where
        go :
            (r : Result (Map Bytes (Device Opt Drv)))
            → read_lines libs m.devfile ls [] ≡ r
            → P (applied libs r (m, w)).1.0.devices
        go (ok ds) h = kept.read m.devfile ls ds h
        go (err e) h = p
        go crash h = p

    pub read_conf_stays :
        (m : Manager Opt Drv) (w : World) → P m.devices → P (read_conf libs (m, w)).1.0.devices
    unfolding read_conf
    read_conf_stays m w p =
        read_opened_stays (libs.read_file m.devfile w).0 m (libs.read_file m.devfile w).1 p

    pub conn_close_stays :
        (conn : ℕ) (m : Manager Opt Drv) → P m.devices → P (conn_close conn m).devices
    unfolding conn_close
    conn_close_stays conn m p = kept.released conn m.devices p

  -- The names of connections are apart from the devices.
  set_conn_name_stays :
      (conn : ℕ) (name : Bytes) (m : Manager Opt Drv) (w : World)
      → P m.devices
      → P (set_conn_name libs conn name (m, w)).1.0.devices
  unfolding set_conn_name
  set_conn_name_stays conn name m w p = ground arith

  pub conn_open_stays :
      (conn : ℕ) (m : Manager Opt Drv) (w : World)
      → P m.devices
      → P (conn_open libs conn (m, w)).1.0.devices
  unfolding conn_open
  conn_open_stays conn m w p = set_conn_name_stays conn [] m w p

  get_conn_name_stays :
      (conn : ℕ) (m : Manager Opt Drv) (w : World)
      → P m.devices
      → P (get_conn_name conn (m, w)).1.0.devices
  unfolding get_conn_name
  get_conn_name_stays conn m w p = ground arith

pub no_text-state :
    {S : Type 0} (P : S → Type 0) (r : Result (Unit {0}) × S) → P r.1 → P (no_text r).1
no_text-state P (ok a, s) h = h
no_text-state P (err e, s) h = h
no_text-state P (crash, s) h = h

module _ {Opt Drv World : Type 0} (libs : Libs Opt World) (drivers : Drivers Opt Drv World)
    (P : Map Bytes (Device Opt Drv) → Type 0) (kept : IsKept libs P)
    (called : (a : DeviceAction) (conn : ℕ) (msg n : Bytes) (d : Device Opt Drv)
        (ds : Map Bytes (Device Opt Drv)) (w : World)
      → lookup n ds ≡ some d
      → P ds
      → P (insert n (call_device libs drivers a conn msg (d, w)).1.0 ds)) where
  run_device_stays :
      (a : DeviceAction) (url arg msg : Bytes) (conn : ℕ) (m : Manager Opt Drv) (w : World)
      → P m.devices
      → P (run_device libs drivers a url arg msg conn (m, w)).1.0.devices
  unfolding run_device
  run_device_stays a url [] msg conn m w p = p
  run_device_stays a url (c ∷ cs) msg conn m w p = elim (Option-cases (lookup (c ∷ cs) m.devices)) [
    | inl e ↦ rw (e, run_device) p
    | inr (d, e) ↦ rw (e, run_device) (called a conn msg (c ∷ cs) d m.devices w e p)
  ]

  no_argument_stays :
      (arg shown : Bytes) (f : Exec (Manager Opt Drv × World) Bytes) (m : Manager Opt Drv)
      (w : World)
      → P m.devices
      → P (f (m, w)).1.0.devices
      → P (no_argument arg shown f (m, w)).1.0.devices
  no_argument_stays [] shown f m w p q = q
  no_argument_stays (c ∷ cs) shown f m w p q = p

  reloaded_stays :
      (r : Result (Unit {0}) × (Manager Opt Drv × World))
      → P r.1.0.devices
      → P (reloaded libs drivers r).1.0.devices
  unfolding reloaded
  reloaded_stays (ok a, s) p = p
  reloaded_stays (err e, s) p = p
  reloaded_stays (crash, s) p = p

  release_all_stays :
      (conn : ℕ) (m : Manager Opt Drv) (w : World)
      → P m.devices
      → P (Names.release_all libs conn (m, w)).1.0.devices
  unfolding Names.release_all
  release_all_stays conn m w p =
      set_conn_name_stays libs P conn [] (record m { devices = release_each conn m.devices }) w
        (kept.released conn m.devices p)

  run_action_stays :
      (a : Action) (url act arg msg : Bytes) (conn : ℕ) (m : Manager Opt Drv) (w : World)
      → P m.devices
      → P (run_action libs drivers a url act arg msg conn (m, w)).1.0.devices
  unfolding run_action reread
  run_action_stays (on_device a) url act arg msg conn m w p =
      run_device_stays a url arg msg conn m w p
  run_action_stays devices url act arg msg conn m w p = no_argument_stays arg url _ m w p p
  run_action_stays reload url act arg msg conn m w p =
      reloaded_stays (reread libs drivers (m, w)) (read_conf_stays libs P kept m w p)
  run_action_stays ping url act arg msg conn m w p = p
  run_action_stays get_time url act arg msg conn m w p = no_argument_stays arg url _ m w p p
  run_action_stays set_name url act arg msg conn m w p = no_argument_stays msg msg _ m w p (
      no_text-state (λ t. P t.0.devices) (set_conn_name libs conn arg (m, w))
        (set_conn_name_stays libs P conn arg m w p))
  run_action_stays get_name url act arg msg conn m w p =
      no_argument_stays arg arg _ m w p (get_conn_name_stays libs P conn m w p)
  run_action_stays list_names url act arg msg conn m w p = no_argument_stays arg arg _ m w p p
  run_action_stays Action.release_all url act arg msg conn m w p =
      no_argument_stays arg arg _ m w p (
        no_text-state (λ t. P t.0.devices) (Names.release_all libs conn (m, w))
          (release_all_stays conn m w p))
  run_action_stays unknown url act arg msg conn m w p = p

  -- A request, whatever it is and however it ends.
  pub run_stays :
      (url : Bytes) (conn : ℕ) (m : Manager Opt Drv) (w : World)
      → P m.devices
      → P (run libs drivers url conn (m, w)).1.0.devices
  unfolding run
  run_stays url conn m w p =
      let u = parse_url url in run_action_stays (action_of u.act) url u.act u.arg u.msg conn m w p
