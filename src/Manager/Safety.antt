-- ===== src/Manager/Safety.antt =====
-- DevManager::run of server/dev_manager.cpp: no request runs into undefined behaviour.
use device.Base.{
  ℕ, ◌≢◌, refl, [], ◌∷◌, arith, Bytes, Result, ok, err, crash, inl, inr, Option-cases, Exec,
}
use device.Map.{bytes_key, lookup}
use device.Device.{Drivers, Device, unlock, log_get}
use device.Device.Invariant.{IsSound}
use device.Device.Safety.{NoCrash, use_device_safe, lock_safe, ask_safe}
use device.Manager.{Libs, Manager}
use device.Manager.Actions.{
  DeviceAction, asks, uses, locks, unlocks, log_gets, Action, on_device, devices, reload, get_time,
  set_name, get_name, list_names, action_of, no_text, call_device, run_device,
}
use device.Manager.Names
use device.Manager.Names.{release_each, set_conn_name, get_conn_name, conn_open, conn_close}
use device.Manager.Run.{no_argument, reloaded, run_action, run, reread}
use device.Manager.Url.{parse_url}
use device.Manager.Soundness.{Sound, lookup-AllSound}
use device.Manager.Failure.{read_conf_safe}

no_text_safe : {S : Type 0} (r : Result (Unit {0}) × S) → r.0 ≢ crash → (no_text r).0 ≢ crash
no_text_safe (ok a, s) h e = cc
no_text_safe (err m, s) h e = cc
no_text_safe (crash, s) h e = h refl

module _ {Opt Drv World : Type 0} (libs : Libs Opt World) (drivers : Drivers Opt Drv World)
    (safe : NoCrash drivers) where
  call_device_safe :
      (a : DeviceAction) (conn : ℕ) (msg : Bytes) (d : Device Opt Drv) (w : World)
      → IsSound d
      → (call_device libs drivers a conn msg (d, w)).0 ≢ crash
  unfolding call_device
  call_device_safe asks conn msg d w v = ask_safe drivers safe conn msg d w v
  call_device_safe uses conn msg d w v = no_text_safe _ (use_device_safe drivers safe conn d w)
  call_device_safe locks conn msg d w v = no_text_safe _ (lock_safe drivers safe conn d w)
  call_device_safe unlocks conn msg d w v =
      no_text_safe (unlock conn d) (unfold unlock in ground arith)
  call_device_safe log_gets conn msg d w v = unfold log_get in ground arith
  call_device_safe _ conn msg d w v = λ e. cc

  run_device_safe :
      (a : DeviceAction) (url arg msg : Bytes) (conn : ℕ) (m : Manager Opt Drv) (w : World)
      → Sound m
      → (run_device libs drivers a url arg msg conn (m, w)).0 ≢ crash
  unfolding run_device
  run_device_safe a url [] msg conn m w s = λ e. cc
  run_device_safe a url (c ∷ cs) msg conn m w s = elim (Option-cases (lookup (c ∷ cs) m.devices)) [
    | inl e ↦ rw (e, run_device) (λ k. cc)
    | inr (d, e) ↦
        rw (e, run_device)
          (call_device_safe a conn msg d w (lookup-AllSound (c ∷ cs) d m.devices s e))
  ]

  no_argument_safe :
      (arg shown : Bytes) (f : Exec (Manager Opt Drv × World) Bytes) (s : Manager Opt Drv × World)
      → (f s).0 ≢ crash
      → (no_argument arg shown f s).0 ≢ crash
  no_argument_safe [] shown f s h = h
  no_argument_safe (c ∷ cs) shown f s h = λ e. cc

  set_conn_name_safe :
      (conn : ℕ) (n : Bytes) (m : Manager Opt Drv) (w : World)
      → (set_conn_name libs conn n (m, w)).0 ≢ crash
  unfolding set_conn_name
  set_conn_name_safe conn n m w = ground arith

  release_all_safe :
      (conn : ℕ) (m : Manager Opt Drv) (w : World) → (Names.release_all libs conn (m, w)).0 ≢ crash
  unfolding Names.release_all
  release_all_safe conn m w =
      set_conn_name_safe conn [] (record m { devices = release_each conn m.devices }) w

  reloaded_safe :
      (r : Result (Unit {0}) × (Manager Opt Drv × World))
      → r.0 ≢ crash
      → (reloaded libs drivers r).0 ≢ crash
  unfolding reloaded
  reloaded_safe (ok a, s) h e = cc
  reloaded_safe (err m, s) h e = cc
  reloaded_safe (crash, s) h e = h refl

  run_action_safe :
      (a : Action) (url act arg msg : Bytes) (conn : ℕ) (m : Manager Opt Drv) (w : World)
      → Sound m
      → (run_action libs drivers a url act arg msg conn (m, w)).0 ≢ crash
  unfolding run_action reread
  run_action_safe (on_device a) url act arg msg conn m w s =
      run_device_safe a url arg msg conn m w s
  run_action_safe reload url act arg msg conn m w s =
      reloaded_safe (reread libs drivers (m, w)) (read_conf_safe libs m w)
  run_action_safe set_name url act arg msg conn m w s =
      no_argument_safe msg msg _ (m, w) (no_text_safe _ (set_conn_name_safe conn arg m w))
  run_action_safe get_name url act arg msg conn m w s =
      no_argument_safe arg arg _ (m, w) (unfold get_conn_name in ground arith)
  run_action_safe Action.release_all url act arg msg conn m w s =
      no_argument_safe arg arg _ (m, w) (no_text_safe _ (release_all_safe conn m w))
  run_action_safe devices url act arg msg conn m w s = no_argument_safe arg url _ (m, w) (λ e. cc)
  run_action_safe get_time url act arg msg conn m w s = no_argument_safe arg url _ (m, w) (λ e. cc)
  run_action_safe list_names url act arg msg conn m w s =
      no_argument_safe arg arg _ (m, w) (λ e. cc)
  run_action_safe _ url act arg msg conn m w s = λ e. cc

  -- If the drivers themselves do not crash, no request on a manager whose devices are sound runs into
  -- undefined behaviour: it ends with an answer or with an error.
  pub run_safe :
      (url : Bytes) (conn : ℕ) (m : Manager Opt Drv) (w : World)
      → Sound m
      → (run libs drivers url conn (m, w)).0 ≢ crash
  unfolding run
  run_safe url conn m w s =
      let u = parse_url url in run_action_safe (action_of u.act) url u.act u.arg u.msg conn m w s
