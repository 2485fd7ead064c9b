-- ===== src/Manager/Serving.antt =====
-- DevManager::run of server/dev_manager.cpp: what requests keep true of every device.
use device.Base.{ℕ, ◌≡◌, some, Bytes}
use device.Map.{Map, bytes_key, lookup, insert}
use device.Device.{Drivers, Device, unlock, use_device, lock}
use device.Device.Invariant.{
  IsSound, release-IsSound, close-IsSound, unlock-IsSound, log_start-IsSound, log_finish-IsSound,
  log_get-IsSound, use_device-IsSound, lock-IsSound, ask-IsSound,
}
use device.Manager.{Libs, Manager}
use device.Manager.Actions.{
  DeviceAction, asks, uses, releases, locks, unlocks, log_starts, log_finishes, log_gets, infos,
  closes, call_device,
}
use device.Manager.Kept.{no_text-state, run_stays}
use device.Manager.Run.{run}
use device.Manager.Soundness.{Sound, AllSound, AllSound-IsKept, insert-AllSound, lookup-AllSound}

module _ {Opt Drv World : Type 0} (libs : Libs Opt World) (drivers : Drivers Opt Drv World) where
  pub call_device-IsSound :
      (a : DeviceAction) (conn : ℕ) (msg : Bytes) (d : Device Opt Drv) (w : World)
      → IsSound d
      → IsSound (call_device libs drivers a conn msg (d, w)).1.0
  unfolding call_device
  call_device-IsSound asks conn msg d w v = ask-IsSound drivers conn msg d w v
  call_device-IsSound uses conn msg d w v =
      no_text-state (λ s. IsSound s.0) (use_device drivers conn (d, w))
        (use_device-IsSound drivers conn d w v)
  call_device-IsSound releases conn msg d w v = release-IsSound conn d v
  call_device-IsSound locks conn msg d w v =
      no_text-state (λ s. IsSound s.0) (lock drivers conn (d, w)) (lock-IsSound drivers conn d w v)
  call_device-IsSound unlocks conn msg d w v =
      no_text-state IsSound (unlock conn d) (unlock-IsSound conn d v)
  call_device-IsSound log_starts conn msg d w v = log_start-IsSound conn d v
  call_device-IsSound log_finishes conn msg d w v = log_finish-IsSound conn d v
  call_device-IsSound log_gets conn msg d w v = log_get-IsSound conn d v
  call_device-IsSound infos conn msg d w v = v
  call_device-IsSound closes conn msg d w v = close-IsSound d

  pub call_device-AllSound :
      (a : DeviceAction) (conn : ℕ) (msg n : Bytes) (d : Device Opt Drv)
      (ds : Map Bytes (Device Opt Drv)) (w : World)
      → lookup n ds ≡ some d
      → AllSound ds
      → AllSound (insert n (call_device libs drivers a conn msg (d, w)).1.0 ds)
  call_device-AllSound a conn msg n d ds w e s =
      insert-AllSound n _ ds (call_device-IsSound a conn msg d w (lookup-AllSound n d ds s e)) s

  -- A request, whatever it is and however it ends, keeps every device sound.
  pub run-Sound :
      (url : Bytes) (conn : ℕ) (m : Manager Opt Drv) (w : World)
      → Sound m
      → Sound (run libs drivers url conn (m, w)).1.0
  run-Sound = run_stays libs drivers AllSound (AllSound-IsKept libs) call_device-AllSound
