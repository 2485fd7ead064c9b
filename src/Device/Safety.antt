-- ===== src/Device/Safety.antt =====
-- server/device.cpp: `drv->ask` is never reached through a null pointer.
use device.Base.{
  ℕ, ◌≡◌, ◌≢◌, refl, none, arith, ◌==◌, length, Bytes, Result, ok, err, crash, inl, inr, Bool-cases,
  Option-cases, text, continue,
}
use device.Map.{number_key}
use device.Device.{
  Drivers, Device, log_message, use_device, use_if_needed, lock, ask_driver, log_answer, ask_logged,
  ask,
}
use device.Device.Invariant.{IsSound, has_nil}

-- Neither opening a device nor asking an open one runs into undefined behaviour.
pub record NoCrash {Opt Drv World : Type 0} (drivers : Drivers Opt Drv World) : Type 0 where
  pub create : (n : Bytes) (o : Opt) (w : World) → (drivers.create n o w).0 ≢ crash
  pub ask : (h : Drv) (m : Bytes) (w : World) → (drivers.ask h m w).0 ≢ crash

module _ {Opt Drv World : Type 0} (drivers : Drivers Opt Drv World) (safe : NoCrash drivers) where
  pub use_device_safe :
      (conn : ℕ) (d : Device Opt Drv) (w : World) → (use_device drivers conn (d, w)).0 ≢ crash
  unfolding use_device
  use_device_safe conn d w = ground (arith, safe.create d.drv_name d.drv_args w)

  -- After a successful `use` the device has a driver.
  use_if_needed-drv :
      (conn : ℕ) (d : Device Opt Drv) (w : World)
      → IsSound d
      → (use_if_needed drivers conn (d, w)).0 ≡ ok tt
      → (use_if_needed drivers conn (d, w)).1.0.drv ≢ none
  unfolding use_if_needed use_device
  use_if_needed-drv conn d w v = ground (arith, has_nil conn d.users)

  ask_driver_safe :
      (msg : Bytes) (d : Device Opt Drv) (w : World)
      → d.drv ≢ none
      → (ask_driver drivers msg (d, w)).0 ≢ crash
  unfolding ask_driver
  ask_driver_safe msg d w h = elim (Option-cases d.drv) [
    | inl e ↦ absurd (h e)
    | inr (x, e) ↦ rw (e, ask_driver) (safe.ask x msg w)
  ]

  pub drv-log_message :
      (pref msg : Bytes) (d : Device Opt Drv) → (log_message pref msg d).drv ≡ d.drv
  unfolding log_message
  drv-log_message pref msg d = ground arith

  log_answer_safe :
      (s : Result Bytes × (Device Opt Drv × World)) → s.0 ≢ crash → (log_answer drivers s).0 ≢ crash
  unfolding log_answer
  log_answer_safe (ok ret, (d, w)) h e = cc
  log_answer_safe (err m, (d, w)) h e = cc
  log_answer_safe (crash, s) h e = h refl

  pub ask_logged_safe :
      (msg : Bytes) (d : Device Opt Drv) (w : World)
      → d.drv ≢ none
      → (ask_logged drivers msg (d, w)).0 ≢ crash
  unfolding ask_logged
  ask_logged_safe msg d w h = elim (Bool-cases (length d.log_bufs == 0)) [
    | inl off ↦ rw off (ask_driver_safe msg d w h)
    | inr on ↦ rw on (
        log_answer_safe _ (
          ask_driver_safe msg (log_message (text ">> ") msg d) w
            (rw (drv-log_message (text ">> ") msg d) h)))
  ]

  use_if_needed_safe :
      (conn : ℕ) (d : Device Opt Drv) (w : World) → (use_if_needed drivers conn (d, w)).0 ≢ crash
  unfolding use_if_needed
  use_if_needed_safe conn d w = ground (arith, use_device_safe conn d w)

  -- If the drivers themselves do not crash, `ask` on a sound device does not dereference a null
  -- driver pointer, whoever calls it.
  pub ask_safe :
      (conn : ℕ) (msg : Bytes) (d : Device Opt Drv) (w : World)
      → IsSound d
      → (ask drivers conn msg (d, w)).0 ≢ crash
  unfolding ask
  ask_safe conn msg d w v =
      go (use_if_needed drivers conn (d, w)) (use_if_needed_safe conn d w)
        (use_if_needed-drv conn d w v)
    where
      go :
          (s : Result (Unit {0}) × (Device Opt Drv × World))
          → s.0 ≢ crash
          → (s.0 ≡ ok tt → s.1.0.drv ≢ none)
          → (continue s (λ _. ask_logged drivers msg)).0 ≢ crash
      go (ok a, (d', w')) h k x = ask_logged_safe msg d' w' (k refl) x
      go (err e, (d', w')) h k x = cc
      go (crash, (d', w')) h k x = h refl

  pub lock_safe : (conn : ℕ) (d : Device Opt Drv) (w : World) → (lock drivers conn (d, w)).0 ≢ crash
  unfolding lock
  lock_safe conn d w = ground (arith, use_if_needed_safe conn d w)
