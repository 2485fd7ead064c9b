-- ===== src/Device/Invariant.antt =====
-- server/device.cpp: what every call keeps true of a device.
use device.Base.{
  ℕ, ◌≤◌, ◌≡◌, refl, true, false, none, [], ◌∷◌, ◌++◌, arith, newline, ◌==◌, length, All, Bytes,
  Result, ok, err, crash, inl, inr, Bool-cases, text, continue,
}
use device.Map.{Map, NumberSet, number_key, has, insert, erase}
use device.Device.{
  Drivers, Device, LogBuf, new_device, copy_device, release, close, unlock, log_start, log_finish,
  log_get, log_message, pop_excess, push_all, use_device, use_if_needed, lock, ask_driver,
  log_answer, ask_logged, ask,
}

unfoldable pub Bounded : ℕ → Map ℕ LogBuf → Type 0
Bounded max bufs = All (λ b. length b.1 ≤ max) bufs

-- A locked device has one user, a device with users has a driver, and the log buffers fit.
pub record IsSound {Opt Drv : Type 0} (d : Device Opt Drv) : Type 0 where
  pub exclusive : d.locked ≡ true → length d.users ≡ 1
  pub is_open : d.drv ≡ none → d.users ≡ []
  pub bounded : Bounded d.max_log_size d.log_bufs

insert-Bounded :
    (max k : ℕ) (bufs : Map ℕ LogBuf) → Bounded max bufs → Bounded max (insert k [] bufs)
unfolding insert Bounded
insert-Bounded max k [] b = (omega arith, tt)
insert-Bounded max k ((j, q) ∷ bufs) b = ground (arith, insert-Bounded max k bufs)

erase-Bounded : (max k : ℕ) (bufs : Map ℕ LogBuf) → Bounded max bufs → Bounded max (erase k bufs)
unfolding erase Bounded
erase-Bounded max k [] b = tt
erase-Bounded max k ((j, q) ∷ bufs) b = ground (arith, erase-Bounded max k bufs b.1)

pub length-pop_excess : (max : ℕ) (q : LogBuf) → length (pop_excess max q) ≤ max
unfolding pop_excess
length-pop_excess max [] = omega arith
length-pop_excess max (l ∷ q) = ground (arith, length-pop_excess max q)

push_all-Bounded :
    (max : ℕ) (line : Bytes) (bufs : Map ℕ LogBuf) → Bounded max (push_all max line bufs)
unfolding push_all Bounded
push_all-Bounded max line [] = tt
push_all-Bounded max line ((c, q) ∷ bufs) =
    (length-pop_excess max (q ++ line ∷ []), push_all-Bounded max line bufs)

nil-Bounded : (max : ℕ) → Bounded max []
unfolding Bounded
nil-Bounded max = tt

pub erase_nil : (k : ℕ) (us : NumberSet) → us ≡ [] → erase k us ≡ []
unfolding erase
erase_nil k [] e = refl
erase_nil k (u ∷ us) e = cc

pub has_nil : (k : ℕ) (us : NumberSet) → us ≡ [] → has k us ≡ false
unfolding has
has_nil k [] e = refl
has_nil k (u ∷ us) e = cc

module _ {Opt Drv : Type 0} where
  pub new_device-IsSound : (n m : Bytes) (o : Opt) → IsSound (new_device {Drv = Drv} n m o)
  unfolding new_device
  new_device-IsSound n m o = record {
    exclusive = λ e. cc;
    is_open = λ e. refl;
    bounded = nil-Bounded 1024;
  }

  pub copy_device-IsSound : (d : Device Opt Drv) → IsSound d → IsSound (copy_device d)
  unfolding copy_device
  copy_device-IsSound d v = ground (arith, nil-Bounded d.max_log_size)

  pub release-IsSound : (conn : ℕ) (d : Device Opt Drv) → IsSound d → IsSound (release conn d)
  unfolding release
  release-IsSound conn d v =
      ground (arith, erase-Bounded d.max_log_size conn d.log_bufs v.bounded, erase_nil conn d.users)

  pub close-IsSound : (d : Device Opt Drv) → IsSound (close d)
  unfolding close
  close-IsSound d = record {
    exclusive = λ e. cc;
    is_open = λ e. refl;
    bounded = nil-Bounded d.max_log_size;
  }

  pub unlock-IsSound : (conn : ℕ) (d : Device Opt Drv) → IsSound d → IsSound (unlock conn d).1
  unfolding unlock
  unlock-IsSound conn d v = ground arith

  pub log_start-IsSound : (conn : ℕ) (d : Device Opt Drv) → IsSound d → IsSound (log_start conn d)
  unfolding log_start
  log_start-IsSound conn d v =
      ground (arith, insert-Bounded d.max_log_size conn d.log_bufs v.bounded)

  pub log_finish-IsSound : (conn : ℕ) (d : Device Opt Drv) → IsSound d → IsSound (log_finish conn d)
  unfolding log_finish
  log_finish-IsSound conn d v =
      ground (arith, erase-Bounded d.max_log_size conn d.log_bufs v.bounded)

  pub log_get-IsSound : (conn : ℕ) (d : Device Opt Drv) → IsSound d → IsSound (log_get conn d).1
  unfolding log_get
  log_get-IsSound conn d v = ground (arith, insert-Bounded d.max_log_size conn d.log_bufs v.bounded)

  log_message-IsSound :
      (pref msg : Bytes) (d : Device Opt Drv) → IsSound d → IsSound (log_message pref msg d)
  unfolding log_message
  log_message-IsSound pref msg d v =
      ground (arith, push_all-Bounded d.max_log_size (pref ++ msg ++ newline ∷ []) d.log_bufs)

module _ {Opt Drv World : Type 0} (drivers : Drivers Opt Drv World) where
  pub use_device-IsSound :
      (conn : ℕ) (d : Device Opt Drv) (w : World)
      → IsSound d
      → IsSound (use_device drivers conn (d, w)).1.0
  unfolding use_device
  use_device-IsSound conn d w v = ground arith

  pub use_if_needed-IsSound :
      (conn : ℕ) (d : Device Opt Drv) (w : World)
      → IsSound d
      → IsSound (use_if_needed drivers conn (d, w)).1.0
  unfolding use_if_needed
  use_if_needed-IsSound conn d w v = ground (arith, use_device-IsSound conn d w v)

  pub lock-IsSound :
      (conn : ℕ) (d : Device Opt Drv) (w : World)
      → IsSound d
      → IsSound (lock drivers conn (d, w)).1.0
  unfolding lock
  lock-IsSound conn d w v = ground (arith, use_if_needed-IsSound conn d w v)

  ask_driver-IsSound :
      (msg : Bytes) (d : Device Opt Drv) (w : World)
      → IsSound d
      → IsSound (ask_driver drivers msg (d, w)).1.0
  unfolding ask_driver
  ask_driver-IsSound msg d w v = ground arith

  log_answer-IsSound :
      (r : Result Bytes) (d : Device Opt Drv) (w : World)
      → IsSound d
      → IsSound (log_answer drivers (r, (d, w))).1.0
  unfolding log_answer
  log_answer-IsSound (ok ret) d w v = log_message-IsSound _ ret d v
  log_answer-IsSound (err e) d w v = log_message-IsSound _ e d v
  log_answer-IsSound crash d w v = v

  pub ask_logged-IsSound :
      (msg : Bytes) (d : Device Opt Drv) (w : World)
      → IsSound d
      → IsSound (ask_logged drivers msg (d, w)).1.0
  unfolding ask_logged
  ask_logged-IsSound msg d w v = elim (Bool-cases (length d.log_bufs == 0)) [
    | inl off ↦ rw off (ask_driver-IsSound msg d w v)
    | inr on ↦ rw on (
        let d' = log_message (text ">> ") msg d in
        let s = ask_driver drivers msg (d', w) in
        log_answer-IsSound s.0 s.1.0 s.1.1
          (ask_driver-IsSound msg d' w (log_message-IsSound (text ">> ") msg d v)))
  ]

  pub ask-IsSound :
      (conn : ℕ) (msg : Bytes) (d : Device Opt Drv) (w : World)
      → IsSound d
      → IsSound (ask drivers conn msg (d, w)).1.0
  unfolding ask
  ask-IsSound conn msg d w v =
      go (use_if_needed drivers conn (d, w)) (use_if_needed-IsSound conn d w v)
    where
      go :
          (s : Result (Unit {0}) × (Device Opt Drv × World))
          → IsSound s.1.0
          → IsSound (continue s (λ _. ask_logged drivers msg)).1.0
      go (ok a, (d', w')) v' = ask_logged-IsSound msg d' w' v'
      go (err e, (d', w')) v' = v'
      go (crash, (d', w')) v' = v'
