-- ===== src/Manager/Access/Refines.antt =====
-- DevManager::run of server/dev_manager.cpp on one device: every request, and every sequence of
-- requests, meets the specification of users and locks.
use device.Base.{ℕ, refl, arith, Bool, Bytes, Result, ok, err, crash, continue}
use device.Map.{number_key}
use device.Map.Sets.{IsAscending, erase-IsAscending}
use device.Device.{
  Drivers, Device, use_device, use_if_needed, close, unlock, lock, set_locked, ask, ask_logged,
  log_start, log_finish, log_get,
}
use device.Device.Invariant.{IsSound}
use device.Manager.{Libs}
use device.Manager.Actions.{
  DeviceAction, asks, uses, releases, locks, unlocks, log_starts, log_finishes, log_gets, infos,
  closes, call_device, no_text,
}
use device.Manager.Access.{Enters, Locks, Unlocks, Allowed, is_ok, view}
use device.Manager.Access.Lock.{lock-Locks, Used-IsAscending}
use device.Manager.Access.Enters.{
  Keeps-view, ask_logged-Keeps, Used-Enters, use_device-Used, use_if_needed-Used, ask-Asks,
}
use device.Manager.Access.Leave.{view-nobody, release-users, release-Leaves, unlock-Unlocks}

module _ {Opt Drv World : Type 0} (libs : Libs Opt World) (drivers : Drivers Opt Drv World) where
  -- `no_text` changes neither the state nor if it succeeds.
  worded :
      {S : Type 0} (P : Bool → S → Type 0) (r : Result (Unit {0}) × S)
      → P (is_ok r.0) r.1
      → P (is_ok (no_text r).0) (no_text r).1
  worded P (ok a, s) h = h
  worded P (err e, s) h = h
  worded P (crash, s) h = h

  -- Every request on a sound device, successful or not, is one that the specification allows: who
  -- uses becomes a user, who locks is alone, who is locked out is refused, and whoever is not
  -- named in the request stays what it was.
  pub call_device-Allowed :
      (a : DeviceAction) (c : ℕ) (msg : Bytes) (d : Device Opt Drv) (w : World)
      → IsSound d
      → IsAscending d.users
      → Allowed a c
          (view d)
          (is_ok (call_device libs drivers a c msg (d, w)).0)
          (view (call_device libs drivers a c msg (d, w)).1.0)
  unfolding call_device Allowed
  call_device-Allowed asks c msg d w v set = ask-Asks drivers c d w msg v
  call_device-Allowed uses c msg d w v set =
      worded (λ b s. Enters c (view d) b (view s.0)) (use_device drivers c (d, w))
        (Used-Enters drivers c d w _ v (use_device-Used drivers c d w))
  call_device-Allowed releases c msg d w v set = (refl, release-Leaves c d v)
  call_device-Allowed locks c msg d w v set =
      worded (λ b s. Locks c (view d) b (view s.0)) (lock drivers c (d, w))
        (lock-Locks drivers c d w v set)
  call_device-Allowed unlocks c msg d w v set =
      worded (λ b s. Unlocks c (view d) b (view s)) (unlock c d) (unlock-Unlocks c d v)
  call_device-Allowed log_starts c msg d w v set =
      (refl, Keeps-view d (log_start c d) (unfold log_start in (refl, refl)))
  call_device-Allowed log_finishes c msg d w v set =
      (refl, Keeps-view d (log_finish c d) (unfold log_finish in (refl, refl)))
  call_device-Allowed log_gets c msg d w v set =
      Keeps-view d (log_get c d).1 (unfold log_get in (ground arith, ground arith))
  call_device-Allowed infos c msg d w v set = (refl, refl)
  call_device-Allowed closes c msg d w v set =
      (refl, view-nobody (close d) (unfold close in refl) (unfold close in refl))

  continued :
      {A B : Type 0} (s : Result A × (Device Opt Drv × World))
      (f : A → Device Opt Drv × World → Result B × (Device Opt Drv × World))
      → IsAscending s.1.0.users
      → ((a : A) (t : Device Opt Drv × World)
          → IsAscending t.0.users
          → IsAscending (f a t).1.0.users)
      → IsAscending (continue s f).1.0.users
  continued (ok a, t) f h k = k a t h
  continued (err e, t) f h k = h
  continued (crash, t) f h k = h

  entered :
      (c : ℕ) (d : Device Opt Drv) (w : World)
      → IsAscending d.users
      → IsAscending (use_if_needed drivers c (d, w)).1.0.users
  entered c d w set = Used-IsAscending drivers c d w _ set (use_if_needed-Used drivers c d w)

  ask-IsAscending :
      (c : ℕ) (msg : Bytes) (d : Device Opt Drv) (w : World)
      → IsAscending d.users
      → IsAscending (ask drivers c msg (d, w)).1.0.users
  unfolding ask
  ask-IsAscending c msg d w set =
      continued (use_if_needed drivers c (d, w)) (λ _. ask_logged drivers msg) (entered c d w set)
        (λ a (e, x) h. rw ((ask_logged-Keeps drivers msg e x).0) h)

  lock-IsAscending :
      (c : ℕ) (d : Device Opt Drv) (w : World)
      → IsAscending d.users
      → IsAscending (lock drivers c (d, w)).1.0.users
  unfolding lock set_locked
  lock-IsAscending c d w set =
      continued (use_if_needed drivers c (d, w)) (λ _. set_locked drivers) (entered c d w set)
        (λ a (e, x) h. ground arith)

  -- The users stay a set.
  pub call_device-IsAscending :
      (a : DeviceAction) (c : ℕ) (msg : Bytes) (d : Device Opt Drv) (w : World)
      → IsAscending d.users
      → IsAscending (call_device libs drivers a c msg (d, w)).1.0.users
  unfolding call_device
  call_device-IsAscending asks c msg d w set = ask-IsAscending c msg d w set
  call_device-IsAscending uses c msg d w set =
      worded (λ b s. IsAscending s.0.users) (use_device drivers c (d, w))
        (Used-IsAscending drivers c d w _ set (use_device-Used drivers c d w))
  call_device-IsAscending releases c msg d w set =
      rw (release-users c d) (erase-IsAscending c d.users set)
  call_device-IsAscending locks c msg d w set =
      worded (λ b s. IsAscending s.0.users) (lock drivers c (d, w)) (lock-IsAscending c d w set)
  call_device-IsAscending unlocks c msg d w set =
      worded (λ b s. IsAscending s.users) (unlock c d) (unfold unlock in ground arith)
  call_device-IsAscending log_starts c msg d w set = unfold log_start in set
  call_device-IsAscending log_finishes c msg d w set = unfold log_finish in set
  call_device-IsAscending log_gets c msg d w set = unfold log_get in ground arith
  call_device-IsAscending infos c msg d w set = set
  call_device-IsAscending closes c msg d w set = unfold close IsAscending in tt
