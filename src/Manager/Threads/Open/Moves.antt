-- ===== src/Manager/Threads/Open/Moves.antt =====
-- server/device.cpp: one step of a thread on a device that nobody closes.
use device.Base.{
  ℕ, ◌==◌, ◌≡◌, ◌≢◌, refl, sym, ◌∙◌, arith, true, Option, none, some, [], if◌then◌else◌, Bytes,
  text, Result, ok, err, crash, inl, inr, Bool-cases, Option-cases, length, subst,
}
use device.Map.{number_key, has, insert}
use device.Device.{
  Drivers, Device, opened, set_locked, ask_logged, ask_driver, log_answer, log_message,
}
use device.Device.Safety.{NoCrash, ask_logged_safe, drv-log_message}
use device.Device.Invariant.{has_nil}
use device.Manager.{Libs}
use device.Manager.Actions.{no_text}
use device.Manager.Threads.{
  Next, done, locking, asking, Pc, returned, entering, counted, tested, behind, after, finished,
  entered, enter_device, move,
}

-- A device with users has a driver.
unfoldable pub HasDriver : {Opt Drv : Type 0} → Device Opt Drv → Type 0
HasDriver d = d.drv ≡ none → d.users ≡ []

-- A thread that is behind use has a driver to ask, and no thread has crashed.
unfoldable pub Fine : {Opt Drv : Type 0} → Device Opt Drv → Pc → Type 0
Fine d (returned r) = r ≢ crash
Fine d (behind n) = d.drv ≢ none
Fine d _ = Unit {0}

module _ {Opt Drv World : Type 0} (libs : Libs Opt World) (drivers : Drivers Opt Drv World)
    (safe : NoCrash drivers) where
  -- What a thread does from the device `d`: an open device stays open, and the thread is fine.
  unfoldable pub Safe : Device Opt Drv → Pc × (Device Opt Drv × World) → Type 0
  Safe d x = HasDriver x.1.0 × (d.drv ≢ none → x.1.0.drv ≢ none) × Fine x.1.0 x.0

  pub same : (d : Device Opt Drv) (p : Pc) (w : World) → HasDriver d → Fine d p → Safe d (p, (d, w))
  unfolding Safe
  same d p w h f = (h, (λ o. o), f)

  -- A user of the device finds a driver behind the test of the users.
  pub user_open : (c : ℕ) (d : Device Opt Drv) → HasDriver d → has c d.users ≡ true → d.drv ≢ none
  unfolding HasDriver
  user_open c d h u e = ground (arith, has_nil c d.users (h e))

  after-Fine : (d : Device Opt Drv) (n : Next) → d.drv ≢ none → Fine d (after n)
  unfolding Fine after
  after-Fine d done o = λ e. cc
  after-Fine d locking o = o
  after-Fine d (asking msg) o = o

  error-Fine : (d : Device Opt Drv) (m : Bytes) → Fine d (returned (err m))
  unfolding Fine
  error-Fine d m = λ e. cc

  -- A device that has a driver now.
  Safe-open :
      (d : Device Opt Drv) (x : Pc × (Device Opt Drv × World))
      → x.1.0.drv ≢ none
      → Fine x.1.0 x.0
      → Safe d x
  unfolding Safe HasDriver
  Safe-open d x o f = ((λ e. absurd (o e)), (λ _. o), f)

  opened-Safe :
      (n : Next) (c : ℕ) (d : Device Opt Drv) (r : Result Drv × World)
      → HasDriver d
      → r.0 ≢ crash
      → Safe d (entered libs drivers n (opened drivers c d r))
  unfolding entered opened
  opened-Safe n c d (ok x, w) h ne =
      Safe-open d _ (λ e. cc)
        (after-Fine (record d { drv = some x; users = insert c tt d.users }) n (λ e. cc))
  opened-Safe n c d (err m, w) h ne = same d (returned (err m)) w h (error-Fine d m)
  opened-Safe n c d (crash, w) h ne = absurd (ne refl)

  enter_device-Safe :
      (n : Next) (c : ℕ) (d : Device Opt Drv) (w : World)
      → HasDriver d
      → Safe d (entered libs drivers n (enter_device libs drivers c (d, w)))
  unfolding enter_device entered
  enter_device-Safe n c d w h = elim (Option-cases d.drv) [
    | inl e ↦
        subst
          (λ (o : Option Drv). Safe d (
            entered libs drivers n (elim o as (λ _. Result (Unit {0}) × (Device Opt Drv × World)) [
              | none ↦ opened drivers c d (drivers.create d.drv_name d.drv_args w)
              | some x ↦ (ok tt, (record d { users = insert c tt d.users }, w))
            ])))
          (sym e)
          (opened-Safe n c d (drivers.create d.drv_name d.drv_args w) h
            (safe.create d.drv_name d.drv_args w))
    | inr (x, e) ↦
        let joined : Device Opt Drv = record d { users = insert c tt d.users } in
        let o : d.drv ≢ none = λ k. cc in
        subst
          (λ (o : Option Drv). Safe d (
            entered libs drivers n (elim o as (λ _. Result (Unit {0}) × (Device Opt Drv × World)) [
              | none ↦ opened drivers c d (drivers.create d.drv_name d.drv_args w)
              | some x ↦ (ok tt, (record d { users = insert c tt d.users }, w))
            ])))
          (sym e) (Safe-open d (after n, (joined, w)) o (after-Fine joined n o))
  ]

  set_locked-Safe :
      (d : Device Opt Drv) (w : World)
      → d.drv ≢ none
      → Safe d (finished libs drivers (no_text (set_locked drivers (d, w))))
  unfolding set_locked finished Fine
  set_locked-Safe d w o = elim (Bool-cases (length d.users == 1)) [
    | inl e ↦ rw e (Safe-open d _ o (λ k. cc))
    | inr e ↦ rw e (Safe-open d _ o (λ k. cc))
  ]

  ask_driver-drv :
      (msg : Bytes) (d : Device Opt Drv) (w : World)
      → d.drv ≢ none
      → (ask_driver drivers msg (d, w)).1.0.drv ≢ none
  unfolding ask_driver
  ask_driver-drv msg d w o = ground arith

  log_answer-drv :
      (r : Result Bytes × (Device Opt Drv × World)) → (log_answer drivers r).1.0.drv ≡ r.1.0.drv
  unfolding log_answer
  log_answer-drv (ok m, (d, w)) = drv-log_message drivers safe (text "<< ") m d
  log_answer-drv (err m, (d, w)) = drv-log_message drivers safe (text "EE ") m d
  log_answer-drv (crash, s) = refl

  ask_logged-drv :
      (msg : Bytes) (d : Device Opt Drv) (w : World)
      → d.drv ≢ none
      → (ask_logged drivers msg (d, w)).1.0.drv ≢ none
  unfolding ask_logged
  ask_logged-drv msg d w o = elim (Bool-cases (length d.log_bufs == 0)) [
    | inl e ↦ rw e (ask_driver-drv msg d w o)
    | inr e ↦
        let d' = log_message (text ">> ") msg d in
        let o' : d'.drv ≢ none =
          λ k. o (sym (drv-log_message drivers safe (text ">> ") msg d) ∙ k) in
        rw e (λ k.
          ask_driver-drv msg d' w o' (sym (log_answer-drv (ask_driver drivers msg (d', w))) ∙ k))
  ]

  ask_logged-Safe :
      (msg : Bytes) (d : Device Opt Drv) (w : World)
      → d.drv ≢ none
      → Safe d (finished libs drivers (ask_logged drivers msg (d, w)))
  unfolding finished Fine
  ask_logged-Safe msg d w o =
      Safe-open d _ (ask_logged-drv msg d w o) (ask_logged_safe drivers safe msg d w o)

  pub moves :
      (c : ℕ) (p : Pc) (d : Device Opt Drv) (w : World)
      → HasDriver d
      → Fine d p
      → Safe d (move libs drivers c p (d, w))
  unfolding move Fine
  moves c (returned r) d w h f = same d (returned r) w h f
  moves c (entering n) d w h f = elim (Bool-cases (has c d.users)) [
    | inl e ↦ rw e (same d (after n) w h (after-Fine d n (user_open c d h e)))
    | inr e ↦ rw e (same d (counted n) w h tt)
  ]
  moves c (counted n) d w h f = elim (Bool-cases d.locked) [
    | inl e ↦
        subst
          (λ b. Safe d ((if b then returned (err (text "device is locked")) else tested n), (d, w)))
          (sym e) (same d (returned (err (text "device is locked"))) w h (error-Fine d _))
    | inr e ↦
        subst
          (λ b. Safe d ((if b then returned (err (text "device is locked")) else tested n), (d, w)))
          (sym e) (same d (tested n) w h tt)
  ]
  moves c (tested n) d w h f = enter_device-Safe n c d w h
  moves c (behind done) d w h f = same d (returned (ok [])) w h (λ e. cc)
  moves c (behind locking) d w h f = set_locked-Safe d w f
  moves c (behind (asking msg)) d w h f = ask_logged-Safe msg d w f
