-- ===== src/Manager/Threads/Races.antt =====
-- server/device.cpp: what the tests outside the mutex let through.
use device.Base.{
  ℕ, ◌==◌, ◌≡◌, ◌≢◌, sym, ap, ◌∙◌, arith, true, false, Option, none, some, [], ◌∷◌, if◌then◌else◌,
  Bytes, text, Result, ok, err, crash, length,
}
use device.Map.{NumberSet, number_key, has, insert, has-insert}
use device.Device.{
  opened, unlock, Drivers, Device, close, set_locked, ask_logged, ask_driver, reset_drv,
}
use device.Manager.{Libs}
use device.Manager.Actions.{unlocks, closes, call_device, no_text}
use device.Manager.Threads.{
  done, locking, asking, returned, tested, behind, Threads, calls, goes, after, is_returned,
  placed_here, placed_other, finished, entered, enter_device, begin, move, moved, step, step-calls,
  step-goes, interleave,
}

module _ {Opt Drv World : Type 0} (libs : Libs Opt World) (drivers : Drivers Opt Drv World) where
  set_locked-only :
      (c : ℕ) (d : Device Opt Drv) (w : World)
      → d.users ≡ (c, tt) ∷ []
      → set_locked drivers (d, w) ≡ (ok tt, (record d { locked = true }, w))
  unfolding set_locked
  set_locked-only c d w u =
      ap
        (λ (us : NumberSet).
          if length us == 1
          then (ok tt, (record d { locked = true }, w))
          else (err (text "Can't lock the device: it is in use"), (d, w)))
        u

  enter_device-open :
      (j : ℕ) (h : Drv) (d : Device Opt Drv) (w : World)
      → d.drv ≡ some h
      → enter_device libs drivers j (d, w) ≡ (ok tt, (record d { users = insert j tt d.users }, w))
  unfolding enter_device
  enter_device-open j h d w e =
      ap
        (λ (o : Option Drv). elim o as (λ _. Result (Unit {0}) × (Device Opt Drv × World)) [
          | none ↦ opened drivers j d (drivers.create d.drv_name d.drv_args w)
          | some x ↦ (ok tt, (record d { users = insert j tt d.users }, w))
        ])
        e

  unlock_user :
      (j : ℕ) (d : Device Opt Drv) → has j d.users ≡ true → (no_text (unlock j d)).1.locked ≡ false
  unfolding unlock
  unlock_user j d h = ground arith

  joined_has :
      (c j : ℕ) (us : NumberSet)
      → us ≡ (c, tt) ∷ []
      → (has c (insert j tt us) ≡ true) × (has j (insert j tt us) ≡ true)
  unfolding has
  joined_has c j us u = (
    rw u (ground (arith, has-insert j c tt ((c, tt) ∷ []))),
    ground (arith, has-insert j j tt us),
  )

  -- A lock comes between the test of `locked` in use and the mutex behind it: the thread `j` has passed
  -- the test, the thread `c` is about to lock the device as its only user. Both succeed, and
  -- the device is locked with two users. Then `j` may end the lock of `c`.
  pub lock_shared :
      (c j : ℕ) (h : Drv) (t : Threads Opt Drv World)
      → c ≢ j
      → t.pc c ≡ behind locking
      → t.pc j ≡ tested done
      → t.device.drv ≡ some h
      → t.device.users ≡ (c, tt) ∷ []
      → (let t' = interleave libs drivers (goes c ∷ goes j ∷ []) t in
          (t'.pc c ≡ returned (ok []))
          × (t'.pc j ≡ returned (ok []))
          × (t'.device.locked ≡ true)
          × (has c t'.device.users ≡ true)
          × (has j t'.device.users ≡ true)
          × ((interleave libs drivers (calls j unlocks [] ∷ []) t').device.locked ≡ false))
  unfolding interleave moved move begin finished entered after call_device is_returned
  lock_shared c j h t ne pc_c pc_j open_ us =
      let d1 : Device Opt Drv = record t.device { locked = true } in
      let d2 : Device Opt Drv = record d1 { users = insert j tt t.device.users } in
      let t1 = moved libs drivers t c (returned (ok []), (d1, t.world)) in
      let t2 = moved libs drivers t1 j (returned (ok []), (d2, t.world)) in
      let path : interleave libs drivers (goes c ∷ goes j ∷ []) t ≡ t2 =
        ap (step libs drivers (goes j)) (
          step-goes libs drivers c t (behind locking) pc_c
          ∙ ap (λ k. moved libs drivers t c (finished libs drivers (no_text k)))
              (set_locked-only c t.device t.world us))
        ∙ step-goes libs drivers j t1 (tested done)
            (placed_other t.pc c j (returned (ok [])) ne ∙ pc_j)
        ∙ ap (λ k. moved libs drivers t1 j (entered libs drivers done k))
            (enter_device-open j h d1 t.world open_) in
      let both = joined_has c j t.device.users us in
      (
        ap (λ (u : Threads Opt Drv World). u.pc c) path
            ∙ (placed_other t1.pc j c (returned (ok [])) (λ e. ne (sym e))
                ∙ placed_here t.pc c (returned (ok []))),
        ap (λ (u : Threads Opt Drv World). u.pc j) path ∙ placed_here t1.pc j (returned (ok [])),
        ap (λ (u : Threads Opt Drv World). u.device.locked) path,
        ap (λ (u : Threads Opt Drv World). has c u.device.users) path ∙ both.0,
        ap (λ (u : Threads Opt Drv World). has j u.device.users) path ∙ both.1,
        ap
              (λ (u : Threads Opt Drv World).
                (interleave libs drivers (calls j unlocks [] ∷ []) u).device.locked)
              path
            ∙ (ap (λ (u : Threads Opt Drv World). u.device.locked)
                  (step-calls libs drivers unlocks j [] t2
                    (ap is_returned (placed_here t1.pc j (returned (ok [])))))
                ∙ unlock_user j d2 both.1),
      )

  -- A close comes between use and the driver: the thread that asks calls through a null pointer.
  pub closed_ask_crashes :
      (c j : ℕ) (msg : Bytes) (t : Threads Opt Drv World)
      → c ≢ j
      → t.pc c ≡ behind (asking msg)
      → is_returned (t.pc j) ≡ true
      → (interleave libs drivers (calls j closes [] ∷ goes c ∷ []) t).pc c ≡ returned crash
  unfolding interleave moved move begin finished call_device close ask_logged ask_driver
  closed_ask_crashes c j msg t ne pc_c free =
      let t1 =
        moved libs drivers t j
          (returned (ok []), (close t.device, reset_drv drivers t.device t.world)) in
      ap (λ (u : Threads Opt Drv World). (interleave libs drivers (goes c ∷ []) u).pc c)
        (step-calls libs drivers closes j [] t free)
      ∙ ap (λ (u : Threads Opt Drv World). u.pc c)
          (step-goes libs drivers c t1 (behind (asking msg))
            (placed_other t.pc j c (returned (ok [])) (λ e. ne (sym e)) ∙ pc_c))
      ∙ placed_here t1.pc c (returned crash)
