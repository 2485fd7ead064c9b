-- ===== src/Manager/Threads/Open.antt =====
-- server/device.cpp: among threads that go on in any order, no thread calls a driver through a null
-- pointer as long as nobody closes the device.
pub mod Moves
use device.Base.{
  ℕ, ◌≡◌, ◌≢◌, refl, sym, ◌∙◌, arith, Bool, true, false, none, List, [], ◌∷◌, Bytes, ok, crash, inl,
  inr, Bool-cases, All, subst,
}
use device.Map.{number_key, has}
use device.Device.{Drivers, Device, release, unlock, log_start, log_finish, log_get}
use device.Device.Safety.{NoCrash}
use device.Manager.{Libs}
use device.Manager.Actions.{
  DeviceAction, asks, uses, locks, releases, unlocks, log_starts, log_finishes, log_gets, infos,
  closes, call_device, no_text,
}
use device.Manager.Threads.{
  done, locking, asking, Pc, returned, entering, counted, tested, behind, Threads, Event, calls,
  goes, is_returned, same_or_not, placed, placed_here, placed_other, finished, begin, moved, step,
  interleave,
}
use device.Device.Invariant.{erase_nil}
use device.Manager.Threads.Open.Moves.{HasDriver, Fine, Safe, same, user_open, moves}

-- The event closes nothing.
unfoldable pub keeps_open : Event → Bool
keeps_open (calls c closes msg) = false
keeps_open (calls c a msg) = true
keeps_open (goes c) = true

module _ {Opt Drv World : Type 0} (libs : Libs Opt World) (drivers : Drivers Opt Drv World)
    (safe : NoCrash drivers) where
  kept :
      (d d' : Device Opt Drv) (w : World) (p : Pc)
      → HasDriver d
      → d'.drv ≡ d.drv
      → (d.users ≡ [] → d'.users ≡ [])
      → Fine d' p
      → Safe libs drivers safe d (p, (d', w))
  unfolding Safe HasDriver
  kept d d' w p h e u f = ((λ k. u (h (sym e ∙ k))), (λ o k. o (sym e ∙ k)), f)

  answered-Fine : (d : Device Opt Drv) (s : Bytes) → Fine d (returned (ok s))
  unfolding Fine
  answered-Fine d s = λ e. cc

  release-users :
      (c : ℕ) (d : Device Opt Drv)
      → ((release c d).drv ≡ d.drv) × (d.users ≡ [] → (release c d).users ≡ [])
  unfolding release
  release-users c d = (ground arith, λ e. ground (arith, erase_nil c d.users e))

  unlock-users :
      (c : ℕ) (d : Device Opt Drv)
      → ((no_text (unlock c d)).1.drv ≡ d.drv)
        × ((no_text (unlock c d)).1.users ≡ d.users)
        × ((no_text (unlock c d)).0 ≢ crash)
  unfolding unlock
  unlock-users c d = (ground arith, ground arith, ground arith)

  log_get-users :
      (c : ℕ) (d : Device Opt Drv)
      → ((log_get c d).1.drv ≡ d.drv)
        × ((log_get c d).1.users ≡ d.users)
        × ((log_get c d).0 ≢ crash)
  unfolding log_get
  log_get-users c d = (ground arith, ground arith, ground arith)

  begins :
      (a : DeviceAction) (c : ℕ) (msg : Bytes) (d : Device Opt Drv) (w : World)
      → keeps_open (calls c a msg) ≡ true
      → HasDriver d
      → Safe libs drivers safe d (begin libs drivers a c msg (d, w))
  unfolding begin keeps_open finished call_device log_start log_finish Fine
  begins asks c msg d w k h = elim (Bool-cases (has c d.users)) [
    | inl e ↦
        rw e
          (same libs drivers safe d (behind (asking msg)) w h (user_open libs drivers safe c d h e))
    | inr e ↦ rw e (same libs drivers safe d (entering (asking msg)) w h tt)
  ]
  begins locks c msg d w k h = elim (Bool-cases (has c d.users)) [
    | inl e ↦
        rw e (same libs drivers safe d (behind locking) w h (user_open libs drivers safe c d h e))
    | inr e ↦ rw e (same libs drivers safe d (entering locking) w h tt)
  ]
  begins uses c msg d w k h = same libs drivers safe d (entering done) w h tt
  begins releases c msg d w k h =
      let (e, u) = release-users c d in
      kept d (release c d) w _ h e u (answered-Fine (release c d) [])
  begins unlocks c msg d w k h =
      let (e, u, n) = unlock-users c d in kept d (no_text (unlock c d)).1 w _ h e (λ v. u ∙ v) n
  begins log_starts c msg d w k h = kept d _ w _ h refl (λ v. v) (answered-Fine (log_start c d) [])
  begins log_finishes c msg d w k h =
      kept d _ w _ h refl (λ v. v) (answered-Fine (log_finish c d) [])
  begins log_gets c msg d w k h =
      let (e, u, n) = log_get-users c d in kept d (log_get c d).1 w _ h e (λ v. u ∙ v) n
  begins infos c msg d w k h = kept d d w _ h refl (λ v. v) (answered-Fine d _)
  begins closes c msg d w k h = cc

  -- Users have a driver to ask, each thread that is behind use has one, and none has crashed.
  pub record IsFine (t : Threads Opt Drv World) : Type 0 where
    pub has_driver : HasDriver t.device
    pub fine : (j : ℕ) → Fine t.device (t.pc j)

  Fine-kept :
      (d d' : Device Opt Drv) (p : Pc) → (d.drv ≢ none → d'.drv ≢ none) → Fine d p → Fine d' p
  unfolding Fine
  Fine-kept d d' (returned r) o f = f
  Fine-kept d d' (entering n) o f = tt
  Fine-kept d d' (counted n) o f = tt
  Fine-kept d d' (tested n) o f = tt
  Fine-kept d d' (behind n) o f = o f

  moved-IsFine :
      (t : Threads Opt Drv World) (c : ℕ) (x : Pc × (Device Opt Drv × World))
      → IsFine t
      → Safe libs drivers safe t.device x
      → IsFine (moved libs drivers t c x)
  unfolding moved Safe
  moved-IsFine t c (p, (d, w)) v (h, o, f) = record {
    has_driver = h;
    fine = λ j. elim (same_or_not c j) [
      | inl e ↦
          subst (λ i. Fine d (placed t.pc c p i)) e (subst (Fine d) (sym (placed_here t.pc c p)) f)
      | inr ne ↦
          subst (Fine d) (sym (placed_other t.pc c j p ne))
            (Fine-kept t.device d (t.pc j) o (v.fine j))
    ];
  }

  step-IsFine :
      (e : Event) (t : Threads Opt Drv World)
      → keeps_open e ≡ true
      → IsFine t
      → IsFine (step libs drivers e t)
  unfolding step
  step-IsFine (goes c) t k v =
      moved-IsFine t c _ v
        (moves libs drivers safe c (t.pc c) t.device t.world v.has_driver (v.fine c))
  step-IsFine (calls c a msg) t k v = elim (Bool-cases (is_returned (t.pc c))) [
    | inl e ↦ rw e (moved-IsFine t c _ v (begins a c msg t.device t.world k v.has_driver))
    | inr e ↦ rw e v
  ]

  -- If the drivers do not crash and nobody closes the device, then whatever the threads do in any
  -- order, a device with users has a driver, a thread behind use finds one, and no thread calls a
  -- driver through a null pointer. Each test of users or locked is taken for one step, and so is ask from
  -- its mutex on with its logs: data races on the containers are left out.
  pub interleave-IsFine :
      (es : List Event) (t : Threads Opt Drv World)
      → IsFine t
      → All (λ e. keeps_open e ≡ true) es
      → IsFine (interleave libs drivers es t)
  unfolding interleave
  interleave-IsFine [] t v k = v
  interleave-IsFine (e ∷ es) t v (k, ks) =
      interleave-IsFine es (step libs drivers e t) (step-IsFine e t k v) ks
