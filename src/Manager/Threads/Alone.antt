-- ===== src/Manager/Threads/Alone.antt =====
-- server/device.cpp: a call that no other thread interrupts is the call as a whole.
use device.Base.{
  ℕ, zero, suc, ◌≡◌, ◌≢◌, refl, sym, ap, ◌∙◌, Bool, true, false, List, [], ◌∷◌, if◌then◌else◌,
  Bytes, text, Result, ok, err, crash, continue, inl, inr, Bool-cases,
}
use device.Map.{number_key, has}
use device.Device.{Drivers, Device, use_device, use_if_needed, lock, ask, set_locked, ask_logged}
use device.Manager.{Libs}
use device.Manager.Actions.{
  DeviceAction, asks, uses, locks, releases, unlocks, log_starts, log_finishes, log_gets, infos,
  closes, call_device, no_text,
}
use device.Manager.Threads.{
  Next, done, locking, asking, Pc, returned, entering, counted, tested, behind, Threads, Event,
  calls, goes, after, is_returned, placed_here, placed_other, finished, entered, enter_device,
  begin, move, moved, step, step-calls, interleave,
}

module _ {Opt Drv World : Type 0} (libs : Libs Opt World) (drivers : Drivers Opt Drv World) where
  -- So many steps of one thread, and nothing else.
  unfoldable pub solo : ℕ → ℕ → Pc × (Device Opt Drv × World) → Pc × (Device Opt Drv × World)
  solo zero c x = x
  solo (suc n) c (p, s) = solo n c (move libs drivers c p s)

  unfoldable pub goes_on : ℕ → ℕ → List Event
  goes_on zero c = []
  goes_on (suc n) c = goes c ∷ goes_on n c

  use_device-entered :
      (c : ℕ) (d : Device Opt Drv) (w : World)
      → has c d.users ≡ false
      → d.locked ≡ false
      → use_device drivers c (d, w) ≡ enter_device libs drivers c (d, w)
  unfolding use_device enter_device
  use_device-entered c d w h l = rw (h, l) refl

  use_device-locked :
      (c : ℕ) (d : Device Opt Drv) (w : World)
      → has c d.users ≡ false
      → d.locked ≡ true
      → use_device drivers c (d, w) ≡ (err (text "device is locked"), (d, w))
  unfolding use_device
  use_device-locked c d w h l = rw (h, l) refl

  -- The thread that comes to use as a stranger.
  use-solo :
      (n : Next) (c : ℕ) (d : Device Opt Drv) (w : World)
      → has c d.users ≡ false
      → solo 3 c (entering n, (d, w)) ≡ entered libs drivers n (use_device drivers c (d, w))
  unfolding solo move entered
  use-solo n c d w h =
      ap (λ (b : Bool). solo 2 c ((if b then after n else counted n), (d, w))) h
      ∙ elim (Bool-cases d.locked) [
        | inl l ↦
            ap
              (λ (b : Bool).
                solo 1 c
                  ((if b then returned (err (text "device is locked")) else tested n), (d, w)))
              l
            ∙ ap (entered libs drivers n) (sym (use_device-locked c d w h l))
        | inr l ↦
            ap
              (λ (b : Bool).
                solo 1 c
                  ((if b then returned (err (text "device is locked")) else tested n), (d, w)))
              l
            ∙ ap (entered libs drivers n) (sym (use_device-entered c d w h l))
      ]

  use_if_needed-device :
      (c : ℕ) (d : Device Opt Drv) (w : World)
      → has c d.users ≡ false
      → use_if_needed drivers c (d, w) ≡ use_device drivers c (d, w)
  unfolding use_if_needed
  use_if_needed-device c d w h = rw h refl

  use_if_needed-user :
      (c : ℕ) (d : Device Opt Drv) (w : World)
      → has c d.users ≡ true
      → use_if_needed drivers c (d, w) ≡ (ok tt, (d, w))
  unfolding use_if_needed
  use_if_needed-user c d w h = rw h refl

  use_device-user :
      (c : ℕ) (d : Device Opt Drv) (w : World)
      → has c d.users ≡ true
      → use_device drivers c (d, w) ≡ (ok tt, (d, w))
  unfolding use_device
  use_device-user c d w h = rw h refl

  abbrev advance : ℕ → Pc × (Device Opt Drv × World) → Pc × (Device Opt Drv × World)
  advance c x = move libs drivers c x.0 x.1

  advance-asking :
      (c : ℕ) (msg : Bytes) (k : Result (Unit {0}) × (Device Opt Drv × World))
      → advance c (entered libs drivers (asking msg) k)
        ≡ finished libs drivers (continue k (λ _. ask_logged drivers msg))
  unfolding move finished entered after
  advance-asking c msg (ok a, s) = refl
  advance-asking c msg (err e, s) = refl
  advance-asking c msg (crash, s) = refl

  advance-locking :
      (c : ℕ) (k : Result (Unit {0}) × (Device Opt Drv × World))
      → advance c (entered libs drivers locking k)
        ≡ finished libs drivers (no_text (continue k (λ _. set_locked drivers)))
  unfolding move finished entered after
  advance-locking c (ok a, s) = refl
  advance-locking c (err e, s) = refl
  advance-locking c (crash, s) = refl

  advance-done :
      (c : ℕ) (k : Result (Unit {0}) × (Device Opt Drv × World))
      → advance c (entered libs drivers done k) ≡ finished libs drivers (no_text k)
  unfolding move finished entered after
  advance-done c (ok a, s) = refl
  advance-done c (err e, s) = refl
  advance-done c (crash, s) = refl

  begin-solo :
      (a : DeviceAction) (c : ℕ) (msg : Bytes) (d : Device Opt Drv) (w : World)
      → solo 4 c (begin libs drivers a c msg (d, w))
        ≡ finished libs drivers (call_device libs drivers a c msg (d, w))
  unfolding solo begin move finished call_device after ask lock
  begin-solo asks c msg d w = elim (Bool-cases (has c d.users)) [
    | inl h ↦
        ap
          (λ (b : Bool).
            solo 4 c ((if b then behind (asking msg) else entering (asking msg)), (d, w)))
          h
        ∙ ap (λ k. finished libs drivers (continue k (λ _. ask_logged drivers msg)))
            (sym (use_if_needed-user c d w h))
    | inr h ↦
        ap
          (λ (b : Bool).
            solo 4 c ((if b then behind (asking msg) else entering (asking msg)), (d, w)))
          h
        ∙ ap (advance c) (use-solo (asking msg) c d w h)
        ∙ advance-asking c msg (use_device drivers c (d, w))
        ∙ ap (λ k. finished libs drivers (continue k (λ _. ask_logged drivers msg)))
            (sym (use_if_needed-device c d w h))
  ]
  begin-solo locks c msg d w = elim (Bool-cases (has c d.users)) [
    | inl h ↦
        ap (λ (b : Bool). solo 4 c ((if b then behind locking else entering locking), (d, w))) h
        ∙ ap (λ k. finished libs drivers (no_text (continue k (λ _. set_locked drivers))))
            (sym (use_if_needed-user c d w h))
    | inr h ↦
        ap (λ (b : Bool). solo 4 c ((if b then behind locking else entering locking), (d, w))) h
        ∙ ap (advance c) (use-solo locking c d w h)
        ∙ advance-locking c (use_device drivers c (d, w))
        ∙ ap (λ k. finished libs drivers (no_text (continue k (λ _. set_locked drivers))))
            (sym (use_if_needed-device c d w h))
  ]
  begin-solo uses c msg d w = elim (Bool-cases (has c d.users)) [
    | inl h ↦
        ap (λ (b : Bool). solo 3 c ((if b then after done else counted done), (d, w))) h
        ∙ ap (λ k. finished libs drivers (no_text k)) (sym (use_device-user c d w h))
    | inr h ↦ ap (advance c) (use-solo done c d w h) ∙ advance-done c (use_device drivers c (d, w))
  ]
  begin-solo releases c msg d w = refl
  begin-solo unlocks c msg d w = refl
  begin-solo log_starts c msg d w = refl
  begin-solo log_finishes c msg d w = refl
  begin-solo log_gets c msg d w = refl
  begin-solo infos c msg d w = refl
  begin-solo closes c msg d w = refl

  -- Where one thread stands, with what the threads share.
  unfoldable pub stands : ℕ → Threads Opt Drv World → Pc × (Device Opt Drv × World)
  stands c t = (t.pc c, (t.device, t.world))

  stands-moved :
      (c : ℕ) (t : Threads Opt Drv World) (x : Pc × (Device Opt Drv × World))
      → stands c (moved libs drivers t c x) ≡ x
  unfolding stands moved
  stands-moved c t (p, (d, w)) = ap (λ q. (q, (d, w))) (placed_here t.pc c p)

  stands-goes_on :
      (n c : ℕ) (t : Threads Opt Drv World)
      → stands c (interleave libs drivers (goes_on n c) t) ≡ solo n c (stands c t)
  unfolding interleave goes_on solo step stands
  stands-goes_on zero c t = refl
  stands-goes_on (suc n) c t =
      let m = move libs drivers c (t.pc c) (t.device, t.world) in
      stands-goes_on n c (moved libs drivers t c m) ∙ ap (solo n c) (stands-moved c t m)

  goes_on-other :
      (n c j : ℕ) (t : Threads Opt Drv World)
      → c ≢ j
      → (interleave libs drivers (goes_on n c) t).pc j ≡ t.pc j
  unfolding interleave goes_on step moved
  goes_on-other zero c j t ne = refl
  goes_on-other (suc n) c j t ne =
      let m = move libs drivers c (t.pc c) (t.device, t.world) in
      goes_on-other n c j (moved libs drivers t c m) ne ∙ placed_other t.pc c j m.0 ne

  -- A call that no other thread interrupts ends in four steps behind its first at most, wherever
  -- the other threads stand, and gives what the call as a whole gives: its result, the device, and
  -- the world. The other threads stay where they are.
  pub interleave_alone :
      (a : DeviceAction) (c : ℕ) (msg : Bytes) (t : Threads Opt Drv World)
      → is_returned (t.pc c) ≡ true
      → (stands c (interleave libs drivers (calls c a msg ∷ goes_on 4 c) t)
          ≡ (let (r, s) = call_device libs drivers a c msg (t.device, t.world) in (returned r, s)))
        × ((j : ℕ)
            → c ≢ j
            → (interleave libs drivers (calls c a msg ∷ goes_on 4 c) t).pc j ≡ t.pc j)
  unfolding interleave finished moved
  interleave_alone a c msg t free =
      let s : Device Opt Drv × World = (t.device, t.world) in
      let t' = moved libs drivers t c (begin libs drivers a c msg s) in
      let begun = step-calls libs drivers a c msg t free in
      (
        ap (λ u. stands c (interleave libs drivers (goes_on 4 c) u)) begun
            ∙ stands-goes_on 4 c t'
            ∙ ap (solo 4 c) (stands-moved c t (begin libs drivers a c msg s))
            ∙ begin-solo a c msg t.device t.world,
        λ j ne.
            ap (λ (u : Threads Opt Drv World). (interleave libs drivers (goes_on 4 c) u).pc j) begun
            ∙ goes_on-other 4 c j t' ne
            ∙ placed_other t.pc c j (begin libs drivers a c msg s).0 ne,
      )
