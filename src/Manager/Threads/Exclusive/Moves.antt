-- ===== src/Manager/Threads/Exclusive/Moves.antt =====
-- server/device.cpp: one step of a thread while a connection holds the lock.
use device.Base.{
  ℕ, ◌≡◌, ◌≢◌, refl, sym, ◌∙◌, arith, Bool, true, false, [], ◌∷◌, if◌then◌else◌, Bytes, text,
  Result, ok, err, crash, subst,
}
use device.Map.{number_key, has}
use device.Device.{
  Drivers, Device, release, unlock, log_start, log_finish, log_get, set_locked, ask_logged,
}
use device.Manager.{Libs}
use device.Manager.Access.Enters.{ask_logged-Keeps}
use device.Manager.Access.Traces.{keeps_lock}
use device.Manager.Actions.{
  DeviceAction, asks, uses, locks, releases, unlocks, log_starts, log_finishes, log_gets, infos,
  closes, call_device, no_text,
}
use device.Manager.Threads.{
  Next, done, locking, asking, Pc, returned, entering, counted, tested, behind, Event, calls, goes,
  after, finished, begin, move,
}

-- The device is locked, and the owner is its only user.
unfoldable pub HeldBy : {Opt Drv : Type 0} → ℕ → Device Opt Drv → Type 0
HeldBy owner d = (d.locked ≡ true) × (d.users ≡ (owner, tt) ∷ [])

-- Where the owner may stand.
unfoldable pub inside : Pc → Bool
inside (returned r) = true
inside (entering n) = true
inside (counted n) = false
inside (tested n) = false
inside (behind n) = true

-- Where the others may stand: not between the test of `locked` and the end of use, or behind it.
unfoldable pub outside : Pc → Bool
outside (returned r) = true
outside (entering n) = true
outside (counted n) = true
outside (tested n) = false
outside (behind n) = false

-- The event does not end the lock.
unfoldable pub keeps : ℕ → Event → Bool
keeps owner (calls c a msg) = keeps_lock owner a c
keeps owner (goes c) = true

module _ {Opt Drv World : Type 0} (libs : Libs Opt World) (drivers : Drivers Opt Drv World)
    (owner : ℕ) where
  -- The device is still held, and the thread on its side.
  unfoldable pub Stays : (Pc → Bool) → Pc × (Device Opt Drv × World) → Type 0
  Stays side x = (side x.0 ≡ true) × HeldBy owner x.1.0

  has_owner : (d : Device Opt Drv) → HeldBy owner d → has owner d.users ≡ true
  unfolding has HeldBy
  has_owner d (l, u) = rw u (ground arith)

  has_other : (c : ℕ) (d : Device Opt Drv) → HeldBy owner d → c ≢ owner → has c d.users ≡ false
  unfolding has HeldBy
  has_other c d (l, u) ne = rw u (ground arith)

  after-inside : (n : Next) → inside (after n) ≡ true
  unfolding after inside
  after-inside done = refl
  after-inside locking = refl
  after-inside (asking msg) = refl

  ask_logged-HeldBy :
      (msg : Bytes) (d : Device Opt Drv) (w : World)
      → HeldBy owner d
      → HeldBy owner (ask_logged drivers msg (d, w)).1.0
  unfolding HeldBy
  ask_logged-HeldBy msg d w (l, u) =
      let (u', l') = ask_logged-Keeps drivers msg d w in (l' ∙ l, u' ∙ u)

  set_locked-HeldBy :
      (d : Device Opt Drv) (w : World)
      → HeldBy owner d
      → HeldBy owner (set_locked drivers (d, w)).1.0
  unfolding HeldBy set_locked
  set_locked-HeldBy d w (l, u) = rw u (ground arith)

  no_text-kept :
      (r : Result (Unit {0}) × (Device Opt Drv × World))
      → HeldBy owner r.1.0
      → HeldBy owner (no_text r).1.0
  no_text-kept (ok a, s) h = h
  no_text-kept (err e, s) h = h
  no_text-kept (crash, s) h = h

  pub owner_moves :
      (p : Pc) (d : Device Opt Drv) (w : World)
      → inside p ≡ true
      → HeldBy owner d
      → Stays inside (move libs drivers owner p (d, w))
  unfolding move inside Stays finished
  owner_moves (returned r) d w i h = (refl, h)
  owner_moves (entering n) d w i h = (
    subst (λ b. inside (if b then after n else counted n) ≡ true) (sym (has_owner d h))
        (after-inside n),
    h,
  )
  owner_moves (counted n) d w i h = cc
  owner_moves (tested n) d w i h = cc
  owner_moves (behind done) d w i h = (refl, h)
  owner_moves (behind locking) d w i h =
      (refl, no_text-kept (set_locked drivers (d, w)) (set_locked-HeldBy d w h))
  owner_moves (behind (asking msg)) d w i h = (refl, ask_logged-HeldBy msg d w h)

  pub other_moves :
      (c : ℕ) (p : Pc) (d : Device Opt Drv) (w : World)
      → c ≢ owner
      → outside p ≡ true
      → HeldBy owner d
      → Stays outside (move libs drivers c p (d, w))
  unfolding move outside Stays HeldBy
  other_moves c (returned r) d w ne o h = (refl, h)
  other_moves c (entering n) d w ne o h = (
    subst (λ b. outside (if b then after n else counted n) ≡ true) (sym (has_other c d h ne)) refl,
    h,
  )
  other_moves c (counted n) d w ne o (l, u) = (
    subst (λ b. outside (if b then returned (err (text "device is locked")) else tested n) ≡ true)
        (sym l) refl,
    (l, u),
  )
  other_moves c (tested n) d w ne o h = cc
  other_moves c (behind n) d w ne o h = cc

  no_text-unlocked :
      (r : Result (Unit {0}) × Device Opt Drv) → HeldBy owner r.1 → HeldBy owner (no_text r).1
  no_text-unlocked (ok a, d) h = h
  no_text-unlocked (err e, d) h = h
  no_text-unlocked (crash, d) h = h

  log_get-HeldBy : (c : ℕ) (d : Device Opt Drv) → HeldBy owner d → HeldBy owner (log_get c d).1
  unfolding HeldBy log_get
  log_get-HeldBy c d (l, u) = ground arith

  pub release-HeldBy :
      (c : ℕ) (d : Device Opt Drv) → c ≢ owner → HeldBy owner d → HeldBy owner (release c d)
  unfolding release HeldBy
  release-HeldBy c d ne h = rw (has_other c d h ne) h

  unlock-HeldBy :
      (c : ℕ) (d : Device Opt Drv) → c ≢ owner → HeldBy owner d → HeldBy owner (unlock c d).1
  unfolding unlock HeldBy
  unlock-HeldBy c d ne h = ground (arith, has_other c d h ne)

  pub owner_begins :
      (a : DeviceAction) (msg : Bytes) (d : Device Opt Drv) (w : World)
      → keeps_lock owner a owner ≡ true
      → HeldBy owner d
      → Stays inside (begin libs drivers a owner msg (d, w))
  unfolding begin HeldBy log_start log_finish inside Stays keeps_lock finished call_device
  owner_begins asks msg d w k h = (
    subst (λ b. inside (if b then behind (asking msg) else entering (asking msg)) ≡ true)
        (sym (has_owner d h)) refl,
    h,
  )
  owner_begins locks msg d w k h = (
    subst (λ b. inside (if b then behind locking else entering locking) ≡ true)
        (sym (has_owner d h)) refl,
    h,
  )
  owner_begins uses msg d w k h = (refl, h)
  owner_begins releases msg d w k h = ground arith
  owner_begins unlocks msg d w k h = ground arith
  owner_begins log_starts msg d w k h = (refl, h)
  owner_begins log_finishes msg d w k h = (refl, h)
  owner_begins log_gets msg d w k h = (refl, log_get-HeldBy owner d h)
  owner_begins infos msg d w k h = (refl, h)
  owner_begins closes msg d w k h = cc

  pub other_begins :
      (a : DeviceAction) (c : ℕ) (msg : Bytes) (d : Device Opt Drv) (w : World)
      → c ≢ owner
      → keeps_lock owner a c ≡ true
      → HeldBy owner d
      → Stays outside (begin libs drivers a c msg (d, w))
  unfolding begin HeldBy log_start log_finish outside Stays keeps_lock finished call_device
  other_begins asks c msg d w ne k h = (
    subst (λ b. outside (if b then behind (asking msg) else entering (asking msg)) ≡ true)
        (sym (has_other c d h ne)) refl,
    h,
  )
  other_begins locks c msg d w ne k h = (
    subst (λ b. outside (if b then behind locking else entering locking) ≡ true)
        (sym (has_other c d h ne)) refl,
    h,
  )
  other_begins uses c msg d w ne k h = (refl, h)
  other_begins releases c msg d w ne k h = (refl, release-HeldBy c d ne h)
  other_begins unlocks c msg d w ne k h =
      (refl, no_text-unlocked (unlock c d) (unlock-HeldBy c d ne h))
  other_begins log_starts c msg d w ne k h = (refl, h)
  other_begins log_finishes c msg d w ne k h = (refl, h)
  other_begins log_gets c msg d w ne k h = (refl, log_get-HeldBy c d h)
  other_begins infos c msg d w ne k h = (refl, h)
  other_begins closes c msg d w ne k h = cc
