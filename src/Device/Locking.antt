-- ===== src/Device/Locking.antt =====
-- server/device.cpp: who may use, lock and unlock a device.
use device.Base.{
  ℕ, ◌≡◌, ◌≢◌, refl, true, false, none, some, [], ◌∷◌, arith, ◌==◌, length, ==_iff, Bytes, Result,
  ok, err, crash, inl, inr, Bool-cases, text, continue,
}
use device.Map.{
  NumberSet, number_key, has, lookup, insert, erase, has_only, has-insert, has-erase, lookup-erase,
}
use device.Device.{
  Drivers, Device, release, unlock, use_device, use_if_needed, lock, set_locked, ask,
}
use device.Device.Invariant.{IsSound, has_nil}

-- The locked device belongs to `c`: no other connection is a user.
pub has_other :
    (us : NumberSet) (c j : ℕ) → has c us ≡ true → length us ≡ 1 → c ≢ j → has j us ≡ false
unfolding has
has_other [] c j h e ne = cc
has_other ((i, u) ∷ []) c j h e ne = ground arith
has_other (u ∷ v ∷ us) c j h e ne = absurd (omega arith)

pub erase_only : (us : NumberSet) (c : ℕ) → has c us ≡ true → length us ≡ 1 → erase c us ≡ []
unfolding has erase
erase_only [] c h e = refl
erase_only ((i, u) ∷ []) c h e = ground arith
erase_only (u ∷ v ∷ us) c h e = absurd (omega arith)

insert_nil : (c : ℕ) (us : NumberSet) → us ≡ [] → insert c tt us ≡ (c, tt) ∷ []
unfolding insert
insert_nil c [] e = refl
insert_nil c (u ∷ us) e = cc

module _ {Opt Drv World : Type 0} (drivers : Drivers Opt Drv World) where
  module _ (c j : ℕ) (d : Device Opt Drv) (w : World) (v : IsSound d) (lk : d.locked ≡ true)
      (owner : has c d.users ≡ true) (ne : c ≢ j) where
    not_user : has j d.users ≡ false
    not_user = has_other d.users c j owner (v.exclusive lk) ne

    use-locked : use_device drivers j (d, w) ≡ (err (text "device is locked"), (d, w))
    unfolding use_device
    use-locked = rw (not_user, lk)

    use_if_needed-locked : use_if_needed drivers j (d, w) ≡ (err (text "device is locked"), (d, w))
    unfolding use_if_needed
    use_if_needed-locked = rw not_user use-locked

    -- While connection `c` holds the lock of a sound device, the calls use, ask, lock and unlock of
    -- every other connection are refused, and neither the device nor the world changes.
    pub locked_out :
        (msg : Bytes)
        → (use_device drivers j (d, w) ≡ (err (text "device is locked"), (d, w)))
          × (ask drivers j msg (d, w) ≡ (err (text "device is locked"), (d, w)))
          × (lock drivers j (d, w) ≡ (err (text "device is locked"), (d, w)))
          × (unlock j d ≡ (err (text "device is locked by another connection"), d))
    unfolding ask lock unlock
    locked_out msg =
        (use-locked, rw use_if_needed-locked refl, rw use_if_needed-locked refl, rw (lk, not_user))

  -- Whoever succeeds to use a device is one of its users.
  use_if_needed-has :
      (c : ℕ) (d : Device Opt Drv) (w : World)
      → (use_if_needed drivers c (d, w)).0 ≡ ok tt
      → has c (use_if_needed drivers c (d, w)).1.0.users ≡ true
  unfolding use_if_needed use_device
  use_if_needed-has c d w = ground (arith, has-insert c c tt d.users)

  -- After a successful `lock` the device is locked, and the caller is its only user.
  pub lock_exclusive :
      (c : ℕ) (d : Device Opt Drv) (w : World)
      → (lock drivers c (d, w)).0 ≡ ok tt
      → ((lock drivers c (d, w)).1.0.locked ≡ true)
        × ((lock drivers c (d, w)).1.0.users ≡ (c, tt) ∷ [])
  unfolding lock
  lock_exclusive c d w = go (use_if_needed drivers c (d, w)) (use_if_needed-has c d w)
    where
      go :
          (s : Result (Unit {0}) × (Device Opt Drv × World))
          → (s.0 ≡ ok tt → has c s.1.0.users ≡ true)
          → (continue s (λ _. set_locked drivers)).0 ≡ ok tt
          → ((continue s (λ _. set_locked drivers)).1.0.locked ≡ true)
            × ((continue s (λ _. set_locked drivers)).1.0.users ≡ (c, tt) ∷ [])
      go (ok a, (d', w')) h e = elim (Bool-cases (length d'.users == 1)) [
        | inl one ↦
            rw one (refl, (has_only c d'.users (h refl) ((==_iff (length d'.users) 1).0 one)).1)
        | inr more ↦ ground arith
      ]
      go (err m, s) h e = cc
      go (crash, s) h e = cc

  two_users :
      (us : NumberSet) (c j : ℕ)
      → has c us ≡ true
      → has j us ≡ true
      → c ≢ j
      → (length us == 1) ≡ false
  unfolding has
  two_users [] c j h k ne = cc
  two_users ((i, u) ∷ []) c j h k ne = ground arith
  two_users (u ∷ v ∷ us) c j h k ne = ground arith

  -- `lock` on an open, unlocked device that another connection uses is refused; the device stays
  -- unlocked, the other connection stays its user, and the caller has become a user too.
  pub lock_busy :
      (c j : ℕ) (d : Device Opt Drv) (w : World) (h : Drv)
      → d.locked ≡ false
      → d.drv ≡ some h
      → has j d.users ≡ true
      → c ≢ j
      → ((lock drivers c (d, w)).0 ≡ err (text "Can't lock the device: it is in use"))
        × ((lock drivers c (d, w)).1.0.locked ≡ false)
        × (has j (lock drivers c (d, w)).1.0.users ≡ true)
        × (has c (lock drivers c (d, w)).1.0.users ≡ true)
        × ((lock drivers c (d, w)).1.1 ≡ w)
  unfolding lock use_if_needed use_device
  lock_busy c j d w h unlocked is_open other ne = ground (
    arith,
    has-insert c c tt d.users,
    has-insert c j tt d.users,
    two_users d.users c j,
    two_users (insert c tt d.users) c j,
  )

  -- When the owner of the lock releases a sound device, any other connection can use it: it becomes
  -- the only user, and the driver that the owner had opened is kept, so none is created.
  pub release_hands_over :
      (c j : ℕ) (d : Device Opt Drv) (w : World)
      → IsSound d
      → d.locked ≡ true
      → has c d.users ≡ true
      → use_device drivers j (release c d, w)
          ≡ (ok tt, (record (release c d) { users = (j, tt) ∷ [] }, w))
        × ((release c d).locked ≡ false)
  unfolding use_device release
  release_hands_over c j d w v lk owner = ground (
    arith,
    erase_only d.users c owner (v.exclusive lk),
    has_nil j (erase c d.users),
    insert_nil j (erase c d.users),
    has_nil c d.users,
  )

module _ {Opt Drv : Type 0} where
  -- After `release` the connection is no user of the device and has no log buffer; every other
  -- connection keeps its place and its buffer, and the driver stays open.
  pub release_lem :
      (c j : ℕ) (d : Device Opt Drv)
      → c ≢ j
      → (has c (release c d).users ≡ false)
        × (lookup c (release c d).log_bufs ≡ none)
        × (has j (release c d).users ≡ has j d.users)
        × (lookup j (release c d).log_bufs ≡ lookup j d.log_bufs)
        × ((release c d).drv ≡ d.drv)
  unfolding release
  release_lem c j d ne = (
    ground (arith, has-erase c c d.users),
    ground (arith, lookup-erase c c d.log_bufs),
    ground (arith, has-erase c j d.users),
    ground (arith, lookup-erase c j d.log_bufs),
    ground arith,
  )
