-- ===== src/Manager/Access/Leave.antt =====
-- server/device.cpp: release and unlock meet the specification of users and locks.
use device.Base.{
  ℕ, ◌≡◌, refl, sym, ap, ◌∙◌, text, inl, inr, arith, true, false, [], ◌∷◌, ok, err, Bool-cases,
}
use device.Map.{NumberSet, number_key, has, erase, has_only}
use device.Device.{Device, release, unlock}
use device.Device.Invariant.{IsSound}
use device.Device.Locking.{erase_only}
use device.Manager.Access.{shared, nobody, joined, Leaves, Unlocks, is_ok, view}
use device.Manager.Access.Enters.{members-erase, view-shared, view-held, owner_has}

erase_absent : (c : ℕ) (us : NumberSet) → has c us ≡ false → erase c us ≡ us
unfolding has erase
erase_absent c [] h = refl
erase_absent c ((j, u) ∷ us) h = ground (arith, erase_absent c us)

-- An unlocked device without users.
pub view-nobody :
    {Opt Drv : Type 0} (e : Device Opt Drv)
    → e.locked ≡ false
    → e.users ≡ []
    → view e ≡ shared nobody
unfolding has
view-nobody e l u = view-shared e l ∙ ap (λ (us : NumberSet). shared (λ j. has j us)) u

module _ {Opt Drv : Type 0} (c : ℕ) (d : Device Opt Drv) where
  release-locked : has c d.users ≡ true → (release c d).locked ≡ false
  unfolding release
  release-locked u = rw u refl

  pub release-users : (release c d).users ≡ erase c d.users
  unfolding release
  release-users = elim (Bool-cases (has c d.users)) [
    | inl u ↦ rw u refl
    | inr u ↦ rw u (sym (erase_absent c d.users u))
  ]

  release-stranger : has c d.users ≡ false → view (release c d) ≡ view d
  unfolding release view
  release-stranger u = rw u refl

  pub release-Leaves : IsSound d → Leaves c (view d) (view (release c d))
  unfolding Leaves
  release-Leaves v = elim (Bool-cases d.locked) [
    | inl k ↦ rw (view-held d k) (elim (Bool-cases (has c d.users)) [
      | inl u ↦
          view-nobody (release c d) (release-locked u)
            (release-users ∙ erase_only d.users c u (v.exclusive k))
          ∙ ground (arith, owner_has d c v k)
      | inr u ↦ release-stranger u ∙ view-held d k ∙ ground (arith, owner_has d c v k)
    ])
    | inr k ↦ rw (view-shared d k) (elim (Bool-cases (has c d.users)) [
      | inl u ↦
          view-shared (release c d) (release-locked u)
          ∙ ap (λ (us : NumberSet). shared (λ j. has j us)) release-users
          ∙ ap shared (members-erase c d.users)
      | inr u ↦
          release-stranger u
          ∙ view-shared d k
          ∙ ap (λ (us : NumberSet). shared (λ j. has j us)) (sym (erase_absent c d.users u))
          ∙ ap shared (members-erase c d.users)
    ])
  ]

  owner_alone :
      IsSound d
      → d.locked ≡ true
      → has c d.users ≡ true
      → view (record d { locked = false }) ≡ shared (joined c nobody)
  owner_alone v k u =
      let (x, only) = has_only c d.users u (v.exclusive k) in
      view-shared (record d { locked = false }) refl
      ∙ ap (λ (us : NumberSet). shared (λ j. has j us)) only
      ∙ unfold has in refl

  unlock-owner :
      d.locked ≡ true → has c d.users ≡ true → unlock c d ≡ (ok tt, record d { locked = false })
  unfolding unlock
  unlock-owner k u = rw (k, u) refl

  unlock-stranger :
      d.locked ≡ true
      → has c d.users ≡ false
      → unlock c d ≡ (err (text "device is locked by another connection"), d)
  unfolding unlock
  unlock-stranger k u = ground arith

  unlock-free : d.locked ≡ false → unlock c d ≡ (ok tt, d)
  unfolding unlock
  unlock-free k = ground arith

  pub unlock-Unlocks : IsSound d → Unlocks c (view d) (is_ok (unlock c d).0) (view (unlock c d).1)
  unfolding Unlocks
  unlock-Unlocks v = elim (Bool-cases d.locked) [
    | inl k ↦ elim (Bool-cases (has c d.users)) [
      | inl u ↦
          rw (unlock-owner k u, view-held d k)
            (ground (arith, owner_has d c v k), owner_alone v k u)
      | inr u ↦ rw (unlock-stranger k u, view-held d k) (ground (arith, owner_has d c v k), refl)
    ]
    | inr k ↦ rw (unlock-free k, view-shared d k) refl
  ]
