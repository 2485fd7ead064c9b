-- ===== src/Manager/Requests/Held.antt =====
-- server/dev_manager.cpp and server/device.cpp: the lock of one device among the requests on all of
-- them.
use device.Base.{
  ℕ, ◌==◌, ==_iff, ◌≡◌, ◌≢◌, refl, sym, ap, ◌∙◌, subst, arith, Bool, true, false, not, ◌||◌,
  Bool-cases, some, Option-cases, inl, inr, if◌then◌else◌, Bytes, beq, beq_iff, Result,
}
use device.Device.{Drivers, Device}
use device.Manager.{Libs}
use device.Manager.Access.Traces.{keeps_lock}
use device.Manager.Actions.{DeviceAction}
use device.Manager.Requests.{
  At, out, inside, waits, sweeps, Store, Event, requests, reads, leaves, goes, placed, at_end,
  stepped, with_device,
}
use device.Manager.Requests.Fits.{placed_here, placed_other}
use device.Manager.Threads.{Pc, returned, begin, move, same_or_not}
use device.Manager.Threads.Exclusive.Moves
use device.Manager.Threads.Exclusive.Moves.{
  HeldBy, Stays, owner_moves, other_moves, owner_begins, other_begins, release-HeldBy,
}
use device.Map.{Map, bytes_key, number_key, lookup, insert, lookup-insert}

module _ (owner : ℕ) (key : Bytes) where
  -- Where a thread may stand in the device of that name.
  unfoldable pub pc_side : ℕ → Pc → Bool
  pc_side j p = if j == owner then Moves.inside p else Moves.outside p

  -- Where a thread may stand: the owner not in the loop of conn_close, and nobody in read_conf.
  unfoldable pub side : {Opt Drv : Type 0} → ℕ → At Opt Drv → Bool
  unfolding pc_side
  side j (out r) = true
  side j (inside n p) = if beq n key then pc_side j p else true
  side j (waits ret) = false
  side j (sweeps g ns) = not (j == owner)

  -- The event does not end the lock.
  unfoldable pub keeps : Event → Bool
  keeps (requests c a url name msg) = not (beq name key) || keeps_lock owner a c
  keeps (reads c) = false
  keeps (leaves c) = not (c == owner)
  keeps (goes c) = true

  pc_side-returned : (j : ℕ) (r : Result Bytes) → pc_side j (returned r) ≡ true
  unfolding pc_side Moves.inside Moves.outside
  pc_side-returned j r = ground arith

module _ {Opt Drv World : Type 0} (libs : Libs Opt World) (drivers : Drivers Opt Drv World)
    (owner : ℕ) (key : Bytes) where
  -- The device of that name is locked, the owner is its only user, and each thread is on its side.
  pub record IsHeldIn (s : Store Opt Drv World) : Type 0 where
    pub held : (d : Device Opt Drv) × (lookup key s.devices ≡ some d) × HeldBy owner d
    pub sides : (j : ℕ) → side owner key j (s.pos j) ≡ true

  pub placed_sides :
      (pos : ℕ → At Opt Drv) (c : ℕ) (a : At Opt Drv)
      → ((j : ℕ) → side owner key j (pos j) ≡ true)
      → side owner key c a ≡ true
      → (j : ℕ) → side owner key j (placed pos c a j) ≡ true
  placed_sides pos c a h k j = elim (same_or_not c j) [
    | inl e ↦
        subst (λ i. side owner key i (placed pos c a i) ≡ true) e
          (ap (side owner key c) (placed_here pos c a) ∙ k)
    | inr ne ↦ ap (side owner key j) (placed_other pos c j a ne) ∙ h j
  ]

  pub at_end-IsHeldIn :
      (c : ℕ) (r : Result Bytes) (s : Store Opt Drv World)
      → IsHeldIn s
      → IsHeldIn (at_end libs drivers c r s)
  unfolding at_end side
  at_end-IsHeldIn c r s v = record {
    held = v.held;
    sides = placed_sides s.pos c (out r) v.sides refl;
  }

  -- Another device is put back.
  insert_other :
      (name : Bytes) (d : Device Opt Drv) (ds : Map Bytes (Device Opt Drv))
      → beq name key ≡ false
      → lookup key (insert name d ds) ≡ lookup key ds
  insert_other name d ds e =
      lookup-insert name key d ds ∙ ap (λ b. if b then some d else lookup key ds) e

  insert_key :
      (name : Bytes) (d : Device Opt Drv) (ds : Map Bytes (Device Opt Drv))
      → beq name key ≡ true
      → lookup key (insert name d ds) ≡ some d
  insert_key name d ds e =
      lookup-insert name key d ds ∙ ap (λ b. if b then some d else lookup key ds) e

  -- The device of the name `key` stays held when `d` is put at `name`.
  pub held_insert :
      (name : Bytes) (d : Device Opt Drv) (ds : Map Bytes (Device Opt Drv))
      → ((x : Device Opt Drv) × (lookup key ds ≡ some x) × HeldBy owner x)
      → (beq name key ≡ true → HeldBy owner d)
      → (x : Device Opt Drv) × (lookup key (insert name d ds) ≡ some x) × HeldBy owner x
  held_insert name d ds (x, e, h) k = elim (Bool-cases (beq name key)) [
    | inl b ↦ (d, insert_key name d ds b, k b)
    | inr b ↦ (x, insert_other name d ds b ∙ e, h)
  ]

  side-inside :
      (c : ℕ) (name : Bytes) (p : Pc)
      → (beq name key ≡ true → pc_side owner key c p ≡ true)
      → side owner key {Opt = Opt} {Drv = Drv} c (inside name p) ≡ true
  unfolding side
  side-inside c name p k = elim (Bool-cases (beq name key)) [
    | inl b ↦ rw b (k b)
    | inr b ↦ rw b refl
  ]

  pub stepped-IsHeldIn :
      (c : ℕ) (name : Bytes) (x : Pc × (Device Opt Drv × World)) (s : Store Opt Drv World)
      → IsHeldIn s
      → (beq name key ≡ true → Stays libs drivers owner (pc_side owner key c) x)
      → IsHeldIn (stepped libs drivers c name x s)
  unfolding stepped Stays
  stepped-IsHeldIn c name (returned r, (d, w)) s v k =
      at_end-IsHeldIn c r (record s { devices = insert name d s.devices; world = w })
        (record { held = held_insert name d s.devices v.held (λ b. (k b).1); sides = v.sides })
  stepped-IsHeldIn c name (p, (d, w)) s v k = record {
    held = held_insert name d s.devices v.held (λ b. (k b).1);
    sides = placed_sides s.pos c (inside name p) v.sides (side-inside c name p (λ b. (k b).0));
  }

  pc_side_owner : (p : Pc) → pc_side owner key owner p ≡ Moves.inside p
  unfolding pc_side
  pc_side_owner p =
      ap (λ b. if b then Moves.inside p else Moves.outside p) ((==_iff owner owner).1 refl)

  pc_side_other : (c : ℕ) (p : Pc) → c ≢ owner → pc_side owner key c p ≡ Moves.outside p
  unfolding pc_side
  pc_side_other c p ne = ground arith

  -- A step of a thread that may be where it is.
  pub move-Stays :
      (c : ℕ) (p : Pc) (d : Device Opt Drv) (w : World)
      → pc_side owner key c p ≡ true
      → HeldBy owner d
      → Stays libs drivers owner (pc_side owner key c) (move libs drivers c p (d, w))
  unfolding Stays
  move-Stays c p d w k h = elim (same_or_not owner c) [
    | inl e ↦
        subst
          (λ i.
            pc_side owner key i p ≡ true
            → (pc_side owner key i (move libs drivers i p (d, w)).0 ≡ true)
              × HeldBy owner (move libs drivers i p (d, w)).1.0)
          e
          (λ k'.
            let (i, h') = owner_moves libs drivers owner p d w (sym (pc_side_owner p) ∙ k') h in
            (pc_side_owner (move libs drivers owner p (d, w)).0 ∙ i, h'))
          k
    | inr ne ↦
        let ne' : c ≢ owner = λ e. ne (sym e) in
        let (o, h') =
          other_moves libs drivers owner c p d w ne' (sym (pc_side_other c p ne') ∙ k) h in
        (pc_side_other c (move libs drivers c p (d, w)).0 ne' ∙ o, h')
  ]

  pub begin-Stays :
      (a : DeviceAction) (c : ℕ) (msg : Bytes) (d : Device Opt Drv) (w : World)
      → keeps_lock owner a c ≡ true
      → HeldBy owner d
      → Stays libs drivers owner (pc_side owner key c) (begin libs drivers a c msg (d, w))
  unfolding Stays
  begin-Stays a c msg d w k h = elim (same_or_not owner c) [
    | inl e ↦
        subst
          (λ i.
            keeps_lock owner a i ≡ true
            → (pc_side owner key i (begin libs drivers a i msg (d, w)).0 ≡ true)
              × HeldBy owner (begin libs drivers a i msg (d, w)).1.0)
          e
          (λ k'.
            let (i, h') = owner_begins libs drivers owner a msg d w k' h in
            (pc_side_owner (begin libs drivers a owner msg (d, w)).0 ∙ i, h'))
          k
    | inr ne ↦
        let ne' : c ≢ owner = λ e. ne (sym e) in
        let (o, h') = other_begins libs drivers owner a c msg d w ne' k h in
        (pc_side_other c (begin libs drivers a c msg (d, w)).0 ne' ∙ o, h')
  ]

  pub held_at :
      (name : Bytes) (d : Device Opt Drv) (ds : Map Bytes (Device Opt Drv))
      → lookup name ds ≡ some d
      → beq name key ≡ true
      → ((x : Device Opt Drv) × (lookup key ds ≡ some x) × HeldBy owner x)
      → HeldBy owner d
  held_at name d ds e b (x, l, h) =
      let same : some x ≡ some d =
        sym l ∙ ap (λ n. lookup n ds) (sym ((beq_iff name key).0 b)) ∙ e in
      subst (HeldBy owner) (ground arith) h

  -- A step on the device that is found, where it is the held one.
  pub with_device-IsHeldIn :
      (c : ℕ) (name : Bytes) (missing : Result Bytes)
      (f : Device Opt Drv × World → Pc × (Device Opt Drv × World)) (s : Store Opt Drv World)
      → IsHeldIn s
      → ((d : Device Opt Drv)
          → beq name key ≡ true
          → HeldBy owner d
          → Stays libs drivers owner (pc_side owner key c) (f (d, s.world)))
      → IsHeldIn (with_device libs drivers c name missing f s)
  unfolding with_device
  with_device-IsHeldIn c name missing f s v k = elim (Option-cases (lookup name s.devices)) [
    | inl e ↦ rw (e, with_device) (at_end-IsHeldIn c missing s v)
    | inr (d, e) ↦
        rw (e, with_device)
          (stepped-IsHeldIn c name (f (d, s.world)) s v
            (λ b. k d b (held_at name d s.devices e b v.held)))
  ]
