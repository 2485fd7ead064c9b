-- ===== src/Manager/Requests/Fits.antt =====
-- server/dev_manager.cpp: a thread in a device has the shared lock of the manager, and the map has
-- the device.
use device.Base.{
  ℕ, ◌==◌, ◌≡◌, ◌≢◌, sym, subst, arith, true, Option-cases, [], ◌∷◌, inl, inr, length, Bytes,
  Result,
}
use device.Device.{Drivers, Device}
use device.Manager.{Libs}
use device.Manager.Requests.{At, out, inside, Store, placed, at_end, stepped, with_device}
use device.Manager.Threads.{Pc, returned, same_or_not}
use device.Map.{
  Map, NumberSet, bytes_key, number_key, has, lookup, insert, erase, has-insert, has-erase,
}

abbrev Grows : {D : Type 0} → Map Bytes D → Map Bytes D → Type 0
Grows ds ds' = (n : Bytes) → has n ds ≡ true → has n ds' ≡ true

module _ {Opt Drv : Type 0} where
  -- A thread in a device has the shared lock, and the map has the device.
  unfoldable pub Fits : NumberSet → Map Bytes (Device Opt Drv) → ℕ → At Opt Drv → Type 0
  Fits hs ds c (inside name p) = (has c hs ≡ true) × (has name ds ≡ true)
  Fits hs ds c _ = Unit

  Fits-Grows :
      (hs hs' : NumberSet) (ds ds' : Map Bytes (Device Opt Drv)) (c : ℕ) (a : At Opt Drv)
      → (has c hs ≡ true → has c hs' ≡ true)
      → Grows ds ds'
      → Fits hs ds c a
      → Fits hs' ds' c a
  unfolding Fits
  Fits-Grows hs hs' ds ds' c (inside name p) h g (f, k) = (h f, g name k)
  Fits-Grows hs hs' ds ds' c _ h g f = tt

  pub insert-Grows :
      (n : Bytes) (d : Device Opt Drv) (ds : Map Bytes (Device Opt Drv)) → Grows ds (insert n d ds)
  insert-Grows n d ds k h = ground (arith, has-insert n k d ds)

  -- With no thread that has the lock, there is none in a device.
  pub nobody-Fits :
      (hs : NumberSet) (ds ds' : Map Bytes (Device Opt Drv)) (c : ℕ) (a : At Opt Drv)
      → (length hs == 0) ≡ true
      → Fits hs ds c a
      → Fits hs ds' c a
  unfolding Fits has
  nobody-Fits [] ds ds' c (inside name p) h (f, k) = absurd (ground arith)
  nobody-Fits (x ∷ hs) ds ds' c (inside name p) h f = absurd (ground arith)
  nobody-Fits hs ds ds' c _ h f = tt

  pub placed_here : (pos : ℕ → At Opt Drv) (c : ℕ) (a : At Opt Drv) → placed pos c a c ≡ a
  unfolding placed
  placed_here pos c a = ground arith

  pub placed_other :
      (pos : ℕ → At Opt Drv) (c j : ℕ) (a : At Opt Drv) → c ≢ j → placed pos c a j ≡ pos j
  unfolding placed
  placed_other pos c j a ne = ground arith

module _ {Opt Drv World : Type 0} (libs : Libs Opt World) (drivers : Drivers Opt Drv World) where
  unfoldable pub IsFit : Store Opt Drv World → Type 0
  IsFit s = (c : ℕ) → Fits s.holders s.devices c (s.pos c)

  -- The thread `c` moves to `a`; the others keep the lock, and the devices are still there.
  pub placed-Fits :
      (s : Store Opt Drv World) (c : ℕ) (a : At Opt Drv) (hs : NumberSet)
      (ds : Map Bytes (Device Opt Drv))
      → ((j : ℕ) → c ≢ j → has j s.holders ≡ true → has j hs ≡ true)
      → Grows s.devices ds
      → Fits hs ds c a
      → IsFit s
      → (j : ℕ) → Fits hs ds j (placed s.pos c a j)
  unfolding IsFit
  placed-Fits s c a hs ds h g f v j = elim (same_or_not c j) [
    | inl e ↦
        subst (λ i. Fits hs ds i (placed s.pos c a i)) e
          (subst (Fits hs ds c) (sym (placed_here s.pos c a)) f)
    | inr ne ↦
        subst (Fits hs ds j) (sym (placed_other s.pos c j a ne))
          (Fits-Grows s.holders hs s.devices ds j (s.pos j) (h j ne) g (v j))
  ]

  erase_other : (c j : ℕ) (hs : NumberSet) → c ≢ j → has j hs ≡ true → has j (erase c hs) ≡ true
  erase_other c j hs ne h = ground (arith, has-erase c j hs)

  insert_other : (c j : ℕ) (hs : NumberSet) → has j hs ≡ true → has j (insert c tt hs) ≡ true
  insert_other c j hs h = ground (arith, has-insert c j tt hs)

  pub at_end-IsFit :
      (c : ℕ) (r : Result Bytes) (s : Store Opt Drv World)
      → IsFit s
      → IsFit (at_end libs drivers c r s)
  unfolding at_end IsFit Fits
  at_end-IsFit c r s v =
      placed-Fits s c (out r) (erase c s.holders) s.devices (λ j ne. erase_other c j s.holders ne)
        (λ n h. h) tt v

  -- A step in a device that is there.
  stepped-IsFit :
      (c : ℕ) (name : Bytes) (x : Pc × (Device Opt Drv × World)) (s : Store Opt Drv World)
      → IsFit s
      → IsFit (stepped libs drivers c name x s)
  unfolding stepped at_end IsFit Fits
  stepped-IsFit c name (returned r, (d, w)) s v =
      placed-Fits s c (out r) (erase c s.holders) (insert name d s.devices)
        (λ j ne. erase_other c j s.holders ne) (insert-Grows name d s.devices) tt v
  stepped-IsFit c name (p, (d, w)) s v =
      placed-Fits s c (inside name p) (insert c tt s.holders) (insert name d s.devices)
        (λ j ne. insert_other c j s.holders) (insert-Grows name d s.devices)
        (
          ground (arith, has-insert c c tt s.holders),
          ground (arith, has-insert name name d s.devices, bytes_key.eqb_iff name name),
        )
        v

  pub with_device-IsFit :
      (c : ℕ) (name : Bytes) (missing : Result Bytes)
      (f : Device Opt Drv × World → Pc × (Device Opt Drv × World)) (s : Store Opt Drv World)
      → IsFit s
      → IsFit (with_device libs drivers c name missing f s)
  unfolding with_device
  with_device-IsFit c name missing f s v = elim (Option-cases (lookup name s.devices)) [
    | inl e ↦ rw (e, with_device) (at_end-IsFit c missing s v)
    | inr (d, e) ↦ rw (e, with_device) (stepped-IsFit c name (f (d, s.world)) s v)
  ]
