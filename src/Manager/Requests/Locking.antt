-- ===== src/Manager/Requests/Locking.antt =====
-- server/dev_manager.cpp and server/device.cpp: what the lock of one device is worth among the
-- requests on all of them.
use device.Base.{
  ℕ, ◌==◌, ◌≡◌, ◌≢◌, arith, Bool, true, false, not, Bool-cases, Option-cases, All, List, [], ◌∷◌,
  ◌++◌, inl, inr, if◌then◌else◌, Bytes, text, ok, err, crash,
}
use device.Device.{Drivers, release}
use device.Manager.{Libs}
use device.Map.Names.{keys}
use device.Manager.Requests.{
  At, out, inside, waits, sweeps, Store, Event, requests, reads, leaves, goes, is_out, release_next,
  swept, sweep_from, next_step, first_step, step, interleave,
}
use device.Manager.Threads.{begin, move}
use device.Manager.Threads.Exclusive.Moves.{release-HeldBy}
use device.Map.{bytes_key, number_key, lookup}
use device.Manager.Requests.Held.{
  side, keeps, IsHeldIn, placed_sides, held_insert, held_at, at_end-IsHeldIn, with_device-IsHeldIn,
  move-Stays, begin-Stays,
}

module _ {Opt Drv World : Type 0} (libs : Libs Opt World) (drivers : Drivers Opt Drv World)
    (owner : ℕ) (key : Bytes) where
  abbrev IsHere : Store Opt Drv World → Type 0
  IsHere = IsHeldIn libs drivers owner key

  not_same : (c : ℕ) → not (c == owner) ≡ true → c ≢ owner
  not_same c h e = ground arith

  release_next-IsHeldIn :
      (c g : ℕ) (ns : List Bytes) (s : Store Opt Drv World)
      → not (c == owner) ≡ true
      → IsHere s
      → IsHere (release_next libs drivers c g ns s)
  unfolding release_next side
  release_next-IsHeldIn c g [] s ne v = at_end-IsHeldIn libs drivers owner key c (ok []) s v
  release_next-IsHeldIn c g (n ∷ ns) s ne v = elim (Option-cases (lookup n s.devices)) [
    | inl e ↦ rw (e, release_next) (at_end-IsHeldIn libs drivers owner key c crash s v)
    | inr (d, e) ↦
        rw (e, release_next)
          (record {
            held = held_insert libs drivers owner key n (release c d) s.devices v.held (λ b.
                release-HeldBy libs drivers owner c d (not_same c ne)
                  (held_at libs drivers owner key n d s.devices e b v.held));
            sides = placed_sides libs drivers owner key s.pos c (sweeps g ns) v.sides ne;
          })
  ]

  swept-IsHeldIn :
      (c g : ℕ) (ns : List Bytes) (s : Store Opt Drv World)
      → not (c == owner) ≡ true
      → IsHere s
      → IsHere (swept libs drivers c g ns s)
  unfolding swept
  swept-IsHeldIn c g ns s ne v = elim (Bool-cases (g == s.reloads)) [
    | inl e ↦ rw (e, swept) (release_next-IsHeldIn c g ns s ne v)
    | inr e ↦ rw (e, swept) (at_end-IsHeldIn libs drivers owner key c crash s v)
  ]

  sweep_from-IsHeldIn :
      (c : ℕ) (ns : List Bytes) (s : Store Opt Drv World)
      → not (c == owner) ≡ true
      → IsHere s
      → IsHere (sweep_from libs drivers c ns s)
  unfolding sweep_from side
  sweep_from-IsHeldIn c [] s ne v = at_end-IsHeldIn libs drivers owner key c (ok []) s v
  sweep_from-IsHeldIn c (n ∷ ns) s ne v = record {
    held = v.held;
    sides = placed_sides libs drivers owner key s.pos c (sweeps s.reloads (n ∷ ns)) v.sides ne;
  }

  next_step-IsHeldIn :
      (c : ℕ) (a : At Opt Drv) (s : Store Opt Drv World)
      → side owner key c a ≡ true
      → IsHere s
      → IsHere (next_step libs drivers c a s)
  unfolding next_step side
  next_step-IsHeldIn c (out r) s k v = v
  next_step-IsHeldIn c (inside name p) s k v =
      with_device-IsHeldIn libs drivers owner key c name crash (move libs drivers c p) s v
        (λ d b h. move-Stays libs drivers owner key c p d s.world (ground arith) h)
  next_step-IsHeldIn c (waits ret) s k v = absurd (cc)
  next_step-IsHeldIn c (sweeps g ns) s k v = swept-IsHeldIn c g ns s k v

  first_step-IsHeldIn :
      (e : Event) (s : Store Opt Drv World)
      → keeps owner key e ≡ true
      → IsHere s
      → IsHere (first_step libs drivers e s)
  unfolding first_step keeps
  first_step-IsHeldIn (requests c a url [] msg) s k v =
      at_end-IsHeldIn libs drivers owner key c _ s v
  first_step-IsHeldIn (requests c a url (b ∷ name) msg) s k v =
      with_device-IsHeldIn libs drivers owner key c (b ∷ name)
        (err (text "unknown device: " ++ b ∷ name)) (begin libs drivers a c msg) s v
        (λ d e h. begin-Stays libs drivers owner key a c msg d s.world (ground arith) h)
  first_step-IsHeldIn (reads c) s k v = absurd (cc)
  first_step-IsHeldIn (leaves c) s k v = sweep_from-IsHeldIn c (keys s.devices) s k v
  first_step-IsHeldIn (goes c) s k v = v

  called-IsHeldIn :
      (b : Bool) (e : Event) (s : Store Opt Drv World)
      → keeps owner key e ≡ true
      → IsHere s
      → IsHere (if b then first_step libs drivers e s else s)
  called-IsHeldIn true e s k v = first_step-IsHeldIn e s k v
  called-IsHeldIn false e s k v = v

  step-IsHeldIn :
      (e : Event) (s : Store Opt Drv World)
      → keeps owner key e ≡ true
      → IsHere s
      → IsHere (step libs drivers e s)
  unfolding step
  step-IsHeldIn (goes c) s k v = next_step-IsHeldIn c (s.pos c) s (v.sides c) v
  step-IsHeldIn (requests c a url name msg) s k v =
      called-IsHeldIn (is_out (s.pos c)) (requests c a url name msg) s k v
  step-IsHeldIn (reads c) s k v = called-IsHeldIn (is_out (s.pos c)) (reads c) s k v
  step-IsHeldIn (leaves c) s k v = called-IsHeldIn (is_out (s.pos c)) (leaves c) s k v

  -- Once a connection holds the lock of a device as its only user, no other thread is between its
  -- test of `locked` there and the end of its call, and nobody is in read_conf: let any connections
  -- make any requests on any devices, be closed, and go on in any order. The device stays locked
  -- with the owner as its only user, and no other thread comes past the test, unless the owner
  -- releases or unlocks the device or its connection is closed, somebody closes the device, or the
  -- configuration is reloaded.
  pub interleave-IsHeldIn :
      (es : List Event) (s : Store Opt Drv World)
      → IsHeldIn libs drivers owner key s
      → All (λ e. keeps owner key e ≡ true) es
      → IsHeldIn libs drivers owner key (interleave libs drivers es s)
  unfolding interleave
  interleave-IsHeldIn [] s v k = v
  interleave-IsHeldIn (e ∷ es) s v (k, ks) =
      interleave-IsHeldIn es (step libs drivers e s) (step-IsHeldIn e s k v) ks
