-- ===== src/Manager/Requests/Dangling.antt =====
-- server/dev_manager.cpp: the shared lock and the devices that requests hold references to.
use device.Base.{
  ℕ, suc, ◌==◌, ◌≡◌, refl, ap, ◌∙◌, subst, arith, Bool, true, false, Bool-cases, Option, none, some,
  Option-cases, List, [], ◌∷◌, ◌++◌, inl, inr, if◌then◌else◌, length, Bytes, text, Result, ok, err,
  crash,
}
use device.Device.{Drivers, Device, release}
use device.Manager.{Libs, ConfLine}
use device.Manager.Conf.{copy_all}
use device.Map.Names.{keys}
use device.Manager.Requests.{
  At, out, inside, waits, sweeps, Store, Event, requests, reads, leaves, goes, is_out, stepped,
  with_device, parsed, conf_opened, map_assigned, release_next, swept, sweep_from, next_step,
  first_step, step, interleave,
}
use device.Manager.Threads.{Pc, begin, move}
use device.Map.{Map, NumberSet, bytes_key, number_key, has, lookup, insert, has-lookup}
use device.Manager.Requests.Fits.{
  Fits, nobody-Fits, insert-Grows, IsFit, placed-Fits, at_end-IsFit, with_device-IsFit,
}

module _ {Opt Drv World : Type 0} (libs : Libs Opt World) (drivers : Drivers Opt Drv World) where
  parsed-IsFit :
      (c : ℕ) (r : Result (Map Bytes (Device Opt Drv))) (s : Store Opt Drv World)
      → IsFit libs drivers s
      → IsFit libs drivers (parsed libs drivers c r s)
  unfolding parsed IsFit Fits
  parsed-IsFit c (ok ret) s v =
      placed-Fits libs drivers s c (waits ret) s.holders s.devices (λ j ne h. h) (λ n h. h) tt v
  parsed-IsFit c (err e) s v = at_end-IsFit libs drivers c (err e) s v
  parsed-IsFit c crash s v = at_end-IsFit libs drivers c crash s v

  conf_opened-IsFit :
      (c : ℕ) (file : Option (List ConfLine) × World) (s : Store Opt Drv World)
      → IsFit libs drivers s
      → IsFit libs drivers (conf_opened libs drivers c file s)
  unfolding conf_opened IsFit
  conf_opened-IsFit c (none, w) s v = at_end-IsFit libs drivers c _ (record s { world = w }) v
  conf_opened-IsFit c (some ls, w) s v = parsed-IsFit c _ (record s { world = w }) v

  map_assigned-IsFit :
      (c : ℕ) (ret : Map Bytes (Device Opt Drv)) (s : Store Opt Drv World)
      → IsFit libs drivers s
      → IsFit libs drivers (map_assigned libs drivers c ret s)
  unfolding map_assigned IsFit
  map_assigned-IsFit c ret s v = elim (Bool-cases (length s.holders == 0)) [
    | inl e ↦
        rw (e, map_assigned)
          (at_end-IsFit libs drivers c (ok [])
            (record s { devices = copy_all ret; reloads = suc s.reloads })
            (λ j. nobody-Fits s.holders s.devices (copy_all ret) j (s.pos j) e (v j)))
    | inr e ↦ rw (e, map_assigned) v
  ]

  release_next-IsFit :
      (c g : ℕ) (ns : List Bytes) (s : Store Opt Drv World)
      → IsFit libs drivers s
      → IsFit libs drivers (release_next libs drivers c g ns s)
  unfolding release_next IsFit Fits
  release_next-IsFit c g [] s v = at_end-IsFit libs drivers c (ok []) s v
  release_next-IsFit c g (n ∷ ns) s v = elim (Option-cases (lookup n s.devices)) [
    | inl e ↦ rw (e, release_next) (at_end-IsFit libs drivers c crash s v)
    | inr (d, e) ↦
        rw (e, release_next)
          (placed-Fits libs drivers s c (sweeps g ns) s.holders (insert n (release c d) s.devices)
            (λ j ne h. h) (insert-Grows n (release c d) s.devices) tt v)
  ]

  swept-IsFit :
      (c g : ℕ) (ns : List Bytes) (s : Store Opt Drv World)
      → IsFit libs drivers s
      → IsFit libs drivers (swept libs drivers c g ns s)
  unfolding swept
  swept-IsFit c g ns s v = elim (Bool-cases (g == s.reloads)) [
    | inl e ↦ rw (e, swept) (release_next-IsFit c g ns s v)
    | inr e ↦ rw (e, swept) (at_end-IsFit libs drivers c crash s v)
  ]

  sweep_from-IsFit :
      (c : ℕ) (ns : List Bytes) (s : Store Opt Drv World)
      → IsFit libs drivers s
      → IsFit libs drivers (sweep_from libs drivers c ns s)
  unfolding sweep_from IsFit Fits
  sweep_from-IsFit c [] s v = at_end-IsFit libs drivers c (ok []) s v
  sweep_from-IsFit c (n ∷ ns) s v =
      placed-Fits libs drivers s c (sweeps s.reloads (n ∷ ns)) s.holders s.devices (λ j ne h. h)
        (λ n h. h) tt v

  next_step-IsFit :
      (c : ℕ) (a : At Opt Drv) (s : Store Opt Drv World)
      → IsFit libs drivers s
      → IsFit libs drivers (next_step libs drivers c a s)
  unfolding next_step
  next_step-IsFit c (out r) s v = v
  next_step-IsFit c (inside name p) s v =
      with_device-IsFit libs drivers c name crash (move libs drivers c p) s v
  next_step-IsFit c (waits ret) s v = map_assigned-IsFit c ret s v
  next_step-IsFit c (sweeps g ns) s v = swept-IsFit c g ns s v

  first_step-IsFit :
      (e : Event) (s : Store Opt Drv World)
      → IsFit libs drivers s
      → IsFit libs drivers (first_step libs drivers e s)
  unfolding first_step
  first_step-IsFit (requests c a url [] msg) s v = at_end-IsFit libs drivers c _ s v
  first_step-IsFit (requests c a url (b ∷ name) msg) s v =
      with_device-IsFit libs drivers c (b ∷ name) (err (text "unknown device: " ++ b ∷ name))
        (begin libs drivers a c msg) s v
  first_step-IsFit (reads c) s v = conf_opened-IsFit c (libs.read_file s.devfile s.world) s v
  first_step-IsFit (leaves c) s v = sweep_from-IsFit c (keys s.devices) s v
  first_step-IsFit (goes c) s v = v

  called-IsFit :
      (b : Bool) (e : Event) (s : Store Opt Drv World)
      → IsFit libs drivers s
      → IsFit libs drivers (if b then first_step libs drivers e s else s)
  called-IsFit true e s v = first_step-IsFit e s v
  called-IsFit false e s v = v

  step-IsFit :
      (e : Event) (s : Store Opt Drv World)
      → IsFit libs drivers s
      → IsFit libs drivers (step libs drivers e s)
  unfolding step
  step-IsFit (goes c) s v = next_step-IsFit c (s.pos c) s v
  step-IsFit (requests c a url name msg) s v =
      called-IsFit (is_out (s.pos c)) (requests c a url name msg) s v
  step-IsFit (reads c) s v = called-IsFit (is_out (s.pos c)) (reads c) s v
  step-IsFit (leaves c) s v = called-IsFit (is_out (s.pos c)) (leaves c) s v

  interleave-IsFit :
      (es : List Event) (s : Store Opt Drv World)
      → IsFit libs drivers s
      → IsFit libs drivers (interleave libs drivers es s)
  unfolding interleave
  interleave-IsFit [] s v = v
  interleave-IsFit (e ∷ es) s v = interleave-IsFit es (step libs drivers e s) (step-IsFit e s v)

  interleave-append :
      (es fs : List Event) (s : Store Opt Drv World)
      → interleave libs drivers (es ++ fs) s
        ≡ interleave libs drivers fs (interleave libs drivers es s)
  unfolding interleave
  interleave-append [] fs s = refl
  interleave-append (e ∷ es) fs s = interleave-append es fs (step libs drivers e s)

  out-Fits :
      (hs : NumberSet) (ds : Map Bytes (Device Opt Drv)) (c : ℕ) (a : At Opt Drv)
      → is_out a ≡ true
      → Fits hs ds c a
  unfolding Fits is_out
  out-Fits hs ds c (out r) h = tt
  out-Fits hs ds c (inside name p) h = absurd (cc)
  out-Fits hs ds c (waits ret) h = tt
  out-Fits hs ds c (sweeps g ns) h = tt

  with_device-found :
      (c : ℕ) (name : Bytes) (missing : Result Bytes)
      (f : Device Opt Drv × World → Pc × (Device Opt Drv × World)) (s : Store Opt Drv World)
      (d : Device Opt Drv)
      → lookup name s.devices ≡ some d
      → with_device libs drivers c name missing f s ≡ stepped libs drivers c name (f (d, s.world)) s
  unfolding with_device
  with_device-found c name missing f s d e = rw (e, with_device) refl

  has-found :
      (n : Bytes) (ds : Map Bytes (Device Opt Drv))
      → has n ds ≡ true
      → (d : Device Opt Drv) × (lookup n ds ≡ some d)
  has-found n ds h = elim (Option-cases (lookup n ds)) [
    | inl e ↦ absurd (ground (arith, has-lookup n ds))
    | inr x ↦ x
  ]

  -- A thread that fits has its device, and makes its next step on it.
  finds :
      (c : ℕ) (name : Bytes) (p : Pc) (t : Store Opt Drv World)
      → t.pos c ≡ inside name p
      → Fits t.holders t.devices c (t.pos c)
      → (has c t.holders ≡ true)
        × ((d : Device Opt Drv) × (lookup name t.devices ≡ some d)
            × (step libs drivers (goes c) t
                ≡ stepped libs drivers c name (move libs drivers c p (d, t.world)) t))
  unfolding Fits step next_step
  finds c name p t e f =
      let (h, k) = subst (Fits t.holders t.devices c) e f in
      let (d, l) = has-found name t.devices k in
      (
        h,
        (
          d,
          l,
          ap (λ a. next_step libs drivers c a t) e
              ∙ with_device-found c name crash (move libs drivers c p) t d l,
        ),
      )

  -- Whatever requests, reloads and closed connections do in any order: a thread in a call on a
  -- device has the shared lock, the map still has the device of that name, and the next step of the
  -- thread is one of Device on it. At the beginning no thread is in a call.
  pub interleave_finds :
      (es : List Event) (s : Store Opt Drv World) (c : ℕ) (name : Bytes) (p : Pc)
      → ((j : ℕ) → is_out (s.pos j) ≡ true)
      → (interleave libs drivers es s).pos c ≡ inside name p
      → (has c (interleave libs drivers es s).holders ≡ true)
        × ((d : Device Opt Drv) × (lookup name (interleave libs drivers es s).devices ≡ some d)
            × (interleave libs drivers (es ++ goes c ∷ []) s
                ≡ stepped libs drivers c name
                    (move libs drivers c p (d, (interleave libs drivers es s).world))
                    (interleave libs drivers es s)))
  unfolding IsFit interleave
  interleave_finds es s c name p free e =
      let t = interleave libs drivers es s in
      let (h, (d, l, k)) =
        finds c name p t e
          (interleave-IsFit es s (λ j. out-Fits s.holders s.devices j (s.pos j) (free j)) c) in
      (h, (d, l, interleave-append es (goes c ∷ []) s ∙ k))
