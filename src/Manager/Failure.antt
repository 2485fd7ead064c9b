-- ===== src/Manager/Failure.antt =====
-- DevManager::read_conf of server/dev_manager.cpp: a reload that fails.
use device.Base.{
  ◌≡◌, ◌≢◌, refl, ◌⊎◌, Option, none, some, List, [], ◌∷◌, arith, drop, Bytes, Result, ok, err,
  crash, inl, inr,
}
use device.Map.{Map, bytes_key}
use device.Device.{Device}
use device.Manager.{Libs, ConfLine, Words, words, failed, Manager}
use device.Manager.Conf.{
  read_pairs, read_device, read_lines, read_opened, applied, read_conf, add_device,
}

-- Every check of a line throws an error, and no other outcome is left.
read_pairs_safe :
    {Opt World : Type 0} (libs : Libs Opt World) (ps : List Bytes) (o : Opt)
    → read_pairs libs ps o ≢ crash
unfolding read_pairs
read_pairs_safe libs [] o e = cc
read_pairs_safe libs (p ∷ []) o e = cc
read_pairs_safe libs (p ∷ v ∷ rest) o e =
    ground (arith, read_pairs_safe libs rest (libs.opt_put (drop 1 p) v o))

module _ {Opt Drv World : Type 0} (libs : Libs Opt World) where
  read_device_safe :
      (vs : List Bytes) (ds : Map Bytes (Device Opt Drv)) → read_device libs vs ds ≢ crash
  unfolding read_device add_device
  read_device_safe (dev ∷ drv ∷ args) ds = ground (arith, read_pairs_safe libs args libs.opt_empty)
  read_device_safe _ ds = ground arith

  pub read_lines_safe :
      (f : Bytes) (ls : List ConfLine) (ds : Map Bytes (Device Opt Drv))
      → read_lines libs f ls ds ≢ crash
  unfolding read_lines
  read_lines_safe f [] ds = ground arith
  read_lines_safe f (l ∷ ls) ds = go l.text refl (read_lines_safe f ls)
    where
      next :
          (v : Bytes) (vs : List Bytes)
          → l.text ≡ words (v ∷ vs)
          → (r : Result (Map Bytes (Device Opt Drv))) → read_device libs (v ∷ vs) ds ≡ r
          → ((ds' : Map Bytes (Device Opt Drv)) → read_lines libs f ls ds' ≢ crash)
          → read_lines libs f (l ∷ ls) ds ≢ crash
      next v vs e (ok ds') k ih x = ground (arith, ih ds')
      next v vs e (err m) k ih x = ground arith
      next v vs e crash k ih x = read_device_safe (v ∷ vs) ds k

      go :
          (r : Words)
          → l.text ≡ r
          → ((ds' : Map Bytes (Device Opt Drv)) → read_lines libs f ls ds' ≢ crash)
          → read_lines libs f (l ∷ ls) ds ≢ crash
      go (words []) e ih = ground arith
      go (words (v ∷ vs)) e ih = next v vs e (read_device libs (v ∷ vs) ds) refl ih
      go (failed m) e ih = ground arith

  -- A reload ends without an error, or it throws one and leaves the manager as it was: the devices
  -- with their users, locks, drivers and logs, and the names. It never runs into undefined behaviour.
  pub read_conf_atomic :
      (m : Manager Opt Drv) (w : World)
      → ((read_conf libs (m, w)).0 ≡ ok tt)
        ⊎ ((e : Bytes) × ((read_conf libs (m, w)).0 ≡ err e) × ((read_conf libs (m, w)).1.0 ≡ m))
  unfolding read_conf
  read_conf_atomic m w = go (libs.read_file m.devfile w).0 (libs.read_file m.devfile w).1
    where
      apply :
          (r : Result (Map Bytes (Device Opt Drv))) (w : World)
          → r ≢ crash
          → ((applied libs r (m, w)).0 ≡ ok tt)
            ⊎ ((e : Bytes) × ((applied libs r (m, w)).0 ≡ err e)
                × ((applied libs r (m, w)).1.0 ≡ m))
      apply (ok ds) w h = inl refl
      apply (err x) w h = inr (x, refl, refl)
      apply crash w h = absurd (h refl)

      go :
          (f : Option (List ConfLine)) (w : World)
          → ((read_opened libs f (m, w)).0 ≡ ok tt)
            ⊎ ((e : Bytes) × ((read_opened libs f (m, w)).0 ≡ err e)
                × ((read_opened libs f (m, w)).1.0 ≡ m))
      go none w = inr (_, refl, refl)
      go (some ls) w = apply (read_lines libs m.devfile ls []) w (read_lines_safe m.devfile ls [])

  pub read_conf_safe :
      (m : Manager Opt Drv) (w : World) → (read_conf {Drv = Drv} libs (m, w)).0 ≢ crash
  read_conf_safe m w x = elim (read_conf_atomic m w) [
    | inl e ↦ absurd (cc)
    | inr (m, e, same) ↦ absurd (cc)
  ]
