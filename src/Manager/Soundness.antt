-- ===== src/Manager/Soundness.antt =====
-- server/dev_manager.cpp: what requests, connections and reloads keep true of every device.
use device.Base.{
  ℕ, ◌≡◌, subst, some, List, [], ◌∷◌, arith, Bytes, beq, All, Result, ok, err, crash, inl, inr,
  Bool-cases,
}
use device.Map.{Map, bytes_key, lookup, insert}
use device.Device.{Device, new_device, copy_device}
use device.Device.Invariant.{IsSound, new_device-IsSound, copy_device-IsSound, release-IsSound}
use device.Manager.{Libs, ConfLine, Manager}
use device.Manager.Conf.{read_pairs, read_device, read_lines, copy_all, add_device}
use device.Manager.Reload.{read_lines_induction}
use device.Manager.Names.{release_each}
use device.Manager.Kept.{IsKept}

module _ {Opt Drv : Type 0} where
  -- Every device of the map is sound.
  unfoldable pub AllSound : Map Bytes (Device Opt Drv) → Type 0
  AllSound ds = All (λ e. IsSound e.1) ds

  pub insert-AllSound :
      (n : Bytes) (d : Device Opt Drv) (ds : Map Bytes (Device Opt Drv))
      → IsSound d
      → AllSound ds
      → AllSound (insert n d ds)
  unfolding AllSound insert
  insert-AllSound n d [] v a = (v, tt)
  insert-AllSound n d ((j, e) ∷ ds) v a = ground (arith, insert-AllSound n d ds v a.1)

  pub lookup-AllSound :
      (n : Bytes) (d : Device Opt Drv) (ds : Map Bytes (Device Opt Drv))
      → AllSound ds
      → lookup n ds ≡ some d
      → IsSound d
  unfolding AllSound lookup
  lookup-AllSound n d [] a h = absurd (cc)
  lookup-AllSound n d ((j, e) ∷ ds) a h = elim (Bool-cases (beq j n)) [
    | inl hit ↦ let p : e ≡ d = ground arith in subst IsSound p a.0
    | inr miss ↦ lookup-AllSound n d ds a.1 (ground arith)
  ]

  release_each-AllSound :
      (conn : ℕ) (ds : Map Bytes (Device Opt Drv)) → AllSound ds → AllSound (release_each conn ds)
  unfolding AllSound release_each
  release_each-AllSound conn [] a = tt
  release_each-AllSound conn ((n, d) ∷ ds) a =
      (release-IsSound conn d a.0, release_each-AllSound conn ds a.1)

  copy_all-AllSound : (ds : Map Bytes (Device Opt Drv)) → AllSound ds → AllSound (copy_all ds)
  unfolding AllSound
  copy_all-AllSound [] a = tt
  copy_all-AllSound ((n, d) ∷ ds) a = (copy_device-IsSound d a.0, copy_all-AllSound ds a.1)

module _ {Opt Drv World : Type 0} (libs : Libs Opt World) where
  add_device-AllSound :
      (dev drv : Bytes) (o : Result Opt) (ds ds' : Map Bytes (Device Opt Drv))
      → AllSound ds
      → add_device libs dev drv o ds ≡ ok ds'
      → AllSound ds'
  unfolding add_device
  add_device-AllSound dev drv (ok o) ds ds' a h = ground (
    arith,
    insert-AllSound dev (copy_device (new_device {Drv = Drv} dev drv o)) ds
        (copy_device-IsSound _ (new_device-IsSound dev drv o)) a,
  )
  add_device-AllSound dev drv (err e) ds ds' a h = absurd (cc)
  add_device-AllSound dev drv crash ds ds' a h = absurd (cc)

  read_device-AllSound :
      (vs : List Bytes) (ds ds' : Map Bytes (Device Opt Drv))
      → AllSound ds
      → read_device libs vs ds ≡ ok ds'
      → AllSound ds'
  unfolding read_device
  read_device-AllSound (dev ∷ drv ∷ args) ds ds' a h =
      ground (arith, add_device-AllSound dev drv (read_pairs libs args libs.opt_empty) ds ds' a)
  read_device-AllSound _ ds ds' a h = absurd (cc)

  read_lines-AllSound :
      (f : Bytes) (ls : List ConfLine) (ds ds' : Map Bytes (Device Opt Drv))
      → AllSound ds
      → read_lines libs f ls ds ≡ ok ds'
      → AllSound ds'
  read_lines-AllSound = read_lines_induction libs AllSound read_device-AllSound

  pub AllSound-IsKept : IsKept libs (AllSound {Opt = Opt} {Drv = Drv})
  AllSound-IsKept = record {
    released = release_each-AllSound;
    read = λ f ls ds h.
        copy_all-AllSound ds (read_lines-AllSound f ls [] ds (unfold AllSound in tt) h);
  }

-- Every device of the manager is sound.
abbrev pub Sound : {Opt Drv : Type 0} → Manager Opt Drv → Type 0
Sound m = AllSound m.devices
