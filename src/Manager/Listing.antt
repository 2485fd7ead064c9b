-- ===== src/Manager/Listing.antt =====
-- DevManager::run of server/dev_manager.cpp: the list of the devices.
use device.Base.{
  ℕ, ◌≡◌, ◌≢◌, refl, beq, sym, subst, ap, some, List, [], ◌∷◌, ◌++◌, All, arith, Bytes, newline,
  text, length, Result, ok, err, crash,
}
use device.Device.{Drivers, Device, new_device, copy_device}
use device.Manager.{Libs, Manager}
use device.Manager.Actions.{DeviceAction, call_device, action_of}
use device.Manager.Conf.{strcspn, read_pairs, read_device, copy_all, add_device}
use device.Manager.Entries.{IsAllowed, strcspn-IsAllowed}
use device.Manager.Kept.{IsKept}
use device.Manager.Names.{release_each}
use device.Manager.Url.{parse_url, cut, parts, skip_slash}
use device.Manager.Reload.{read_lines_induction}
use device.Manager.Run.{run, run_action, device_lines}
use device.Map.{Map, bytes_key, lookup, insert}
use device.Map.Names.{keys, IsSorted, insert-IsSorted, insert-All, keys-insert}

-- What read_conf takes as the name of a device.
pub record IsName (n : Bytes) : Type 0 where
  pub nonempty : n ≢ []
  pub valid : All IsAllowed n

-- Names of devices in their order.
pub record AreNames (ns : List Bytes) : Type 0 where
  pub sorted : IsSorted ns
  pub each : All IsName ns

-- Each name on a line of its own.
unfoldable pub name_text : List Bytes → Bytes
name_text [] = []
name_text (n ∷ ns) = n ++ newline ∷ name_text ns

keys-release_each :
    {Opt Drv : Type 0} (conn : ℕ) (ds : Map Bytes (Device Opt Drv))
    → keys (release_each conn ds) ≡ keys ds
unfolding keys release_each
keys-release_each conn [] = refl
keys-release_each conn ((n, d) ∷ ds) = ap (λ ns. n ∷ ns) (keys-release_each conn ds)

keys-copy_all : {Opt Drv : Type 0} (ds : Map Bytes (Device Opt Drv)) → keys (copy_all ds) ≡ keys ds
unfolding keys
keys-copy_all [] = refl
keys-copy_all ((n, d) ∷ ds) = ap (λ ns. n ∷ ns) (keys-copy_all ds)

-- The names of the devices are names, in their order.
unfoldable pub AreListed : {Opt Drv : Type 0} → Map Bytes (Device Opt Drv) → Type 0
AreListed ds = AreNames (keys ds)

insert-AreListed :
    {Opt Drv : Type 0} (n : Bytes) (d : Device Opt Drv) (ds : Map Bytes (Device Opt Drv))
    → IsName n
    → AreListed ds
    → AreListed (insert n d ds)
unfolding AreListed
insert-AreListed n d ds k v = record {
  sorted = insert-IsSorted n d ds v.sorted;
  each = insert-All IsName n d ds k v.each;
}

device_lines-keys : {D : Type 0} (ds : Map Bytes D) → device_lines ds ≡ name_text (keys ds)
unfolding device_lines name_text keys
device_lines-keys [] = refl
device_lines-keys ((n, d) ∷ ds) = ap (λ s. n ++ newline ∷ s) (device_lines-keys ds)

pub no_names : AreNames []
no_names = record { sorted = unfold IsSorted in tt; each = tt }

module _ {Opt Drv World : Type 0} (libs : Libs Opt World) where
  add_device-AreListed :
      (dev drv : Bytes) (o : Result Opt) (ds ds' : Map Bytes (Device Opt Drv))
      → dev ≢ []
      → strcspn dev ≡ length dev
      → AreListed ds
      → add_device libs dev drv o ds ≡ ok ds'
      → AreListed ds'
  unfolding add_device
  add_device-AreListed dev drv (ok o) ds ds' ne k v h = ground (
    arith,
    insert-AreListed dev (copy_device (new_device {Drv = Drv} dev drv o)) ds
        (record { nonempty = ne; valid = (strcspn-IsAllowed dev).0 k }) v,
  )
  add_device-AreListed dev drv (err e) ds ds' ne k v h = absurd (cc)
  add_device-AreListed dev drv crash ds ds' ne k v h = absurd (cc)

  read_device-AreListed :
      (vs : List Bytes) (ds ds' : Map Bytes (Device Opt Drv))
      → AreListed ds
      → read_device libs vs ds ≡ ok ds'
      → AreListed ds'
  unfolding read_device
  read_device-AreListed (dev ∷ drv ∷ args) ds ds' v h =
      ground (arith, add_device-AreListed dev drv (read_pairs libs args libs.opt_empty) ds ds')
  read_device-AreListed _ ds ds' v h = absurd (cc)

  pub AreListed-IsKept : IsKept libs (AreListed {Opt = Opt} {Drv = Drv})
  unfolding AreListed keys
  AreListed-IsKept = record {
    released = λ conn ds v. subst AreNames (sym (keys-release_each conn ds)) v;
    read = λ f ls ds h.
        subst AreNames (sym (keys-copy_all ds))
          (read_lines_induction libs AreListed read_device-AreListed f ls [] ds no_names h);
  }

  module _ (drivers : Drivers Opt Drv World) where
    pub call_device-AreListed :
        (a : DeviceAction) (conn : ℕ) (msg n : Bytes) (d : Device Opt Drv)
        (ds : Map Bytes (Device Opt Drv)) (w : World)
        → lookup n ds ≡ some d
        → AreListed ds
        → AreListed (insert n (call_device libs drivers a conn msg (d, w)).1.0 ds)
    unfolding AreListed
    call_device-AreListed a conn msg n d ds w e v =
        subst AreNames (sym (keys-insert n d _ ds v.sorted e)) v

    pub run_listed :
        (conn : ℕ) (m : Manager Opt Drv) (w : World)
        → (run libs drivers (text "/list") conn (m, w) ≡ (ok (name_text (keys m.devices)), (m, w)))
          × (run libs drivers (text "/devices") conn (m, w)
              ≡ (ok (name_text (keys m.devices)), (m, w)))
    unfolding run run_action parse_url cut parts skip_slash action_of beq text
    run_listed conn m w = let e = ap (λ s. (ok s, (m, w))) (device_lines-keys m.devices) in (e, e)
