-- ===== src/Manager/Configured.antt =====
-- DevManager::read_conf of server/dev_manager.cpp: a reload that succeeds.
use device.Base.{
  ◌≡◌, ◌≢◌, refl, ◌∙◌, false, Option, none, some, List, [], ◌∷◌, arith, length, Bytes, All, Result,
  ok, err, crash,
}
use device.Map.{Map, bytes_key, has, insert, has-insert}
use device.Device.{Device, new_device, copy_device}
use device.Manager.{Libs, ConfLine, Manager}
use device.Manager.Conf.{
  read_pairs, read_device, read_lines, copy_all, read_opened, applied, read_conf, strcspn,
  add_device,
}
use device.Manager.Reload.{read_lines_induction}

module _ {Opt Drv : Type 0} where
  -- A device that nobody has used yet, in its place in the map.
  pub record IsFresh (n : Bytes) (d : Device Opt Drv) : Type 0 where
    pub nonempty : n ≢ []
    pub valid : strcspn n ≡ length n
    pub named : d.dev_name ≡ n
    pub closed : d.drv ≡ none
    pub unused : d.users ≡ []
    pub unlocked : d.locked ≡ false
    pub unlogged : d.log_bufs ≡ []

  pub AllFresh : Map Bytes (Device Opt Drv) → Type 0
  AllFresh ds = All (λ e. IsFresh e.0 e.1) ds

  -- Each name is the key of one entry.
  pub Distinct : Map Bytes (Device Opt Drv) → Type 0
  Distinct [] = Unit
  Distinct ((n, d) ∷ ds) = (has n ds ≡ false) × Distinct ds

  insert-AllFresh :
      (n : Bytes) (d : Device Opt Drv) (ds : Map Bytes (Device Opt Drv))
      → IsFresh n d
      → AllFresh ds
      → AllFresh (insert n d ds)
  unfolding AllFresh insert
  insert-AllFresh n d [] v a = (v, tt)
  insert-AllFresh n d ((j, e) ∷ ds) v a = ground (arith, insert-AllFresh n d ds v a.1)

  insert-Distinct :
      (n : Bytes) (d : Device Opt Drv) (ds : Map Bytes (Device Opt Drv))
      → has n ds ≡ false
      → Distinct ds
      → Distinct (insert n d ds)
  unfolding Distinct insert has
  insert-Distinct n d [] h a = (refl, tt)
  insert-Distinct n d ((j, e) ∷ ds) h a = ground (
    arith,
    insert-Distinct n d ds,
    has-insert n j d ds,
    bytes_key.eqb_iff n j,
    bytes_key.eqb_iff j n,
  )

  copy_all-AllFresh : (ds : Map Bytes (Device Opt Drv)) → AllFresh ds → AllFresh (copy_all ds)
  unfolding AllFresh copy_device
  copy_all-AllFresh [] a = tt
  copy_all-AllFresh ((n, d) ∷ ds) a = (ground arith, copy_all-AllFresh ds a.1)

  has-copy_all : (n : Bytes) (ds : Map Bytes (Device Opt Drv)) → has n (copy_all ds) ≡ has n ds
  unfolding has
  has-copy_all n [] = refl
  has-copy_all n ((j, d) ∷ ds) = ground (arith, has-copy_all n ds)

  copy_all-Distinct : (ds : Map Bytes (Device Opt Drv)) → Distinct ds → Distinct (copy_all ds)
  unfolding Distinct
  copy_all-Distinct [] a = tt
  copy_all-Distinct ((n, d) ∷ ds) a = (has-copy_all n ds ∙ a.0, copy_all-Distinct ds a.1)

  pub record IsConfigured (ds : Map Bytes (Device Opt Drv)) : Type 0 where
    pub fresh : AllFresh ds
    pub distinct : Distinct ds

module _ {Opt Drv World : Type 0} (libs : Libs Opt World) where
  new_device-IsFresh :
      (dev drv : Bytes) (o : Opt)
      → dev ≢ []
      → strcspn dev ≡ length dev
      → IsFresh dev (copy_device (new_device {Drv = Drv} dev drv o))
  unfolding new_device copy_device
  new_device-IsFresh dev drv o h k = ground arith

  add_device-IsConfigured :
      (dev drv : Bytes) (o : Result Opt) (ds ds' : Map Bytes (Device Opt Drv))
      → dev ≢ []
      → strcspn dev ≡ length dev
      → IsConfigured ds
      → add_device libs dev drv o ds ≡ ok ds'
      → IsConfigured ds'
  unfolding add_device
  add_device-IsConfigured dev drv (ok o) ds ds' ne v c h = ground (
    arith,
    insert-AllFresh dev (copy_device (new_device {Drv = Drv} dev drv o)) ds
        (new_device-IsFresh dev drv o ne v) c.fresh,
    insert-Distinct dev (copy_device (new_device {Drv = Drv} dev drv o)) ds,
  )
  add_device-IsConfigured dev drv (err e) ds ds' ne v c h = absurd (cc)
  add_device-IsConfigured dev drv crash ds ds' ne v c h = absurd (cc)

  read_device-IsConfigured :
      (vs : List Bytes) (ds ds' : Map Bytes (Device Opt Drv))
      → IsConfigured ds
      → read_device libs vs ds ≡ ok ds'
      → IsConfigured ds'
  unfolding read_device
  read_device-IsConfigured (dev ∷ drv ∷ args) ds ds' c h =
      ground (arith, add_device-IsConfigured dev drv (read_pairs libs args libs.opt_empty) ds ds')
  read_device-IsConfigured _ ds ds' c h = absurd (cc)

  -- A reload that succeeds leaves devices that nobody uses: closed, unlocked and with no log, each
  -- under its own name. The names differ; none is empty or holds a slash, a backslash, a blank or a
  -- zero byte, as strcspn checks. The names of the connections and of the file stay.
  pub read_conf-IsConfigured :
      (m : Manager Opt Drv) (w : World)
      → (read_conf libs (m, w)).0 ≡ ok tt
      → IsConfigured (read_conf libs (m, w)).1.0.devices
        × ((read_conf libs (m, w)).1.0.conn_names ≡ m.conn_names)
        × ((read_conf libs (m, w)).1.0.devfile ≡ m.devfile)
  unfolding read_conf
  read_conf-IsConfigured m w = go (libs.read_file m.devfile w).0 (libs.read_file m.devfile w).1
    where
      Kept : Result (Unit {0}) × (Manager Opt Drv × World) → Type 0
      Kept r =
          r.0 ≡ ok tt
          → IsConfigured r.1.0.devices
            × (r.1.0.conn_names ≡ m.conn_names)
            × (r.1.0.devfile ≡ m.devfile)

      apply :
          (r : Result (Map Bytes (Device Opt Drv))) (w : World)
          → ((ds : Map Bytes (Device Opt Drv)) → r ≡ ok ds → IsConfigured ds)
          → Kept (applied libs r (m, w))
      apply (ok ds) w h k = (
        record {
          fresh = copy_all-AllFresh ds (h ds refl).fresh;
          distinct = copy_all-Distinct ds (h ds refl).distinct;
        },
        refl,
        refl,
      )
      apply (err x) w h k = absurd (cc)
      apply crash w h k = absurd (cc)

      go : (f : Option (List ConfLine)) (w : World) → Kept (read_opened libs f (m, w))
      go none w k = absurd (cc)
      go (some ls) w k =
          apply (read_lines libs m.devfile ls []) w
            (λ ds.
              read_lines_induction libs IsConfigured read_device-IsConfigured m.devfile ls [] ds
                (record { fresh = unfold AllFresh in tt; distinct = unfold Distinct in tt }))
            k
