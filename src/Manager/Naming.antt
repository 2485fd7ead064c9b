-- ===== src/Manager/Naming.antt =====
-- DevManager::run of server/dev_manager.cpp: what requests do to the names of connections.
use device.Base.{
  ℕ, ◌≡◌, ◌∙◌, sym, refl, subst, true, Option, none, some, List, [], ◌∷◌, arith, Bytes, Result, ok,
  err, crash, inl, inr, Option-cases, Exec,
}
use device.Map.{Map, bytes_key, has, lookup}
use device.Device.{Drivers, Device}
use device.Manager.{Libs, ConfLine, Manager}
use device.Manager.Actions.{
  DeviceAction, Action, on_device, devices, reload, ping, get_time, set_name, get_name, list_names,
  unknown, action_of, no_text, run_device,
}
use device.Manager.Conf.{read_lines, read_opened, applied, read_conf}
use device.Manager.Names
use device.Manager.Names.{release_each, set_conn_name, get_conn_name, conn_open, conn_close}
use device.Manager.Run.{no_argument, reloaded, run_action, run, reread}
use device.Manager.Url.{parse_url}
use device.Map.{number_key, has-lookup}
use device.Manager.Conf.{read_opened, applied}
use device.Manager.Names.Distinct.{Named, IsNamed, set_conn_name-Named}

module _ {Opt Drv World : Type 0} (libs : Libs Opt World) where
  names-applied :
      (r : Result (Map Bytes (Device Opt Drv))) (m : Manager Opt Drv) (w : World)
      → (applied libs r (m, w)).1.0.conn_names ≡ m.conn_names
  unfolding applied
  names-applied (ok ds) m w = refl
  names-applied (err e) m w = refl
  names-applied crash m w = refl

  names-read_opened :
      (f : Option (List ConfLine)) (m : Manager Opt Drv) (w : World)
      → (read_opened libs f (m, w)).1.0.conn_names ≡ m.conn_names
  unfolding read_opened
  names-read_opened none m w = refl
  names-read_opened (some ls) m w = names-applied (read_lines libs m.devfile ls []) m w

  -- Reading the configuration leaves the names of connections alone.
  pub names-read_conf :
      (m : Manager Opt Drv) (w : World) → (read_conf libs (m, w)).1.0.conn_names ≡ m.conn_names
  unfolding read_conf
  names-read_conf m w =
      names-read_opened (libs.read_file m.devfile w).0 m (libs.read_file m.devfile w).1

module _ {Opt Drv World : Type 0} (libs : Libs Opt World) (drivers : Drivers Opt Drv World) where
  names-run_device :
      (a : DeviceAction) (url arg msg : Bytes) (conn : ℕ) (m : Manager Opt Drv) (w : World)
      → (run_device libs drivers a url arg msg conn (m, w)).1.0.conn_names ≡ m.conn_names
  unfolding run_device
  names-run_device a url [] msg conn m w = refl
  names-run_device a url (c ∷ cs) msg conn m w = elim (Option-cases (lookup (c ∷ cs) m.devices)) [
    | inl e ↦ rw (e, run_device)
    | inr (d, e) ↦ rw (e, run_device)
  ]

  names-no_argument :
      (P : Manager Opt Drv → Type 0) (arg shown : Bytes) (f : Exec (Manager Opt Drv × World) Bytes)
      (m : Manager Opt Drv) (w : World)
      → P m
      → P (f (m, w)).1.0
      → P (no_argument arg shown f (m, w)).1.0
  names-no_argument P [] shown f m w s h = h
  names-no_argument P (c ∷ cs) shown f m w s h = s

  names-no_text :
      {S : Type 0} (P : S → Type 0) (r : Result (Unit {0}) × S) → P r.1 → P (no_text r).1
  names-no_text P (ok a, s) h = h
  names-no_text P (err e, s) h = h
  names-no_text P (crash, s) h = h

  names-reloaded :
      (r : Result (Unit {0}) × (Manager Opt Drv × World))
      → (reloaded libs drivers r).1.0.conn_names ≡ r.1.0.conn_names
  unfolding reloaded
  names-reloaded (ok a, s) = refl
  names-reloaded (err e, s) = refl
  names-reloaded (crash, s) = refl

  get_conn_name-Named :
      (conn : ℕ) (m : Manager Opt Drv) (w : World)
      → has conn m.conn_names ≡ true
      → Named libs m
      → Named libs (get_conn_name conn (m, w)).1.0
  unfolding get_conn_name
  get_conn_name-Named conn m w live v = ground (arith, has-lookup conn m.conn_names)

  run_action-Named :
      (a : Action) (url act arg msg : Bytes) (conn : ℕ) (m : Manager Opt Drv) (w : World)
      → has conn m.conn_names ≡ true
      → Named libs m
      → Named libs (run_action libs drivers a url act arg msg conn (m, w)).1.0
  unfolding run_action reread
  run_action-Named (on_device a) url act arg msg conn m w live v =
      subst (IsNamed libs) (sym (names-run_device a url arg msg conn m w)) v
  run_action-Named devices url act arg msg conn m w live v =
      names-no_argument (Named libs) arg url _ m w v v
  run_action-Named reload url act arg msg conn m w live v =
      subst (IsNamed libs)
        (sym (names-reloaded (reread libs drivers (m, w)) ∙ names-read_conf libs m w)) v
  run_action-Named ping url act arg msg conn m w live v = v
  run_action-Named get_time url act arg msg conn m w live v =
      names-no_argument (Named libs) arg url _ m w v v
  run_action-Named set_name url act arg msg conn m w live v =
      names-no_argument (Named libs) msg msg _ m w v (
        names-no_text (λ t. Named libs t.0) (set_conn_name libs conn arg (m, w))
          (set_conn_name-Named libs conn arg m w v))
  run_action-Named get_name url act arg msg conn m w live v =
      names-no_argument (Named libs) arg arg _ m w v (get_conn_name-Named conn m w live v)
  run_action-Named list_names url act arg msg conn m w live v =
      names-no_argument (Named libs) arg arg _ m w v v
  run_action-Named Action.release_all url act arg msg conn m w live v =
      names-no_argument (Named libs) arg arg _ m w v (
        names-no_text (λ t. Named libs t.0) (Names.release_all libs conn (m, w))
          (unfold Names.release_all in
            set_conn_name-Named libs conn [] (record m { devices = release_each conn m.devices }) w
              v))
  run_action-Named unknown url act arg msg conn m w live v = v

  -- A request of a connection that is open keeps the names of connections distinct, and every name
  -- that begins with # the default name of its own connection.
  pub run-Named :
      (url : Bytes) (conn : ℕ) (m : Manager Opt Drv) (w : World)
      → has conn m.conn_names ≡ true
      → Named libs m
      → Named libs (run libs drivers url conn (m, w)).1.0
  unfolding run
  run-Named url conn m w live v =
      let u = parse_url url in
      run_action-Named (action_of u.act) url u.act u.arg u.msg conn m w live v
