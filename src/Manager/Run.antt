-- ===== src/Manager/Run.antt =====
-- DevManager::run of server/dev_manager.cpp: one request. The options of the URL are not read there.
use device.Base.{
  ℕ, ◌-◌, [], ◌∷◌, ◌++◌, length, replicate, Bytes, text, newline, Result, ok, err, crash, Exec,
}
use device.Map.{Map}
use device.Device.{Drivers, Device}
use device.Manager.{Libs, Manager}
use device.Manager.Url.{parse_url}
use device.Manager.Actions.{
  Action, on_device, devices, reload, ping, get_time, set_name, get_name, list_names, release_all,
  unknown, action_of, no_text, run_device,
}
use device.Manager.Conf.{read_conf}
use device.Manager.Names
use device.Manager.Names.{set_conn_name, get_conn_name, delete_devices}

-- for (d: devices) ret += d.first + "\n";
unfoldable pub device_lines : {D : Type 0} → Map Bytes D → Bytes
device_lines [] = []
device_lines ((name, d) ∷ ds) = name ++ newline ∷ device_lines ds

-- for (c: conn_names) ss << c.second << "\n";
unfoldable pub name_lines : Map ℕ Bytes → Bytes
name_lines [] = []
name_lines ((c, name) ∷ cs) = name ++ newline ∷ name_lines cs

-- setfill('0') << setw(6)
unfoldable pub pad6 : Bytes → Bytes
pad6 s = replicate (6 - length s) b'0' ++ s

-- if (arg!="") throw Err() << "unexpected argument: " << shown;
abbrev pub no_argument : {S A : Type 0} → Bytes → Bytes → Exec S A → Exec S A
no_argument [] shown m = m
no_argument (c ∷ cs) shown m = λ s. (err (text "unexpected argument: " ++ shown), s)

module _ {Opt Drv World : Type 0} (libs : Libs Opt World) (drivers : Drivers Opt Drv World) where
  replaced_world : Map Bytes (Device Opt Drv) → Result (Unit {0}) → World → World
  replaced_world old (ok a) w = delete_devices drivers old w
  replaced_world old (err e) w = w
  replaced_world old crash w = w

  -- Where read_conf has assigned to `devices`, those that were there are destroyed.
  unfoldable pub replaced :
      Map Bytes (Device Opt Drv)
      → Result (Unit {0}) × (Manager Opt Drv × World)
      → Result (Unit {0}) × (Manager Opt Drv × World)
  unfolding replaced_world
  replaced old (r, (m, w)) = (r, (m, replaced_world old r w))

  -- read_conf with what the end of the old devices does outside
  unfoldable pub reread : Exec (Manager Opt Drv × World) (Unit {0})
  unfolding replaced
  reread (m, w) = replaced m.devices (read_conf libs (m, w))

  unfoldable pub reloaded :
      Result (Unit {0}) × (Manager Opt Drv × World) → Result Bytes × (Manager Opt Drv × World)
  reloaded (ok a, (m, w)) = (
    ok (text "Device configuration reloaded: " ++ libs.show (length m.devices) ++ text " devices"),
    (m, w),
  )
  reloaded (err e, s) = (err e, s)
  reloaded (crash, s) = (crash, s)

  time_text : ℕ × ℕ → Bytes
  time_text (sec, usec) = libs.show sec ++ b'.' ∷ pad6 (libs.show usec)

  -- The branches of `run` behind the parsed URL.
  unfoldable pub run_action :
      Action → Bytes → Bytes → Bytes → Bytes → ℕ → Exec (Manager Opt Drv × World) Bytes
  unfolding reloaded reread time_text
  run_action (on_device a) url act arg msg conn s = run_device libs drivers a url arg msg conn s
  run_action devices url act arg msg conn s =
      no_argument arg url (λ (m, w). (ok (device_lines m.devices), (m, w))) s
  run_action reload url act arg msg conn s = reloaded (reread s)
  run_action ping url act arg msg conn s = (ok [], s)
  run_action get_time url act arg msg conn s =
      no_argument arg url
        (λ (m, w). let (t, w') = libs.gettimeofday w in (ok (time_text t), (m, w'))) s
  run_action set_name url act arg msg conn s =
      no_argument msg msg (λ s. no_text (set_conn_name libs conn arg s)) s
  run_action get_name url act arg msg conn s = no_argument arg arg (get_conn_name conn) s
  run_action list_names url act arg msg conn s =
      no_argument arg arg (λ (m, w). (ok (name_lines m.conn_names), (m, w))) s
  run_action release_all url act arg msg conn s =
      no_argument arg arg (λ s. no_text (Names.release_all libs conn s)) s
  run_action unknown url act arg msg conn s = (err (text "unknown action: " ++ act), s)

  unfoldable pub run : Bytes → ℕ → Exec (Manager Opt Drv × World) Bytes
  unfolding run_action
  run url conn s =
      let u = parse_url url in run_action (action_of u.act) url u.act u.arg u.msg conn s
