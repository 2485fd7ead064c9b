-- ===== src/Manager/Names.antt =====
-- server/dev_manager.cpp: connections and their names.
pub mod Distinct
use device.Base.{
  ℕ, Bool, true, false, ◌&&◌, not, none, some, [], ◌∷◌, ◌==◌, if◌then◌else◌, Bytes, text, beq, ok,
  err, Exec,
}
use device.Map.{Map, number_key, lookup, insert, erase}
use device.Device.{Drivers, Device, release, close, reset_drv}
use device.Manager.{Libs, Manager}

-- name.size()>0 && name[0] == '#'
abbrev pub starts_with_hash : Bytes → Bool
starts_with_hash [] = false
starts_with_hash (c ∷ s) = c == b'#'

-- The loop over conn_names: another connection has this name.
unfoldable pub taken : ℕ → Bytes → Map ℕ Bytes → Bool
taken conn name [] = false
taken conn name ((c, n) ∷ cs) = if not (c == conn) && beq n name then true else taken conn name cs

-- Device::release on every device
unfoldable pub release_each :
    {Opt Drv : Type 0} → ℕ → Map Bytes (Device Opt Drv) → Map Bytes (Device Opt Drv)
release_each conn [] = []
release_each conn ((n, d) ∷ ds) = (n, release conn d) ∷ release_each conn ds

unfoldable pub conn_close : {Opt Drv : Type 0} → ℕ → Manager Opt Drv → Manager Opt Drv
conn_close conn m = record m {
  devices = release_each conn m.devices;
  conn_names = erase conn m.conn_names;
}

-- ~DevManager: the driver of every device is closed.
unfoldable pub close_all :
    {Opt Drv : Type 0} → Map Bytes (Device Opt Drv) → Map Bytes (Device Opt Drv)
close_all [] = []
close_all ((n, d) ∷ ds) = (n, close d) ∷ close_all ds

-- The drivers of these devices are destroyed.
unfoldable pub delete_devices :
    {Opt Drv World : Type 0} → Drivers Opt Drv World → Map Bytes (Device Opt Drv) → World → World
unfolding reset_drv
delete_devices drivers [] w = w
delete_devices drivers ((n, d) ∷ ds) w = delete_devices drivers ds (reset_drv drivers d w)

-- return conn_names[conn]; the operator adds an empty name for a missing key.
unfoldable pub get_conn_name : {Opt Drv World : Type 0} → ℕ → Exec (Manager Opt Drv × World) Bytes
get_conn_name conn (m, w) = elim (lookup conn m.conn_names) [
  | none ↦ (ok [], (record m { conn_names = insert conn [] m.conn_names }, w))
  | some name ↦ (ok name, (m, w))
]

-- std::string("#") + type_to_str(conn)
abbrev pub default_name : {Opt World : Type 0} → Libs Opt World → ℕ → Bytes
default_name libs conn = b'#' ∷ libs.show conn

-- if name is empty, use default value
abbrev pub effective_name : {Opt World : Type 0} → Libs Opt World → ℕ → Bytes → Bytes
effective_name libs conn [] = default_name libs conn
effective_name libs conn (c ∷ s) = c ∷ s

module _ {Opt Drv World : Type 0} (libs : Libs Opt World) where
  unfoldable pub set_conn_name : ℕ → Bytes → Exec (Manager Opt Drv × World) (Unit {0})
  set_conn_name conn name (m, w) =
      let name' = effective_name libs conn name in
      if starts_with_hash name
      then (err (text "name can not start with #"), (m, w))
      else if taken conn name' m.conn_names
      then (err (text "name belongs to another connection"), (m, w))
      else (ok tt, (record m { conn_names = insert conn name' m.conn_names }, w))

  unfoldable pub conn_open : ℕ → Exec (Manager Opt Drv × World) (Unit {0})
  conn_open conn s = set_conn_name conn [] s

  unfoldable pub release_all : ℕ → Exec (Manager Opt Drv × World) (Unit {0})
  unfolding set_conn_name
  release_all conn (m, w) =
      set_conn_name conn [] (record m { devices = release_each conn m.devices }, w)
