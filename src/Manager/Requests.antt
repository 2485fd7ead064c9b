-- ===== src/Manager/Requests.antt =====
-- server/dev_manager.cpp and server/device.cpp: requests on all devices, reloads and closed
-- connections, each on a thread of its own; the names of connections are left out. A request on a
-- device holds the shared lock of the manager to its end, and read_conf takes the lock alone for
-- its assignment; the loop of conn_close takes none. A thread goes on by one step, in a device by
-- those of Manager/Threads.

pub mod Fits
pub mod Dangling
pub mod Sweeps
pub mod Held
pub mod Locking
use device.Base.{
  ℕ, suc, ◌==◌, Bool, true, false, Option, none, some, List, [], ◌∷◌, ◌++◌, if◌then◌else◌, length,
  Bytes, text, Result, ok, err, crash,
}
use device.Device.{Drivers, Device, release}
use device.Manager.{Libs, ConfLine}
use device.Manager.Actions.{DeviceAction}
use device.Manager.Conf.{read_lines, copy_all}
use device.Map.Names.{keys}
use device.Manager.Names.{delete_devices}
use device.Manager.Threads.{Pc, returned, begin, move}
use device.Map.{Map, NumberSet, bytes_key, number_key, lookup, insert, erase}

-- Where a thread stands.
pub data At (Opt Drv : Type 0) : Type 0 where
  -- it has returned, and can make the next call
  out : Result Bytes → At Opt Drv
  -- it has the shared lock, and is in a call on the device of that name
  inside : Bytes → Pc → At Opt Drv
  -- read_conf in front of get_lock
  waits : Map Bytes (Device Opt Drv) → At Opt Drv
  -- the loop of conn_close, with an iterator into the map as it was after so many reloads, and the
  -- names that are left
  sweeps : ℕ → List Bytes → At Opt Drv

pub record Store (Opt Drv World : Type 0) : Type 0 where
  pub devices : Map Bytes (Device Opt Drv)
  pub devfile : Bytes
  -- the threads that have the shared lock
  pub holders : NumberSet
  -- how often the map has been replaced
  pub reloads : ℕ
  pub world : World
  pub pos : ℕ → At Opt Drv

pub data Event : Type 0 where
  requests : ℕ → DeviceAction → Bytes → Bytes → Bytes → Event
  reads : ℕ → Event
  leaves : ℕ → Event
  goes : ℕ → Event

module _ {Opt Drv : Type 0} where
  unfoldable pub is_out : At Opt Drv → Bool
  is_out (out r) = true
  is_out _ = false

  -- The thread `c` is at `a`, the others where they were.
  unfoldable pub placed : (ℕ → At Opt Drv) → ℕ → At Opt Drv → ℕ → At Opt Drv
  placed pos c a j = if c == j then a else pos j

module _ {Opt Drv World : Type 0} (libs : Libs Opt World) (drivers : Drivers Opt Drv World) where
  -- The thread has returned: the lock is given back, where it had it.
  unfoldable pub at_end : ℕ → Result Bytes → Store Opt Drv World → Store Opt Drv World
  unfolding placed
  at_end c r s = record s { holders = erase c s.holders; pos = placed s.pos c (out r) }

  -- A step in the device of that name.
  unfoldable pub stepped :
      ℕ → Bytes → Pc × (Device Opt Drv × World) → Store Opt Drv World → Store Opt Drv World
  unfolding at_end placed
  stepped c name (returned r, (d, w)) s =
      at_end c r (record s { devices = insert name d s.devices; world = w })
  stepped c name (p, (d, w)) s = record s {
    devices = insert name d s.devices;
    world = w;
    holders = insert c tt s.holders;
    pos = placed s.pos c (inside name p);
  }

  -- devices.find(arg)->second, with the step on it that `f` makes
  unfoldable pub with_device :
      ℕ
      → Bytes
      → Result Bytes
      → (Device Opt Drv × World → Pc × (Device Opt Drv × World))
      → Store Opt Drv World
      → Store Opt Drv World
  unfolding stepped at_end
  with_device c name missing f s = elim (lookup name s.devices) [
    | none ↦ at_end c missing s
    | some d ↦ stepped c name (f (d, s.world)) s
  ]

  -- read_conf up to get_lock
  unfoldable pub parsed :
      ℕ → Result (Map Bytes (Device Opt Drv)) → Store Opt Drv World → Store Opt Drv World
  unfolding at_end placed
  parsed c (ok ret) s = record s { pos = placed s.pos c (waits ret) }
  parsed c (err e) s = at_end c (err e) s
  parsed c crash s = at_end c crash s

  unfoldable pub conf_opened :
      ℕ → Option (List ConfLine) × World → Store Opt Drv World → Store Opt Drv World
  unfolding parsed at_end
  conf_opened c (none, w) s =
      at_end c (err (text "can't open configuration: " ++ s.devfile)) (record s { world = w })
  conf_opened c (some ls, w) s = parsed c (read_lines libs s.devfile ls []) (record s { world = w })

  -- get_lock, which waits for those that have the shared lock, and devices = ret, which destroys the
  -- devices that were there
  unfoldable pub map_assigned :
      ℕ → Map Bytes (Device Opt Drv) → Store Opt Drv World → Store Opt Drv World
  unfolding at_end
  map_assigned c ret s =
      if length s.holders == 0
      then at_end c (ok []) (record s {
        devices = copy_all ret;
        reloads = suc s.reloads;
        world = delete_devices drivers s.devices s.world;
      })
      else s

  -- d.second.release(conn) for the next device, or the end of the loop
  unfoldable pub release_next : ℕ → ℕ → List Bytes → Store Opt Drv World → Store Opt Drv World
  unfolding at_end placed
  release_next c g [] s = at_end c (ok []) s
  release_next c g (n ∷ ns) s = elim (lookup n s.devices) [
    | none ↦ at_end c crash s
    | some d ↦ record s {
      devices = insert n (release c d) s.devices;
      pos = placed s.pos c (sweeps g ns);
    }
  ]

  -- for (auto & d: devices), with a dangling iterator if the map has been replaced
  unfoldable pub swept : ℕ → ℕ → List Bytes → Store Opt Drv World → Store Opt Drv World
  unfolding release_next at_end
  swept c g ns s = if g == s.reloads then release_next c g ns s else at_end c crash s

  unfoldable pub sweep_from : ℕ → List Bytes → Store Opt Drv World → Store Opt Drv World
  unfolding at_end placed
  sweep_from c [] s = at_end c (ok []) s
  sweep_from c (n ∷ ns) s = record s { pos = placed s.pos c (sweeps s.reloads (n ∷ ns)) }

  unfoldable pub next_step : ℕ → At Opt Drv → Store Opt Drv World → Store Opt Drv World
  unfolding with_device map_assigned swept
  next_step c (out r) s = s
  next_step c (inside name p) s = with_device c name crash (move libs drivers c p) s
  next_step c (waits ret) s = map_assigned c ret s
  next_step c (sweeps g ns) s = swept c g ns s

  -- A call of a thread that has returned.
  unfoldable pub first_step : Event → Store Opt Drv World → Store Opt Drv World
  unfolding with_device at_end conf_opened sweep_from
  first_step (requests c a url [] msg) s = at_end c (err (text "device name expected: " ++ url)) s
  first_step (requests c a url (b ∷ name) msg) s =
      with_device c (b ∷ name) (err (text "unknown device: " ++ b ∷ name))
        (begin libs drivers a c msg) s
  first_step (reads c) s = conf_opened c (libs.read_file s.devfile s.world) s
  first_step (leaves c) s = sweep_from c (keys s.devices) s
  first_step (goes c) s = s

  abbrev pub caller : Event → ℕ
  caller (requests c a url name msg) = c
  caller (reads c) = c
  caller (leaves c) = c
  caller (goes c) = c

  unfoldable pub step : Event → Store Opt Drv World → Store Opt Drv World
  unfolding first_step next_step is_out
  step (goes c) s = next_step c (s.pos c) s
  step e s = let called = first_step e s in if is_out (s.pos (caller e)) then called else s

  unfoldable pub interleave : List Event → Store Opt Drv World → Store Opt Drv World
  unfolding step
  interleave [] s = s
  interleave (e ∷ es) s = interleave es (step e s)
