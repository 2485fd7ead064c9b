-- ===== src/Device.antt =====
-- server/device.h and server/device.cpp: one device of the configuration file, its users, its lock
-- and its log buffers. `Driver::create`, the driver's `ask` and its destructor reach the program through `Drivers`,
-- and what they do outside goes through the type `World`. A call runs alone, as
-- between its locks; the interleavings of several are in Manager/Threads.
pub mod Invariant
pub mod Locking
pub mod Log
pub mod Safety
use device.Base.{
  ℕ, suc, Bool, true, false, Option, none, some, List, [], ◌∷◌, ◌++◌, ltb, ◌==◌, length,
  if◌then◌else◌, Bytes, text, newline, Result, ok, err, crash, Exec, continue, ◌>>=◌, ◌>>◌,
}
use device.Map.{Map, NumberSet, number_key, has, lookup, insert, erase}

pub record Drivers (Opt Drv World : Type 0) : Type 0 where
  -- Driver::create(name, args)
  pub create : Bytes → Opt → World → Result Drv × World
  -- drv->ask(msg)
  pub ask : Drv → Bytes → World → Result Bytes × (Drv × World)
  -- the destructor of the driver's class
  pub destroy : Drv → World → World

-- A queue of lines, the oldest first.
abbrev pub LogBuf : Type 0
LogBuf = List Bytes

pub record Device (Opt Drv : Type 0) : Type 0 where
  pub drv : Option Drv
  pub users : NumberSet
  pub locked : Bool
  pub dev_name : Bytes
  pub drv_name : Bytes
  pub drv_args : Opt
  pub log_bufs : Map ℕ LogBuf
  pub max_log_size : ℕ

module _ {Opt Drv : Type 0} where
  -- Device(dev_name, drv_name, drv_args)
  unfoldable pub new_device : Bytes → Bytes → Opt → Device Opt Drv
  new_device dev_name drv_name drv_args = record {
    drv = none;
    users = [];
    locked = false;
    dev_name = dev_name;
    drv_name = drv_name;
    drv_args = drv_args;
    log_bufs = [];
    max_log_size = 1024;
  }

  -- Device(const Device &) copies all but the log buffers.
  unfoldable pub copy_device : Device Opt Drv → Device Opt Drv
  copy_device d = record d { log_bufs = [] }

  unfoldable pub release : ℕ → Device Opt Drv → Device Opt Drv
  release conn d =
      let d' = record d { log_bufs = erase conn d.log_bufs } in
      if has conn d.users then record d' { locked = false; users = erase conn d.users } else d'

  unfoldable pub close : Device Opt Drv → Device Opt Drv
  close d = record d { log_bufs = []; users = []; locked = false; drv = none }

  -- What drv.reset() does outside, for the only pointer to the driver.
  unfoldable pub reset_drv :
      {World : Type 0} → Drivers Opt Drv World → Device Opt Drv → World → World
  reset_drv drivers d w = elim d.drv [ none ↦ w | some h ↦ drivers.destroy h w ]

  unfoldable pub unlock : ℕ → Device Opt Drv → Result (Unit {0}) × Device Opt Drv
  unlock conn d =
      if d.locked
      then (if has conn d.users
          then (ok tt, record d { locked = false })
          else (err (text "device is locked by another connection"), d))
      else (ok tt, d)

  unfoldable pub log_start : ℕ → Device Opt Drv → Device Opt Drv
  log_start conn d = record d { log_bufs = insert conn [] d.log_bufs }

  unfoldable pub log_finish : ℕ → Device Opt Drv → Device Opt Drv
  log_finish conn d = record d { log_bufs = erase conn d.log_bufs }

-- while (size()>0) { ret += *front(); pop(); }
unfoldable pub drain : Bytes → LogBuf → Bytes
drain ret [] = ret
drain ret (line ∷ q) = drain (ret ++ line) q

-- while (size()>max_log_size) pop();
unfoldable pub pop_excess : ℕ → LogBuf → LogBuf
pop_excess max [] = []
pop_excess max (line ∷ q) =
    let rest = pop_excess max q in if ltb max (suc (length q)) then rest else line ∷ q

-- push(s) to every buffer, then the limit
unfoldable pub push_all : ℕ → Bytes → Map ℕ LogBuf → Map ℕ LogBuf
unfolding pop_excess
push_all max line [] = []
push_all max line ((c, q) ∷ bufs) = (c, pop_excess max (q ++ line ∷ [])) ∷ push_all max line bufs

module _ {Opt Drv : Type 0} where
  unfoldable pub log_get : ℕ → Device Opt Drv → Result Bytes × Device Opt Drv
  unfolding drain
  log_get conn d = elim (lookup conn d.log_bufs) [
    | none ↦ (err (text "Logging is off"), d)
    | some q ↦ (ok (drain [] q), record d { log_bufs = insert conn [] d.log_bufs })
  ]

  unfoldable pub log_message : Bytes → Bytes → Device Opt Drv → Device Opt Drv
  log_message pref msg d =
      if length d.log_bufs == 0
      then d
      else record d { log_bufs = push_all d.max_log_size (pref ++ msg ++ newline ∷ []) d.log_bufs }

module _ {Opt Drv World : Type 0} (drivers : Drivers Opt Drv World) where
  unfoldable pub opened :
      ℕ → Device Opt Drv → Result Drv × World → Result (Unit {0}) × (Device Opt Drv × World)
  opened conn d (ok h, w) = (ok tt, (record d { drv = some h; users = insert conn tt d.users }, w))
  opened conn d (err e, w) = (err e, (d, w))
  opened conn d (crash, w) = (crash, (d, w))

  -- Device::use
  unfoldable pub use_device : ℕ → Exec (Device Opt Drv × World) (Unit {0})
  unfolding opened
  use_device conn (d, w) =
      if has conn d.users
      then (ok tt, (d, w))
      else if d.locked
      then (err (text "device is locked"), (d, w))
      else elim d.drv [
        | none ↦ opened conn d (drivers.create d.drv_name d.drv_args w)
        | some h ↦ (ok tt, (record d { users = insert conn tt d.users }, w))
      ]

  -- if (users.count(conn)==0) use(conn);
  unfoldable pub use_if_needed : ℕ → Exec (Device Opt Drv × World) (Unit {0})
  use_if_needed conn (d, w) =
      let used = use_device conn (d, w) in if has conn d.users then (ok tt, (d, w)) else used

  unfoldable pub set_locked : Exec (Device Opt Drv × World) (Unit {0})
  set_locked (d, w) =
      if length d.users == 1
      then (ok tt, (record d { locked = true }, w))
      else (err (text "Can't lock the device: it is in use"), (d, w))

  unfoldable pub lock : ℕ → Exec (Device Opt Drv × World) (Unit {0})
  unfolding set_locked
  lock conn = do use_if_needed conn; set_locked

  unfoldable pub asked :
      Device Opt Drv → Result Bytes × (Drv × World) → Result Bytes × (Device Opt Drv × World)
  asked d (r, (h, w)) = (r, (record d { drv = some h }, w))

  -- drv->ask(msg), through a null pointer if the device is not open
  unfoldable pub ask_driver : Bytes → Exec (Device Opt Drv × World) Bytes
  unfolding asked
  ask_driver msg (d, w) = elim d.drv [
    | none ↦ (crash, (d, w))
    | some h ↦ asked d (drivers.ask h msg w)
  ]

  -- The answer or the error is logged, and then returned or thrown again.
  unfoldable pub log_answer :
      Result Bytes × (Device Opt Drv × World) → Result Bytes × (Device Opt Drv × World)
  log_answer (ok ret, (d, w)) = (ok ret, (log_message (text "<< ") ret d, w))
  log_answer (err e, (d, w)) = (err e, (log_message (text "EE ") e d, w))
  log_answer (crash, s) = (crash, s)

  unfoldable pub ask_logged : Bytes → Exec (Device Opt Drv × World) Bytes
  unfolding ask_driver log_answer
  ask_logged msg (d, w) =
      if length d.log_bufs == 0
      then ask_driver msg (d, w)
      else log_answer (ask_driver msg (log_message (text ">> ") msg d, w))

  unfoldable pub ask : ℕ → Bytes → Exec (Device Opt Drv × World) Bytes
  ask conn msg = do use_if_needed conn; ask_logged msg
