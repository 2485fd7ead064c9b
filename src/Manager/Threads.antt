-- ===== src/Manager/Threads.antt =====
-- server/device.cpp and DevManager::run of server/dev_manager.cpp: the requests of connections, each of
-- which is a thread, on one device. run holds the shared lock of the manager, so that the threads
-- meet in the device. A thread goes on by one step, and any thread may be the next: the tests of
-- `users` and `locked` outside the mutex are steps of their own, and what stands behind
-- get_data_lock is one step. So is ask from its mutex on.
pub mod Alone
pub mod Exclusive
pub mod Races
pub mod Open
use device.Base.{
  refl, ap, ◌⊎◌, inl, inr, Bool-cases, ==_iff, ◌≡◌, ◌≢◌, arith, ℕ, ◌==◌, Bool, true, false, none,
  some, List, [], ◌∷◌, if◌then◌else◌, Bytes, text, Result, ok, err, crash, Exec,
}
use device.Map.{number_key, has, insert}
use device.Device.{Drivers, Device, opened, set_locked, ask_logged}
use device.Manager.{Libs}
use device.Manager.Actions.{DeviceAction, asks, uses, locks, call_device, no_text}

-- What the caller of Device::use does behind it: nothing, the rest of lock, the rest of ask.
pub data Next : Type 0 where
  done locking : Next
  asking : Bytes → Next

-- Where a thread stands. A thread that has returned can make the next call.
pub data Pc : Type 0 where
  returned : Result Bytes → Pc
  -- at the head of use
  entering : Next → Pc
  -- behind users.count(conn)>0, which was false
  counted : Next → Pc
  -- behind the test of `locked`, which was false
  tested : Next → Pc
  -- behind use, or behind users.count(conn)==0, which was false
  behind : Next → Pc

pub record Threads (Opt Drv World : Type 0) : Type 0 where
  pub device : Device Opt Drv
  pub world : World
  pub pc : ℕ → Pc

-- A thread makes a call, or goes on by a step.
pub data Event : Type 0 where
  calls : ℕ → DeviceAction → Bytes → Event
  goes : ℕ → Event

unfoldable pub after : Next → Pc
after done = returned (ok [])
after n = behind n

unfoldable pub is_returned : Pc → Bool
is_returned (returned r) = true
is_returned _ = false

-- The thread `c` is at `p`, the others where they were.
unfoldable pub placed : (ℕ → Pc) → ℕ → Pc → ℕ → Pc
placed pc c p j = if c == j then p else pc j

pub placed_here : (pc : ℕ → Pc) (c : ℕ) (p : Pc) → placed pc c p c ≡ p
unfolding placed
placed_here pc c p = ground arith

pub placed_other : (pc : ℕ → Pc) (c j : ℕ) (p : Pc) → c ≢ j → placed pc c p j ≡ pc j
unfolding placed
placed_other pc c j p ne = ground arith

pub same_or_not : (c j : ℕ) → (c ≡ j) ⊎ (c ≢ j)
same_or_not c j = elim (Bool-cases (c == j)) [
  | inl e ↦ inl ((==_iff c j).0 e)
  | inr e ↦ inr (λ h. ground arith)
]

module _ {Opt Drv World : Type 0} (libs : Libs Opt World) (drivers : Drivers Opt Drv World) where
  abbrev Shared : Type 0
  Shared = Device Opt Drv × World

  unfoldable pub finished : Result Bytes × Shared → Pc × Shared
  finished (r, s) = (returned r, s)

  unfoldable pub entered : Next → Result (Unit {0}) × Shared → Pc × Shared
  unfolding after
  entered n (ok a, s) = (after n, s)
  entered n (err e, s) = (returned (err e), s)
  entered n (crash, s) = (returned crash, s)

  -- Device::use behind its mutex
  unfoldable pub enter_device : ℕ → Exec Shared (Unit {0})
  unfolding opened
  enter_device conn (d, w) = elim d.drv [
    | none ↦ opened drivers conn d (drivers.create d.drv_name d.drv_args w)
    | some h ↦ (ok tt, (record d { users = insert conn tt d.users }, w))
  ]

  -- The first step of a call; most of them are behind the mutex as a whole.
  unfoldable pub begin : DeviceAction → ℕ → Bytes → Shared → Pc × Shared
  unfolding finished
  begin asks c msg (d, w) =
      ((if has c d.users then behind (asking msg) else entering (asking msg)), (d, w))
  begin locks c msg (d, w) = ((if has c d.users then behind locking else entering locking), (d, w))
  begin uses c msg s = (entering done, s)
  begin a c msg s = finished (call_device libs drivers a c msg s)

  -- The next step of a call.
  unfoldable pub move : ℕ → Pc → Shared → Pc × Shared
  unfolding after entered enter_device finished
  move c (returned r) s = (returned r, s)
  move c (entering n) (d, w) = ((if has c d.users then after n else counted n), (d, w))
  move c (counted n) (d, w) =
      ((if d.locked then returned (err (text "device is locked")) else tested n), (d, w))
  move c (tested n) s = entered n (enter_device c s)
  move c (behind done) s = (returned (ok []), s)
  move c (behind locking) s = finished (no_text (set_locked drivers s))
  move c (behind (asking msg)) s = finished (ask_logged drivers msg s)

  unfoldable pub moved : Threads Opt Drv World → ℕ → Pc × Shared → Threads Opt Drv World
  unfolding placed
  moved t c (p, (d, w)) = record { device = d; world = w; pc = placed t.pc c p }

  unfoldable pub step : Event → Threads Opt Drv World → Threads Opt Drv World
  unfolding moved begin move
  step (calls c a msg) t =
      if is_returned (t.pc c) then moved t c (begin a c msg (t.device, t.world)) else t
  step (goes c) t = moved t c (move c (t.pc c) (t.device, t.world))

  unfoldable pub interleave : List Event → Threads Opt Drv World → Threads Opt Drv World
  interleave [] t = t
  interleave (e ∷ es) t = interleave es (step e t)

  pub step-calls :
      (a : DeviceAction) (c : ℕ) (msg : Bytes) (t : Threads Opt Drv World)
      → is_returned (t.pc c) ≡ true
      → step (calls c a msg) t ≡ moved t c (begin a c msg (t.device, t.world))
  unfolding step
  step-calls a c msg t free = rw free refl

  pub step-goes :
      (c : ℕ) (t : Threads Opt Drv World) (p : Pc)
      → t.pc c ≡ p
      → step (goes c) t ≡ moved t c (move c p (t.device, t.world))
  unfolding step
  step-goes c t p e = ap (λ q. moved t c (move c q (t.device, t.world))) e
