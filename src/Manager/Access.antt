-- ===== src/Manager/Access.antt =====
-- server/device.h: what the comments of class Device promise about users and locks, as a specification
-- that knows neither drivers nor logs, and the view of a device that is to meet it.
pub mod Enters
pub mod Lock
pub mod Leave
pub mod Refines
pub mod Traces
use device.Base.{
  ℕ, ◌≡◌, ◌≢◌, ◌⊎◌, Bool, true, false, [], ◌∷◌, ◌==◌, if◌then◌else◌, Result, ok, err, crash,
}
use device.Map.{NumberSet, number_key, has}
use device.Device.{Device}
use device.Manager.Actions.{
  DeviceAction, asks, uses, releases, locks, unlocks, log_starts, log_finishes, log_gets, infos,
  closes,
}

-- The connections that use a device together, or the one that has locked it.
pub data Access : Type 0 where
  shared : (ℕ → Bool) → Access
  held : ℕ → Access

abbrev pub nobody : ℕ → Bool
nobody j = false

abbrev pub joined : ℕ → (ℕ → Bool) → ℕ → Bool
joined c users j = if c == j then true else users j

abbrev pub left : ℕ → (ℕ → Bool) → ℕ → Bool
left c users j = if c == j then false else users j

-- The connection `c` starts to use the device, where `granted` says if it may. Users stay users; a
-- newcomer may fail, but to a locked device nobody else is let in.
unfoldable pub Enters : ℕ → Access → Bool → Access → Type 0
Enters c (shared users) true t = t ≡ shared (joined c users)
Enters c (shared users) false t = (users c ≡ false) × (t ≡ shared users)
Enters c (held owner) true t = (c ≡ owner) × (t ≡ held owner)
Enters c (held owner) false t = (c ≢ owner) × (t ≡ held owner)

-- It enters and asks. It may have entered although the question fails.
unfoldable pub Asks : ℕ → Access → Bool → Access → Type 0
unfolding Enters
Asks c s true t = Enters c s true t
Asks c s false t = Enters c s false t ⊎ Enters c s true t

unfoldable pub Leaves : ℕ → Access → Access → Type 0
Leaves c (shared users) t = t ≡ shared (left c users)
Leaves c (held owner) t = t ≡ (if c == owner then shared nobody else held owner)

-- It enters and takes the lock, which it gets if and only if it is then alone.
unfoldable pub Locks : ℕ → Access → Bool → Access → Type 0
Locks c (shared users) true t = (t ≡ held c) × ((j : ℕ) → c ≢ j → users j ≡ false)
Locks c (shared users) false t =
    ((users c ≡ false) × (t ≡ shared users))
    ⊎ ((t ≡ shared (joined c users)) × (j : ℕ) × (c ≢ j) × (users j ≡ true))
Locks c (held owner) true t = (c ≡ owner) × (t ≡ held owner)
Locks c (held owner) false t = (c ≢ owner) × (t ≡ held owner)

-- Only the owner gives the lock up, and stays a user.
unfoldable pub Unlocks : ℕ → Access → Bool → Access → Type 0
Unlocks c (shared users) true t = t ≡ shared users
Unlocks c (shared users) false t = ⊥
Unlocks c (held owner) true t = (c ≡ owner) × (t ≡ shared (joined c nobody))
Unlocks c (held owner) false t = (c ≢ owner) × (t ≡ held owner)

-- What each request may do.
unfoldable pub Allowed : DeviceAction → ℕ → Access → Bool → Access → Type 0
unfolding Enters Asks Leaves Locks Unlocks
Allowed asks c s granted t = Asks c s granted t
Allowed uses c s granted t = Enters c s granted t
Allowed releases c s granted t = (granted ≡ true) × Leaves c s t
Allowed locks c s granted t = Locks c s granted t
Allowed unlocks c s granted t = Unlocks c s granted t
Allowed log_starts c s granted t = (granted ≡ true) × (t ≡ s)
Allowed log_finishes c s granted t = (granted ≡ true) × (t ≡ s)
Allowed log_gets c s granted t = t ≡ s
Allowed infos c s granted t = (granted ≡ true) × (t ≡ s)
Allowed closes c s granted t = (granted ≡ true) × (t ≡ shared nobody)

abbrev pub is_ok : {A : Type 0} → Result A → Bool
is_ok (ok a) = true
is_ok (err e) = false
is_ok crash = false

-- The first user; a locked device has no other.
unfoldable pub first_user : NumberSet → ℕ
first_user [] = 0
first_user ((c, u) ∷ us) = c

unfoldable pub view : {Opt Drv : Type 0} → Device Opt Drv → Access
unfolding first_user
view d = if d.locked then held (first_user d.users) else shared (λ j. has j d.users)
