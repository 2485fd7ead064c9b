-- ===== src/Manager/Access/Traces.antt =====
-- DevManager::run of server/dev_manager.cpp on one device: sequences of requests of any connections,
-- in the order in which they get the mutex, against the specification of users and locks.
use device.Base.{
  ℕ, ◌≡◌, ◌≢◌, refl, subst, sym, ap, ◌∙◌, inl, inr, arith, Bool, true, false, not, List, [], ◌∷◌,
  ◌==◌, ==_iff, Bytes, All,
}
use device.Map.{has, number_key}
use device.Map.Sets.{IsAscending}
use device.Manager.Access.Enters.{view-held, owner_has}
use device.Device.{Drivers, Device}
use device.Device.Invariant.{IsSound}
use device.Manager.{Libs}
use device.Manager.Serving.{call_device-IsSound}
use device.Manager.Actions.{
  DeviceAction, asks, uses, releases, locks, unlocks, log_starts, log_finishes, log_gets, infos,
  closes, call_device,
}
use device.Manager.Access.{
  Access, held, Enters, Asks, Leaves, Locks, Unlocks, Allowed, is_ok, first_user, view,
}
use device.Manager.Access.Refines.{call_device-Allowed, call_device-IsAscending}

-- A request on the device: what it does, from which connection, and its message.
abbrev pub Call : Type 0
Call = DeviceAction × ℕ × Bytes

-- What a request did, for which connection, and if it succeeded.
abbrev pub Event : Type 0
Event = DeviceAction × ℕ × Bool

module _ {Opt Drv World : Type 0} (libs : Libs Opt World) (drivers : Drivers Opt Drv World) where
  -- The device after the requests.
  unfoldable pub serve : List Call → Device Opt Drv × World → Device Opt Drv × World
  serve [] s = s
  serve ((a, c, msg) ∷ calls) s = serve calls (call_device libs drivers a c msg s).1

  -- How each of them ended.
  unfoldable pub events : List Call → Device Opt Drv × World → List Event
  events [] s = []
  events ((a, c, msg) ∷ calls) s =
      let r = call_device libs drivers a c msg s in (a, c, is_ok r.0) ∷ events calls r.1

-- The events lead from the one access to the other, each as the specification allows it.
pub data Follows : List Event → Access → Access → Type 0 where
  stops : {s : Access} → Follows [] s s
  goes :
      {a : DeviceAction} {c : ℕ} {b : Bool} {es : List Event} {s t u : Access}
      → Allowed a c s b t
      → Follows es t u
      → Follows ((a, c, b) ∷ es) s u

module _ {Opt Drv World : Type 0} (libs : Libs Opt World) (drivers : Drivers Opt Drv World) where
  -- From a sound device whose users are a set, any sequence of requests of any connections takes
  -- users and lock along a path that the specification allows.
  pub serve-Follows :
      (calls : List Call) (d : Device Opt Drv) (w : World)
      → IsSound d
      → IsAscending d.users
      → Follows
          (events libs drivers calls (d, w))
          (view d)
          (view (serve libs drivers calls (d, w)).0)
  unfolding serve events
  serve-Follows [] d w v set = stops
  serve-Follows ((a, c, msg) ∷ calls) d w v set =
      goes (call_device-Allowed libs drivers a c msg d w v set) (
        serve-Follows calls (call_device libs drivers a c msg (d, w)).1.0
          (call_device libs drivers a c msg (d, w)).1.1
          (call_device-IsSound libs drivers a c msg d w v)
          (call_device-IsAscending libs drivers a c msg d w set))

-- The request of `c` does not end the lock of `owner`.
unfoldable pub keeps_lock : ℕ → DeviceAction → ℕ → Bool
keeps_lock owner releases c = not (c == owner)
keeps_lock owner unlocks c = not (c == owner)
keeps_lock owner closes c = false
keeps_lock owner _ c = true

unfoldable pub needs_access : DeviceAction → Bool
needs_access asks = true
needs_access uses = true
needs_access locks = true
needs_access unlocks = true
needs_access _ = false

-- If it needs access and is not of the owner, it failed.
abbrev pub IsRefused : ℕ → Event → Type 0
IsRefused owner (a, c, b) = needs_access a ≡ true → c ≢ owner → b ≡ false

held_step :
    (owner : ℕ) (a : DeviceAction) (c : ℕ) (b : Bool) (t : Access)
    → Allowed a c (held owner) b t
    → keeps_lock owner a c ≡ true
    → (t ≡ held owner) × IsRefused owner (a, c, b)
unfolding Allowed Enters Asks Leaves Locks Unlocks keeps_lock needs_access
held_step owner asks c true t h k = (h.1, λ n ne. absurd (ne h.0))
held_step owner asks c false t (inl h) k = (h.1, λ n ne. refl)
held_step owner asks c false t (inr h) k = (h.1, λ n ne. refl)
held_step owner uses c true t h k = (h.1, λ n ne. absurd (ne h.0))
held_step owner uses c false t h k = (h.1, λ n ne. refl)
held_step owner releases c b t h k = (ground (arith, h.1), λ n ne. cc)
held_step owner locks c true t h k = (h.1, λ n ne. absurd (ne h.0))
held_step owner locks c false t h k = (h.1, λ n ne. refl)
held_step owner unlocks c true t h k = ground (arith, h.0)
held_step owner unlocks c false t h k = (h.1, λ n ne. refl)
held_step owner log_starts c b t h k = (h.1, λ n ne. cc)
held_step owner log_finishes c b t h k = (h.1, λ n ne. cc)
held_step owner log_gets c b t h k = (h, λ n ne. cc)
held_step owner infos c b t h k = (h.1, λ n ne. cc)
held_step owner closes c b t h k = cc

-- On a path that the specification allows, a lock stays until its owner ends it or the device is
-- closed.
held_path :
    {es : List Event} {s t : Access} (owner : ℕ)
    → Follows es s t
    → s ≡ held owner
    → All (λ (a, c, b). keeps_lock owner a c ≡ true) es
    → (t ≡ held owner) × All (IsRefused owner) es
held_path owner stops e k = (e, tt)
held_path owner (goes {a = a} {c = c} {b = b} {t = t} h f) e (k, ks) =
    let (e', r) = held_step owner a c b t (subst (λ s. Allowed a c s b t) e h) k in
    let (e'', rs) = held_path owner f e' ks in (e'', (r, rs))

module _ {Opt Drv World : Type 0} (libs : Libs Opt World) (drivers : Drivers Opt Drv World) where
  keeps-events :
      (owner : ℕ) (calls : List Call) (s : Device Opt Drv × World)
      → All (λ (a, c, msg). keeps_lock owner a c ≡ true) calls
      → All (λ (a, c, b). keeps_lock owner a c ≡ true) (events libs drivers calls s)
  unfolding events
  keeps-events owner [] s k = tt
  keeps-events owner ((a, c, msg) ∷ calls) s (k, ks) = (k, keeps-events owner calls _ ks)

  -- While a connection holds the lock of a sound device, let any connections make any requests, but
  -- the owner no `release` or `unlock`, and nobody `close`: at the end the owner still holds the lock,
  -- and every `ask`, `use`, `lock` and `unlock` of another connection has failed.
  pub lock_holds :
      (owner : ℕ) (calls : List Call) (d : Device Opt Drv) (w : World)
      → IsSound d
      → IsAscending d.users
      → d.locked ≡ true
      → has owner d.users ≡ true
      → All (λ (a, c, msg). keeps_lock owner a c ≡ true) calls
      → (view (serve libs drivers calls (d, w)).0 ≡ held owner)
        × All (IsRefused owner) (events libs drivers calls (d, w))
  lock_holds owner calls d w v set lk own k =
      held_path owner (serve-Follows libs drivers calls d w v set)
        (view-held d lk
          ∙ ap held ((==_iff (first_user d.users) owner).0 (sym (owner_has d owner v lk) ∙ own)))
        (keeps-events owner calls (d, w) k)
