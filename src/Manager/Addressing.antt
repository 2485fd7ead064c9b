-- ===== src/Manager/Addressing.antt =====
-- DevManager::run of server/dev_manager.cpp: the URLs that reach a device.
use device.Base.{
  ℕ, ◌≡◌, ◌≢◌, refl, inl, inr, Option-cases, Option, none, some, [], ◌∷◌, ◌++◌, arith, Bytes, beq,
  text, Result, err,
}
use device.Map.{bytes_key, lookup}
use device.Device.{Drivers, Device}
use device.Manager.{Libs, Manager}
use device.Manager.Url.{NoSlash, slash, parse_url-parts}
use device.Manager.Actions.{
  DeviceAction, asks, uses, releases, locks, unlocks, log_starts, log_finishes, log_gets, infos,
  closes, on_device, action_of, call_device, put_back, run_device,
}
use device.Manager.Run.{run}

-- The first part of the URL for a request on a device.
abbrev pub action_text : DeviceAction → Bytes
action_text asks = text "ask"
action_text uses = text "use"
action_text releases = text "release"
action_text locks = text "lock"
action_text unlocks = text "unlock"
action_text log_starts = text "log_start"
action_text log_finishes = text "log_finish"
action_text log_gets = text "log_get"
action_text infos = text "info"
action_text closes = text "close"

action_text-NoSlash : (a : DeviceAction) → NoSlash (action_text a)
unfolding text
action_text-NoSlash asks = omega arith
action_text-NoSlash _ = omega arith

action_of-action_text : (a : DeviceAction) → action_of (action_text a) ≡ on_device a
unfolding text action_of beq
action_of-action_text asks = refl
action_of-action_text _ = refl

module _ {Opt Drv World : Type 0} (libs : Libs Opt World) (drivers : Drivers Opt Drv World) where
  run_device-found :
      (a : DeviceAction) (url name msg : Bytes) (conn : ℕ) (m : Manager Opt Drv) (w : World)
      (d : Device Opt Drv)
      → name ≢ []
      → lookup name m.devices ≡ some d
      → run_device libs drivers a url name msg conn (m, w)
        ≡ put_back libs drivers name m (call_device libs drivers a conn msg (d, w))
  unfolding run_device
  run_device-found a url [] msg conn m w d ne h = absurd (ne refl)
  run_device-found a url (c ∷ cs) msg conn m w d ne h = rw (h, run_device)

  run_device-missing :
      (a : DeviceAction) (url name msg : Bytes) (conn : ℕ) (m : Manager Opt Drv) (w : World)
      → name ≢ []
      → lookup name m.devices ≡ none
      → run_device libs drivers a url name msg conn (m, w)
        ≡ (err (text "unknown device: " ++ name), (m, w))
  unfolding run_device
  run_device-missing a url [] msg conn m w ne h = absurd (ne refl)
  run_device-missing a url (c ∷ cs) msg conn m w ne h = rw (h, run_device)

  -- What a request for the call `a` on the device `name` does, when the map gives this for the name.
  abbrev pub on_found :
      DeviceAction
      → Bytes
      → Bytes
      → ℕ
      → Manager Opt Drv
      → World
      → Option (Device Opt Drv)
      → Result Bytes × (Manager Opt Drv × World)
  on_found a name msg conn m w none = (err (text "unknown device: " ++ name), (m, w))
  on_found a name msg conn m w (some d) =
      put_back libs drivers name m (call_device libs drivers a conn msg (d, w))

  -- /<action>/<name>/<message> makes the call of that action on the device of that name, with that
  -- message, whatever the message holds; the device is put back and all else is left alone. If there
  -- is no such device, the request is refused and nothing changes. The name is not empty and has no
  -- slash.
  pub run_addressed :
      (a : DeviceAction) (name msg : Bytes) (conn : ℕ) (m : Manager Opt Drv) (w : World)
      → name ≢ []
      → NoSlash name
      → run libs drivers (slash ∷ (action_text a ++ slash ∷ (name ++ slash ∷ msg))) conn (m, w)
        ≡ on_found a name msg conn m w (lookup name m.devices)
  unfolding run
  run_addressed a name msg conn m w ne plain =
      let parsed = (parse_url-parts (action_text a) name msg (action_text-NoSlash a) plain).0 in
      elim (Option-cases (lookup name m.devices)) [
        | inl h ↦
            rw (parsed, action_of-action_text a, h) (run_device-missing a _ name msg conn m w ne h)
        | inr (d, h) ↦
            rw (parsed, action_of-action_text a, h) (run_device-found a _ name msg conn m w d ne h)
      ]

  -- /<action>/<name> without a message makes the call with an empty one.
  pub run_addressed_short :
      (a : DeviceAction) (name : Bytes) (conn : ℕ) (m : Manager Opt Drv) (w : World)
      → name ≢ []
      → NoSlash name
      → run libs drivers (slash ∷ (action_text a ++ slash ∷ name)) conn (m, w)
        ≡ on_found a name [] conn m w (lookup name m.devices)
  unfolding run
  run_addressed_short a name conn m w ne plain =
      let parsed = (parse_url-parts (action_text a) name [] (action_text-NoSlash a) plain).1 in
      elim (Option-cases (lookup name m.devices)) [
        | inl h ↦
            rw (parsed, action_of-action_text a, h) (run_device-missing a _ name [] conn m w ne h)
        | inr (d, h) ↦
            rw (parsed, action_of-action_text a, h) (run_device-found a _ name [] conn m w d ne h)
      ]
