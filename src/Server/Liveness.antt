-- ===== src/Server/Liveness.antt =====
-- server/http_server.cpp: a connection that is lost does not keep the devices that it has locked.
use device.Base.{ℕ, ◌≡◌, ◌≢◌, refl, subst, arith, true, none, some, [], ◌∷◌, ◌++◌, Bytes, ok}
use device.Map.{Map, has, lookup, number_key, bytes_key}
use device.Device.{Drivers, Device, release}
use device.Device.Invariant.{IsSound}
use device.Device.Locking.{release_hands_over}
use device.Manager.{Libs, Manager}
use device.Manager.Actions.{uses, call_device, put_back}
use device.Manager.Addressing.{run_addressed_short, action_text}
use device.Manager.Names.{release_each, conn_close}
use device.Manager.Names.Distinct.{Injective}
use device.Manager.Run.{run}
use device.Manager.Soundness.{lookup-AllSound}
use device.Manager.Url.{NoSlash, slash}
use device.Server.{Server, respond, process_request, conn_closed, new_server, Reach}
use device.Server.History.{history-IsValid}
use device.Server.Responses.{Answers, get_call, get_once}

lookup-release_each :
    {Opt Drv : Type 0} (c : ℕ) (name : Bytes) (ds : Map Bytes (Device Opt Drv)) (d : Device Opt Drv)
    → lookup name ds ≡ some d
    → lookup name (release_each c ds) ≡ some (release c d)
unfolding lookup release_each
lookup-release_each c name [] d h = cc
lookup-release_each c name ((n, e) ∷ ds) d h = ground (arith, lookup-release_each c name ds d)

module _ {Opt Drv World : Type 0} (libs : Libs Opt World) (drivers : Drivers Opt Drv World) where
  use_released :
      (c j : ℕ) (name : Bytes) (m : Manager Opt Drv) (w : World) (d : Device Opt Drv)
      → name ≢ []
      → NoSlash name
      → lookup name m.devices ≡ some d
      → IsSound d
      → d.locked ≡ true
      → has c d.users ≡ true
      → (run libs drivers (slash ∷ (action_text uses ++ slash ∷ name)) j (conn_close c m, w)).0
        ≡ ok []
  unfolding conn_close call_device put_back
  use_released c j name m w d ne plain h v lk owner =
      rw
        (
          run_addressed_short libs drivers uses name j (conn_close c m) w ne plain,
          lookup-release_each c name m.devices d h,
          (release_hands_over drivers c j d w v lk owner).0,
        )
        refl

  -- After any history of the server, let a connection hold the lock of a device, and be closed. Then
  -- the next GET request /use/<name> of any connection is answered 200: the lock does not outlive its
  -- connection. The name is not empty and has no slash.
  pub lock_recovered :
      (inj : Injective libs) (devfile : Bytes) (w : World) {t : Server Opt Drv World} (owner j : ℕ)
      (name : Bytes) (d : Device Opt Drv)
      → Reach libs drivers (new_server libs drivers devfile w) t
      → name ≢ []
      → NoSlash name
      → lookup name t.manager.devices ≡ some d
      → d.locked ≡ true
      → has owner d.users ≡ true
      → (process_request libs drivers j
          (get_call true 0 (slash ∷ (action_text uses ++ slash ∷ name)))
          (conn_closed libs drivers owner t)).0
        ≡ ok (respond 200 [] none)
  unfolding conn_closed Answers
  lock_recovered inj devfile w {t} owner j name d r ne plain h lk own =
      let v = history-IsValid libs drivers inj devfile w r in
      let url = slash ∷ (action_text uses ++ slash ∷ name) in
      let used =
        use_released owner j name t.manager t.world d ne plain h
          (lookup-AllSound name d t.manager.devices v.sound h) lk own in
      subst
        (λ a.
          Answers a
            (process_request libs drivers j (get_call true 0 url)
              (conn_closed libs drivers owner t)).0)
        used (get_once libs drivers j 0 url (conn_closed libs drivers owner t)).1
