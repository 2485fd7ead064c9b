-- ===== src/Daemon/Serve/Loop.antt =====
-- server/device_d.cpp: the state of the server in the loop of the main function.
use device.Base.{
  ◌≢◌, ◌≡◌, refl, Bool, List, [], ◌∷◌, Bytes, Result, ok, err, crash, inl, inr, Bool-cases,
}
use device.Daemon.{Os}
use device.Daemon.Serve.{
  HandledSignal, Happening, connects, requests, disconnects, reloads, happen, called, then_loop,
  main_loop,
}
use device.Device.{Drivers}
use device.Device.Safety.{NoCrash}
use device.Manager.{Libs}
use device.Manager.Failure.{read_conf_safe}
use device.Manager.Names.Distinct.{Injective, conn_open-Named}
use device.Map.{number_key, has}
use device.Server.{
  Server, Call, starts, closes, reload_func, conn_started, new_server, process_request,
}
use device.Server
use device.Server.History.{IsValid, Step-IsValid, new_server-IsValid, process_request_safe}
use device.Server.Responses.{process_request-caught}
use device.Server.Start.{Mhd}

module _ {Opt Drv World : Type 0} (libs : Libs Opt World) (drivers : Drivers Opt Drv World)
    (inj : Injective libs) (safe : NoCrash drivers) (mhd : Mhd World) (os : Os World)
    (sigaction : HandledSignal → World → Bool × World) where
  -- The program has not crashed, and the state is valid.
  unfoldable pub GoesWell : Result (Unit {0}) × Server Opt Drv World → Type 0
  GoesWell x = IsValid libs drivers inj x.1 × (x.0 ≢ crash)

  called-GoesWell :
      {A : Type 0} (r : Result A) (s : Server Opt Drv World)
      → IsValid libs drivers inj s
      → ((e : Bytes) → r ≢ err e)
      → r ≢ crash
      → GoesWell (called libs drivers mhd os sigaction r s)
  unfolding called GoesWell
  called-GoesWell (ok a) s v n m = (v, λ e. cc)
  called-GoesWell (err e) s v n m = absurd (n e refl)
  called-GoesWell crash s v n m = absurd (m refl)

  conn_started_safe :
      (s : Server Opt Drv World)
      → IsValid libs drivers inj s
      → (conn_started libs drivers s).0 ≡ ok s.cmax
  unfolding conn_started
  conn_started_safe s v = rw ((conn_open-Named libs s.cmax s.manager s.world inj v.named).0) refl

  happen-GoesWell :
      (h : Happening) (s : Server Opt Drv World)
      → IsValid libs drivers inj s
      → GoesWell (happen libs drivers mhd os sigaction h s)
  unfolding happen
  happen-GoesWell connects s v =
      let e = conn_started_safe s v in
      called-GoesWell (conn_started libs drivers s).0 (conn_started libs drivers s).1
        (Step-IsValid libs drivers inj v starts) (λ x y. cc) (λ x. cc)
  happen-GoesWell (requests cnum call) s v = elim (Bool-cases (has cnum s.manager.conn_names)) [
    | inl e ↦ rw e (
        called-GoesWell (process_request libs drivers cnum call s).0 _
          (Step-IsValid libs drivers inj v (Server.requests cnum call e))
          (process_request-caught libs drivers cnum call s)
          (process_request_safe libs drivers inj cnum call s safe v))
    | inr e ↦ rw e (unfold GoesWell in (v, λ x. cc))
  ]
  happen-GoesWell (disconnects cnum) s v =
      unfold GoesWell in (Step-IsValid libs drivers inj v (closes cnum), λ x. cc)
  happen-GoesWell reloads s v =
      unfold GoesWell in
      (Step-IsValid libs drivers inj v Server.reloads, read_conf_safe libs s.manager s.world)

  then_loop-GoesWell :
      (x : Result (Unit {0}) × Server Opt Drv World)
      (rest : Server Opt Drv World → Result (Unit {0}) × Server Opt Drv World)
      → ((u : Server Opt Drv World) → IsValid libs drivers inj u → GoesWell (rest u))
      → GoesWell x
      → GoesWell (then_loop libs drivers mhd os sigaction x rest)
  unfolding then_loop GoesWell
  then_loop-GoesWell (ok a, u) rest ih (v, n) = ih u v
  then_loop-GoesWell (err e, u) rest ih (v, n) = (v, n)
  then_loop-GoesWell (crash, u) rest ih (v, n) = absurd (n refl)

  loop-GoesWell :
      (hs : List Happening) (s : Server Opt Drv World)
      → IsValid libs drivers inj s
      → GoesWell (main_loop libs drivers mhd os sigaction hs s)
  unfolding main_loop
  loop-GoesWell [] s v = unfold GoesWell in (v, λ e. cc)
  loop-GoesWell (h ∷ hs) s v =
      then_loop-GoesWell (happen libs drivers mhd os sigaction h s)
        (main_loop libs drivers mhd os sigaction hs) (loop-GoesWell hs) (happen-GoesWell h s v)

  -- If the drivers do not crash, then whatever connections, requests, closings and reloads happen until
  -- the loop of the main function ends, no callback of the HTTP library throws and none runs into
  -- undefined behaviour, so that the loop ends with the stop signal or with the error of a reload; and
  -- its manager is valid: its devices are sound and the names of its connections distinct. The
  -- numbers of connections print as distinct texts.
  pub main_loop-IsValid :
      (hs : List Happening) (devfile : Bytes) (w w' : World)
      → IsValid libs drivers inj
          (main_loop libs drivers mhd os sigaction hs
            (record (new_server libs drivers devfile w) { world = w' })).1
        × ((main_loop libs drivers mhd os sigaction hs
              (record (new_server libs drivers devfile w) { world = w' })).0
            ≢ crash)
  unfolding GoesWell
  main_loop-IsValid hs devfile w w' =
      let v = new_server-IsValid libs drivers inj devfile w in
      loop-GoesWell hs (record (new_server libs drivers devfile w) { world = w' })
        (record { sound = v.sound; named = v.named })
