-- ===== src/Daemon/Serve.antt =====
-- server/device_d.cpp: what the main function runs from the construction of the manager on: the
-- server of server/http_server.cpp, the signals, and the loop that a signal ends. The threads of
-- the HTTP library are a list of what happens until then.
pub mod Loop
pub mod Reloading
use device.Base.{
  ℕ, Bool, true, false, List, [], ◌∷◌, ◌++◌, if◌then◌else◌, Bytes, text, Result, ok, err, crash,
  Exec, continue, ◌>>=◌, ◌>>◌,
}
use device.Daemon.{Os}
use device.Device.{Drivers}
use device.Manager.{Libs}
use device.Manager.Conf.{read_conf}
use device.Manager.Names.{delete_devices}
use device.Map.{number_key, has}
use device.Server.{
  Server, Call, process_request, conn_started, conn_closed, reload_func, new_server,
}
use device.Server.Start.{Mhd, new_http_server, delete_http_server}

pub data HandledSignal : Type 0 where
  sigterm sigquit sigint sighup : HandledSignal

-- What happens while the main function sleeps.
pub data Happening : Type 0 where
  connects : Happening
  requests : ℕ → Call → Happening
  disconnects : ℕ → Happening
  reloads : Happening

pub record ServeSettings : Type 0 where
  pub addr : Bytes
  -- an int, as a word of 32 bits
  pub port : ℕ
  pub devfile : Bytes
  pub test : Bool

module _ {Opt Drv World : Type 0} (libs : Libs Opt World) (drivers : Drivers Opt Drv World)
    (mhd : Mhd World) (os : Os World) (sigaction : HandledSignal → World → Bool × World) where
  -- sigaction(…) == -1 || …, whether all of them worked
  unfoldable pub handled : List HandledSignal → World → Bool × World
  handled [] w = (true, w)
  handled (s ∷ ss) w =
      let rest = handled ss (sigaction s w).1 in
      if (sigaction s w).0 then rest else (false, (sigaction s w).1)

  unfoldable pub or_fail : Bool × World → Result (Unit {0}) × World
  or_fail (true, w) = (ok tt, w)
  or_fail (false, w) = (err (text "can't set signal handler"), w)

  -- set up signals
  unfoldable pub set_up_signals : Exec World (Unit {0})
  unfolding handled or_fail
  set_up_signals = do
    λ w. or_fail (handled (sigterm ∷ sigquit ∷ sigint ∷ []) w)
    λ w. or_fail (handled (sighup ∷ []) w)

  -- An exception that leaves a callback of the HTTP library ends the program.
  unfoldable pub called :
      {A : Type 0} → Result A → Server Opt Drv World → Result (Unit {0}) × Server Opt Drv World
  called (ok a) s = (ok tt, s)
  called (err e) s = (crash, s)
  called crash s = (crash, s)

  -- What read_conf throws in ReloadFunc is thrown out of the sleep. The library makes no requests on
  -- a connection that is not open.
  unfoldable pub happen :
      Happening → Server Opt Drv World → Result (Unit {0}) × Server Opt Drv World
  unfolding called
  happen connects s = let (r, t) = conn_started libs drivers s in called r t
  happen (requests cnum call) s =
      let (r, b, t) = process_request libs drivers cnum call s in
      if has cnum s.manager.conn_names then called r t else (ok tt, s)
  happen (disconnects cnum) s = (ok tt, conn_closed libs drivers cnum s)
  happen reloads s = ((read_conf libs (s.manager, s.world)).0, reload_func libs drivers s)

  unfoldable pub then_loop :
      Result (Unit {0}) × Server Opt Drv World
      → (Server Opt Drv World → Result (Unit {0}) × Server Opt Drv World)
      → Result (Unit {0}) × Server Opt Drv World
  then_loop (ok a, s) next = next s
  then_loop (err e, s) next = (err e, s)
  then_loop (crash, s) next = (crash, s)

  -- try{ while(1) sleep(10); } catch(int ret){}: StopFunc comes behind all that happens.
  unfoldable pub main_loop :
      List Happening → Server Opt Drv World → Result (Unit {0}) × Server Opt Drv World
  unfolding happen then_loop
  main_loop [] s = (ok tt, s)
  main_loop (h ∷ hs) s = then_loop (happen h s) (main_loop hs)

  -- ~HTTP_Server and ~DevManager, in this order
  unfoldable pub ended : ℕ → Server Opt Drv World → World → World
  unfolding delete_http_server
  ended d s w = delete_devices drivers s.manager.devices (delete_http_server mhd d w)

  -- The destructors: behind the loop, or at once with an error.
  unfoldable pub destructed :
      ℕ → Result (Unit {0}) × Server Opt Drv World → Result (World → World) × World
  unfolding ended
  destructed d (ok a, s) = (ok (ended d s), s.world)
  destructed d (err e, s) = (err e, ended d s s.world)
  destructed d (crash, s) = (crash, s.world)

  unfoldable pub looped :
      ℕ
      → List Happening
      → Server Opt Drv World
      → Result (Unit {0}) × World
      → Result (World → World) × World
  unfolding main_loop destructed ended
  looped d hs s (ok a, w) = destructed d (main_loop hs (record s { world = w }))
  looped d hs s (err e, w) = (err e, ended d s w)
  looped d hs s (crash, w) = (crash, w)

  unfoldable pub announced : ServeSettings → World → World
  announced set w =
      let w' =
        os.log 1
          (text "HTTP server is running at " ++ (set.addr ++ (text ":" ++ mhd.show_int set.port)))
          w in
      if set.test then os.log 1 (text "TESTING MODE") w' else w'

  unfoldable pub listening :
      ServeSettings
      → List Happening
      → Server Opt Drv World
      → Result ℕ × World
      → Result (World → World) × World
  unfolding set_up_signals looped announced
  listening set hs s (ok d, w) = looped d hs s (set_up_signals (announced set w))
  listening set hs s (err e, w) = (err e, delete_devices drivers s.manager.devices w)
  listening set hs s (crash, w) = (crash, w)

  unfoldable pub serve : ServeSettings → List Happening → Exec World (World → World)
  unfolding listening
  serve set hs w =
      let s = new_server libs drivers set.devfile w in
      listening set hs s (new_http_server mhd set.addr set.port set.test s.world)
