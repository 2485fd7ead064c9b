-- ===== src/Server.antt =====
-- server/http_server.cpp: connections and requests of the HTTP library, and the reload signal of
-- server/device_d.cpp. The library itself (its threads, sockets and queues) is not modelled: it calls
-- `conn_func` when a connection opens or closes and `process_request` on an open one.
pub mod Kept
pub mod History
pub mod Listing
pub mod Liveness
pub mod Programs
pub mod Responses
pub mod Start
use device.Base.{
  ℕ, ◌+◌, ◌%◌, ◌^◌, Bool, true, false, not, Option, none, some, ◌==◌, ◌≡◌, if◌then◌else◌, Bytes,
  text, beq, Result, ok, err, crash,
}
use device.Map.{number_key, has}
use device.Device.{Drivers}
use device.Manager.{Libs, Manager}
use device.Manager.Conf.{new_manager}
use device.Manager.Names.{conn_open, conn_close}
use device.Manager.Run.{run, reread}

-- The manager, the outside world, and the counter of connections.
pub record Server (Opt Drv World : Type 0) : Type 0 where
  pub manager : Manager Opt Drv
  pub world : World
  pub cmax : ℕ

-- One call of ProcessRequest: `seen` says that *ptr is the mark that the first call left.
pub record Call : Type 0 where
  pub method : Bytes
  pub seen : Bool
  pub upload_data_size : ℕ
  pub url : Bytes

pub data Reply : Type 0 where
  -- return MHD_NO, and MHD_YES with nothing queued
  no yes : Reply
  -- the status, the body, and the header "Error" where there is one
  respond : ℕ → Bytes → Option Bytes → Reply

module _ {Opt Drv World : Type 0} (libs : Libs Opt World) (drivers : Drivers Opt Drv World) where
  pub response : Result Bytes → Result Reply
  response (ok msg) = ok (respond 200 msg none)
  response (err e) = ok (respond 400 e (some e))
  response crash = crash

  replied :
      ℕ → Result Bytes × (Manager Opt Drv × World) → Result Reply × Bool × Server Opt Drv World
  unfolding response
  replied cmax (r, (m, w)) = (response r, false, record { manager = m; world = w; cmax = cmax })

  -- ProcessRequest for the connection `cnum`: the reply, the mark that it leaves, and the state.
  unfoldable pub process_request :
      ℕ → Call → Server Opt Drv World → Result Reply × Bool × Server Opt Drv World
  unfolding replied
  process_request cnum call s =
      if not (beq call.method (text "GET"))
      then (ok no, call.seen, s)
      else if not call.seen
      then (ok yes, true, s)
      else if not (call.upload_data_size == 0)
      then (ok no, call.seen, s)
      else replied s.cmax (run libs drivers call.url cnum (s.manager, s.world))

  opened : ℕ → Result (Unit {0}) × (Manager Opt Drv × World) → Result ℕ × Server Opt Drv World
  opened cnum (r, (m, w)) =
      (numbered r, record { manager = m; world = w; cmax = (cnum + 1) % 2 ^ 64 })
    where
      numbered : Result (Unit {0}) → Result ℕ
      numbered (ok a) = ok cnum
      numbered (err e) = err e
      numbered crash = crash

  -- ConnFunc, MHD_CONNECTION_NOTIFY_STARTED: the number of the connection
  unfoldable pub conn_started : Server Opt Drv World → Result ℕ × Server Opt Drv World
  unfolding opened
  conn_started s = opened s.cmax (conn_open libs s.cmax (s.manager, s.world))

  -- ConnFunc, MHD_CONNECTION_NOTIFY_CLOSED
  unfoldable pub conn_closed : ℕ → Server Opt Drv World → Server Opt Drv World
  conn_closed cnum s = record s { manager = conn_close cnum s.manager }

  -- ReloadFunc: what read_conf throws leaves the handler.
  unfoldable pub reload_func : Server Opt Drv World → Server Opt Drv World
  unfolding reread
  reload_func s =
      let (m, w) = (reread libs drivers (s.manager, s.world)).1 in
      record { manager = m; world = w; cmax = s.cmax }

  -- The server that starts: no connection yet.
  unfoldable pub new_server : Bytes → World → Server Opt Drv World
  new_server devfile w =
      let (m, w') = new_manager libs devfile w in record { manager = m; world = w'; cmax = 0 }

  -- One call of the HTTP library or one signal. Requests come on open connections.
  pub data Step (s : Server Opt Drv World) : Server Opt Drv World → Type 0 where
    starts : Step s (conn_started s).1
    requests :
        (cnum : ℕ) (call : Call)
        → has cnum s.manager.conn_names ≡ true
        → Step s (process_request cnum call s).2
    closes : (cnum : ℕ) → Step s (conn_closed cnum s)
    reloads : Step s (reload_func s)

  pub data Reach (s : Server Opt Drv World) : Server Opt Drv World → Type 0 where
    here : Reach s s
    next : {t u : Server Opt Drv World} → Reach s t → Step t u → Reach s u
