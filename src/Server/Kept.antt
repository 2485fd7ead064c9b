-- ===== src/Server/Kept.antt =====
-- server/http_server.cpp and server/device_d.cpp: predicates on the map of devices, through histories of
-- the server.
use device.Base.{ℕ, ◌≡◌, [], some, ◌==◌, beq, text, Bytes, inl, inr, Bool-cases}
use device.Map.{Map, bytes_key, lookup, insert}
use device.Device.{Drivers, Device}
use device.Manager.{Libs}
use device.Manager.Actions.{DeviceAction, call_device}
use device.Manager.Conf.{new_manager}
use device.Manager.Kept.{IsKept, read_conf_stays, conn_open_stays, conn_close_stays, run_stays}
use device.Manager.Run.{run}
use device.Server.{
  Server, Call, process_request, conn_started, conn_closed, reload_func, new_server, Step, starts,
  requests, closes, reloads, Reach, here, next,
}

module _ {Opt Drv World : Type 0} (libs : Libs Opt World) (drivers : Drivers Opt Drv World) where
  -- A call of ProcessRequest leaves the state, or it runs the request.
  pub request_cases :
      (P : Server Opt Drv World → Type 0) (cnum : ℕ) (call : Call) (s : Server Opt Drv World)
      → P s
      → P (
          let (r, (m, w)) = run libs drivers call.url cnum (s.manager, s.world) in
          record { manager = m; world = w; cmax = s.cmax })
      → P (process_request libs drivers cnum call s).2
  unfolding process_request
  request_cases P cnum call s p q = elim (Bool-cases (beq call.method (text "GET"))) [
    | inr e ↦ rw e p
    | inl e ↦ rw e (elim (Bool-cases call.seen) [
      | inr f ↦ rw f p
      | inl f ↦
          rw f (elim (Bool-cases (call.upload_data_size == 0)) [ inr g ↦ rw g p | inl g ↦ rw g q ])
    ])
  ]

  module _ (P : Map Bytes (Device Opt Drv) → Type 0) (kept : IsKept libs P)
      (called : (a : DeviceAction) (conn : ℕ) (msg n : Bytes) (d : Device Opt Drv)
          (ds : Map Bytes (Device Opt Drv)) (w : World)
        → lookup n ds ≡ some d
        → P ds
        → P (insert n (call_device libs drivers a conn msg (d, w)).1.0 ds)) where
    pub Step_stays :
        {s t : Server Opt Drv World}
        → P s.manager.devices
        → Step libs drivers s t
        → P t.manager.devices
    unfolding conn_started conn_closed reload_func
    Step_stays {s} p starts = conn_open_stays libs P s.cmax s.manager s.world p
    Step_stays {s} p (requests cnum call live) =
        request_cases (λ t. P t.manager.devices) cnum call s p
          (run_stays libs drivers P kept called call.url cnum s.manager s.world p)
    Step_stays {s} p (closes cnum) = conn_close_stays libs P kept cnum s.manager p
    Step_stays {s} p reloads = read_conf_stays libs P kept s.manager s.world p

    pub new_server_stays :
        (devfile : Bytes) (w : World) → P [] → P (new_server libs drivers devfile w).manager.devices
    unfolding new_server new_manager
    new_server_stays devfile w p =
        read_conf_stays libs P kept (record { devices = []; devfile = devfile; conn_names = [] }) w
          p

    pub Reach_stays :
        {s t : Server Opt Drv World}
        → P s.manager.devices
        → Reach libs drivers s t
        → P t.manager.devices
    Reach_stays p here = p
    Reach_stays p (next r st) = Step_stays (Reach_stays p r) st
