-- ===== src/Server/History.antt =====
-- server/http_server.cpp and server/device_d.cpp: what holds after any history of the server.
use device.Base.{ℕ, ◌≢◌, sym, subst, Bytes, crash, arith, []}
use device.Map.{number_key, lookup}
use device.Device.{Drivers}
use device.Device.Safety.{NoCrash}
use device.Manager.{Libs, Manager}
use device.Manager.Conf.{new_manager}
use device.Manager.Kept.{read_conf_stays, conn_open_stays, conn_close_stays}
use device.Manager.Soundness.{Sound, AllSound, AllSound-IsKept}
use device.Server.Kept.{request_cases, new_server_stays}
use device.Manager.Serving.{run-Sound, call_device-AllSound}
use device.Manager.Safety.{run_safe}
use device.Manager.Naming.{run-Named, names-read_conf}
use device.Manager.Names.Distinct.{
  Named, IsNamed, Hashed, Injective, conn_open-Named, conn_close-Named,
}
use device.Server.{
  Server, Call, process_request, conn_started, conn_closed, reload_func, new_server, Step, starts,
  requests, closes, reloads, Reach, here, next,
}

module _ {Opt Drv World : Type 0} (libs : Libs Opt World) (drivers : Drivers Opt Drv World)
    (inj : Injective libs) where
  -- The devices are sound and the names of connections are distinct.
  pub record IsValid (s : Server Opt Drv World) : Type 0 where
    pub sound : Sound s.manager
    pub named : Named libs s.manager

  pub new_server-IsValid :
      (devfile : Bytes) (w : World) → IsValid (new_server libs drivers devfile w)
  unfolding new_server new_manager
  new_server-IsValid devfile w = record {
    sound =
        new_server_stays libs drivers AllSound (AllSound-IsKept libs)
          (call_device-AllSound libs drivers) devfile w (unfold AllSound in tt);
    named = subst (IsNamed libs) (sym (names-read_conf libs empty w)) no_names;
  }
    where
      empty : Manager Opt Drv
      empty = record { devices = []; devfile = devfile; conn_names = [] }

      no_names : IsNamed libs []
      no_names = record {
        hashed = unfold Hashed in tt;
        distinct = λ i j n p q. unfold lookup in absurd (cc);
      }

  pub Step-IsValid : {s t : Server Opt Drv World} → IsValid s → Step libs drivers s t → IsValid t
  unfolding conn_started conn_closed reload_func
  Step-IsValid {s} v starts = record {
    sound = conn_open_stays libs AllSound s.cmax s.manager s.world v.sound;
    named = (conn_open-Named libs s.cmax s.manager s.world inj v.named).1;
  }
  Step-IsValid {s} v (requests cnum call live) =
      request_cases libs drivers IsValid cnum call s v (record {
        sound = run-Sound libs drivers call.url cnum s.manager s.world v.sound;
        named = run-Named libs drivers call.url cnum s.manager s.world live v.named;
      })
  Step-IsValid {s} v (closes cnum) = record {
    sound = conn_close_stays libs AllSound (AllSound-IsKept libs) cnum s.manager v.sound;
    named = conn_close-Named libs cnum s.manager v.named;
  }
  Step-IsValid {s} v reloads = record {
    sound = read_conf_stays libs AllSound (AllSound-IsKept libs) s.manager s.world v.sound;
    named = subst (IsNamed libs) (sym (names-read_conf libs s.manager s.world)) v.named;
  }

  pub Reach-IsValid : {s t : Server Opt Drv World} → IsValid s → Reach libs drivers s t → IsValid t
  Reach-IsValid v here = v
  Reach-IsValid v (next r st) = Step-IsValid (Reach-IsValid v r) st

  -- After any sequence of connections, requests, closings and reloads from the start of the server,
  -- every device is sound (locked only with one user, open if it has users, its logs within their
  -- limit) and no two connections have one name.
  pub history-IsValid :
      (devfile : Bytes) (w : World) {t : Server Opt Drv World}
      → Reach libs drivers (new_server libs drivers devfile w) t
      → IsValid t
  history-IsValid devfile w r = Reach-IsValid (new_server-IsValid devfile w) r

  pub process_request_safe :
      (cnum : ℕ) (call : Call) (t : Server Opt Drv World)
      → NoCrash drivers
      → IsValid t
      → (process_request libs drivers cnum call t).0 ≢ crash
  unfolding process_request
  process_request_safe cnum call t safe v =
      ground (arith, run_safe libs drivers safe call.url cnum t.manager t.world v.sound)

  -- So, if the drivers do not crash, no request after any history does: it is refused, put off to the
  -- second call, or answered.
  pub history_safe :
      (devfile : Bytes) (w : World) {t : Server Opt Drv World} (cnum : ℕ) (call : Call)
      → NoCrash drivers
      → Reach libs drivers (new_server libs drivers devfile w) t
      → (process_request libs drivers cnum call t).0 ≢ crash
  history_safe devfile w {t} cnum call safe r =
      process_request_safe cnum call t safe (history-IsValid devfile w r)
