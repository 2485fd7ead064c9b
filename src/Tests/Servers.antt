-- ===== src/Tests/Servers.antt =====
-- server/http_server.cpp: the theorems on the server, on a history of two connections.
use device.Base.{
  ℕ, inl, Bytes, false, blt, ◌≡◌, ◌≢◌, refl, true, [], ◌∷◌, ◌++◌, arith, some, none, text, beq, ok,
  crash,
}
use device.Map.{has, lookup, insert, number_key, bytes_key}
use device.Manager.Conf.{
  new_manager, strcspn, read_pairs, add_device, read_device, read_lines, applied, read_opened,
  read_conf,
}
use device.Manager.Names.{set_conn_name, conn_open, taken}
use device.Manager.Run.{run, run_action}
use device.Server.{
  Server, Call, process_request, conn_started, conn_closed, respond, new_server, Reach, here, next,
  starts, requests,
}
use device.Device.{Device, new_device, copy_device, lock, use_if_needed, use_device, set_locked}
use device.Manager.Actions.{uses, action_of, run_device, call_device, put_back}
use device.Manager.Addressing.{action_text}
use device.Manager.Url.{slash, parse_url, cut, parts, skip_slash}
use device.Server.Liveness.{lock_recovered}
use device.Server.History.{IsValid, history-IsValid, history_safe}
use device.Client.Reading.{lines_of}
use device.Manager.Listing.{AreNames}
use device.Map.Names.{occurs}
use device.Server.Listing.{AsksList, history_listed}
use device.Server.Responses.{get_call}
use device.Tests.Sample.{Opt, echo, echo_safe, libs, libs-Injective}

abbrev start : Server Opt ℕ ℕ
start = new_server libs echo (text "devices.cfg") 0

-- Connection 0 opens, locks the device gen, connection 1 opens, and the configuration is reloaded.
abbrev opened : Server Opt ℕ ℕ
opened = (conn_started libs echo start).1

abbrev locks : Call
locks = get_call true 0 (text "/lock/gen")

abbrev locked : Server Opt ℕ ℕ
locked = (process_request libs echo 0 locks opened).2

live : has 0 opened.manager.conn_names ≡ true
unfolding has insert conn_started new_server new_manager conn_open set_conn_name taken read_conf
    read_opened read_lines read_device read_pairs strcspn add_device applied beq text
live = refl

history : Reach libs echo start (conn_started libs echo locked).1
history = next (next (next here starts) (requests 0 locks live)) starts

history-IsValid_example : IsValid libs echo libs-Injective (conn_started libs echo locked).1
history-IsValid_example = history-IsValid libs echo libs-Injective (text "devices.cfg") 0 history

history_safe_example :
    (process_request libs echo 1
      (get_call true 0 (text "/ask/gen/x"))
      (conn_started libs echo locked).1).0
    ≢ crash
history_safe_example =
    history_safe libs echo libs-Injective (text "devices.cfg") 0 1
      (get_call true 0 (text "/ask/gen/x")) echo_safe history

-- The device gen as connection 0 has locked it.
abbrev gen : Device Opt ℕ
gen = record {
  drv = some 0;
  users = (0, tt) ∷ [];
  locked = true;
  dev_name = text "gen";
  drv_name = text "spp";
  drv_args = (text "prog", text "graphene") ∷ [];
  log_bufs = [];
  max_log_size = 1024;
}

gen_locked : lookup (text "gen") locked.manager.devices ≡ some gen
unfolding has insert conn_started new_server new_manager conn_open set_conn_name taken read_conf
    read_opened read_lines read_device read_pairs strcspn add_device applied beq text
    process_request run parse_url cut parts skip_slash action_of run_action run_device call_device
    put_back lock use_if_needed use_device set_locked new_device lookup get_call blt copy_device
gen_locked = refl

lock_recovered_example :
    (process_request libs echo 1
      (get_call true 0 (slash ∷ (action_text uses ++ slash ∷ text "gen")))
      (conn_closed libs echo 0 locked)).0
    ≡ ok (respond 200 [] none)
unfolding text has
lock_recovered_example =
    lock_recovered libs echo libs-Injective (text "devices.cfg") 0 0 1 (text "gen") gen
      (next (next here starts) (requests 0 locks live)) (λ e. cc) (omega arith) gen_locked refl refl

history_listed_example :
    (body : Bytes) × (process_request libs echo 1
        (get_call true 0 (text "/list"))
        (conn_started libs echo locked).1
      ≡ (ok (respond 200 body none), false, (conn_started libs echo locked).1))
    × AreNames (lines_of body)
    × ((n : Bytes)
        → has n (conn_started libs echo locked).1.manager.devices ≡ occurs n (lines_of body))
history_listed_example =
    history_listed libs echo (text "devices.cfg") 0 1 (text "/list") history
      (unfold AsksList in inl refl)
