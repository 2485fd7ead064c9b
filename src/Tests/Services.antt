-- ===== src/Tests/Services.antt =====
-- server/device_d.cpp: the theorems on the loop of the main function, with a system that counts
-- nothing.
use device.Base.{List, ℕ, ◌≢◌, true, false, none, some, [], ◌∷◌, text, ok, crash}
use device.Daemon.{Os, DaemonSettings, child, sent}
use device.Daemon.Serve.{
  Happening, connects, requests, reloads, disconnects, ServeSettings, main_loop,
}
use device.Daemon.Serve.Loop.{main_loop-IsValid}
use device.Manager.{Libs}
use device.Server.{new_server}
use device.Server.History.{IsValid}
use device.Server.Responses.{get_call}
use device.Server.Start.{Mhd}
use device.Tests.Sample.{echo_safe, Opt, libs, libs-Injective, echo}

abbrev os : Os ℕ
os = record {
  getpwnam = λ user w. (none, w);
  setgroups = λ groups w. (true, w);
  setgid = λ id w. (true, w);
  setuid = λ id w. (true, w);
  strerror = λ w. [];
  read_pid = λ file w. (none, w);
  write_pid = λ file pid w. (true, w);
  remove = λ file w. w;
  kill = λ pid signal w. (sent, w);
  sleep = λ w. w;
  getpid = λ w. 77;
  fork = λ w. (child, w);
  setsid = λ w. (true, w);
  umask = λ w. w;
  close_streams = λ w. w;
  set_log_file = λ file w. (ok tt, w);
  set_log_level = λ n w. w;
  log = λ level line w. w;
  show = λ n. n ∷ [];
}

abbrev mhd : Mhd ℕ
mhd = record {
  mhd_start_daemon = λ flags port items w. (some 4, w);
  mhd_stop_daemon = λ d w. w;
  str_to_type_ip4 = λ addr. ok 1;
  show_int = λ n. n ∷ [];
}

-- A client connects, locks a device in the two calls of a request, and goes; the file is read again.
abbrev day : List Happening
day =
    connects
    ∷ requests 0 (get_call false 0 (text "/lock/gen"))
    ∷ requests 0 (get_call true 0 (text "/lock/gen"))
    ∷ reloads
    ∷ disconnects 0
    ∷ []

main_loop-IsValid_example :
    IsValid libs echo libs-Injective
      (main_loop libs echo mhd os
        (λ s w. (true, w))
        day
        (record (new_server libs echo (text "devices.cfg") 0) { world = 3 })).1
    × ((main_loop libs echo mhd os
          (λ s w. (true, w))
          day
          (record (new_server libs echo (text "devices.cfg") 0) { world = 3 })).0
        ≢ crash)
main_loop-IsValid_example =
    main_loop-IsValid libs echo libs-Injective echo_safe mhd os (λ s w. (true, w)) day
      (text "devices.cfg") 0 3

-- No configuration file can be opened.
abbrev no_file : Libs Opt ℕ
no_file = record libs { read_file = λ f w. (none, w) }

abbrev console : DaemonSettings
console = record {
  user = [];
  pidfile = text "pid";
  stop = false;
  reload = false;
  dofork = false;
  logfile = [];
  verbose = 1;
}

abbrev everywhere : ServeSettings
everywhere = record { addr = text "*"; port = 8082; devfile = text "devices.cfg"; test = false }
