-- ===== src/Tests/Daemons.antt =====
-- server/device_d.cpp: the theorems on the pid file, with a system that has one file.
use device.Base.{
  ℕ, ◌-◌, ◌≡◌, refl, arith, true, false, Option, none, some, [], ◌∷◌, text, Result, ok, err,
  if◌then◌else◌, ◌==◌,
}
use device.Daemon.{Os, DaemonSettings, sent, no_process, child}
use device.Daemon.Main.{main}
use device.Daemon.PidFile.{second_refused, pidfile_removed, gone, lasts, stop_ends}

-- The pid in the file, and how many more signals its process answers to.
abbrev World : Type 0
World = Option ℕ × ℕ

abbrev os : Os World
os = record {
  getpwnam = λ user w. (none, w);
  setgroups = λ groups w. (true, w);
  setgid = λ id w. (true, w);
  setuid = λ id w. (true, w);
  strerror = λ w. [];
  read_pid = λ file (f, n). (f, (f, n));
  write_pid = λ file pid (f, n). (true, (some pid, n));
  remove = λ file (f, n). (none, n);
  kill = λ pid signal (f, n). if n == 0 then (no_process, (f, n)) else (sent, (f, n - 1));
  sleep = λ w. w;
  getpid = λ w. 77;
  fork = λ w. (child, w);
  setsid = λ w. (true, w);
  umask = λ w. w;
  close_streams = λ w. w;
  set_log_file = λ file w. (ok tt, w);
  set_log_level = λ n w. w;
  log = λ level line w. w;
  show = λ n. n ∷ [];
}

abbrev console : DaemonSettings
console = record {
  user = [];
  pidfile = text "pid";
  stop = false;
  reload = false;
  dofork = false;
  logfile = [];
  verbose = 1;
}

-- It fails at once, as if the port were in use.
abbrev busy_port : World → Result (World → World) × World
busy_port w = (err (text "port"), w)

second_refused_example : main os busy_port console 0 (some 5, 3) ≡ (ok (some 1), (some 5, 2))
second_refused_example =
    second_refused os busy_port console 0 refl (some 5, 3) (some 5, 3) refl (some 5, 3) (some 5, 2)
      5 refl refl refl refl

pidfile_removed_example : main os busy_port console 0 (none, 0) ≡ (ok (some 1), (none, 0))
unfolding text
pidfile_removed_example =
    pidfile_removed os busy_port console 0 refl (none, 0) (none, 0) refl (none, 0) (some 77, 0)
      (some 77, 0) (err (text "port")) refl refl refl (λ e. cc) refl refl refl (λ e. cc)

stop_ends_example :
    main os busy_port (record console { stop = true }) 3 (some 5, 3) ≡ (ok (some 0), (some 5, 0))
stop_ends_example =
    stop_ends os 5 busy_port (record console { stop = true }) 3 2 (some 5, 3) (some 5, 3)
      (some 5, 3) (some 5, 2) (some 5, 0) refl refl refl refl refl
      (lasts refl (lasts refl (gone refl))) (omega arith)
