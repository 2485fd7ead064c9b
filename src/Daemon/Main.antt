-- ===== src/Daemon/Main.antt =====
-- server/device_d.cpp: the main function behind its options. `serve` is what runs from the
-- construction of the manager to the signal that stops the server; it gives what the destructors do
-- then.
use device.Base.{
  ℕ, false, ◌||◌, ◌&&◌, not, Option, none, some, ◌++◌, ◌==◌, length, if◌then◌else◌, text, Result,
  ok, err, crash, Exec, pure, ◌>>=◌, ◌>>◌,
}
use device.Daemon.{
  Os, DaemonSettings, Leaving, returns, finishes, waits, State, switch_user, start_log, stop_daemon,
  check_pidfile, daemonize, write_pidfile,
}

module _ {World : Type 0} (os : Os World) (serve : Exec World (World → World)) where
  served : Exec (State World) Leaving
  served (my, w) = stopped (serve w)
    where
      stopped : Result (World → World) × World → Result Leaving × State World
      stopped (ok destruct, w') =
          (ok finishes, (my, destruct (os.log 1 (text "Stopping HTTP server") w')))
      stopped (err e, w') = (err e, (my, w'))
      stopped (crash, w') = (crash, (my, w'))

  -- From the writing of the pid file on.
  unfoldable pub run_server : DaemonSettings → Exec (State World) Leaving
  unfolding write_pidfile served
  run_server set = do write_pidfile os set; served

  unfoldable pub start_daemon : DaemonSettings → Exec (State World) Leaving
  unfolding check_pidfile daemonize run_server
  start_daemon set = do
    check_pidfile os set.pidfile
    if set.dofork
        then (do is_parent ← daemonize os; if is_parent then pure returns else run_server set)
        else run_server set

  -- try { … }, with `rounds` for the wait on a process that is to stop
  unfoldable pub main_body : DaemonSettings → ℕ → Exec (State World) Leaving
  unfolding switch_user start_log stop_daemon start_daemon
  main_body set rounds = do
    switch_user os set.user
    start_log os set
    if set.stop || set.reload then stop_daemon os set rounds else start_daemon set

  -- if (mypid && pidfile!= "") remove(pidfile.c_str());
  clean : DaemonSettings → State World → World
  clean set (my, w) = if my && not (length set.pidfile == 0) then os.remove set.pidfile w else w

  -- What follows the try: the return code, `none` while it waits. `Err()` has the code -1, which
  -- becomes 1.
  exit_status : DaemonSettings → Result Leaving × State World → Result (Option ℕ) × World
  unfolding clean
  exit_status set (ok returns, (my, w)) = (ok (some 0), w)
  exit_status set (ok waits, (my, w)) = (ok none, w)
  exit_status set (ok finishes, s) = (ok (some 0), clean set s)
  exit_status set (err e, (my, w)) =
      (ok (some 1), clean set (my, (if length e == 0 then w else os.log 0 (text "Error: " ++ e) w)))
  exit_status set (crash, (my, w)) = (crash, w)

  unfoldable pub main : DaemonSettings → ℕ → World → Result (Option ℕ) × World
  unfolding main_body exit_status
  main set rounds w = exit_status set (main_body set rounds (false, w))
