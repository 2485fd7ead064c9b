-- ===== src/Daemon/PidFile.antt =====
-- server/device_d.cpp: the pid file, which keeps a second server from starting.
use device.Base.{
  ℕ, zero, suc, ◌≤◌, ◌≡◌, ◌≢◌, refl, arith, true, false, none, some, [], ◌++◌, ◌==◌, length,
  if◌then◌else◌, length_nonempty, text, Result, ok, err, crash, Exec,
}
use device.Daemon.{
  check, term, sent, no_process, Os, DaemonSettings, switch_user, wait_end, signalled, stop_daemon,
  check_pidfile, write_pidfile, start_log, log_file,
}
use device.Daemon.Main.{run_server, start_daemon, main_body, main}

module _ {World : Type 0} (os : Os World) (serve : Exec World (World → World))
    (set : DaemonSettings) (rounds : ℕ) (same_user : set.user ≡ []) (w0 w : World)
    (logs : os.set_log_file (log_file os set) w0 ≡ (ok tt, w)) where
  -- Behind the opening of the log.
  abbrev pub w1 : World
  w1 = os.set_log_level set.verbose w

  -- While the process of the pid file answers to kill, a second server does not start: it ends with
  -- the code 1 and a line in its log, and neither touches the pid file nor forks nor serves.
  pub second_refused :
      (w' w'' : World) (pid : ℕ)
      → set.stop ≡ false
      → set.reload ≡ false
      → os.read_pid set.pidfile w1 ≡ (some pid, w')
      → os.kill pid check w' ≡ (sent, w'')
      → main os serve set rounds w0 ≡ (
        ok (some 1),
        os.log 0
            (text "Error: " ++ (text "device_d already running (pid-file exists): " ++ os.show pid))
            w'',
      )
  unfolding main main_body switch_user start_log start_daemon check_pidfile text
  second_refused w' w'' pid s r f k = rw (same_user, logs, s, r, f, k) (ground arith)

  -- The return code, and the world with the line that is logged at the end.
  abbrev pub code : Result (World → World) → ℕ
  code (ok a) = 0
  code _ = 1

  abbrev pub logged : Result (World → World) → World → World
  logged (ok destruct) t = destruct (os.log 1 (text "Stopping HTTP server") t)
  logged (err e) t = if length e == 0 then t else os.log 0 (text "Error: " ++ e) t
  logged crash t = t

  -- A server in console mode that finds no pid file writes one before it serves, and removes it when it
  -- ends, by a signal with the return code 0 or by an error with 1; the file has a name.
  pub pidfile_removed :
      (w' w'' t : World) (v : Result (World → World))
      → set.stop ≡ false
      → set.reload ≡ false
      → set.dofork ≡ false
      → set.pidfile ≢ []
      → os.read_pid set.pidfile w1 ≡ (none, w')
      → os.write_pid set.pidfile (os.getpid w') w' ≡ (true, w'')
      → serve
          (os.log 1 (text "Starting device_d in console mode, pid=" ++ os.show (os.getpid w')) w'')
        ≡ (v, t)
      → v ≢ crash
      → main os serve set rounds w0 ≡ (ok (some (code v)), os.remove set.pidfile (logged v t))
  unfolding main main_body switch_user start_log start_daemon check_pidfile run_server write_pidfile
  pidfile_removed w' w'' t (ok a) s r d p f x v n =
      rw (same_user, logs, s, r, d, f, x, v, length_nonempty set.pidfile p) refl
  pidfile_removed w' w'' t (err e) s r d p f x v n =
      rw (same_user, logs, s, r, d, f, x, v, length_nonempty set.pidfile p) refl
  pidfile_removed w' w'' t crash s r d p f x v n = absurd (n refl)

module _ {World : Type 0} (os : Os World) (pid : ℕ) where
  -- The process answers to kill so many times, with a pause behind each, and then no more.
  pub data Stops : World → ℕ → World → Type 0 where
    gone : {w t : World} → os.kill pid check w ≡ (no_process, t) → Stops w 0 t
    lasts :
        {w w' t : World} {n : ℕ}
        → os.kill pid check w ≡ (sent, w')
        → Stops (os.sleep w') n t
        → Stops w (suc n) t

  wait_end-Stops :
      (rounds : ℕ) {w t : World} {n : ℕ}
      → Stops w n t
      → suc n ≤ rounds
      → wait_end os rounds pid w ≡ (true, t)
  unfolding wait_end
  wait_end-Stops zero st h = absurd (omega arith)
  wait_end-Stops (suc rounds) (gone k) h = rw k refl
  wait_end-Stops (suc rounds) (lasts k st) h = rw k (wait_end-Stops rounds st (omega arith))

  -- With the option stop the program ends, with the code 0, as soon as the process of the pid file is
  -- gone, if the signal could be sent: one poll more than the process answers to is enough. It starts
  -- no server, and leaves the pid file to that process.
  pub stop_ends :
      (serve : Exec World (World → World)) (set : DaemonSettings) (rounds n : ℕ)
      (w0 w w' w'' t : World)
      → set.user ≡ []
      → os.set_log_file (log_file os set) w0 ≡ (ok tt, w)
      → set.stop ≡ true
      → os.read_pid set.pidfile (os.set_log_level set.verbose w) ≡ (some pid, w')
      → os.kill pid term w' ≡ (sent, w'')
      → Stops w'' n t
      → suc n ≤ rounds
      → main os serve set rounds w0 ≡ (ok (some 0), t)
  unfolding main main_body switch_user start_log stop_daemon signalled
  stop_ends serve set rounds n w0 w w' w'' t u l s f k st h =
      rw (u, l, s, f, k, wait_end-Stops rounds st h) refl
