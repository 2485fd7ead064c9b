-- ===== src/Daemon.antt =====
-- server/device_d.cpp: the parts of the main function behind its options: the user, the log, the
-- pid file, the daemon mode. The calls of the system are arguments.
pub mod Main
pub mod Options
pub mod Serve
pub mod PidFile
use device.Base.{
  ℕ, zero, suc, Bool, true, false, not, Option, none, some, List, ◌++◌, ◌==◌, length, if◌then◌else◌,
  Bytes, text, Result, ok, err, crash, Exec, continue, ◌>>=◌, ◌>>◌,
}

pub data Signal : Type 0 where
  check term hup : Signal

pub data Killed : Type 0 where
  sent : Killed
  -- ESRCH
  no_process : Killed
  -- another errno
  denied : Bytes → Killed

pub data Forked : Type 0 where
  fork_failed parent child : Forked

-- What getpwnam and getgrouplist give of a user.
pub record Passwd : Type 0 where
  pub pw_uid : ℕ
  pub pw_gid : ℕ
  pub groups : List ℕ

pub record Os (World : Type 0) : Type 0 where
  pub getpwnam : Bytes → World → Option Passwd × World
  -- setgroups, setgid, setuid; whether they worked, and the text of errno
  pub setgroups : List ℕ → World → Bool × World
  pub setgid : ℕ → World → Bool × World
  pub setuid : ℕ → World → Bool × World
  pub strerror : World → Bytes
  -- the process in the pid file, `none` if it cannot be opened
  pub read_pid : Bytes → World → Option ℕ × World
  -- opens the file and writes the number; whether it could
  pub write_pid : Bytes → ℕ → World → Bool × World
  pub remove : Bytes → World → World
  pub kill : ℕ → Signal → World → Killed × World
  pub sleep : World → World
  pub getpid : World → ℕ
  pub fork : World → Forked × World
  pub setsid : World → Bool × World
  -- umask and the closing of the standard streams
  pub umask : World → World
  pub close_streams : World → World
  pub set_log_file : Bytes → World → Result (Unit {0}) × World
  pub set_log_level : ℕ → World → World
  pub log : ℕ → Bytes → World → World
  pub show : ℕ → Bytes

pub record DaemonSettings : Type 0 where
  pub user : Bytes
  pub pidfile : Bytes
  pub stop : Bool
  pub reload : Bool
  pub dofork : Bool
  pub logfile : Bytes
  pub verbose : ℕ

-- How the body of the try leaves: by `return 0`, behind its end, or not yet, as it still waits for
-- the process to stop.
pub data Leaving : Type 0 where
  returns : Leaving
  finishes : Leaving
  waits : Leaving

-- mypid, and the world
abbrev pub State : Type 0 → Type 0
State World = Bool × World

module _ {World : Type 0} (os : Os World) where
  -- if (setgid(p->pw_uid)!=0 || setuid(p->pw_uid)!=0)
  unfoldable pub set_ids : Passwd → World → Bool × World
  set_ids p w =
      let (g, w') = os.setgid p.pw_uid w in
      let (u, w'') = os.setuid p.pw_uid w' in if g then (u, w'') else (false, w')

  unfoldable pub become : Bytes → Passwd → Exec (State World) (Unit {0})
  unfolding set_ids
  become user p (my, w) =
      let (g, w') = os.setgroups p.groups w in
      let (s, w'') = set_ids p w' in
      if not g
      then (
        err (text "can't set groups for user: " ++ (user ++ (text ": " ++ os.strerror w'))),
        (my, w'),
      )
      else if not s
      then (
        err (text "can't switch to another user: " ++ (user ++ (text ": " ++ os.strerror w''))),
        (my, w''),
      )
      else (ok tt, (my, w''))

  user_found : Bytes → Option Passwd × World → Bool → Result (Unit {0}) × State World
  unfolding become
  user_found user (none, w) my = (err (text "unknown user: " ++ user), (my, w))
  user_found user (some p, w) my = become user p (my, w)

  -- switch user if needed
  unfoldable pub switch_user : Bytes → Exec (State World) (Unit {0})
  unfolding user_found
  switch_user user (my, w) =
      let s = user_found user (os.getpwnam user w) my in
      if length user == 0 then (ok tt, (my, w)) else s

  -- default log file
  unfoldable pub log_file : DaemonSettings → Bytes
  log_file set =
      if length set.logfile == 0
      then (if set.dofork then text "/var/log/device_d.log" else text "-")
      else set.logfile

  unfoldable pub log_opened :
      DaemonSettings → Result (Unit {0}) × World → Bool → Result (Unit {0}) × State World
  log_opened set (ok a, w) my = (ok tt, (my, os.set_log_level set.verbose w))
  log_opened set (err e, w) my = (err e, (my, w))
  log_opened set (crash, w) my = (crash, (my, w))

  unfoldable pub start_log : DaemonSettings → Exec (State World) (Unit {0})
  unfolding log_file log_opened
  start_log set (my, w) = log_opened set (os.set_log_file (log_file set) w) my

  -- while (kill(pid, 0) == 0) usleep(1000), with so many rounds left; whether the process has ended
  unfoldable pub wait_end : ℕ → ℕ → World → Bool × World
  wait_end zero pid w = (false, w)
  wait_end (suc n) pid w = after (os.kill pid check w) (λ w'. wait_end n pid (os.sleep w'))
    where
      after : Killed × World → (World → Bool × World) → Bool × World
      after (sent, w') next = next w'
      after (no_process, w') next = (true, w')
      after (denied e, w') next = (true, w')

  ended_wait : Bool × World → Bool → Result Leaving × State World
  ended_wait (true, w) my = (ok returns, (my, w))
  ended_wait (false, w) my = (ok waits, (my, w))

  -- Behind kill(pid, stop ? SIGTERM : SIGHUP)
  unfoldable pub signalled :
      DaemonSettings → ℕ → ℕ → Killed × World → Bool → Result Leaving × State World
  unfolding ended_wait wait_end
  signalled set rounds pid (sent, w) my =
      let s = ended_wait (wait_end rounds pid w) my in if set.stop then s else (ok returns, (my, w))
  signalled set rounds pid (no_process, w) my = (ok returns, (my, os.remove set.pidfile w))
  signalled set rounds pid (denied e, w) my =
      (err (text "can't stop device_d process " ++ (os.show pid ++ (text ": " ++ e))), (my, w))

  -- stop running daemon
  unfoldable pub stop_daemon : DaemonSettings → ℕ → Exec (State World) Leaving
  unfolding signalled
  stop_daemon set rounds (my, w) = with_pid (os.read_pid set.pidfile w)
    where
      with_pid : Option ℕ × World → Result Leaving × State World
      with_pid (none, w') = (err (text "can't open pid-file: " ++ set.pidfile), (my, w'))
      with_pid (some pid, w') =
          signalled set rounds pid (os.kill pid (if set.stop then term else hup) w') my

  -- check pid file
  unfoldable pub check_pidfile : Bytes → Exec (State World) (Unit {0})
  check_pidfile pidfile (my, w) = with_pid (os.read_pid pidfile w)
    where
      asked : ℕ → Killed × World → Result (Unit {0}) × State World
      asked pid (sent, w') =
          (err (text "device_d already running (pid-file exists): " ++ os.show pid), (my, w'))
      asked pid (no_process, w') = (ok tt, (my, os.remove pidfile w'))
      asked pid (denied e, w') = (ok tt, (my, os.remove pidfile w'))

      with_pid : Option ℕ × World → Result (Unit {0}) × State World
      with_pid (none, w') = (ok tt, (my, w'))
      with_pid (some pid, w') = asked pid (os.kill pid check w')

  -- set up daemon mode; whether this is the parent, which returns 0
  unfoldable pub daemonize : Exec (State World) Bool
  daemonize (my, w) = forked (os.fork w)
    where
      alone : Bool × World → Result Bool × State World
      alone (true, w') = (ok false, (my, os.close_streams w'))
      alone (false, w') = (err (text "can't get SID"), (my, w'))

      forked : Forked × World → Result Bool × State World
      forked (fork_failed, w') = (err (text "can't do fork"), (my, w'))
      forked (parent, w') = (ok true, (my, w'))
      forked (child, w') = alone (os.setsid (os.umask w'))

  -- write pidfile
  unfoldable pub write_pidfile : DaemonSettings → Exec (State World) (Unit {0})
  write_pidfile set (my, w) = written (os.write_pid set.pidfile (os.getpid w) w)
    where
      started : Bytes
      started =
          (if set.dofork
            then text "Starting device_d in daemon mode, pid="
            else text "Starting device_d in console mode, pid=")
          ++ os.show (os.getpid w)

      written : Bool × World → Result (Unit {0}) × State World
      written (true, w') = (ok tt, (true, os.log 1 started w'))
      written (false, w') = (err (text "can't open pid-file: " ++ set.pidfile), (my, w'))
