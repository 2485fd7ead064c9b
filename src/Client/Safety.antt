-- ===== src/Client/Safety.antt =====
-- class Downloader of server/device_c.cpp: what keeps its functions from undefined behaviour.
use device.Base.{
  ℕ, zero, suc, ◌≢◌, refl, Bool, true, false, List, [], ◌∷◌, ◌++◌, length, ◌==◌, if◌then◌else◌,
  Bytes, text, newline, Result, ok, err, crash, Exec, pure, continue, ◌>>◌,
}
use device.Client.{
  Curl, Session, put_text, report, ask_server, guarded, each_line, send, show_answer, get, set_up,
  dev_session, use_dev, srv_command, srv_session, use_srv, monitor_rounds, monitor,
}
use device.Client.Session.{Escapes, get-safe, srv_command-safe, each_line-replies}
use device.Manager.{Words}

-- It does not run into undefined behaviour.
abbrev pub IsSafe : {S A : Type 0} → Exec S A → Type 0
IsSafe m = (s : _) → (m s).0 ≢ crash

module _ {S A B : Type 0} where
  pub continue-IsSafe :
      (r : Result A × S) (f : A → Exec S B)
      → r.0 ≢ crash
      → ((a : A) → IsSafe (f a))
      → (continue r f).0 ≢ crash
  continue-IsSafe (ok a, s) f h k = k a s
  continue-IsSafe (err e, s) f h k = λ e. cc
  continue-IsSafe (crash, s) f h k = absurd (h refl)

module _ {S A B : Type 0} where
  pub then-IsSafe : (m : Exec S A) (k : Exec S B) → IsSafe m → IsSafe k → IsSafe (m >> k)
  then-IsSafe m k h i s = continue-IsSafe (m s) (λ _. k) (h s) (λ _. i)

module _ {S A : Type 0} where
  pub if-IsSafe : (c : Bool) (m k : Exec S A) → IsSafe m → IsSafe k → IsSafe (if c then m else k)
  if-IsSafe true m k h i = h
  if-IsSafe false m k h i = i

module _ {World : Type 0} where
  pub put_text-IsSafe : (t : Bytes) → IsSafe {S = Session World} (put_text t)
  unfolding put_text
  put_text-IsSafe t s e = cc

  pub ask_server-IsSafe : (m : Exec World Bytes) → IsSafe m → IsSafe (ask_server m)
  unfolding ask_server
  ask_server-IsSafe m h (out, w) = h w

  pub report-IsSafe : (e : Bytes) (s : Session World) → (report e s).0 ≢ crash
  unfolding report put_text
  report-IsSafe e s x = cc

  pub guarded-IsSafe :
      (body rest : Exec (Session World) (Unit {0}))
      → IsSafe body
      → IsSafe rest
      → IsSafe (guarded body rest)
  unfolding guarded
  guarded-IsSafe body rest h k s = go (body s) (h s)
    where
      go :
          (r : Result (Unit {0}) × Session World)
          → r.0 ≢ crash
          → (guarded (λ t. r) rest s).0 ≢ crash
      go (ok a, t) n = k t
      go (err e, t) n = report-IsSafe e t
      go (crash, t) n = absurd (n refl)

module _ {World : Type 0} (curl : Curl World) (server : Bytes) (escapes : Escapes curl) where
  pub fetch : (act dev cmd : Bytes) → IsSafe (ask_server (get curl server act dev cmd))
  fetch act dev cmd =
      ask_server-IsSafe (get curl server act dev cmd) (get-safe curl server escapes act dev cmd)

  pub send-IsSafe : (act dev : Bytes) → IsSafe (send curl server act dev)
  unfolding send
  send-IsSafe act dev s =
      continue-IsSafe (ask_server (get curl server act dev []) s) _ (fetch act dev [] s)
        (λ a t x. cc)

  pub show_answer-IsSafe : (act dev cmd : Bytes) → IsSafe (show_answer curl server act dev cmd)
  unfolding show_answer
  show_answer-IsSafe act dev cmd s =
      continue-IsSafe (ask_server (get curl server act dev cmd) s) _ (fetch act dev cmd s)
        (λ a. put_text-IsSafe a)

  pub monitor_rounds-IsSafe : (n : ℕ) (dev : Bytes) → IsSafe (monitor_rounds curl server n dev)
  unfolding monitor_rounds
  monitor_rounds-IsSafe zero dev s = λ x. cc
  monitor_rounds-IsSafe (suc n) dev s =
      continue-IsSafe (show_answer curl server (text "log_get") dev [] s) _
        (show_answer-IsSafe (text "log_get") dev [] s) (λ a. monitor_rounds-IsSafe n dev)

  pub monitor-IsSafe : (n : ℕ) (dev : Bytes) → IsSafe (monitor curl server n dev)
  unfolding monitor
  monitor-IsSafe n dev s =
      continue-IsSafe (send curl server (text "log_start") dev s) _
        (send-IsSafe (text "log_start") dev s) (λ a. monitor_rounds-IsSafe n dev)

  pub loop-IsSafe :
      (command : List Bytes → Exec World Bytes)
      → ((pars : List Bytes) → IsSafe (command pars))
      → (input : List Words) → IsSafe (each_line command input)
  loop-IsSafe command h input (out, w) = rw ((each_line-replies command h input out w).0) (λ x. cc)

  pub release-IsSafe : IsSafe (send curl server (text "release_all") [])
  release-IsSafe = send-IsSafe (text "release_all") []

  -- A loop behind its first request and the line #OK.
  pub session-IsSafe :
      (first : Exec (Session World) (Unit {0})) (command : List Bytes → Exec World Bytes)
      (input : List Words)
      → IsSafe first
      → ((pars : List Bytes) → IsSafe (command pars))
      → IsSafe (do first; put_text (text "#OK" ++ newline ∷ []); each_line command input)
  session-IsSafe first command input h k = then-IsSafe first _ h (
      then-IsSafe (put_text (text "#OK" ++ newline ∷ [])) (each_line command input)
        (put_text-IsSafe _) (loop-IsSafe command k input))

  pub srv_session-IsSafe : (input : List Words) → IsSafe (srv_session curl server input)
  unfolding srv_session
  srv_session-IsSafe input =
      session-IsSafe (send curl server (text "ping") []) (srv_command curl server) input
        (send-IsSafe (text "ping") []) (srv_command-safe curl server escapes)

  pub use_srv-IsSafe : (input : List Words) → IsSafe (use_srv curl server input)
  unfolding use_srv put_text
  use_srv-IsSafe input s =
      guarded-IsSafe (srv_session curl server input) (send curl server (text "release_all") [])
        (srv_session-IsSafe input) release-IsSafe _

  pub send_unless :
      (c : Bool) (act dev : Bytes) → IsSafe (if c then pure tt else send curl server act dev)
  send_unless true act dev s = λ x. cc
  send_unless false act dev s = send-IsSafe act dev s

  pub send_if :
      (c : Bool) (act dev : Bytes) → IsSafe (if c then send curl server act dev else pure tt)
  send_if true act dev s = send-IsSafe act dev s
  send_if false act dev s = λ x. cc

  pub set_up-IsSafe :
      (dev : Bytes) (lock : Bool) (name : Bytes) → IsSafe (set_up curl server dev lock name)
  unfolding set_up
  set_up-IsSafe dev lock name =
      then-IsSafe (send curl server (text "use") dev) _ (send-IsSafe (text "use") dev) (
        then-IsSafe
          (if length name == 0 then pure tt else send curl server (text "set_conn_name") name) _
          (send_unless (length name == 0) (text "set_conn_name") name)
          (send_if lock (text "lock") dev))

  module _ (join_words : List Bytes → Bytes) (dev : Bytes) (lock : Bool) (name : Bytes)
      (input : List Words) where
    pub dev_session-IsSafe : IsSafe (dev_session curl server join_words dev lock name input)
    unfolding dev_session
    dev_session-IsSafe =
        session-IsSafe (set_up curl server dev lock name)
          (λ pars. get curl server (text "ask") dev (join_words pars)) input
          (set_up-IsSafe dev lock name)
          (λ pars. get-safe curl server escapes (text "ask") dev (join_words pars))

    pub use_dev-IsSafe : IsSafe (use_dev curl server join_words dev lock name input)
    unfolding use_dev put_text
    use_dev-IsSafe s =
        guarded-IsSafe (dev_session curl server join_words dev lock name input)
          (send curl server (text "release_all") []) dev_session-IsSafe release-IsSafe _
