-- ===== src/Client.antt =====
-- server/device_c.cpp: the client program. libcurl, read_words and join_words are arguments; what the
-- program prints is collected.
pub mod Main
pub mod Session
pub mod Safety
pub mod Paths
pub mod Requests
pub mod Reading
pub mod Relay
use device.Base.{
  ℕ, suc, zero, Bool, Option, none, some, List, [], ◌∷◌, ◌++◌, length, ◌==◌, if◌then◌else◌, Bytes,
  text, newline, Result, ok, err, crash, Exec, pure, throw, continue, ◌>>=◌, ◌>>◌,
}
use device.Manager.{Words, words, failed}
use device.Manager.Url.{slash}

-- What curl_easy_perform does: an error, or a response code with the data.
pub data Transfer : Type 0 where
  broken : Bytes → Transfer
  finished : ℕ → Bytes → Transfer

pub record Curl (World : Type 0) : Type 0 where
  -- `none` for NULL
  pub curl_easy_escape : Bytes → Option Bytes
  pub curl_easy_perform : Bytes → World → Transfer × World

-- What was printed to `out`, and the world.
abbrev pub Session : Type 0 → Type 0
Session World = Bytes × World

module _ {World : Type 0} where
  -- out << s
  unfoldable pub put_text : Bytes → Exec (Session World) (Unit {0})
  put_text s (out, w) = (ok tt, (out ++ s, w))

  -- if (e.str()!="") out << "#Error: " << e.str() << "\n";
  unfoldable pub report : Bytes → Exec (Session World) (Unit {0})
  unfolding put_text
  report e = put_text (if length e == 0 then [] else text "#Error: " ++ (e ++ newline ∷ []))

  -- try { … } catch(Err e){ … }
  unfoldable pub caught : Result (Unit {0}) × Session World → Result (Unit {0}) × Session World
  unfolding report
  caught (ok a, s) = (ok tt, s)
  caught (err e, s) = report e s
  caught (crash, s) = (crash, s)

  -- A request, which prints nothing itself.
  unfoldable pub ask_server : Exec World Bytes → Exec (Session World) Bytes
  ask_server get (out, w) = let (r, w') = get w in (r, (out, w'))

  -- out << get(…) << '\n'; out << "#OK\n";
  unfoldable pub answer_command : Exec World Bytes → Exec (Session World) (Unit {0})
  unfolding put_text ask_server
  answer_command get = do
    ret ← ask_server get
    put_text (ret ++ newline ∷ [])
    put_text (text "#OK" ++ newline ∷ [])

  -- The loop of use_dev and of use_srv over what read_words gives. Behind the last of them the input
  -- has ended. An error is reported, and the loop goes on.
  unfoldable pub each_line :
      (List Bytes → Exec World Bytes) → List Words → Exec (Session World) (Unit {0})
  unfolding answer_command caught
  each_line command [] s = (ok tt, s)
  each_line command (failed e ∷ input) s =
      continue (caught (err e, s)) (λ _. each_line command input)
  each_line command (words [] ∷ input) s = (ok tt, s)
  each_line command (words (p ∷ pars) ∷ input) s =
      continue (caught (answer_command (command (p ∷ pars)) s)) (λ _. each_line command input)

  -- The outer try: behind an error that it reports the function returns.
  unfoldable pub guarded :
      Exec (Session World) (Unit {0})
      → Exec (Session World) (Unit {0})
      → Exec (Session World) (Unit {0})
  unfolding report
  guarded body rest s = ends (body s)
    where
      ends : Result (Unit {0}) × Session World → Result (Unit {0}) × Session World
      ends (ok a, t) = rest t
      ends (err e, t) = report e t
      ends (crash, t) = (crash, t)

-- The error of libcurl, or what another code than 200 comes with, is thrown.
unfoldable pub received : {World : Type 0} → Transfer × World → Result Bytes × World
received (broken e, w) = (err e, w)
received (finished http_code body, w) = if http_code == 200 then (ok body, w) else (err body, w)

module _ {World : Type 0} (curl : Curl World) where
  -- if (part != "") url += "/" + escaped part;
  unfoldable pub url_part : Bytes → Option Bytes
  url_part [] = some []
  url_part (c ∷ s) = elim (curl.curl_easy_escape (c ∷ s)) [
    | none ↦ none
    | some e ↦ some (slash ∷ e)
  ]

  joined : Option Bytes → Option Bytes → Option Bytes → Option Bytes
  joined (some a) (some d) (some c) = some (slash ∷ (a ++ (d ++ c)))
  joined _ _ _ = none

  -- The URL behind the server; `none` where a null pointer is added to the text.
  unfoldable pub url_path : Bytes → Bytes → Bytes → Option Bytes
  unfolding url_part joined
  url_path act dev cmd = joined (curl.curl_easy_escape act) (url_part dev) (url_part cmd)

module _ {World : Type 0} (curl : Curl World) (server : Bytes) where
  performed : Option Bytes → Exec World Bytes
  performed none w = (crash, w)
  performed (some path) w = received (curl.curl_easy_perform (server ++ path) w)

  -- Downloader::get
  unfoldable pub get : Bytes → Bytes → Bytes → Exec World Bytes
  unfolding url_path performed received
  get act dev cmd w = performed (url_path curl act dev cmd) w

  -- A request whose answer is not looked at.
  unfoldable pub send : Bytes → Bytes → Exec (Session World) (Unit {0})
  unfolding ask_server get
  send act dev = do ask_server (get act dev []); pure tt

  -- One command of use_srv: pars.resize(3), unless there are more.
  unfoldable pub srv_command : List Bytes → Exec World Bytes
  unfolding get
  srv_command [] = get [] [] []
  srv_command (act ∷ []) = get act [] []
  srv_command (act ∷ dev ∷ []) = get act dev []
  srv_command (act ∷ dev ∷ cmd ∷ []) = get act dev cmd
  srv_command (act ∷ dev ∷ cmd ∷ more ∷ pars) = throw (text "too many arguments")

  unfoldable pub srv_session : List Words → Exec (Session World) (Unit {0})
  unfolding send put_text each_line srv_command
  srv_session input = do
    send (text "ping") []
    put_text (text "#OK" ++ newline ∷ [])
    each_line srv_command input

  -- Downloader::use_srv
  unfoldable pub use_srv : List Words → Exec (Session World) (Unit {0})
  unfolding put_text guarded srv_session send
  use_srv input = do
    put_text (text "#SPP001" ++ newline ∷ [])
    put_text (text "Server: " ++ (server ++ newline ∷ []))
    guarded (srv_session input) (send (text "release_all") [])

  -- out << get(…);
  unfoldable pub show_answer : Bytes → Bytes → Bytes → Exec (Session World) (Unit {0})
  unfolding put_text ask_server get
  show_answer act dev cmd = do ret ← ask_server (get act dev cmd); put_text ret

  -- `n` rounds of the loop of monitor, which only an error or a signal ends
  unfoldable pub monitor_rounds : ℕ → Bytes → Exec (Session World) (Unit {0})
  unfolding show_answer
  monitor_rounds zero dev = pure tt
  monitor_rounds (suc n) dev = do show_answer (text "log_get") dev []; monitor_rounds n dev

  -- Downloader::monitor
  unfoldable pub monitor : ℕ → Bytes → Exec (Session World) (Unit {0})
  unfolding send monitor_rounds
  monitor n dev = do send (text "log_start") dev; monitor_rounds n dev

  -- open device, set lock and connection name
  unfoldable pub set_up : Bytes → Bool → Bytes → Exec (Session World) (Unit {0})
  unfolding send
  set_up dev lock name = do
    send (text "use") dev
    if length name == 0 then pure tt else send (text "set_conn_name") name
    if lock then send (text "lock") dev else pure tt

  module _ (join_words : List Bytes → Bytes) where
    -- What use_dev does behind its header, in the outer try.
    unfoldable pub dev_session : Bytes → Bool → Bytes → List Words → Exec (Session World) (Unit {0})
    unfolding set_up put_text each_line get
    dev_session dev lock name input = do
      set_up dev lock name
      put_text (text "#OK" ++ newline ∷ [])
      each_line (λ pars. get (text "ask") dev (join_words pars)) input

    -- Downloader::use_dev
    unfoldable pub use_dev : Bytes → Bool → Bytes → List Words → Exec (Session World) (Unit {0})
    unfolding put_text guarded dev_session send
    use_dev dev lock name input = do
      put_text (text "#SPP001" ++ newline ∷ [])
      put_text (text "Server: " ++ (server ++ newline ∷ []))
      put_text (text "Device: " ++ (dev ++ newline ∷ []))
      guarded (dev_session dev lock name input) (send (text "release_all") [])
