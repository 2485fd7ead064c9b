-- ===== src/Client/Main.antt =====
-- The main function of server/device_c.cpp behind the reading of its options: their map is an argument,
-- as are the tunnel, the printing of numbers and what libcurl and read_words give.
pub mod Safety
use device.Base.{
  ℕ, suc, zero, Bool, ◌||◌, List, [], ◌∷◌, ◌++◌, length, ◌==◌, ltb, if◌then◌else◌, Bytes, text,
  newline, beq, Result, ok, err, crash, Exec, pure, throw, continue, ◌>>=◌, ◌>>◌,
}
use device.Client.{
  Curl, Session, put_text, ask_server, send, show_answer, get, use_dev, use_srv, monitor,
}
use device.Driver.Setup.{Options}
use device.Manager.{Words}

-- pars[n], past the end of the vector where there is none
unfoldable pub at : List Bytes → ℕ → Result Bytes
at [] n = crash
at (p ∷ pars) zero = ok p
at (p ∷ pars) (suc n) = at pars n

module _ {S : Type 0} where
  returned : Result Bytes → Exec S Bytes
  returned r s = (r, s)

  unfoldable pub check_par_count : List Bytes → ℕ → Exec S (Unit {0})
  unfolding at returned
  check_par_count pars num =
      if ltb num 1
      then throw (text "bad usage of check_par_count()")
      else if ltb num (length pars)
      then (do
        action ← returned (at pars 0)
        par ← returned (at pars num)
        throw (text "unexpected parameter for \"" ++ (action ++ (text "\" action: " ++ par))))
      else if ltb (length pars) num
      then (do
        action ← returned (at pars 0)
        throw (text "not enough parameters for \"" ++ (action ++ text "\" action")))
      else pure tt

-- The branches of main.
pub data ClientAction : Type 0 where
  asks uses_dev uses_srv lists monitors prints_line closes infos pings gets_srv unknown :
      ClientAction

-- The chain of tests on the first parameter.
unfoldable pub client_action : Bytes → ClientAction
client_action action =
    if beq action (text "ask")
    then asks
    else if beq action (text "use_dev")
    then uses_dev
    else if beq action (text "use_srv")
    then uses_srv
    else if beq action (text "list") || beq action (text "devices")
    then lists
    else if beq action (text "monitor")
    then monitors
    else if beq action (text "reload")
    then prints_line
    else if beq action (text "close")
    then closes
    else if beq action (text "info")
    then infos
    else if beq action (text "ping")
    then pings
    else if beq action (text "get_time")
    then prints_line
    else if beq action (text "get_srv")
    then gets_srv
    else unknown

-- What the program takes from its options.
pub record Settings : Type 0 where
  pub srv : Bytes
  pub lock : Bool
  pub name : Bytes

module _ {World : Type 0} (curl : Curl World) (join_words : List Bytes → Bytes)
    (set : Settings) where
  -- The words behind the action as a text and the device before them.
  unfoldable pub ask_action : List Bytes → Exec (Session World) (Unit {0})
  unfolding put_text ask_server send get
  ask_action (act ∷ dev ∷ arg ∷ args) = do
    ret ← ask_server (get curl set.srv act dev (join_words (arg ∷ args)))
    put_text (ret ++ newline ∷ [])
    send curl set.srv (text "release") dev
  ask_action _ = throw (text "not enough parameters for \"ask\" action")

  -- D.get(action), and what is printed behind its answer
  unfoldable pub plain_action : Bytes → List Bytes → Bytes → Exec (Session World) (Unit {0})
  unfolding check_par_count show_answer put_text
  plain_action act pars end = do
    check_par_count pars 1
    show_answer curl set.srv act [] []
    put_text end

  -- if (ret != "") throw Err() << "wrong response from the server: " << ret;
  unfoldable pub ping_action : List Bytes → Exec (Session World) (Unit {0})
  unfolding check_par_count ask_server get
  ping_action pars = do
    check_par_count pars 1
    ret ← ask_server (get curl set.srv (text "ping") [] [])
    if length ret == 0 then pure tt else throw (text "wrong response from the server: " ++ ret)

  -- What is done for each action; `rounds` is for the loop of monitor, which has no other end than
  -- an error.
  unfoldable pub run_client_action :
      ClientAction → ℕ → List Words → Bytes → List Bytes → Exec (Session World) (Unit {0})
  unfolding ask_action plain_action ping_action check_par_count use_dev use_srv monitor send
      show_answer put_text at
  run_client_action asks rounds input action pars = ask_action pars
  run_client_action uses_dev rounds input action pars = do
    check_par_count pars 2
    dev ← returned (at pars 1)
    use_dev curl set.srv join_words dev set.lock set.name input
  run_client_action uses_srv rounds input action pars = do
    check_par_count pars 1
    use_srv curl set.srv input
  run_client_action lists rounds input action pars = plain_action action pars []
  run_client_action monitors rounds input action pars = do
    check_par_count pars 2
    dev ← returned (at pars 1)
    monitor curl set.srv rounds dev
  run_client_action prints_line rounds input action pars = plain_action action pars (newline ∷ [])
  run_client_action closes rounds input action pars = do
    check_par_count pars 2
    dev ← returned (at pars 1)
    send curl set.srv action dev
  run_client_action infos rounds input action pars = do
    check_par_count pars 2
    dev ← returned (at pars 1)
    show_answer curl set.srv action dev []
  run_client_action pings rounds input action pars = ping_action pars
  run_client_action gets_srv rounds input action pars = do
    check_par_count pars 1
    put_text (set.srv ++ newline ∷ [])
  run_client_action unknown rounds input action pars = throw (text "unknown action: " ++ action)

-- The return code, and what is printed to the standard error.
unfoldable pub exit_code : Result (Unit {0}) → Result (ℕ × Bytes)
exit_code (ok a) = ok (0, [])
exit_code (err e) = ok (1, if length e == 0 then [] else text "Error: " ++ (e ++ newline ∷ []))
exit_code crash = crash

-- What main takes from the outside: the options of the command line; read_conf and put_missing, which
-- give the options with those of the file; an int of an option as text, with a default; the process
-- number as text; and the tunnel, which the library opens.
pub record Outside (F World : Type 0) : Type 0 where
  pub opts : Options F
  pub with_conf : Exec World (Options F)
  pub int_text : Options F → Bytes → ℕ → Result Bytes
  pub pid : Bytes
  pub create_tunnel : Options F → Exec World Bytes

module _ {F World : Type 0} (curl : Curl World) (join_words : List Bytes → Bytes)
    (out : Outside F World) where
  unfoldable pub outside : {A : Type 0} → Exec World A → Exec (Session World) A
  outside m (printed, w) = let (r, w') = m w in (r, (printed, w'))

  unfoldable pub given : {A : Type 0} → Result A → Exec (Session World) A
  given r s = (r, s)

  -- srv, behind the tunnel if there is one
  unfoldable pub server_url : Options F → Bytes → Exec (Session World) Bytes
  unfolding outside
  server_url opts port =
      let srv = text "http://" ++ (opts.get (text "server") (text "localhost") ++ b':' ∷ port) in
      if opts.exists (text "via") then outside (out.create_tunnel opts) else pure srv

  -- The first non-option argument is the action; without one, usage throws an empty error.
  unfoldable pub act_on : ℕ → List Words → Settings → List Bytes → Exec (Session World) (Unit {0})
  unfolding run_client_action client_action
  act_on rounds input set [] = throw []
  act_on rounds input set (action ∷ pars) =
      run_client_action curl join_words set (client_action action) rounds input action
        (action ∷ pars)

  -- Behind the options of the configuration file.
  unfoldable pub with_options :
      ℕ → List Words → List Bytes → Options F → Exec (Session World) (Unit {0})
  unfolding given server_url act_on
  with_options rounds input pars opts = do
    port ← given (out.int_text opts (text "port") 8082)
    srv ← server_url opts port
    act_on rounds input
        (record {
          srv = srv;
          lock = opts.exists (text "lock");
          name = opts.get (text "name") (text "device_c(" ++ (out.pid ++ text ")"));
        })
        pars

  unfoldable pub main : ℕ → List Words → List Bytes → Exec (Session World) (Unit {0})
  unfolding outside with_options
  main rounds input pars =
      if out.opts.exists (text "help") || out.opts.exists (text "pod")
      then throw []
      else (do opts ← outside out.with_conf; with_options rounds input pars opts)
