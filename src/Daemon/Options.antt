-- ===== src/Daemon/Options.antt =====
-- server/device_d.cpp: the options of the server, on the command line and in its own configuration
-- file, and the whole program. The libraries for options and for configuration files are arguments.
use device.Base.{
  ℕ, Bool, true, false, Option, some, List, [], ◌∷◌, ◌++◌, ◌==◌, length, if◌then◌else◌, Bytes, text,
  Result, ok, err, crash, Exec, ◌>>=◌, ◌>>◌,
}
use device.Daemon.{Os, DaemonSettings}
use device.Daemon.Main.{main}
use device.Daemon.Serve.{HandledSignal, Happening, ServeSettings, serve}
use device.Device.{Drivers}
use device.Manager.{Libs}
use device.Server.Start.{Mhd}

pub record OptionLibs (Opts World : Type 0) : Type 0 where
  -- parse_options_all over the options of this program: the options, and what is none
  pub parse_options_all : List Bytes → Result (Opts × List Bytes)
  -- read_conf_file(file, names)
  pub read_conf_file : Bytes → List Bytes → World → Result Opts × World
  -- o.put_missing(other)
  pub put_missing : Opts → Opts → Opts
  pub exists : Bytes → Opts → Bool
  pub get : Bytes → Bytes → Opts → Bytes
  -- an int, as a word of 32 bits
  pub get_int : Bytes → ℕ → Opts → Result ℕ
  pub get_bool : Bytes → Bool → Opts → Result Bool
  -- the help message, as POD or not
  pub print_help : Bool → World → World

-- What may stand in the configuration file.
abbrev pub conf_names : List Bytes
conf_names =
    text "addr"
    ∷ text "port"
    ∷ text "logfile"
    ∷ text "pidfile"
    ∷ text "devfile"
    ∷ text "user"
    ∷ text "verbose"
    ∷ []

module _ {Opts World : Type 0} (lib : OptionLibs Opts World) where
  given : {A : Type 0} → Result A → Exec World A
  given r w = (r, w)

  -- usage(options, pod), which ends with throw Err()
  unfoldable pub usage : Bool → Exec World (Unit {0})
  usage pod w = (err [], lib.print_help pod w)

  unfoldable pub no_arguments : List Bytes → Result (Unit {0})
  no_arguments [] = ok tt
  no_arguments (arg ∷ args) = err (text "unexpected argument: " ++ arg)

  unfoldable pub help_wanted : Opts → Exec World (Unit {0})
  unfolding usage given
  help_wanted o =
      if lib.exists (text "help") o
      then usage false
      else if lib.exists (text "pod") o
      then usage true
      else given (ok tt)

  -- extract parameters
  unfoldable pub extract : Opts → Result (DaemonSettings × ServeSettings)
  extract o = with_port (lib.get_int (text "port") 8082 o)
    where
      chosen : ℕ → ℕ → Bool → DaemonSettings × ServeSettings
      chosen port verb test = (
        record {
          user = lib.get (text "user") [] o;
          pidfile = lib.get (text "pidfile") (text "/var/run/device_d.pid") o;
          stop = lib.exists (text "stop") o;
          reload = lib.exists (text "reload") o;
          dofork = lib.exists (text "dofork") o;
          logfile = lib.get (text "logfile") [] o;
          verbose = verb;
        },
        record {
          addr = lib.get (text "addr") (text "127.0.0.1") o;
          port = port;
          devfile = lib.get (text "devfile") (text "/etc/device2/devices.cfg") o;
          test = test;
        },
      )

      with_test : ℕ → ℕ → Result Bool → Result (DaemonSettings × ServeSettings)
      with_test port verb (ok test) = ok (chosen port verb test)
      with_test port verb (err e) = err e
      with_test port verb crash = crash

      with_verb : ℕ → Result ℕ → Result (DaemonSettings × ServeSettings)
      with_verb port (ok verb) = with_test port verb (lib.get_bool (text "test") false o)
      with_verb port (err e) = err e
      with_verb port crash = crash

      with_port : Result ℕ → Result (DaemonSettings × ServeSettings)
      with_port (ok port) = with_verb port (lib.get_int (text "verbose") 1 o)
      with_port (err e) = err e
      with_port crash = crash

  -- The options of the command line, the help message, and the configuration file for what the
  -- command line does not give.
  unfoldable pub read_options : List Bytes → Exec World (DaemonSettings × ServeSettings)
  unfolding given no_arguments help_wanted extract
  read_options args = do
    (o, nonopt) ← given (lib.parse_options_all args)
    given (no_arguments nonopt)
    help_wanted o
    optsf ←
        lib.read_conf_file (lib.get (text "cfgfile") (text "/etc/device2/device_d.cfg") o)
          conf_names
    given (extract (lib.put_missing optsf o))

module _ {Opts Opt Drv World : Type 0} (lib : OptionLibs Opts World) (libs : Libs Opt World)
    (drivers : Drivers Opt Drv World) (mhd : Mhd World) (os : Os World)
    (sigaction : HandledSignal → World → Bool × World) where
  -- An error of the options comes before there is a pid file.
  unfoldable pub with_settings :
      List Happening
      → ℕ
      → Result (DaemonSettings × ServeSettings) × World
      → Result (Option ℕ) × World
  with_settings hs rounds (ok (set, srv), w) =
      main os (serve libs drivers mhd os sigaction srv hs) set rounds w
  with_settings hs rounds (err e, w) =
      (ok (some 1), (if length e == 0 then w else os.log 0 (text "Error: " ++ e) w))
  with_settings hs rounds (crash, w) = (crash, w)

  -- main(argc, argv), with what happens to the server, and the rounds for a process that is to stop
  unfoldable pub device_d : List Bytes → List Happening → ℕ → World → Result (Option ℕ) × World
  unfolding read_options with_settings
  device_d args hs rounds w = with_settings hs rounds (read_options lib args w)
