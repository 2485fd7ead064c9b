-- ===== src/Driver/Setup/Open.antt =====
-- server/drv_serial.cpp: the constructor Driver_serial.
pub mod Failure
use device.Base.{
  ℕ, Bool, true, Option, none, some, List, [], ◌∷◌, ◌++◌, length, ◌==◌, if◌then◌else◌, Bytes, text,
  Result, ok, err, crash, Exec, continue, ◌>>=◌, ◌>>◌,
}
use device.Driver.Utils.{str_to_read_cond}
use device.Driver.Serial.{Serial}
use device.Driver.Setup
use device.Driver.Setup.{Termios, Options, Doubles, Constant, baud_to_mask}
use device.Driver.Setup.Flags.{control_settings, input_settings, output_settings, local_settings}
use device.Driver.Setup.Parity.{combinations}

-- The system calls on the port, with the text of the error where one fails, and the setters of
-- speeds of the C library.
pub record Tty (World : Type 0) : Type 0 where
  -- open with O_RDWR | O_NOCTTY | O_NDELAY
  pub open_port : Bytes → World → Option Bytes × World
  -- fcntl of F_SETFL with FNDELAY, or with 0
  pub set_ndelay : Bool → World → Option Bytes × World
  pub tcgetattr : World → Result Termios × World
  pub tcsetattr : Termios → World → Option Bytes × World
  pub cfsetspeed : ℕ → Termios → Termios
  pub cfsetispeed : ℕ → Termios → Termios
  pub cfsetospeed : ℕ → Termios → Termios

abbrev pub known_options : List Bytes
known_options =
    text "errpref"
    ∷ text "idn"
    ∷ text "dev"
    ∷ text "ndelay"
    ∷ text "speed"
    ∷ text "ispeed"
    ∷ text "ospeed"
    ∷ text "clocal"
    ∷ text "cread"
    ∷ text "crtscts"
    ∷ text "cs"
    ∷ text "cstopb"
    ∷ text "hup"
    ∷ text "parenb"
    ∷ text "parodd"
    ∷ text "cmspar"
    ∷ text "icrnl"
    ∷ text "inlcr"
    ∷ text "igncr"
    ∷ text "iuclc"
    ∷ text "iutf8"
    ∷ text "brkint"
    ∷ text "ignbrk"
    ∷ text "imaxbel"
    ∷ text "inpck"
    ∷ text "ignpar"
    ∷ text "istrip"
    ∷ text "parmrk"
    ∷ text "ixany"
    ∷ text "ixoff"
    ∷ text "ixon"
    ∷ text "bs"
    ∷ text "cr"
    ∷ text "ff"
    ∷ text "nl"
    ∷ text "tab"
    ∷ text "vt"
    ∷ text "ocrnl"
    ∷ text "onlcr"
    ∷ text "onlret"
    ∷ text "onocr"
    ∷ text "ofdel"
    ∷ text "ofill"
    ∷ text "olcuc"
    ∷ text "opost"
    ∷ text "echo"
    ∷ text "echoctl"
    ∷ text "echoe"
    ∷ text "echok"
    ∷ text "echoke"
    ∷ text "echonl"
    ∷ text "echoprt"
    ∷ text "extproc"
    ∷ text "flusho"
    ∷ text "icanon"
    ∷ text "iexten"
    ∷ text "isig"
    ∷ text "noflsh"
    ∷ text "tostop"
    ∷ text "xcase"
    ∷ text "parity"
    ∷ text "raw"
    ∷ text "sfc"
    ∷ text "nlcnv"
    ∷ text "lcase"
    ∷ text "timeout"
    ∷ text "vmin"
    ∷ text "delay"
    ∷ text "add_str"
    ∷ text "trim_str"
    ∷ text "ack_str"
    ∷ text "nack_str"
    ∷ text "read_cond"
    ∷ text "flush_on_err"
    ∷ []

module _ {F World : Type 0} (opts : Options F) (doubles : Doubles F) (bits : Constant → Setup.Flags)
    (tty : Tty World) where
  -- The constants of speeds are named by their rates. The error shows the option baud.
  unfoldable pub set_baud :
      Bytes → (ℕ → Termios → Termios) → Result (Option ℕ) → Exec Termios (Unit {0})
  set_baud errpref cfset (ok b) t = elim (baud_to_mask b) [
    | none ↦ (err (errpref ++ (text "unknown baud setting: " ++ opts.get (text "baud") [])), t)
    | some mask ↦ (ok tt, cfset mask t)
  ]
  set_baud errpref cfset (err e) t = (err e, t)
  set_baud errpref cfset crash t = (crash, t)

  unfoldable pub speed : Bytes → Bytes → (ℕ → Termios → Termios) → Exec Termios (Unit {0})
  unfolding set_baud
  speed errpref name cfset t =
      if opts.exists name then set_baud errpref cfset (opts.get_int name) t else (ok tt, t)

  -- Everything between tcgetattr and tcsetattr.
  unfoldable pub settings : Bytes → Exec Termios (Unit {0})
  settings errpref = do
    speed errpref (text "speed") tty.cfsetspeed
    speed errpref (text "ispeed") tty.cfsetispeed
    speed errpref (text "ospeed") tty.cfsetospeed
    control_settings opts bits errpref
    input_settings opts bits errpref
    output_settings opts bits errpref
    local_settings opts bits errpref
    combinations opts doubles bits errpref

  -- A system call that failed is thrown with this text before that of its error.
  checked : Bytes → Option Bytes × World → Result (Unit {0}) × World
  checked what (none, w) = (ok tt, w)
  checked what (some e, w) = (err (what ++ e), w)

  opened : Bytes → Bytes → Exec World (Unit {0})
  unfolding checked
  opened errpref dev w = checked (errpref ++ text "can't open device: ") (tty.open_port dev w)

  ndelay : Bytes → Exec World (Unit {0})
  unfolding checked
  ndelay errpref w =
      if opts.exists (text "ndelay") then set (opts.get_bool (text "ndelay") true) w else (ok tt, w)
    where
      set : Result Bool → Exec World (Unit {0})
      set (ok on) w = checked (errpref ++ text "can't do fcntl: ") (tty.set_ndelay on w)
      set (err e) w = (err e, w)
      set crash w = (crash, w)

  attributes : Bytes → Exec World Termios
  attributes errpref w = shown (tty.tcgetattr w)
    where
      shown : Result Termios × World → Result Termios × World
      shown (ok t, w) = (ok t, w)
      shown (err e, w) = (err (errpref ++ (text "can't get serial port parameters: " ++ e)), w)
      shown (crash, w) = (crash, w)

  apply : Bytes → Result (Unit {0}) × Termios → Exec World (Unit {0})
  unfolding checked
  apply errpref (ok a, t) w =
      checked (errpref ++ text "can't set serial port parameters: ") (tty.tcsetattr t w)
  apply errpref (err e, t) w = (err e, w)
  apply errpref (crash, t) w = (crash, w)

  returned : {A : Type 0} → Result A → Exec World A
  returned r w = (r, w)

  -- The fields of the driver, behind tcsetattr.
  fields : Bytes → Exec World Serial
  unfolding returned
  fields errpref = do
    delay ← returned (opts.get_double (text "delay") doubles.tenth)
    read_cond ← returned (str_to_read_cond (opts.get (text "read_cond") (text "always")))
    flush ← returned (opts.get_bool (text "flush_on_err") true)
    returned (
        ok (record {
          errpref = errpref;
          idn = opts.get (text "idn") [];
          ack = opts.get (text "ack_str") [];
          nack = opts.get (text "nack_str") [];
          add = opts.get (text "add_str") [];
          trim = opts.get (text "trim_str") [];
          read_cond = read_cond;
          delays = doubles.less doubles.zero delay;
          flush_on_err = flush;
        }))

  -- From the opening of the port on, with the complete prefix of error messages.
  unfoldable pub open_device : Bytes → Bytes → Exec World Serial
  unfolding opened ndelay attributes apply fields
  open_device errpref dev = do
    opened errpref dev
    ndelay errpref
    t ← attributes errpref
    apply errpref (settings errpref t)
    fields errpref

  -- Driver_serial(opts)
  unfoldable pub new_serial : Exec World Serial
  unfolding returned
  new_serial = do
    returned (opts.check_unknown known_options)
    let errpref = opts.get (text "errpref") (text "serial: ")
    let dev = opts.get (text "dev") []
    if length dev == 0
        then (λ w. (err (errpref ++ text "Parameter -dev is empty or missing"), w))
        else open_device (errpref ++ (dev ++ text ": ")) dev
