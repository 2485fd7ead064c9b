-- ===== src/Driver/Gpib/Open.antt =====
-- The constructor Driver_gpib in server/drv_gpib.cpp. The options, ints and doubles are arguments.
use device.Base.{
  ℕ, Bool, false, Option, none, some, List, [], ◌∷◌, ◌++◌, if◌then◌else◌, Bytes, text, newline,
  Result, ok, err, crash, Exec, ◌>>=◌, ◌>>◌,
}
use device.Driver.Gpib.{
  Ib, Gpib, Failed, Timeout, EosBits, checked_call, error_text, get_timeout, eos_flags,
}
use device.Driver.Setup.{Options, Flags}
use device.Driver.Utils.{str_to_read_cond}

-- What the constructor does with an int, and with a double.
pub record GpibOptions (F Int : Type 0) : Type 0 where
  pub opts : Options F
  pub get_int : Bytes → Int → Result Int
  pub get_size : Bytes → ℕ → Result ℕ
  pub minus_one : Int
  pub no : Int
  pub negative : Int → Bool
  -- type_to_str, and n & 0xff
  pub show : Int → Bytes
  pub low_byte : Int → Flags
  pub zero : F
  pub positive : F → Bool
  pub eos_bits : EosBits

abbrev pub gpib_options : List Bytes
gpib_options =
    text "addr"
    ∷ text "board"
    ∷ text "timeout"
    ∷ text "open_timeout"
    ∷ text "eot"
    ∷ text "eos"
    ∷ text "eos_mode"
    ∷ text "secondary"
    ∷ text "bufsize"
    ∷ text "errpref"
    ∷ text "idn"
    ∷ text "read_cond"
    ∷ text "add_str"
    ∷ text "trim_str"
    ∷ text "delay"
    ∷ []

module _ {F Int World : Type 0} (set : GpibOptions F Int) (ib : Ib Int World) where
  unfoldable pub given : {A : Type 0} → Result A → Exec World A
  given r w = (r, w)

  -- if (opts.exists(name)) …
  unfoldable pub if_given : Bytes → Exec World (Unit {0}) → Exec World (Unit {0})
  if_given name m w = let r = m w in if set.opts.exists name then r else (ok tt, w)

  unfoldable pub set_eot : Bytes → ℕ → Exec World (Unit {0})
  unfolding given
  set_eot errpref dh = do
    eot ← given (set.opts.get_bool (text "eot") false)
    λ w. checked_call (errpref ++ text "setting EOT: ") (ib.ibeot dh eot w)

  unfoldable pub set_eos : Bytes → ℕ → Exec World (Unit {0})
  unfolding given
  set_eos errpref dh = do
    eos ← given (set.get_int (text "eos") set.no)
    let mode = set.opts.get (text "eos_mode") []
    let unknown = text "unknown -eos_mode value (only B X R characters are allowed): "
    ch ← given (eos_flags set.eos_bits (errpref ++ (unknown ++ mode)) (set.low_byte eos) mode)
    λ w. checked_call (errpref ++ text "setting EOS: ") (ib.ibeos dh ch w)

  unfoldable pub set_secondary : Bytes → ℕ → Exec World (Unit {0})
  unfolding given
  set_secondary errpref dh = do
    secondary ← given (set.get_int (text "secondary") set.no)
    λ w. checked_call (errpref ++ text "setting secondary addess: ") (ib.ibsad dh secondary w)

  -- The fields behind the calls on the device.
  unfoldable pub gpib_fields : Bytes → ℕ → Exec World Gpib
  unfolding given
  gpib_fields errpref dh = do
    bufsize ← given (set.get_size (text "bufsize") 4096)
    delay ← given (set.opts.get_double (text "delay") set.zero)
    read_cond ← given (str_to_read_cond (set.opts.get (text "read_cond") (text "qmark1w")))
    given (
        ok (record {
          dh = dh;
          errpref = errpref;
          idn = set.opts.get (text "idn") [];
          add = set.opts.get (text "add_str") (newline ∷ []);
          trim = set.opts.get (text "trim_str") (newline ∷ []);
          bufsize = bufsize;
          delays = set.positive delay;
          read_cond = read_cond;
        }))

  -- The body of the try block.
  unfoldable pub configure : Bytes → Timeout → ℕ → Exec World Gpib
  unfolding if_given set_eot set_eos set_secondary gpib_fields
  configure errpref timeout dh = do
    λ w. checked_call (errpref ++ text "device clear: ") (ib.ibclr dh w)
    λ w. checked_call (errpref ++ text "setting timeout: ") (ib.ibtmo dh timeout w)
    if_given (text "eot") (set_eot errpref dh)
    if_given (text "eos") (set_eos errpref dh)
    if_given (text "secondary") (set_secondary errpref dh)
    gpib_fields errpref dh

  -- catch (Err & e){ ibonl(dh, 0); throw; }
  unfoldable pub or_closed : ℕ → Result Gpib × World → Result Gpib × World
  or_closed dh (ok d, w) = (ok d, w)
  or_closed dh (err e, w) = (err e, ib.ibonl dh w)
  or_closed dh (crash, w) = (crash, w)

  unfoldable pub opened : Bytes → Timeout → (ℕ × Option Failed) × World → Result Gpib × World
  unfolding configure or_closed
  opened errpref timeout ((dh, none), w) = or_closed dh (configure errpref timeout dh w)
  opened errpref timeout ((dh, some e), w) =
      (err (errpref ++ (text "opening the device: " ++ error_text e)), w)

  -- From the address on; eot, eos and secondary are read here too, secondary as a bool.
  unfoldable pub open_gpib : Bytes → Int → Exec World Gpib
  unfolding given opened
  open_gpib pref addr = do
    board ← given (set.get_int (text "board") set.no)
    let errpref =
        pref ++ (text "dev:" ++ (set.show board ++ (text "." ++ (set.show addr ++ text ": "))))
    open_timeout ← given (get_timeout errpref (set.opts.get (text "open_timeout") (text "10s")))
    timeout ← given (get_timeout errpref (set.opts.get (text "timeout") (text "3s")))
    given (set.opts.get_bool (text "eot") false)
    given (set.get_int (text "eos") set.minus_one)
    given (set.opts.get_bool (text "secondary") false)
    λ w. opened errpref timeout (ib.ibdev board addr open_timeout w)

  -- Driver_gpib(opts)
  unfoldable pub new_gpib : Exec World Gpib
  unfolding given open_gpib
  new_gpib = do
    given (set.opts.check_unknown gpib_options)
    let errpref = set.opts.get (text "errpref") (text "gpib: ")
    addr ← given (set.get_int (text "addr") set.minus_one)
    if set.negative addr
        then (λ w. (err (errpref ++ text "Parameter -addr is empty or missing"), w))
        else open_gpib errpref addr
