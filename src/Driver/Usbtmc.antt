-- ===== src/Driver/Usbtmc.antt =====
-- server/drv_usbtmc.h and server/drv_usbtmc.cpp: a device behind the USBTMC module of the kernel. The
-- calls on it, the options and doubles are arguments.
pub mod Reading
use device.Base.{
  ℕ, zero, suc, ◌/◌, ◌%◌, Bool, not, ◌&&◌, Option, none, some, [], ◌∷◌, ◌++◌, ◌==◌, length,
  if◌then◌else◌, Bytes, text, newline, Result, ok, err, crash, Exec, continue, ◌>>=◌, ◌>>◌,
}
use device.Driver.Setup.{Options}
use device.Driver.Spp.{same_ignoring_case}
use device.Driver.Utils.{trim_str, ReadCond, check_read_cond, str_to_read_cond}

-- The calls on the device; `err` has the text of errno.
pub record Usb (World : Type 0) : Type 0 where
  pub open_device : Bytes → World → Result (Unit {0}) × World
  pub read : World → Result Bytes × World
  pub write : Bytes → World → Result (Unit {0}) × World
  -- ioctl: USBTMC_IOCTL_CLEAR, USBTMC_IOCTL_AUTO_ABORT (whether it worked), USBTMC488_IOCTL_READ_STB
  pub clear : World → Result (Unit {0}) × World
  pub auto_abort : World → Bool × World
  pub read_stb : World → Result ℕ × World
  -- usleep of the delay
  pub sleep : World → World
  -- ::close
  pub close_device : World → World

pub record Usbtmc : Type 0 where
  pub errpref : Bytes
  pub idn : Bytes
  pub add : Bytes
  pub trim : Bytes
  pub auto_abort : Bool
  pub read_cond : ReadCond
  -- delay>0
  pub delays : Bool

-- stb & (1<<4)
abbrev pub more_available : ℕ → Bool
more_available stb = not ((stb / 16) % 2 == 0)

module _ {World : Type 0} (usb : Usb World) (d : Usbtmc) where
  -- if (!auto_abort) ioctl(fd,USBTMC_IOCTL_CLEAR,NULL), whose return value is not looked at
  unfoldable pub recover : World → World
  recover w = let (r, w') = usb.clear w in if d.auto_abort then w else w'

  -- What one round of the loop does behind a piece that was read: `rest` is the next round.
  unfoldable pub status_read :
      Bytes
      → Result ℕ × World
      → (World → Option (Result Bytes) × World)
      → Option (Result Bytes) × World
  status_read ret (err e, w) rest =
      (some (err (d.errpref ++ (text "can't get status byte: " ++ e))), w)
  status_read ret (crash, w) rest = (some crash, w)
  status_read ret (ok stb, w) rest =
      if more_available stb then rest w else (some (ok (trim_str ret d.trim).1), w)

  -- One round behind ::read; `rest` are the next ones.
  unfoldable pub piece_read :
      Bytes
      → Result Bytes × World
      → (Bytes → World → Option (Result Bytes) × World)
      → Option (Result Bytes) × World
  unfolding recover status_read
  piece_read ret (err e, w) rest = (some (err (d.errpref ++ (text "read error: " ++ e))), recover w)
  piece_read ret (crash, w) rest = (some crash, w)
  piece_read ret (ok buf, w) rest = status_read (ret ++ buf) (usb.read_stb w) (rest (ret ++ buf))

  -- The loop of Driver_usbtmc::read, with `fuel` rounds left; `none` if they run out.
  unfoldable pub read_loop : ℕ → Bytes → World → Option (Result Bytes) × World
  unfolding piece_read
  read_loop zero ret w = (none, w)
  read_loop (suc fuel) ret w = piece_read ret (usb.read w) (read_loop fuel)

  written : Result (Unit {0}) × World → Result (Unit {0}) × World
  unfolding recover
  written (ok a, w) = (ok tt, (if d.delays then usb.sleep w else w))
  written (err e, w) = (err (d.errpref ++ (text "read error: " ++ e)), recover w)
  written (crash, w) = (crash, w)

  -- Driver_usbtmc::write
  unfoldable pub write : Bytes → Exec World (Unit {0})
  unfolding written
  write msg w = written (usb.write (msg ++ d.add) w)

  read_answer : ℕ → Bytes → Result (Unit {0}) × World → Option (Result Bytes) × World
  unfolding read_loop
  read_answer fuel msg (ok a, w) =
      let rest = read_loop fuel [] w in
      if check_read_cond msg d.read_cond then rest else (some (ok []), w)
  read_answer fuel msg (err e, w) = (some (err e), w)
  read_answer fuel msg (crash, w) = (some crash, w)

  -- Driver_usbtmc::ask
  unfoldable pub ask : ℕ → Bytes → World → Option (Result Bytes) × World
  unfolding write read_answer
  ask fuel msg w =
      if not (length d.idn == 0) && same_ignoring_case msg (text "*idn?")
      then (some (ok d.idn), w)
      else read_answer fuel msg (write msg w)

  -- ~Driver_usbtmc
  unfoldable pub delete_usbtmc : World → World
  delete_usbtmc w = usb.close_device w

-- The timeout in milliseconds as an uint32_t, if a delay is positive, and the literals 5.0 and 0.01.
pub record UsbDoubles (F : Type 0) : Type 0 where
  pub millis : F → ℕ
  pub positive : F → Bool
  pub five : F
  pub hundredth : F

module _ {F World : Type 0} (opts : Options F) (doubles : UsbDoubles F) (usb : Usb World)
    (set_timeout : ℕ → World → Result (Unit {0}) × World) where
  checked : Bytes → Result (Unit {0}) × World → Result (Unit {0}) × World
  checked what (ok a, w) = (ok tt, w)
  checked what (err e, w) = (err (what ++ e), w)
  checked what (crash, w) = (crash, w)

  returned : {A : Type 0} → Result A → Exec World A
  returned r w = (r, w)

  probed : Exec World Bool
  probed w = let (on, w') = usb.auto_abort w in (ok on, w')

  -- From the opening of the device on, with the complete prefix of error messages.
  unfoldable pub open_usbtmc : Bytes → Bytes → Exec World Usbtmc
  unfolding checked returned probed
  open_usbtmc errpref dev = do
    λ w. checked (errpref ++ text "can't open device: ") (usb.open_device dev w)
    λ w. checked (errpref ++ text "can't clear device state: ") (usb.clear w)
    timeout ← returned (opts.get_double (text "timeout") doubles.five)
    λ w. checked (errpref ++ text "can't set timeout: ") (set_timeout (doubles.millis timeout) w)
    auto_abort ← probed
    delay ← returned (opts.get_double (text "delay") doubles.hundredth)
    read_cond ← returned (str_to_read_cond (opts.get (text "read_cond") (text "qmark1w")))
    returned (
        ok (record {
          errpref = errpref;
          idn = opts.get (text "idn") [];
          add = opts.get (text "add_str") (newline ∷ []);
          trim = opts.get (text "trim_str") (newline ∷ []);
          auto_abort = auto_abort;
          read_cond = read_cond;
          delays = doubles.positive delay;
        }))

  -- Driver_usbtmc(opts)
  unfoldable pub new_usbtmc : Exec World Usbtmc
  unfolding returned open_usbtmc
  new_usbtmc = do
    returned (
        opts.check_unknown (
          text "dev"
          ∷ text "timeout"
          ∷ text "errpref"
          ∷ text "idn"
          ∷ text "read_cond"
          ∷ text "add_str"
          ∷ text "trim_str"
          ∷ text "delay"
          ∷ []))
    let errpref = opts.get (text "errpref") (text "usbtmc: ")
    let dev = opts.get (text "dev") []
    if length dev == 0
        then (λ w. (err (errpref ++ text "parameter -dev is empty or missing"), w))
        else open_usbtmc (errpref ++ (dev ++ text ": ")) dev
