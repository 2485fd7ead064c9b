-- ===== src/Driver/Setup.antt =====
-- server/drv_serial.cpp: set_opt, baud_to_mask, and the state of the constructor Driver_serial. The
-- option map, doubles, the constants of termios.h and the calls on the port are arguments.
pub mod Flags
pub mod Parity
pub mod Open
pub mod Laws
use device.Base.{
  ℕ, Bool, true, false, ◌&&◌, ◌||◌, not, Option, none, some, List, [], ◌∷◌, ◌++◌, ◌==◌,
  if◌then◌else◌, Bytes, Result, ok, err, crash, Exec,
}

-- An unsigned int of flags, as its bits.
abbrev pub Flags : Type 0
Flags = ℕ → Bool

-- a | b, and a & ~b
unfoldable pub with_bits : Flags → Flags → Flags
with_bits a b i = a i || b i

unfoldable pub without_bits : Flags → Flags → Flags
without_bits a b i = a i && not (b i)

pub record Termios : Type 0 where
  pub iflag : Flags
  pub oflag : Flags
  pub cflag : Flags
  pub lflag : Flags
  pub vtime : ℕ
  pub vmin : ℕ

pub data Field : Type 0 where
  c_iflag c_oflag c_cflag c_lflag : Field

unfoldable pub get_field : Field → Termios → Flags
get_field c_iflag t = t.iflag
get_field c_oflag t = t.oflag
get_field c_cflag t = t.cflag
get_field c_lflag t = t.lflag

unfoldable pub put_field : Field → Flags → Termios → Termios
put_field c_iflag f t = record t { iflag = f }
put_field c_oflag f t = record t { oflag = f }
put_field c_cflag f t = record t { cflag = f }
put_field c_lflag f t = record t { lflag = f }

-- *par |= mask, and *par &= ~mask
unfoldable pub set_bits : Field → Flags → Termios → Termios
unfolding get_field put_field with_bits
set_bits p mask t = put_field p (with_bits (get_field p t) mask) t

unfoldable pub clear_bits : Field → Flags → Termios → Termios
unfolding get_field put_field without_bits
clear_bits p mask t = put_field p (without_bits (get_field p t) mask) t

-- The option map; what is got of an option that does not exist is the last argument.
pub record Options (F : Type 0) : Type 0 where
  pub check_unknown : List Bytes → Result (Unit {0})
  pub exists : Bytes → Bool
  pub get : Bytes → Bytes → Bytes
  pub get_bool : Bytes → Bool → Result Bool
  -- an int of an option that exists, `none` if it is negative
  pub get_int : Bytes → Result (Option ℕ)
  pub get_double : Bytes → F → Result F

-- What the code does with doubles: <, its literals, and the product with 10 as an unsigned char.
pub record Doubles (F : Type 0) : Type 0 where
  pub less : F → F → Bool
  -- 0, 0.1, 5.0 and 25.5
  pub zero : F
  pub tenth : F
  pub five : F
  pub max_timeout : F
  pub tenths : F → ℕ

-- The constants of termios.h.
pub data Constant : Type 0 where
  clocal cread crtscts cs5 cs6 cs7 cs8 csize cstopb hupcl parenb parodd cmspar : Constant
  icrnl inlcr igncr iuclc iutf8 brkint ignbrk imaxbel inpck ignpar istrip parmrk ixany ixoff ixon :
      Constant
  bs0 bs1 bsdly cr0 cr1 cr2 cr3 crdly ff0 ff1 ffdly nl0 nl1 nldly : Constant
  tab0 tab1 tab2 tab3 tabdly vt0 vt1 vtdly : Constant
  ocrnl onlcr onlret onocr ofdel ofill olcuc opost : Constant
  echo echoctl echoe echok echoke echonl echoprt extproc flusho : Constant
  icanon iexten isig noflsh tostop xcase : Constant

-- The rates that baud_to_mask has a case for.
unfoldable pub is_baud : ℕ → List ℕ → Bool
is_baud b [] = false
is_baud b (r ∷ rs) = b == r || is_baud b rs

abbrev pub rates : List ℕ
rates =
    0 ∷ 50 ∷ 75 ∷ 110 ∷ 134 ∷ 150 ∷ 200 ∷ 300 ∷ 600 ∷ 1200 ∷ 1800 ∷ 2400 ∷ 4800 ∷ 9600 ∷ 19200
    ∷ 38400 ∷ 57600 ∷ 115200 ∷ 230400 ∷ 460800 ∷ 500000 ∷ 576000 ∷ 921600 ∷ 1000000 ∷ 1152000
    ∷ 1500000 ∷ 2000000 ∷ 2500000 ∷ 3000000 ∷ 3500000 ∷ 4000000 ∷ []

-- The rate whose constant baud_to_mask returns; `none` for its -1.
unfoldable pub baud_to_mask : Option ℕ → Option ℕ
unfolding is_baud
baud_to_mask none = none
baud_to_mask (some b) = if is_baud b rates then some b else none

module _ {F : Type 0} (opts : Options F) where
  -- What set_opt does with the value of an option that exists.
  unfoldable pub assigned : Field → Flags → Result Bool → Exec Termios (Unit {0})
  assigned p mask (ok on) t = (ok tt, (if on then set_bits p mask t else clear_bits p mask t))
  assigned p mask (err e) t = (err e, t)
  assigned p mask crash t = (crash, t)

  unfoldable pub set_opt : Bytes → Field → Flags → Exec Termios (Unit {0})
  unfolding assigned
  set_opt name p mask t =
      if opts.exists name then assigned p mask (opts.get_bool name true) t else (ok tt, t)

  -- switch (opts.get(name, …)): the flags of the case, if there is one
  unfoldable pub case_of : Option ℕ → List (ℕ × Flags) → Option Flags
  case_of none cases = none
  case_of (some v) [] = none
  case_of (some v) ((n, mask) ∷ cases) =
      let rest = case_of (some v) cases in if v == n then some mask else rest

  -- … &= ~field; … |= v; or the error of the default case
  unfoldable pub selected : Field → Flags → Bytes → Option Flags → Exec Termios (Unit {0})
  selected p field e none t = (err e, t)
  selected p field e (some mask) t = (ok tt, set_bits p mask (clear_bits p field t))

  switched : Field → Flags → List (ℕ × Flags) → Bytes → Result (Option ℕ) → Exec Termios (Unit {0})
  unfolding case_of selected
  switched p field cases e (ok v) t = selected p field e (case_of v cases) t
  switched p field cases e (err m) t = (err m, t)
  switched p field cases e crash t = (crash, t)

  -- if (opts.exists(name)){ switch … }
  unfoldable pub choose : Bytes → Field → Flags → List (ℕ × Flags) → Bytes → Exec Termios (Unit {0})
  unfolding switched
  choose name p field cases e t =
      if opts.exists name
      then switched p field cases (e ++ opts.get name []) (opts.get_int name) t
      else (ok tt, t)
