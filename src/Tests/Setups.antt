-- ===== src/Tests/Setups.antt =====
-- server/drv_serial.cpp: the theorems on the constructor, with flags of one bit each.
use device.Base.{ℕ, suc, refl, true, false, none, ltb, ◌==◌, ◌||◌, text, beq, ok}
use device.Driver.Setup
use device.Driver.Setup.{
  Termios, Field, c_iflag, c_oflag, c_cflag, get_field, Options, Doubles, Constant, cs5, cs6, cs7,
  cs8, csize, cstopb, parenb, parodd, set_opt, baud_to_mask,
}
use device.Driver.Setup.Open.{Tty}
use device.Driver.Setup.Laws.{IsLayout}

-- The control flags of Linux, and no others.
abbrev bits : Constant → Setup.Flags
bits cs5 i = false
bits cs6 i = i == 4
bits cs7 i = i == 5
bits cs8 i = i == 4 || i == 5
bits csize i = i == 4 || i == 5
bits cstopb i = i == 6
bits parenb i = i == 8
bits parodd i = i == 9
bits _ i = false

-- A speed that cannot be, and no other option.
abbrev options : Options ℕ
options = record {
  check_unknown = λ ns. ok tt;
  exists = λ n. beq n (text "speed");
  get = λ n d. d;
  get_bool = λ n d. ok true;
  get_int = λ n. ok none;
  get_double = λ n d. ok d;
}

-- Doubles as tenths.
abbrev doubles : Doubles ℕ
doubles = record { less = ltb; zero = 0; tenth = 1; five = 50; max_timeout = 255; tenths = λ x. x }

abbrev termios : Termios
termios = record {
  iflag = λ i. false;
  oflag = λ i. false;
  cflag = λ i. true;
  lflag = λ i. true;
  vtime = 0;
  vmin = 1;
}

-- It counts its calls.
abbrev tty : Tty ℕ
tty = record {
  open_port = λ dev w. (none, suc w);
  set_ndelay = λ on w. (none, suc w);
  tcgetattr = λ w. (ok termios, suc w);
  tcsetattr = λ t w. (none, suc w);
  cfsetspeed = λ b t. t;
  cfsetispeed = λ b t. t;
  cfsetospeed = λ b t. t;
}

layout : IsLayout bits 5
layout = record {
  cs7_in = λ e. refl;
  cs8_in = λ e. refl;
  size_stop = λ e. refl;
  size_parity = λ e. refl;
  size_odd = λ e. refl;
  stop_parity = λ e. refl;
  stop_odd = λ e. refl;
  parity_odd = λ e. refl;
}
