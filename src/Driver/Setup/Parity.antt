-- ===== src/Driver/Setup/Parity.antt =====
-- server/drv_serial.cpp: the combination settings of the constructor, the timeout and vmin.
use device.Base.{
  ℕ, zero, suc, Bool, true, false, ◌&&◌, ◌||◌, not, Option, none, some, [], ◌++◌, ltb,
  if◌then◌else◌, Bytes, text, beq, Result, ok, err, crash, Exec, ◌>>◌,
}
use device.Driver.Setup
use device.Driver.Setup.{
  Termios, Field, Options, Doubles, c_iflag, c_oflag, c_cflag, c_lflag, Constant, cs7, cs8, csize,
  cstopb, parenb, parodd, icrnl, iuclc, inpck, istrip, ixany, ixoff, ixon, onlcr, olcuc, echo,
  echoe, icanon, isig, with_bits, set_bits, clear_bits, set_opt,
}

-- (a & b) != 0 on the first `n` bits
unfoldable pub meets : ℕ → Setup.Flags → Setup.Flags → Bool
meets zero a b = false
meets (suc n) a b = (a n && b n) || meets n a b

module _ {F : Type 0} (opts : Options F) (doubles : Doubles F) (bits : Constant → Setup.Flags)
    (errpref : Bytes) where
  clear : Field → Constant → Exec Termios (Unit {0})
  clear p c t = (ok tt, clear_bits p (bits c) t)

  set : Field → Constant → Exec Termios (Unit {0})
  set p c t = (ok tt, set_bits p (bits c) t)

  -- The chain of tests on the value of -parity.
  unfoldable pub set_parity : Bytes → Exec Termios (Unit {0})
  unfolding clear set
  set_parity par =
      if beq par (text "8N1") || beq par (text "7S1")
      then (do clear c_cflag parenb; clear c_cflag cstopb; clear c_cflag csize; set c_cflag cs8)
      else if beq par (text "7E1")
      then (do
        set c_cflag parenb
        clear c_cflag parodd
        clear c_cflag cstopb
        clear c_cflag csize
        set c_cflag cs7)
      else if beq par (text "7O1")
      then (do
        set c_cflag parenb
        set c_cflag parodd
        clear c_cflag cstopb
        clear c_cflag csize
        set c_cflag cs7)
      else if not (beq par [])
      then (λ t. (
        err (errpref ++ (text "unknown parity setting (expected 8N1, 7E1, 7O1, or 7S1): " ++ par)),
        t,
      ))
      else (λ t. (ok tt, t))

  unfoldable pub parity : Exec Termios (Unit {0})
  unfolding set_parity
  parity t =
      if opts.exists (text "parity")
      then set_parity (opts.get (text "parity") (text "8N1")) t
      else (ok tt, t)

  -- enable parity checking and stripping of the parity bit
  unfoldable pub parity_checks : Exec Termios (Unit {0})
  unfolding meets
  parity_checks t =
      if meets 32 t.cflag (bits parenb)
      then (ok tt, set_bits c_iflag (with_bits (bits inpck) (bits istrip)) t)
      else (ok tt, t)

  -- canonical/raw input
  unfoldable pub set_raw : Result Bool → Exec Termios (Unit {0})
  set_raw (ok true) t = (
    ok tt,
    clear_bits c_lflag
        (with_bits (with_bits (with_bits (bits icanon) (bits echo)) (bits echoe)) (bits isig)) t,
  )
  set_raw (ok false) t =
      (ok tt, set_bits c_lflag (with_bits (with_bits (bits icanon) (bits echo)) (bits echoe)) t)
  set_raw (err e) t = (err e, t)
  set_raw crash t = (crash, t)

  unfoldable pub raw : Exec Termios (Unit {0})
  raw t =
      if opts.exists (text "raw") then set_raw (opts.get_bool (text "raw") true) t else (ok tt, t)

  unfoldable pub set_timeout : Result F → Exec Termios (Unit {0})
  set_timeout (ok x) t =
      if doubles.less x doubles.zero || doubles.less doubles.max_timeout x
      then (err (errpref ++ text "timeout 0..25.5 s expected"), t)
      else (ok tt, record t { vtime = doubles.tenths x })
  set_timeout (err e) t = (err e, t)
  set_timeout crash t = (crash, t)

  unfoldable pub timeout : Exec Termios (Unit {0})
  unfolding set_timeout
  timeout t =
      if opts.exists (text "timeout")
      then set_timeout (opts.get_double (text "timeout") doubles.five) t
      else (ok tt, t)

  -- v < 0 || v > 255
  unfoldable pub set_vmin : Result (Option ℕ) → Exec Termios (Unit {0})
  set_vmin (ok (some v)) t =
      if ltb 255 v
      then (err (errpref ++ text "vmin should be in [0..255]"), t)
      else (ok tt, record t { vmin = v })
  set_vmin (ok none) t = (err (errpref ++ text "vmin should be in [0..255]"), t)
  set_vmin (err e) t = (err e, t)
  set_vmin crash t = (crash, t)

  unfoldable pub vmin : Exec Termios (Unit {0})
  unfolding set_vmin
  vmin t = if opts.exists (text "vmin") then set_vmin (opts.get_int (text "vmin")) t else (ok tt, t)

  unfoldable pub combinations : Exec Termios (Unit {0})
  combinations = do
    parity
    parity_checks
    raw
    set_opt opts (text "sfc") c_iflag (with_bits (with_bits (bits ixon) (bits ixoff)) (bits ixany))
    set_opt opts (text "nlcnv") c_iflag (bits icrnl)
    set_opt opts (text "nlcnv") c_oflag (bits onlcr)
    set_opt opts (text "lcase") c_iflag (bits iuclc)
    set_opt opts (text "lcase") c_oflag (bits olcuc)
    timeout
    vmin
