-- ===== src/Driver/Setup/Open/Failure.antt =====
-- server/drv_serial.cpp: the constructor Driver_serial with an option that it refuses.
use device.Base.{◌≡◌, false, none, Bytes, text, ok, err}
use device.Driver.Setup
use device.Driver.Setup.{Termios, Options, Doubles, Constant}
use device.Driver.Setup.Open.{
  Tty, settings, checked, opened, ndelay, attributes, apply, open_device,
}

module _ {F World : Type 0} (opts : Options F) (doubles : Doubles F) (bits : Constant → Setup.Flags)
    (tty : Tty World) where
  -- A setting that is refused is thrown as it is, when the port has been opened and its parameters have
  -- been read: none are written to it, and no call closes it.
  pub settings_refused :
      (errpref dev e : Bytes) (t t' : Termios) (w w' w'' : World)
      → tty.open_port dev w ≡ (none, w')
      → opts.exists (text "ndelay") ≡ false
      → tty.tcgetattr w' ≡ (ok t, w'')
      → settings opts doubles bits tty errpref t ≡ (err e, t')
      → open_device opts doubles bits tty errpref dev w ≡ (err e, w'')
  unfolding open_device opened checked ndelay attributes apply
  settings_refused errpref dev e t t' w w' w'' a b c s = rw (a, b, c, s)
