-- ===== src/Driver/Setup/Flags.antt =====
-- server/drv_serial.cpp: the control, input, output and local settings of the constructor.
use device.Base.{[], ◌∷◌, ◌++◌, Bytes, text, Exec, ◌>>◌}
use device.Driver.Setup.{
  Termios, Options, c_iflag, c_oflag, c_cflag, c_lflag, Constant, clocal, cread, crtscts, cs5, cs6,
  cs7, cs8, csize, cstopb, hupcl, parenb, parodd, cmspar, icrnl, inlcr, igncr, iuclc, iutf8, brkint,
  ignbrk, imaxbel, inpck, ignpar, istrip, parmrk, ixany, ixoff, ixon, bs0, bs1, bsdly, cr0, cr1,
  cr2, cr3, crdly, ff0, ff1, ffdly, nl0, nl1, nldly, tab0, tab1, tab2, tab3, tabdly, vt0, vt1,
  vtdly, ocrnl, onlcr, onlret, onocr, ofdel, ofill, olcuc, opost, echo, echoctl, echoe, echok,
  echoke, echonl, echoprt, extproc, flusho, icanon, iexten, isig, noflsh, tostop, xcase, set_opt,
  choose,
}
use device.Driver.Setup

module _ {F : Type 0} (opts : Options F) (bits : Constant → Setup.Flags) (errpref : Bytes) where
  unfoldable pub control_settings : Exec Termios (Unit {0})
  control_settings = do
    set_opt opts (text "clocal") c_cflag (bits clocal)
    set_opt opts (text "cread") c_cflag (bits cread)
    set_opt opts (text "crtscts") c_cflag (bits crtscts)
    choose opts (text "cs") c_cflag (bits csize)
        ((5, bits cs5) ∷ (6, bits cs6) ∷ (7, bits cs7) ∷ (8, bits cs8) ∷ [])
        (errpref ++ text "character size should be in [5..8]: ")
    set_opt opts (text "cstopb") c_cflag (bits cstopb)
    set_opt opts (text "hup") c_cflag (bits hupcl)
    set_opt opts (text "parenb") c_cflag (bits parenb)
    set_opt opts (text "parodd") c_cflag (bits parodd)
    set_opt opts (text "cmspar") c_cflag (bits cmspar)

  unfoldable pub input_settings : Exec Termios (Unit {0})
  input_settings = do
    set_opt opts (text "icrnl") c_iflag (bits icrnl)
    set_opt opts (text "inlcr") c_iflag (bits inlcr)
    set_opt opts (text "igncr") c_iflag (bits igncr)
    set_opt opts (text "iuclc") c_iflag (bits iuclc)
    set_opt opts (text "iutf8") c_iflag (bits iutf8)
    set_opt opts (text "brkint") c_iflag (bits brkint)
    set_opt opts (text "ignbrk") c_iflag (bits ignbrk)
    set_opt opts (text "imaxbel") c_iflag (bits imaxbel)
    set_opt opts (text "inpck") c_iflag (bits inpck)
    set_opt opts (text "ignpar") c_iflag (bits ignpar)
    set_opt opts (text "istrip") c_iflag (bits istrip)
    set_opt opts (text "parmrk") c_iflag (bits parmrk)
    set_opt opts (text "ixany") c_iflag (bits ixany)
    set_opt opts (text "ixoff") c_iflag (bits ixoff)
    set_opt opts (text "ixon") c_iflag (bits ixon)

  -- The six delay styles.
  unfoldable pub delay_styles : Exec Termios (Unit {0})
  delay_styles = do
    choose opts (text "bs") c_oflag (bits bsdly) ((0, bits bs0) ∷ (1, bits bs1) ∷ [])
        (errpref ++ text "backspace delay style should be in [0..1]: ")
    choose opts (text "cr") c_oflag (bits crdly)
        ((0, bits cr0) ∷ (1, bits cr1) ∷ (2, bits cr2) ∷ (3, bits cr3) ∷ [])
        (errpref ++ text "carriage return delay style should be in [0..3]: ")
    choose opts (text "ff") c_oflag (bits ffdly) ((0, bits ff0) ∷ (1, bits ff1) ∷ [])
        (errpref ++ text "form feed style should be in [0..1]: ")
    choose opts (text "nl") c_oflag (bits nldly) ((0, bits nl0) ∷ (1, bits nl1) ∷ [])
        (errpref ++ text "newline delay style should be in [0..1]: ")
    choose opts (text "tab") c_oflag (bits tabdly)
        ((0, bits tab0) ∷ (1, bits tab1) ∷ (2, bits tab2) ∷ (3, bits tab3) ∷ [])
        (errpref ++ text "tab delay style should be in [0..3]: ")
    choose opts (text "vt") c_oflag (bits vtdly) ((0, bits vt0) ∷ (1, bits vt1) ∷ [])
        (errpref ++ text "vertical tab delay style should be in [0..1]: ")

  unfoldable pub output_settings : Exec Termios (Unit {0})
  output_settings = do
    delay_styles
    set_opt opts (text "ocrnl") c_oflag (bits ocrnl)
    set_opt opts (text "onlcr") c_oflag (bits onlcr)
    set_opt opts (text "onlret") c_oflag (bits onlret)
    set_opt opts (text "onocr") c_oflag (bits onocr)
    set_opt opts (text "ofdel") c_oflag (bits ofdel)
    set_opt opts (text "ofill") c_oflag (bits ofill)
    set_opt opts (text "olcuc") c_oflag (bits olcuc)
    set_opt opts (text "opost") c_oflag (bits opost)

  unfoldable pub local_settings : Exec Termios (Unit {0})
  local_settings = do
    set_opt opts (text "echo") c_lflag (bits echo)
    set_opt opts (text "echoctl") c_lflag (bits echoctl)
    set_opt opts (text "echoe") c_lflag (bits echoe)
    set_opt opts (text "echok") c_lflag (bits echok)
    set_opt opts (text "echoke") c_lflag (bits echoke)
    set_opt opts (text "echonl") c_lflag (bits echonl)
    set_opt opts (text "echoprt") c_lflag (bits echoprt)
    set_opt opts (text "extproc") c_lflag (bits extproc)
    set_opt opts (text "flusho") c_lflag (bits flusho)
    set_opt opts (text "icanon") c_lflag (bits icanon)
    set_opt opts (text "iexten") c_lflag (bits iexten)
    set_opt opts (text "isig") c_lflag (bits isig)
    set_opt opts (text "noflsh") c_lflag (bits noflsh)
    set_opt opts (text "tostop") c_lflag (bits tostop)
    set_opt opts (text "xcase") c_lflag (bits xcase)
