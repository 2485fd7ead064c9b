-- ===== src/Driver/Gpib.antt =====
-- server/drv_gpib.h and server/drv_gpib.cpp: a device on a GPIB board. The GPIB library, the
-- options and doubles are arguments; of a call the library keeps a status, here its error where
-- there is one.
pub mod Open
pub mod Handles
pub mod Closed
use device.Base.{
  ℕ, Bool, not, ◌&&◌, Option, none, some, [], ◌∷◌, ◌++◌, ◌==◌, length, if◌then◌else◌, Bytes, text,
  beq, Result, ok, err, Exec, continue, ◌>>=◌, ◌>>◌,
}
use device.Driver.Setup.{Flags, with_bits}
use device.Driver.Spp.{same_ignoring_case}
use device.Driver.Utils.{trim_str, ReadCond, check_read_cond}

-- iberr
pub data IbError : Type 0 where
  edvr ecic enol eadr earg esac eabo eneb edma eoip ecap efso ebus estb esrq etab other : IbError

-- The error, and strerror(ibcnt), which some of them show.
abbrev pub Failed : Type 0
Failed = IbError × Bytes

unfoldable pub error_text : Failed → Bytes
error_text (edvr, system) = system
error_text (ecic, system) = text "board is not a CIC"
error_text (enol, system) = text "no listeners"
error_text (eadr, system) = text "board is not addressed correctly"
error_text (earg, system) = text "invalid argument"
error_text (esac, system) = text "board is not a system controller"
error_text (eabo, system) = text "I/O operation aborted (timeout)"
error_text (eneb, system) = text "board does not exists"
error_text (edma, system) = text "DMA error"
error_text (eoip, system) = text "asynchronous I/O in progress"
error_text (ecap, system) = text "no capability for operation"
error_text (efso, system) = system
error_text (ebus, system) = text "bus error"
error_text (estb, system) = text "serial poll queue overflow"
error_text (esrq, system) = text "SRQ stuck in ON position"
error_text (etab, system) = text "table problem"
error_text (other, system) = text "unknown error"

-- The constants of the library for timeouts.
pub data Timeout : Type 0 where
  tnone t10us t30us t100us t300us t1ms t3ms t10ms t30ms t100ms t300ms : Timeout
  t1s t3s t10s t30s t100s t300s t1000s : Timeout

unfoldable pub get_timeout : Bytes → Bytes → Result Timeout
get_timeout errpref s =
    if beq s (text "none")
    then ok tnone
    else if beq s (text "10us")
    then ok t10us
    else if beq s (text "30us")
    then ok t30us
    else if beq s (text "100us")
    then ok t100us
    else if beq s (text "300us")
    then ok t300us
    else if beq s (text "1ms")
    then ok t1ms
    else if beq s (text "3ms")
    then ok t3ms
    else if beq s (text "10ms")
    then ok t10ms
    else if beq s (text "30ms")
    then ok t30ms
    else if beq s (text "100ms")
    then ok t100ms
    else if beq s (text "300ms")
    then ok t300ms
    else if beq s (text "1s")
    then ok t1s
    else if beq s (text "3s")
    then ok t3s
    else if beq s (text "10s")
    then ok t10s
    else if beq s (text "30s")
    then ok t30s
    else if beq s (text "100s")
    then ok t100s
    else if beq s (text "300s")
    then ok t300s
    else if beq s (text "1000s")
    then ok t1000s
    else err (errpref ++ (text "bad gpib timeout: " ++ s))

-- BIN, XEOS and REOS
pub record EosBits : Type 0 where
  pub bin : Flags
  pub xeos : Flags
  pub reos : Flags

-- for (c: mode) ch |= …; the error shows the whole mode.
unfoldable pub eos_flags : EosBits → Bytes → Flags → Bytes → Result Flags
eos_flags bits error ch [] = ok ch
eos_flags bits error ch (c ∷ mode) =
    let b = eos_flags bits error (with_bits ch bits.bin) mode in
    let x = eos_flags bits error (with_bits ch bits.xeos) mode in
    let r = eos_flags bits error (with_bits ch bits.reos) mode in
    if c == b'B' then b else if c == b'X' then x else if c == b'R' then r else err error

-- `Int` is the type int.
pub record Ib (Int World : Type 0) : Type 0 where
  -- ibdev(board, addr, 0, timeout, 1, 0), a device with its handle
  pub ibdev : Int → Int → Timeout → World → (ℕ × Option Failed) × World
  pub ibclr : ℕ → World → Option Failed × World
  pub ibtmo : ℕ → Timeout → World → Option Failed × World
  pub ibeot : ℕ → Bool → World → Option Failed × World
  pub ibeos : ℕ → Flags → World → Option Failed × World
  pub ibsad : ℕ → Int → World → Option Failed × World
  pub ibrd : ℕ → ℕ → World → (Bytes × Option Failed) × World
  pub ibwrt : ℕ → Bytes → World → Option Failed × World
  -- ibonl(dh, 0)
  pub ibonl : ℕ → World → World
  -- usleep of the delay
  pub sleep : World → World

pub record Gpib : Type 0 where
  pub dh : ℕ
  pub errpref : Bytes
  pub idn : Bytes
  pub add : Bytes
  pub trim : Bytes
  pub bufsize : ℕ
  -- delay>0
  pub delays : Bool
  pub read_cond : ReadCond

-- if (ibsta & ERR) throw Err() << errpref << what << error_text(iberr);
unfoldable pub checked_call :
    {World : Type 0} → Bytes → Option Failed × World → Result (Unit {0}) × World
unfolding error_text
checked_call what (none, w) = (ok tt, w)
checked_call what (some e, w) = (err (what ++ error_text e), w)

module _ {Int World : Type 0} (ib : Ib Int World) (d : Gpib) where
  unfoldable pub read_result : (Bytes × Option Failed) × World → Result Bytes × World
  unfolding error_text
  read_result ((buf, none), w) = (ok (trim_str buf d.trim).1, w)
  read_result ((buf, some e), w) = (err (d.errpref ++ (text "read error: " ++ error_text e)), w)

  unfoldable pub read : Exec World Bytes
  unfolding read_result
  read w = read_result (ib.ibrd d.dh d.bufsize w)

  unfoldable pub slept : Exec World (Unit {0})
  slept w = (ok tt, (if d.delays then ib.sleep w else w))

  unfoldable pub write : Bytes → Exec World (Unit {0})
  unfolding checked_call slept
  write msg = do
    λ w. checked_call (d.errpref ++ text "write error: ") (ib.ibwrt d.dh (msg ++ d.add) w)
    slept

  unfoldable pub read_if_needed : Bytes → Exec World Bytes
  unfolding read
  read_if_needed msg w = let s = read w in if check_read_cond msg d.read_cond then s else (ok [], w)

  unfoldable pub ask : Bytes → Exec World Bytes
  unfolding write read_if_needed
  ask msg =
      if not (length d.idn == 0) && same_ignoring_case msg (text "*idn?")
      then (λ w. (ok d.idn, w))
      else (do write msg; read_if_needed msg)

  -- ~Driver_gpib
  unfoldable pub delete_gpib : World → World
  delete_gpib w = ib.ibonl d.dh w
