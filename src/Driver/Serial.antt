-- ===== src/Driver/Serial.antt =====
-- server/drv_serial.h and server/drv_serial.cpp: reading, writing and asking over a serial port. The
-- system calls on the open port are the argument `sys`.
pub mod Reading
use device.Base.{
  ℕ, zero, suc, Bool, true, false, not, ◌&&◌, Option, none, some, [], ◌∷◌, ◌++◌, ◌==◌, length,
  if◌then◌else◌, Bytes, text, Result, ok, err, crash, Exec, continue, ◌>>=◌, ◌>>◌,
}
use device.Driver.Utils.{trim_str, ReadCond, check_read_cond}
use device.Driver.Spp.{same_ignoring_case}

-- What ::read returns: EAGAIN, another error with its text, or bytes; none of them at a timeout.
pub data ReadResult : Type 0 where
  again : ReadResult
  failed : Bytes → ReadResult
  bytes : Bytes → ReadResult

pub record Sys (World : Type 0) : Type 0 where
  pub read : World → ReadResult × World
  -- ::write; `some` is the text of the error
  pub write : Bytes → World → Option Bytes × World
  -- tcflush(fd, TCIOFLUSH)
  pub flush : World → World
  -- usleep of the delay
  pub sleep : World → World
  -- ::close
  pub close_port : World → World

pub record Serial : Type 0 where
  pub errpref : Bytes
  pub idn : Bytes
  pub ack : Bytes
  pub nack : Bytes
  pub add : Bytes
  pub trim : Bytes
  pub read_cond : ReadCond
  -- delay>0
  pub delays : Bool
  pub flush_on_err : Bool

-- What one round of the loop of Driver_serial::read decides.
pub data Round : Type 0 where
  next : Bytes → Round
  done : Bytes → Bool → Round

-- The branches behind trim_str(ret,nack) and trim_str(ret,ack).
unfoldable pub nacked : Bool × Bytes → Round
nacked (true, s) = done s true
nacked (false, s) = next s

unfoldable pub acked : Serial → Bool × Bytes → Round
unfolding nacked
acked d (true, s) = done s false
acked d (false, s) = nacked (trim_str s d.nack)

-- if (ack.size()==0) break; if (trim_str(ret, ack)) break; if (trim_str(ret,nack)) {fail=true; break;}
unfoldable pub round : Serial → Bytes → Round
unfolding acked
round d ret = if length d.ack == 0 then done ret false else acked d (trim_str ret d.ack)

-- trim_str(ret,trim); if (fail) throw Err() << "nack from the device: " << ret; return ret;
unfoldable pub finish : Serial → Bytes → Bool → Result Bytes
finish d ret fail =
    let ret' = (trim_str ret d.trim).1 in
    if fail then err (text "nack from the device: " ++ ret') else ok ret'

module _ {World : Type 0} (sys : Sys World) (d : Serial) where
  flush_if : World → World
  flush_if w = if d.flush_on_err then sys.flush w else w

  -- The loop of Driver_serial::read, with `fuel` calls of ::read left; `none` if they run out.
  unfoldable pub read_loop : ℕ → Bytes → World → Option (Result Bytes) × World
  unfolding flush_if
  read_loop zero ret w = (none, w)
  read_loop (suc fuel) ret w =
      let (res, w') = sys.read w in
      elim res [
        | again ↦ (some (finish d ret false), w')
        | failed e ↦ (some (err (d.errpref ++ (text "read error: " ++ e))), flush_if w')
        | bytes [] ↦ (some (err (d.errpref ++ text "read timeout")), w')
        | bytes (b ∷ bs) ↦ elim (round d (ret ++ b ∷ bs)) [
          | next ret' ↦ read_loop fuel ret' w'
          | done ret' fail ↦ (some (finish d ret' fail), w')
        ]
      ]

  unfoldable pub write : Bytes → Exec World (Unit {0})
  unfolding flush_if
  write msg w =
      let (res, w') = sys.write (msg ++ d.add) w in
      elim res [
        | some e ↦ (err (d.errpref ++ (text "write error: " ++ e)), flush_if w')
        | none ↦ (ok tt, (if d.delays then sys.sleep w' else w'))
      ]

  answered : ℕ → Bytes → Result (Unit {0}) × World → Option (Result Bytes) × World
  answered fuel msg (ok a, w) =
      let rest = read_loop fuel [] w in
      if check_read_cond msg d.read_cond then rest else (some (ok []), w)
  answered fuel msg (err e, w) = (some (err e), w)
  answered fuel msg (crash, w) = (some crash, w)

  -- Driver_serial::ask
  unfoldable pub ask : ℕ → Bytes → World → Option (Result Bytes) × World
  unfolding write answered
  ask fuel msg w =
      if not (length d.idn == 0) && same_ignoring_case msg (text "*idn?")
      then (some (ok d.idn), w)
      else answered fuel msg (write msg w)

  -- ~Driver_serial
  unfoldable pub delete_serial : World → World
  delete_serial w = sys.close_port w
