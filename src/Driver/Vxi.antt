-- ===== src/Driver/Vxi.antt =====
-- server/drv_vxi.h and server/drv_vxi.cpp: a device behind the VXI-11 library, whose calls throw by
-- themselves. These calls, the options and doubles are arguments.
pub mod Refused
use device.Base.{
  Bool, not, ◌&&◌, List, [], ◌∷◌, ◌++◌, ◌==◌, length, if◌then◌else◌, Bytes, text, newline, Result,
  ok, err, Exec, continue, ◌>>=◌, ◌>>◌,
}
use device.Driver.Setup.{Options}
use device.Driver.Spp.{same_ignoring_case}
use device.Driver.Utils.{trim_str, ReadCond, check_read_cond, str_to_read_cond}

-- class VXI
pub record VxiCalls (F World : Type 0) : Type 0 where
  -- new VXI(addr, name, rpc_timeout)
  pub connect : Bytes → Bytes → F → World → Result (Unit {0}) × World
  pub set_io_timeout : F → World → Result (Unit {0}) × World
  pub set_lock_timeout : F → World → Result (Unit {0}) × World
  pub clear : World → Result (Unit {0}) × World
  pub read : World → Result Bytes × World
  pub write : Bytes → World → Result (Unit {0}) × World
  -- usleep of the delay
  pub sleep : World → World

pub record Vxi : Type 0 where
  pub errpref : Bytes
  pub idn : Bytes
  pub add : Bytes
  pub trim : Bytes
  -- delay>0
  pub delays : Bool
  pub read_cond : ReadCond

module _ {F World : Type 0} (calls : VxiCalls F World) (d : Vxi) where
  trimmed : Bytes → Exec World Bytes
  trimmed ret w = (ok (trim_str ret d.trim).1, w)

  unfoldable pub read : Exec World Bytes
  unfolding trimmed
  read = do ret ← calls.read; trimmed ret

  delayed : Exec World (Unit {0})
  delayed w = (ok tt, (if d.delays then calls.sleep w else w))

  unfoldable pub write : Bytes → Exec World (Unit {0})
  unfolding delayed
  write msg = do calls.write (msg ++ d.add); delayed

  -- if (!check_read_cond(msg, read_cond)) return std::string(); return read();
  read_answer : Bytes → Exec World Bytes
  unfolding read
  read_answer msg w = let s = read w in if check_read_cond msg d.read_cond then s else (ok [], w)

  unfoldable pub ask : Bytes → Exec World Bytes
  unfolding write read_answer
  ask msg =
      if not (length d.idn == 0) && same_ignoring_case msg (text "*idn?")
      then (λ w. (ok d.idn, w))
      else (do write msg; read_answer msg)

-- 0.0, 2.0 and 10.0
pub record VxiDoubles (F : Type 0) : Type 0 where
  pub zero : F
  pub two : F
  pub ten : F
  pub positive : F → Bool

-- What the constructor lets through. No comma stands between "lock_timeout" and "errpref", which are
-- one literal.
abbrev pub vxi_options : List Bytes
vxi_options =
    text "addr"
    ∷ text "name"
    ∷ text "rpc_timeout"
    ∷ text "io_timeout"
    ∷ text "lock_timeouterrpref"
    ∷ text "idn"
    ∷ text "read_cond"
    ∷ text "add_str"
    ∷ text "trim_str"
    ∷ text "delay"
    ∷ []

module _ {F World : Type 0} (opts : Options F) (doubles : VxiDoubles F)
    (calls : VxiCalls F World) where
  given : {A : Type 0} → Result A → Exec World A
  given r w = (r, w)

  -- From the timeouts on.
  unfoldable pub open_vxi : Bytes → Bytes → Bytes → Exec World Vxi
  unfolding given
  open_vxi pref addr name = do
    rpc_timeout ← given (opts.get_double (text "rpc_timeout") doubles.two)
    io_timeout ← given (opts.get_double (text "io_timeout") doubles.two)
    lock_timeout ← given (opts.get_double (text "lock_timeout") doubles.ten)
    let errpref = pref ++ (addr ++ (text ":" ++ (name ++ text ": ")))
    calls.connect addr name rpc_timeout
    calls.set_io_timeout io_timeout
    calls.set_lock_timeout lock_timeout
    calls.clear
    delay ← given (opts.get_double (text "delay") doubles.zero)
    read_cond ← given (str_to_read_cond (opts.get (text "read_cond") (text "qmark1w")))
    given (
        ok (record {
          errpref = errpref;
          idn = opts.get (text "idn") [];
          add = opts.get (text "add_str") (newline ∷ []);
          trim = opts.get (text "trim_str") (newline ∷ []);
          delays = doubles.positive delay;
          read_cond = read_cond;
        }))

  -- Driver_vxi(opts)
  unfoldable pub new_vxi : Exec World Vxi
  unfolding given open_vxi
  new_vxi = do
    given (opts.check_unknown vxi_options)
    let errpref = opts.get (text "errpref") (text "vxi: ")
    let addr = opts.get (text "addr") []
    let name = opts.get (text "name") []
    let no_addr = errpref ++ text "Parameter -addr is empty or missing"
    let no_name = errpref ++ text "Parameter -name is empty or missing"
    if length addr == 0
        then (λ w. (err no_addr, w))
        else if length name == 0
        then (λ w. (err no_name, w))
        else open_vxi errpref addr name
