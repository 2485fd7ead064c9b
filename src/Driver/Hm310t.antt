-- ===== src/Driver/Hm310t.antt =====
-- server/drv_serial_hm310t.h and server/drv_serial_hm310t.cpp: the values and commands of the power
-- supply. Texts of numbers, doubles and words come from other libraries, in `Values`.
pub mod Registers
pub mod Power
pub mod New
use device.Base.{
  ℕ, ◌+◌, ◌*◌, ◌/◌, ◌%◌, ◌^◌, Bool, false, ◌&&◌, List, [], ◌∷◌, ◌++◌, ltb, ◌==◌, drop,
  if◌then◌else◌, Bytes, text, beq, sp, Result, ok, err, crash, Exec, continue, ◌>>=◌, ◌>>◌,
}
use device.Driver.Modbus.{Port, modbus_func3, modbus_func6}
use device.Driver.Spp.{same_ignoring_case}

pub record Values : Type 0 where
  -- type_to_str of a number, and str_to_type<unsigned int>
  pub show : ℕ → Bytes
  pub read_unsigned : Bytes → Result ℕ
  -- type_to_str(pow(0.1, k)*n)
  pub show_scaled : ℕ → ℕ → Bytes
  -- pow(10, k)*str_to_type<double>(arg) as uint16_t and as uint32_t
  pub read_scaled16 : ℕ → Bytes → Result ℕ
  pub read_scaled32 : ℕ → Bytes → Result ℕ
  -- str_to_type<bool>
  pub read_bool : Bytes → Result Bool
  -- read_words of unquote_words, in lower case
  pub lower_words : Bytes → Result (List Bytes)

-- The decimal precisions of the voltage, the current and the power.
pub record Supply : Type 0 where
  pub ve : ℕ
  pub ie : ℕ
  pub pe : ℕ

-- The fields of the register with the decimal points.
unfoldable pub decimals : ℕ → Supply
decimals dpt = record { ve = dpt / 256 % 16; ie = dpt / 16 % 16; pe = dpt % 16 }

abbrev flag : ℕ → ℕ → Bytes → Bytes
flag v power name = if v / power % 2 == 1 then sp ∷ name else []

-- The names of the bits 2 to 6 that are set.
unfoldable pub status_text : ℕ → Bytes
status_text v =
    flag v 4 (text "OVP")
    ++ flag v 8 (text "OCP")
    ++ flag v 16 (text "OPP")
    ++ flag v 32 (text "OTP")
    ++ flag v 64 (text "SCP")

-- msg.size()>2 && msg[0]==':' && msg[1]=='r'
unfoldable pub is_raw : Bytes → Bool
is_raw (a ∷ b ∷ c ∷ s) = a == b':' && b == b'r'
is_raw _ = false

-- H << (16 + L) on uint32_t, as `H<<16 + L` is parsed: undefined from 32 on.
unfoldable pub shifted : ℕ → ℕ → Result ℕ
shifted hi lo = if ltb (16 + lo) 32 then ok (hi * 2 ^ (16 + lo) % 2 ^ 32) else crash

module _ {World : Type 0} (port : Port World) (vals : Values) (errpref idn : Bytes) where
  unfoldable pub on_port : {A : Type 0} → Exec World A → Exec (Supply × World) A
  on_port m (d, w) = let (r, w') = m w in (r, (d, w'))

  returned : {A : Type 0} → Result A → Exec (Supply × World) A
  returned r s = (r, s)

  unfoldable pub func3 : ℕ → Exec (Supply × World) ℕ
  unfolding on_port
  func3 addr = on_port (modbus_func3 port errpref addr)

  unfoldable pub func6 : ℕ → ℕ → Exec (Supply × World) (Unit {0})
  unfolding on_port
  func6 addr val = on_port (modbus_func6 port errpref addr val)

  -- type_to_str(modbus_func3(addr))
  unfoldable pub raw : ℕ → Exec (Supply × World) Bytes
  unfolding returned
  raw addr = do v ← func3 addr; returned (ok (vals.show v))

  unfoldable pub set_decimals : ℕ → Exec (Supply × World) (Unit {0})
  set_decimals dpt (d, w) = (ok tt, (decimals dpt, w))

  unfoldable pub read_dpt : Exec (Supply × World) (Unit {0})
  unfolding set_decimals
  read_dpt = do dpt ← func3 0x05; set_decimals dpt

  scaled : (Supply → ℕ) → ℕ → Exec (Supply × World) Bytes
  scaled k v (d, w) = (ok (vals.show_scaled (k d) v), (d, w))

  unfoldable pub read_volt : ℕ → Exec (Supply × World) Bytes
  unfolding scaled
  read_volt addr = do v ← func3 addr; scaled (λ d. d.ve) v

  unfoldable pub read_curr : ℕ → Exec (Supply × World) Bytes
  unfolding scaled
  read_curr addr = do v ← func3 addr; scaled (λ d. d.ie) v

  unfoldable pub read_pwr : ℕ → ℕ → Exec (Supply × World) Bytes
  unfolding scaled returned
  read_pwr addr_h addr_l = do
    hi ← func3 addr_h
    lo ← func3 addr_l
    pwr ← returned (shifted hi lo)
    scaled (λ d. d.pe) pwr

  number16 : (Supply → ℕ) → Bytes → Exec (Supply × World) ℕ
  number16 k arg (d, w) = (vals.read_scaled16 (k d) arg, (d, w))

  unfoldable pub write_volt : ℕ → Bytes → Exec (Supply × World) (Unit {0})
  unfolding number16
  write_volt addr arg = do v ← number16 (λ d. d.ve) arg; func6 addr v

  unfoldable pub write_curr : ℕ → Bytes → Exec (Supply × World) (Unit {0})
  unfolding number16
  write_curr addr arg = do v ← number16 (λ d. d.ie) arg; func6 addr v

  number32 : Bytes → Exec (Supply × World) ℕ
  number32 arg (d, w) = (vals.read_scaled32 d.pe arg, (d, w))

  unfoldable pub write_pwr : ℕ → ℕ → Bytes → Exec (Supply × World) (Unit {0})
  unfolding number32
  write_pwr addr_h addr_l arg = do
    pwr ← number32 arg
    func6 addr_h (pwr / 65536)
    func6 addr_l (pwr % 65536)

  write_out : Bytes → Exec (Supply × World) (Unit {0})
  unfolding returned
  write_out arg = do on ← returned (vals.read_bool arg); func6 0x01 (if on then 1 else 0)

  -- if (v.size()!=2) throw …; the command with its argument v[1]
  abbrev pub with_argument :
      Bytes
      → List Bytes
      → (Bytes → Exec (Supply × World) (Unit {0}))
      → Exec (Supply × World) (Unit {0})
  with_argument msg (arg ∷ []) f = f arg
  with_argument msg _ f = λ s. (err (errpref ++ (text "argument expected: " ++ msg)), s)

  -- write, behind the splitting of the message into words
  unfoldable pub command : Bytes → List Bytes → Exec (Supply × World) (Unit {0})
  unfolding write_out
  command msg [] = λ s. (ok tt, s)
  command msg (name ∷ args) =
      if beq name (text "out")
      then with_argument msg args write_out
      else if beq name (text "volt")
      then with_argument msg args (write_volt 0x30)
      else if beq name (text "curr")
      then with_argument msg args (write_curr 0x31)
      else if beq name (text "ovp")
      then with_argument msg args (write_volt 0x20)
      else if beq name (text "ocp")
      then with_argument msg args (write_curr 0x21)
      else if beq name (text "opp")
      then with_argument msg args (write_pwr 0x22 0x23)
      else (λ s. (err (errpref ++ (text "unsupported command: " ++ msg)), s))

  unfoldable pub write : Bytes → Exec (Supply × World) (Unit {0})
  unfolding returned
  write msg = do v ← returned (vals.lower_words msg); command msg v

  unfoldable pub status : Exec (Supply × World) Bytes
  unfolding returned
  status = do v ← func3 0x02; returned (ok (status_text v))

  points : Exec (Supply × World) Bytes
  points (d, w) = (ok (vals.show d.ve ++ sp ∷ (vals.show d.ie ++ sp ∷ vals.show d.pe)), (d, w))

  raw_register : Bytes → Exec (Supply × World) Bytes
  unfolding returned
  raw_register msg = do reg ← returned (vals.read_unsigned (drop 2 msg)); raw (reg % 65536)

  unfoldable pub ask : Bytes → Exec (Supply × World) Bytes
  unfolding status points raw_register returned
  ask msg =
      let is : Bytes → Bool = same_ignoring_case msg in
      if is (text "*idn?")
      then returned (ok idn)
      else if is_raw msg
      then raw_register msg
      else if is (text "out?")
      then raw 0x01
      else if is (text "stat:raw?")
      then raw 0x02
      else if is (text "stat?")
      then status
      else if is (text "spec:raw?")
      then raw 0x03
      else if is (text "tail:raw?")
      then raw 0x04
      else if is (text "dpt:raw?")
      then raw 0x05
      else if is (text "dpt?")
      then (do read_dpt; points)
      else if is (text "volt:meas?")
      then read_volt 0x10
      else if is (text "curr:meas?")
      then read_curr 0x11
      else if is (text "pwr:meas?")
      then read_pwr 0x12 0x13
      else if is (text "volt?")
      then read_volt 0x30
      else if is (text "curr?")
      then read_curr 0x31
      else if is (text "ovp?")
      then read_volt 0x20
      else if is (text "ocp?")
      then read_curr 0x21
      else if is (text "opp?")
      then read_pwr 0x22 0x23
      else if is (text "addr?")
      then raw 0x9999
      else (do write msg; returned (ok []))
