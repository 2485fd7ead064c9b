-- ===== src/Driver/Presets.antt =====
-- server/drv_serial_*.h: the drivers that are Driver_serial with options of their own. The option
-- map is an argument, an interface of which the code uses put, put_missing and check_unknown.
pub mod Laws
use device.Base.{
  ℕ, Bool, true, false, ◌||◌, List, [], ◌∷◌, Bytes, text, beq, Option, none, some, ◌≡◌, Result, ok,
  err, crash, if◌then◌else◌,
}

-- What is given to put: a text, an int, or a double by its literal.
pub data Value : Type 0 where
  string : Bytes → Value
  number : ℕ → Value
  real : Bytes → Value

-- The name stands in the list.
unfoldable pub listed : Bytes → List Bytes → Bool
listed k [] = false
listed k (n ∷ ns) = beq n k || listed k ns

-- class Opt, as far as it is used here, with its documented behaviour.
pub record OptMap (Opt : Type 0) : Type 0 where
  pub get : Bytes → Opt → Option Value
  pub put : Bytes → Value → Opt → Opt
  pub put_missing : Bytes → Value → Opt → Opt
  pub check_unknown : List Bytes → Opt → Result (Unit {0})
  pub get-put :
      (j k : Bytes) (v : Value) (o : Opt)
      → get j (put k v o) ≡ (if beq k j then some v else get j o)
  pub get-put_missing :
      (j k : Bytes) (v : Value) (o : Opt)
      → get j (put_missing k v o)
        ≡ elim (get j o) [ some u ↦ some u | none ↦ (if beq k j then some v else none) ]
  pub check_unknown-listed :
      (names : List Bytes) (o : Opt) (k : Bytes) (v : Value)
      → check_unknown names o ≡ ok tt
      → get k o ≡ some v
      → listed k names ≡ true
  pub check_unknown-ok :
      (names : List Bytes) (o : Opt)
      → ((k : Bytes) (v : Value) → get k o ≡ some v → listed k names ≡ true)
      → check_unknown names o ≡ ok tt

-- What add_opts of a driver lets through, sets, and sets where the user did not.
pub record Preset : Type 0 where
  pub allowed : List Bytes
  pub fixed : List (Bytes × Value)
  pub defaults : List (Bytes × Value)

abbrev pub asm340 : Preset
asm340 = record {
  allowed = text "dev" ∷ text "timeout" ∷ text "sfc" ∷ text "errpref" ∷ text "idn" ∷ [];
  fixed =
      (text "speed", number 9600)
      ∷ (text "parity", string (text "8N1"))
      ∷ (text "cread", number 1)
      ∷ (text "clocal", number 1)
      ∷ (text "vmin", number 0)
      ∷ (text "ndelay", number 0)
      ∷ (text "icrnl", number 0)
      ∷ (text "raw", number 1)
      ∷ (text "delay", number 0)
      ∷ (text "opost", number 1)
      ∷ (text "lcase", number 1)
      ∷ (text "ack_str", string (6 ∷ []))
      ∷ (text "nack_str", string (21 ∷ []))
      ∷ (text "add_str", string (13 ∷ []))
      ∷ (text "trim_str", string (13 ∷ []))
      ∷ (text "read_cond", string (text "always"))
      ∷ [];
  defaults =
      (text "timeout", real (text "5.0"))
      ∷ (text "sfc", number 1)
      ∷ (text "errpref", string (text "ASM340: "))
      ∷ (text "idn", string (text "Adixen ASM340 leak detector"))
      ∷ [];
}

abbrev pub et : Preset
et = record {
  allowed = text "dev" ∷ text "timeout" ∷ text "errpref" ∷ text "idn" ∷ [];
  fixed =
      (text "speed", number 9600)
      ∷ (text "parity", string (text "8N1"))
      ∷ (text "cread", number 1)
      ∷ (text "clocal", number 1)
      ∷ (text "ndelay", number 1)
      ∷ (text "sfc", number 1)
      ∷ (text "raw", number 1)
      ∷ (text "delay", real (text "0.1"))
      ∷ (text "add_str", string (10 ∷ []))
      ∷ (text "trim_str", string (10 ∷ 10 ∷ []))
      ∷ (text "read_cond", string (text "always"))
      ∷ [];
  defaults =
      (text "timeout", real (text "2.0")) ∷ (text "errpref", string (text "EastTester: ")) ∷ [];
}

abbrev pub jds6600 : Preset
jds6600 = record {
  allowed = text "dev" ∷ text "timeout" ∷ text "errpref" ∷ text "idn" ∷ [];
  fixed =
      (text "speed", number 115200)
      ∷ (text "parity", string (text "8N1"))
      ∷ (text "cread", number 1)
      ∷ (text "clocal", number 1)
      ∷ (text "sfc", number 0)
      ∷ (text "raw", number 1)
      ∷ (text "delay", real (text "0.1"))
      ∷ (text "onlcr", number 1)
      ∷ (text "igncr", number 1)
      ∷ (text "add_str", string (10 ∷ []))
      ∷ (text "trim_str", string (10 ∷ []))
      ∷ (text "read_cond", string (text "always"))
      ∷ [];
  defaults =
      (text "timeout", real (text "5.0"))
      ∷ (text "errpref", string (text "JDS6600: "))
      ∷ (text "idn", string (text "JDS6600"))
      ∷ [];
}

abbrev pub l300 : Preset
l300 = record {
  allowed = text "dev" ∷ text "timeout" ∷ text "sfc" ∷ text "errpref" ∷ text "idn" ∷ [];
  fixed =
      (text "speed", number 19200)
      ∷ (text "parity", string (text "8N1"))
      ∷ (text "cread", number 1)
      ∷ (text "clocal", number 1)
      ∷ (text "icrnl", number 0)
      ∷ (text "raw", number 1)
      ∷ (text "sfc", number 1)
      ∷ (text "crtscts", number 0)
      ∷ (text "add_str", string (13 ∷ []))
      ∷ (text "trim_str", string (13 ∷ []))
      ∷ (text "read_cond", string (text "always"))
      ∷ [];
  defaults =
      (text "timeout", real (text "5.0"))
      ∷ (text "errpref", string (text "L300: "))
      ∷ (text "idn", string (text "PhoeniXL300"))
      ∷ [];
}

abbrev pub simple : Preset
simple = record {
  allowed = text "dev" ∷ text "timeout" ∷ text "sfc" ∷ text "errpref" ∷ text "read_cond" ∷ [];
  fixed =
      (text "speed", number 9600)
      ∷ (text "parity", string (text "8N1"))
      ∷ (text "cread", number 1)
      ∷ (text "clocal", number 1)
      ∷ (text "vmin", number 0)
      ∷ (text "ndelay", number 0)
      ∷ (text "icrnl", number 1)
      ∷ (text "raw", number 1)
      ∷ (text "delay", real (text "0.1"))
      ∷ (text "opost", number 0)
      ∷ (text "add_str", string (10 ∷ []))
      ∷ (text "trim_str", string (10 ∷ []))
      ∷ [];
  defaults =
      (text "timeout", real (text "5.0"))
      ∷ (text "sfc", number 1)
      ∷ (text "read_cond", string (text "qmark1w"))
      ∷ [];
}

abbrev pub tenma_ps : Preset
tenma_ps = record {
  allowed = text "dev" ∷ text "timeout" ∷ text "errpref" ∷ text "idn" ∷ [];
  fixed =
      (text "speed", number 9600)
      ∷ (text "parity", string (text "8N1"))
      ∷ (text "cread", number 1)
      ∷ (text "clocal", number 1)
      ∷ (text "vmin", number 0)
      ∷ (text "ndelay", number 0)
      ∷ (text "sfc", number 0)
      ∷ (text "raw", number 1)
      ∷ (text "delay", real (text "0.1"))
      ∷ (text "opost", number 1)
      ∷ (text "olcuc", number 1)
      ∷ (text "read_cond", string (text "qmark"))
      ∷ [];
  defaults = (text "timeout", real (text "5.0")) ∷ (text "errpref", string (text "TenmaPS: ")) ∷ [];
}

abbrev pub vs_ld : Preset
vs_ld = record {
  allowed = text "dev" ∷ text "timeout" ∷ text "sfc" ∷ text "errpref" ∷ text "idn" ∷ [];
  fixed =
      (text "speed", number 9600)
      ∷ (text "parity", string (text "8N1"))
      ∷ (text "cread", number 1)
      ∷ (text "clocal", number 1)
      ∷ (text "vmin", number 0)
      ∷ (text "ndelay", number 0)
      ∷ (text "sfc", number 0)
      ∷ (text "raw", number 1)
      ∷ (text "crtscts", number 0)
      ∷ (text "delay", real (text "0.1"))
      ∷ (text "igncr", number 1)
      ∷ (text "opost", number 0)
      ∷ (text "add_str", string (13 ∷ []))
      ∷ (text "trim_str", string (10 ∷ []))
      ∷ (text "ack_str", string (b'o' ∷ b'k' ∷ 10 ∷ []))
      ∷ (text "nack_str", string (b'#' ∷ b'?' ∷ 10 ∷ []))
      ∷ (text "read_cond", string (text "always"))
      ∷ [];
  defaults =
      (text "timeout", real (text "5.0"))
      ∷ (text "errpref", string (text "Agilent VS: "))
      ∷ (text "idn", string (text "Agilent VS leak detector"))
      ∷ [];
}

abbrev pub hm310t : Preset
hm310t = record {
  allowed = text "dev" ∷ text "timeout" ∷ text "errpref" ∷ text "idn" ∷ [];
  fixed =
      (text "speed", number 9600)
      ∷ (text "parity", string (text "8N1"))
      ∷ (text "cread", number 1)
      ∷ (text "clocal", number 1)
      ∷ (text "vmin", number 0)
      ∷ (text "ndelay", number 0)
      ∷ (text "sfc", number 0)
      ∷ (text "raw", number 1)
      ∷ (text "delay", real (text "0.01"))
      ∷ (text "opost", number 0)
      ∷ (text "read_cond", string (text "always"))
      ∷ [];
  defaults =
      (text "timeout", real (text "5.0"))
      ∷ (text "errpref", string (text "HM310T: "))
      ∷ (text "idn", string (text "HM310T"))
      ∷ [];
}

pub data PresetKind : Type 0 where
  serial_asm340 serial_et serial_jds6600 serial_l300 serial_simple serial_tenma_ps serial_vs_ld
        serial_hm310t :
      PresetKind

abbrev pub preset : PresetKind → Preset
preset serial_asm340 = asm340
preset serial_et = et
preset serial_jds6600 = jds6600
preset serial_l300 = l300
preset serial_simple = simple
preset serial_tenma_ps = tenma_ps
preset serial_vs_ld = vs_ld
preset serial_hm310t = hm310t

module _ {Opt : Type 0} (map : OptMap Opt) where
  unfoldable pub put_all : List (Bytes × Value) → Opt → Opt
  put_all [] o = o
  put_all ((k, v) ∷ l) o = put_all l (map.put k v o)

  unfoldable pub put_missing_all : List (Bytes × Value) → Opt → Opt
  put_missing_all [] o = o
  put_missing_all ((k, v) ∷ l) o = put_missing_all l (map.put_missing k v o)

  -- add_opts
  unfoldable pub add_opts : Preset → Opt → Result Opt
  unfolding put_all put_missing_all
  add_opts p opts = checked (map.check_unknown p.allowed opts)
    where
      checked : Result (Unit {0}) → Result Opt
      checked (ok a) = ok (put_missing_all p.defaults (put_all p.fixed opts))
      checked (err e) = err e
      checked crash = crash
