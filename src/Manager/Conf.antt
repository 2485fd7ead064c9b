-- ===== src/Manager/Conf.antt =====
-- DevManager::read_conf of server/dev_manager.cpp.
use device.Base.{
  ℕ, suc, ◌%◌, Bool, true, ◌||◌, not, Option, none, some, List, [], ◌∷◌, ◌++◌, ◌==◌, length, drop,
  if◌then◌else◌, Bytes, text, newline, Result, ok, err, crash, Exec,
}
use device.Map.{Map, bytes_key, has, insert}
use device.Device.{Device, new_device, copy_device}
use device.Manager.{Libs, ConfLine, words, failed, Manager}

-- strcspn(s, " \n\t/\\"), with the zero byte that ends a C string
unfoldable pub strcspn : Bytes → ℕ
strcspn [] = 0
strcspn (c ∷ s) =
    let rest = suc (strcspn s) in
    if c == 0 || c == b' ' || c == newline || c == 9 || c == b'/' || c == b'\\' then 0 else rest

-- vs[i].size()<2 || vs[i][0]!='-'
abbrev bad_parameter : Bytes → Bool
bad_parameter [] = true
bad_parameter (c ∷ []) = true
bad_parameter (c ∷ s) = not (c == b'-')

abbrev at_line : Bytes → Bytes → Bytes → Bytes
at_line devfile n e =
    text "bad configuration file " ++ devfile ++ text " at line " ++ n ++ text ": " ++ e

-- devices = ret
abbrev pub copy_all : {Opt Drv : Type 0} → Map Bytes (Device Opt Drv) → Map Bytes (Device Opt Drv)
copy_all [] = []
copy_all ((n, d) ∷ ds) = (n, copy_device d) ∷ copy_all ds

module _ {Opt World : Type 0} (libs : Libs Opt World) where
  -- for (i=2; i+1<vs.size(); i+=2) over the words behind the driver's name
  unfoldable pub read_pairs : List Bytes → Opt → Result Opt
  read_pairs (p ∷ v ∷ rest) o =
      let next = read_pairs rest (libs.opt_put (drop 1 p) v o) in
      if bad_parameter p
      then err (
          text "parameter name should be prefixed with \"-\" and contain at least one character: "
          ++ p)
      else next
  read_pairs _ o = ok o

module _ {Opt Drv World : Type 0} (libs : Libs Opt World) where
  -- if (ret.count(dev)>0) throw; ret.emplace(dev, Device(dev,drv,opt));
  unfoldable pub add_device :
      Bytes → Bytes → Result Opt → Map Bytes (Device Opt Drv) → Result (Map Bytes (Device Opt Drv))
  add_device dev drv (ok o) ret =
      if has dev ret
      then err (text "duplicated device name: " ++ dev)
      else ok (insert dev (copy_device (new_device dev drv o)) ret)
  add_device dev drv (err e) ret = err e
  add_device dev drv crash ret = crash

  -- The body of the loop, for a line that has words.
  unfoldable pub read_device :
      List Bytes → Map Bytes (Device Opt Drv) → Result (Map Bytes (Device Opt Drv))
  unfolding add_device
  read_device (dev ∷ drv ∷ args) ret =
      if length dev == 0
      then err (text "empty device name")
      else if not (strcspn dev == length dev)
      then err
          (text "symbols ' ', '\\n', '\\t', '/', and '\\' are not allowed in device name: " ++ dev)
      else if not (length args % 2 == 0)
      then err (text "even-size list of [-<parameter> <value>] pairs expected")
      else add_device dev drv (read_pairs libs args libs.opt_empty) ret
  read_device _ ret = err (text "expected: <device name> <driver name> [-<parameter> <value>]")

  -- The loop over the lines; every error is given the file and the line.
  unfoldable pub read_lines :
      Bytes → List ConfLine → Map Bytes (Device Opt Drv) → Result (Map Bytes (Device Opt Drv))
  read_lines devfile [] ret = ok ret
  read_lines devfile (l ∷ ls) ret = elim l.text [
    | words [] ↦ ok ret
    | words (v ∷ vs) ↦ elim (read_device (v ∷ vs) ret) [
      | ok ret' ↦ read_lines devfile ls ret'
      | err e ↦ err (at_line devfile (libs.show l.line) e)
      | crash ↦ crash
    ]
    | failed e ↦ err (at_line devfile (libs.show l.line) e)
  ]

  unfoldable pub applied :
      Result (Map Bytes (Device Opt Drv)) → Exec (Manager Opt Drv × World) (Unit {0})
  applied (ok ret) (m, w) = (ok tt, (record m { devices = copy_all ret }, w))
  applied (err e) s = (err e, s)
  applied crash s = (crash, s)

  unfoldable pub read_opened : Option (List ConfLine) → Exec (Manager Opt Drv × World) (Unit {0})
  unfolding applied
  read_opened none (m, w) = (err (text "can't open configuration: " ++ m.devfile), (m, w))
  read_opened (some ls) (m, w) = applied (read_lines m.devfile ls []) (m, w)

  unfoldable pub read_conf : Exec (Manager Opt Drv × World) (Unit {0})
  unfolding read_opened
  read_conf (m, w) = let (file, w') = libs.read_file m.devfile w in read_opened file (m, w')

  -- DevManager(devfile): an error of read_conf is only logged.
  unfoldable pub new_manager : Bytes → World → Manager Opt Drv × World
  unfolding read_conf
  new_manager devfile w =
      (read_conf (record { devices = []; devfile = devfile; conn_names = [] }, w)).1
