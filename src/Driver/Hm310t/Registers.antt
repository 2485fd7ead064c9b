-- ===== src/Driver/Hm310t/Registers.antt =====
-- Driver_serial_hm310t::ask and write of server/drv_serial_hm310t.cpp: queries, registers and commands.
use device.Base.{
  ℕ, ◌+◌, ◌*◌, ◌/◌, ◌%◌, ◌<◌, ◌≡◌, ◌≢◌, refl, arith, List, [], ◌∷◌, length, if◌then◌else◌, Bytes,
  text, beq, Bool, Exec, ok, true, false,
}
use device.Driver.Modbus.{Port, request}
use device.Driver.Modbus.Frames.{modbus_func3_value}
use device.Driver.Hm310t.{
  Values, Supply, decimals, func3, read_dpt, with_argument, command, status_text,
}

-- The queries that read one register and change nothing.
pub data Query : Type 0 where
  output status_raw status_flags specification tail points_raw address : Query
  volt_measured volt_set volt_limit curr_measured curr_set curr_limit : Query

abbrev pub query_text : Query → Bytes
query_text output = text "out?"
query_text status_raw = text "stat:raw?"
query_text status_flags = text "stat?"
query_text specification = text "spec:raw?"
query_text tail = text "tail:raw?"
query_text points_raw = text "dpt:raw?"
query_text address = text "addr?"
query_text volt_measured = text "volt:meas?"
query_text volt_set = text "volt?"
query_text volt_limit = text "ovp?"
query_text curr_measured = text "curr:meas?"
query_text curr_set = text "curr?"
query_text curr_limit = text "ocp?"

abbrev pub query_register : Query → ℕ
query_register output = 0x01
query_register status_raw = 0x02
query_register status_flags = 0x02
query_register specification = 0x03
query_register tail = 0x04
query_register points_raw = 0x05
query_register address = 0x9999
query_register volt_measured = 0x10
query_register volt_set = 0x30
query_register volt_limit = 0x20
query_register curr_measured = 0x11
query_register curr_set = 0x31
query_register curr_limit = 0x21

-- The answer for the value of the register: voltages and currents have their decimals, stat? has
-- the names of the flags that are set.
abbrev pub query_answer : Values → Query → Supply → ℕ → Bytes
query_answer vals volt_measured d v = vals.show_scaled d.ve v
query_answer vals volt_set d v = vals.show_scaled d.ve v
query_answer vals volt_limit d v = vals.show_scaled d.ve v
query_answer vals curr_measured d v = vals.show_scaled d.ie v
query_answer vals curr_set d v = vals.show_scaled d.ie v
query_answer vals curr_limit d v = vals.show_scaled d.ie v
query_answer vals status_flags d v = status_text v
query_answer vals _ d v = vals.show v

module _ {World : Type 0} (port : Port World) (vals : Values) (errpref idn : Bytes) where
  module _ (addr value slave c1 c2 : ℕ) (d : Supply) (w w' w'' : World)
      (sent : port.write (request 3 addr 1) w ≡ (ok tt, w'))
      (got : port.read w'
        ≡ (ok (slave ∷ 3 ∷ 2 ∷ value / 256 ∷ value % 256 ∷ c1 ∷ c2 ∷ []), w'')) where
    func3_value : func3 port vals errpref idn addr (d, w) ≡ (ok value, (d, w''))
    unfolding func3
    func3_value = rw (modbus_func3_value port errpref addr value slave c1 c2 w w' w'' sent got)

  -- The precisions are each below 16, and together they are the lowest twelve bits of the register,
  -- whatever they were before.
  pub read_dpt_lem :
      (value slave c1 c2 : ℕ) (d : Supply) (w w' w'' : World)
      → port.write (request 3 0x05 1) w ≡ (ok tt, w')
      → port.read w' ≡ (ok (slave ∷ 3 ∷ 2 ∷ value / 256 ∷ value % 256 ∷ c1 ∷ c2 ∷ []), w'')
      → (p : Supply) × (read_dpt port vals errpref idn (d, w) ≡ (ok tt, (p, w'')))
        × (p.ve < 16)
        × (p.ie < 16)
        × (p.pe < 16)
        × (p.ve * 256 + p.ie * 16 + p.pe ≡ value % 4096)
  unfolding read_dpt decimals
  read_dpt_lem v slave c1 c2 d w w' w'' a b = (
    decimals v,
    rw (func3_value 0x05 v slave c1 c2 d w w' w'' a b),
    omega arith,
    omega arith,
    omega arith,
    omega arith,
  )

  -- What a method throws before it has touched the device.
  abbrev Refused : Supply × World → Exec (Supply × World) (Unit {0}) → Type 0
  Refused s f = ((f s).1 ≡ s) × ((f s).0 ≢ ok tt)

  with_argument-Refused :
      (msg : Bytes) (args : List Bytes) (f : Bytes → Exec (Supply × World) (Unit {0}))
      (s : Supply × World)
      → length args ≢ 1
      → Refused s (with_argument port vals errpref idn msg args f)
  with_argument-Refused msg [] f s h = (refl, λ e. cc)
  with_argument-Refused msg (a ∷ []) f s h = absurd (h (omega arith))
  with_argument-Refused msg (a ∷ b ∷ args) f s h = (refl, λ e. cc)

  either-Refused :
      (b : Bool) (f g : Exec (Supply × World) (Unit {0})) (s : Supply × World)
      → Refused s f
      → Refused s g
      → Refused s (if b then f else g)
  either-Refused true f g s p q = p
  either-Refused false f g s p q = q

  -- A command whose word does not have exactly one argument is refused, whatever the word is; nothing
  -- is sent to the device and nothing changes.
  pub command_refused :
      (msg name : Bytes) (args : List Bytes) (s : Supply × World)
      → length args ≢ 1
      → ((command port vals errpref idn msg (name ∷ args) s).1 ≡ s)
        × ((command port vals errpref idn msg (name ∷ args) s).0 ≢ ok tt)
  unfolding command
  command_refused msg name args s h = either-Refused (beq name (text "out")) _ _ s (no _) (
      either-Refused (beq name (text "volt")) _ _ s (no _) (
        either-Refused (beq name (text "curr")) _ _ s (no _) (
          either-Refused (beq name (text "ovp")) _ _ s (no _) (
            either-Refused (beq name (text "ocp")) _ _ s (no _)
              (either-Refused (beq name (text "opp")) _ _ s (no _) (refl, λ e. cc))))))
    where
      no :
          (f : Bytes → Exec (Supply × World) (Unit {0}))
          → Refused s (with_argument port vals errpref idn msg args f)
      no f = with_argument-Refused msg args f s h
