-- ===== src/Driver/Modbus.antt =====
-- server/drv_serial_hm310t.h and server/drv_serial_hm310t.cpp: Modbus RTU over the serial driver.
-- The serial driver's write and read are the argument `port`; text of numbers is `show`.
pub mod Bits
pub mod Crc
pub mod Frames
use Prim.Native.Nat.{bit_xor}
use device.Base.{
  ℕ, zero, suc, ◌+◌, ◌-◌, ◌*◌, ◌/◌, ◌%◌, not, [], ◌∷◌, ◌++◌, ltb, ◌==◌, length, if◌then◌else◌,
  Bytes, text, beq, Result, ok, err, Exec, continue, ◌>>=◌, ◌>>◌,
}

-- One round of the inner loop: x = crc & 1; crc >>= 1; crc ^= table[x].
unfoldable pub crc_bit : ℕ → ℕ
crc_bit crc = bit_xor (crc / 2) (if crc % 2 == 0 then 0x0000 else 0xA001)

-- The inner loop, with `n` rounds left.
unfoldable pub crc_bits : ℕ → ℕ → ℕ
unfolding crc_bit
crc_bits zero crc = crc
crc_bits (suc n) crc = crc_bits n (crc_bit crc)

-- The outer loop over the buffer.
unfoldable pub crc_loop : ℕ → Bytes → ℕ
unfolding crc_bits
crc_loop crc [] = crc
crc_loop crc (b ∷ buf) = crc_loop (crc_bits 8 (bit_xor crc b)) buf

unfoldable pub modbus_crc : Bytes → ℕ
unfolding crc_loop
modbus_crc buf = crc_loop 0xFFFF buf

-- A message of eight bytes: the six first, then the low and the high byte of their checksum.
unfoldable pub with_crc : Bytes → Bytes
unfolding modbus_crc
with_crc msg = msg ++ (modbus_crc msg % 256) ∷ (modbus_crc msg / 256) ∷ []

-- The serial driver that the power supply driver is built on, and the text of a number.
pub record Port (World : Type 0) : Type 0 where
  pub write : Bytes → World → Result (Unit {0}) × World
  pub read : World → Result Bytes × World
  pub show : ℕ → Bytes

-- (int)c of a signed char
abbrev pub show_char : (ℕ → Bytes) → ℕ → Bytes
show_char show c = if ltb c 128 then show c else b'-' ∷ show (256 - c)

module _ (errpref : Bytes) (show : ℕ → Bytes) where
  -- The text that both functions have put into the error by then.
  abbrev modbus_error : ℕ → Bytes
  modbus_error fc = errpref ++ (text "modbus error: function code: " ++ (show fc ++ text ": "))

  -- The texts of the four exception codes: they differ at code 2.
  exception_text : ℕ → ℕ → Bytes
  exception_text fcode code =
      if code == 1
      then text " (unsupported function code)"
      else if code == 2
      then (if fcode == 3 then text " (wrong address)" else text " (wrong value)")
      else if code == 3
      then text " (wrong count)"
      else if code == 4
      then text " (error during request processing)"
      else text " (unknown exception code)"

  -- if (fc == 0x80 + fcode): an error response
  unfoldable pub modbus_exception : ℕ → Bytes → Bytes
  unfolding exception_text
  modbus_exception fcode (slave ∷ fc ∷ code ∷ c1 ∷ c2 ∷ []) =
      modbus_error fc
      ++ (text "exception code: " ++ (show_char show code ++ exception_text fcode code))
  modbus_exception fcode res =
      modbus_error (0x80 + fcode)
      ++ (text "can't parse error response, wrong length: " ++ show (length res))

  -- The last two checks, and the value.
  unfoldable pub func3_data : ℕ → Bytes → Result ℕ
  func3_data fc (count ∷ hi ∷ lo ∷ c1 ∷ c2 ∷ []) =
      if not (count == 2)
      then err (modbus_error fc ++ text "unexpected response count")
      else ok (hi * 256 + lo)
  func3_data fc rest = err (modbus_error fc ++ text "unexpected response length")

  -- What modbus_func3 makes of the response.
  unfoldable pub func3_response : Bytes → Result ℕ
  unfolding modbus_exception func3_data
  func3_response (slave ∷ fc ∷ rest) =
      if fc == 0x83
      then err (modbus_exception 3 (slave ∷ fc ∷ rest))
      else if not (fc == 3)
      then err (modbus_error fc ++ text "unknown function code")
      else func3_data fc rest
  func3_response res = err (errpref ++ text "short response")

  -- What modbus_func6 makes of the response to `msg`.
  unfoldable pub func6_response : Bytes → Bytes → Result (Unit {0})
  unfolding modbus_exception
  func6_response msg (slave ∷ fc ∷ rest) =
      if fc == 0x86
      then err (modbus_exception 6 (slave ∷ fc ∷ rest))
      else if not (fc == 6)
      then err (modbus_error fc ++ text "unknown function code")
      else if not (beq (slave ∷ fc ∷ rest) msg)
      then err (modbus_error fc ++ text "unexpected response")
      else ok tt
  func6_response msg res = err (errpref ++ text "short response")

-- The request of either function, to the device with the address 1; reading has the count 1 for
-- its value.
abbrev pub request : ℕ → ℕ → ℕ → Bytes
request fcode addr val = with_crc (1 ∷ fcode ∷ addr / 256 ∷ addr % 256 ∷ val / 256 ∷ val % 256 ∷ [])

module _ {World : Type 0} (port : Port World) (errpref : Bytes) where
  lifted : {A : Type 0} → Result A → Exec World A
  lifted r w = (r, w)

  unfoldable pub modbus_func3 : ℕ → Exec World ℕ
  unfolding lifted
  modbus_func3 addr = do
    port.write (request 3 addr 1)
    res ← port.read
    lifted (func3_response errpref port.show res)

  unfoldable pub modbus_func6 : ℕ → ℕ → Exec World (Unit {0})
  unfolding lifted
  modbus_func6 addr val = do
    port.write (request 6 addr val)
    res ← port.read
    lifted (func6_response errpref port.show (request 6 addr val) res)
