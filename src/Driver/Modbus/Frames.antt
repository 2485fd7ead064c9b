-- ===== src/Driver/Modbus/Frames.antt =====
-- Driver_serial_hm310t::modbus_func3 and modbus_func6: requests, answers and errors.
use device.Base.{ℕ, ◌+◌, ◌*◌, ◌/◌, ◌%◌, ◌<◌, ◌≡◌, ◌↔◌, arith, [], ◌∷◌, Bytes, ok, beq_iff}
use device.Driver.Modbus.{
  with_crc, modbus_crc, Port, request, func3_response, func6_response, modbus_func3,
}
use device.Driver.Modbus.Crc.{IsBytes, modbus_crc_residue}

-- A request to read or to write is eight bytes, which hold the address and the value high byte first,
-- and its checksum is right.
pub request_lem :
    (fcode addr val : ℕ)
    → fcode < 256
    → addr < 65536
    → val < 65536
    → IsBytes (request fcode addr val) × (modbus_crc (request fcode addr val) ≡ 0)
request_lem fcode addr val p q r = (bytes, (modbus_crc_residue body body-IsBytes).1)
  where
    body : Bytes
    body = 1 ∷ fcode ∷ addr / 256 ∷ addr % 256 ∷ val / 256 ∷ val % 256 ∷ []

    body-IsBytes : IsBytes body
    body-IsBytes = omega arith

    bytes : IsBytes (request fcode addr val)
    bytes =
        let small = (modbus_crc_residue body body-IsBytes).0 in
        unfold with_crc in omega (arith, small)

module _ {World : Type 0} (port : Port World) (errpref : Bytes) where
  -- Reading a register: the value comes back exactly as the device sent it, high byte first, if its
  -- answer has the form of one; the two checksum bytes of the answer are not looked at.
  pub modbus_func3_value :
      (addr value slave c1 c2 : ℕ) (w w' w'' : World)
      → port.write (request 3 addr 1) w ≡ (ok tt, w')
      → port.read w' ≡ (ok (slave ∷ 3 ∷ 2 ∷ value / 256 ∷ value % 256 ∷ c1 ∷ c2 ∷ []), w'')
      → modbus_func3 port errpref addr w ≡ (ok value, w'')
  unfolding modbus_func3 func3_response
  modbus_func3_value addr value slave c1 c2 w w' w'' p q =
      let e : value / 256 * 256 + value % 256 ≡ value = omega arith in rw (p, q, e)

  -- Whatever is read, a value is returned only for an answer of seven bytes with the function code 3
  -- and the count 2, and the value is then its two bytes.
  pub func3_response_ok :
      (res : Bytes) (v : ℕ)
      → func3_response errpref port.show res ≡ ok v
      → (slave hi lo c1 c2 : ℕ) × (res ≡ slave ∷ 3 ∷ 2 ∷ hi ∷ lo ∷ c1 ∷ c2 ∷ [])
        × (v ≡ hi * 256 + lo)
  unfolding func3_response
  func3_response_ok (slave ∷ fc ∷ count ∷ hi ∷ lo ∷ c1 ∷ c2 ∷ []) v h =
      (slave, hi, lo, c1, c2, ground arith, ground arith)
  func3_response_ok _ v h = absurd (ground arith)

  -- Writing a register succeeds exactly when the device answers with an echo of the request.
  pub func6_response_ok :
      (addr val : ℕ) (res : Bytes)
      → (func6_response errpref port.show (request 6 addr val) res ≡ ok tt)
        ↔ (res ≡ request 6 addr val)
  unfolding func6_response with_crc
  func6_response_ok addr val [] = (λ h. absurd (cc), λ e. absurd (cc))
  func6_response_ok addr val (slave ∷ []) = (λ h. absurd (cc), λ e. absurd (cc))
  func6_response_ok addr val (slave ∷ fc ∷ rest) = (
    λ h. ground (arith, beq_iff (slave ∷ fc ∷ rest) (request 6 addr val)),
    λ e. ground (arith, beq_iff (slave ∷ fc ∷ rest) (request 6 addr val)),
  )
