-- ===== src/Driver/Modbus/Crc.antt =====
-- Driver_serial_hm310t::modbus_crc: the checksum has sixteen bits, and a message followed by its
-- checksum has the checksum 0, which is how a Modbus receiver checks it.
use Prim.Native.Nat.{bit_xor}
use native.Mathlib.Nat.{pow-succ'}
use device.Base.{
  ℕ, zero, suc, ◌+◌, ◌*◌, ◌/◌, ◌%◌, ◌^◌, ◌<◌, ◌≡◌, refl, ap, ◌∙◌, arith, [], ◌∷◌, ◌++◌, Bytes, All,
}
use device.Driver.Modbus.{crc_bit, crc_bits, crc_loop, modbus_crc, with_crc}
use device.Driver.Modbus.Bits.{bit_xor-zero, bit_xor_self, bit_xor-lt, bit_xor_high}

abbrev pub IsBytes : Bytes → Type 0
IsBytes = All (λ b. b < 256)

crc_bit-lt : (c : ℕ) → c < 65536 → crc_bit c < 65536
unfolding crc_bit
crc_bit-lt c h = ground (
  arith,
  bit_xor-lt 16 (c / 2) 0xA001 (omega arith) (omega arith),
  bit_xor-lt 16 (c / 2) 0 (omega arith) (omega arith),
)

crc_bits-lt : (n c : ℕ) → c < 65536 → crc_bits n c < 65536
unfolding crc_bits
crc_bits-lt zero c h = h
crc_bits-lt (suc n) c h = crc_bits-lt n (crc_bit c) (crc_bit-lt c h)

crc_loop-lt : (c : ℕ) (buf : Bytes) → c < 65536 → IsBytes buf → crc_loop c buf < 65536
unfolding crc_loop
crc_loop-lt c [] h k = h
crc_loop-lt c (b ∷ buf) h k =
    crc_loop-lt (crc_bits 8 (bit_xor c b)) buf
      (crc_bits-lt 8 (bit_xor c b) (bit_xor-lt 16 c b h (omega arith))) k.1

crc_loop-append : (c : ℕ) (s t : Bytes) → crc_loop c (s ++ t) ≡ crc_loop (crc_loop c s) t
unfolding crc_loop
crc_loop-append c [] t = refl
crc_loop-append c (b ∷ s) t = crc_loop-append (crc_bits 8 (bit_xor c b)) s t

-- An even number is shifted only.
crc_bit_even : (h : ℕ) → crc_bit (2 * h) ≡ h
unfolding crc_bit
crc_bit_even h = ground (arith, bit_xor-zero (2 * h / 2))

-- n rounds shift n zero bits out.
crc_bits_shift : (n h : ℕ) → crc_bits n (2 ^ n * h) ≡ h
unfolding crc_bits
crc_bits_shift zero h = omega arith
crc_bits_shift (suc n) h =
    let e : 2 ^ suc n * h ≡ 2 * (2 ^ n * h) = omega (arith, ap (λ t. t * h) (pow-succ' 2 n)) in
    ap (λ t. crc_bits n (crc_bit t)) e
    ∙ ap (crc_bits n) (crc_bit_even (2 ^ n * h))
    ∙ crc_bits_shift n h

crc_loop_two :
    (c a b : ℕ) → crc_loop c (a ∷ b ∷ []) ≡ crc_bits 8 (bit_xor (crc_bits 8 (bit_xor c a)) b)
unfolding crc_loop
crc_loop_two c a b = refl

-- The checksum's own two bytes cancel it.
crc_loop_own : (c : ℕ) → c < 65536 → crc_loop c (c % 256 ∷ c / 256 ∷ []) ≡ 0
crc_loop_own c h =
    let high = c / 256 in
    let split : c ≡ high * 2 ^ 8 + c % 256 = omega arith in
    let first : bit_xor c (c % 256) ≡ 2 ^ 8 * high =
      ap (λ t. bit_xor t (c % 256)) split
      ∙ omega (
        arith,
        bit_xor_high 8 high (c % 256) (c % 256) (omega arith) (omega arith),
        bit_xor_self (c % 256),
      ) in
    crc_loop_two c (c % 256) high
    ∙ ap (λ t. crc_bits 8 (bit_xor (crc_bits 8 t) high)) first
    ∙ ap (λ t. crc_bits 8 (bit_xor t high)) (crc_bits_shift 8 high)
    ∙ ap (crc_bits 8) (bit_xor_self high)
    ∙ crc_bits_shift 8 0

-- The checksum of any bytes fits sixteen bits, and the message with its checksum behind it, low byte
-- first, has the checksum 0.
pub modbus_crc_residue :
    (msg : Bytes) → IsBytes msg → (modbus_crc msg < 65536) × (modbus_crc (with_crc msg) ≡ 0)
unfolding modbus_crc with_crc
modbus_crc_residue msg h =
    let small = crc_loop-lt 0xFFFF msg (omega arith) h in
    (small, crc_loop-append 0xFFFF msg _ ∙ crc_loop_own (crc_loop 0xFFFF msg) small)
