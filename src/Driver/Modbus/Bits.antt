-- ===== src/Driver/Modbus/Bits.antt =====
-- Exclusive or of numbers, digit by digit, and of a two-byte number with a byte.
use Prim.Native.Nat.{bit_xor, digits, differ, bit_xor-bitwise}
use native.Mathlib.Nat.{pow-succ'}
use device.Base.{ℕ, zero, suc, ◌+◌, ◌*◌, ◌/◌, ◌%◌, ◌^◌, ◌≤◌, ◌<◌, ◌≡◌, refl, ap, arith}

abbrev xor_digits : ℕ → ℕ → ℕ → ℕ
xor_digits n a b = digits (λ b. b) differ n a b

xor_digits_fuel : (n m a b : ℕ) → a ≤ n → a ≤ m → xor_digits n a b ≡ xor_digits m a b
xor_digits_fuel zero zero a b p q = refl
xor_digits_fuel zero (suc m) zero b p q = refl
xor_digits_fuel zero (suc m) (suc a) b p q = absurd (omega arith)
xor_digits_fuel (suc n) zero zero b p q = refl
xor_digits_fuel (suc n) zero (suc a) b p q = absurd (omega arith)
xor_digits_fuel (suc n) (suc m) zero b p q = refl
xor_digits_fuel (suc n) (suc m) (suc a) b p q =
    omega (arith, xor_digits_fuel n m (suc a / 2) (b / 2) (omega arith) (omega arith))

pub zero-bit_xor : (b : ℕ) → bit_xor 0 b ≡ b
zero-bit_xor b = bit_xor-bitwise 0 b

pub bit_xor_step : (a b : ℕ) → bit_xor a b ≡ bit_xor (a / 2) (b / 2) * 2 + differ (a % 2) (b % 2)
bit_xor_step zero b = omega (arith, zero-bit_xor b, zero-bit_xor (b / 2))
bit_xor_step (suc a) b = omega (
  arith,
  bit_xor-bitwise (suc a) b,
  bit_xor-bitwise (suc a / 2) (b / 2),
  xor_digits_fuel a (suc a / 2) (suc a / 2) (b / 2) (omega arith) (omega arith),
)

differ_zero : (a : ℕ) → differ a 0 ≡ a
differ_zero zero = refl
differ_zero (suc a) = refl

differ_self : (a : ℕ) → differ a a ≡ 0
differ_self zero = refl
differ_self (suc a) = differ_self a

differ_lt : (a b : ℕ) → a < 2 → b < 2 → differ a b < 2
differ_lt zero b p q = q
differ_lt (suc a) zero p q = p
differ_lt (suc zero) (suc zero) p q = omega arith
differ_lt (suc zero) (suc (suc b)) p q = absurd (omega arith)
differ_lt (suc (suc a)) (suc b) p q = absurd (omega arith)

bit_xor-zero_fuel : (n a : ℕ) → a ≤ n → bit_xor a 0 ≡ a
bit_xor-zero_fuel n zero h = refl
bit_xor-zero_fuel zero (suc a) h = absurd (omega arith)
bit_xor-zero_fuel (suc n) (suc a) h = omega (
  arith,
  bit_xor_step (suc a) 0,
  bit_xor-zero_fuel n (suc a / 2) (omega arith),
  differ_zero (suc a % 2),
)

pub bit_xor-zero : (a : ℕ) → bit_xor a 0 ≡ a
bit_xor-zero a = bit_xor-zero_fuel a a (omega arith)

bit_xor-self_fuel : (n a : ℕ) → a ≤ n → bit_xor a a ≡ 0
bit_xor-self_fuel n zero h = refl
bit_xor-self_fuel zero (suc a) h = absurd (omega arith)
bit_xor-self_fuel (suc n) (suc a) h = omega (
  arith,
  bit_xor_step (suc a) (suc a),
  bit_xor-self_fuel n (suc a / 2) (omega arith),
  differ_self (suc a % 2),
)

pub bit_xor_self : (a : ℕ) → bit_xor a a ≡ 0
bit_xor_self a = bit_xor-self_fuel a a (omega arith)

pow_suc : (k : ℕ) → 2 ^ suc k ≡ 2 * 2 ^ k
pow_suc k = pow-succ' 2 k

-- Numbers of k bits have an exclusive or of k bits.
pub bit_xor-lt : (k a b : ℕ) → a < 2 ^ k → b < 2 ^ k → bit_xor a b < 2 ^ k
bit_xor-lt zero a b p q =
    let e : a ≡ 0 = omega arith in omega (arith, ap (λ t. bit_xor t b) e, zero-bit_xor b)
bit_xor-lt (suc k) a b p q = omega (
  arith,
  pow_suc k,
  bit_xor_step a b,
  differ_lt (a % 2) (b % 2) (omega arith) (omega arith),
  bit_xor-lt k (a / 2) (b / 2) (omega (arith, pow_suc k)) (omega (arith, pow_suc k)),
)

-- The bits above those of `b` stay.
pub bit_xor_high :
    (k h l b : ℕ) → l < 2 ^ k → b < 2 ^ k → bit_xor (h * 2 ^ k + l) b ≡ h * 2 ^ k + bit_xor l b
bit_xor_high zero h l b p q =
    let e : b ≡ 0 = omega arith in
    rw e (omega (arith, bit_xor-zero (h * 2 ^ 0 + l), bit_xor-zero l))
bit_xor_high (suc k) h l b p q =
    let a = h * 2 ^ suc k + l in
    let twice : h * 2 ^ suc k ≡ 2 * (h * 2 ^ k) = omega (arith, ap (λ t. h * t) (pow_suc k)) in
    let half : a / 2 ≡ h * 2 ^ k + l / 2 = omega (arith, twice) in
    let low : a % 2 ≡ l % 2 = omega (arith, twice) in
    omega (
      arith,
      twice,
      bit_xor_step a b,
      bit_xor_step l b,
      ap (λ t. bit_xor t (b / 2)) half,
      ap (λ t. differ t (b % 2)) low,
      bit_xor_high k h (l / 2) (b / 2) (omega (arith, pow_suc k)) (omega (arith, pow_suc k)),
    )
