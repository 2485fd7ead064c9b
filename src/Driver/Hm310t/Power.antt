-- ===== src/Driver/Hm310t/Power.antt =====
-- Driver_serial_hm310t::read_pwr of server/drv_serial_hm310t.cpp: a value of two registers.
use native.Mathlib.Nat.{pow-succ'}
use device.Base.{ap, ℕ, zero, suc, ◌+◌, ◌*◌, ◌%◌, ◌^◌, ◌<◌, ◌≡◌, ◌↔◌, arith, ok}
use device.Driver.Hm310t.{shifted}

pow_sum : (n : ℕ) → 2 ^ (16 + n) ≡ 65536 * 2 ^ n
pow_sum zero = omega arith
pow_sum (suc n) =
    let e : 16 + suc n ≡ suc (16 + n) = omega arith in
    let f : 2 ^ (16 + suc n) ≡ 2 ^ suc (16 + n) = ap (λ k. 2 ^ k) e in
    omega (arith, pow_sum n, f, pow-succ' 2 n, pow-succ' 2 (16 + n))

high_only : (hi k : ℕ) → hi * (65536 * k) % 4294967296 ≡ 65536 * (hi * k % 65536)
high_only hi k = omega arith

-- The two words of a power are put together to hi * 65536 + lo, as they are meant to be, exactly if
-- the low word is 0: it is added to the count of the shift instead.
pub shifted_iff :
    (hi lo : ℕ) → hi < 65536 → lo < 65536 → (shifted hi lo ≡ ok (hi * 65536 + lo)) ↔ (lo ≡ 0)
unfolding shifted
shifted_iff hi lo p q = ground (arith, pow_sum lo, high_only hi (2 ^ lo))
