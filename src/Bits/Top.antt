-- ===== src/Bits/Top.antt =====
-- Which bits a remainder and a number with a known top bit have.
use native.Mathlib.Nat.{pow-suc, div-eq_of_lt-le}
use tauos.Base.{ℕ, zero, suc, ◌-◌, ◌*◌, ◌/◌, ◌%◌, ◌^◌, ◌≤◌, ◌<◌, ◌≡◌, bit_and, arith}
use tauos.Bits.{modulus, not64, ◌<<◌}
use tauos.Bits.Pow.{pow-pos}
use tauos.Bits.Digits.{test_bit, pow-le}
use tauos.Bits.Masks.{mod_half, and_low, test_bit-eq-div}

-- The remainder by a power keeps the bits below it.
pub test_bit-mod : (g a i : ℕ) → i < g → test_bit (a % 2 ^ g) i ≡ test_bit a i
unfolding test_bit
test_bit-mod zero a i l = elim l [ ]
test_bit-mod (suc g) a zero l = omega (arith, mod_half g a)
test_bit-mod (suc g) a (suc i) l =
    let e : a % 2 ^ suc g / 2 ≡ a / 2 % 2 ^ g = omega (arith, mod_half g a) in
    rw e (test_bit-mod g (a / 2) i (omega arith))

pub test_bit-top : (h n : ℕ) → 2 ^ h ≤ n → n < 2 ^ suc h → test_bit n h ≡ 1
test_bit-top h n lo hi =
    let e : n / 2 ^ h ≡ 1 = div-eq_of_lt-le (2 ^ h) (omega arith) (omega (arith, pow-suc 2 h)) in
    rw (test_bit-eq-div, e)

shift-ones : (g : ℕ) → g < 64 → (modulus - 1) * 2 ^ g % modulus ≡ modulus - 2 ^ g
shift-ones g l =
    let small : 2 ^ g ≤ modulus = pow-le g 64 (omega arith) in
    let some_bit : 1 ≤ 2 ^ g = pow-pos g in omega (arith, small, some_bit)

-- `a & !(usize::MAX << g)`
pub and-below : (g a : ℕ) → g < 64 → bit_and a (not64 (modulus - 1 << g)) ≡ a % 2 ^ g
and-below g a l =
    let s : g % 64 ≡ g = omega arith in
    let shifted : (modulus - 1 << g) ≡ modulus - 2 ^ g = rw s (shift-ones g l) in
    let mask : not64 (modulus - 2 ^ g) ≡ 2 ^ g - 1 =
      omega (arith, pow-le g 64 (omega arith), pow-pos g) in
    rw (shifted, mask) (and_low g a)
