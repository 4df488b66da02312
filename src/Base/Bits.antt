-- ===== src/Base/Bits.antt =====
-- The operators `|` and `&` on numbers, as sums and remainders.
use Prim.Native.Nat.{
  ℕ, zero, suc, ◌+◌, ◌-◌, ◌*◌, ◌/◌, ◌%◌, ◌^◌, ◌≤◌, ◌<◌, min, max, digits, bit_and, bit_or,
  bit_and-bitwise, bit_or-bitwise,
}
use mathlib.Core.Path.{◌≡◌, refl, ap}
use native.Mathlib.Omega.{arith}
use native.Mathlib.Nat.{pow-suc, one-le-pow}

doubled : (q k : ℕ) → q * 2 ^ suc k ≡ 2 * (q * 2 ^ k)
doubled q k = omega (arith, ap (λ (t : ℕ). q * t) (pow-suc 2 k))

digits_or : (k n x q : ℕ) → x ≤ n → x < 2 ^ k → digits (λ y. y) max n x (q * 2 ^ k) ≡ x + q * 2 ^ k
digits_or k zero zero q le fits = omega arith
digits_or k zero (suc x) q le fits = absurd (omega arith)
digits_or k (suc n) zero q le fits = omega arith
digits_or zero (suc n) (suc x) q le fits = absurd (omega arith)
digits_or (suc k) (suc n) (suc x) q le fits = ground (
  arith,
  doubled q k,
  pow-suc 2 k,
  digits_or k n (suc x / 2) q (omega arith) (omega (arith, pow-suc 2 k)),
)

-- `x | q << k` is a sum where `x` has no digits from the k-th on.
pub bit_or_shifted : (k x q : ℕ) → x < 2 ^ k → bit_or x (q * 2 ^ k) ≡ x + q * 2 ^ k
bit_or_shifted k x q fits = simp bit_or-bitwise (digits_or k x x q (omega arith) fits)

digits_and_zero : (n x : ℕ) → digits (λ y. 0) min n x 0 ≡ 0
digits_and_zero zero x = refl
digits_and_zero (suc n) zero = refl
digits_and_zero (suc n) (suc x) = ground (arith, digits_and_zero n (suc x / 2))

half_mask : (k : ℕ) → (2 ^ suc k - 1) / 2 ≡ 2 ^ k - 1
half_mask k = omega (arith, pow-suc 2 k, one-le-pow k 2)

low_digit : (k : ℕ) → (2 ^ suc k - 1) % 2 ≡ 1
low_digit k = omega (arith, pow-suc 2 k, one-le-pow k 2)

digits_and :
    (k n x q r : ℕ)
    → x ≤ n
    → x ≡ q * 2 ^ k + r
    → r < 2 ^ k
    → digits (λ y. 0) min n x (2 ^ k - 1) ≡ r
digits_and zero n x q r le e fits = omega (arith, digits_and_zero n x)
digits_and (suc k) zero zero q r le e fits = omega (arith, pow-suc 2 k, one-le-pow k 2)
digits_and (suc k) zero (suc x) q r le e fits = absurd (omega arith)
digits_and (suc k) (suc n) zero q r le e fits = omega (arith, pow-suc 2 k, one-le-pow k 2)
digits_and (suc k) (suc n) (suc x) q r le e fits =
    let twice = doubled q k in
    let rest =
      digits_and k n (suc x / 2) q (r / 2) (omega arith) (omega (arith, twice, e))
        (omega (arith, pow-suc 2 k, fits)) in
    rw (half_mask k, low_digit k, rest) (ground (arith, twice, e))

-- `b & 0x7f` is a remainder.
pub bit_and_low : (b : ℕ) → bit_and b 0x7f ≡ b % 128
bit_and_low b =
    simp bit_and-bitwise
      (digits_and 7 b b (b / 128) (b % 128) (omega arith) (omega arith) (omega arith))
