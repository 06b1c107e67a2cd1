-- ===== src/Base/Bits.antt =====
-- `&` with a low mask and `|` of disjoint fields as arithmetic, at every width.
use Prim.Native.Nat.{digits, bit_and-bitwise, bit_or-bitwise, bitwise}
use Prim.Native.Nat.{
  ℕ, zero, suc, ◌+◌, ◌-◌, ◌*◌, ◌/◌, ◌%◌, ◌^◌, ◌≤◌, ◌<◌, min, max, bit_and, bit_or,
}
use mathlib.Core.Path.{◌≡◌, refl, ap, ◌∙◌}
use native.Mathlib.Omega.{arith}
use native.Mathlib.Nat.{
  pow-suc, one-le-pow, add-mul-mod_self_left, mod-eq_of_lt, mod-lt, div-add-mod,
}

-- More fuel than the first argument changes nothing.
module _ (base : ℕ → ℕ) (op : ℕ → ℕ → ℕ) where
  digits_enough : (n m a b : ℕ) → a ≤ n → a ≤ m → digits base op n a b ≡ digits base op m a b
  digits_enough zero zero a b p q = refl
  digits_enough zero (suc m) zero b p q = refl
  digits_enough zero (suc m) (suc a) b p q = absurd (omega arith)
  digits_enough (suc n) zero zero b p q = refl
  digits_enough (suc n) zero (suc a) b p q = absurd (omega arith)
  digits_enough (suc n) (suc m) zero b p q = refl
  digits_enough (suc n) (suc m) (suc a) b p q =
      omega (arith, digits_enough n m (suc a / 2) (b / 2) (omega arith) (omega arith))

  lowest_digit :
      (a b : ℕ)
      → bitwise base op (suc a) b ≡ bitwise base op (suc a / 2) (b / 2) * 2 + op (suc a % 2) (b % 2)
  lowest_digit a b =
      omega (arith, digits_enough a (suc a / 2) (suc a / 2) (b / 2) (omega arith) (omega arith))

pub bit_and_step : (a b : ℕ) → bit_and a b ≡ bit_and (a / 2) (b / 2) * 2 + min (a % 2) (b % 2)
bit_and_step zero b = omega (arith, bit_and-bitwise 0 b, bit_and-bitwise 0 (b / 2))
bit_and_step (suc a) b = simp bit_and-bitwise (lowest_digit (λ y. 0) min a b)

pub bit_or_step : (a b : ℕ) → bit_or a b ≡ bit_or (a / 2) (b / 2) * 2 + max (a % 2) (b % 2)
bit_or_step zero b = omega (arith, bit_or-bitwise 0 b, bit_or-bitwise 0 (b / 2))
bit_or_step (suc a) b = simp bit_or-bitwise (lowest_digit (λ y. y) max a b)

bit_and-zero_below : (n a : ℕ) → a ≤ n → bit_and a 0 ≡ 0
bit_and-zero_below n zero h = refl
bit_and-zero_below zero (suc a) h = absurd (omega arith)
bit_and-zero_below (suc n) (suc a) h =
    omega (arith, bit_and_step (suc a) 0, bit_and-zero_below n (suc a / 2) (omega arith))

pub zero-bit_or : (b : ℕ) → bit_or 0 b ≡ b
zero-bit_or b = bit_or-bitwise 0 b

double_pow : (b k : ℕ) → b * 2 ^ suc k ≡ 2 * (b * 2 ^ k)
double_pow b k = omega (arith, ap (λ (t : ℕ). b * t) (pow-suc 2 k))

-- The lowest digit of a remainder by an even number.
mod_double : (m a : ℕ) → 0 < m → a % (2 * m) ≡ a / 2 % m * 2 + a % 2
mod_double m a h =
    ap (λ t. t % (2 * m)) whole
    ∙ add-mul-mod_self_left (a / 2 % m * 2 + a % 2) (2 * m) (a / 2 / m)
    ∙ mod-eq_of_lt (omega (arith, mod-lt (a / 2) h))
  where
    whole : a ≡ a / 2 % m * 2 + a % 2 + 2 * m * (a / 2 / m)
    whole = omega (arith, div-add-mod (a / 2) m)

-- `a & (2^k - 1)` is the remainder by `2^k`.
pub bit_and_low : (k a : ℕ) → bit_and a (2 ^ k - 1) ≡ a % 2 ^ k
bit_and_low zero a = omega (arith, bit_and-zero_below a a (omega arith))
bit_and_low (suc k) a =
    rw (pow-suc 2 k, double)
      (bit_and_step a (2 * 2 ^ k - 1)
        ∙ rw (halved, odd, bit_and_low k (a / 2), mod_double (2 ^ k) a positive) (omega arith))
  where
    positive : 0 < 2 ^ k
    positive = one-le-pow k 2 (omega arith)

    double : 2 ^ k * 2 ≡ 2 * 2 ^ k
    double = omega arith

    halved : (2 * 2 ^ k - 1) / 2 ≡ 2 ^ k - 1
    halved = omega (arith, positive)

    odd : (2 * 2 ^ k - 1) % 2 ≡ 1
    odd = omega (arith, positive)

-- `a | (b << k)` is a sum when `a` fits in `k` bits.
pub bit_or_high : (k a b : ℕ) → a < 2 ^ k → bit_or a (b * 2 ^ k) ≡ a + b * 2 ^ k
bit_or_high zero a b h =
    let none_left : a ≡ 0 = omega arith in rw none_left (omega (arith, zero-bit_or (b * 2 ^ 0)))
bit_or_high (suc k) a b h = rw (double_pow b k) (
    bit_or_step a (2 * (b * 2 ^ k))
    ∙ rw (halved, even, bit_or_high k (a / 2) b (omega (arith, pow-suc 2 k))) (omega arith))
  where
    halved : 2 * (b * 2 ^ k) / 2 ≡ b * 2 ^ k
    halved = omega arith

    even : 2 * (b * 2 ^ k) % 2 ≡ 0
    even = omega arith
