-- ===== src/Base/Bits.antt =====
-- Laws of `|` and `&` at variables, by recursion on the binary digits.
use Prim.Native.Nat.{
  ℕ, zero, suc, ◌+◌, ◌-◌, ◌*◌, ◌/◌, ◌%◌, ◌^◌, ◌≤◌, ◌<◌, min, max, bit_and, bit_or, digits,
  bit_and-bitwise, bit_or-bitwise,
}
use mathlib.Core.Path.{◌≡◌, refl, ap}
use native.Mathlib.Nat.{pow-suc, one-le-pow}
use native.Mathlib.Omega.{arith}

-- The digit recursion does not depend on its fuel, once that reaches the first number.
module _ (rest : ℕ → ℕ) (f : ℕ → ℕ → ℕ) where
  enough : (n m a b : ℕ) → a ≤ n → a ≤ m → digits rest f n a b ≡ digits rest f m a b
  enough zero zero a b p q = refl
  enough zero (suc m) zero b p q = refl
  enough zero (suc m) (suc a) b p q = absurd (omega arith)
  enough (suc n) zero zero b p q = refl
  enough (suc n) zero (suc a) b p q = absurd (omega arith)
  enough (suc n) (suc m) zero b p q = refl
  enough (suc n) (suc m) (suc a) b p q =
      omega (arith, enough n m (suc a / 2) (b / 2) (omega arith) (omega arith))

pub bit_or_low : (a b : ℕ) → bit_or a b ≡ bit_or (a / 2) (b / 2) * 2 + max (a % 2) (b % 2)
bit_or_low zero b = omega (arith, bit_or-bitwise 0 b, bit_or-bitwise 0 (b / 2))
bit_or_low (suc a) b = omega (
  arith,
  bit_or-bitwise (suc a) b,
  bit_or-bitwise (suc a / 2) (b / 2),
  enough (λ y. y) max a (suc a / 2) (suc a / 2) (b / 2) (omega arith) (omega arith),
)

pub bit_and_low : (a b : ℕ) → bit_and a b ≡ bit_and (a / 2) (b / 2) * 2 + min (a % 2) (b % 2)
bit_and_low zero b = omega (arith, bit_and-bitwise 0 b, bit_and-bitwise 0 (b / 2))
bit_and_low (suc a) b = omega (
  arith,
  bit_and-bitwise (suc a) b,
  bit_and-bitwise (suc a / 2) (b / 2),
  enough (λ y. 0) min a (suc a / 2) (suc a / 2) (b / 2) (omega arith) (omega arith),
)

bit_and-zero_below : (n a : ℕ) → a ≤ n → bit_and a 0 ≡ 0
bit_and-zero_below n zero h = bit_and-bitwise 0 0
bit_and-zero_below zero (suc a) h = absurd (omega arith)
bit_and-zero_below (suc n) (suc a) h =
    omega (arith, bit_and_low (suc a) 0, bit_and-zero_below n (suc a / 2) (omega arith))

pub bit_and-zero : (a : ℕ) → bit_and a 0 ≡ 0
bit_and-zero a = bit_and-zero_below a a (omega arith)

bit_or-zero_below : (n a : ℕ) → a ≤ n → bit_or a 0 ≡ a
bit_or-zero_below n zero h = bit_or-bitwise 0 0
bit_or-zero_below zero (suc a) h = absurd (omega arith)
bit_or-zero_below (suc n) (suc a) h =
    omega (arith, bit_or_low (suc a) 0, bit_or-zero_below n (suc a / 2) (omega arith))

pub bit_or-zero : (a : ℕ) → bit_or a 0 ≡ a
bit_or-zero a = bit_or-zero_below a a (omega arith)

pub zero-bit_or : (a : ℕ) → bit_or 0 a ≡ a
zero-bit_or a = bit_or-bitwise 0 a

twice_pow : (q k : ℕ) → q * 2 ^ suc k ≡ 2 * (q * 2 ^ k)
twice_pow q k = omega (arith, ap (λ (t : ℕ). q * t) (pow-suc 2 k))

-- A field below bit `k` beside the bits above: `|` is their sum.
pub bit_or_disjoint : (k q r : ℕ) → r < 2 ^ k → bit_or (q * 2 ^ k) r ≡ q * 2 ^ k + r
bit_or_disjoint zero q r h = ground (arith, bit_or-zero q)
bit_or_disjoint (suc k) q r h = ground (
  arith,
  bit_or_low (q * 2 ^ suc k) r,
  twice_pow q k,
  pow-suc 2 k,
  bit_or_disjoint k q (r / 2) (omega (arith, pow-suc 2 k)),
)

-- The same, with the field first.
pub disjoint-bit_or : (k q r : ℕ) → r < 2 ^ k → bit_or r (q * 2 ^ k) ≡ r + q * 2 ^ k
disjoint-bit_or zero q r h = ground (arith, zero-bit_or q)
disjoint-bit_or (suc k) q r h = ground (
  arith,
  bit_or_low r (q * 2 ^ suc k),
  twice_pow q k,
  pow-suc 2 k,
  disjoint-bit_or k q (r / 2) (omega (arith, pow-suc 2 k)),
)

bit_and_remainder : (k q r : ℕ) → r < 2 ^ k → bit_and (q * 2 ^ k + r) (2 ^ k - 1) ≡ r
bit_and_remainder zero q r h = ground (arith, bit_and-zero (q * 1 + r))
bit_and_remainder (suc k) q r h = ground (
  arith,
  bit_and_low (q * 2 ^ suc k + r) (2 ^ suc k - 1),
  twice_pow q k,
  pow-suc 2 k,
  one-le-pow k 2,
  bit_and_remainder k q (r / 2) (omega (arith, pow-suc 2 k)),
)

-- `&` with the `k` low bits.
pub bit_and_low_bits : (k a : ℕ) → bit_and a (2 ^ k - 1) ≡ a % 2 ^ k
bit_and_low_bits k a = ground (arith, one-le-pow k 2, bit_and_remainder k (a / 2 ^ k) (a % 2 ^ k))

bit_and_quotient :
    (k q r m : ℕ) → r < 2 ^ k → bit_and (q * 2 ^ k + r) (m * 2 ^ k) ≡ bit_and q m * 2 ^ k
bit_and_quotient zero q r m h = ground arith
bit_and_quotient (suc k) q r m h = ground (
  arith,
  bit_and_low (q * 2 ^ suc k + r) (m * 2 ^ suc k),
  twice_pow q k,
  twice_pow m k,
  twice_pow (bit_and q m) k,
  pow-suc 2 k,
  bit_and_quotient k q (r / 2) m (omega (arith, pow-suc 2 k)),
)

-- `&` with a mask whose `k` low bits are clear.
pub bit_and_high_bits : (k a m : ℕ) → bit_and a (m * 2 ^ k) ≡ bit_and (a / 2 ^ k) m * 2 ^ k
bit_and_high_bits k a m =
    ground (arith, one-le-pow k 2, bit_and_quotient k (a / 2 ^ k) (a % 2 ^ k) m)
