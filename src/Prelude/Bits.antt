-- ===== src/Prelude/Bits.antt =====
-- `&`, `|` and `<<` on numbers of any width, as arithmetic.
use Prim.Native.Nat.{ℕ, zero, suc, ◌+◌, ◌-◌, ◌*◌, ◌/◌, ◌%◌, ◌^◌, ◌≤◌, ◌<◌, min, max}
use Prim.Native.Nat.{bit_and, bit_or, digits, bit_and-bitwise, bit_or-bitwise}
use mathlib.Core.Path.{◌≡◌, refl, ap}
use native.Mathlib.Nat.{pow-suc, one-le-pow}
use native.Mathlib.Omega.{arith}

-- The library's operation is a recursion on fuel; more fuel than the number changes nothing.
module _ (z : ℕ → ℕ) (f : ℕ → ℕ → ℕ) where
  digits_enough : (n m a b : ℕ) → a ≤ n → a ≤ m → digits z f n a b ≡ digits z f m a b
  digits_enough zero zero a b p q = refl
  digits_enough zero (suc m) zero b p q = refl
  digits_enough zero (suc m) (suc a) b p q = absurd (omega arith)
  digits_enough (suc n) zero zero b p q = refl
  digits_enough (suc n) zero (suc a) b p q = absurd (omega arith)
  digits_enough (suc n) (suc m) zero b p q = refl
  digits_enough (suc n) (suc m) (suc a) b p q =
      omega (arith, digits_enough n m (suc a / 2) (b / 2) (omega arith) (omega arith))

pub bit_and_step : (a b : ℕ) → bit_and a b ≡ bit_and (a / 2) (b / 2) * 2 + min (a % 2) (b % 2)
bit_and_step zero b = omega (arith, bit_and-bitwise 0 b, bit_and-bitwise 0 (b / 2))
bit_and_step (suc a) b = omega (
  arith,
  bit_and-bitwise (suc a) b,
  bit_and-bitwise (suc a / 2) (b / 2),
  digits_enough (λ y. zero) min a (suc a / 2) (suc a / 2) (b / 2) (omega arith) (omega arith),
)

pub bit_or_step : (a b : ℕ) → bit_or a b ≡ bit_or (a / 2) (b / 2) * 2 + max (a % 2) (b % 2)
bit_or_step zero b = omega (arith, bit_or-bitwise 0 b, bit_or-bitwise 0 (b / 2))
bit_or_step (suc a) b = omega (
  arith,
  bit_or-bitwise (suc a) b,
  bit_or-bitwise (suc a / 2) (b / 2),
  digits_enough (λ y. y) max a (suc a / 2) (suc a / 2) (b / 2) (omega arith) (omega arith),
)

zero_right_fuel : (n a : ℕ) → a ≤ n → (bit_and a 0 ≡ 0) × (bit_or a 0 ≡ a)
zero_right_fuel n zero h = (refl, refl)
zero_right_fuel zero (suc a) h = absurd (omega arith)
zero_right_fuel (suc n) (suc a) h = omega (
  arith,
  bit_and_step (suc a) 0,
  bit_or_step (suc a) 0,
  zero_right_fuel n (suc a / 2) (omega arith),
)

pub bit_and-zero : (a : ℕ) → bit_and a 0 ≡ 0
bit_and-zero a = (zero_right_fuel a a (omega arith)).0

pub bit_or-zero : (a : ℕ) → bit_or a 0 ≡ a
bit_or-zero a = (zero_right_fuel a a (omega arith)).1

-- Doubling the unit of a field doubles the field.
field_suc : (q k : ℕ) → q * 2 ^ suc k ≡ 2 * (q * 2 ^ k)
field_suc q k = omega (arith, ap (λ (t : ℕ). q * t) (pow-suc 2 k))

bit_and-low : (k q r : ℕ) → r < 2 ^ k → bit_and (q * 2 ^ k + r) (2 ^ k - 1) ≡ r
bit_and-low zero q r h = rw bit_and-zero (omega arith)
bit_and-low (suc k) q r h = ground (
  arith,
  bit_and_step (q * 2 ^ suc k + r) (2 ^ suc k - 1),
  field_suc q k,
  pow-suc 2 k,
  bit_and-low k q (r / 2) (omega (arith, pow-suc 2 k)),
)

zero-bit_or : (a : ℕ) → bit_or 0 a ≡ a
zero-bit_or a = bit_or-bitwise 0 a

-- A mask of `k` low bits is a remainder.
pub bit_and_mask : (k a : ℕ) → bit_and a (2 ^ k - 1) ≡ a % 2 ^ k
bit_and_mask k a = ground (arith, one-le-pow k 2, bit_and-low k (a / 2 ^ k) (a % 2 ^ k))

-- A number that fits the mask stays.
pub bit_and_fits : (k a : ℕ) → a < 2 ^ k → bit_and a (2 ^ k - 1) ≡ a
bit_and_fits k a h = ground (arith, one-le-pow k 2, bit_and-low k 0 a)

bit_and-flag_field : (k q r : ℕ) → r < 2 ^ k → bit_and (q * 2 ^ k + r) (2 ^ k) ≡ q % 2 * 2 ^ k
bit_and-flag_field zero q r h =
    omega (arith, bit_and_step (q * 2 ^ 0 + r) 1, bit_and-zero ((q * 2 ^ 0 + r) / 2))
bit_and-flag_field (suc k) q r h = ground (
  arith,
  bit_and_step (q * 2 ^ suc k + r) (2 ^ suc k),
  field_suc q k,
  field_suc (q % 2) k,
  pow-suc 2 k,
  bit_and-flag_field k q (r / 2) (omega (arith, pow-suc 2 k)),
)

-- A single bit, still at its place.
pub bit_and_flag : (k a : ℕ) → bit_and a (2 ^ k) ≡ a / 2 ^ k % 2 * 2 ^ k
bit_and_flag k a = ground (arith, one-le-pow k 2, bit_and-flag_field k (a / 2 ^ k) (a % 2 ^ k))

-- `(q << k) | r` is a sum where `r` fits below the shift, and so is `r | (q << k)`.
pub bit_or_fields :
    (k q r : ℕ)
    → r < 2 ^ k
    → (bit_or (q * 2 ^ k) r ≡ q * 2 ^ k + r) × (bit_or r (q * 2 ^ k) ≡ q * 2 ^ k + r)
bit_or_fields zero q r h =
    let e : r ≡ 0 = omega arith in
    rw e (omega (arith, bit_or-zero (q * 2 ^ 0)), omega (arith, zero-bit_or (q * 2 ^ 0)))
bit_or_fields (suc k) q r h = ground (
  arith,
  bit_or_step (q * 2 ^ suc k) r,
  bit_or_step r (q * 2 ^ suc k),
  field_suc q k,
  pow-suc 2 k,
  bit_or_fields k q (r / 2) (omega (arith, pow-suc 2 k)),
)
