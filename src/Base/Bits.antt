-- ===== src/Base/Bits.antt =====
-- The digits of a number, and those of a bitwise and, a bitwise or and a complement.
use Prim.Native.Nat.{
  ℕ, zero, suc, ◌+◌, ◌-◌, ◌*◌, ◌/◌, ◌%◌, ◌≤◌, ◌<◌, min, max, bit_and, bit_or, digits,
  bit_and-bitwise, bit_or-bitwise,
}
use mathlib.Core.Path.{◌≡◌, refl}
use mathlib.Core.Bool.{Bool, false, ◌&&◌, ◌||◌, not}
use native.Mathlib.Omega.{arith}
use radlib.Base.Tests.{◌==◌}

-- Is the digit set?
unfoldable pub bit : ℕ → ℕ → Bool
bit zero a = a % 2 == 1
bit (suc i) a = bit i (a / 2)

module _ (z : ℕ → ℕ) (f : ℕ → ℕ → ℕ) where
  -- The count of digits to go does not matter once it is enough.
  digits_enough : (n m a b : ℕ) → a ≤ n → a ≤ m → digits z f n a b ≡ digits z f m a b
  digits_enough zero zero a b p q = refl
  digits_enough zero (suc m) zero b p q = refl
  digits_enough zero (suc m) (suc a) b p q = absurd (omega arith)
  digits_enough (suc n) zero zero b p q = refl
  digits_enough (suc n) zero (suc a) b p q = absurd (omega arith)
  digits_enough (suc n) (suc m) zero b p q = refl
  digits_enough (suc n) (suc m) (suc a) b p q =
      omega (arith, digits_enough n m (suc a / 2) (b / 2) (omega arith) (omega arith))

bit_and_lowest : (a b : ℕ) → bit_and a b ≡ bit_and (a / 2) (b / 2) * 2 + min (a % 2) (b % 2)
bit_and_lowest zero b = omega (arith, bit_and-bitwise 0 b, bit_and-bitwise 0 (b / 2))
bit_and_lowest (suc a) b = omega (
  arith,
  bit_and-bitwise (suc a) b,
  bit_and-bitwise (suc a / 2) (b / 2),
  digits_enough (λ b. zero) min a (suc a / 2) (suc a / 2) (b / 2) (omega arith) (omega arith),
)

bit_or_lowest : (a b : ℕ) → bit_or a b ≡ bit_or (a / 2) (b / 2) * 2 + max (a % 2) (b % 2)
bit_or_lowest zero b = omega (arith, bit_or-bitwise 0 b, bit_or-bitwise 0 (b / 2))
bit_or_lowest (suc a) b = omega (
  arith,
  bit_or-bitwise (suc a) b,
  bit_or-bitwise (suc a / 2) (b / 2),
  digits_enough (λ b. b) max a (suc a / 2) (suc a / 2) (b / 2) (omega arith) (omega arith),
)

and_digit : (x y : ℕ) → x < 2 → y < 2 → (min x y == 1) ≡ (x == 1 && y == 1)
and_digit x y p q = ground arith

or_digit : (x y : ℕ) → x < 2 → y < 2 → (max x y == 1) ≡ (x == 1 || y == 1)
or_digit x y p q = ground arith

pub bit-bit_and : (i a b : ℕ) → bit i (bit_and a b) ≡ (bit i a && bit i b)
unfolding bit
bit-bit_and zero a b =
    let e : bit_and a b % 2 ≡ min (a % 2) (b % 2) = omega (arith, bit_and_lowest a b) in
    rw e (and_digit (a % 2) (b % 2) (omega arith) (omega arith))
bit-bit_and (suc i) a b =
    let e : bit_and a b / 2 ≡ bit_and (a / 2) (b / 2) = omega (arith, bit_and_lowest a b) in
    rw e (bit-bit_and i (a / 2) (b / 2))

pub bit-bit_or : (i a b : ℕ) → bit i (bit_or a b) ≡ (bit i a || bit i b)
unfolding bit
bit-bit_or zero a b =
    let e : bit_or a b % 2 ≡ max (a % 2) (b % 2) = omega (arith, bit_or_lowest a b) in
    rw e (or_digit (a % 2) (b % 2) (omega arith) (omega arith))
bit-bit_or (suc i) a b =
    let e : bit_or a b / 2 ≡ bit_or (a / 2) (b / 2) = omega (arith, bit_or_lowest a b) in
    rw e (bit-bit_or i (a / 2) (b / 2))

-- 2^n.
abbrev pub power_of_two : ℕ → ℕ
power_of_two zero = 1
power_of_two (suc n) = 2 * power_of_two n

-- The digits of ~a, for a number of `w` digits.
pub bit-complement :
    (w i a : ℕ) → i < w → a < power_of_two w → bit i (power_of_two w - 1 - a) ≡ not (bit i a)
unfolding bit
bit-complement zero i a h k = absurd (omega arith)
bit-complement (suc w) zero a h k = ground arith
bit-complement (suc w) (suc i) a h k =
    let e : (2 * power_of_two w - 1 - a) / 2 ≡ power_of_two w - 1 - a / 2 = omega arith in
    rw e (bit-complement w i (a / 2) (omega arith) (omega arith))

pub bit-zero : (i : ℕ) → bit i 0 ≡ false
unfolding bit
bit-zero zero = refl
bit-zero (suc i) = bit-zero i
