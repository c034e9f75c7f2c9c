-- ===== src/Crc/Xor.antt =====
-- radcrc.c: laws of the exclusive or of numbers.
use Prim.Native.Nat.{bit_xor, digits, differ, bit_xor-bitwise}
use radlib.Base.{ℕ, zero, suc, ◌+◌, ◌*◌, ◌%◌, ◌/◌, ◌<◌, ◌≤◌, ◌≡◌, refl, arith}

differ_bits : (x y : ℕ) → x < 2 → y < 2 → differ x y ≡ (x + y) % 2
differ_bits zero y p q = omega arith
differ_bits (suc zero) zero p q = refl
differ_bits (suc zero) (suc zero) p q = refl
differ_bits (suc zero) (suc (suc y)) p q = absurd (omega arith)
differ_bits (suc (suc x)) y p q = absurd (omega arith)

-- The count of digits to go does not matter once it is enough.
digits_enough :
    (n m a b : ℕ) → a ≤ n → a ≤ m → digits (λ z. z) differ n a b ≡ digits (λ z. z) differ m a b
digits_enough zero zero a b p q = refl
digits_enough zero (suc m) zero b p q = refl
digits_enough zero (suc m) (suc a) b p q = absurd (omega arith)
digits_enough (suc n) zero zero b p q = refl
digits_enough (suc n) zero (suc a) b p q = absurd (omega arith)
digits_enough (suc n) (suc m) zero b p q = refl
digits_enough (suc n) (suc m) (suc a) b p q =
    omega (arith, digits_enough n m (suc a / 2) (b / 2) (omega arith) (omega arith))

pub zero-bit_xor : (b : ℕ) → bit_xor 0 b ≡ b
zero-bit_xor b = bit_xor-bitwise 0 b

-- The lowest digit and the others.
pub bit_xor_lowest : (a b : ℕ) → bit_xor a b ≡ bit_xor (a / 2) (b / 2) * 2 + (a + b) % 2
bit_xor_lowest zero b = omega (arith, zero-bit_xor b, zero-bit_xor (b / 2))
bit_xor_lowest (suc a) b = omega (
  arith,
  bit_xor-bitwise (suc a) b,
  bit_xor-bitwise (suc a / 2) (b / 2),
  differ_bits (suc a % 2) (b % 2) (omega arith) (omega arith),
  digits_enough a (suc a / 2) (suc a / 2) (b / 2) (omega arith) (omega arith),
)

pub bit_xor_half : (a b : ℕ) → bit_xor a b / 2 ≡ bit_xor (a / 2) (b / 2)
bit_xor_half a b = omega (arith, bit_xor_lowest a b)

pub bit_xor_parity : (a b : ℕ) → bit_xor a b % 2 ≡ (a + b) % 2
bit_xor_parity a b = omega (arith, bit_xor_lowest a b)

assoc_fuel : (n a b c : ℕ) → a + b + c ≤ n → bit_xor (bit_xor a b) c ≡ bit_xor a (bit_xor b c)
assoc_fuel zero a b c h =
    let x : a ≡ 0 = omega arith in rw (x, zero-bit_xor b, zero-bit_xor (bit_xor b c)) refl
assoc_fuel (suc n) zero b c h = rw (zero-bit_xor b, zero-bit_xor (bit_xor b c)) refl
assoc_fuel (suc n) (suc a) b c h =
    let ih : bit_xor (bit_xor (suc a) b / 2) (c / 2) ≡ bit_xor (suc a / 2) (bit_xor b c / 2) =
      rw (bit_xor_half (suc a) b, bit_xor_half b c)
        (assoc_fuel n (suc a / 2) (b / 2) (c / 2) (omega arith)) in
    omega (
      arith,
      bit_xor_lowest (bit_xor (suc a) b) c,
      bit_xor_lowest (suc a) (bit_xor b c),
      bit_xor_parity (suc a) b,
      bit_xor_parity b c,
      ih,
    )

pub bit_xor_assoc : (a b c : ℕ) → bit_xor (bit_xor a b) c ≡ bit_xor a (bit_xor b c)
bit_xor_assoc a b c = assoc_fuel (a + b + c) a b c (omega arith)

-- `bits n` is 2^n, `shifted n h` is h << n.
abbrev pub bits : ℕ → ℕ
bits zero = 1
bits (suc n) = 2 * bits n

abbrev pub shifted : ℕ → ℕ → ℕ
shifted zero h = h
shifted (suc n) h = 2 * shifted n h

bit_xor_zero_fuel : (n a : ℕ) → a ≤ n → bit_xor a 0 ≡ a
bit_xor_zero_fuel n zero h = refl
bit_xor_zero_fuel zero (suc a) h = absurd (omega arith)
bit_xor_zero_fuel (suc n) (suc a) h =
    omega (arith, bit_xor_lowest (suc a) 0, bit_xor_zero_fuel n (suc a / 2) (omega arith))

pub bit_xor-zero : (a : ℕ) → bit_xor a 0 ≡ a
bit_xor-zero a = bit_xor_zero_fuel a a (omega arith)

pub bit_xor-shifted : (n h l : ℕ) → l < bits n → bit_xor (shifted n h) l ≡ shifted n h + l
bit_xor-shifted zero h l p = let e : l ≡ 0 = omega arith in rw e (omega (arith, bit_xor-zero h))
bit_xor-shifted (suc n) h l p =
    let half : 2 * shifted n h / 2 ≡ shifted n h = omega arith in
    let ih : bit_xor (2 * shifted n h / 2) (l / 2) ≡ shifted n h + l / 2 =
      rw half (bit_xor-shifted n h (l / 2) (omega arith)) in
    omega (arith, bit_xor_lowest (2 * shifted n h) l, ih)

pub bit_xor-bound : (n a b : ℕ) → a < bits n → b < bits n → bit_xor a b < bits n
bit_xor-bound zero a b p q = let e : a ≡ 0 = omega arith in rw (e, zero-bit_xor b) q
bit_xor-bound (suc n) a b p q =
    omega (arith, bit_xor_lowest a b, bit_xor-bound n (a / 2) (b / 2) (omega arith) (omega arith))
