-- ===== src/SysDefs.antt =====
-- h/radsysdefs.h: the results OK and ERROR, and the integers of the program: `long` and `int` as
-- integers, `ULONG` (64 bits) and `UINT` (32 bits) as numbers below their modulus.
use radlib.Base.{ℕ, suc, ◌+◌, ◌-◌, ◌^◌, ◌%◌, ◌≤◌, ◌<◌, ◌≡◌, Bool, if◌then◌else◌, arith}
use radlib.Base.Tests.{ltb, ◌==◌}

pub data Status : Type 0 where
  ok error : Status

abbrev pub ulong_mod : ℕ
ulong_mod = 2 ^ 64

abbrev pub uint_mod : ℕ
uint_mod = 2 ^ 32

-- `negsuc n` is -(n + 1).
pub data ℤ : Type 0 where
  pos : ℕ → ℤ
  negsuc : ℕ → ℤ

abbrev pub pos_part : ℤ → ℕ
pos_part (pos n) = n
pos_part (negsuc n) = 0

abbrev pub neg_part : ℤ → ℕ
neg_part (pos n) = 0
neg_part (negsuc n) = suc n

infix 50 ◌≤ℤ◌
abbrev pub ◌≤ℤ◌ : ℤ → ℤ → Type 0
a ≤ℤ b = pos_part a + neg_part b ≤ pos_part b + neg_part a

-- a > b and a == b.
abbrev pub gt_int : ℤ → ℤ → Bool
gt_int a b = ltb (pos_part b + neg_part a) (pos_part a + neg_part b)

abbrev pub eq_int : ℤ → ℤ → Bool
eq_int a b = pos_part a + neg_part b == pos_part b + neg_part a

-- The conversions of a `ULONG` to an `int`, and of an `int` to a `ULONG`.
unfoldable pub int_of : ℕ → ℤ
int_of n =
    let low = n % uint_mod in if ltb low (2 ^ 31) then pos low else negsuc (uint_mod - 1 - low)

unfoldable pub ulong_of : ℤ → ℕ
ulong_of (pos n) = n
ulong_of (negsuc n) = ulong_mod - 1 - n

-- A `ULONG` that is passed as an `int` and compared with a `ULONG`: the lower 32 digits, with the sign
-- carried through the upper ones.
unfoldable pub sign_extended : ℕ → ℕ
sign_extended n =
    let low = n % uint_mod in if ltb low (2 ^ 31) then low else low + (ulong_mod - uint_mod)

pub sign_extended-int : (n : ℕ) → n < 2 ^ 31 → sign_extended n ≡ n
unfolding sign_extended
sign_extended-int n h = ground arith

pub sign_extended-sign_extended : (n : ℕ) → sign_extended (sign_extended n) ≡ sign_extended n
unfolding sign_extended
sign_extended-sign_extended n = ground arith
