-- ===== src/Database/Types.antt =====
-- raddatabase.c: the digits of a field's type.
use Prim.Native.Nat.{bit_and}
use radlib.Base.{
  ℕ, zero, suc, ◌<◌, ◌≤◌, ◌≡◌, refl, ap, ap₂, ◌∙◌, Bool-cases, ◌⊎◌, inl, inr, eq_of_==, Bool, true,
  if◌then◌else◌, ◌==◌, leb, ◌&&◌, ◌||◌, not, List, [], ◌∷◌, arith,
}
use radlib.Base.Bits.{bit, bit-bit_and, bit-bit_or, bit-complement}
use radlib.Database.{
  Field, Kind, field_int, field_string, field_datetime, field_bigint, field_float, field_double,
  digit_of, mask_of, field_type_clear, field_value_is_null, inverted, set_type, set_to_null,
  set_to_not_null, set_int_value, set_bigint_value, set_float_value, set_double_value,
}

-- Two tests that agree below a bound.
abbrev agree : (ℕ → Bool) → (ℕ → Bool) → ℕ → Bool
agree s t zero = true
agree s t (suc n) = (if s n then t n else not (t n)) && agree s t n

agree-below : (s t : ℕ → Bool) (n i : ℕ) → agree s t n ≡ true → i < n → s i ≡ t i
agree-below s t zero i h l = absurd (omega arith)
agree-below s t (suc n) i h l = elim (Bool-cases (i == n)) [
  | inl y ↦ rw (eq_of_== i n y) (ground arith)
  | inr m ↦ agree-below s t n i (ground arith) (ground arith)
]

bit-field_type_clear : (i : ℕ) → i < 32 → bit i field_type_clear ≡ leb 24 i
unfolding bit
bit-field_type_clear i l = agree-below (λ j. bit j field_type_clear) (λ j. leb 24 j) 32 i refl l

bit-field_value_is_null : (i : ℕ) → i < 32 → bit i field_value_is_null ≡ (i == 31)
unfolding bit
bit-field_value_is_null i l =
    agree-below (λ j. bit j field_value_is_null) (λ j. j == 31) 32 i refl l

bit-mask_of : (k : Kind) (i : ℕ) → i < 32 → bit i (mask_of k) ≡ (i == digit_of k)
unfolding bit
bit-mask_of k i l = agree-below (λ j. bit j (mask_of k)) (λ j. j == digit_of k) 32 i (all k) l
  where
    all : (m : Kind) → agree (λ j. bit j (mask_of m)) (λ j. j == digit_of m) 32 ≡ true
    all field_int = refl
    all field_string = refl
    all field_bigint = refl
    all field_float = refl
    all field_double = refl
    all field_datetime = refl

-- The calls that set the type of a field, or a number as its value.
pub data Call : Type 0 where
  as_type : Kind → Call
  as_null as_not_null : Call
  int_value bigint_value float_value double_value : ℕ → Call

unfoldable pub call : Call → Field → Field
call (as_type k) f = set_type k f
call as_null f = set_to_null f
call as_not_null f = set_to_not_null f
call (int_value v) f = set_int_value v f
call (bigint_value v) f = set_bigint_value v f
call (float_value v) f = set_float_value v f
call (double_value v) f = set_double_value v f

unfoldable pub run : List Call → Field → Field
run [] f = f
run (c ∷ cs) f = run cs (call c f)

-- One digit of the type: a kind clears those below 24 but its own, and leaves the others.
abbrev pub kind_digit : Kind → (i : ℕ) → Bool → Bool
kind_digit k i b = b && leb 24 i || i == digit_of k

-- A number also clears the digit 31, which says that the value is NULL.
abbrev pub value_digit : Kind → (i : ℕ) → Bool → Bool
value_digit k i b = kind_digit k i (b && not (i == 31))

abbrev pub digit_after : Call → (i : ℕ) → Bool → Bool
digit_after (as_type k) i b = kind_digit k i b
digit_after as_null i b = b || i == 31
digit_after as_not_null i b = b && not (i == 31)
digit_after (int_value v) i b = value_digit field_int i b
digit_after (bigint_value v) i b = value_digit field_bigint i b
digit_after (float_value v) i b = value_digit field_float i b
digit_after (double_value v) i b = value_digit field_double i b

abbrev pub digit_after_all : List Call → (i : ℕ) → Bool → Bool
digit_after_all [] i b = b
digit_after_all (c ∷ cs) i b = digit_after_all cs i (digit_after c i b)

module _ (i : ℕ) (l : i < 32) where
  bit-set_type :
      (k : Kind) (f : Field) → bit i (set_type k f).field_type ≡ kind_digit k i (bit i f.field_type)
  unfolding set_type
  bit-set_type k f =
      bit-bit_or i (bit_and f.field_type field_type_clear) (mask_of k)
      ∙ ap₂ (λ x y. x || y)
          (bit-bit_and i f.field_type field_type_clear
            ∙ ap (λ x. bit i f.field_type && x) (bit-field_type_clear i l))
          (bit-mask_of k i l)

  bit-set_to_not_null :
      (f : Field) → bit i (set_to_not_null f).field_type ≡ (bit i f.field_type && not (i == 31))
  unfolding set_to_not_null
  bit-set_to_not_null f =
      bit-bit_and i f.field_type (inverted field_value_is_null)
      ∙ ap (λ x. bit i f.field_type && x)
          (bit-complement 32 i field_value_is_null l (omega arith)
            ∙ ap not (bit-field_value_is_null i l))

  bit-set_to_null : (f : Field) → bit i (set_to_null f).field_type ≡ (bit i f.field_type || i == 31)
  unfolding set_to_null
  bit-set_to_null f =
      bit-bit_or i f.field_type field_value_is_null
      ∙ ap (λ x. bit i f.field_type || x) (bit-field_value_is_null i l)

  bit-value :
      (k : Kind) (f : Field)
      → bit i (set_type k (set_to_not_null f)).field_type ≡ value_digit k i (bit i f.field_type)
  bit-value k f = bit-set_type k (set_to_not_null f) ∙ ap (kind_digit k i) (bit-set_to_not_null f)

  bit-call :
      (c : Call) (f : Field) → bit i (call c f).field_type ≡ digit_after c i (bit i f.field_type)
  unfolding call set_int_value set_bigint_value set_float_value set_double_value
  bit-call (as_type k) f = bit-set_type k f
  bit-call as_null f = bit-set_to_null f
  bit-call as_not_null f = bit-set_to_not_null f
  bit-call (int_value v) f = bit-value field_int (record f { ivalue = v })
  bit-call (bigint_value v) f = bit-value field_bigint (record f { llvalue = v })
  bit-call (float_value v) f = bit-value field_float (record f { fvalue = v })
  bit-call (double_value v) f = bit-value field_double (record f { dvalue = v })

  run-digit :
      (cs : List Call) (f : Field)
      → bit i (run cs f).field_type ≡ digit_after_all cs i (bit i f.field_type)
  unfolding run
  run-digit [] f = refl
  run-digit (c ∷ cs) f = run-digit cs (call c f) ∙ ap (digit_after_all cs i) (bit-call c f)

-- After any calls that set a field's type or a number as its value, each of the type's 32 digits, but
-- the four of the traits, is what these calls say of it, one after the other: a kind sets its own digit
-- and clears the others below 24, and a number or a call about NULL sets or clears the digit 31.
pub run-digits :
    (i : ℕ)
    → i < 32
    → (i < 16) ⊎ (20 ≤ i)
    → (cs : List Call) (f : Field)
    → bit i (run cs f).field_type ≡ digit_after_all cs i (bit i f.field_type)
run-digits i l no_trait cs f = run-digit i l cs f
