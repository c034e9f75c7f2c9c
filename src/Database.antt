-- ===== src/Database.antt =====
-- src/raddatabase.c and h/raddatabase.h: rows and their fields, whichever server they come from, and
-- the way through a set of rows. Numbers of any width and floating-point values are kept as they are.
mod Cursor
mod Types
mod Values
mod Tests
use Prim.Native.Nat.{bit_and, bit_or}
use radlib.Base.{
  ℕ, zero, suc, ◌+◌, ◌-◌, Bool, true, false, if◌then◌else◌, ◌==◌, ltb, leb, ◌&&◌, ◌||◌, not, Option,
  none, some, List, [], ◌∷◌, ◌++◌,
}
use radlib.Base.Lists.{length, get_elem?}
use radlib.Base.Bits.{power_of_two}
use radlib.SysDefs.{Status, ok, error}

abbrev pub Text : Type 0
Text = List ℕ

-- The memory that `cvalue` points to, as long as malloc made it, with the text in it.
pub record Block : Type 0 where
  pub size : ℕ
  pub text : Text

-- `FIELD_ID`.
pub record Field : Type 0 where
  pub name : Text
  pub field_type : ℕ
  pub ivalue : ℕ
  pub llvalue : ℕ
  pub fvalue : ℕ
  pub dvalue : ℕ
  pub cvalue : Option Block
  pub cval_length : ℕ

-- `DbFieldTypes`: the kinds, each one digit of the type, and the digits for the queries.
pub data Kind : Type 0 where
  field_int field_string field_bigint field_float field_double field_datetime : Kind

abbrev pub digit_of : Kind → ℕ
digit_of field_int = 0
digit_of field_string = 1
digit_of field_bigint = 2
digit_of field_float = 3
digit_of field_double = 4
digit_of field_datetime = 5

abbrev pub mask_of : Kind → ℕ
mask_of field_int = 1
mask_of field_string = 2
mask_of field_bigint = 4
mask_of field_float = 8
mask_of field_double = 16
mask_of field_datetime = 32

-- FF000000 and 80000000, in digits of 16.
abbrev pub field_type_clear : ℕ
field_type_clear = 4278190080

abbrev pub field_value_is_null : ℕ
field_value_is_null = 2147483648

-- ~a, for 32 digits.
abbrev pub inverted : ℕ → ℕ
inverted a = power_of_two 32 - 1 - a

-- `raddatabaseFieldSetTypeInt` and its like, each of which returns OK.
unfoldable pub set_type : Kind → Field → Field
set_type k f = record f { field_type = bit_or (bit_and f.field_type field_type_clear) (mask_of k) }

unfoldable pub set_to_null : Field → Field
set_to_null f = record f { field_type = bit_or f.field_type field_value_is_null }

unfoldable pub set_to_not_null : Field → Field
set_to_not_null f = record f { field_type = bit_and f.field_type (inverted field_value_is_null) }

-- `raddatabaseFieldSetIntValue`, `BigInt`, `Float` and `Double`, which return OK.
unfoldable pub set_int_value : ℕ → Field → Field
set_int_value v f = set_type field_int (set_to_not_null (record f { ivalue = v }))

unfoldable pub set_bigint_value : ℕ → Field → Field
set_bigint_value v f = set_type field_bigint (set_to_not_null (record f { llvalue = v }))

unfoldable pub set_float_value : ℕ → Field → Field
set_float_value v f = set_type field_float (set_to_not_null (record f { fvalue = v }))

unfoldable pub set_double_value : ℕ → Field → Field
set_double_value v f = set_type field_double (set_to_not_null (record f { dvalue = v }))

-- The result of a call that writes a text: the field and the status; or the program writes where it
-- has no memory, or leaves the text without an end mark.
pub data Written : Type 0 where
  set_field : Field → Status → Written
  spoilt : Written

-- `strncpy` of the value's length and one more into a block.
unfoldable pub copy_value :
    Kind → (value : Text) → (value_length : ℕ) → Option Block → Field → Written
copy_value k v n none f = spoilt
copy_value k v n (some b) f =
    if ltb n b.size && leb (length v) n
    then set_field
        (set_type k
          (set_to_not_null (record f { cvalue = some (record b { text = v }); cval_length = n })))
        ok
    else spoilt

-- `raddatabaseFieldSetCharValue` and `raddatabaseFieldSetDateTimeValue`. A new block has room for the end
-- mark.
unfoldable pub set_text_value :
    (malloc_ok : Bool) → Kind → (value : Text) → (value_length : ℕ) → Field → Written
set_text_value malloc_ok k v n f =
    if ltb f.cval_length n
    then (if malloc_ok
        then copy_value k v n (some (record { size = suc n; text = [] })) f
        else set_field f error)
    else copy_value k v n f.cvalue f

unfoldable pub set_char_value :
    (malloc_ok : Bool) → (value : Text) → (value_length : ℕ) → Field → Written
set_char_value m v n f = set_text_value m field_string v n f

unfoldable pub set_datetime_value :
    (malloc_ok : Bool) → (value : Text) → (value_length : ℕ) → Field → Written
set_datetime_value m v n f = set_text_value m field_datetime v n f

-- `strcasecmp(s, t) == 0`.
abbrev pub lower : ℕ → ℕ
lower c = if leb b'A' c && leb c b'Z' then c + 32 else c

unfoldable pub same_name : Text → Text → Bool
same_name [] [] = true
same_name [] (d ∷ ds) = false
same_name (c ∷ cs) [] = false
same_name (c ∷ cs) (d ∷ ds) = lower c == lower d && same_name cs ds

-- `raddatabaseRowDescriptionCreate`; the name of a field is cut to the 63 characters that it has room for.
unfoldable pub row_create : (malloc_ok : Bool) → Option (List Field)
row_create malloc_ok = if malloc_ok then some [] else none

abbrev pub take : ℕ → Text → Text
take zero s = []
take (suc n) [] = []
take (suc n) (c ∷ cs) = c ∷ take n cs

unfoldable pub add_field :
    (malloc_ok : Bool)
    → (name : Text) → (field_type max_length : ℕ) → List Field
    → List Field × Status
add_field malloc_ok name t n fs =
    if malloc_ok
    then (
      fs
          ++ record {
            name = take 63 name;
            field_type = t;
            ivalue = 0;
            llvalue = 0;
            fvalue = 0;
            dvalue = 0;
            cvalue = none;
            cval_length = n;
          }
            ∷ [],
      ok,
    )
    else (fs, error)

-- `raddatabaseFieldGet` and `raddatabaseRowDescriptionRemoveField`.
unfoldable pub field_get : (field_name : Text) → List Field → Option Field
field_get n [] = none
field_get n (f ∷ fs) = if same_name f.name n then some f else field_get n fs

unfoldable pub without_first : (field_name : Text) → List Field → List Field
without_first n [] = []
without_first n (f ∷ fs) = if same_name f.name n then fs else f ∷ without_first n fs

unfoldable pub remove_field : (field_name : Text) → List Field → List Field × Status
remove_field n fs = elim (field_get n fs) [ none ↦ (fs, error) | some f ↦ (without_first n fs, ok) ]

-- `RESULT_SET_ID`: its rows, and `current` as the number of a row, from 1, and 0 for NULL.
pub record ResultSet : Type 0 where
  pub rows : List (List Field)
  pub current : ℕ

-- What the calls return: the row at `current`.
abbrev pub row_at : List (List Field) → ℕ → Option (List Field)
row_at rs zero = none
row_at rs (suc n) = get_elem? rs n

-- `raddatabaseResultsGetFirst` and its like, with what `radListGetNext` and `radListGetPrevious` do at the
-- ends and for NULL.
abbrev pub first_of : List (List Field) → ℕ
first_of [] = 0
first_of (r ∷ rs) = 1

unfoldable pub results_get_first : ResultSet → ResultSet
results_get_first s = record s { current = first_of s.rows }

unfoldable pub results_get_last : ResultSet → ResultSet
results_get_last s = record s { current = length s.rows }

unfoldable pub results_get_next : ResultSet → ResultSet
results_get_next s =
    if s.current == 0
    then results_get_first s
    else if s.current == length s.rows
    then record s { current = 0 }
    else record s { current = suc s.current }

unfoldable pub results_get_prev : ResultSet → ResultSet
results_get_prev s =
    if s.current == 0 then results_get_last s else record s { current = s.current - 1 }
