-- ===== src/Database/Tests.antt =====
-- raddatabase.c: runs, and the theorems at a concrete field and a set of three rows.
use radlib.Base.{inr, ◌≡◌, refl, true, false, ◌⊎◌, none, some, List, [], ◌∷◌, arith}
use radlib.Base.Lists.{get_elem?}
use radlib.Base.Bits.{bit}
use radlib.SysDefs.{ok, error}
use radlib.Database.{
  Field, field_string, set_type, copy_value, set_text_value, set_char_value, set_field, spoilt,
  row_at, results_get_next, results_get_prev, add_field, field_get, remove_field, without_first,
  same_name,
}
use radlib.Database.Cursor.{at, results_get_next-get_prev}
use radlib.Database.Types.{as_null, int_value, run, digit_after_all, run-digits}
use radlib.Database.Values.{IsField, Holds, set_text_value-Holds}

abbrev fresh : Field
fresh = record {
  name = b'n' ∷ [];
  field_type = 65536;
  ivalue = 0;
  llvalue = 0;
  fvalue = 0;
  dvalue = 0;
  cvalue = none;
  cval_length = 0;
}

-- A field that is the primary key is it no more once its type is set.
primary_key_lost : (set_type field_string fresh).field_type ≡ 2
unfolding set_type
primary_key_lost = refl

-- An empty text, and one that is shorter than the length the field was made with, are written to NULL.
empty_to_null : set_char_value true [] 0 fresh ≡ spoilt
unfolding set_char_value set_text_value copy_value
empty_to_null = refl

short_to_null : set_char_value true (b'a' ∷ []) 1 (record fresh { cval_length = 20 }) ≡ spoilt
unfolding set_char_value set_text_value copy_value
short_to_null = refl

-- Names are found whatever the case of their letters.
added_found : field_get (b'N' ∷ []) (add_field true (b'n' ∷ []) 65536 0 []).0 ≡ some fresh
unfolding field_get add_field same_name
added_found = refl

removed : remove_field (b'N' ∷ []) (fresh ∷ fresh ∷ []) ≡ (fresh ∷ [], ok)
unfolding remove_field without_first field_get same_name
removed = refl

set_text_value-Holds_example :
    ((f' : Field) × (set_text_value true field_string (b'a' ∷ b'b' ∷ []) 2 fresh ≡ set_field f' ok)
      × IsField f'
      × Holds (b'a' ∷ b'b' ∷ []) f'
      × (f'.cval_length ≡ 2))
    ⊎ ((set_text_value true field_string (b'a' ∷ b'b' ∷ []) 2 fresh ≡ set_field fresh error)
        × (true ≡ false))
set_text_value-Holds_example =
    set_text_value-Holds true field_string (b'a' ∷ b'b' ∷ []) 2 (omega arith) (omega arith) fresh
      refl

abbrev three_rows : List (List Field)
three_rows = [] ∷ (fresh ∷ []) ∷ [] ∷ []

results_get_next-get_prev_example :
    (row_at three_rows (results_get_next (at three_rows 3)).current ≡ get_elem? three_rows 3)
    × (results_get_prev (results_get_next (at three_rows 3)) ≡ at three_rows 3)
    × (results_get_next (results_get_prev (at three_rows 3)) ≡ at three_rows 3)
results_get_next-get_prev_example = results_get_next-get_prev three_rows 3 (omega arith)

run-digits_example :
    bit 31 (run (as_null ∷ int_value 7 ∷ []) fresh).field_type
    ≡ digit_after_all (as_null ∷ int_value 7 ∷ []) 31 (bit 31 fresh.field_type)
run-digits_example =
    run-digits 31 (omega arith) (inr (omega arith)) (as_null ∷ int_value 7 ∷ []) fresh
