-- ===== src/Database/Values.antt =====
-- raddatabase.c: the texts that a field is given.
use radlib.Base.{
  ℕ, suc, ◌<◌, ◌≤◌, ◌≡◌, refl, ◌⊎◌, inl, inr, Bool, false, ltb, Option, none, some, [], Bool-cases,
  arith,
}
use radlib.Base.Lists.{length}
use radlib.SysDefs.{ok, error}
use radlib.Database.{
  Text, Block, Field, Kind, set_type, set_to_not_null, set_field, copy_value, set_text_value,
}

-- The length of a field's value fits the memory that it has.
abbrev pub IsValue : Option Block → ℕ → Type 0
IsValue none n = n ≡ 0
IsValue (some b) n = (n < b.size) × (length b.text ≤ n)

abbrev pub IsField : Field → Type 0
IsField f = IsValue f.cvalue f.cval_length

-- The field holds the text.
abbrev pub Holds : (value : Text) → Field → Type 0
Holds v f = (b : Block) × (f.cvalue ≡ some b) × (b.text ≡ v)

copy_value-Holds :
    (k : Kind) (v : Text) (n : ℕ) (b : Block) (f : Field)
    → n < b.size
    → length v ≤ n
    → (f' : Field) × (copy_value k v n (some b) f ≡ set_field f' ok)
      × IsField f'
      × Holds v f'
      × (f'.cval_length ≡ n)
unfolding copy_value set_type set_to_not_null
copy_value-Holds k v n b f h l = (
  set_type k
      (set_to_not_null (record f { cvalue = some (record b { text = v }); cval_length = n })),
  ground arith,
  (h, l),
  (record b { text = v }, refl, refl),
  refl,
)

module _ (malloc_ok : Bool) (k : Kind) (v : Text) (n : ℕ) (l : length v ≤ n) (p : 0 < n) where
  on_old :
      (f : Field) (o : Option Block)
      → IsValue o f.cval_length
      → ltb f.cval_length n ≡ false
      → (f' : Field) × (copy_value k v n o f ≡ set_field f' ok)
        × IsField f'
        × Holds v f'
        × (f'.cval_length ≡ n)
  on_old f none h m = absurd (ground arith)
  on_old f (some b) h m = copy_value-Holds k v n b f (ground arith) l

  -- Let the length of a field's value fit the memory that it has. For a text of at most the length
  -- that is given with it, which is not 0, raddatabaseFieldSetCharValue and
  -- raddatabaseFieldSetDateTimeValue never write outside of the field's memory. They keep the field
  -- in order and leave the text and its length in it; or malloc fails, and they return ERROR with the
  -- field as it was.
  pub set_text_value-Holds :
      (f : Field)
      → IsField f
      → ((f' : Field) × (set_text_value malloc_ok k v n f ≡ set_field f' ok)
          × IsField f'
          × Holds v f'
          × (f'.cval_length ≡ n))
        ⊎ ((set_text_value malloc_ok k v n f ≡ set_field f error) × (malloc_ok ≡ false))
  unfolding set_text_value
  set_text_value-Holds f h = elim (Bool-cases (ltb f.cval_length n)) [
    | inl y ↦ elim (Bool-cases malloc_ok) [
      | inl m ↦ inl (
          rw (set_text_value, y, m)
            (copy_value-Holds k v n (record { size = suc n; text = [] }) f (omega arith) l))
      | inr m ↦ inr (rw (set_text_value, y, m) refl, m)
    ]
    | inr y ↦ inl (rw (set_text_value, y) (on_old f f.cvalue h y))
  ]
