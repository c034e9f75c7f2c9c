-- ===== src/Database/Cursor.antt =====
-- raddatabase.c: the way through a set of rows, forwards and backwards.
use radlib.Base.{
  ℕ, zero, suc, ◌-◌, ◌≤◌, ◌≡◌, refl, sym, eq_of_==, ap, ◌∙◌, inl, inr, if◌then◌else◌, ◌==◌, none,
  List, [], ◌∷◌, Bool-cases, arith,
}
use radlib.Base.Lists.{length, get_elem?}
use radlib.Database.{
  Field, ResultSet, row_at, first_of, results_get_first, results_get_last, results_get_next,
  results_get_prev,
}

first_of-length : (rs : List (List Field)) → first_of rs ≡ (if length rs == 0 then 0 else 1)
first_of-length [] = refl
first_of-length (r ∷ rs) = ground arith

abbrev pub at : List (List Field) → ℕ → ResultSet
at rs n = record { rows = rs; current = n }

next_at :
    (rs : List (List Field)) (n : ℕ)
    → results_get_next (at rs n) ≡ at rs (if n == length rs then 0 else suc n)
unfolding results_get_next results_get_first
next_at rs zero = ap (at rs) (first_of-length rs ∙ ground arith)
next_at rs (suc n) = ground arith

prev_at :
    (rs : List (List Field)) (n : ℕ)
    → results_get_prev (at rs n) ≡ at rs (if n == 0 then length rs else n - 1)
unfolding results_get_prev results_get_last
prev_at rs n = ground arith

get_elem?_past : (rs : List (List Field)) → get_elem? rs (length rs) ≡ none
get_elem?_past [] = refl
get_elem?_past (r ∷ rs) = get_elem?_past rs

row_at-next :
    (rs : List (List Field)) (n : ℕ)
    → row_at rs (if n == length rs then 0 else suc n) ≡ get_elem? rs n
row_at-next rs n = elim (Bool-cases (n == length rs)) [
  | inl y ↦ rw y (sym (get_elem?_past rs) ∙ ap (get_elem? rs) (sym (eq_of_== n (length rs) y)))
  | inr m ↦ rw m refl
]

-- Where `current` is a row or NULL, raddatabaseResultsGetNext returns the row behind as many rows as
-- `current` has counted, and NULL behind the last; from there it starts again. And
-- raddatabaseResultsGetPrev takes it back, as it takes raddatabaseResultsGetPrev back.
pub results_get_next-get_prev :
    (rs : List (List Field)) (n : ℕ)
    → n ≤ length rs
    → (row_at rs (results_get_next (at rs n)).current ≡ get_elem? rs n)
      × (results_get_prev (results_get_next (at rs n)) ≡ at rs n)
      × (results_get_next (results_get_prev (at rs n)) ≡ at rs n)
results_get_next-get_prev rs n h = (
  ap (λ s. row_at rs s.current) (next_at rs n) ∙ row_at-next rs n,
  ap results_get_prev (next_at rs n) ∙ prev_at rs _ ∙ ap (at rs) (ground arith),
  ap results_get_next (prev_at rs n) ∙ next_at rs _ ∙ ap (at rs) (ground arith),
)
