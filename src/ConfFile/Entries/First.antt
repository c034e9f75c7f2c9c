-- ===== src/ConfFile/Entries/First.antt =====
-- radconffile.c: the first line of a kind, in a list in which a line is changed or added.
use radlib.Base.{
  ◌≡◌, ◌≢◌, refl, sym, ap, ◌∙◌, ◌⊎◌, inl, inr, Bool, true, false, if◌then◌else◌, Option, none, some,
  List, [], ◌∷◌, ◌++◌, Bool-cases, arith,
}
use radlib.ConfFile.{Text, Line, comment, entry}
use radlib.ConfFile.Entries.{text_eq, matches, value_of, or_empty, new_entry, update_line}
use radlib.ConfFile.Entries.Laws.{text_eq_self, eq_of_text_eq, first, replace}

module _ (p : Line → Bool) (f : Line → Line) where
  pub first-replace :
      (ls : List Line)
      → ((l : Line) → p l ≡ true → p (f l) ≡ true)
      → (l : Line) → first p ls ≡ some l
      → first p (replace p f ls) ≡ some (f l)
  first-replace [] h l e = ground arith
  first-replace (x ∷ xs) h l e = elim (Bool-cases (p x)) [
    | inl y ↦ ground (arith, h x y)
    | inr n ↦
        rw (n, n) (first-replace xs h l (rw (sym (ap (λ b. if b then some x else first p xs) n)) e))
  ]

  pub first-replace_other :
      (q : Line → Bool) (ls : List Line)
      → ((l : Line) → p l ≡ true → (q l ≡ false) × (q (f l) ≡ false))
      → first q (replace p f ls) ≡ first q ls
  first-replace_other q [] h = refl
  first-replace_other q (x ∷ xs) h = elim (Bool-cases (p x)) [
    | inl y ↦ rw (y, (h x y).0, (h x y).1) refl
    | inr n ↦ rw n (ap (λ o. if q x then some x else o) (first-replace_other q xs h))
  ]

pub first-snoc :
    (p : Line → Bool) (ls : List Line) (l : Line)
    → first p ls ≡ none
    → p l ≡ true
    → first p (ls ++ l ∷ []) ≡ some l
first-snoc p [] l h y = rw y refl
first-snoc p (x ∷ xs) l h y = ground (arith, first-snoc p xs l)

pub first-snoc_other :
    (p : Line → Bool) (ls : List Line) (l : Line)
    → p l ≡ false
    → first p (ls ++ l ∷ []) ≡ first p ls
first-snoc_other p [] l n = rw n refl
first-snoc_other p (x ∷ xs) l n = rw (first-snoc_other p xs l n) refl

pub matches-update_line :
    (id : Text) (i : Option Text) (v : Text) (c : Option Text) (l : Line)
    → matches id i (update_line v c l) ≡ matches id i l
unfolding matches update_line
matches-update_line id none v c (comment t) = refl
matches-update_line id none v c (entry e) = refl
matches-update_line id (some i) v c (comment t) = refl
matches-update_line id (some i) v c (entry e) = refl

pub value_of-update_line :
    (id : Text) (i : Option Text) (v : Text) (c : Option Text) (l : Line)
    → matches id i l ≡ true
    → value_of (update_line v c l) ≡ some v
unfolding matches update_line
value_of-update_line id i v c (comment t) h = ground arith
value_of-update_line id i v c (entry e) h = refl

pub matches-new_entry :
    (id : Text) (i : Option Text) (v : Text) (c : Option Text)
    → matches id i (entry (new_entry id i v c)) ≡ true
unfolding matches new_entry
matches-new_entry id none v c = rw (text_eq_self id) refl
matches-new_entry id (some i) v c = rw (text_eq_self id, text_eq_self i) refl

-- Two keys that no entry has both of: of different identifiers, or of two different instances.
abbrev pub Apart : (id : Text) → Option Text → (id' : Text) → Option Text → Type 0
Apart id i id' i' = (id ≢ id') ⊎ ((a : Text) × (b : Text) × (i ≡ some a) × (i' ≡ some b) × (a ≢ b))

text_eq_apart : (s t u : Text) → t ≢ u → text_eq s t ≡ true → text_eq s u ≡ false
text_eq_apart s t u h e = elim (Bool-cases (text_eq s u)) [
  | inl y ↦ absurd (h (sym (eq_of_text_eq s t e) ∙ eq_of_text_eq s u y))
  | inr n ↦ n
]

pub matches-Apart :
    (id : Text) (i : Option Text) (id' : Text) (i' : Option Text)
    → Apart id i id' i'
    → (l : Line) → matches id i l ≡ true
    → matches id' i' l ≡ false
unfolding matches
matches-Apart id i id' i' a (comment t) h = refl
matches-Apart id i id' i' (inl n) (entry e) h = ground (arith, text_eq_apart e.id id id' n)
matches-Apart id none id' i' (inr (a, b, p, q, n)) (entry e) h = ground arith
matches-Apart id (some i) id' none (inr (a, b, p, q, n)) (entry e) h = ground arith
matches-Apart id (some i) id' (some i') (inr (a, b, p, q, n)) (entry e) h =
    ground
      (arith, text_eq_apart e.instance_name i i' (λ r. n (sym (ap or_empty p) ∙ r ∙ ap or_empty q)))
