-- ===== src/ConfFile/Entries/Laws.antt =====
-- radconffile.c: what is found after an entry is put.
use radlib.Base.{
  ◌≡◌, refl, sym, ap, ◌∙◌, inl, inr, Bool, true, if◌then◌else◌, Option, none, some, List, [], ◌∷◌,
  ◌++◌, append_assoc, Bool-cases, ==_self, arith,
}
use radlib.ConfFile.{Text, Line}
use radlib.ConfFile.Entries.{
  text_eq, matches, Node, find_entry_node_after, find_entry_node, get_entry, value_of,
}

pub text_eq_self : (s : Text) → text_eq s s ≡ true
unfolding text_eq
text_eq_self [] = refl
text_eq_self (c ∷ cs) = rw (text_eq, ==_self c, text_eq_self cs) refl

pub eq_of_text_eq : (s t : Text) → text_eq s t ≡ true → s ≡ t
unfolding text_eq
eq_of_text_eq [] [] h = refl
eq_of_text_eq [] (d ∷ ds) h = ground arith
eq_of_text_eq (c ∷ cs) [] h = ground arith
eq_of_text_eq (c ∷ cs) (d ∷ ds) h = ground (arith, eq_of_text_eq cs ds)

-- The first line of a kind, and the list with that line changed.
abbrev pub first : (Line → Bool) → List Line → Option Line
first p [] = none
first p (l ∷ ls) = if p l then some l else first p ls

abbrev pub replace : (Line → Bool) → (Line → Line) → List Line → List Line
replace p f [] = []
replace p f (l ∷ ls) = if p l then f l ∷ ls else l ∷ replace p f ls

abbrev pub line_of : Option Node → Option Line
line_of none = none
line_of (some n) = some n.this_line

pub find_entry_node_after-first :
    (id : Text) (inst : Option Text) (passed ls : List Line)
    → line_of (find_entry_node_after id inst passed ls) ≡ first (matches id inst) ls
unfolding find_entry_node_after
find_entry_node_after-first id inst passed [] = refl
find_entry_node_after-first id inst passed (l ∷ ls) = elim (Bool-cases (matches id inst l)) [
  | inl y ↦ rw (find_entry_node_after, y) refl
  | inr n ↦
      rw (find_entry_node_after, n) (find_entry_node_after-first id inst (passed ++ l ∷ []) ls)
]

pub find_entry_node-first :
    (id : Text) (inst : Option Text) (ls : List Line) (o : Option Node)
    → find_entry_node id inst ls ≡ o
    → first (matches id inst) ls ≡ line_of o
unfolding find_entry_node
find_entry_node-first id inst ls o h =
    sym (find_entry_node_after-first id inst [] ls) ∙ ap line_of h

abbrev pub rejoin : (Line → Line) → Node → List Line
rejoin f n = n.before ++ f n.this_line ∷ n.behind

abbrev pub rejoin_or : List Line → (Line → Line) → Option Node → List Line
rejoin_or ls f none = ls
rejoin_or ls f (some n) = rejoin f n

find_entry_node_after-replace :
    (f : Line → Line) (id : Text) (inst : Option Text) (passed ls : List Line)
    → rejoin_or (passed ++ ls) f (find_entry_node_after id inst passed ls)
      ≡ passed ++ replace (matches id inst) f ls
unfolding find_entry_node_after
find_entry_node_after-replace f id inst passed [] = refl
find_entry_node_after-replace f id inst passed (l ∷ ls) = elim (Bool-cases (matches id inst l)) [
  | inl y ↦ rw (find_entry_node_after, y) refl
  | inr m ↦
      rw (find_entry_node_after, m, sym (append_assoc passed (l ∷ []) ls))
        (find_entry_node_after-replace f id inst (passed ++ l ∷ []) ls
          ∙ append_assoc passed (l ∷ []) (replace (matches id inst) f ls))
]

pub find_entry_node-rejoin :
    (f : Line → Line) (id : Text) (inst : Option Text) (ls : List Line) (n : Node)
    → find_entry_node id inst ls ≡ some n
    → rejoin f n ≡ replace (matches id inst) f ls
unfolding find_entry_node
find_entry_node-rejoin f id inst ls n h =
    ap (rejoin_or ls f) (sym h) ∙ find_entry_node_after-replace f id inst [] ls

abbrev pub value_of? : Option Line → Option Text
value_of? none = none
value_of? (some l) = value_of l

pub get_entry-first :
    (id : Text) (inst : Option Text) (ls : List Line)
    → get_entry id inst ls ≡ value_of? (first (matches id inst) ls)
unfolding get_entry find_entry_node
get_entry-first id inst ls =
    rw (sym (find_entry_node_after-first id inst [] ls)) (on (find_entry_node_after id inst [] ls))
  where
    on :
        (o : Option Node)
        → elim o [ none ↦ none | some n ↦ value_of n.this_line ] ≡ value_of? (line_of o)
    on none = refl
    on (some n) = refl
