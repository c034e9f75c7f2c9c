-- ===== src/ConfFile/Comments.antt =====
-- radconffile.c: the comments of a file.
use radlib.Base.{
  ◌<◌, ◌≡◌, refl, sym, ap, ◌∙◌, ◌⊎◌, inl, inr, Bool, true, false, if◌then◌else◌, ◌||◌, not, Option,
  none, some, List, [], ◌∷◌, ◌++◌, append_assoc, Bool-cases, Option-cases, arith,
}
use radlib.Base.Lists.{length}
use radlib.SysDefs.{ok, error}
use radlib.ConfFile.{Text, Line, comment, entry, max_line_length}
use radlib.ConfFile.Entries.{
  text_eq, matches, Node, find_entry_node, find_entry_node_after, get_entry, Change, changed,
  spoilt, fits,
}
use radlib.ConfFile.Entries.Laws.{
  text_eq_self, first, value_of?, get_entry-first, find_entry_node-first,
}

-- `radCfPutComment`.
unfoldable pub put_comment : (memory_ok : Bool) → (text : Text) → List Line → Change
put_comment memory_ok t ls =
    if not memory_ok
    then changed ls error
    else if fits max_line_length t
    then changed (ls ++ comment t ∷ []) ok
    else spoilt

-- `radCfPutCommentBefore`.
unfoldable pub put_comment_before :
    (memory_ok : Bool)
    → (id : Text) → (wanted : Option Text) → (comment_text : Text) → List Line
    → Change
put_comment_before memory_ok id inst t ls = elim (find_entry_node id inst ls) [
  | none ↦ changed ls error
  | some n ↦
      if not memory_ok
      then changed ls error
      else if fits max_line_length t
      then changed (n.before ++ comment t ∷ n.this_line ∷ n.behind) ok
      else spoilt
]

abbrev pub is_comment : Text → Line → Bool
is_comment t (comment c) = text_eq c t
is_comment t (entry e) = false

-- The loops of `radCfIsCommentBefore`, from the last line to the first, and of `radCfIsCommentAfter`.
unfoldable pub found_backwards : Text → List Line → Bool
found_backwards t [] = false
found_backwards t (l ∷ ls) = found_backwards t ls || is_comment t l

unfoldable pub found_forwards : Text → List Line → Bool
found_forwards t [] = false
found_forwards t (l ∷ ls) = is_comment t l || found_forwards t ls

unfoldable pub is_comment_before :
    (id : Text) → (wanted : Option Text) → (comment_text : Text) → List Line → Bool
is_comment_before id inst t ls = elim (find_entry_node id inst ls) [
  | none ↦ false
  | some n ↦ found_backwards t n.before
]

unfoldable pub is_comment_after :
    (id : Text) → (wanted : Option Text) → (comment_text : Text) → List Line → Bool
is_comment_after id inst t ls = elim (find_entry_node id inst ls) [
  | none ↦ false
  | some n ↦ found_forwards t n.behind
]

-- The list with a line in front of the first of a kind.
abbrev with_comment : (Line → Bool) → Line → List Line → List Line
with_comment p c [] = []
with_comment p c (l ∷ ls) = if p l then c ∷ l ∷ ls else l ∷ with_comment p c ls

abbrev inserted : Line → Option Node → Option Node
inserted c none = none
inserted c (some n) = some (record n { before = n.before ++ c ∷ [] })

abbrev lines_or : List Line → Line → Option Node → List Line
lines_or ls c none = ls
lines_or ls c (some n) = n.before ++ c ∷ n.this_line ∷ n.behind

module _ (id : Text) (i : Option Text) (t : Text) where
  lines_or-insert :
      (passed ls : List Line)
      → lines_or (passed ++ ls) (comment t) (find_entry_node_after id i passed ls)
        ≡ passed ++ with_comment (matches id i) (comment t) ls
  unfolding find_entry_node_after
  lines_or-insert passed [] = refl
  lines_or-insert passed (l ∷ ls) = elim (Bool-cases (matches id i l)) [
    | inl y ↦ rw (find_entry_node_after, y) refl
    | inr m ↦
        rw (find_entry_node_after, m, sym (append_assoc passed (l ∷ []) ls))
          (lines_or-insert (passed ++ l ∷ []) ls
            ∙ append_assoc passed (l ∷ []) (with_comment (matches id i) (comment t) ls))
  ]

  find-insert :
      (passed ls : List Line)
      → find_entry_node_after id i passed (with_comment (matches id i) (comment t) ls)
        ≡ inserted (comment t) (find_entry_node_after id i passed ls)
  unfolding find_entry_node_after matches
  find-insert passed [] = refl
  find-insert passed (l ∷ ls) = elim (Bool-cases (matches id i l)) [
    | inl y ↦ rw (y, find_entry_node_after, y) refl
    | inr m ↦ rw (m, find_entry_node_after, m) (find-insert (passed ++ l ∷ []) ls)
  ]

first-with_comment :
    (p q : Line → Bool) (c : Line) (ls : List Line)
    → q c ≡ false
    → first q (with_comment p c ls) ≡ first q ls
first-with_comment p q c [] h = refl
first-with_comment p q c (l ∷ ls) h = elim (Bool-cases (p l)) [
  | inl y ↦ rw (y, h) refl
  | inr m ↦ rw (m, first-with_comment p q c ls h) refl
]

found_backwards-snoc : (t : Text) (ls : List Line) → found_backwards t (ls ++ comment t ∷ []) ≡ true
unfolding found_backwards
found_backwards-snoc t [] = text_eq_self t
found_backwards-snoc t (l ∷ ls) = rw (found_backwards, found_backwards-snoc t ls) refl

module _ (id : Text) (i : Option Text) (t : Text) (ls : List Line) (f : length t < 512) where
  put_comment_before_found :
      (n : Node)
      → find_entry_node id i ls ≡ some n
      → put_comment_before true id i t ls ≡ changed (with_comment (matches id i) (comment t) ls) ok
  unfolding put_comment_before find_entry_node
  put_comment_before_found n h =
      rw (put_comment_before, h)
        (ground (arith, f, sym (ap (lines_or ls (comment t)) h) ∙ lines_or-insert id i t [] ls))

  is_comment_before_found :
      (n : Node)
      → find_entry_node id i ls ≡ some n
      → is_comment_before id i t (with_comment (matches id i) (comment t) ls) ≡ true
  unfolding is_comment_before find_entry_node
  is_comment_before_found n h =
      rw (is_comment_before, find_insert, h) (found_backwards-snoc t n.before)
    where
      find_insert :
          find_entry_node_after id i [] (with_comment (matches id i) (comment t) ls)
          ≡ inserted (comment t) (find_entry_node_after id i [] ls)
      find_insert = find-insert id i t [] ls

  get_entry-with_comment :
      (id' : Text) (i' : Option Text)
      → get_entry id' i' (with_comment (matches id i) (comment t) ls) ≡ get_entry id' i' ls
  unfolding matches
  get_entry-with_comment id' i' =
      get_entry-first id' i' (with_comment (matches id i) (comment t) ls)
      ∙ ap value_of? (first-with_comment (matches id i) (matches id' i') (comment t) ls refl)
      ∙ sym (get_entry-first id' i' ls)

  -- If the comment fits into a line, radCfPutCommentBefore either finds no entry of the key, and then
  -- changes nothing and returns ERROR; or, while there is a buffer, it succeeds, and then
  -- radCfIsCommentBefore finds the comment before that entry, and radCfGetEntry returns for every key
  -- what it returned before.
  pub put_comment_before-is_comment_before :
      ((put_comment_before true id i t ls ≡ changed ls error) × (get_entry id i ls ≡ none))
      ⊎ ((ls' : List Line) × (put_comment_before true id i t ls ≡ changed ls' ok)
          × (is_comment_before id i t ls' ≡ true)
          × ((id' : Text) (i' : Option Text) → get_entry id' i' ls' ≡ get_entry id' i' ls))
  unfolding put_comment_before
  put_comment_before-is_comment_before = elim (Option-cases (find_entry_node id i ls)) [
    | inl h ↦ inl (
      rw (put_comment_before, h) refl,
      get_entry-first id i ls ∙ ap value_of? (find_entry_node-first id i ls none h),
    )
    | inr (n, h) ↦ inr (
      with_comment (matches id i) (comment t) ls,
      put_comment_before_found n h,
      is_comment_before_found n h,
      get_entry-with_comment,
    )
  ]
