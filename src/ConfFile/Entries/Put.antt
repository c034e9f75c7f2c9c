-- ===== src/ConfFile/Entries/Put.antt =====
-- radconffile.c: radCfPutEntry, and what radCfGetEntry returns after it.
use radlib.Base.{
  ◌<◌, ◌≡◌, refl, sym, ap, ◌∙◌, ◌⊎◌, inl, inr, Bool, true, false, if◌then◌else◌, Option, none, some,
  List, [], ◌∷◌, ◌++◌, Bool-cases, Option-cases, arith,
}
use radlib.Base.Lists.{length}
use radlib.SysDefs.{ok, error}
use radlib.ConfFile.{Text, Line, entry}
use radlib.ConfFile.Entries.{
  matches, Node, find_entry_node, get_entry, value_of, changed, remark_of, or_empty, new_entry,
  update_line, put_entry,
}
use radlib.ConfFile.Entries.Laws.{
  first, replace, value_of?, get_entry-first, find_entry_node-rejoin, find_entry_node-first,
}
use radlib.ConfFile.Entries.First.{
  Apart, first-replace, first-replace_other, first-snoc, first-snoc_other, matches-update_line,
  value_of-update_line, matches-new_entry, matches-Apart,
}

-- What a successful call makes of the list.
unfoldable pub put : (id : Text) → Option Text → (v : Text) → Option Text → List Line → List Line
put id i v c ls = elim (first (matches id i) ls) [
  | none ↦ ls ++ entry (new_entry id i v c) ∷ []
  | some l ↦ replace (matches id i) (update_line v c) ls
]

module _ (id : Text) (i : Option Text) (v : Text) (c : Option Text) (ls : List Line) where
  put_new : first (matches id i) ls ≡ none → put id i v c ls ≡ ls ++ entry (new_entry id i v c) ∷ []
  unfolding put
  put_new h = rw (put, h) refl

  put_found :
      (l : Line)
      → first (matches id i) ls ≡ some l
      → put id i v c ls ≡ replace (matches id i) (update_line v c) ls
  unfolding put
  put_found l h = rw (put, h) refl

  first-put :
      (l : Line)
      → first (matches id i) ls ≡ some l
      → first (matches id i) (put id i v c ls) ≡ some (update_line v c l)
  first-put l h =
      ap (first (matches id i)) (put_found l h)
      ∙ first-replace (matches id i) (update_line v c) ls
          (λ x y. matches-update_line id i v c x ∙ y) l h

  first-holds :
      (xs : List Line) (l : Line) → first (matches id i) xs ≡ some l → matches id i l ≡ true
  first-holds [] l h = ground arith
  first-holds (x ∷ xs) l h = elim (Bool-cases (matches id i x)) [
    | inl y ↦ ground arith
    | inr n ↦
        first-holds xs l (rw (sym (ap (λ b. if b then some x else first (matches id i) xs) n)) h)
  ]

  value_of-new_entry : value_of (entry (new_entry id i v c)) ≡ some v
  unfolding new_entry
  value_of-new_entry = refl

  get_entry-put : get_entry id i (put id i v c ls) ≡ some v
  get_entry-put =
      get_entry-first id i (put id i v c ls) ∙ elim (Option-cases (first (matches id i) ls)) [
        | inl h ↦
            ap (λ ys. value_of? (first (matches id i) ys)) (put_new h)
            ∙ ap value_of? (
                first-snoc (matches id i) ls (entry (new_entry id i v c)) h
                  (matches-new_entry id i v c))
            ∙ value_of-new_entry
        | inr (l, h) ↦
            ap value_of? (first-put l h) ∙ value_of-update_line id i v c l (first-holds ls l h)
      ]

  get_entry-put_other :
      (id' : Text) (i' : Option Text)
      → Apart id i id' i'
      → get_entry id' i' (put id i v c ls) ≡ get_entry id' i' ls
  get_entry-put_other id' i' a =
      get_entry-first id' i' (put id i v c ls)
      ∙ ap value_of? (elim (Option-cases (first (matches id i) ls)) [
        | inl h ↦
            ap (first (matches id' i')) (put_new h)
            ∙ first-snoc_other (matches id' i') ls (entry (new_entry id i v c))
                (matches-Apart id i id' i' a _ (matches-new_entry id i v c))
        | inr (l, h) ↦
            ap (first (matches id' i')) (put_found l h)
            ∙ first-replace_other (matches id i) (update_line v c) (matches id' i') ls (λ x y. (
              matches-Apart id i id' i' a x y,
              matches-Apart id i id' i' a _ (matches-update_line id i v c x ∙ y),
            ))
      ])
      ∙ sym (get_entry-first id' i' ls)

-- The texts of a call fit into the fields of an entry.
abbrev pub Fits : (id : Text) → Option Text → (v : Text) → Option Text → Type 0
Fits id i v c =
    (length id < 64)
    × (length (or_empty i) < 32)
    × (length v < 512)
    × (length (remark_of c []) < 128)

module _ (memory_ok : Bool) (id : Text) (i : Option Text) (v : Text) (c : Option Text)
    (ls : List Line) (f : Fits id i v c) where
  put_entry_new :
      find_entry_node id i ls ≡ none
      → put_entry memory_ok id i v c ls
        ≡ (if memory_ok then changed (put id i v c ls) ok else changed ls error)
  unfolding put_entry
  put_entry_new h =
      rw (put_entry, h, put_new id i v c ls (find_entry_node-first id i ls none h))
        (ground (arith, f))

  put_entry_found :
      (n : Node)
      → find_entry_node id i ls ≡ some n
      → put_entry memory_ok id i v c ls ≡ changed (put id i v c ls) ok
  unfolding put_entry
  put_entry_found n h =
      rw
        (
          put_entry,
          h,
          put_found id i v c ls n.this_line (find_entry_node-first id i ls (some n) h),
          sym (find_entry_node-rejoin (update_line v c) id i ls n h),
        )
        (ground (arith, f))

  -- If the texts fit into an entry, radCfPutEntry writes past no field. It fails only if there is no
  -- entry to update and no buffer for a new one, and then changes nothing. Otherwise radCfGetEntry
  -- returns the new value for the same key, and for every key that no entry shares with it what it
  -- returned before.
  pub put_entry-get_entry :
      ((ls' : List Line) × (put_entry memory_ok id i v c ls ≡ changed ls' ok)
        × (get_entry id i ls' ≡ some v)
        × ((id' : Text) (i' : Option Text)
            → Apart id i id' i'
            → get_entry id' i' ls' ≡ get_entry id' i' ls))
      ⊎ ((put_entry memory_ok id i v c ls ≡ changed ls error)
          × (memory_ok ≡ false)
          × (get_entry id i ls ≡ none))
  put_entry-get_entry = elim (Option-cases (find_entry_node id i ls)) [
    | inl h ↦ elim (Bool-cases memory_ok) [
      | inl y ↦ inl (
          done (
            put_entry_new h
            ∙ ap (λ b. if b then changed (put id i v c ls) ok else changed ls error) y))
      | inr m ↦ inr (
        put_entry_new h ∙ ap (λ b. if b then changed (put id i v c ls) ok else changed ls error) m,
        m,
        get_entry-first id i ls ∙ ap value_of? (find_entry_node-first id i ls none h),
      )
    ]
    | inr (n, h) ↦ inl (done (put_entry_found n h))
  ]
    where
      done :
          put_entry memory_ok id i v c ls ≡ changed (put id i v c ls) ok
          → (ls' : List Line) × (put_entry memory_ok id i v c ls ≡ changed ls' ok)
            × (get_entry id i ls' ≡ some v)
            × ((id' : Text) (i' : Option Text)
                → Apart id i id' i'
                → get_entry id' i' ls' ≡ get_entry id' i' ls)
      done e = (put id i v c ls, e, get_entry-put id i v c ls, get_entry-put_other id i v c ls)
