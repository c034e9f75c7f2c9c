-- ===== src/SortList/Search.antt =====
-- radsortlist.c: removal, search by key, and the release of the whole list.
use mathlib.Core.Path.{subst}
use radlib.Base.{
  ℕ, zero, suc, ◌<◌, ◌≡◌, refl, sym, ◌∙◌, inl, inr, true, false, Bool, some, List, [], ◌∷◌, ◌++◌,
  arith, append_assoc, Bool-cases, ◌==◌, ==_ne, if◌then◌else◌,
}
use radlib.Base.Lists.{length, has, erase}
use radlib.SysDefs.{Status, ok, error, ℤ, eq_int}
use radlib.RadList.{Ptr, null, State, remove}
use radlib.RadList.Chain.{IsList}
use radlib.RadList.Delete.{remove_lem}
use radlib.RadList.Walk.{first_of_list, get_first-list, get_next-list, IsList-Inside}
use radlib.SortList.{exit_loop, remove_loop, remove_node, find_loop, find}

-- The first node with a property, NULL if there is none.
abbrev pub find_node : (Ptr → Bool) → List Ptr → Ptr
find_node p [] = null
find_node p (x ∷ xs) = if p x then x else find_node p xs

module _ (s : State) where
  find_loop-find_node :
      (key : Ptr → ℤ) (k : ℤ) (fuel : ℕ) (ys zs : List Ptr)
      → IsList s (ys ++ zs)
      → length zs < fuel
      → find_loop key fuel s (first_of_list zs) k ≡ some (find_node (λ x. eq_int (key x) k) zs)
  unfolding find_loop
  find_loop-find_node key k zero ys zs v h = absurd (omega arith)
  find_loop-find_node key k (suc fuel) ys [] v h = refl
  find_loop-find_node key k (suc fuel) ys (z ∷ zs) v h =
      let ne = ==_ne z null (λ e. (IsList-Inside s z ys zs v).ne_null (sym e)) in
      let e : (ys ++ z ∷ []) ++ zs ≡ ys ++ z ∷ zs = append_assoc ys (z ∷ []) zs in
      let ih =
        find_loop-find_node key k fuel (ys ++ z ∷ []) zs (subst (IsList s) (sym e) v)
          (omega arith) in
      rw (ne, get_next-list s z ys zs v, ih)
        (elim (Bool-cases (eq_int (key z) k)) [ inl g ↦ rw g | inr g ↦ rw g ])

  -- On a valid list, with more fuel than nodes, `radSortListFind` returns the first node with the
  -- key, and NULL if no node has it.
  pub find-find_node :
      (key : Ptr → ℤ) (k : ℤ) (fuel : ℕ) (xs : List Ptr)
      → IsList s xs
      → length xs < fuel
      → find key fuel s k ≡ some (find_node (λ x. eq_int (key x) k) xs)
  unfolding find
  find-find_node key k fuel xs v h =
      rw (get_first-list s xs v) (find_loop-find_node key k fuel [] xs v h)

  -- The outcome of a removal.
  pub record Removed (n : Ptr) (xs : List Ptr) (r : Status) (t : State) : Type 0 where
    pub status : r ≡ (if has n xs then ok else error)
    pub valid : IsList t (erase n xs)
    pub kept : has n xs ≡ false → t ≡ s

  remove_loop-Removed :
      (n : Ptr) (fuel : ℕ) (ys zs : List Ptr)
      → IsList s (ys ++ zs)
      → length zs < fuel
      → (r : Status) × (t : State) × (remove_loop fuel s (first_of_list zs) n ≡ some (r, t))
        × (r ≡ (if has n zs then ok else error))
        × IsList t (ys ++ erase n zs)
        × (has n zs ≡ false → t ≡ s)
  unfolding remove_loop
  remove_loop-Removed n zero ys zs v h = absurd (omega arith)
  remove_loop-Removed n (suc fuel) ys [] v h = (error, s, refl, refl, v, λ _. refl)
  remove_loop-Removed n (suc fuel) ys (z ∷ zs) v h =
      let ne = ==_ne z null (λ e. (IsList-Inside s z ys zs v).ne_null (sym e)) in
      elim (Bool-cases (z == n)) [
        | inl g ↦
            let found : has n (z ∷ zs) ≡ true = ground arith in
            (
              ok,
              remove s z,
              rw (ne, g) refl,
              rw found refl,
              rw g (remove_lem s z ys zs v),
              λ out. ground arith,
            )
        | inr g ↦
            let e : (ys ++ z ∷ []) ++ zs ≡ ys ++ z ∷ zs = append_assoc ys (z ∷ []) zs in
            let same : has n (z ∷ zs) ≡ has n zs = ground arith in
            let (r, t, run, status, valid, kept) =
              remove_loop-Removed n fuel (ys ++ z ∷ []) zs (subst (IsList s) (sym e) v)
                (omega arith) in
            (
              r,
              t,
              rw (ne, g, get_next-list s z ys zs v) run,
              rw same status,
              rw g (subst (IsList t) (append_assoc ys (z ∷ []) (erase n zs)) valid),
              λ out. kept (sym same ∙ out),
            )
      ]

  -- On a valid list, with more fuel than nodes, `radSortListRemove` takes out the given node and
  -- returns OK if the node is on the list. Otherwise it returns ERROR and changes nothing.
  pub remove_node-Removed :
      (n : Ptr) (fuel : ℕ) (xs : List Ptr)
      → IsList s xs
      → length xs < fuel
      → (r : Status) × (t : State) × (remove_node fuel s n ≡ some (r, t)) × Removed n xs r t
  unfolding remove_node
  remove_node-Removed n fuel xs v h =
      let (r, t, run, status, valid, kept) = remove_loop-Removed n fuel [] xs v h in
      (r, t, rw (get_first-list s xs v) run, record { status = status; valid = valid; kept = kept })

-- On a valid list, with more fuel than nodes, the loop of `radSortListExit` frees every node once,
-- in order, and leaves an empty valid list.
pub exit_loop_lem :
    (fuel : ℕ) (s : State) (xs : List Ptr)
    → IsList s xs
    → length xs < fuel
    → (t : State) × (exit_loop fuel s ≡ some (xs, t)) × IsList t []
unfolding exit_loop
exit_loop_lem zero s xs v h = absurd (omega arith)
exit_loop_lem (suc fuel) s [] v h = (s, rw (get_first-list s [] v) refl, v)
exit_loop_lem (suc fuel) s (x ∷ xs) v h =
    let ne = ==_ne x null (λ e. (IsList-Inside s x [] xs v).ne_null (sym e)) in
    let (t, run, empty) =
      exit_loop_lem fuel (remove s x) xs (remove_lem s x [] xs v) (omega arith) in
    let first = get_first-list s (x ∷ xs) v in (t, rw (first, ne, run, first) refl, empty)
