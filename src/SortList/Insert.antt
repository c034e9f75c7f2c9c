-- ===== src/SortList/Insert.antt =====
-- radsortlist.c: insertion and the order of the keys.
use mathlib.Core.Path.{subst}
use radlib.Base.{
  ℕ, zero, suc, ◌<◌, ◌≡◌, refl, sym, ◌∙◌, inl, inr, true, some, List, [], ◌∷◌, ◌++◌, arith,
  append-nil, append_assoc, Bool-cases, ==_ne,
}
use radlib.Base.Lists.{length, All, All-snoc, All-insert, All-map}
use radlib.SysDefs.{ok, ℤ, ◌≤ℤ◌, gt_int}
use radlib.RadList.{Ptr, null, State, insert_before, add_to_end}
use radlib.RadList.Chain.{IsList, IsFresh}
use radlib.RadList.Insert.{insert_lem, add_lem}
use radlib.RadList.Walk.{first_of_list, get_first-list, get_next-list, IsList-Inside}
use radlib.SortList.{insert_loop, insert}

module _ (key : Ptr → ℤ) where
  -- Each key is at most every later one.
  abbrev pub Sorted : List Ptr → Type 0
  Sorted [] = Unit
  Sorted (x ∷ xs) = All (λ y. key x ≤ℤ key y) xs × Sorted xs

  -- Where the new node goes: behind the keys that are not greater, before those that are.
  pub record Placed (s : State) (n : Ptr) (xs : List Ptr) (t : State) : Type 0 where
    pub before : List Ptr
    pub behind : List Ptr
    pub parts : xs ≡ before ++ behind
    pub valid : IsList t (before ++ n ∷ behind)
    pub low : All (λ x. key x ≤ℤ key n) before
    pub high : All (λ x. gt_int (key x) (key n) ≡ true) behind
    pub sorted : Sorted (before ++ n ∷ behind)

  Sorted-right : (ys zs : List Ptr) → Sorted (ys ++ zs) → Sorted zs
  Sorted-right [] zs h = h
  Sorted-right (y ∷ ys) zs h = Sorted-right ys zs h.1

  Sorted-insert :
      (n : Ptr) (ys zs : List Ptr)
      → Sorted (ys ++ zs)
      → All (λ x. key x ≤ℤ key n) ys
      → All (λ x. key n ≤ℤ key x) zs
      → Sorted (ys ++ n ∷ zs)
  Sorted-insert n [] zs h low high = (high, h)
  Sorted-insert n (y ∷ ys) zs h low high =
      (All-insert _ n ys zs h.0 low.0, Sorted-insert n ys zs h.1 low.1 high)

  All-high :
      (n z : Ptr) (zs : List Ptr)
      → Sorted (z ∷ zs)
      → gt_int (key z) (key n) ≡ true
      → All (λ x. gt_int (key x) (key n) ≡ true) (z ∷ zs)
  All-high n z zs h g = (g, All-map _ _ zs (λ x p. ground arith) h.0)

  weak :
      (n : Ptr) (zs : List Ptr)
      → All (λ x. gt_int (key x) (key n) ≡ true) zs
      → All (λ x. key n ≤ℤ key x) zs
  weak n zs = All-map _ _ zs (λ x p. ground arith)

  module _ (s : State) (n : Ptr) where
    insert_loop-Placed :
        (fuel : ℕ) (ys zs : List Ptr)
        → IsList s (ys ++ zs)
        → IsFresh s (ys ++ zs) n
        → Sorted (ys ++ zs)
        → All (λ x. key x ≤ℤ key n) ys
        → length zs < fuel
        → (t : State) × (insert_loop key fuel s (first_of_list zs) n ≡ some (ok, t))
          × Placed s n (ys ++ zs) t
    unfolding insert_loop
    insert_loop-Placed zero ys zs v f o low h = absurd (omega arith)
    insert_loop-Placed (suc fuel) ys [] v f o low h =
        let e = append-nil ys in
        (
          add_to_end s n,
          refl,
          record {
            before = ys;
            behind = [];
            parts = refl;
            valid = (add_lem s n ys (subst (IsList s) e v) (subst (λ r. IsFresh s r n) e f)).1;
            low = low;
            high = tt;
            sorted = Sorted-insert n ys [] o low tt;
          },
        )
    insert_loop-Placed (suc fuel) ys (z ∷ zs) v f o low h =
        let ne = ==_ne z null (λ e. (IsList-Inside s z ys zs v).ne_null (sym e)) in
        elim (Bool-cases (gt_int (key z) (key n))) [
          | inl g ↦
              let high = All-high n z zs (Sorted-right ys (z ∷ zs) o) g in
              (
                insert_before s z n,
                rw (ne, g) refl,
                record {
                  before = ys;
                  behind = z ∷ zs;
                  parts = refl;
                  valid = (insert_lem s n z ys zs v f).1;
                  low = low;
                  high = high;
                  sorted = Sorted-insert n ys (z ∷ zs) o low (weak n (z ∷ zs) high);
                },
              )
          | inr g ↦
              let e : (ys ++ z ∷ []) ++ zs ≡ ys ++ z ∷ zs = append_assoc ys (z ∷ []) zs in
              let (t, r, p) =
                insert_loop-Placed fuel (ys ++ z ∷ []) zs (subst (IsList s) (sym e) v)
                  (subst (λ r. IsFresh s r n) (sym e) f) (subst Sorted (sym e) o)
                  (All-snoc _ z ys low (ground arith)) (omega arith) in
              (
                t,
                rw (ne, g, get_next-list s z ys zs v) r,
                record {
                  before = p.before;
                  behind = p.behind;
                  parts = sym e ∙ p.parts;
                  valid = p.valid;
                  low = p.low;
                  high = p.high;
                  sorted = p.sorted;
                },
              )
        ]

    -- On a valid sorted list, with a fresh node and more fuel than nodes, `radSortListInsert`
    -- returns OK. It puts the node behind all nodes whose key is not greater and before all whose
    -- key is greater, keeps the other nodes in their order, and the list is valid and sorted again.
    pub insert-Placed :
        (fuel : ℕ) (xs : List Ptr)
        → IsList s xs
        → IsFresh s xs n
        → Sorted xs
        → length xs < fuel
        → (t : State) × (insert key fuel s n ≡ some (ok, t)) × Placed s n xs t
    unfolding insert
    insert-Placed fuel xs v f o h =
        rw (get_first-list s xs v) (insert_loop-Placed fuel [] xs v f o tt h)
