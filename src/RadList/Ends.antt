-- ===== src/RadList/Ends.antt =====
-- radlist.c: taking the end nodes off, and the lists that are made empty.
use radlib.Base.{◌≡◌, refl, sym, ap, ◌∙◌, ◌≢◌, List, [], ◌∷◌, ◌++◌, append-nil, arith}
use radlib.RadList.{
  Ptr, null, State, set_next, set_prev, count_down, remove_first, remove_last, reset,
}
use radlib.RadList.Order.{Joined}
use radlib.RadList.Chain.{IsList, IsList-join, pred_of, succ_of, cut, Gap, IsList-Gap}
use radlib.RadList.Delete.{Gap-before, Gap-behind}
use radlib.RadList.Walk.{IsList-Inside}

module _ (s : State) where
  remove_first-Joined :
      (n q : Ptr)
      → Gap s s.list.first_node n
      → Gap s n q
      → n ≢ s.list.last_node
      → ((remove_first s).0 ≡ n)
        × ((remove_first s).1.list ≡ count_down s.list)
        × Joined s.memory (remove_first s).1.memory s.list.first_node q
  unfolding remove_first set_next set_prev
  remove_first-Joined n q g h ne =
      (ground arith, ground arith, record { nexts = λ a. ground arith; prevs = λ a. ground arith })

  remove_last-Joined :
      (n p : Ptr)
      → Gap s n s.list.last_node
      → Gap s p n
      → s.list.first_node ≢ n
      → ((remove_last s).0 ≡ n)
        × ((remove_last s).1.list ≡ count_down s.list)
        × Joined s.memory (remove_last s).1.memory p s.list.last_node
  unfolding remove_last set_next set_prev
  remove_last-Joined n p g h ne =
      (ground arith, ground arith, record { nexts = λ a. ground arith; prevs = λ a. ground arith })

  remove_first-cons :
      (n : Ptr) (zs : List Ptr)
      → IsList s (n ∷ zs)
      → ((remove_first s).0 ≡ n) × IsList (remove_first s).1 zs
  remove_first-cons n zs v =
      let first = s.list.first_node in
      let last = s.list.last_node in
      let c = cut first last [] zs in
      let (e, l, w) =
        remove_first-Joined n (succ_of zs last) (Gap-before s n [] zs v) (Gap-behind s n [] zs v)
          (IsList-Inside s n [] zs v).ne_last in
      (
        e,
        IsList-join s (remove_first s).1 first n (succ_of zs last) c.before c.behind (n ∷ zs) zs v
            (c.opened n) c.closed l w,
      )

  remove_last-snoc :
      (n : Ptr) (ys : List Ptr)
      → IsList s (ys ++ n ∷ [])
      → ((remove_last s).0 ≡ n) × IsList (remove_last s).1 ys
  remove_last-snoc n ys v =
      let first = s.list.first_node in
      let last = s.list.last_node in
      let c = cut first last ys [] in
      let (e, l, w) =
        remove_last-Joined n (pred_of first ys) (Gap-behind s n ys [] v) (Gap-before s n ys [] v)
          (IsList-Inside s n ys [] v).ne_first in
      (
        e,
        IsList-join s (remove_last s).1 (pred_of first ys) n last c.before c.behind (ys ++ n ∷ [])
            ys v (c.opened n) (ap (λ r. first ∷ r ++ last ∷ []) (sym (append-nil ys)) ∙ c.closed) l
            w,
      )

-- What taking the first node off a list gives: NULL and the same state if there is none.
abbrev pub TookFirst : State → List Ptr → Ptr × State → Type 0
TookFirst s [] (p, t) = (p ≡ null) × (t ≡ s)
TookFirst s (x ∷ xs) (p, t) = (p ≡ x) × IsList t xs

-- `radListRemoveFirst` of a valid list returns the first node and leaves a valid list of the others
-- in order; of an empty list it returns NULL and changes nothing.
pub remove_first_lem : (s : State) (xs : List Ptr) → IsList s xs → TookFirst s xs (remove_first s)
unfolding remove_first
remove_first_lem s [] v = ground (arith, IsList-Gap s [] [] v)
remove_first_lem s (x ∷ xs) v = remove_first-cons s x xs v

-- `radListRemoveLast` of a valid list returns the last node and leaves a valid list of the others in
-- order.
pub remove_last_lem :
    (s : State) (n : Ptr) (ys : List Ptr)
    → IsList s (ys ++ n ∷ [])
    → ((remove_last s).0 ≡ n) × IsList (remove_last s).1 ys
remove_last_lem s n ys v = remove_last-snoc s n ys v

-- On an empty list `radListRemoveLast` returns NULL and changes nothing.
pub remove_last-nil : (s : State) → IsList s [] → remove_last s ≡ (null, s)
unfolding remove_last
remove_last-nil s v = ground (arith, IsList-Gap s [] [] v)

-- `radListReset` makes a valid empty list of any header whose two dummies are different and not
-- NULL, and keeps their addresses.
pub reset-IsList :
    (s : State)
    → null ≢ s.list.dummy_first
    → null ≢ s.list.dummy_last
    → s.list.dummy_first ≢ s.list.dummy_last
    → IsList (reset s) []
      × ((reset s).list.first_node ≡ s.list.dummy_first)
      × ((reset s).list.last_node ≡ s.list.dummy_last)
unfolding reset set_next set_prev
reset-IsList s f l ne = (
  record {
    linked = (ground arith, ground arith, tt);
    distinct = (ground arith, (refl, tt));
    non_null = ground arith;
    counted = omega arith;
  },
  refl,
  refl,
)
