-- ===== src/RadList/Walk.antt =====
-- radlist.c: the queries, and the order of the nodes.
use mathlib.Core.Path.{subst}
use radlib.Base.{
  ◌≡◌, refl, sym, ap, ◌∙◌, ◌≢◌, false, List, [], ◌∷◌, ◌++◌, append_assoc, append-nil, arith, ◌<◌,
  ◌^◌,
}
use radlib.Base.Lists.{has, length, Distinct}
use radlib.RadList.{
  Ptr, null, State, get_first, get_last, get_next, get_previous, get_number_of_nodes,
}
use radlib.RadList.Order.{has-middle}
use radlib.RadList.Chain.{chain, IsList, pred_of, IsList-Gap, Distinct-right}
use radlib.RadList.Delete.{Gap-before, Gap-behind}

-- A node of a list is neither of its dummies, and not NULL.
pub record Inside (s : State) (x : Ptr) : Type 0 where
  pub ne_first : s.list.first_node ≢ x
  pub ne_last : x ≢ s.list.last_node
  pub ne_null : null ≢ x

pub IsList-Inside : (s : State) (x : Ptr) (ys zs : List Ptr) → IsList s (ys ++ x ∷ zs) → Inside s x
IsList-Inside s x ys zs v =
    let first = s.list.first_node in
    let tail = zs ++ s.list.last_node ∷ [] in
    let e : chain s.list (ys ++ x ∷ zs) ≡ first ∷ ys ++ x ∷ tail =
      ap (◌∷◌ first) (append_assoc ys (x ∷ zs) (s.list.last_node ∷ [])) in
    let d = subst Distinct e v.distinct in
    record {
      ne_first = has-middle first x ys tail d.0;
      ne_last = has-middle x s.list.last_node zs [] (Distinct-right (first ∷ ys) (x ∷ tail) d).0;
      ne_null = has-middle null x (first ∷ ys) tail (subst (λ r. has null r ≡ false) e v.non_null);
    }

-- The first of the nodes that follow, and the last of those that stand before; NULL if none does.
abbrev pub first_of_list : List Ptr → Ptr
first_of_list [] = null
first_of_list (x ∷ xs) = x

abbrev pub last_of_list : List Ptr → Ptr
last_of_list [] = null
last_of_list (x ∷ xs) = pred_of x xs

pub back_split : (y : Ptr) (ys : List Ptr) → (a : List Ptr) × (y ∷ ys ≡ a ++ pred_of y ys ∷ [])
back_split y [] = ([], refl)
back_split y (z ∷ ys) = let (a, e) = back_split z ys in (y ∷ a, ap (◌∷◌ y) e)

pred_of-Inside :
    (s : State) (y : Ptr) (ys zs : List Ptr) → IsList s ((y ∷ ys) ++ zs) → Inside s (pred_of y ys)
pred_of-Inside s y ys zs v =
    let (a, e) = back_split y ys in
    IsList-Inside s (pred_of y ys) a zs
      (subst (IsList s) (ap (λ r. r ++ zs) e ∙ append_assoc a (pred_of y ys ∷ []) zs) v)

module _ (s : State) where
  pub get_first-list : (xs : List Ptr) → IsList s xs → get_first s ≡ first_of_list xs
  unfolding get_first
  get_first-list [] v = ground (arith, IsList-Gap s [] [] v)
  get_first-list (x ∷ xs) v = ground (arith, Gap-before s x [] xs v, IsList-Inside s x [] xs v)

  get_last-list : (xs : List Ptr) → IsList s xs → get_last s ≡ last_of_list xs
  unfolding get_last
  get_last-list [] v = ground (arith, IsList-Gap s [] [] v)
  get_last-list (x ∷ xs) v =
      let v' = subst (IsList s) (sym (append-nil (x ∷ xs))) v in
      ground (arith, IsList-Gap s (x ∷ xs) [] v', pred_of-Inside s x xs [] v')

  pub get_next-list :
      (x : Ptr) (ys zs : List Ptr) → IsList s (ys ++ x ∷ zs) → get_next s x ≡ first_of_list zs
  unfolding get_next
  get_next-list x ys [] v = ground (arith, Gap-behind s x ys [] v, IsList-Inside s x ys [] v)
  get_next-list x ys (z ∷ zs) v = ground (
    arith,
    Gap-behind s x ys (z ∷ zs) v,
    IsList-Inside s x ys (z ∷ zs) v,
    IsList-Inside s z (ys ++ x ∷ []) zs
        (subst (IsList s) (sym (append_assoc ys (x ∷ []) (z ∷ zs))) v),
  )

  pub get_previous-list :
      (x : Ptr) (ys zs : List Ptr) → IsList s (ys ++ x ∷ zs) → get_previous s x ≡ last_of_list ys
  unfolding get_previous
  get_previous-list x [] zs v = ground (arith, Gap-before s x [] zs v, IsList-Inside s x [] zs v)
  get_previous-list x (y ∷ ys) zs v = ground (
    arith,
    Gap-before s x (y ∷ ys) zs v,
    IsList-Inside s x (y ∷ ys) zs v,
    pred_of-Inside s y ys (x ∷ zs) v,
  )

  -- In a valid list `radListGetNext` and `radListGetPrevious` lead from a node to its neighbour in
  -- the order, or to NULL where it has none; from NULL they lead to the first and the last node.
  pub walk_lem :
      (x : Ptr) (ys zs : List Ptr)
      → IsList s (ys ++ x ∷ zs)
      → (get_next s x ≡ first_of_list zs)
        × (get_previous s x ≡ last_of_list ys)
        × (get_next s null ≡ first_of_list (ys ++ x ∷ zs))
        × (get_previous s null ≡ last_of_list (ys ++ x ∷ zs))
  unfolding get_next get_previous
  walk_lem x ys zs v = (
    get_next-list x ys zs v,
    get_previous-list x ys zs v,
    get_first-list (ys ++ x ∷ zs) v,
    get_last-list (ys ++ x ∷ zs) v,
  )

  -- `radListGetNumberOfNodes` of a valid list counts its nodes, if an `int` can.
  pub get_number_of_nodes-length :
      (xs : List Ptr) → IsList s xs → length xs < 2 ^ 31 → get_number_of_nodes s ≡ length xs
  unfolding get_number_of_nodes
  get_number_of_nodes-length xs v h = omega arith
