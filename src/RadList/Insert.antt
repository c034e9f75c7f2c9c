-- ===== src/RadList/Insert.antt =====
-- radlist.c: the four insertions.
use mathlib.Core.Path.{subst}
use radlib.Base.{◌≡◌, refl, sym, ◌≢◌, List, [], ◌∷◌, ◌++◌, append_assoc, append-nil, arith}
use radlib.RadList.{
  Ptr, State, set_next, set_prev, count_up, insert_after, insert_before, add_to_front, add_to_end,
}
use radlib.RadList.Order.{Spliced}
use radlib.RadList.Chain.{
  IsList, IsFresh, IsList-splice, pred_of, succ_of, pred_of-snoc, cut, Gap, IsList-Gap, fresh_apart,
}

module _ (s : State) (n : Ptr) where
  -- A call that links `n` into a gap.
  insert_at :
      (t : State) (ys zs : List Ptr)
      → IsList s (ys ++ zs)
      → IsFresh s (ys ++ zs) n
      → t.list ≡ count_up s.list
      → Spliced s.memory t.memory (pred_of s.list.first_node ys) n (succ_of zs s.list.last_node)
      → IsList t (ys ++ n ∷ zs)
  insert_at t ys zs v f e w =
      let c = cut s.list.first_node s.list.last_node ys zs in
      IsList-splice s t (pred_of s.list.first_node ys) n (succ_of zs s.list.last_node) c.before
        c.behind (ys ++ zs) (ys ++ n ∷ zs) v f.outside f.ne_null c.closed (c.opened n) e w

  module _ (p q : Ptr) (g : Gap s p q) (out : (n ≢ p) × (n ≢ q)) where
    insert_after-Spliced : Spliced s.memory (insert_after s p n).memory p n q
    unfolding insert_after set_next set_prev
    insert_after-Spliced = record { nexts = λ a. ground (arith, g); prevs = λ a. ground (arith, g) }

    insert_before-Spliced : Spliced s.memory (insert_before s q n).memory p n q
    unfolding insert_before set_next set_prev
    insert_before-Spliced = record {
      nexts = λ a. ground (arith, g);
      prevs = λ a. ground (arith, g);
    }

  add_to_front-insert_after : add_to_front s n ≡ insert_after s s.list.first_node n
  unfolding add_to_front insert_after set_next set_prev
  add_to_front-insert_after = refl

  add_to_end-insert_before : add_to_end s n ≡ insert_before s s.list.last_node n
  unfolding add_to_end insert_before set_next set_prev
  add_to_end-insert_before = refl

  list-insert :
      (a : Ptr)
      → ((insert_after s a n).list ≡ count_up s.list)
        × ((insert_before s a n).list ≡ count_up s.list)
  unfolding insert_after insert_before
  list-insert a = (refl, refl)

  insert_after-gap :
      (p : Ptr) (ys zs : List Ptr)
      → p ≡ pred_of s.list.first_node ys
      → IsList s (ys ++ zs)
      → IsFresh s (ys ++ zs) n
      → IsList (insert_after s p n) (ys ++ n ∷ zs)
  insert_after-gap p ys zs e v f =
      let first = s.list.first_node in
      let last = s.list.last_node in
      subst (λ p. IsList (insert_after s p n) (ys ++ n ∷ zs)) (sym e)
        (insert_at (insert_after s (pred_of first ys) n) ys zs v f
          (list-insert (pred_of first ys)).0
          (insert_after-Spliced (pred_of first ys) (succ_of zs last) (IsList-Gap s ys zs v)
            (fresh_apart s ys zs n f)))

  insert_before-gap :
      (q : Ptr) (ys zs : List Ptr)
      → q ≡ succ_of zs s.list.last_node
      → IsList s (ys ++ zs)
      → IsFresh s (ys ++ zs) n
      → IsList (insert_before s q n) (ys ++ n ∷ zs)
  insert_before-gap q ys zs e v f =
      let first = s.list.first_node in
      let last = s.list.last_node in
      subst (λ q. IsList (insert_before s q n) (ys ++ n ∷ zs)) (sym e)
        (insert_at (insert_before s (succ_of zs last) n) ys zs v f (list-insert (succ_of zs last)).1
          (insert_before-Spliced (pred_of first ys) (succ_of zs last) (IsList-Gap s ys zs v)
            (fresh_apart s ys zs n f)))

  -- Given a valid list with the node `a` in it and a fresh node `n`, `radListInsertAfter` puts `n`
  -- directly behind `a` and `radListInsertBefore` directly before it. The list stays valid, and
  -- every other node keeps its place.
  pub insert_lem :
      (a : Ptr) (ys zs : List Ptr)
      → IsList s (ys ++ a ∷ zs)
      → IsFresh s (ys ++ a ∷ zs) n
      → IsList (insert_after s a n) (ys ++ a ∷ n ∷ zs)
        × IsList (insert_before s a n) (ys ++ n ∷ a ∷ zs)
  insert_lem a ys zs v f =
      let e = append_assoc ys (a ∷ []) zs in
      (
        subst (IsList (insert_after s a n)) (append_assoc ys (a ∷ []) (n ∷ zs)) (
            insert_after-gap a (ys ++ a ∷ []) zs (sym (pred_of-snoc s.list.first_node a ys))
              (subst (IsList s) (sym e) v) (subst (λ r. IsFresh s r n) (sym e) f)),
        insert_before-gap a ys (a ∷ zs) refl v f,
      )

  -- Given a valid list and a fresh node, `radListAddToFront` and `radListAddToEnd` make the node the
  -- first and the last one. The list stays valid, and the others keep their order.
  pub add_lem :
      (xs : List Ptr)
      → IsList s xs
      → IsFresh s xs n
      → IsList (add_to_front s n) (n ∷ xs) × IsList (add_to_end s n) (xs ++ n ∷ [])
  add_lem xs v f = (
    subst (λ t. IsList t (n ∷ xs)) (sym add_to_front-insert_after)
        (insert_after-gap s.list.first_node [] xs refl v f),
    subst (λ t. IsList t (xs ++ n ∷ [])) (sym add_to_end-insert_before)
        (insert_before-gap s.list.last_node xs [] refl (subst (IsList s) (sym (append-nil xs)) v)
          (subst (λ r. IsFresh s r n) (sym (append-nil xs)) f)),
  )
