-- ===== src/RadList/Delete.antt =====
-- radlist.c: the removal of a node, and the gaps beside it.
use mathlib.Core.Path.{subst}
use radlib.Base.{◌≡◌, refl, sym, List, [], ◌∷◌, ◌++◌, append_assoc, arith}
use radlib.RadList.{Ptr, State, set_next, set_prev, count_down, remove}
use radlib.RadList.Order.{Joined}
use radlib.RadList.Chain.{IsList, IsList-join, pred_of, succ_of, pred_of-snoc, cut, Gap, IsList-Gap}

module _ (s : State) (n p q : Ptr) (g : Gap s p n) (h : Gap s n q) where
  remove-Joined : Joined s.memory (remove s n).memory p q
  unfolding remove set_next set_prev
  remove-Joined = record { nexts = λ a. ground (arith, g, h); prevs = λ a. ground (arith, g, h) }

list-remove : (s : State) (n : Ptr) → (remove s n).list ≡ count_down s.list
unfolding remove
list-remove s n = refl

module _ (s : State) (n : Ptr) (ys zs : List Ptr) where
  pub Gap-before : IsList s (ys ++ n ∷ zs) → Gap s (pred_of s.list.first_node ys) n
  Gap-before v = IsList-Gap s ys (n ∷ zs) v

  pub Gap-behind : IsList s (ys ++ n ∷ zs) → Gap s n (succ_of zs s.list.last_node)
  Gap-behind v =
      subst (λ p. Gap s p (succ_of zs s.list.last_node)) (pred_of-snoc s.list.first_node n ys)
        (IsList-Gap s (ys ++ n ∷ []) zs (subst (IsList s) (sym (append_assoc ys (n ∷ []) zs)) v))

  -- `radListRemove` of a node of a valid list takes that node out and nothing else: the list stays
  -- valid, and the others keep their order.
  pub remove_lem : IsList s (ys ++ n ∷ zs) → IsList (remove s n) (ys ++ zs)
  remove_lem v =
      let first = s.list.first_node in
      let last = s.list.last_node in
      let c = cut first last ys zs in
      IsList-join s (remove s n) (pred_of first ys) n (succ_of zs last) c.before c.behind
        (ys ++ n ∷ zs) (ys ++ zs) v (c.opened n) c.closed (list-remove s n)
        (remove-Joined s n (pred_of first ys) (succ_of zs last) (Gap-before v) (Gap-behind v))
