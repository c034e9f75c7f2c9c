-- ===== src/RadList/Chain.antt =====
-- radlist.c: a state that holds a list of nodes, and the two ways in which a call changes it.
use radlib.Base.{◌+◌, ◌%◌, ◌≡◌, refl, sym, ap, ◌∙◌, ◌≢◌, false, List, [], ◌∷◌, ◌++◌, arith}
use mathlib.Core.Path.{subst}
use radlib.Base.Lists.{length, length-append, has, Distinct}
use radlib.RadList.{Ptr, null, RadList, State, int_mod, count_up, count_down}
use radlib.RadList.Order.{
  Linked, Spliced, Joined, Linked-splice, Linked-join, Linked-around, has-right,
}

-- The list's nodes with its dummies round them.
abbrev pub chain : RadList → List Ptr → List Ptr
chain l xs = l.first_node ∷ xs ++ l.last_node ∷ []

-- The memory holds the list of the nodes `xs`.
pub record IsList (s : State) (xs : List Ptr) : Type 0 where
  pub linked : Linked s.memory (chain s.list xs)
  pub distinct : Distinct (chain s.list xs)
  pub non_null : has null (chain s.list xs) ≡ false
  pub counted : s.list.no_nodes ≡ length xs % int_mod

has-insert :
    (a p n q : Ptr) (xs ys : List Ptr)
    → has a (xs ++ p ∷ q ∷ ys) ≡ false
    → a ≢ n
    → has a (xs ++ p ∷ n ∷ q ∷ ys) ≡ false
has-insert a p n q [] ys h e = ground arith
has-insert a p n q (x ∷ xs) ys h e = ground (arith, has-insert a p n q xs ys)

Distinct-insert :
    (p n q : Ptr) (xs ys : List Ptr)
    → Distinct (xs ++ p ∷ q ∷ ys)
    → has n (xs ++ p ∷ q ∷ ys) ≡ false
    → Distinct (xs ++ p ∷ n ∷ q ∷ ys)
Distinct-insert p n q [] ys d h = (ground arith, (ground arith, d.1))
Distinct-insert p n q (x ∷ xs) ys d h =
    (has-insert x p n q xs ys d.0 (ground arith), Distinct-insert p n q xs ys d.1 (ground arith))

pub has-delete :
    (a p n q : Ptr) (xs ys : List Ptr)
    → has a (xs ++ p ∷ n ∷ q ∷ ys) ≡ false
    → has a (xs ++ p ∷ q ∷ ys) ≡ false
has-delete a p n q [] ys h = ground arith
has-delete a p n q (x ∷ xs) ys h = ground (arith, has-delete a p n q xs ys)

Distinct-delete :
    (p n q : Ptr) (xs ys : List Ptr) → Distinct (xs ++ p ∷ n ∷ q ∷ ys) → Distinct (xs ++ p ∷ q ∷ ys)
Distinct-delete p n q [] ys d = (ground arith, d.1.1)
Distinct-delete p n q (x ∷ xs) ys d =
    (has-delete x p n q xs ys d.0, Distinct-delete p n q xs ys d.1)

length-chain : (l : RadList) (xs : List Ptr) → length (chain l xs) ≡ length xs + 2
length-chain l xs = omega (arith, length-append xs (l.last_node ∷ []))

pub Distinct-right : (xs ys : List Ptr) → Distinct (xs ++ ys) → Distinct ys
Distinct-right [] ys d = d
Distinct-right (x ∷ xs) ys d = Distinct-right xs ys d.1

-- A list with one node more, or one less, by what was written.
module _ (s t : State) (p n q : Ptr) (a b xs ys : List Ptr) where
  pub IsList-splice :
      IsList s xs
      → has n (chain s.list xs) ≡ false
      → n ≢ null
      → chain s.list xs ≡ a ++ p ∷ q ∷ b
      → chain s.list ys ≡ a ++ p ∷ n ∷ q ∷ b
      → t.list ≡ count_up s.list
      → Spliced s.memory t.memory p n q
      → IsList t ys
  unfolding count_up
  IsList-splice v out ne e f c w =
      let g : chain t.list ys ≡ a ++ p ∷ n ∷ q ∷ b = ap (λ l. chain l ys) c ∙ f in
      let d = subst Distinct e v.distinct in
      let o = subst (λ c. has n c ≡ false) e out in
      record {
        linked =
            subst (Linked t.memory) (sym g) (
              Linked-splice s.memory t.memory p n q w a b (subst (Linked s.memory) e v.linked) d o);
        distinct = subst Distinct (sym g) (Distinct-insert p n q a b d o);
        non_null =
            subst (λ c. has null c ≡ false) (sym g)
              (has-insert null p n q a b (subst (λ c. has null c ≡ false) e v.non_null)
                (λ h. ne (sym h)));
        counted =
            ap (λ l. l.no_nodes) c
            ∙ omega (
              arith,
              v.counted,
              length-chain s.list xs,
              length-chain s.list ys,
              ap length e,
              ap length f,
              length-append a (p ∷ q ∷ b),
              length-append a (p ∷ n ∷ q ∷ b),
            );
      }

  pub IsList-join :
      IsList s xs
      → chain s.list xs ≡ a ++ p ∷ n ∷ q ∷ b
      → chain s.list ys ≡ a ++ p ∷ q ∷ b
      → t.list ≡ count_down s.list
      → Joined s.memory t.memory p q
      → IsList t ys
  unfolding count_down
  IsList-join v e f c w =
      let g : chain t.list ys ≡ a ++ p ∷ q ∷ b = ap (λ l. chain l ys) c ∙ f in
      let d = subst Distinct e v.distinct in
      record {
        linked =
            subst (Linked t.memory) (sym g)
              (Linked-join s.memory t.memory p n q w a b (subst (Linked s.memory) e v.linked) d);
        distinct = subst Distinct (sym g) (Distinct-delete p n q a b d);
        non_null =
            subst (λ c. has null c ≡ false) (sym g)
              (has-delete null p n q a b (subst (λ c. has null c ≡ false) e v.non_null));
        counted =
            ap (λ l. l.no_nodes) c
            ∙ omega (
              arith,
              v.counted,
              length-chain s.list xs,
              length-chain s.list ys,
              ap length e,
              ap length f,
              length-append a (p ∷ q ∷ b),
              length-append a (p ∷ n ∷ q ∷ b),
            );
      }

-- The neighbours of the gap between `ys` and `zs`.
abbrev pub pred_of : Ptr → List Ptr → Ptr
pred_of first [] = first
pred_of first (y ∷ ys) = pred_of y ys

abbrev pub succ_of : List Ptr → Ptr → Ptr
succ_of [] last = last
succ_of (z ∷ zs) last = z

pub pred_of-snoc : (first x : Ptr) (ys : List Ptr) → pred_of first (ys ++ x ∷ []) ≡ x
pred_of-snoc first x [] = refl
pred_of-snoc first x (y ∷ ys) = pred_of-snoc y x ys

-- A chain cut at a gap, with and without a node in it.
pub record Cut (first last : Ptr) (ys zs : List Ptr) : Type 0 where
  pub before : List Ptr
  pub behind : List Ptr
  pub closed :
      first ∷ (ys ++ zs) ++ last ∷ [] ≡ before ++ pred_of first ys ∷ succ_of zs last ∷ behind
  pub opened :
      (n : Ptr)
      → first ∷ (ys ++ n ∷ zs) ++ last ∷ []
        ≡ before ++ pred_of first ys ∷ n ∷ succ_of zs last ∷ behind

pub cut : (first last : Ptr) (ys zs : List Ptr) → Cut first last ys zs
cut first last [] [] = record { before = []; behind = []; closed = refl; opened = λ n. refl }
cut first last [] (z ∷ zs) = record {
  before = [];
  behind = zs ++ last ∷ [];
  closed = refl;
  opened = λ n. refl;
}
cut first last (y ∷ ys) zs =
    let c = cut y last ys zs in
    record {
      before = first ∷ c.before;
      behind = c.behind;
      closed = ap (◌∷◌ first) c.closed;
      opened = λ n. ap (◌∷◌ first) (c.opened n);
    }

-- A node that is not on the list and is not NULL.
pub record IsFresh (s : State) (xs : List Ptr) (n : Ptr) : Type 0 where
  pub outside : has n (chain s.list xs) ≡ false
  pub ne_null : n ≢ null

-- What a valid list says of the two nodes round a gap, and of a node in it.
pub record Gap (s : State) (p q : Ptr) : Type 0 where
  pub next : s.memory.next_node p ≡ q
  pub prev : s.memory.prev_node q ≡ p
  pub apart : p ≢ q

module _ (s : State) (ys zs : List Ptr) where
  pub IsList-Gap :
      IsList s (ys ++ zs) → Gap s (pred_of s.list.first_node ys) (succ_of zs s.list.last_node)
  IsList-Gap v =
      let first = s.list.first_node in
      let last = s.list.last_node in
      let c = cut first last ys zs in
      let l =
        Linked-around s.memory (pred_of first ys) (succ_of zs last) c.before c.behind
          (subst (Linked s.memory) c.closed v.linked) in
      let d =
        Distinct-right c.before (pred_of first ys ∷ succ_of zs last ∷ c.behind)
          (subst Distinct c.closed v.distinct) in
      record { next = l.0; prev = l.1; apart = ground arith }

  pub fresh_apart :
      (n : Ptr)
      → IsFresh s (ys ++ zs) n
      → (n ≢ pred_of s.list.first_node ys) × (n ≢ succ_of zs s.list.last_node)
  fresh_apart n f =
      let first = s.list.first_node in
      let last = s.list.last_node in
      let c = cut first last ys zs in
      let o =
        has-right n c.before (pred_of first ys ∷ succ_of zs last ∷ c.behind)
          (subst (λ r. has n r ≡ false) c.closed f.outside) in
      (ground arith, ground arith)
