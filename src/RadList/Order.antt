-- ===== src/RadList/Order.antt =====
-- radlist.c: a memory that holds a list, the nodes in order between the two dummies.
use radlib.Base.{◌≡◌, ◌≢◌, true, false, List, [], ◌∷◌, ◌++◌, arith, ◌==◌, if◌then◌else◌}
use radlib.Base.Lists.{has, Distinct}
use radlib.RadList.{Ptr, Memory}

-- Neighbours point at each other.
abbrev pub Linked : Memory → List Ptr → Type 0
Linked m [] = Unit
Linked m (x ∷ []) = Unit
Linked m (x ∷ y ∷ r) = (m.next_node x ≡ y) × (m.prev_node y ≡ x) × Linked m (y ∷ r)

-- A memory with the same links on a chain.
Linked-frame :
    (m n : Memory) (x : Ptr) (xs : List Ptr)
    → ((a : Ptr) → has a (x ∷ xs) ≡ true → n.next_node a ≡ m.next_node a)
    → ((a : Ptr) → has a xs ≡ true → n.prev_node a ≡ m.prev_node a)
    → Linked m (x ∷ xs)
    → Linked n (x ∷ xs)
Linked-frame m n x [] f g h = tt
Linked-frame m n x (y ∷ r) f g h = (
  ground (arith, f x),
  ground (arith, g y),
  Linked-frame m n y r (λ a i. f a (ground arith)) (λ a i. g a (ground arith)) h.2,
)

-- `m'` is `m` with `n` linked in between `p` and `q`.
pub record Spliced (m m' : Memory) (p n q : Ptr) : Type 0 where
  pub nexts :
      (a : Ptr) → m'.next_node a ≡ (if a == p then n else if a == n then q else m.next_node a)
  pub prevs :
      (a : Ptr) → m'.prev_node a ≡ (if a == q then n else if a == n then p else m.prev_node a)

-- `m'` is `m` with `p` and `q` made neighbours.
pub record Joined (m m' : Memory) (p q : Ptr) : Type 0 where
  pub nexts : (a : Ptr) → m'.next_node a ≡ (if a == p then q else m.next_node a)
  pub prevs : (a : Ptr) → m'.prev_node a ≡ (if a == q then p else m.prev_node a)

pub has-middle : (a p : Ptr) (xs ys : List Ptr) → has a (xs ++ p ∷ ys) ≡ false → a ≢ p
has-middle a p [] ys h = ground arith
has-middle a p (x ∷ xs) ys h = has-middle a p xs ys (ground arith)

pub has-right : (a : Ptr) (xs ys : List Ptr) → has a (xs ++ ys) ≡ false → has a ys ≡ false
has-right a [] ys h = h
has-right a (x ∷ xs) ys h = has-right a xs ys (ground arith)

module _ (m m' : Memory) (p n q : Ptr) (s : Spliced m m' p n q) where
  pub Linked-splice :
      (xs ys : List Ptr)
      → Linked m (xs ++ p ∷ q ∷ ys)
      → Distinct (xs ++ p ∷ q ∷ ys)
      → has n (xs ++ p ∷ q ∷ ys) ≡ false
      → Linked m' (xs ++ p ∷ n ∷ q ∷ ys)
  Linked-splice [] ys l d o = (
    ground (arith, s.nexts p),
    ground (arith, s.prevs n),
    (
      ground (arith, s.nexts n),
      ground (arith, s.prevs q),
      Linked-frame m m' q ys (λ a i. ground (arith, s.nexts a)) (λ a i. ground (arith, s.prevs a))
          l.2,
    ),
  )
  Linked-splice (x ∷ []) ys l d o = (
    ground (arith, s.nexts x),
    ground (arith, s.prevs p),
    Linked-splice [] ys l.2 d.1 (ground arith),
  )
  Linked-splice (x ∷ y ∷ r) ys l d o =
      let xp = has-middle x p (y ∷ r) (q ∷ ys) d.0 in
      let yp = has-middle y p r (q ∷ ys) d.1.0 in
      let yq = has-middle y q [] ys (ground (arith, has-right y r (p ∷ q ∷ ys))) in
      (
        ground (arith, s.nexts x),
        ground (arith, s.prevs y),
        Linked-splice (y ∷ r) ys l.2 d.1 (ground arith),
      )

module _ (m m' : Memory) (p n q : Ptr) (s : Joined m m' p q) where
  pub Linked-join :
      (xs ys : List Ptr)
      → Linked m (xs ++ p ∷ n ∷ q ∷ ys)
      → Distinct (xs ++ p ∷ n ∷ q ∷ ys)
      → Linked m' (xs ++ p ∷ q ∷ ys)
  Linked-join [] ys l d = (
    ground (arith, s.nexts p),
    ground (arith, s.prevs q),
    Linked-frame m m' q ys (λ a i. ground (arith, s.nexts a)) (λ a i. ground (arith, s.prevs a))
        l.2.2,
  )
  Linked-join (x ∷ []) ys l d =
      (ground (arith, s.nexts x), ground (arith, s.prevs p), Linked-join [] ys l.2 d.1)
  Linked-join (x ∷ y ∷ r) ys l d =
      let xp = has-middle x p (y ∷ r) (n ∷ q ∷ ys) d.0 in
      let yq = has-middle y q [] ys (ground (arith, has-right y r (p ∷ n ∷ q ∷ ys))) in
      (ground (arith, s.nexts x), ground (arith, s.prevs y), Linked-join (y ∷ r) ys l.2 d.1)

-- The links around a node inside a chain.
pub Linked-around :
    (m : Memory) (p n : Ptr) (xs ys : List Ptr)
    → Linked m (xs ++ p ∷ n ∷ ys)
    → (m.next_node p ≡ n) × (m.prev_node n ≡ p)
Linked-around m p n [] ys l = (l.0, l.1)
Linked-around m p n (x ∷ []) ys l = (l.2.0, l.2.1)
Linked-around m p n (x ∷ y ∷ r) ys l = Linked-around m p n (y ∷ r) ys l.2
