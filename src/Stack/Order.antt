-- ===== src/Stack/Order.antt =====
-- radstack.c: the order in which nodes come back.
use radlib.Base.{
  ℕ, zero, suc, ◌%◌, ◌<◌, ◌≡◌, ◌≢◌, refl, ap, false, true, if◌then◌else◌, ◌==◌, ==_ne, some, List,
  [], ◌∷◌, arith,
}
use radlib.Base.Lists.{length, has}
use radlib.SysDefs.{uint_mod}
use radlib.RadList.{Ptr, null}
use radlib.Stack.{Stack, exit_stack, push, pop}

-- From `p` the links lead through the nodes `xs` to NULL.
abbrev pub Linked : (Ptr → Ptr) → Ptr → List Ptr → Type 0
Linked next p [] = p ≡ null
Linked next p (x ∷ xs) = (p ≡ x) × (x ≢ null) × Linked next (next x) xs

-- The memory holds the stack of the nodes `xs`, the top first.
pub record IsStack (s : Stack) (xs : List Ptr) : Type 0 where
  pub linked : Linked s.next s.head xs
  pub counted : s.count ≡ length xs % uint_mod

Linked-frame :
    (f g : Ptr → Ptr) (p : Ptr) (xs : List Ptr)
    → ((a : Ptr) → has a xs ≡ true → g a ≡ f a)
    → Linked f p xs
    → Linked g p xs
Linked-frame f g p [] same l = l
Linked-frame f g p (x ∷ xs) same (e, ne, l) =
    let s : g x ≡ f x = same x (ground arith) in
    (e, ne, rw s (Linked-frame f g (f x) xs (λ a m. same a (ground arith)) l))

-- What a pop gives: the top, or NULL with nothing changed if there is none.
abbrev pub Popped : Stack → List Ptr → Ptr × Stack → Type 0
Popped s [] (p, t) = (p ≡ null) × (t ≡ s)
Popped s (x ∷ xs) (p, t) = (p ≡ x) × IsStack t xs

-- `radStackPop` returns the top of the stack and leaves the stack of the others; of an empty stack it
-- returns NULL and changes nothing.
pub pop-Popped : (s : Stack) (xs : List Ptr) → IsStack s xs → Popped s xs (pop s)
unfolding pop
pop-Popped s [] v = let e : s.head ≡ null = v.linked in rw e (refl, refl)
pop-Popped s (x ∷ xs) v =
    let (e, ne, l) = v.linked in
    rw (e, ==_ne x null ne) (refl, record { linked = l; counted = omega (arith, v.counted) })

-- `radStackPush` of a node that is not on the stack puts it on top; a pop then returns it, and leaves
-- the stack of the nodes before.
pub push-IsStack :
    (s : Stack) (n : Ptr) (xs : List Ptr)
    → IsStack s xs
    → n ≢ null
    → has n xs ≡ false
    → IsStack (push s n).1 (n ∷ xs) × Popped (push s n).1 (n ∷ xs) (pop (push s n).1)
unfolding push
push-IsStack s n xs v ne out =
    let g : Ptr → Ptr = λ a. if a == n then s.head else s.next a in
    let l = Linked-frame s.next g s.head xs (λ a m. ground arith) v.linked in
    let here : g n ≡ s.head = ground arith in
    let w : IsStack (push s n).1 (n ∷ xs) = record {
      linked = (refl, ne, rw here l);
      counted = omega (arith, v.counted);
    } in
    (w, pop-Popped (push s n).1 (n ∷ xs) w)

exit_stack-Linked :
    (fuel : ℕ) (s : Stack) (xs : List Ptr)
    → Linked s.next s.head xs
    → length xs < fuel
    → exit_stack fuel s ≡ some xs
unfolding exit_stack
exit_stack-Linked zero s xs l h = absurd (omega arith)
exit_stack-Linked (suc fuel) s [] l h = let e : s.head ≡ null = l in rw e refl
exit_stack-Linked (suc fuel) s (x ∷ xs) (e, ne, l) h =
    let rest = exit_stack-Linked fuel (record s { head = s.next x }) xs l (omega arith) in
    rw (e, ==_ne x null ne, rest) (ap (λ y. some (y ∷ xs)) e)

-- `radStackExit` frees every node once, from the top down; fuel above the length is enough.
pub exit_stack_lem :
    (fuel : ℕ) (s : Stack) (xs : List Ptr)
    → IsStack s xs
    → length xs < fuel
    → exit_stack fuel s ≡ some xs
exit_stack_lem fuel s xs v h = exit_stack-Linked fuel s xs v.linked h
