-- ===== src/Stack/Tests.antt =====
-- radstack.c: a stack of two nodes.
use radlib.Base.{◌≡◌, refl, if◌then◌else◌, ◌==◌, [], ◌∷◌, arith}
use radlib.RadList.{null}
use radlib.Stack.{Stack, push, pop, count_of}
use radlib.Stack.Order.{IsStack, Popped, push-IsStack}

abbrev two_nodes : Stack
two_nodes = record { next = λ a. if a == 7 then 9 else null; head = 7; count = 2 }

two_nodes-IsStack : IsStack two_nodes (7 ∷ 9 ∷ [])
two_nodes-IsStack = record {
  linked = (refl, omega arith, (refl, omega arith, refl));
  counted = refl;
}

two_nodes_count : count_of two_nodes ≡ 2
unfolding count_of
two_nodes_count = refl

push-IsStack_example :
    IsStack (push two_nodes 5).1 (5 ∷ 7 ∷ 9 ∷ [])
    × Popped (push two_nodes 5).1 (5 ∷ 7 ∷ 9 ∷ []) (pop (push two_nodes 5).1)
push-IsStack_example = push-IsStack two_nodes 5 (7 ∷ 9 ∷ []) two_nodes-IsStack (omega arith) refl
