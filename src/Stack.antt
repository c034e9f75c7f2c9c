-- ===== src/Stack.antt =====
-- src/radstack.c and h/radstack.h: stacks of linked nodes, over the nodes' links in memory.
pub mod Order
mod Tests
use radlib.Base.{
  ℕ, zero, suc, ◌+◌, ◌-◌, ◌%◌, Bool, if◌then◌else◌, ◌==◌, Option, none, some, List, [], ◌∷◌,
}
use radlib.SysDefs.{Status, ok, uint_mod}
use radlib.RadList.{Ptr, null}

-- A stack with the memory of the nodes; `count` is an `int`, kept as its bit pattern.
pub record Stack : Type 0 where
  pub next : Ptr → Ptr
  pub head : Ptr
  pub count : ℕ

-- `malloc_ok` is whether `malloc` succeeds.
unfoldable init : (malloc_ok : Bool) → (next : Ptr → Ptr) → Option Stack
init malloc_ok next =
    if malloc_ok then some (record { next = next; head = null; count = 0 }) else none

-- What `free` was called with is returned, in order; on fuel.
unfoldable exit_stack : ℕ → Stack → Option (List Ptr)
exit_stack zero s = none
exit_stack (suc fuel) s =
    let rest = exit_stack fuel (record s { head = s.next s.head }) in
    if s.head == null
    then some []
    else elim rest [ none ↦ none | some freed ↦ some (s.head ∷ freed) ]

unfoldable push : Stack → Ptr → Status × Stack
push s new_node = (
  ok,
  record s {
    next = λ a. if a == new_node then s.head else s.next a;
    head = new_node;
    count = (s.count + 1) % uint_mod;
  },
)

unfoldable pop : Stack → Ptr × Stack
pop s =
    if s.head == null
    then (null, s)
    else (s.head, record s { head = s.next s.head; count = (s.count + uint_mod - 1) % uint_mod })

unfoldable count_of : Stack → ℕ
count_of s = s.count
