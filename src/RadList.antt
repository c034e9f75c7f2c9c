-- ===== src/RadList.antt =====
-- src/radlist.c and h/radlist.h: doubly linked lists with a dummy node at either end, over an
-- explicit memory of nodes. A function that writes through a pointer returns the new memory.
pub mod Order
pub mod Chain
pub mod Insert
pub mod Delete
pub mod Walk
pub mod Ends
pub mod Tests
use radlib.Base.{ℕ, ◌+◌, ◌-◌, ◌%◌, ◌^◌, Bool, if◌then◌else◌, ◌==◌, Option, none, some}

-- A node is its address; 0 is NULL.
abbrev pub Ptr : Type 0
Ptr = ℕ

abbrev pub null : Ptr
null = 0

-- The two links of every node.
pub record Memory : Type 0 where
  pub next_node : Ptr → Ptr
  pub prev_node : Ptr → Ptr

unfoldable pub set_next : Memory → Ptr → Ptr → Memory
set_next m p q = record m { next_node = λ a. if a == p then q else m.next_node a }

unfoldable pub set_prev : Memory → Ptr → Ptr → Memory
set_prev m p q = record m { prev_node = λ a. if a == p then q else m.prev_node a }

-- `struct listTag`: the addresses of the two dummies stand beside the pointers to them.
pub record RadList : Type 0 where
  pub first_node : Ptr
  pub last_node : Ptr
  pub dummy_first : Ptr
  pub dummy_last : Ptr
  pub no_nodes : ℕ

-- A memory with the list that a call works on.
pub record State : Type 0 where
  pub memory : Memory
  pub list : RadList

-- `noNodes` is an `int`, kept as its bit pattern.
abbrev pub int_mod : ℕ
int_mod = 2 ^ 32

unfoldable pub count_up : RadList → RadList
count_up l = record l { no_nodes = (l.no_nodes + 1) % int_mod }

unfoldable pub count_down : RadList → RadList
count_down l = record l { no_nodes = (l.no_nodes + int_mod - 1) % int_mod }

unfoldable pub reset : State → State
reset s =
    let f = s.list.dummy_first in
    let l = s.list.dummy_last in
    record {
      memory = set_next (set_prev (set_next (set_prev s.memory f null) f l) l f) l null;
      list = record s.list { first_node = f; last_node = l; no_nodes = 0 };
    }

-- `address` is what `malloc` returns; the dummies are fields of the block.
unfoldable create : Memory → (address first last : Ptr) → Option State
create m address first last =
    if address == null
    then none
    else some (
        reset (record {
          memory = m;
          list = record {
            first_node = null;
            last_node = null;
            dummy_first = first;
            dummy_last = last;
            no_nodes = 0;
          };
        }))

unfoldable pub insert_after : State → (after node : Ptr) → State
insert_after s after node =
    let m1 = set_next s.memory node (s.memory.next_node after) in
    let m2 = set_prev m1 node after in
    let m3 = set_next m2 after node in
    record { memory = set_prev m3 (m3.next_node node) node; list = count_up s.list }

unfoldable pub insert_before : State → (before node : Ptr) → State
insert_before s before node =
    let m1 = set_prev s.memory node (s.memory.prev_node before) in
    let m2 = set_next m1 node before in
    let m3 = set_prev m2 before node in
    record { memory = set_next m3 (m3.prev_node node) node; list = count_up s.list }

unfoldable pub add_to_front : State → Ptr → State
add_to_front s node =
    let first = s.list.first_node in
    let m1 = set_prev s.memory node first in
    let m2 = set_next m1 node (m1.next_node first) in
    let m3 = set_next m2 first node in
    record { memory = set_prev m3 (m3.next_node node) node; list = count_up s.list }

unfoldable pub add_to_end : State → Ptr → State
add_to_end s node =
    let last = s.list.last_node in
    let m1 = set_prev s.memory node (s.memory.prev_node last) in
    let m2 = set_next m1 node last in
    let m3 = set_prev m2 last node in
    record { memory = set_next m3 (m3.prev_node node) node; list = count_up s.list }

unfoldable pub remove : State → Ptr → State
remove s node =
    let m1 = set_prev s.memory (s.memory.next_node node) (s.memory.prev_node node) in
    record {
      memory = set_next m1 (m1.prev_node node) (m1.next_node node);
      list = count_down s.list;
    }

unfoldable pub remove_first : State → Ptr × State
remove_first s =
    let first = s.list.first_node in
    if s.memory.next_node first == s.list.last_node
    then (null, s)
    else let node = s.memory.next_node first in
      let m1 = set_next s.memory first (s.memory.next_node node) in
      (node, record { memory = set_prev m1 (m1.next_node node) first; list = count_down s.list })

unfoldable pub remove_last : State → Ptr × State
remove_last s =
    let last = s.list.last_node in
    if s.memory.prev_node last == s.list.first_node
    then (null, s)
    else let node = s.memory.prev_node last in
      let m1 = set_prev s.memory last (s.memory.prev_node node) in
      (node, record { memory = set_next m1 (m1.prev_node node) last; list = count_down s.list })

unfoldable pub get_number_of_nodes : State → ℕ
get_number_of_nodes s = s.list.no_nodes

unfoldable pub get_first : State → Ptr
get_first s =
    if s.memory.next_node s.list.first_node == s.list.last_node
    then null
    else s.memory.next_node s.list.first_node

unfoldable pub get_last : State → Ptr
get_last s =
    if s.memory.prev_node s.list.last_node == s.list.first_node
    then null
    else s.memory.prev_node s.list.last_node

unfoldable pub get_next : State → Ptr → Ptr
get_next s after =
    if after == null
    then get_first s
    else if s.memory.next_node after == s.list.last_node
    then null
    else s.memory.next_node after

unfoldable pub get_previous : State → Ptr → Ptr
get_previous s before =
    if before == null
    then get_last s
    else if s.memory.prev_node before == s.list.first_node
    then null
    else s.memory.prev_node before
