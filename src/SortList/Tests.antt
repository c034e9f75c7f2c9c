-- ===== src/SortList/Tests.antt =====
-- radsortlist.c: a sorted list of three nodes.
use radlib.Base.{if◌then◌else◌, ◌==◌, ◌≡◌, some, [], ◌∷◌, arith}
use radlib.SysDefs.{Status, ok, ℤ, pos, negsuc}
use radlib.RadList.{Ptr, State}
use radlib.RadList.Tests.{three_nodes, three_nodes-IsList, three_nodes-IsFresh}
use radlib.SortList.{insert, remove_node}
use radlib.SortList.Insert.{Sorted, Placed, insert-Placed}
use radlib.SortList.Search.{Removed, remove_node-Removed}

-- The nodes 10, 12, 11 and 20 have the keys -1, 3, 5 and 4.
abbrev key : Ptr → ℤ
key p = if p == 10 then negsuc 0 else if p == 12 then pos 3 else if p == 20 then pos 4 else pos 5

three_nodes-Sorted : Sorted key (10 ∷ 12 ∷ 11 ∷ [])
three_nodes-Sorted = ((omega arith, (omega arith, tt)), ((omega arith, tt), (tt, tt)))

insert-Placed_example :
    (t : State) × (insert key 4 three_nodes 20 ≡ some (ok, t))
    × Placed key three_nodes 20 (10 ∷ 12 ∷ 11 ∷ []) t
insert-Placed_example =
    insert-Placed key three_nodes 20 4 (10 ∷ 12 ∷ 11 ∷ []) three_nodes-IsList three_nodes-IsFresh
      three_nodes-Sorted (omega arith)

remove_node-Removed_example :
    (r : Status) × (t : State) × (remove_node 4 three_nodes 12 ≡ some (r, t))
    × Removed three_nodes 12 (10 ∷ 12 ∷ 11 ∷ []) r t
remove_node-Removed_example =
    remove_node-Removed three_nodes 12 4 (10 ∷ 12 ∷ 11 ∷ []) three_nodes-IsList (omega arith)
