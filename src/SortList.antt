-- ===== src/SortList.antt =====
-- src/radsortlist.c: a list kept in the order of a key, on the lists of `RadList`.
-- Each loop over the nodes runs on fuel; `none` means that the fuel ran out.
pub mod Insert
pub mod Search
mod Tests
use radlib.Base.{ℕ, zero, suc, Bool, if◌then◌else◌, ◌==◌, Option, none, some, List, [], ◌∷◌}
use radlib.SysDefs.{Status, ok, error, ℤ, gt_int, eq_int}
use radlib.RadList.{
  Ptr, null, State, Memory, reset, insert_before, add_to_end, remove, get_first, get_next,
}

-- The key function of a list: `getKey`, or the node's address (`slDefaultKey`) if that is NULL.
unfoldable pub key_func : (default_key : Ptr → ℤ) → Option (Ptr → ℤ) → Ptr → ℤ
key_func default_key none = default_key
key_func default_key (some get_key) = get_key

-- What `free` was called with is returned, in order.
unfoldable pub exit_loop : ℕ → State → Option (List Ptr × State)
exit_loop zero s = none
exit_loop (suc fuel) s =
    let node = get_first s in
    let rest = exit_loop fuel (remove s node) in
    if node == null
    then some ([], s)
    else elim rest [ none ↦ none | some (freed, t) ↦ some (node ∷ freed, t) ]

module _ (key : Ptr → ℤ) where
  unfoldable pub insert_loop : ℕ → State → (node new_node : Ptr) → Option (Status × State)
  insert_loop zero s node new_node = none
  insert_loop (suc fuel) s node new_node =
      let rest = insert_loop fuel s (get_next s node) new_node in
      if node == null
      then some (ok, add_to_end s new_node)
      else if gt_int (key node) (key new_node)
      then some (ok, insert_before s node new_node)
      else rest

  unfoldable pub insert : ℕ → State → Ptr → Option (Status × State)
  unfolding insert_loop
  insert fuel s new_node = insert_loop fuel s (get_first s) new_node

  unfoldable pub find_loop : ℕ → State → Ptr → ℤ → Option Ptr
  find_loop zero s node k = none
  find_loop (suc fuel) s node k =
      let rest = find_loop fuel s (get_next s node) k in
      if node == null then some null else if eq_int (key node) k then some node else rest

  unfoldable pub find : ℕ → State → ℤ → Option Ptr
  unfolding find_loop
  find fuel s k = find_loop fuel s (get_first s) k

unfoldable pub remove_loop : ℕ → State → (node fnode : Ptr) → Option (Status × State)
remove_loop zero s node fnode = none
remove_loop (suc fuel) s node fnode =
    let rest = remove_loop fuel s (get_next s node) fnode in
    if node == null
    then some (error, s)
    else if node == fnode
    then some (ok, remove s node)
    else rest

unfoldable pub remove_node : ℕ → State → Ptr → Option (Status × State)
unfolding remove_loop
remove_node fuel s fnode = remove_loop fuel s (get_first s) fnode
