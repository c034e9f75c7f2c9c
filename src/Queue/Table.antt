-- ===== src/Queue/Table.antt =====
-- radqueue.c: the functions on the table of queues, which is the list of its records in use.
use radlib.Base.{
  ℕ, ◌+◌, Bool, true, false, if◌then◌else◌, ◌==◌, ◌&&◌, ◌||◌, leb, Option, none, some, List, [],
  ◌∷◌, ◌++◌,
}
use radlib.Base.Lists.{length, drop}
use radlib.SysDefs.{Status, ok, error}
use radlib.Queue.{MsgqRecord, max_queue_records, queue_group_all}

abbrev pub is_record : (name group : ℕ) → MsgqRecord → Bool
is_record name group r = (r.name == name) && (r.group == group)

unfoldable pub has_record : (name group : ℕ) → List MsgqRecord → Bool
has_record name group [] = false
has_record name group (r ∷ rs) = is_record name group r || has_record name group rs

-- The update flag of a member of the group.
abbrev pub flagged : (group : ℕ) → MsgqRecord → MsgqRecord
flagged group r = if r.group == group then record r { update_flag = true } else r

unfoldable pub flag_all : (group : ℕ) → List MsgqRecord → List MsgqRecord
flag_all group [] = []
flag_all group (r ∷ rs) = flagged group r ∷ flag_all group rs

-- `qdbAddQueue`.
unfoldable pub add_queue : (name group : ℕ) → List MsgqRecord → Status × List MsgqRecord
unfolding has_record flag_all
add_queue name group t =
    if has_record name group t
    then (ok, t)
    else if leb max_queue_records (length t)
    then (error, t)
    else (ok, flag_all group t ++ record { name = name; group = group; update_flag = true } ∷ [])

-- The loop of `qdbDeleteQueue` for one group, which ends at the first match. Only the members before
-- it are flagged.
unfoldable pub delete_one : (name group : ℕ) → List MsgqRecord → Status × List MsgqRecord
delete_one name group [] = (error, [])
delete_one name group (r ∷ rs) =
    let (s, t) = delete_one name group rs in
    if is_record name group (flagged group r) then (ok, rs) else (s, flagged group r ∷ t)

-- The loop for all groups. The record that moves into a deleted one's place is passed over:
-- `passed` tells that the first record is that one. The group 1 is flagged.
unfoldable pub delete_all : (name : ℕ) → (passed : Bool) → List MsgqRecord → Bool × List MsgqRecord
delete_all name passed [] = (false, [])
delete_all name true (r ∷ rs) = let (f, t) = delete_all name false rs in (f, r ∷ t)
delete_all name false (r ∷ rs) =
    let gone = delete_all name true rs in
    let (f, t) = delete_all name false rs in
    if r.name == name then (true, gone.1) else (f, flagged queue_group_all r ∷ t)

unfoldable pub delete_queue : (name group : ℕ) → List MsgqRecord → Status × List MsgqRecord
unfolding delete_one delete_all
delete_queue name group t =
    if group == queue_group_all
    then (let (f, u) = delete_all name false t in (if f then ok else error, u))
    else delete_one name group t

-- The loop of `qdbGetNextGroupName`: `i` is the index of the first record of the list.
unfoldable pub next_loop : (i : ℕ) → List MsgqRecord → (group : ℕ) → Option (ℕ × ℕ)
next_loop i [] group = none
next_loop i (r ∷ rs) group =
    if (r.group == group) || (group == queue_group_all)
    then some (i, r.name)
    else next_loop (i + 1) rs group

-- `qdbGetNextGroupName` returns the new index and the name.
unfoldable pub get_next_group_name : List MsgqRecord → (current_index group : ℕ) → Option (ℕ × ℕ)
unfolding next_loop
get_next_group_name t current_index group =
    next_loop (current_index + 1) (drop (current_index + 1) t) group

-- `qdbIsUpdateFlagSet` clears the flag.
unfoldable pub is_update_flag_set : (name group : ℕ) → List MsgqRecord → Bool × List MsgqRecord
is_update_flag_set name group [] = (false, [])
is_update_flag_set name group (r ∷ rs) =
    let (b, t) = is_update_flag_set name group rs in
    if is_record name group r
    then (r.update_flag, record r { update_flag = false } ∷ rs)
    else (b, r ∷ t)
