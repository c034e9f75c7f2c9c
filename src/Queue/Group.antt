-- ===== src/Queue/Group.antt =====
-- radqueue.c: the loops `while (qdbGetNextGroupName (...) != NULL)`, which start at the index 0, so
-- that they look at the records from the index 1 on.
use radlib.Base.{ℕ, zero, suc, if◌then◌else◌, ◌==◌, Option, none, some}
use radlib.SysDefs.{Status, ok, error}
use radlib.Queue.{Queue}
use radlib.Queue.Table.{get_next_group_name}

-- What is done for a name: an error ends the loop. The process's own name is skipped.
abbrev pub Body : Type 0
Body = ℕ → Queue → Status × Queue

abbrev pub unless_me : Body → Body
unless_me body name q = if name == q.name then (ok, q) else body name q

unfoldable pub group_loop : (fuel index group : ℕ) → Body → Queue → Option (Status × Queue)
unfolding get_next_group_name
group_loop zero index group body q = none
group_loop (suc fuel) index group body q = elim (get_next_group_name q.table index group) [
  | none ↦ some (ok, q)
  | some (i, name) ↦
      let (r, q1) = unless_me body name q in
      elim r [ error ↦ some (error, q1) | ok ↦ group_loop fuel i group body q1 ]
]
