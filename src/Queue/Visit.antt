-- ===== src/Queue/Visit.antt =====
-- radqueue.c: which records the loops over a group look at.
use radlib.Base.{ℕ, suc, ◌+◌, ◌<◌, ◌≡◌, if◌then◌else◌, ◌==◌, ◌||◌, Bool, false, some, List, [], ◌∷◌}
use radlib.Base.Lists.{length, drop}
use radlib.SysDefs.{Status, ok, error}
use radlib.Queue.{MsgqRecord, Queue, queue_group_all}
use radlib.Queue.Table.{next_loop}
use radlib.Queue.Group.{Body, unless_me}

-- The names of the members of a group, in the order of their records.
abbrev pub group_names : ℕ → List MsgqRecord → List ℕ
group_names g [] = []
group_names g (r ∷ rs) =
    if (r.group == g) || (g == queue_group_all) then r.name ∷ group_names g rs else group_names g rs

-- The names but one.
abbrev pub others : (me : ℕ) → List ℕ → List ℕ
others me [] = []
others me (n ∷ ns) = if n == me then others me ns else n ∷ others me ns

-- A body for one name after the other, up to the first error.
abbrev pub each : Body → List ℕ → Queue → Status × Queue
each body [] q = (ok, q)
each body (n ∷ ns) q =
    let (r, q1) = body n q in elim r [ error ↦ (error, q1) | ok ↦ each body ns q1 ]

abbrev each_but_me : Body → List ℕ → Queue → Status × Queue
each_but_me body [] q = (ok, q)
each_but_me body (n ∷ ns) q =
    let (r, q1) = unless_me body n q in elim r [ error ↦ (error, q1) | ok ↦ each_but_me body ns q1 ]

abbrev Found : (i : ℕ) → List MsgqRecord → (g : ℕ) → Type 0
Found i t g =
    (d : ℕ) × (name : ℕ) × (next_loop i t g ≡ some (i + d, name))
    × (group_names g t ≡ name ∷ group_names g (drop (suc d) t))
    × (length (drop (suc d) t) < length t)

-- What follows the body's call.
abbrev after : Body → List ℕ → Status × Queue → Status × Queue
after body ns o = elim o.0 [ error ↦ (error, o.1) | ok ↦ each_but_me body ns o.1 ]

-- Whether the first record is of the group.
abbrev pub first_in_group : ℕ → List MsgqRecord → Bool
first_in_group g [] = false
first_in_group g (r ∷ rs) = r.group == g || g == queue_group_all
