-- ===== src/ProcList/Order.antt =====
-- radproclist.c: the order of the priorities.
use radlib.Base.{
  ℕ, ◌≡◌, Bool, true, false, ◌||◌, Option, none, some, List, [], ◌∷◌, ◌++◌, arith, Bool-cases,
  Option-cases, inl, inr,
}
use radlib.Base.Lists.{All, All-map}
use radlib.SysDefs.{ℤ, pos, ◌≤ℤ◌, gt_int, eq_int}
use radlib.ProcList.{
  ProcData, Call, start_process, sem_take, PlistState, Env, insert_node, with_pid, insert_ascending,
  add, add_pid, add_and_start, remove_first_pid, remove_pid, start_loop, start, log,
}

-- Each priority is at most every later one.
abbrev pub Below : ProcData → List ProcData → Type 0
Below n = All (λ x. n.priority ≤ℤ x.priority)

abbrev pub Sorted : List ProcData → Type 0
Sorted [] = Unit
Sorted (n ∷ ns) = Below n ns × Sorted ns

le_of_not_gt : (a b : ℤ) → gt_int a b ≡ false → a ≤ℤ b
le_of_not_gt a b h = ground arith

le_of_gt : (a b : ℤ) → gt_int a b ≡ true → b ≤ℤ a
le_of_gt a b h = ground arith

Below-le :
    (n m : ProcData) (ns : List ProcData) → n.priority ≤ℤ m.priority → Below m ns → Below n ns
Below-le n m ns h = All-map _ _ ns (λ x k. omega arith)

All-insert_node {ℓ} :
    (P : ProcData → Type ℓ) (n : ProcData) (xs : List ProcData)
    → All P xs
    → P n
    → All P (insert_node n xs)
unfolding insert_node
All-insert_node P n [] h p = (p, tt)
All-insert_node P n (x ∷ xs) h p = elim (Bool-cases (gt_int x.priority n.priority)) [
  | inl y ↦ rw y (p, h)
  | inr f ↦ rw f (h.0, All-insert_node P n xs h.1 p)
]

pub insert_node-Sorted : (n : ProcData) (xs : List ProcData) → Sorted xs → Sorted (insert_node n xs)
unfolding insert_node
insert_node-Sorted n [] s = (tt, tt)
insert_node-Sorted n (x ∷ xs) s = elim (Bool-cases (gt_int x.priority n.priority)) [
  | inl y ↦ let le = le_of_gt x.priority n.priority y in rw y ((le, Below-le n x xs le s.0), s)
  | inr f ↦ rw f (
    All-insert_node (λ y. x.priority ≤ℤ y.priority) n xs s.0 (le_of_not_gt x.priority n.priority f),
    insert_node-Sorted n xs s.1,
  )
]

-- What is left when a node is taken off.
taken : Option (ProcData × List ProcData) → List ProcData → List ProcData
taken none xs = xs
taken (some (n, ns)) xs = ns

All-remove_first_pid {ℓ} :
    (P : ProcData → Type ℓ) (pid : ℤ) (xs : List ProcData)
    → All P xs
    → All P (taken (remove_first_pid pid xs) xs)
unfolding remove_first_pid taken
All-remove_first_pid P pid [] h = h
All-remove_first_pid P pid (x ∷ xs) h = elim (Bool-cases (eq_int x.pid pid)) [
  | inl y ↦ rw y h.1
  | inr f ↦
      let ih = All-remove_first_pid P pid xs h.1 in
      rw f (elim (Option-cases (remove_first_pid pid xs)) [
        | inl e ↦ rw e h
        | inr (t, e) ↦ rw e (h.0, rw e at ih)
      ])
]

remove_first_pid-Sorted :
    (pid : ℤ) (xs : List ProcData) → Sorted xs → Sorted (taken (remove_first_pid pid xs) xs)
unfolding remove_first_pid taken
remove_first_pid-Sorted pid [] s = s
remove_first_pid-Sorted pid (x ∷ xs) s = elim (Bool-cases (eq_int x.pid pid)) [
  | inl y ↦ rw y s.1
  | inr f ↦
      let ih = remove_first_pid-Sorted pid xs s.1 in
      let all = All-remove_first_pid (λ y. x.priority ≤ℤ y.priority) pid xs s.0 in
      rw f (elim (Option-cases (remove_first_pid pid xs)) [
        | inl e ↦ rw e s
        | inr (t, e) ↦ rw e (rw e at all, rw e at ih)
      ])
]

-- What happens to a process list after it is made.
pub data Op : Type 0 where
  add_op : (entry args : ℕ) → (priority : ℤ) → Op
  add_pid_op : (pid : ℤ) → Op
  add_and_start_op : (entry args : ℕ) → Op
  remove_pid_op : (pid : ℤ) → Op
  start_op : Op

module _ (env : Env) where
  unfoldable pub apply : Op → PlistState → PlistState
  apply (add_op entry args priority) s = (add env entry args priority s).0
  apply (add_pid_op pid) s = (add_pid env pid s).0
  apply (add_and_start_op entry args) s = (add_and_start env entry args s).0
  apply (remove_pid_op pid) s = (remove_pid pid s).0
  apply start_op s = (start env s).0

  unfoldable pub run : List Op → PlistState → PlistState
  unfolding apply
  run [] s = s
  run (o ∷ os) s = run os (apply o s)

  insert_ascending-Sorted :
      (entry args : ℕ) (priority pid : ℤ) (start_now : Bool) (s : PlistState)
      → Sorted s.procs
      → Sorted (insert_ascending env entry args priority pid start_now s).0.procs
  unfolding insert_ascending log
  insert_ascending-Sorted entry args priority pid b s h =
      elim (Bool-cases (env.has_memory s.calls)) [
        | inr f ↦ rw f h
        | inl y ↦ rw y (elim (Bool-cases b) [
          | inl t ↦ rw t (
              insert_node-Sorted
                (with_pid (record { priority = priority; pid = pid; entry = entry; args = args })
                  (env.started_pid s.calls entry args))
                s.procs h)
          | inr n ↦ rw n (
              insert_node-Sorted
                (record { priority = priority; pid = pid; entry = entry; args = args }) s.procs h)
        ])
      ]

  start_loop-Below :
      (n : ProcData) (ns : List ProcData) (cs : List Call)
      → Below n ns
      → Below n (start_loop env ns cs).0
  unfolding start_loop with_pid
  start_loop-Below n [] cs h = tt
  start_loop-Below n (m ∷ ms) cs h =
      (h.0, start_loop-Below n ms (cs ++ (start_process m.entry m.args ∷ sem_take ∷ [])) h.1)

  start_loop-Sorted :
      (ns : List ProcData) (cs : List Call) → Sorted ns → Sorted (start_loop env ns cs).0
  unfolding start_loop with_pid
  start_loop-Sorted [] cs h = tt
  start_loop-Sorted (n ∷ ns) cs h =
      let ds = cs ++ (start_process n.entry n.args ∷ sem_take ∷ []) in
      (start_loop-Below n ns ds h.0, start_loop-Sorted ns ds h.1)

  add-Sorted :
      (entry args : ℕ) (priority : ℤ) (s : PlistState)
      → Sorted s.procs
      → Sorted (add env entry args priority s).0.procs
  unfolding add
  add-Sorted entry args priority s h =
      elim (Bool-cases (gt_int (pos 1) priority || gt_int priority (pos 100))) [
        | inl y ↦ rw (add, y) h
        | inr f ↦ rw (add, f) (insert_ascending-Sorted entry args priority (pos 0) false s h)
      ]

  remove_pid-Sorted :
      (pid : ℤ) (s : PlistState) → Sorted s.procs → Sorted (remove_pid pid s).0.procs
  unfolding remove_pid log taken
  remove_pid-Sorted pid s h =
      let k = remove_first_pid-Sorted pid s.procs h in
      elim (Option-cases (remove_first_pid pid s.procs)) [
        | inl e ↦ rw (remove_pid, e) h
        | inr (t, e) ↦ rw (remove_pid, e) (rw e at k)
      ]

  start-Sorted : (s : PlistState) → Sorted s.procs → Sorted (start env s).0.procs
  unfolding start
  start-Sorted s h = elim (Bool-cases s.has_started) [
    | inl y ↦ rw (start, y) h
    | inr f ↦ rw (start, f) (start_loop-Sorted s.procs s.calls h)
  ]

  apply-Sorted : (o : Op) (s : PlistState) → Sorted s.procs → Sorted (apply o s).procs
  unfolding apply add_pid add_and_start log
  apply-Sorted (add_op entry args priority) s h = add-Sorted entry args priority s h
  apply-Sorted (add_pid_op pid) s h = insert_ascending-Sorted 0 0 (pos 101) pid false s h
  apply-Sorted (add_and_start_op entry args) s h =
      insert_ascending-Sorted entry args (pos 101) (pos 0) true s h
  apply-Sorted (remove_pid_op pid) s h = remove_pid-Sorted pid s h
  apply-Sorted start_op s h = start-Sorted s h

  -- A process list stays in the order of the priorities: whatever processes are added to it, with
  -- any priority, started, added by their PIDs or removed, in any order, and whether or not there
  -- is memory for them.
  pub run-Sorted : (os : List Op) (s : PlistState) → Sorted s.procs → Sorted (run os s).procs
  unfolding run
  run-Sorted [] s h = h
  run-Sorted (o ∷ os) s h = run-Sorted os (apply o s) (apply-Sorted o s h)
