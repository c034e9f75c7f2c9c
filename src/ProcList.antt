-- ===== src/ProcList.antt =====
-- src/radproclist.c and h/radproclist.h: a list of processes, started in the order of their
-- priorities. The list is the sequence of its nodes. Entry points, arguments and names are numbers;
-- the entry point 0 is NULL.
pub mod Order
pub mod Start
mod Tests
use radlib.Base.{
  ℕ, suc, Bool, true, false, if◌then◌else◌, ◌==◌, ◌||◌, not, Option, none, some, List, [], ◌∷◌,
  ◌++◌,
}
use radlib.SysDefs.{Status, ok, error, ℤ, pos, negsuc, gt_int, eq_int}

-- `PROC_DATA`.
pub record ProcData : Type 0 where
  pub priority : ℤ
  pub pid : ℤ
  pub entry : ℕ
  pub args : ℕ

-- The calls of other components: a process is started (`radStartProcess`), its semaphore is taken,
-- given or deleted, the user's function is called for a PID, and a node is freed.
pub data Call : Type 0 where
  start_process : (entry args : ℕ) → Call
  sem_take : Call
  sem_give : Call
  sem_delete : Call
  exec : ℤ → Call
  free_node : ProcData → Call

-- `PROC_LIST`, with the calls made so far.
pub record PlistState : Type 0 where
  pub name : ℕ
  pub has_started : Bool
  pub procs : List ProcData
  pub calls : List Call

-- What the system answers: whether `malloc` gives a node, and what PID `radStartProcess` returns,
-- -1 if it fails.
pub record Env : Type 0 where
  pub has_memory : List Call → Bool
  pub started_pid : List Call → (entry args : ℕ) → ℤ

unfoldable pub log : PlistState → Call → PlistState
log s c = record s { calls = s.calls ++ c ∷ [] }

-- The loop of `insertAscending`: the new node goes behind the last one before the first whose
-- priority is greater.
unfoldable pub insert_node : ProcData → List ProcData → List ProcData
insert_node n [] = n ∷ []
insert_node n (x ∷ xs) = if gt_int x.priority n.priority then n ∷ x ∷ xs else x ∷ insert_node n xs

-- The node as it is when it has been started.
unfoldable pub with_pid : ProcData → ℤ → ProcData
with_pid n pid = record n { pid = pid }

-- `radPlistCreate`, which needs memory, the semaphore and the list.
unfoldable pub create : (memory_ok sem_ok list_ok : Bool) → (parent_name : ℕ) → Option PlistState
create memory_ok sem_ok list_ok parent_name =
    if not memory_ok
    then none
    else if not sem_ok
    then none
    else if not list_ok
    then none
    else some (record { name = parent_name; has_started = false; procs = []; calls = [] })

-- `radPlistDestroy`: every node is freed, from the front.
unfoldable pub free_all : List ProcData → List Call
free_all [] = []
free_all (n ∷ ns) = free_node n ∷ free_all ns

unfoldable pub destroy : PlistState → List Call × Status
unfolding free_all
destroy s = (s.calls ++ (sem_delete ∷ free_all s.procs), ok)

-- `radPlistGetNumberRunning`: the nodes with a PID above 0.
unfoldable pub number_running : List ProcData → ℕ
number_running [] = 0
number_running (n ∷ ns) =
    if gt_int n.pid (pos 0) then suc (number_running ns) else number_running ns

-- `radPlistExecByEntryPoint`.
unfoldable pub exec_by_entry_point :
    (entry_adrs : ℕ) → List ProcData → PlistState → PlistState × Status
unfolding log
exec_by_entry_point e [] s = (s, error)
exec_by_entry_point e (n ∷ ns) s =
    if n.entry == e then (log s (exec n.pid), ok) else exec_by_entry_point e ns s

-- `radPlistExecAll`, with its count.
unfoldable pub exec_all : List ProcData → PlistState → PlistState × ℕ
unfolding log
exec_all [] s = (s, 0)
exec_all (n ∷ ns) s =
    let (s', k) = exec_all ns (log s (exec n.pid)) in
    let counted : PlistState × ℕ = (s', suc k) in
    let rest = exec_all ns s in if gt_int n.pid (pos 0) then counted else rest

-- `radPlistFindByEntryPoint`: the PID of the first node with the entry point, or -1 (ERROR).
unfoldable pub find_by_entry_point : (entry_adrs : ℕ) → List ProcData → ℤ
find_by_entry_point e [] = negsuc 0
find_by_entry_point e (n ∷ ns) = if n.entry == e then n.pid else find_by_entry_point e ns

-- The loop of `radPlistRemovePid`: the nodes without the first that has the PID, and that node.
unfoldable pub remove_first_pid : (pid : ℤ) → List ProcData → Option (ProcData × List ProcData)
remove_first_pid pid [] = none
remove_first_pid pid (n ∷ ns) =
    let rest : Option (ProcData × List ProcData) = elim (remove_first_pid pid ns) [
      | none ↦ none
      | some (m, ms) ↦ some (m, n ∷ ms)
    ] in
    if eq_int n.pid pid then some (n, ns) else rest

unfoldable pub remove_pid : (pid : ℤ) → PlistState → PlistState × Status
unfolding remove_first_pid log
remove_pid pid s = elim (remove_first_pid pid s.procs) [
  | none ↦ (s, error)
  | some (n, ns) ↦ (log (record s { procs = ns }) (free_node n), ok)
]

-- `radPlistProcessReady`, with whether the semaphore is there.
unfoldable pub process_ready : (sem_ok : Bool) → List Call → List Call × Status
process_ready sem_ok cs = if sem_ok then (cs ++ (sem_give ∷ sem_delete ∷ []), ok) else (cs, error)

module _ (env : Env) where
  -- `insertAscending`.
  unfoldable pub insert_ascending :
      (entry args : ℕ) → (priority pid : ℤ) → (start_now : Bool) → PlistState → PlistState × Status
  unfolding log insert_node with_pid
  insert_ascending entry args priority pid start_now s =
      let n : ProcData = record { priority = priority; pid = pid; entry = entry; args = args } in
      let new_pid = env.started_pid s.calls entry args in
      if not (env.has_memory s.calls)
      then (s, error)
      else if start_now
      then (
        log (record s { procs = insert_node (with_pid n new_pid) s.procs })
            (start_process entry args),
        ok,
      )
      else (record s { procs = insert_node n s.procs }, ok)

  -- `radPlistAdd`.
  unfoldable pub add : (entry args : ℕ) → (priority : ℤ) → PlistState → PlistState × Status
  unfolding insert_ascending
  add entry args priority s =
      if gt_int (pos 1) priority || gt_int priority (pos 100)
      then (s, error)
      else insert_ascending entry args priority (pos 0) false s

  -- `radPlistAddPid`.
  unfoldable pub add_pid : (pid : ℤ) → PlistState → PlistState × Status
  unfolding insert_ascending
  add_pid pid s = insert_ascending 0 0 (pos 101) pid false s

  -- `radPlistAddandStart`.
  unfoldable pub add_and_start : (entry args : ℕ) → PlistState → PlistState × Status
  unfolding insert_ascending log
  add_and_start entry args s =
      let (s', r) = insert_ascending entry args (pos 101) (pos 0) true s in (log s' sem_take, r)

  -- The loop of `radPlistStart`: the nodes with their PIDs, and the calls.
  unfoldable pub start_loop : List ProcData → List Call → List ProcData × List Call
  unfolding with_pid
  start_loop [] cs = ([], cs)
  start_loop (n ∷ ns) cs =
      let pid = env.started_pid cs n.entry n.args in
      let (ms, ds) = start_loop ns (cs ++ (start_process n.entry n.args ∷ sem_take ∷ [])) in
      (with_pid n pid ∷ ms, ds)

  unfoldable pub start : PlistState → PlistState × Status
  unfolding start_loop
  start s =
      let (ms, cs) = start_loop s.procs s.calls in
      if s.has_started
      then (s, error)
      else (record s { has_started = true; procs = ms; calls = cs }, ok)
