-- ===== src/ProcList/Start.antt =====
-- radproclist.c: what is started, and which processes a function is called for.
use mathlib.Core.List.{Perm, perm_middle}
use mathlib.Core.List.Perm
use mathlib.Core.Path.{subst}
use radlib.Base.{
  ℕ, ◌≡◌, refl, sym, ◌∙◌, Bool, true, false, if◌then◌else◌, ◌||◌, ◌&&◌, leb, not, some, List, [],
  ◌∷◌, ◌++◌, append_assoc, append-nil, arith, Bool-cases, inl, inr,
}
use radlib.SysDefs.{ok, error, ℤ, pos, negsuc, gt_int}
use radlib.ProcList.{
  ProcData, Call, start_process, sem_take, exec, PlistState, Env, insert_node, create,
  insert_ascending, add, start_loop, start, number_running, exec_all, log,
}
use radlib.ProcList.Order.{Sorted, insert_node-Sorted}

-- A process that is asked for: its entry point, arguments and priority.
pub record Wanted : Type 0 where
  pub entry : ℕ
  pub args : ℕ
  pub priority : ℤ

abbrev pub node_of : Wanted → ProcData
node_of w = record { priority = w.priority; pid = pos 0; entry = w.entry; args = w.args }

-- From 1 to 100.
abbrev pub in_range : ℤ → Bool
in_range (pos n) = leb 1 n && leb n 100
in_range (negsuc n) = false

-- The nodes of those whose priority is in range.
unfoldable pub accepted : List Wanted → List ProcData
accepted [] = []
accepted (w ∷ ws) = if in_range w.priority then node_of w ∷ accepted ws else accepted ws

-- The calls for a list of processes: each is started, and then the semaphore is taken.
unfoldable pub starts : List ProcData → List Call
starts [] = []
starts (n ∷ ns) = start_process n.entry n.args ∷ sem_take ∷ starts ns

insert_node-perm : (n : ProcData) (xs : List ProcData) → Perm (insert_node n xs) (n ∷ xs)
unfolding insert_node
insert_node-perm n [] = Perm.rfl
insert_node-perm n (x ∷ xs) = elim (Bool-cases (gt_int x.priority n.priority)) [
  | inl y ↦ rw y Perm.rfl
  | inr f ↦ rw f (Perm.trans (Perm.cons x (insert_node-perm n xs)) (Perm.swap n x xs))
]

range_lem : (p : ℤ) → (gt_int (pos 1) p || gt_int p (pos 100)) ≡ not (in_range p)
range_lem (pos n) = ground arith
range_lem (negsuc n) = ground arith

module _ (env : Env) where
  -- Several calls of radPlistAdd.
  unfoldable pub add_all : List Wanted → PlistState → PlistState
  add_all [] s = s
  add_all (w ∷ ws) s = add_all ws (add env w.entry w.args w.priority s).0

  start_loop-starts :
      (ns : List ProcData) (cs : List Call) → (start_loop env ns cs).1 ≡ cs ++ starts ns
  unfolding start_loop starts
  start_loop-starts [] cs = sym (append-nil cs)
  start_loop-starts (n ∷ ns) cs =
      start_loop-starts ns (cs ++ (start_process n.entry n.args ∷ sem_take ∷ []))
      ∙ append_assoc cs (start_process n.entry n.args ∷ sem_take ∷ []) (starts ns)

  -- What adding does while there is memory.
  pub record Added (ws : List Wanted) (s t : PlistState) : Type 0 where
    pub perm : Perm t.procs (s.procs ++ accepted ws)
    pub sorted : Sorted s.procs → Sorted t.procs
    pub calls : t.calls ≡ s.calls
    pub has_started : t.has_started ≡ s.has_started

  module _ (memory : (cs : List Call) → env.has_memory cs ≡ true) where
    add-accepted :
        (w : Wanted) (s : PlistState)
        → in_range w.priority ≡ true
        → add env w.entry w.args w.priority s
          ≡ (record s { procs = insert_node (node_of w) s.procs }, ok)
    unfolding add insert_ascending
    add-accepted w s h = rw (add, range_lem w.priority, h, insert_ascending, memory s.calls) refl

    add-refused :
        (w : Wanted) (s : PlistState)
        → in_range w.priority ≡ false
        → add env w.entry w.args w.priority s ≡ (s, error)
    unfolding add
    add-refused w s h = rw (add, range_lem w.priority, h) refl

    accept :
        (w : Wanted) (ws : List Wanted) (s t : PlistState)
        → in_range w.priority ≡ true
        → Added ws (record s { procs = insert_node (node_of w) s.procs }) t
        → Added (w ∷ ws) s t
    unfolding accepted
    accept w ws s t y h = record {
      perm = rw y (
          Perm.trans h.perm (
            Perm.trans (Perm.append_right (accepted ws) (insert_node-perm (node_of w) s.procs))
              (Perm.symm (perm_middle s.procs (accepted ws)))));
      sorted = λ k. h.sorted (insert_node-Sorted (node_of w) s.procs k);
      calls = h.calls;
      has_started = h.has_started;
    }

    refuse :
        (w : Wanted) (ws : List Wanted) (s t : PlistState)
        → in_range w.priority ≡ false
        → Added ws s t
        → Added (w ∷ ws) s t
    unfolding accepted
    refuse w ws s t f h = record {
      perm = rw f h.perm;
      sorted = h.sorted;
      calls = h.calls;
      has_started = h.has_started;
    }

    add_all-Added : (ws : List Wanted) (s : PlistState) → Added ws s (add_all ws s)
    unfolding add_all accepted
    add_all-Added [] s = record {
      perm = rw append-nil Perm.rfl;
      sorted = λ h. h;
      calls = refl;
      has_started = refl;
    }
    add_all-Added (w ∷ ws) s = elim (Bool-cases (in_range w.priority)) [
      | inr f ↦ rw (add-refused w s f) (refuse w ws s (add_all ws s) f (add_all-Added ws s))
      | inl y ↦
          let s' = record s { procs = insert_node (node_of w) s.procs } in
          rw (add-accepted w s y) (accept w ws s (add_all ws s') y (add_all-Added ws s'))
    ]

    -- Processes that are added to a new list, while there is memory, and then started: radPlistStart
    -- starts each one whose priority is from 1 to 100 exactly once, in the order of the priorities,
    -- and waits for it before it starts the next. A second radPlistStart returns ERROR and does
    -- nothing.
    pub start-starts :
        (name : ℕ) (ws : List Wanted) (s : PlistState)
        → create true true true name ≡ some s
        → (ns : List ProcData) × Perm ns (accepted ws)
          × Sorted ns
          × ((start env (add_all ws s)).1 ≡ ok)
          × ((start env (add_all ws s)).0.calls ≡ starts ns)
          × (start env (start env (add_all ws s)).0 ≡ ((start env (add_all ws s)).0, error))
    unfolding create start
    start-starts name ws s e =
        let procs : s.procs ≡ [] = ground arith in
        let calls : s.calls ≡ [] = ground arith in
        let fresh : s.has_started ≡ false = ground arith in
        let a = add_all-Added ws s in
        let t = add_all ws s in
        let idle : t.has_started ≡ false = a.has_started ∙ fresh in
        (
          t.procs,
          subst (λ ps. Perm t.procs (ps ++ accepted ws)) procs a.perm,
          a.sorted (rw procs tt),
          rw (start, idle) refl,
          rw (start, idle) (start_loop-starts t.procs t.calls ∙ rw (a.calls, calls) refl),
          rw (start, idle) refl,
        )

-- The calls of the user's function, for the nodes with a PID above 0.
unfoldable pub running_pids : List ProcData → List Call
running_pids [] = []
running_pids (n ∷ ns) =
    if gt_int n.pid (pos 0) then exec n.pid ∷ running_pids ns else running_pids ns

-- radPlistExecAll calls the function for the PID of each node with one above 0, in the order of the
-- list, changes nothing, and returns what radPlistGetNumberRunning returns.
pub exec_all-number_running :
    (ns : List ProcData) (s : PlistState)
    → exec_all ns s ≡ (record s { calls = s.calls ++ running_pids ns }, number_running ns)
unfolding exec_all running_pids number_running log
exec_all-number_running [] s = rw append-nil refl
exec_all-number_running (n ∷ ns) s = elim (Bool-cases (gt_int n.pid (pos 0))) [
  | inr f ↦ rw f (exec_all-number_running ns s)
  | inl y ↦
      rw (y, exec_all-number_running ns (log s (exec n.pid)))
        (rw (append_assoc s.calls (exec n.pid ∷ []) (running_pids ns)) refl)
]
