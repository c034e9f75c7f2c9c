-- ===== src/ProcList/Tests.antt =====
-- radproclist.c: a list of three processes.
use mathlib.Core.List.{Perm}
use radlib.Base.{◌≡◌, refl, true, false, some, List, [], ◌∷◌}
use radlib.SysDefs.{ok, error, pos, negsuc}
use radlib.ProcList.{Env, PlistState, ProcData, create, start}
use radlib.ProcList.Order.{
  Sorted, add_op, add_pid_op, add_and_start_op, remove_pid_op, start_op, run, run-Sorted,
}
use radlib.ProcList.Start.{Wanted, accepted, starts, add_all, start-starts}

-- There is memory, and the PID of a process is its entry point.
abbrev env : Env
env = record { has_memory = λ cs. true; started_pid = λ cs e a. pos e }

abbrev empty_list : PlistState
empty_list = record { name = 1; has_started = false; procs = []; calls = [] }

-- The process 3 has a priority that is out of range.
abbrev wanted : List Wanted
wanted =
    record { entry = 1; args = 0; priority = pos 50 }
    ∷ record { entry = 2; args = 0; priority = pos 10 }
    ∷ record { entry = 3; args = 0; priority = negsuc 0 }
    ∷ []

run-Sorted_example :
    Sorted
      (run env
        (add_op 1 0 (pos 50)
          ∷ start_op
          ∷ add_op 2 0 (pos 10)
          ∷ add_and_start_op 4 0
          ∷ add_pid_op (pos 7)
          ∷ remove_pid_op (pos 1)
          ∷ [])
        empty_list).procs
run-Sorted_example =
    run-Sorted env
      (add_op 1 0 (pos 50)
        ∷ start_op
        ∷ add_op 2 0 (pos 10)
        ∷ add_and_start_op 4 0
        ∷ add_pid_op (pos 7)
        ∷ remove_pid_op (pos 1)
        ∷ [])
      empty_list tt

create_lem : create true true true 1 ≡ some empty_list
unfolding create
create_lem = refl

start-starts_example :
    (ns : List ProcData) × Perm ns (accepted wanted)
    × Sorted ns
    × ((start env (add_all env wanted empty_list)).1 ≡ ok)
    × ((start env (add_all env wanted empty_list)).0.calls ≡ starts ns)
    × (start env (start env (add_all env wanted empty_list)).0
        ≡ ((start env (add_all env wanted empty_list)).0, error))
start-starts_example = start-starts env (λ cs. refl) 1 wanted empty_list create_lem
