-- ===== src/States/Tests.antt =====
-- radstates.c: a machine whose handler counts the stimuli and goes on to the next state.
use radlib.Base.{ℕ, suc, ◌+◌, ◌≡◌, refl, true, if◌then◌else◌, ltb, some, [], ◌∷◌, arith}
use radlib.Base.Lists.{replicate}
use radlib.SysDefs.{ok, pos, negsuc}
use radlib.States.{
  Handler, States, states_stub, init, add_handler, rem_handler, set_state, process, reset,
}
use radlib.States.Run.{
  IsHandler, IsValid, Keeps, HandledAll, All-replicate, calls-IsValid, run, run-IsValid,
}

abbrev next : Handler ℕ
next (pos n) stimulus count = (if ltb n 31 then pos (suc n) else pos 0, count + stimulus)
next (negsuc n) stimulus count = (pos 0, count + stimulus)

-- The states 3 and 4 have the handler.
abbrev machine : States ℕ
machine = record {
  mstate = pos 3;
  state_proc = states_stub ∷ states_stub ∷ states_stub ∷ next ∷ next ∷ replicate 27 states_stub;
  user_data = 0;
}

next-IsHandler : IsHandler next
next-IsHandler (pos n) stimulus count h = ground arith
next-IsHandler (negsuc n) stimulus count h = ground arith

stub-IsHandler : IsHandler {A = ℕ} states_stub
stub-IsHandler state stimulus count h = h

machine-IsValid : IsValid machine
machine-IsValid = record {
  table = refl;
  handlers = (
    stub-IsHandler,
    (stub-IsHandler, (stub-IsHandler, (next-IsHandler, (next-IsHandler, All-replicate ℕ 27)))),
  );
  current = refl;
}

-- Two stimuli in the state 3: they are added up, and the machine is in the state 5.
counted : run machine (7 ∷ 8 ∷ []) ≡ some (record machine { mstate = pos 5; user_data = 15 })
unfolding process
counted = refl

calls-IsValid_example :
    Keeps ok (add_handler machine (pos 5) (some next))
    × Keeps ok (rem_handler machine (pos 5))
    × Keeps ok (some (set_state machine (pos 5)))
    × IsValid (reset machine 0)
    × ((t : States ℕ) × (init true 0 ≡ some t) × IsValid t)
calls-IsValid_example = calls-IsValid machine (pos 5) next 0 machine-IsValid next-IsHandler

run-IsValid_example :
    (t : States ℕ) × (run machine (7 ∷ 8 ∷ []) ≡ some t)
    × HandledAll machine (7 ∷ 8 ∷ []) t
    × IsValid t
run-IsValid_example = run-IsValid machine (7 ∷ 8 ∷ []) machine-IsValid
