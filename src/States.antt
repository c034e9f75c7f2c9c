-- ===== src/States.antt =====
-- src/radstates.c and h/radstates.h: state machines with a table of handlers. `A` is the type of the
-- user data, which a handler may change. A handler gets the state and a stimulus.
pub mod Run
mod Tests
use radlib.Base.{
  ℕ, zero, suc, [], ◌∷◌, Bool, true, false, if◌then◌else◌, ltb, Option, none, some, List, not,
}
use radlib.Base.Lists.{get_elem?, replicate}
use radlib.SysDefs.{Status, ok, error, ℤ, pos, negsuc}

abbrev pub state_max_states : ℕ
state_max_states = 32

-- The test of an index into the table.
abbrev pub in_table : ℤ → Bool
in_table (pos n) = ltb n state_max_states
in_table (negsuc n) = false

abbrev pub Handler : Type 0 → Type 0
Handler A = (state : ℤ) → (stimulus : ℕ) → A → ℤ × A

-- `struct statesTag`.
pub record States (A : Type 0) : Type 0 where
  pub mstate : ℤ
  pub state_proc : List (Handler A)
  pub user_data : A

module _ {A : Type 0} where
  abbrev pub states_stub : Handler A
  states_stub state stimulus user_data = (state, user_data)

  -- With whether `malloc` succeeds.
  unfoldable init : (malloc_ok : Bool) → A → Option (States A)
  init malloc_ok save_data =
      if malloc_ok
      then some (record {
        mstate = pos 0;
        state_proc = replicate state_max_states states_stub;
        user_data = save_data;
      })
      else none

  -- A write to the table, and a read of it; none if the program would go outside of it.
  abbrev pub write : List (Handler A) → ℕ → Handler A → Option (List (Handler A))
  write [] i h = none
  write (x ∷ xs) zero h = some (h ∷ xs)
  write (x ∷ xs) (suc i) h = elim (write xs i h) [ none ↦ none | some ys ↦ some (x ∷ ys) ]

  -- An `int` as an index.
  abbrev pub write_at : List (Handler A) → ℤ → Handler A → Option (List (Handler A))
  write_at xs (pos i) h = write xs i h
  write_at xs (negsuc i) h = none

  abbrev pub read_at : List (Handler A) → ℤ → Option (Handler A)
  read_at xs (pos i) = get_elem? xs i
  read_at xs (negsuc i) = none

  abbrev pub with_table : States A → Option (List (Handler A)) → Option (Status × States A)
  with_table s none = none
  with_table s (some xs) = some (ok, record s { state_proc = xs })

  unfoldable add_handler : States A → ℤ → Option (Handler A) → Option (Status × States A)
  add_handler s state handler = if not (in_table state) then some (error, s) else elim handler [
    | none ↦ some (error, s)
    | some h ↦ with_table s (write_at s.state_proc state h)
  ]

  unfoldable rem_handler : States A → ℤ → Option (Status × States A)
  rem_handler s state =
      if not (in_table state)
      then some (error, s)
      else with_table s (write_at s.state_proc state states_stub)

  unfoldable process : States A → (stimulus : ℕ) → Option (States A)
  process s stimulus = elim (read_at s.state_proc s.mstate) [
    | none ↦ none
    | some h ↦
        let (m, u) = h s.mstate stimulus s.user_data in
        some (record s { mstate = m; user_data = u })
  ]

  unfoldable set_state : States A → ℤ → Status × States A
  set_state s state = if not (in_table state) then (error, s) else (ok, record s { mstate = state })

  unfoldable get_state : States A → ℤ
  get_state s = s.mstate

  -- `saveData` is not used.
  unfoldable reset : States A → (save_data : A) → States A
  reset s save_data = record s { state_proc = replicate state_max_states states_stub }
