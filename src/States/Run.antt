-- ===== src/States/Run.antt =====
-- radstates.c: machines whose handlers return states of the table.
use radlib.Base.{
  ℕ, zero, suc, ◌<◌, ◌≡◌, refl, ap, ◌∙◌, true, if◌then◌else◌, Option, none, some, List, [], ◌∷◌,
  arith, Bool-cases, inl, inr,
}
use radlib.Base.Lists.{All, length, get_elem?, replicate}
use radlib.SysDefs.{Status, ok, error, ℤ, pos, negsuc}
use radlib.States.{
  state_max_states, in_table, Handler, States, states_stub, write, write_at, read_at, with_table,
  init, add_handler, rem_handler, process, set_state, reset,
}

abbrev pub status_for : ℤ → Status
status_for state = if in_table state then ok else error

-- A handler that returns a state of the table if it is called in one.
abbrev pub IsHandler : {A : Type 0} → Handler A → Type 0
IsHandler {A} h =
    (state : ℤ) (stimulus : ℕ) (user_data : A)
    → in_table state ≡ true
    → in_table (h state stimulus user_data).0 ≡ true

stub-IsHandler : (A : Type 0) → IsHandler {A = A} states_stub
stub-IsHandler A state stimulus user_data h = h

pub All-replicate : (A : Type 0) (n : ℕ) → All (IsHandler {A = A}) (replicate n states_stub)
All-replicate A zero = tt
All-replicate A (suc n) = (stub-IsHandler A, All-replicate A n)

module _ {A : Type 0} where
  pub record IsValid (s : States A) : Type 0 where
    pub table : length s.state_proc ≡ state_max_states
    pub handlers : All IsHandler s.state_proc
    pub current : in_table s.mstate ≡ true

  -- A write inside the table.
  Wrote : List (Handler A) → Option (List (Handler A)) → Type 0
  Wrote xs o = (ys : List (Handler A)) × (o ≡ some ys) × (length ys ≡ length xs) × All IsHandler ys

  write-Wrote :
      (xs : List (Handler A)) (i : ℕ) (h : Handler A)
      → i < length xs
      → All IsHandler xs
      → IsHandler h
      → Wrote xs (write xs i h)
  unfolding Wrote
  write-Wrote [] i h l a k = absurd (omega arith)
  write-Wrote (x ∷ xs) zero h l a k = (h ∷ xs, refl, refl, (k, a.1))
  write-Wrote (x ∷ xs) (suc i) h l a k =
      let (ys, e, n, b) = write-Wrote xs i h (omega arith) a.1 k in
      (x ∷ ys, rw (write, e) refl, ap suc n, (a.0, b))

  write_at-Wrote :
      (xs : List (Handler A)) (state : ℤ) (h : Handler A)
      → in_table state ≡ true
      → length xs ≡ state_max_states
      → All IsHandler xs
      → IsHandler h
      → Wrote xs (write_at xs state h)
  write_at-Wrote xs (pos i) h b l a k = write-Wrote xs i h (ground arith) a k
  write_at-Wrote xs (negsuc i) h b l a k = absurd (ground arith)

  read-some :
      (xs : List (Handler A)) (i : ℕ)
      → i < length xs
      → All IsHandler xs
      → (h : Handler A) × (get_elem? xs i ≡ some h) × IsHandler h
  read-some [] i l a = absurd (omega arith)
  read-some (x ∷ xs) zero l a = (x, refl, a.0)
  read-some (x ∷ xs) (suc i) l a = read-some xs i (omega arith) a.1

  read_at-some :
      (xs : List (Handler A)) (state : ℤ)
      → in_table state ≡ true
      → length xs ≡ state_max_states
      → All IsHandler xs
      → (h : Handler A) × (read_at xs state ≡ some h) × IsHandler h
  read_at-some xs (pos i) b l a = read-some xs i (ground arith) a
  read_at-some xs (negsuc i) b l a = absurd (ground arith)

  -- A call that stays inside the table and leaves the machine valid.
  abbrev pub Keeps : Status → Option (Status × States A) → Type 0
  Keeps r o = (t : States A) × (o ≡ some (r, t)) × IsValid t

  put-IsValid :
      (s : States A) (o : Option (List (Handler A)))
      → IsValid s
      → Wrote s.state_proc o
      → Keeps ok (with_table s o)
  unfolding Wrote
  put-IsValid s o v (ys, e, n, a) = (
    record s { state_proc = ys },
    ap (with_table s) e,
    record { table = n ∙ v.table; handlers = a; current = v.current },
  )

  -- Adding a handler that returns states of the table, and removing one, whatever the state is that
  -- they are given, never go outside of the table: they return OK exactly for a state of the table, and
  -- keep a machine valid. So do setting the state and resetting; a new machine is valid.
  pub calls-IsValid :
      (s : States A) (state : ℤ) (h : Handler A) (save_data : A)
      → IsValid s
      → IsHandler h
      → Keeps (status_for state) (add_handler s state (some h))
        × Keeps (status_for state) (rem_handler s state)
        × Keeps (status_for state) (some (set_state s state))
        × IsValid (reset s save_data)
        × ((t : States A) × (init true save_data ≡ some t) × IsValid t)
  unfolding init add_handler rem_handler set_state reset
  calls-IsValid s state h save_data v k =
      let fresh : IsValid (reset s save_data) = record {
        table = refl;
        handlers = All-replicate A state_max_states;
        current = v.current;
      } in
      let new : (t : States A) × (init true save_data ≡ some t) × IsValid t = (
        record {
          mstate = pos 0;
          state_proc = replicate state_max_states states_stub;
          user_data = save_data;
        },
        refl,
        record { table = refl; handlers = All-replicate A state_max_states; current = refl },
      ) in
      elim (Bool-cases (in_table state)) [
        | inl y ↦ rw y (
          put-IsValid s _ v (write_at-Wrote s.state_proc state h y v.table v.handlers k),
          put-IsValid s _ v (
              write_at-Wrote s.state_proc state states_stub y v.table v.handlers
                (stub-IsHandler A)),
          (
            record s { mstate = state },
            refl,
            record { table = v.table; handlers = v.handlers; current = y },
          ),
          fresh,
          new,
        )
        | inr n ↦ rw n ((s, refl, v), (s, refl, v), (s, refl, v), fresh, new)
      ]

  -- One stimulus: the handler of the state is called with the state, the stimulus and the user data.
  abbrev pub Handled : States A → (stimulus : ℕ) → States A → Type 0
  Handled s stimulus t =
      (h : Handler A) × (read_at s.state_proc s.mstate ≡ some h)
      × (t ≡ record s {
        mstate = (h s.mstate stimulus s.user_data).0;
        user_data = (h s.mstate stimulus s.user_data).1;
      })

  process-Handled :
      (s : States A) (stimulus : ℕ)
      → IsValid s
      → (t : States A) × (process s stimulus ≡ some t) × Handled s stimulus t × IsValid t
  unfolding process
  process-Handled s stimulus v =
      let (h, e, k) = read_at-some s.state_proc s.mstate v.current v.table v.handlers in
      (
        record s {
          mstate = (h s.mstate stimulus s.user_data).0;
          user_data = (h s.mstate stimulus s.user_data).1;
        },
        rw (process, e) refl,
        (h, e, refl),
        record {
          table = v.table;
          handlers = v.handlers;
          current = k s.mstate stimulus s.user_data v.current;
        },
      )

  -- The stimuli one after the other.
  abbrev pub run : States A → List ℕ → Option (States A)
  run s [] = some s
  run s (x ∷ xs) = elim (process s x) [ none ↦ none | some t ↦ run t xs ]

  abbrev pub HandledAll : States A → (stimuli : List ℕ) → States A → Type 0
  HandledAll s [] t = s ≡ t
  HandledAll s (x ∷ xs) t = (u : States A) × Handled s x u × HandledAll u xs t

  -- A valid machine, whose handlers return states of the table, takes any sequence of stimuli without
  -- going outside of the table, gives each stimulus to the handler that the table has for the state it
  -- is then in, takes its next state and user data from that handler, and is valid at the end.
  pub run-IsValid :
      (s : States A) (stimuli : List ℕ)
      → IsValid s
      → (t : States A) × (run s stimuli ≡ some t) × HandledAll s stimuli t × IsValid t
  run-IsValid s [] v = (s, refl, refl, v)
  run-IsValid s (x ∷ xs) v =
      let (u, e, h, w) = process-Handled s x v in
      let (t, f, hs, r) = run-IsValid u xs w in (t, rw (run, e) f, (u, h, hs), r)
