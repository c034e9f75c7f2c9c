-- ===== src/Timers/Init.antt =====
-- radtimers.c: a new timer list.
use radlib.Base.{ℕ, zero, suc, ◌+◌, ◌<◌, ◌≡◌, refl, ◌≢◌, true, false, some, [], arith, ==_ne, sym}
use radlib.Base.Lists.{has, Distinct, length}
use radlib.RadList.{Ptr, null}
use radlib.Timers.{Timer, TimerList, add_timers, timer_list_create}
use radlib.Timers.Lists.{IsValid}

has-add_timers : (n t size a : ℕ) → a < t → has a (add_timers n t size) ≡ false
unfolding add_timers
has-add_timers zero t size a h = refl
has-add_timers (suc n) t size a h =
    let rest = has-add_timers n (t + size) size a (omega arith) in ground arith

Distinct-add_timers : (n t size : ℕ) → size ≢ 0 → Distinct (add_timers n t size)
unfolding add_timers
Distinct-add_timers zero t size h = tt
Distinct-add_timers (suc n) t size h =
    (has-add_timers n (t + size) size t (omega arith), Distinct-add_timers n (t + size) size h)

length-add_timers : (n t size : ℕ) → length (add_timers n t size) ≡ n
unfolding add_timers
length-add_timers zero t size = refl
length-add_timers (suc n) t size = omega (arith, length-add_timers n (t + size) size)

-- Where `malloc` and the calls on signals succeed, `radTimerListCreate` makes a valid timer list with
-- no timer pending and as many different free timers as were asked for, none of them NULL.
pub timer_list_create-IsValid :
    (memory : Ptr) (list_size timer_size : ℕ) (m : Ptr → Timer) (n : ℕ)
    → memory ≢ null
    → timer_size ≢ 0
    → (s : TimerList) × (timer_list_create memory list_size timer_size true m n ≡ some s)
      × IsValid s
      × (s.pending_list ≡ [])
      × (length s.free_list ≡ n)
      × (has null s.free_list ≡ false)
unfolding timer_list_create
timer_list_create-IsValid memory list_size timer_size m n ne pos =
    let free = add_timers n (memory + list_size) timer_size in
    rw (==_ne memory null ne) (
      _,
      refl,
      record {
        free_distinct = Distinct-add_timers n (memory + list_size) timer_size pos;
        pending_distinct = tt;
        apart = λ a h. refl;
        flags = λ a h. absurd (ground arith);
        counted = sym (length-add_timers n (memory + list_size) timer_size);
      },
      refl,
      length-add_timers n (memory + list_size) timer_size,
      has-add_timers n (memory + list_size) timer_size null (omega arith),
    )
