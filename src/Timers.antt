-- ===== src/Timers.antt =====
-- src/radtimers.c and h/radtimers.h: timers with a countdown each, on a free and a pending list.
-- A list is the sequence of its nodes: what the calls of src/radlist.c do to that sequence is the
-- subject of `RadList`. SIGALRM is blocked while a call changes the lists, so a call is one step.
pub mod Tick
pub mod Expire
pub mod Service
pub mod Lists
pub mod Calls
pub mod Init
mod Tests
use radlib.Base.{
  ℕ, zero, suc, ◌+◌, ◌-◌, ◌%◌, ◌^◌, Bool, true, false, if◌then◌else◌, ◌==◌, leb, ltb, not, ◌&&◌,
  Option, none, some, List, [], ◌∷◌, ◌++◌,
}
use radlib.Base.Lists.{erase}
use radlib.SysDefs.{ulong_mod, uint_mod, ℤ, int_of, ulong_of}
use radlib.RadList.{Ptr, null}

-- `struct timerTag`. A routine is the address of its code.
pub record Timer : Type 0 where
  pub delta_time : ℕ
  pub pending : Bool
  pub routine : ℕ
  pub parm : ℕ

-- The callback message that an expired timer writes to the notify descriptor.
pub record Notice : Type 0 where
  pub callback : ℕ
  pub argument : ℕ

-- `struct timerListTag`, with the timers' memory, the messages written so far and the number of
-- milliseconds that the interval timer was last set to.
pub record TimerList : Type 0 where
  pub no_free_timers : ℕ
  pub free_list : List Ptr
  pub pending_list : List Ptr
  pub last_tick : ℕ
  pub timers : Ptr → Timer
  pub notices : List Notice
  pub interval : ℕ

-- What `radTimeGetMSSinceEpoch` returns, each time that `serviceTimers` calls it.
pub record Readings : Type 0 where
  pub first : ℕ
  pub second : ℕ
  pub third : ℕ

unfoldable pub set_timer : (Ptr → Timer) → Ptr → Timer → Ptr → Timer
set_timer m t v a = if a == t then v else m a

abbrev pub no_delta : ℕ
no_delta = 0xFFFF_FFFF

unfoldable pub remaining : (time delta : ℕ) → ℕ
remaining time delta = if leb time delta then 0 else time - delta

-- `updateTimers`.
unfoldable pub update_loop : ℕ → List Ptr → (Ptr → Timer) → ℕ → (Ptr → Timer) × ℕ
unfolding set_timer remaining
update_loop delta [] m smallest = (m, smallest)
update_loop delta (t ∷ ts) m smallest =
    let d = remaining (m t).delta_time delta in
    update_loop delta ts (set_timer m t (record (m t) { delta_time = d }))
      (if ltb d smallest then d else smallest)

unfoldable pub notice_of : Timer → List Notice
notice_of t = if t.routine == 0 then [] else record { callback = t.routine; argument = t.parm } ∷ []

-- The walk of `processExpiredTimers`: `before` was passed and stays, the list is what is ahead.
-- After a removal the walk goes on from the node before, so to what followed the removed node.
unfoldable pub expired_loop :
    (before ahead : List Ptr) → (Ptr → Timer) → List Notice → List Ptr × (Ptr → Timer) × List Notice
unfolding set_timer notice_of
expired_loop before [] m out = (before, m, out)
expired_loop before (t ∷ ts) m out =
    let gone =
      expired_loop before ts (set_timer m t (record (m t) { pending = false }))
        (out ++ notice_of (m t)) in
    let kept = expired_loop (before ++ t ∷ []) ts m out in
    if (m t).delta_time == 0 then gone else kept

unfoldable pub process_expired : TimerList → TimerList
unfolding expired_loop
process_expired s =
    let (p, m, out) = expired_loop [] s.pending_list s.timers s.notices in
    record s { pending_list = p; timers = m; notices = out }

unfoldable pub number_of_ticks : Readings → TimerList → ℕ
number_of_ticks c s =
    (c.second + ulong_mod - (if s.last_tick == 0 then c.first else s.last_tick)) % ulong_mod

-- The second pass of `serviceTimers`, with no ticks.
unfoldable pub recompute : TimerList → TimerList × ℕ
unfolding update_loop
recompute s =
    let (m, smallest) = update_loop 0 s.pending_list s.timers no_delta in
    (record s { timers = m }, smallest)

-- `serviceTimers` up to its return: the smallest countdown, as a `ULONG`.
unfoldable pub serve : Bool → Readings → TimerList → TimerList × ℕ
unfolding update_loop process_expired recompute number_of_ticks
serve if_process c s =
    let (m, smallest) = update_loop (number_of_ticks c s) s.pending_list s.timers no_delta in
    let s1 = record s { timers = m; last_tick = c.third } in
    if if_process && (smallest == 0) then recompute (process_expired s1) else (s1, smallest)

-- `serviceTimers`, which returns the `ULONG` as an `int`.
unfoldable pub service : Bool → Readings → TimerList → TimerList × ℤ
unfolding serve
service if_process c s = let (s1, smallest) = serve if_process c s in (s1, int_of smallest)

-- `radUtilsSetIntervalTimer (serviceTimers (TRUE))`, also the handler of SIGALRM: the `int` is passed on
-- as an `unsigned long`.
unfoldable pub restart : Readings → TimerList → TimerList
unfolding service
restart c s = let (s1, smallest) = service true c s in record s1 { interval = ulong_of smallest }

-- The loop that fills the free list with the timers of the block.
unfoldable pub add_timers : (rounds : ℕ) → (timer : Ptr) → (timer_size : ℕ) → List Ptr
add_timers zero timer timer_size = []
add_timers (suc rounds) timer timer_size = timer ∷ add_timers rounds (timer + timer_size) timer_size

-- `memory` is what `malloc` returns, the sizes are those of `struct timerListTag` and
-- `struct timerTag`, `signal_ok` is whether `sigaction` and `sigemptyset` succeed.
unfoldable pub timer_list_create :
    (memory : Ptr)
    → (list_size timer_size : ℕ) → (signal_ok : Bool) → (Ptr → Timer)
    → (no_timers : ℕ) → Option TimerList
unfolding add_timers
timer_list_create memory list_size timer_size signal_ok m no_timers =
    if memory == null
    then none
    else if not signal_ok
    then none
    else some (record {
      no_free_timers = no_timers;
      free_list = add_timers no_timers (memory + list_size) timer_size;
      pending_list = [];
      last_tick = 0;
      timers = m;
      notices = [];
      interval = 0;
    })

abbrev pub first_free : List Ptr → Option (Ptr × List Ptr)
first_free [] = none
first_free (t ∷ ts) = some (t, ts)

unfoldable pub set_routine : TimerList → Ptr → (routine parm : ℕ) → TimerList
unfolding set_timer
set_routine s t routine parm = record s {
  timers = set_timer s.timers t (record (s.timers t) { routine = routine; parm = parm });
}

unfoldable pub create : TimerList → Ptr → (routine parm : ℕ) → Ptr × TimerList
unfolding set_routine
create s timer routine parm =
    if timer == null
    then elim (first_free s.free_list) [
      | none ↦ (null, s)
      | some (t, ts) ↦ (
        t,
        set_routine
            (record s {
              free_list = ts;
              no_free_timers = s.no_free_timers - 1;
              timers = set_timer s.timers t (record (s.timers t) { pending = false });
            })
            t routine parm,
      )
    ]
    else (timer, set_routine s timer routine parm)

unfoldable pub leave_pending : TimerList → Ptr → TimerList
unfolding set_timer
leave_pending s timer =
    if (s.timers timer).pending
    then record s {
      timers = set_timer s.timers timer (record (s.timers timer) { pending = false });
      pending_list = erase timer s.pending_list;
    }
    else s

unfoldable pub stop : Readings → TimerList → Ptr → TimerList
unfolding leave_pending restart
stop c s timer = if timer == null then s else restart c (leave_pending s timer)

unfoldable pub enter_free : TimerList → Ptr → TimerList
enter_free s timer = record s {
  free_list = s.free_list ++ timer ∷ [];
  no_free_timers = s.no_free_timers + 1;
}

unfoldable pub delete : Readings → TimerList → Ptr → TimerList
unfolding enter_free
delete c s timer = if timer == null then s else enter_free (stop c s timer) timer

unfoldable pub enter_pending : TimerList → Ptr → ℕ → TimerList
unfolding set_timer
enter_pending s timer time =
    if (s.timers timer).pending
    then record s {
      timers = set_timer s.timers timer (record (s.timers timer) { delta_time = time });
    }
    else record s {
      timers =
          set_timer s.timers timer (record (s.timers timer) { delta_time = time; pending = true });
      pending_list = s.pending_list ++ timer ∷ [];
    }

-- The readings of its two calls of `serviceTimers`.
unfoldable pub start : (before after : Readings) → TimerList → Ptr → (time : ℕ) → TimerList
unfolding service enter_pending restart
start before after s timer time =
    if timer == null then s else restart after (enter_pending (service false before s).0 timer time)

unfoldable pub status : TimerList → Ptr → Bool
status s timer = if timer == null then false else (s.timers timer).pending

unfoldable pub set_user_parm : Readings → TimerList → Ptr → ℕ → TimerList
unfolding set_timer restart
set_user_parm c s timer parm =
    if timer == null
    then s
    else restart c
        (record s { timers = set_timer s.timers timer (record (s.timers timer) { parm = parm }) })
