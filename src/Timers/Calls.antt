-- ===== src/Timers/Calls.antt =====
-- radtimers.c: the calls on a timer.
use mathlib.Core.Path.{subst}
use radlib.Base.{ℕ, ◌≡◌, refl, false, List, [], ◌∷◌, ◌++◌, arith, ap, ==_ne, ◌==◌, none, some}
use radlib.Base.Lists.{length, length-append, has, Distinct, has-append, Distinct-snoc}
use radlib.RadList.{Ptr, null}
use radlib.Timers.{
  TimerList, Readings, set_timer, number_of_ticks, serve, restart, create, set_routine, stop,
  delete, first_free, start, leave_pending, enter_pending,
}
use radlib.Timers.Service.{serve-Serviced}
use radlib.Timers.Lists.{
  IsValid, IsHeld, not-has-pending, restart-IsValid, restart-IsHeld, update-IsValid, update-IsHeld,
  enter-IsValid, leave-IsValid, enter-IsHeld, leave-IsHeld, leave-not_pending,
}

-- `radTimerStart` and `radTimerStop` of a held timer keep the lists valid, and any timer
-- that is held stays so.
pub start-stop-IsValid :
    (c1 c2 : Readings) (s : TimerList) (t a time : ℕ)
    → IsValid s
    → IsHeld s t
    → IsHeld s a
    → IsValid (start c1 c2 s t time)
      × IsValid (stop c2 s t)
      × IsHeld (start c1 c2 s t time) a
      × IsHeld (stop c2 s t) a
unfolding start stop
start-stop-IsValid c1 c2 s t a time v h g =
    let s1 = (serve false c1 s).0 in
    let v1 = update-IsValid c1 s v in
    let h1 = update-IsHeld c1 s v t h in
    let e : (t == null) ≡ false = ==_ne t null h.ne_null in
    let ev = enter-IsValid s1 v1 t h1 time in
    let lv = leave-IsValid s v t h in
    rw e (
      restart-IsValid c2 (enter_pending s1 t time) ev,
      restart-IsValid c2 (leave_pending s t) lv,
      restart-IsHeld c2 (enter_pending s1 t time) ev a
          (enter-IsHeld s1 v1 t h1 time a (update-IsHeld c1 s v a g)),
      restart-IsHeld c2 (leave_pending s t) lv a (leave-IsHeld s v t h a g),
    )

-- A held timer is off the pending list once it was stopped.
pub stop-not_pending :
    (c : Readings) (s : TimerList) (t : Ptr)
    → IsValid s
    → IsHeld s t
    → has t (stop c s t).pending_list ≡ false
unfolding stop restart
stop-not_pending c s t v h =
    let lv = leave-IsValid s v t h in
    let w = serve-Serviced c (leave_pending s t) lv.pending_distinct in
    rw (==_ne t null h.ne_null) (
      not-has-pending (number_of_ticks c (leave_pending s t)) (leave_pending s t) _ _ w lv t
        (leave-not_pending s v t h))

-- What `radTimerCreate` makes of a free list.
abbrev pub Created : TimerList → (routine parm : ℕ) → List Ptr → Ptr × TimerList → Type 0
Created s routine parm [] (p, t) = (p ≡ null) × (t ≡ s)
Created s routine parm (x ∷ xs) (p, t) =
    (p ≡ x)
    × (t.free_list ≡ xs)
    × IsValid t
    × IsHeld t x
    × ((a : Ptr) → IsHeld s a → IsHeld t a)
    × (has x t.pending_list ≡ false)
    × ((t.timers x).routine ≡ routine)
    × ((t.timers x).parm ≡ parm)

create-Created_list :
    (s : TimerList) (routine parm : ℕ) (l : List Ptr)
    → IsValid s
    → has null s.free_list ≡ false
    → s.free_list ≡ l
    → Created s routine parm l (create s null routine parm)
unfolding create set_routine set_timer
create-Created_list s routine parm [] v nn e =
    let f : first_free s.free_list ≡ none = ap first_free e in rw f (refl, refl)
create-Created_list s routine parm (x ∷ xs) v nn e =
    let d = subst Distinct e v.free_distinct in
    let n = subst (λ l. has null l ≡ false) e nn in
    let out : has x s.pending_list ≡ false = v.apart x (rw e (ground arith)) in
    let f : first_free s.free_list ≡ some (x, xs) = ap first_free e in
    rw f (
      refl,
      refl,
      record {
        free_distinct = d.1;
        pending_distinct = v.pending_distinct;
        apart = λ a m. v.apart a (rw e (ground arith));
        flags = λ a m. ground (arith, v.flags a m);
        counted = omega (arith, v.counted, ap length e);
      },
      record { ne_null = ground arith; not_free = d.0; flag = ground arith },
      λ a g.
          let q = subst (λ l. has a l ≡ false) e g.not_free in
          record { ne_null = g.ne_null; not_free = ground arith; flag = ground (arith, g.flag) },
      out,
      ground arith,
      ground arith,
    )

-- `radTimerCreate` with no timer given, on a valid list without NULL, takes the first free timer. The
-- timer is then held, not on the pending list and has the routine and its parameter, the lists stay valid and every held timer stays
-- held. If no timer is free it returns NULL and changes nothing.
pub create-Created :
    (s : TimerList) (routine parm : ℕ)
    → IsValid s
    → has null s.free_list ≡ false
    → Created s routine parm s.free_list (create s null routine parm)
create-Created s routine parm v nn = create-Created_list s routine parm s.free_list v nn refl

-- `radTimerDelete` of a held timer stops it and puts it at the end of the free list; the lists stay
-- valid, and the timer is not on the pending list.
pub delete_lem :
    (c : Readings) (s : TimerList) (t : Ptr)
    → IsValid s
    → IsHeld s t
    → IsValid (delete c s t)
      × ((delete c s t).free_list ≡ (stop c s t).free_list ++ t ∷ [])
      × (has t (delete c s t).pending_list ≡ false)
unfolding delete
delete_lem c s t v h =
    let (_, sv, _, g) = start-stop-IsValid c c s t t 0 v h h in
    let out = stop-not_pending c s t v h in
    rw (==_ne t null h.ne_null) (
      record {
        free_distinct = Distinct-snoc t (stop c s t).free_list sv.free_distinct g.not_free;
        pending_distinct = sv.pending_distinct;
        apart =
            λ a m. ground (arith, sv.apart a, out, has-append a (stop c s t).free_list (t ∷ []));
        flags = sv.flags;
        counted = omega (arith, sv.counted, length-append (stop c s t).free_list (t ∷ []));
      },
      refl,
      out,
    )
