-- ===== src/Timers/Tests.antt =====
-- radtimers.c: four timers: 3 and 4 are pending, 5 is held by a caller, 6 is free.
use radlib.Base.{refl, true, false, if◌then◌else◌, ◌==◌, [], ◌∷◌, arith}
use radlib.RadList.{Ptr}
use radlib.Timers.{Timer, TimerList, Readings, start, stop}
use radlib.Timers.Lists.{IsValid, IsHeld}
use radlib.Timers.Calls.{start-stop-IsValid}

abbrev timer_at : Ptr → Timer
timer_at a = record {
  delta_time = if a == 3 then 20 else 50;
  pending = if a == 3 then true else if a == 4 then true else false;
  routine = 7;
  parm = a;
}

abbrev timer_list : TimerList
timer_list = record {
  no_free_timers = 1;
  free_list = 6 ∷ [];
  pending_list = 3 ∷ 4 ∷ [];
  last_tick = 1000;
  timers = timer_at;
  notices = [];
  interval = 20;
}

abbrev clock : Readings
clock = record { first = 1030; second = 1030; third = 1031 }

timer_list-IsValid : IsValid timer_list
timer_list-IsValid = record {
  free_distinct = (refl, tt);
  pending_distinct = (refl, (refl, tt));
  apart = λ a h. ground arith;
  flags = λ a h. ground arith;
  counted = refl;
}

timer_list-IsHeld : IsHeld timer_list 5
timer_list-IsHeld = record { ne_null = omega arith; not_free = refl; flag = refl }

start-stop-IsValid_example :
    IsValid (start clock clock timer_list 5 10)
    × IsValid (stop clock timer_list 5)
    × IsHeld (start clock clock timer_list 5 10) 3
    × IsHeld (stop clock timer_list 5) 3
start-stop-IsValid_example =
    start-stop-IsValid clock clock timer_list 5 3 10 timer_list-IsValid timer_list-IsHeld
      (record { ne_null = omega arith; not_free = refl; flag = refl })
