-- ===== src/Timers/Service.antt =====
-- radtimers.c: which timers a call of `serviceTimers` expires, and what it leaves of the others.
use radlib.Base.{
  ne_of_==, ℕ, ◌-◌, ◌<◌, ◌≡◌, refl, false, true, List, [], ◌++◌, arith, sym, ap, ◌∙◌, ◌==◌,
  if◌then◌else◌, leb, append-nil, Bool-cases, inl, inr, ◌⊎◌,
}
use radlib.Base.Lists.{has, Distinct}
use radlib.RadList.{Ptr}
use radlib.Timers.{
  Timer, TimerList, Readings, update_loop, notice_of, expired_loop, process_expired, recompute,
  number_of_ticks, serve, no_delta,
}
use radlib.Timers.Tick.{
  ticked, survivors, expiries, smallest_of, update_loop-ticked, update_loop-smallest, none_expired,
  smallest_of-pos, has-survivors, Distinct-survivors,
}
use radlib.Timers.Expire.{
  survivors-agree, expiries-agree, after_walk, expired_loop-lists, expired_loop-timers,
}

-- A timer after `k` ticks, and after its expiry.
unfoldable pub after_service : ℕ → TimerList → Ptr → Timer
after_service k s a =
    if has a s.pending_list
    then (if leb (s.timers a).delta_time k
        then record (s.timers a) { delta_time = 0; pending = false }
        else ticked k (s.timers a))
    else s.timers a

pub record Serviced (k : ℕ) (s t : TimerList) (r : ℕ) : Type 0 where
  pub pending : t.pending_list ≡ survivors k s.timers s.pending_list
  pub notices : t.notices ≡ s.notices ++ expiries k s.timers s.pending_list
  pub timers : (a : Ptr) → t.timers a ≡ after_service k s a
  pub positive : 0 < r
  pub free : t.free_list ≡ s.free_list
  pub free_count : t.no_free_timers ≡ s.no_free_timers

module _ (c : Readings) (s : TimerList) (d : Distinct s.pending_list) where
  k : ℕ
  k = number_of_ticks c s

  m1 : Ptr → Timer
  m1 = (update_loop (number_of_ticks c s) s.pending_list s.timers no_delta).0

  m1-ticked :
      (a : Ptr) → m1 a ≡ (if has a s.pending_list then ticked k (s.timers a) else s.timers a)
  unfolding m1 k
  m1-ticked a = update_loop-ticked k s.pending_list s.timers no_delta a d

  agree :
      (a : Ptr)
      → has a s.pending_list ≡ true
      → leb (m1 a).delta_time 0 ≡ leb (s.timers a).delta_time k
  agree a h = rw (m1-ticked a, h) (ground arith)

  agree_notice : (a : Ptr) → has a s.pending_list ≡ true → notice_of (m1 a) ≡ notice_of (s.timers a)
  unfolding notice_of
  agree_notice a h = rw (m1-ticked a, h) refl

  small : ℕ
  small = (update_loop (number_of_ticks c s) s.pending_list s.timers no_delta).1

  small-smallest_of : small ≡ smallest_of k s.timers s.pending_list no_delta
  unfolding small k
  small-smallest_of = update_loop-smallest k s.pending_list s.timers no_delta d

  -- No timer expired.
  quiet : TimerList
  quiet = record s { timers = m1; last_tick = c.third }

  quiet-Serviced : (small == 0) ≡ false → Serviced k s quiet small
  unfolding quiet
  quiet-Serviced h =
      let ne = ne_of_== small 0 h in
      let (p, q) =
        none_expired k s.pending_list s.timers no_delta (λ e. ne (small-smallest_of ∙ e)) in
      record {
        pending = sym p;
        notices = rw q (sym (append-nil s.notices));
        timers = λ a. m1-ticked a ∙ alive a (Bool-cases (has a s.pending_list)) p;
        positive = omega arith;
        free = refl;
        free_count = refl;
      }
    where
      alive :
          (a : Ptr)
          → (has a s.pending_list ≡ true) ⊎ (has a s.pending_list ≡ false)
          → survivors k s.timers s.pending_list ≡ s.pending_list
          → (if has a s.pending_list then ticked k (s.timers a) else s.timers a)
            ≡ after_service k s a
      alive a h p = elim h [
        | inl y ↦
            let (i, j) = has-survivors k a s.timers s.pending_list (rw p y) in
            let more : leb (s.timers a).delta_time k ≡ false = ground arith in
            unfold after_service in rw (y, more) refl
        | inr n ↦ unfold after_service in rw n refl
      ]

  -- The expired timers taken off, and the countdowns walked over once more.
  noisy : TimerList × ℕ
  noisy = recompute (process_expired quiet)

  left : List Ptr
  left = (expired_loop [] s.pending_list m1 s.notices).0

  m2 : Ptr → Timer
  m2 = (expired_loop [] s.pending_list m1 s.notices).1

  left-survivors : left ≡ survivors 0 m1 s.pending_list
  unfolding left
  left-survivors = (expired_loop-lists s.pending_list [] m1 s.notices).0

  m2-after_walk : (a : Ptr) → m2 a ≡ after_walk m1 s.pending_list a
  unfolding m2
  m2-after_walk a = expired_loop-timers s.pending_list [] m1 s.notices a d

  m2-after_service : (a : Ptr) → m2 a ≡ after_service k s a
  unfolding after_walk after_service
  m2-after_service a =
      rw (m2-after_walk a, m1-ticked a)
        (elim (Bool-cases (has a s.pending_list)) [
          | inl y ↦ rw y (elim (Bool-cases (leb (s.timers a).delta_time k)) [
            | inl e ↦ let z : (s.timers a).delta_time - k ≡ 0 = ground arith in rw (e, z) refl
            | inr n ↦
                let z : ((s.timers a).delta_time - k == 0) ≡ false = ground arith in rw (n, z) refl
          ])
          | inr n ↦ rw n refl
        ])

  left_positive : (a : Ptr) → has a left ≡ true → 0 < (m2 a).delta_time
  unfolding after_walk
  left_positive a h =
      let (i, j) = has-survivors 0 a m1 s.pending_list (rw (← left-survivors) h) in
      let e = m2-after_walk a in
      rw e (rw i (elim (Bool-cases ((m1 a).delta_time == 0)) [ inl y ↦ rw y j | inr n ↦ rw n j ]))

  still : (x : Timer) → ticked 0 x ≡ x
  still x = ap (λ n. record x { delta_time = n }) (omega arith)

  settled : (a : Ptr) → (update_loop 0 left m2 no_delta).0 a ≡ m2 a
  settled a =
      update_loop-ticked 0 left m2 no_delta a
        (rw left-survivors (Distinct-survivors 0 m1 s.pending_list d))
      ∙ elim (Bool-cases (has a left)) [ inl y ↦ rw y (still (m2 a)) | inr n ↦ rw n refl ]

  noisy-Serviced : Serviced k s noisy.0 noisy.1
  unfolding noisy recompute process_expired quiet
  noisy-Serviced =
      unfold left m2 in
      record {
        pending = left-survivors ∙ survivors-agree k 0 s.timers m1 s.pending_list agree;
        notices =
            (expired_loop-lists s.pending_list [] m1 s.notices).1
            ∙ ap (λ r. s.notices ++ r)
                (expiries-agree k 0 s.timers m1 s.pending_list agree agree_notice);
        timers = λ a. settled a ∙ m2-after_service a;
        positive =
            rw
              (update_loop-smallest 0 left m2 no_delta
                (rw left-survivors (Distinct-survivors 0 m1 s.pending_list d)))
              (smallest_of-pos 0 left m2 no_delta (omega arith) left_positive);
        free = refl;
        free_count = refl;
      }

  cases : serve true c s ≡ (if small == 0 then noisy else (quiet, small))
  unfolding serve noisy quiet small m1 recompute process_expired
  cases = refl

pub serve-Serviced :
    (c : Readings) (s : TimerList)
    → Distinct s.pending_list
    → Serviced (number_of_ticks c s) s (serve true c s).0 (serve true c s).1
unfolding k
serve-Serviced c s d = rw (cases c s d) (elim (Bool-cases (small c s d == 0)) [
  | inl y ↦ rw y (noisy-Serviced c s d)
  | inr n ↦ rw n (quiet-Serviced c s d n)
])
