-- ===== src/Timers/Lists.antt =====
-- radtimers.c: what a valid timer list is, and the steps that keep it valid.
use mathlib.Core.Path.{subst}
use radlib.Base.{
  ℕ, ◌≡◌, refl, ◌≢◌, false, true, [], ◌∷◌, arith, sym, ap, ◌∙◌, leb, Bool-cases, inl, inr,
}
use radlib.Base.Lists.{length, has, Distinct, has-append, Distinct-snoc, has-erase, Distinct-erase}
use radlib.RadList.{Ptr, null}
use radlib.Timers.{
  TimerList, Readings, set_timer, number_of_ticks, serve, restart, leave_pending, enter_pending,
  no_delta,
}
use radlib.Timers.Tick.{has-survivors_eq, Distinct-survivors, update_loop-ticked}
use radlib.Timers.Service.{after_service, Serviced, serve-Serviced}

pub record IsValid (s : TimerList) : Type 0 where
  pub free_distinct : Distinct s.free_list
  pub pending_distinct : Distinct s.pending_list
  pub apart : (a : Ptr) → has a s.free_list ≡ true → has a s.pending_list ≡ false
  pub flags : (a : Ptr) → has a s.pending_list ≡ true → (s.timers a).pending ≡ true
  pub counted : s.no_free_timers ≡ length s.free_list

-- A timer that a caller holds: its flag tells whether it is on the pending list.
pub record IsHeld (s : TimerList) (t : Ptr) : Type 0 where
  pub ne_null : t ≢ null
  pub not_free : has t s.free_list ≡ false
  pub flag : (s.timers t).pending ≡ has t s.pending_list

module _ (k : ℕ) (s t : TimerList) (r : ℕ) (w : Serviced k s t r) (v : IsValid s) where
  Serviced-flag :
      (a : Ptr)
      → (s.timers a).pending ≡ has a s.pending_list
      → (t.timers a).pending ≡ has a t.pending_list
  unfolding after_service
  Serviced-flag a f =
      rw (w.timers a, w.pending, has-survivors_eq k a s.timers s.pending_list)
        (elim (Bool-cases (has a s.pending_list)) [
          | inl y ↦ rw y (elim (Bool-cases (leb (s.timers a).delta_time k)) [
            | inl e ↦ rw e refl
            | inr n ↦ rw n (f ∙ y)
          ])
          | inr n ↦ rw n (f ∙ n)
        ])

  pub not-has-pending : (a : Ptr) → has a s.pending_list ≡ false → has a t.pending_list ≡ false
  not-has-pending a h = rw (w.pending, has-survivors_eq k a s.timers s.pending_list, h) refl

  has-pending : (a : Ptr) → has a t.pending_list ≡ true → has a s.pending_list ≡ true
  has-pending a h = elim (Bool-cases (has a s.pending_list)) [
    | inl y ↦ y
    | inr n ↦ absurd (ground (arith, not-has-pending a n))
  ]

  Serviced-IsValid : IsValid t
  Serviced-IsValid = record {
    free_distinct = subst Distinct (sym w.free) v.free_distinct;
    pending_distinct =
        subst Distinct (sym w.pending)
          (Distinct-survivors k s.timers s.pending_list v.pending_distinct);
    apart = λ a h. not-has-pending a (v.apart a (rw (← w.free) h));
    flags = λ a h. let p = has-pending a h in Serviced-flag a (v.flags a p ∙ sym p) ∙ h;
    counted = w.free_count ∙ v.counted ∙ ap length (sym w.free);
  }

  Serviced-IsHeld : (a : Ptr) → IsHeld s a → IsHeld t a
  Serviced-IsHeld a h = record {
    ne_null = h.ne_null;
    not_free = rw w.free h.not_free;
    flag = Serviced-flag a h.flag;
  }

module _ (c : Readings) (s : TimerList) (v : IsValid s) where
  pub restart-IsValid : IsValid (restart c s)
  unfolding restart
  restart-IsValid =
      let u =
        Serviced-IsValid (number_of_ticks c s) s _ _ (serve-Serviced c s v.pending_distinct) v in
      record {
        free_distinct = u.free_distinct;
        pending_distinct = u.pending_distinct;
        apart = u.apart;
        flags = u.flags;
        counted = u.counted;
      }

  pub restart-IsHeld : (a : Ptr) → IsHeld s a → IsHeld (restart c s) a
  unfolding restart
  restart-IsHeld a h =
      let u =
        Serviced-IsHeld (number_of_ticks c s) s _ _ (serve-Serviced c s v.pending_distinct) v a h in
      record { ne_null = u.ne_null; not_free = u.not_free; flag = u.flag }

module _ (c : Readings) (s : TimerList) (v : IsValid s) where
  update-flag : (a : Ptr) → ((serve false c s).0.timers a).pending ≡ (s.timers a).pending
  unfolding serve
  update-flag a =
      rw
        (update_loop-ticked (number_of_ticks c s) s.pending_list s.timers no_delta a
          v.pending_distinct)
        (elim (Bool-cases (has a s.pending_list)) [ inl y ↦ rw y refl | inr n ↦ rw n refl ])

  pub update-IsValid : IsValid (serve false c s).0
  unfolding serve
  update-IsValid = record {
    free_distinct = v.free_distinct;
    pending_distinct = v.pending_distinct;
    apart = v.apart;
    flags = λ a h. update-flag a ∙ v.flags a h;
    counted = v.counted;
  }

  pub update-IsHeld : (a : Ptr) → IsHeld s a → IsHeld (serve false c s).0 a
  unfolding serve
  update-IsHeld a h = record {
    ne_null = h.ne_null;
    not_free = h.not_free;
    flag = update-flag a ∙ h.flag;
  }

module _ (s : TimerList) (v : IsValid s) (t : Ptr) (h : IsHeld s t) where
  enter-flag :
      (time a : ℕ)
      → (s.timers a).pending ≡ has a s.pending_list
      → ((enter_pending s t time).timers a).pending ≡ has a (enter_pending s t time).pending_list
  unfolding enter_pending set_timer
  enter-flag time a f = ground (arith, h.flag, has-append a s.pending_list (t ∷ []))

  pub enter-IsValid : (time : ℕ) → IsValid (enter_pending s t time)
  unfolding enter_pending set_timer
  enter-IsValid time = elim (Bool-cases (s.timers t).pending) [
    | inl y ↦ rw y (record {
      free_distinct = v.free_distinct;
      pending_distinct = v.pending_distinct;
      apart = v.apart;
      flags = λ a m. ground (arith, v.flags a m);
      counted = v.counted;
    })
    | inr n ↦
        let out : has t s.pending_list ≡ false = sym h.flag ∙ n in
        rw n (record {
          free_distinct = v.free_distinct;
          pending_distinct = Distinct-snoc t s.pending_list v.pending_distinct out;
          apart =
              λ a m. ground (arith, v.apart a m, h.not_free, has-append a s.pending_list (t ∷ []));
          flags = λ a m. ground (arith, v.flags a, has-append a s.pending_list (t ∷ []));
          counted = v.counted;
        })
  ]

  leave-flag :
      (a : Ptr)
      → (s.timers a).pending ≡ has a s.pending_list
      → ((leave_pending s t).timers a).pending ≡ has a (leave_pending s t).pending_list
  unfolding leave_pending set_timer
  leave-flag a f = ground (arith, h.flag, has-erase a t s.pending_list v.pending_distinct)

  pub leave-IsValid : IsValid (leave_pending s t)
  unfolding leave_pending set_timer
  leave-IsValid = elim (Bool-cases (s.timers t).pending) [
    | inl y ↦ rw y (record {
      free_distinct = v.free_distinct;
      pending_distinct = Distinct-erase t s.pending_list v.pending_distinct;
      apart = λ a m. ground (arith, v.apart a m, has-erase a t s.pending_list v.pending_distinct);
      flags = λ a m. ground (arith, v.flags a, has-erase a t s.pending_list v.pending_distinct);
      counted = v.counted;
    })
    | inr n ↦ rw n v
  ]

  -- Neither call touches the free list, nor whether a timer is held.
  pub enter-IsHeld : (time a : ℕ) → IsHeld s a → IsHeld (enter_pending s t time) a
  enter-IsHeld time a g = record {
    ne_null = g.ne_null;
    not_free = unfold enter_pending in ground (arith, g.not_free);
    flag = enter-flag time a g.flag;
  }

  pub leave-IsHeld : (a : Ptr) → IsHeld s a → IsHeld (leave_pending s t) a
  leave-IsHeld a g = record {
    ne_null = g.ne_null;
    not_free = unfold leave_pending in ground (arith, g.not_free);
    flag = leave-flag a g.flag;
  }

  pub leave-not_pending : has t (leave_pending s t).pending_list ≡ false
  unfolding leave_pending
  leave-not_pending = ground (arith, h.flag, has-erase t t s.pending_list v.pending_distinct)
