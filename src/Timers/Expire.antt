-- ===== src/Timers/Expire.antt =====
-- radtimers.c: the walk of `processExpiredTimers` over the pending list.
use radlib.Base.{
  ℕ, ◌≡◌, refl, false, true, List, [], ◌∷◌, ◌++◌, arith, sym, ap, ◌∙◌, ◌==◌, if◌then◌else◌, leb,
  append-nil, append_assoc, Bool-cases, eq_of_==, ==_self, ◌&&◌, inl, inr,
}
use radlib.Base.Lists.{has, Distinct}
use radlib.RadList.{Ptr}
use radlib.Timers.{Timer, Notice, set_timer, notice_of, expired_loop}
use radlib.Timers.Tick.{survivors, expiries}

-- Two memories that agree on which timers of a list expire, and on their messages.
pub survivors-agree :
    (k k' : ℕ) (m m' : Ptr → Timer) (ts : List Ptr)
    → ((a : Ptr) → has a ts ≡ true → leb (m' a).delta_time k' ≡ leb (m a).delta_time k)
    → survivors k' m' ts ≡ survivors k m ts
survivors-agree k k' m m' [] f = refl
survivors-agree k k' m m' (t ∷ ts) f =
    rw (f t (ground arith), survivors-agree k k' m m' ts (λ a h. f a (ground arith)))

pub expiries-agree :
    (k k' : ℕ) (m m' : Ptr → Timer) (ts : List Ptr)
    → ((a : Ptr) → has a ts ≡ true → leb (m' a).delta_time k' ≡ leb (m a).delta_time k)
    → ((a : Ptr) → has a ts ≡ true → notice_of (m' a) ≡ notice_of (m a))
    → expiries k' m' ts ≡ expiries k m ts
expiries-agree k k' m m' [] f g = refl
expiries-agree k k' m m' (t ∷ ts) f g = rw (
  f t (ground arith),
  g t (ground arith),
  expiries-agree k k' m m' ts (λ a h. f a (ground arith)) (λ a h. g a (ground arith)),
)

abbrev stopped : (Ptr → Timer) → Ptr → Ptr → Timer
stopped m t = set_timer m t (record (m t) { pending = false })

stopped-fields :
    (m : Ptr → Timer) (t a : Ptr)
    → ((stopped m t a).delta_time ≡ (m a).delta_time)
      × (notice_of (stopped m t a) ≡ notice_of (m a))
unfolding set_timer notice_of
stopped-fields m t a = elim (Bool-cases (a == t)) [
  | inl y ↦ let e = eq_of_== a t y in rw (e, ==_self t) (refl, refl)
  | inr n ↦ rw n (refl, refl)
]

-- The walk over the expired timers.
pub expired_loop-lists :
    (ts before : List Ptr) (m : Ptr → Timer) (out : List Notice)
    → ((expired_loop before ts m out).0 ≡ before ++ survivors 0 m ts)
      × ((expired_loop before ts m out).2 ≡ out ++ expiries 0 m ts)
unfolding expired_loop
expired_loop-lists [] before m out = (sym (append-nil before), sym (append-nil out))
expired_loop-lists (t ∷ ts) before m out = elim (Bool-cases ((m t).delta_time == 0)) [
  | inl y ↦
      let z : leb (m t).delta_time 0 ≡ true = ground arith in
      let (p, q) = expired_loop-lists ts before (stopped m t) (out ++ notice_of (m t)) in
      let d : (a : Ptr)
          → has a ts ≡ true
          → leb (stopped m t a).delta_time 0 ≡ leb (m a).delta_time 0 =
        λ a h. ap (λ n. leb n 0) (stopped-fields m t a).0 in
      rw (y, z)
        (
          p ∙ ap (λ r. before ++ r) (survivors-agree 0 0 m (stopped m t) ts d),
          q
              ∙ append_assoc out (notice_of (m t)) (expiries 0 (stopped m t) ts)
              ∙ ap (λ r. out ++ (notice_of (m t) ++ r))
                  (expiries-agree 0 0 m (stopped m t) ts d (λ a h. (stopped-fields m t a).1)),
        )
  | inr n ↦
      let z : leb (m t).delta_time 0 ≡ false = ground arith in
      let (p, q) = expired_loop-lists ts (before ++ t ∷ []) m out in
      rw (n, z) (p ∙ append_assoc before (t ∷ []) (survivors 0 m ts), q)
]

-- A timer after the walk over `ts`.
unfoldable pub after_walk : (Ptr → Timer) → List Ptr → Ptr → Timer
after_walk m ts a =
    if has a ts && ((m a).delta_time == 0) then record (m a) { pending = false } else m a

after_walk-stopped :
    (m : Ptr → Timer) (t : Ptr) (ts : List Ptr) (a : Ptr)
    → has t ts ≡ false
    → (m t).delta_time ≡ 0
    → after_walk (stopped m t) ts a ≡ after_walk m (t ∷ ts) a
unfolding after_walk set_timer
after_walk-stopped m t ts a o z = elim (Bool-cases (a == t)) [
  | inl y ↦ let e = eq_of_== a t y in rw (e, ==_self t, o, z)
  | inr n ↦ rw n
]

after_walk-kept :
    (m : Ptr → Timer) (t : Ptr) (ts : List Ptr) (a : Ptr)
    → ((m t).delta_time == 0) ≡ false
    → has t ts ≡ false
    → after_walk m ts a ≡ after_walk m (t ∷ ts) a
unfolding after_walk
after_walk-kept m t ts a z o = elim (Bool-cases (a == t)) [
  | inl y ↦ let e = eq_of_== a t y in rw (e, ==_self t, o, z)
  | inr n ↦ rw n
]

pub expired_loop-timers :
    (ts before : List Ptr) (m : Ptr → Timer) (out : List Notice) (a : Ptr)
    → Distinct ts
    → (expired_loop before ts m out).1 a ≡ after_walk m ts a
unfolding expired_loop
expired_loop-timers [] before m out a d = unfold after_walk in refl
expired_loop-timers (t ∷ ts) before m out a d = elim (Bool-cases ((m t).delta_time == 0)) [
  | inl y ↦ rw y (
      expired_loop-timers ts before (stopped m t) (out ++ notice_of (m t)) a d.1
      ∙ after_walk-stopped m t ts a d.0 (eq_of_== _ 0 y))
  | inr n ↦
      rw n (expired_loop-timers ts (before ++ t ∷ []) m out a d.1 ∙ after_walk-kept m t ts a n d.0)
]
