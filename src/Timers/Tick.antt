-- ===== src/Timers/Tick.antt =====
-- radtimers.c: the walk of `updateTimers` over the pending list.
use mathlib.Core.Path.{subst}
use mathlib.Core.Bool.{not, Bool}
use radlib.Base.{
  ◌&&◌, Bool, ℕ, ◌-◌, ◌<◌, ◌≤◌, ◌≡◌, refl, ◌≢◌, false, true, List, [], ◌∷◌, ◌++◌, arith, ◌∙◌, ◌==◌,
  if◌then◌else◌, leb, ltb, Bool-cases, eq_of_==, ==_self, inl, inr,
}
use radlib.Base.Lists.{has, Distinct}
use radlib.RadList.{Ptr}
use radlib.Timers.{Timer, Notice, set_timer, remaining, update_loop, notice_of}

-- A timer after `delta` ticks.
abbrev pub ticked : ℕ → Timer → Timer
ticked delta t = record t { delta_time = t.delta_time - delta }

-- The pending timers that outlast `delta` ticks, and the messages of those that do not.
abbrev pub survivors : ℕ → (Ptr → Timer) → List Ptr → List Ptr
survivors delta m [] = []
survivors delta m (t ∷ ts) =
    if leb (m t).delta_time delta then survivors delta m ts else t ∷ survivors delta m ts

abbrev pub expiries : ℕ → (Ptr → Timer) → List Ptr → List Notice
expiries delta m [] = []
expiries delta m (t ∷ ts) =
    if leb (m t).delta_time delta
    then notice_of (m t) ++ expiries delta m ts
    else expiries delta m ts

-- The smallest countdown left, at most 0xFFFFFFFF.
abbrev pub smallest_of : ℕ → (Ptr → Timer) → List Ptr → ℕ → ℕ
smallest_of delta m [] r = r
smallest_of delta m (t ∷ ts) r =
    smallest_of delta m ts
      (if ltb ((m t).delta_time - delta) r then (m t).delta_time - delta else r)

remaining-sub : (time delta : ℕ) → remaining time delta ≡ time - delta
unfolding remaining
remaining-sub time delta = ground arith

module _ (delta : ℕ) where
  -- One round of the walk, and the rest of it.
  advance : (Ptr → Timer) → Ptr → Ptr → Timer
  advance m t = set_timer m t (ticked delta (m t))

  update_loop-cons :
      (t : Ptr) (ts : List Ptr) (m : Ptr → Timer) (r : ℕ)
      → update_loop delta (t ∷ ts) m r
        ≡ update_loop delta ts
            (advance m t)
            (if ltb ((m t).delta_time - delta) r then (m t).delta_time - delta else r)
  unfolding update_loop advance
  update_loop-cons t ts m r = rw (remaining-sub (m t).delta_time delta)

  advanced :
      (t : Ptr) (ts : List Ptr) (m : Ptr → Timer) (a : Ptr)
      → has t ts ≡ false
      → (if has a ts then ticked delta (advance m t a) else advance m t a)
        ≡ (if has a (t ∷ ts) then ticked delta (m a) else m a)
  unfolding advance set_timer
  advanced t ts m a o = elim (Bool-cases (a == t)) [
    | inl y ↦ let e = eq_of_== a t y in rw (e, o, ==_self t)
    | inr n ↦ rw n
  ]

  pub update_loop-ticked :
      (ts : List Ptr) (m : Ptr → Timer) (r : ℕ) (a : Ptr)
      → Distinct ts
      → (update_loop delta ts m r).0 a ≡ (if has a ts then ticked delta (m a) else m a)
  update_loop-ticked [] m r a d = unfold update_loop in refl
  update_loop-ticked (t ∷ ts) m r a d =
      rw (update_loop-cons t ts m r)
        (update_loop-ticked ts (advance m t) _ a d.1 ∙ advanced t ts m a d.0)

  smallest_of-frame :
      (t : Ptr) (ts : List Ptr) (m : Ptr → Timer) (r : ℕ)
      → has t ts ≡ false
      → smallest_of delta (advance m t) ts r ≡ smallest_of delta m ts r
  unfolding advance set_timer
  smallest_of-frame t [] m r h = refl
  smallest_of-frame t (u ∷ us) m r h =
      let e : (u == t) ≡ false = ground arith in rw e (smallest_of-frame t us m _ (ground arith))

  pub update_loop-smallest :
      (ts : List Ptr) (m : Ptr → Timer) (r : ℕ)
      → Distinct ts
      → (update_loop delta ts m r).1 ≡ smallest_of delta m ts r
  update_loop-smallest [] m r d = unfold update_loop in refl
  update_loop-smallest (t ∷ ts) m r d =
      rw (update_loop-cons t ts m r)
        (update_loop-smallest ts (advance m t) _ d.1 ∙ smallest_of-frame t ts m _ d.0)

  -- The smallest countdown is 0 exactly if some timer expires.
  smallest_of-le : (ts : List Ptr) (m : Ptr → Timer) (r : ℕ) → smallest_of delta m ts r ≤ r
  smallest_of-le [] m r = omega arith
  smallest_of-le (t ∷ ts) m r = ground (
    arith,
    smallest_of-le ts m (if ltb ((m t).delta_time - delta) r then (m t).delta_time - delta else r),
  )

  pub none_expired :
      (ts : List Ptr) (m : Ptr → Timer) (r : ℕ)
      → smallest_of delta m ts r ≢ 0
      → (survivors delta m ts ≡ ts) × (expiries delta m ts ≡ [])
  none_expired [] m r h = (refl, refl)
  none_expired (t ∷ ts) m r h =
      let small =
        smallest_of-le ts m
          (if ltb ((m t).delta_time - delta) r then (m t).delta_time - delta else r) in
      let more : leb (m t).delta_time delta ≡ false = ground arith in
      let (p, q) = none_expired ts m _ h in rw (more, p, q) (refl, refl)

  -- What is left after the survivors were picked has no countdown of 0.
  pub smallest_of-pos :
      (ts : List Ptr) (m : Ptr → Timer) (r : ℕ)
      → 0 < r
      → ((a : Ptr) → has a ts ≡ true → delta < (m a).delta_time)
      → 0 < smallest_of delta m ts r
  smallest_of-pos [] m r p f = p
  smallest_of-pos (t ∷ ts) m r p f =
      smallest_of-pos ts m _ (ground (arith, f t)) (λ a h. f a (ground arith))

  pub has-survivors :
      (a : Ptr) (m : Ptr → Timer) (ts : List Ptr)
      → has a (survivors delta m ts) ≡ true
      → (has a ts ≡ true) × (delta < (m a).delta_time)
  has-survivors a m [] h = absurd (ground arith)
  has-survivors a m (t ∷ ts) h = elim (Bool-cases (leb (m t).delta_time delta)) [
    | inl y ↦
        let (i, j) = has-survivors a m ts (
          subst (λ b. has a (if b then survivors delta m ts else t ∷ survivors delta m ts) ≡ true) y
            h) in
        (ground arith, j)
    | inr n ↦
        let h' =
          subst (λ b. has a (if b then survivors delta m ts else t ∷ survivors delta m ts) ≡ true) n
            h in
        elim (Bool-cases (a == t)) [
          | inl e ↦ (ground arith, ground arith)
          | inr d ↦ let (i, j) = has-survivors a m ts (ground arith) in (ground arith, j)
        ]
  ]

  not-has-survivors :
      (a : Ptr) (m : Ptr → Timer) (ts : List Ptr)
      → has a ts ≡ false
      → has a (survivors delta m ts) ≡ false
  not-has-survivors a m ts h = elim (Bool-cases (has a (survivors delta m ts))) [
    | inl y ↦ let (i, j) = has-survivors a m ts y in ground arith
    | inr n ↦ n
  ]

  pub Distinct-survivors :
      (m : Ptr → Timer) (ts : List Ptr) → Distinct ts → Distinct (survivors delta m ts)
  Distinct-survivors m [] d = tt
  Distinct-survivors m (t ∷ ts) d = elim (Bool-cases (leb (m t).delta_time delta)) [
    | inl y ↦ rw y (Distinct-survivors m ts d.1)
    | inr n ↦ rw n (not-has-survivors t m ts d.0, Distinct-survivors m ts d.1)
  ]

  -- Exactly the timers that outlast the ticks survive.
  pub has-survivors_eq :
      (a : Ptr) (m : Ptr → Timer) (ts : List Ptr)
      → has a (survivors delta m ts) ≡ (has a ts && not (leb (m a).delta_time delta))
  has-survivors_eq a m [] = refl
  has-survivors_eq a m (t ∷ ts) =
      let ih = has-survivors_eq a m ts in
      elim (Bool-cases (leb (m t).delta_time delta)) [
        | inl y ↦
            rw (y, ih)
              (elim (Bool-cases (a == t)) [
                | inl e ↦ let q = eq_of_== a t e in rw (e, q, y) (drop_false (has t ts))
                | inr n ↦ rw n
              ])
        | inr n ↦
            rw (n, ih)
              (elim (Bool-cases (a == t)) [
                | inl e ↦ let q = eq_of_== a t e in rw (e, q, n)
                | inr f ↦ rw f
              ])
      ]
    where
      drop_false : (b : Bool) → (b && false) ≡ false
      drop_false true = refl
      drop_false false = refl
