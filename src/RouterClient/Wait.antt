-- ===== src/RouterClient/Wait.antt =====
-- radmsgRouter.c: `waitForRouterAck` and `waitForRouterAnswer`.
use mathlib.Core.Path.{subst}
use radlib.Base.{
  ℕ, ◌+◌, ◌<◌, ◌≡◌, ◌≢◌, refl, sym, ap, ◌∙◌, Bool, true, false, if◌then◌else◌, ◌==◌, ◌&&◌, Option,
  none, some, List, [], ◌∷◌, ◌++◌, append_assoc, append-nil, arith, Bool-cases, Option-cases, inl,
  inr,
}
use radlib.Base.Lists.{All}
use radlib.SysDefs.{ℤ, ulong_mod}
use radlib.MsgRouter.{internal_msgid}
use radlib.RouterClient.{
  Call, bfr_rls, Local, log, max_ack_wait, Incoming, Recv, nothing, queue_closed, message, Poll,
  is_late, is_genuine, Waited, answered, timeout, closed, waiting, Answer, on_incoming,
  wait_for_router,
}

abbrev pub with_calls : List Call → Local → Local
with_calls cs l = record l { calls = l.calls ++ cs }

module _ (answer : Answer) where
  -- A message of the router that is no answer: its buffer is not released.
  unfoldable pub is_kept : Incoming → Bool
  is_kept m =
      (m.msg_type == internal_msgid)
      && (is_genuine m && elim (answer m) [ none ↦ true | some v ↦ false ])

  -- The releases that a round makes.
  unfoldable pub releases : Recv → List Call
  unfolding is_kept
  releases nothing = []
  releases queue_closed = []
  releases (message m) = if is_kept m then [] else bfr_rls m.bfr ∷ []

  unfoldable pub all_releases : List Poll → List Call
  unfolding releases
  all_releases [] = []
  all_releases (p ∷ ps) = releases p.recv ++ all_releases ps

  -- A message that ends the wait with a value.
  pub record Answers (v : ℤ) (m : Incoming) : Type 0 where
    pub internal : (m.msg_type == internal_msgid) ≡ true
    pub genuine : is_genuine m ≡ true
    pub value : answer m ≡ some v

  on_incoming-releases :
      (m : Incoming) (l : Local) → (on_incoming answer m l).0 ≡ with_calls (releases (message m)) l
  unfolding on_incoming log is_kept releases
  on_incoming-releases m l = elim (Bool-cases (m.msg_type == internal_msgid)) [
    | inr n ↦ rw (n, on_incoming) refl
    | inl y ↦ elim (Bool-cases (is_genuine m)) [
      | inr n ↦ rw (y, n, on_incoming) refl
      | inl g ↦ elim (Option-cases (answer m)) [
        | inl e ↦ rw (y, g, e, on_incoming, append-nil) refl
        | inr (v, e) ↦ rw (y, g, e, on_incoming) refl
      ]
    ]
  ]

  on_incoming-Answers :
      (m : Incoming) (l : Local) (v : ℤ) → (on_incoming answer m l).1 ≡ some v → Answers v m
  unfolding on_incoming
  on_incoming-Answers m l v h = ground arith

  -- Why a wait is over, or not yet.
  abbrev pub Ended : (start : ℕ) → Waited → (read left : List Poll) → Type 0
  Ended start (answered v) read left =
      (ps : List Poll) × (p : Poll) × (m : Incoming) × (read ≡ ps ++ p ∷ [])
      × (p.recv ≡ message m)
      × Answers v m
  Ended start timeout read left =
      (p : Poll) × (ps : List Poll) × (left ≡ p ∷ ps) × (is_late start p ≡ true)
  Ended start closed read left =
      (ps : List Poll) × (p : Poll) × (read ≡ ps ++ p ∷ []) × (p.recv ≡ queue_closed)
  Ended start waiting read left = left ≡ []

  pub record Awaited (start : ℕ) (polls : List Poll) (l : Local) (out : Waited × Local × List Poll)
      : Type 0 where
    pub read : List Poll
    pub parts : polls ≡ read ++ out.2
    pub released : out.1 ≡ with_calls (all_releases read) l
    pub in_time : All (λ p. is_late start p ≡ false) read
    pub ended : Ended start out.0 read out.2

  Ended-cons :
      (start : ℕ) (w : Waited) (p : Poll) (read left : List Poll)
      → Ended start w read left
      → Ended start w (p ∷ read) left
  Ended-cons start (answered v) p read left (ps, q, m, e, r, a) = (p ∷ ps, q, m, ap (◌∷◌ p) e, r, a)
  Ended-cons start timeout p read left h = h
  Ended-cons start closed p read left (ps, q, e, r) = (p ∷ ps, q, ap (◌∷◌ p) e, r)
  Ended-cons start waiting p read left h = h

  abbrev calls_of : Local → List Call → Local
  calls_of l cs = record l { calls = cs }

  -- A round that goes on.
  Awaited-cons :
      (start : ℕ) (p : Poll) (ps : List Poll) (l l' : Local) (out : Waited × Local × List Poll)
      → is_late start p ≡ false
      → l' ≡ with_calls (releases p.recv) l
      → Awaited start ps l' out
      → Awaited start (p ∷ ps) l out
  unfolding all_releases
  Awaited-cons start p ps l l' out n e h = record {
    read = p ∷ h.read;
    parts = ap (◌∷◌ p) h.parts;
    released =
        h.released
        ∙ ap (with_calls (all_releases h.read)) e
        ∙ ap (calls_of l) (append_assoc l.calls (releases p.recv) (all_releases h.read));
    in_time = (n, h.in_time);
    ended = Ended-cons start out.0 p h.read out.2 h.ended;
  }

  Awaited-last :
      (start : ℕ) (p : Poll) (ps : List Poll) (l l' : Local) (w : Waited)
      → is_late start p ≡ false
      → l' ≡ with_calls (releases p.recv) l
      → Ended start w (p ∷ []) ps
      → Awaited start (p ∷ ps) l (w, l', ps)
  unfolding all_releases
  Awaited-last start p ps l l' w n e h = record {
    read = p ∷ [];
    parts = refl;
    released = rw append-nil e;
    in_time = (n, tt);
    ended = h;
  }

  nothing_yet : (l : Local) → l ≡ with_calls [] l
  nothing_yet l = rw append-nil refl

  after_incoming :
      (start : ℕ) (p : Poll) (ps : List Poll) (l : Local) (m : Incoming) (o : Local × Option ℤ)
      → is_late start p ≡ false
      → p.recv ≡ message m
      → o ≡ on_incoming answer m l
      → Awaited start ps o.0 (wait_for_router answer start ps o.0)
      → Awaited start (p ∷ ps) l (
          let x : Waited × Local × List Poll = elim o.1 [
            | none ↦ wait_for_router answer start ps o.0
            | some z ↦ (answered z, o.0, ps)
          ] in
          x)
  after_incoming start p ps l m (l', none) n e q h =
      Awaited-cons start p ps l l' (wait_for_router answer start ps l') n
        (ap (λ (o : Local × Option ℤ). o.0) q ∙ rw e (on_incoming-releases m l)) h
  after_incoming start p ps l m (l', some v) n e q h =
      Awaited-last start p ps l l' (answered v) n
        (ap (λ (o : Local × Option ℤ). o.0) q ∙ rw e (on_incoming-releases m l))
        ([], p, m, refl, e, on_incoming-Answers m l v (sym (ap (λ (o : Local × Option ℤ). o.1) q)))

  round :
      (start : ℕ) (p : Poll) (ps : List Poll) (l : Local) (r : Recv)
      → is_late start p ≡ false
      → p.recv ≡ r
      → ((k : Local) → Awaited start ps k (wait_for_router answer start ps k))
      → Awaited start (p ∷ ps) l (
          let x : Waited × Local × List Poll = elim r [
            | nothing ↦ wait_for_router answer start ps l
            | queue_closed ↦ (closed, l, ps)
            | message m ↦
                let (l', v) = on_incoming answer m l in
                elim v [ none ↦ wait_for_router answer start ps l' | some z ↦ (answered z, l', ps) ]
          ] in
          x)
  unfolding releases
  round start p ps l nothing n e ih =
      Awaited-cons start p ps l l (wait_for_router answer start ps l) n (rw e (nothing_yet l))
        (ih l)
  round start p ps l queue_closed n e ih =
      Awaited-last start p ps l l closed n (rw e (nothing_yet l)) ([], p, refl, e)
  round start p ps l (message m) n e ih =
      after_incoming start p ps l m (on_incoming answer m l) n e refl
        (ih (on_incoming answer m l).0)

  -- How a wait for the router ends, and what it does with the buffers that it takes from the queue:
  -- each is released, in order, but those of a message of the router that is no answer. It ends with
  -- the last message taken, a genuine answer, whose value it returns; with the queue closed; or with
  -- a clock that shows more than 1000 ms, for the first time, and then the message that may be on the
  -- queue stays there. Otherwise all rounds are over and it waits for the next.
  pub wait_for_router-Awaited :
      (start : ℕ) (polls : List Poll) (l : Local)
      → Awaited start polls l (wait_for_router answer start polls l)
  unfolding wait_for_router all_releases
  wait_for_router-Awaited start [] l = record {
    read = [];
    parts = refl;
    released = nothing_yet l;
    in_time = tt;
    ended = refl;
  }
  wait_for_router-Awaited start (p ∷ ps) l = elim (Bool-cases (is_late start p)) [
    | inl y ↦ rw y (record {
      read = [];
      parts = refl;
      released = nothing_yet l;
      in_time = tt;
      ended = (p, ps, refl, y);
    })
    | inr n ↦ rw n (round start p ps l p.recv n refl (λ k. wait_for_router-Awaited start ps k))
  ]

  in_time-late :
      (start : ℕ) (ps qs : List Poll) (p : Poll)
      → All (λ p. is_late start p ≡ false) (ps ++ p ∷ qs)
      → is_late start p ≡ false
  in_time-late start [] qs p h = h.0
  in_time-late start (q ∷ ps) qs p h = in_time-late start ps qs p h.1

  -- A wait for the router is over, at the latest, when a round reads a clock that is more than 1000 ms
  -- past the start, whatever was on the queue before.
  pub wait_for_router-ends :
      (start : ℕ) (ps qs : List Poll) (p : Poll) (l : Local)
      → start + max_ack_wait < p.now
      → p.now < ulong_mod
      → (wait_for_router answer start (ps ++ p ∷ qs) l).0 ≢ waiting
  unfolding is_late
  wait_for_router-ends start ps qs p l h k e =
      let a = wait_for_router-Awaited start (ps ++ p ∷ qs) l in
      let left =
        subst (λ w. Ended start w a.read (wait_for_router answer start (ps ++ p ∷ qs) l).2) e
          a.ended in
      let all : ps ++ p ∷ qs ≡ a.read = a.parts ∙ ap (◌++◌ a.read) left ∙ append-nil a.read in
      let in_time =
        in_time-late start ps qs p
          (subst (All (λ q. is_late start q ≡ false)) (sym all) a.in_time) in
      ground (arith, in_time)
