-- ===== src/RouterClient/Requests.antt =====
-- radmsgRouter.c: what a request does on each of its branches, and a registration that fails.
use radlib.Base.{
  ℕ, ◌+◌, ◌%◌, ◌^◌, ◌<◌, ◌≡◌, refl, Bool, true, false, if◌then◌else◌, ◌==◌, ◌||◌, not, ◌⊎◌, Option,
  none, some, List, Bool-cases, Option-cases, inl, inr,
}
use radlib.Base.Lists.{length}
use radlib.SysDefs.{ulong_mod, sign_extended-int, Status, ok, error, pos, eq_int}
use radlib.MsgRouter.Send.{Sizes}
use radlib.MsgRouter.Handler.{Hdr, register, enable, disable, dump_stats}
use radlib.RouterClient.{
  queue_send, queue_attach, bfr_rls, Local, Env, log, request, user_msg, Poll, Waited, answered,
  timeout, closed, waiting, ack_answer, wait_for_router, send_to_router, send_request, init,
  message_register, message_deregister, message_send, stats_dump,
}

-- What a request of a length has done: if there is no buffer, nothing but to return ERROR; if the queue
-- takes the buffer, to put it there with the header and to return OK; and if the queue does not take
-- it, to release it and to return ERROR.
abbrev pub Requested : (sizes : Sizes) → Env → Hdr → (n : ℕ) → Local → Local × Status → Type 0
Requested sizes env hdr n l out =
    ((env.get_buffer l.calls ((sizes.hdr + n) % ulong_mod) ≡ none) × (out ≡ (l, error)))
    ⊎ ((b : ℕ) × (env.get_buffer l.calls ((sizes.hdr + n) % ulong_mod) ≡ some b)
        × (((env.accepts (log l (queue_send l.rtr_queue_name b hdr)).calls ≡ true)
              × (out ≡ (log l (queue_send l.rtr_queue_name b hdr), ok)))
            ⊎ ((env.accepts (log l (queue_send l.rtr_queue_name b hdr)).calls ≡ false)
                × (out ≡ (log (log l (queue_send l.rtr_queue_name b hdr)) (bfr_rls b), error)))))

-- A request of a process that is registered; of any other, nothing is done.
abbrev pub Guarded : Bool → (sizes : Sizes) → Env → Hdr → (n : ℕ) → Local → Local × Status → Type 0
Guarded true sizes env hdr n l out = Requested sizes env hdr n l out
Guarded false sizes env hdr n l out = out ≡ (l, error)

module _ (sizes : Sizes) (env : Env) where
  send_to_router-Requested :
      (hdr : Hdr) (n : ℕ) (l : Local)
      → Requested sizes env hdr n l (send_to_router sizes env hdr n l)
  unfolding send_to_router
  send_to_router-Requested hdr n l =
      elim (Option-cases (env.get_buffer l.calls ((sizes.hdr + n) % ulong_mod))) [
        | inl e ↦ inl (e, rw (send_to_router, e) refl)
        | inr (b, e) ↦
            let sent = log l (queue_send l.rtr_queue_name b hdr) in
            inr (
              b,
              e,
              elim (Bool-cases (env.accepts sent.calls)) [
                | inl y ↦ inl (y, rw (send_to_router, e, y) refl)
                | inr f ↦ inr (f, rw (send_to_router, e, f) refl)
              ],
            )
      ]

  guard :
      (b : Bool) (hdr : Hdr) (n : ℕ) (l : Local) (out : Local × Status)
      → Requested sizes env hdr n l out
      → Guarded (not b) sizes env hdr n l (if b then (l, error) else out)
  guard true hdr n l out h = refl
  guard false hdr n l out h = h

  -- radMsgRouterMessageRegister, -MessageDeregister, -MessageSend and -StatsDump return ERROR, and make
  -- no call, if the process is not registered or the message ID is 0. Otherwise they return ERROR and
  -- make no call if there is no buffer for the header and the message; they return OK if the router's
  -- queue takes the one buffer with the right header; and if it does not, they release that buffer and
  -- return ERROR. The length of the message is below 2^31.
  pub requests-Guarded :
      (id : ℕ) (bytes : List ℕ) (l : Local)
      → length bytes < 2 ^ 31
      → Guarded
          (not ((l.rtr_queue_name == 0) || (id == 0)))
          sizes
          env
          (request env.pid enable id)
          sizes.internal_msg
          l
          (message_register sizes env id l)
        × Guarded
            (not ((l.rtr_queue_name == 0) || (id == 0)))
            sizes
            env
            (request env.pid disable id)
            sizes.internal_msg
            l
            (message_deregister sizes env id l)
        × Guarded
            (not ((l.rtr_queue_name == 0) || (id == 0)))
            sizes
            env
            (user_msg env.pid id bytes)
            (length bytes)
            l
            (message_send sizes env id bytes l)
        × Guarded
            (not (l.rtr_queue_name == 0))
            sizes
            env
            (request env.pid dump_stats 0)
            sizes.internal_msg
            l
            (stats_dump sizes env l)
  unfolding message_register message_deregister message_send stats_dump send_request
  requests-Guarded id bytes l small =
      let b = (l.rtr_queue_name == 0) || (id == 0) in
      let n = sizes.internal_msg in
      (
        guard b _ n l _ (send_to_router-Requested (request env.pid enable id) n l),
        guard b _ n l _ (send_to_router-Requested (request env.pid disable id) n l),
        rw (sign_extended-int (length bytes) small) (
            guard b _ (length bytes) l _
              (send_to_router-Requested (user_msg env.pid id bytes) (length bytes) l)),
        guard (l.rtr_queue_name == 0) _ n l _
            (send_to_router-Requested (request env.pid dump_stats 0) n l),
      )

  -- A registration whose result is ERROR leaves the process without a queue to the router.
  abbrev pub Reset : Local × Option Status → Type 0
  Reset (l, some error) = l.rtr_queue_name ≡ 0
  Reset (l, some ok) = Unit
  Reset (l, none) = Unit

  waited-Reset :
      (a : Waited) (l3 : Local)
      → Reset (
          let no_ack : Local × Option Status = (record l3 { rtr_queue_name = 0 }, some error) in
          let x : Local × Option Status = elim a [
            | answered v ↦ (if eq_int v (pos 1) then (l3, some ok) else no_ack)
            | timeout ↦ no_ack
            | closed ↦ no_ack
            | waiting ↦ (l3, none)
          ] in
          x)
  waited-Reset (answered v) l3 = elim (Bool-cases (eq_int v (pos 1))) [
    | inl y ↦ rw y tt
    | inr n ↦ rw n refl
  ]
  waited-Reset timeout l3 = refl
  waited-Reset closed l3 = refl
  waited-Reset waiting l3 = tt

  sent-Reset :
      (r : Status) (l2 : Local) (out : Local × Option Status)
      → Reset out
      → Reset (
          let x : Local × Option Status = elim r [
            | error ↦ (record l2 { rtr_queue_name = 0 }, some error)
            | ok ↦ out
          ] in
          x)
  sent-Reset ok l2 out h = h
  sent-Reset error l2 out h = refl

  init-Reset :
      (name start : ℕ) (polls : List Poll) (l : Local)
      → env.running ≡ true
      → Reset (init sizes env name start polls l)
  unfolding init
  init-Reset name start polls l h =
      let l1 = log (record l { rtr_queue_name = name }) (queue_attach name) in
      let s = send_request sizes env register 0 l1 in
      let w = wait_for_router ack_answer start polls s.0 in
      elim (Bool-cases (env.attaches l.calls)) [
        | inr n ↦ rw (h, n) refl
        | inl y ↦ rw (h, y) (sent-Reset s.1 s.0 _ (waited-Reset w.0 w.1))
      ]

  Reset-zero :
      (out : Local × Option Status) → Reset out → out.1 ≡ some error → out.0.rtr_queue_name ≡ 0
  Reset-zero (l, some error) h e = h
  Reset-zero (l, some ok) h e = cc
  Reset-zero (l, none) h e = cc

  refused :
      (id : ℕ) (bytes : List ℕ) (l : Local)
      → l.rtr_queue_name ≡ 0
      → (message_register sizes env id l ≡ (l, error))
        × (message_deregister sizes env id l ≡ (l, error))
        × (message_send sizes env id bytes l ≡ (l, error))
        × (stats_dump sizes env l ≡ (l, error))
  unfolding message_register message_deregister message_send stats_dump
  refused id bytes l h = (rw h refl, rw h refl, rw h refl, rw h refl)

  -- After radMsgRouterInit returned ERROR while the router was running, because it could not attach to
  -- its queue or send to it, or got no acknowledgement, every request of the process returns ERROR
  -- and makes no call.
  pub init-refused :
      (name start id : ℕ) (polls : List Poll) (bytes : List ℕ) (l : Local)
      → env.running ≡ true
      → (init sizes env name start polls l).1 ≡ some error
      → let k = (init sizes env name start polls l).0 in
        (message_register sizes env id k ≡ (k, error))
        × (message_deregister sizes env id k ≡ (k, error))
        × (message_send sizes env id bytes k ≡ (k, error))
        × (stats_dump sizes env k ≡ (k, error))
  init-refused name start id polls bytes l h e =
      refused id bytes (init sizes env name start polls l).0
        (Reset-zero (init sizes env name start polls l) (init-Reset name start polls l h) e)
