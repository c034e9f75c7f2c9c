-- ===== src/RouterClient/Service.antt =====
-- radmsgRouter.c and msgRouter.c together: what a request of a process does to the router that takes it
-- from its queue.
use radlib.Base.{
  ℕ, ◌+◌, ◌%◌, ◌^◌, ◌<◌, ap, ◌≡◌, refl, sym, ◌∙◌, true, false, ◌==◌, ◌||◌, some, List, [], ◌∷◌,
  ◌++◌, append_assoc, arith, Bool-cases, Option-cases, inl, inr,
}
use radlib.Base.Lists.{has, length}
use radlib.SysDefs.{ok, uint_mod, ulong_mod, sign_extended}
use radlib.RadList.{Ptr, null}
use radlib.MsgRouter
use radlib.MsgRouter.{
  pib_type_local, Event, Work, internal_msgid, find_pid, get_pib_by_pid, block_with,
}
use radlib.MsgRouter.Send.{Sizes}
use radlib.MsgRouter.Handler.{Hdr, Alloc, enable, disable, sender, on_internal, queue_msg_handler}
use radlib.MsgRouter.Valid.{IsValid}
use radlib.MsgRouter.Due.{due-consumer}
use radlib.MsgRouter.Route.{queue_msg_handler-due}
use radlib.MsgRouter.Subscribe.{consumers_of, on_enable-consumes, on_disable-not_consumes}
use radlib.RouterClient.{
  queue_send, Local, Env, log, request, user_msg, send_to_router, send_request, message_register,
  message_deregister, message_send,
}

-- The one call of a request: a buffer with the header goes to the router's queue.
abbrev pub Delivers : Hdr → Local → Local → Type 0
Delivers hdr l k = (b : ℕ) × (k.calls ≡ l.calls ++ queue_send l.rtr_queue_name b hdr ∷ [])

module _ (sizes : Sizes) (env : Env) where
  send_to_router-Delivers :
      (hdr : Hdr) (n : ℕ) (l : Local)
      → (send_to_router sizes env hdr n l).1 ≡ ok
      → Delivers hdr l (send_to_router sizes env hdr n l).0
  unfolding send_to_router log
  send_to_router-Delivers hdr n l h =
      elim (Option-cases (env.get_buffer l.calls ((sizes.hdr + n) % ulong_mod))) [
        | inl e ↦ absurd (ground arith)
        | inr (b, e) ↦
            let sent = log l (queue_send l.rtr_queue_name b hdr) in
            elim (Bool-cases (env.accepts sent.calls)) [
              | inl y ↦ (b, rw (send_to_router, e, y) refl)
              | inr f ↦ absurd (ground arith)
            ]
      ]

  message_register-Delivers :
      (id : ℕ) (l : Local)
      → (message_register sizes env id l).1 ≡ ok
      → Delivers (request env.pid enable id) l (message_register sizes env id l).0
  unfolding message_register send_request
  message_register-Delivers id l h = elim (Bool-cases ((l.rtr_queue_name == 0) || (id == 0))) [
    | inl y ↦ absurd (ground arith)
    | inr n ↦
        rw n (send_to_router-Delivers (request env.pid enable id) sizes.internal_msg l (rw n at h))
  ]

  message_deregister-Delivers :
      (id : ℕ) (l : Local)
      → (message_deregister sizes env id l).1 ≡ ok
      → Delivers (request env.pid disable id) l (message_deregister sizes env id l).0
  unfolding message_deregister send_request
  message_deregister-Delivers id l h = elim (Bool-cases ((l.rtr_queue_name == 0) || (id == 0))) [
    | inl y ↦ absurd (ground arith)
    | inr n ↦
        rw n (send_to_router-Delivers (request env.pid disable id) sizes.internal_msg l (rw n at h))
  ]

  message_send-Delivers :
      (id : ℕ) (bytes : List ℕ) (l : Local)
      → (message_send sizes env id bytes l).1 ≡ ok
      → Delivers (user_msg env.pid id bytes) l (message_send sizes env id bytes l).0
  unfolding message_send
  message_send-Delivers id bytes l h = elim (Bool-cases ((l.rtr_queue_name == 0) || (id == 0))) [
    | inl y ↦ absurd (ground arith)
    | inr n ↦ rw n (
        send_to_router-Delivers (user_msg env.pid id bytes) (sign_extended (length bytes)) l
          (rw n at h))
  ]

module _ (sizes : Sizes) (env : Env) (router_env : MsgRouter.Env) where
  -- A process whose PID is that of a client of the router and that gets OK from
  -- radMsgRouterMessageRegister for an ID below 2^31 has put one buffer on the router's queue; when the
  -- router handles it, the client is a consumer of the message ID, if `malloc` succeeds there. The router's clients
  -- stay.
  pub message_register-consumes :
      (alloc : Alloc) (src_queue id : ℕ) (l : Local) (w : Work)
      → (message_register sizes env id l).1 ≡ ok
      → id < 2 ^ 31
      → alloc.miib_ok ≡ true
      → alloc.cib_ok ≡ true
      → (get_pib_by_pid w env.pid == null) ≡ false
      → Delivers (request env.pid enable id) l (message_register sizes env id l).0
        × ((ps : List Ptr) × (block_with id
                (queue_msg_handler sizes router_env alloc src_queue
                  (request env.pid enable id)
                  null
                  w).miib_list
              ≡ some ps)
            × (has (get_pib_by_pid w env.pid) ps ≡ true)
            × ((queue_msg_handler sizes router_env alloc src_queue
                  (request env.pid enable id)
                  null
                  w).pibs
                ≡ w.pibs)
            × ((queue_msg_handler sizes router_env alloc src_queue
                  (request env.pid enable id)
                  null
                  w).pib_list
                ≡ w.pib_list))
  unfolding queue_msg_handler on_internal request sender
  message_register-consumes alloc q id l w h small a b k = (
    message_register-Delivers sizes env id l h,
    on_enable-consumes sizes router_env alloc (request env.pid enable id) null w small a b k,
  )

  -- A process that gets OK from radMsgRouterMessageDeregister for an ID below 2^31 is, when the router
  -- handles the buffer that was put on its queue, no consumer of the message ID, where the router's
  -- lists are consistent.
  pub message_deregister-not_consumes :
      (alloc : Alloc) (src_queue id : ℕ) (l : Local) (w : Work)
      → (message_deregister sizes env id l).1 ≡ ok
      → id < 2 ^ 31
      → IsValid w
      → (get_pib_by_pid w env.pid == null) ≡ false
      → Delivers (request env.pid disable id) l (message_deregister sizes env id l).0
        × (has (get_pib_by_pid w env.pid) (
              consumers_of id
                (queue_msg_handler sizes router_env alloc src_queue
                  (request env.pid disable id)
                  null
                  w).miib_list)
            ≡ false)
  unfolding queue_msg_handler on_internal request sender
  message_deregister-not_consumes alloc q id l w h small v k = (
    message_deregister-Delivers sizes env id l h,
    on_disable-not_consumes sizes router_env (request env.pid disable id) null w small v k,
  )

-- A subscriber and a publisher, each a process, and the router.
module _ (sizes : Sizes) (subscriber publisher : Env) (router_env : MsgRouter.Env)
    (enough : (es : List Event) (n : ℕ) → router_env.has_buffer es n ≡ true) where
  -- The router after the subscriber's request.
  abbrev pub subscribed : Alloc → (src_queue id : ℕ) → Work → Work
  subscribed alloc q id w =
      queue_msg_handler sizes router_env alloc q (request subscriber.pid enable id) null w

  -- A process that got OK from radMsgRouterMessageRegister is sent what another process then sends
  -- with the message ID: if both are clients of the router, `malloc` and the router's buffers do not
  -- fail, and the ID and the length of the message are below 2^31.
  pub publish-subscribe :
      (alloc alloc' : Alloc) (q q' id : ℕ) (bytes : List ℕ) (l k : Local) (w : Work)
      → (message_register sizes subscriber id l).1 ≡ ok
      → (message_send sizes publisher id bytes k).1 ≡ ok
      → alloc.miib_ok ≡ true
      → alloc.cib_ok ≡ true
      → id < 2 ^ 31
      → length bytes < 2 ^ 31
      → (get_pib_by_pid w subscriber.pid == null) ≡ false
      → (get_pib_by_pid w publisher.pid == null) ≡ false
      → (w.pibs (get_pib_by_pid w subscriber.pid)).type ≡ pib_type_local
      → Delivers (request subscriber.pid enable id) l (message_register sizes subscriber id l).0
        × Delivers (user_msg publisher.pid id bytes) k (message_send sizes publisher id bytes k).0
        × ((es : List Event) × (fs : List Event) × ((queue_msg_handler sizes router_env alloc' q'
                (user_msg publisher.pid id bytes)
                null
                (subscribed alloc q id w)).events
              ≡ es
                ++ MsgRouter.queue_send
                    (get_pib_by_pid w subscriber.pid)
                    (MsgRouter.message id bytes)
                  ∷ fs))
  unfolding user_msg sender get_pib_by_pid
  publish-subscribe alloc alloc' q q' id bytes l k w r s a b small len hs hp t =
      let p = get_pib_by_pid w subscriber.pid in
      let hdr = user_msg publisher.pid id bytes in
      let w1 = subscribed alloc q id w in
      let (d, (ps, found, member, same, clients)) =
        message_register-consumes sizes subscriber router_env alloc q id l w r small a b hs in
      let known : (sender w1 null hdr == null) ≡ false = rw (same, clients) hp in
      let sent =
        queue_msg_handler-due sizes router_env enough alloc' q' hdr null w1 ps refl small len known
          found in
      let here : (w1.pibs p).type ≡ pib_type_local = rw same t in
      let whole : id % uint_mod ≡ id = omega arith in
      let (es, fs, e) = due-consumer w1.pibs null id bytes p ps member hs here in
      (
        d,
        message_send-Delivers sizes publisher id bytes k s,
        (
          w1.events ++ es,
          fs,
          sent.0
              ∙ rw e (
                  sym (
                    append_assoc w1.events es
                      (MsgRouter.queue_send p (MsgRouter.message (id % uint_mod) bytes) ∷ fs)))
              ∙ ap
                  (λ n.
                    (w1.events ++ es) ++ MsgRouter.queue_send p (MsgRouter.message n bytes) ∷ fs)
                  whole,
        ),
      )
