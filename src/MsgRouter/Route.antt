-- ===== src/MsgRouter/Route.antt =====
-- msgRouter.c: where a normal message goes.
use mathlib.Core.Path.{subst}
use radlib.Base.{
  arith, ℕ, ◌+◌, ◌%◌, ◌^◌, ◌<◌, ◌≡◌, refl, sym, ap, ◌∙◌, true, false, if◌then◌else◌, ◌==◌, ltb,
  some, List, [], ◌∷◌, ◌++◌, append-nil, append_assoc, Bool-cases, inl, inr,
}
use radlib.Base.Lists.{length}
use radlib.SysDefs.{Status, ok, error, uint_mod, ulong_mod}
use radlib.RadList.{Ptr, null}
use radlib.MsgRouter.{
  PibType, pib_type_local, pib_type_remote, Payload, Event, queue_send, socket_write, Work, Env,
  log, get_miib, block_with, get_miib-block_with, set_pib, message, internal_msgid, magic_number,
}
use radlib.MsgRouter.Send.{
  Sizes, send_to_remote, count_rx_error, count_sent, send_local, send_remote, send_to_client,
  route_one, route,
}
use radlib.MsgRouter.Handler.{Hdr, Alloc, sender, on_message, queue_msg_handler, count_transmit}
use radlib.MsgRouter.Due.{
  due_one, due_here, due, SameKinds, due-agree, set_pib-SameKinds, count_transmit_same,
}

module _ (sizes : Sizes) (env : Env)
    (buffers : (es : List Event) (n : ℕ) → env.has_buffer es n ≡ true) where
  -- One round of the loop adds what is due to that consumer.
  record Round (w : Work) (es : List Event) (v : Work) : Type 0 where
    kinds : SameKinds w v
    sent : v.events ≡ w.events ++ es
    receives : v.receives ≡ w.receives

  send_local-Round :
      (w : Work) (id : ℕ) (bytes : List ℕ) (p : Ptr)
      → Round w
          (queue_send p (message (id % uint_mod) bytes) ∷ [])
          (send_local sizes env w p id bytes).0
  unfolding send_local count_rx_error count_sent log set_pib
  send_local-Round w id bytes p =
      rw (buffers w.events (length bytes)) (elim (Bool-cases (env.accepts w.events p)) [
        | inl y ↦
            rw y
              (record { kinds = set_pib-SameKinds w p _ refl refl; sent = refl; receives = refl })
        | inr n ↦
            rw n
              (record { kinds = set_pib-SameKinds w p _ refl refl; sent = refl; receives = refl })
      ])

  send_to_remote_sent :
      (w : Work) (p : Ptr) (m : Payload) (n : ℕ)
      → send_to_remote sizes env w p m n
        ≡ (log w (socket_write p m), if env.accepts w.events p then ok else error)
  unfolding send_to_remote
  send_to_remote_sent w p m n = rw (buffers w.events (sizes.hdr + n)) refl

  send_remote-Round :
      (w : Work) (id : ℕ) (bytes : List ℕ) (p : Ptr)
      → Round w
          (due_one pib_type_remote (w.pibs p).max_msg_size p id bytes)
          (send_remote sizes env w p id bytes).0
  unfolding send_remote count_rx_error count_sent log set_pib
  send_remote-Round w id bytes p = elim (Bool-cases (ltb (w.pibs p).max_msg_size (length bytes))) [
    | inl y ↦ rw y (record {
      kinds = set_pib-SameKinds w p _ refl refl;
      sent = sym (append-nil w.events);
      receives = refl;
    })
    | inr n ↦ rw n (
        subst
          (λ z.
            Round w (socket_write p (message (id % uint_mod) bytes) ∷ [])
              (elim z.1 as (λ r. Work × Status) [
                | error ↦ (count_rx_error sizes env z.0 p, error)
                | ok ↦ (count_sent sizes env z.0 p, ok)
              ]).0)
          (sym (send_to_remote_sent w p (message (id % uint_mod) bytes) (length bytes)))
          (elim (Bool-cases (env.accepts w.events p)) [
            | inl y ↦
                rw y (record {
                  kinds = set_pib-SameKinds w p _ refl refl;
                  sent = refl;
                  receives = refl;
                })
            | inr n ↦
                rw n (record {
                  kinds = set_pib-SameKinds w p _ refl refl;
                  sent = refl;
                  receives = refl;
                })
          ]))
  ]

  send_to_client-Round :
      (w : Work) (id : ℕ) (bytes : List ℕ) (p : Ptr) (t : PibType)
      → (w.pibs p).type ≡ t
      → Round w
          (due_one t (w.pibs p).max_msg_size p id bytes)
          (send_to_client sizes env w p id bytes).0
  unfolding send_to_client
  send_to_client-Round w id bytes p pib_type_local e =
      rw (send_to_client, e) (send_local-Round w id bytes p)
  send_to_client-Round w id bytes p pib_type_remote e =
      rw (send_to_client, e) (send_remote-Round w id bytes p)

  route_one-Round :
      (w : Work) (x : Ptr) (id : ℕ) (bytes : List ℕ) (p : Ptr)
      → Round w
          (due_here (p == x) (due_one (w.pibs p).type (w.pibs p).max_msg_size p id bytes))
          (route_one sizes env w x id bytes p)
  unfolding route_one
  route_one-Round w x id bytes p = elim (Bool-cases (p == x)) [
    | inl y ↦
        rw y
          (record { kinds = λ a. (refl, refl); sent = sym (append-nil w.events); receives = refl })
    | inr n ↦ rw n (send_to_client-Round w id bytes p (w.pibs p).type refl)
  ]

  route-Round :
      (w : Work) (x : Ptr) (id : ℕ) (bytes : List ℕ) (ps : List Ptr)
      → Round w (due w.pibs x id bytes ps) (route sizes env w x id bytes ps)
  unfolding route due
  route-Round w x id bytes [] = record {
    kinds = λ a. (refl, refl);
    sent = sym (append-nil w.events);
    receives = refl;
  }
  route-Round w x id bytes (p ∷ ps) =
      let w1 = route_one sizes env w x id bytes p in
      let one = route_one-Round w x id bytes p in
      let rest = route-Round w1 x id bytes ps in
      record {
        kinds = λ a. ((rest.kinds a).0 ∙ (one.kinds a).0, (rest.kinds a).1 ∙ (one.kinds a).1);
        sent =
            rest.sent
            ∙ ap (λ es. es ++ due w1.pibs x id bytes ps) one.sent
            ∙ append_assoc w.events
                (due_here (p == x) (due_one (w.pibs p).type (w.pibs p).max_msg_size p id bytes))
                (due w1.pibs x id bytes ps)
            ∙ ap
                (λ es.
                  w.events
                  ++ (due_here (p == x) (due_one (w.pibs p).type (w.pibs p).max_msg_size p id bytes)
                      ++ es))
                (due-agree w w1 x id bytes ps one.kinds);
        receives = rest.receives ∙ one.receives;
      }

  on_message-due :
      (hdr : Hdr) (x : Ptr) (w : Work) (ps : List Ptr)
      → (sender w x hdr == null) ≡ false
      → get_miib hdr.msg_id w.miib_list ≡ some ps
      → ((on_message sizes env hdr x w).events ≡ w.events ++ due w.pibs x hdr.msg_id hdr.bytes ps)
        × ((on_message sizes env hdr x w).receives ≡ (w.receives + 1) % ulong_mod)
  unfolding on_message
  on_message-due hdr x w ps known found =
      let w1 = record w { receives = (w.receives + 1) % ulong_mod } in
      let p = sender w x hdr in
      let all = route-Round (count_transmit w1 p) x hdr.msg_id hdr.bytes ps in
      rw (known, found)
        (
          all.sent
              ∙ ap (λ es. w.events ++ es)
                  (due-agree w1 (count_transmit w1 p) x hdr.msg_id hdr.bytes ps
                    (count_transmit_same w1 p)),
          all.receives,
        )

  -- A normal message of a known sender, whose ID is registered and below 2^31, as its length is, is tried
  -- on each of the ID's consumers once and in their order: not on the socket that it came from, and
  -- not on a remote client whose buffers are too small for it. It is counted once. The router is
  -- assumed not to run out of buffers.
  pub queue_msg_handler-due :
      (alloc : Alloc) (src_queue : ℕ) (hdr : Hdr) (x : Ptr) (w : Work) (ps : List Ptr)
      → (hdr.magic == magic_number) ≡ true
      → hdr.msg_id < 2 ^ 31
      → length hdr.bytes < 2 ^ 31
      → (sender w x hdr == null) ≡ false
      → block_with hdr.msg_id w.miib_list ≡ some ps
      → ((queue_msg_handler sizes env alloc src_queue hdr x w).events
          ≡ w.events ++ due w.pibs x hdr.msg_id hdr.bytes ps)
        × ((queue_msg_handler sizes env alloc src_queue hdr x w).receives
            ≡ (w.receives + 1) % ulong_mod)
  unfolding queue_msg_handler
  queue_msg_handler-due alloc q hdr x w ps good small l known found =
      let normal : (hdr.msg_id == internal_msgid) ≡ false = ground arith in
      rw (good, normal)
        (on_message-due hdr x w ps known (get_miib-block_with hdr.msg_id w.miib_list small ∙ found))
