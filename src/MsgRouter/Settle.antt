-- ===== src/MsgRouter/Settle.antt =====
-- msgRouter.c: what becomes of a connection that `ServerRXHandler` accepts.
use radlib.Base.{
  ℕ, ◌≡◌, refl, sym, ◌∙◌, true, false, ◌==◌, ◌⊎◌, some, List, [], ◌∷◌, ◌++◌, append-nil, arith,
  ==_self, Bool-cases, Option-cases, inl, inr,
}
use radlib.Base.Lists.{has, erase, has-append}
use radlib.SysDefs.{Status, ok, error}
use radlib.RadList.{Ptr, null}
use radlib.MsgRouter.{
  Event, Work, Env, log, set_pib, greet, ack, register_descriptor, socket_destroy, internal_msgid,
  magic_number,
}
use radlib.MsgRouter.Send.{Sizes}
use radlib.MsgRouter.Handler.{
  Subtype, register, deregister, ack_subtype, enable, disable, is_registered_subtype, dump_stats,
  other,
}
use radlib.MsgRouter.Connect.{
  InMsg, Net, Arrival, Opening, discard, remove_pib, new_remote, tell_all, add_remote,
  on_remote_register, connected, acked, on_remote_ack, on_in_msg, server_rx_handler,
}
use radlib.MsgRouter.Calls.{
  OnlyCalls, OnlyCalls-refl, OnlyCalls-log, Calls-log, Calls-before, Closed, Joined, Closed-discard,
  find_socket-known, register_remote_msgid-OnlyCalls,
}

module _ (sizes : Sizes) (env : Env) (net : Net) where
  tell_all-OnlyCalls : (w : Work) (p : Ptr) → OnlyCalls w (tell_all sizes env net w p).0
  unfolding tell_all
  tell_all-OnlyCalls w p = register_remote_msgid-OnlyCalls sizes env w p 0 true w.miib_list

  -- The PIB that `connected` works on.
  abbrev pub acknowledged : (new_client : ℕ) → InMsg → Work → Work
  acknowledged new_client msg w =
      set_pib w (acked sizes env net msg w) (record (w.pibs (acked sizes env net msg w)) {
        rxclient = new_client;
        max_msg_size = msg.max_msg_size;
      })

  -- The message IDs cannot be told to the router that acknowledges: its client is taken off the list.
  pub record Lost (c : ℕ) (msg : InMsg) (w v : Work) : Type 0 where
    pub untold :
        (tell_all sizes env net (acknowledged c msg w) (acked sizes env net msg w)).1 ≡ error
    pub dropped : v.pib_list ≡ erase (acked sizes env net msg w) w.pib_list

  -- The end of a connection attempt.
  abbrev pub Settled : (c : ℕ) → InMsg → Work → Work → Type 0
  Settled c msg w v = Closed c w v ⊎ (Joined net.descriptor c w v ⊎ Lost c msg w v)

  after_add :
      (c s : ℕ) (p : Ptr) (w u w1 : Work) (r : Status) (xs : List Event)
      → u.events ≡ w.events ++ xs
      → u.pib_list ≡ w.pib_list
      → u.miib_list ≡ w.miib_list
      → (u.pibs p).rxclient ≡ c
      → OnlyCalls u w1
      → let v : Work = elim r [
        | error ↦ discard (c ∷ s ∷ []) w1
        | ok ↦
            log
              (record w1 { pib_list = w1.pib_list ++ p ∷ [] })
              (register_descriptor (net.descriptor c) p)
      ] in
        Closed c w v ⊎ Joined net.descriptor c w v
  unfolding log
  after_add c s p w u w1 error xs e k m r o =
      let d = Closed-discard c [] (s ∷ []) o in
      inl (record {
        closed = Calls-before (socket_destroy c) w u (discard (c ∷ s ∷ []) w1) xs e d.closed;
        clients = d.clients ∙ k;
        blocks = d.blocks ∙ m;
      })
  after_add c s p w u w1 ok xs e k m r o =
      let q = register_descriptor (net.descriptor c) p in
      inr (record {
        client = p;
        known = ground (arith, has-append p w1.pib_list (p ∷ []), ==_self p);
        receives_from = rw o.pibs r;
        watched = Calls-before q w u (log w1 q) xs e (Calls-log q o);
      })

  add_remote-Settled :
      (c s size : ℕ) (p : Ptr) (w u : Work)
      → OnlyCalls w u
      → Closed c w (add_remote sizes env net c s size p u)
        ⊎ Joined net.descriptor c w (add_remote sizes env net c s size p u)
  unfolding add_remote set_pib new_remote
  add_remote-Settled c s size p w u o =
      let u1 = set_pib u p (new_remote c s size) in
      after_add c s p w u1 (tell_all sizes env net u1 p).0 (tell_all sizes env net u1 p).1 o.calls
        o.behind o.clients o.blocks (ground (arith, ==_self p)) (tell_all-OnlyCalls u1 p)

  on_remote_register-Settled :
      (opening : Opening) (c : ℕ) (msg : InMsg) (w : Work)
      → Settled c msg w (on_remote_register sizes env net opening c msg w)
  unfolding on_remote_register
  on_remote_register-Settled opening c msg w = elim (Option-cases opening.socket) [
    | inl e ↦ rw (on_remote_register, e) (inl (Closed-discard c [] [] (OnlyCalls-refl w)))
    | inr (s, e) ↦
        let o = OnlyCalls-log w (greet s ack) in
        elim (Bool-cases opening.wrote) [
          | inr f ↦ rw (on_remote_register, e, f) (inl (Closed-discard c (s ∷ []) [] o))
          | inl t ↦ elim (Bool-cases (opening.new_pib == null)) [
            | inl n ↦ rw (on_remote_register, e, t, n) (inl (Closed-discard c (s ∷ []) [] o))
            | inr m ↦
                rw (on_remote_register, e, t, m)
                  (elim (add_remote-Settled c s msg.max_msg_size opening.new_pib w
                    (log w (greet s ack)) o) [ inl k ↦ inl k | inr j ↦ inr (inl j) ])
          ]
        ]
  ]

  after_connect :
      (c : ℕ) (msg : InMsg) (p : Ptr) (w w1 : Work) (r : Status)
      → p ≡ acked sizes env net msg w
      → (tell_all sizes env net (acknowledged c msg w) (acked sizes env net msg w)).1 ≡ r
      → has p w.pib_list ≡ true
      → OnlyCalls (acknowledged c msg w) w1
      → let v : Work = elim r [
        | error ↦ remove_pib p w1
        | ok ↦ log w1 (register_descriptor (net.descriptor c) p)
      ] in
        Settled c msg w v
  unfolding log remove_pib set_pib
  after_connect c msg p w w1 error e u h o =
      inr (inr (record { untold = u; dropped = rw (o.clients, e) refl }))
  after_connect c msg p w w1 ok e u h o =
      let q = register_descriptor (net.descriptor c) p in
      let known : has p (log w1 q).pib_list ≡ true = rw o.clients h in
      let from : ((log w1 q).pibs p).rxclient ≡ c =
        rw o.pibs (rw e (ground (arith, ==_self (acked sizes env net msg w)))) in
      inr (
        inl (record {
          client = p;
          known = known;
          receives_from = from;
          watched =
              Calls-before q w (acknowledged c msg w) (log w1 q) [] (sym (append-nil w.events))
                (Calls-log q o);
        }))

  connected-Settled :
      (c : ℕ) (msg : InMsg) (w : Work)
      → (acked sizes env net msg w == null) ≡ false
      → Settled c msg w (connected sizes env net c msg.max_msg_size (acked sizes env net msg w) w)
  unfolding connected acked
  connected-Settled c msg w h =
      let p = acked sizes env net msg w in
      let u = acknowledged c msg w in
      after_connect c msg p w (tell_all sizes env net u p).0 (tell_all sizes env net u p).1 refl
        refl (find_socket-known net.descriptor w.pibs (net.descriptor msg.socket_id) w.pib_list h)
        (tell_all-OnlyCalls u p)

  on_remote_ack-Settled :
      (c : ℕ) (msg : InMsg) (w : Work) → Settled c msg w (on_remote_ack sizes env net c msg w)
  unfolding on_remote_ack
  on_remote_ack-Settled c msg w =
      let shut = inl (Closed-discard c [] [] (OnlyCalls-refl w)) in
      elim (Bool-cases (net.host c == msg.src_ip)) [
        | inr a ↦ rw (on_remote_ack, a) shut
        | inl a ↦ elim (Bool-cases (net.listen_port == msg.src_port)) [
          | inr b ↦ rw (on_remote_ack, a, b) shut
          | inl b ↦ elim (Bool-cases (acked sizes env net msg w == null)) [
            | inl n ↦ rw (on_remote_ack, a, b, n) shut
            | inr m ↦ rw (on_remote_ack, a, b, m) (connected-Settled c msg w m)
          ]
        ]
      ]

  shut : (c : ℕ) (msg : InMsg) (w : Work) → Settled c msg w (discard (c ∷ []) w)
  shut c msg w = inl (Closed-discard c [] [] (OnlyCalls-refl w))

  on_in_msg-Settled :
      (t : Subtype) (opening : Opening) (c : ℕ) (msg : InMsg) (w : Work)
      → Settled c msg w (on_in_msg sizes env net t opening c msg w)
  unfolding on_in_msg
  on_in_msg-Settled register opening c msg w = on_remote_register-Settled opening c msg w
  on_in_msg-Settled ack_subtype opening c msg w = on_remote_ack-Settled c msg w
  on_in_msg-Settled deregister opening c msg w = shut c msg w
  on_in_msg-Settled enable opening c msg w = shut c msg w
  on_in_msg-Settled disable opening c msg w = shut c msg w
  on_in_msg-Settled is_registered_subtype opening c msg w = shut c msg w
  on_in_msg-Settled dump_stats opening c msg w = shut c msg w
  on_in_msg-Settled other opening c msg w = shut c msg w

  abbrev pub Outcome : Arrival → (c : ℕ) → Work → Work → Type 0
  Outcome a c w v =
      Closed c w v
      ⊎ (Joined net.descriptor c w v ⊎ ((msg : InMsg) × (a.in_msg ≡ some msg) × Lost c msg w v))

  outcome :
      (a : Arrival) (c : ℕ) (msg : InMsg) (w v : Work)
      → a.in_msg ≡ some msg
      → Settled c msg w v
      → Outcome a c w v
  outcome a c msg w v e (inl k) = inl k
  outcome a c msg w v e (inr (inl j)) = inr (inl j)
  outcome a c msg w v e (inr (inr l)) = inr (inr (msg, e, l))

  -- What becomes of a connection that `ServerRXHandler` accepts: its socket is closed and the lists
  -- are what they were; or it belongs to a client on the list, and the router waits for what it
  -- sends; or it acknowledges a registration, the message IDs cannot be told to the other router,
  -- and its client is taken off the list.
  pub server_rx_handler-Outcome :
      (a : Arrival) (opening : Opening) (c : ℕ) (w : Work)
      → a.new_client ≡ some c
      → Outcome a c w (server_rx_handler sizes env net a opening w)
  unfolding server_rx_handler
  server_rx_handler-Outcome a opening c w e =
      let closed = Closed-discard c [] [] (OnlyCalls-refl w) in
      elim (Option-cases a.hdr) [
        | inl n ↦ rw (server_rx_handler, e, n) (inl closed)
        | inr (hdr, y) ↦ elim (Bool-cases (hdr.magic == magic_number)) [
          | inr m ↦ rw (server_rx_handler, e, y, m) (inl closed)
          | inl m ↦ elim (Bool-cases (hdr.msg_id == internal_msgid)) [
            | inr i ↦ rw (server_rx_handler, e, y, m, i) (inl closed)
            | inl i ↦ elim (Option-cases a.in_msg) [
              | inl z ↦ rw (server_rx_handler, e, y, m, i, z) (inl closed)
              | inr (msg, z) ↦ outcome a c msg w (server_rx_handler sizes env net a opening w) z (
                  rw (server_rx_handler, e, y, m, i, z)
                    (on_in_msg-Settled msg.sub_msg_id opening c msg w))
            ]
          ]
        ]
      ]
