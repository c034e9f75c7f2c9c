-- ===== src/MsgRouter/Peers.antt =====
-- msgRouter.c: the connections with other routers, and the lists of the router.
use radlib.Base.{
  ℕ, ◌≡◌, true, false, ◌==◌, some, List, [], ◌∷◌, ◌++◌, arith, Bool-cases, Option-cases, inl, inr,
}
use radlib.Base.Lists.{has, erase, All, has-erase, Distinct-erase}
use radlib.SysDefs.{Status, ok, error}
use radlib.RadList.{Ptr, null}
use radlib.MsgRouter.{
  Miib, Work, Env, log, set_pib, greet, ack, register_descriptor, socket_destroy, internal_msgid,
  magic_number, register_router,
}
use radlib.MsgRouter.Send.{Sizes}
use radlib.MsgRouter.Handler.{
  Subtype, register, deregister, ack_subtype, enable, disable, is_registered_subtype, dump_stats,
  other,
}
use radlib.MsgRouter.Connect.{
  InMsg, Net, Arrival, Opening, discard, remove_pib, new_remote, connect_timer_handler, tell_all,
  add_remote, on_remote_register, connected, acked, on_remote_ack, on_in_msg, server_rx_handler,
}
use radlib.MsgRouter.Valid.{MiibOk, IsSound, IsValid, Known-without, IsSound-snoc}
use radlib.MsgRouter.Frame.{
  SameLists, SameLists-refl, SameLists-IsValid, register_remote_msgid-SameLists,
}

pub discard-SameLists : (ss : List ℕ) (w : Work) → SameLists w (discard ss w)
unfolding discard log
discard-SameLists [] w = SameLists-refl w
discard-SameLists (s ∷ ss) w =
    let d = discard-SameLists ss (log w (socket_destroy s)) in
    record { clients = d.clients; blocks = d.blocks }

-- A client that consumes nothing.
abbrev pub ConsumesNothing : Ptr → Work → Type 0
ConsumesNothing p w = All (λ m. has p m.consumers ≡ false) w.miib_list

blocks-without :
    (p : Ptr) (ps : List Ptr) (ms : List Miib)
    → IsSound ps ms
    → All (λ m. has p m.consumers ≡ false) ms
    → IsSound (erase p ps) ms
blocks-without p ps ms v h = record {
  distinct = Distinct-erase p ps v.distinct;
  non_null = ground (arith, has-erase null p ps v.distinct, v.non_null);
  blocks = both ms h v.blocks;
  ids_distinct = v.ids_distinct;
}
  where
    both :
        (ms : List Miib)
        → All (λ m. has p m.consumers ≡ false) ms
        → All (MiibOk ps) ms
        → All (MiibOk (erase p ps)) ms
    both [] h k = tt
    both (m ∷ ms) h k =
        ((Known-without p ps v.distinct m.consumers h.0 k.0.0, k.0.1), both ms h.1 k.1)

pub connect_timer_handler-IsValid :
    (opening : Opening) (w : Work)
    → has opening.new_pib w.pib_list ≡ false
    → IsValid w
    → IsValid (connect_timer_handler opening w)
unfolding connect_timer_handler log set_pib
connect_timer_handler-IsValid opening w out v = elim (Option-cases opening.socket) [
  | inl e ↦ rw (connect_timer_handler, e) v
  | inr (s, e) ↦
      let w1 = log (record w { remote_server = s }) (greet s register_router) in
      let v1 : IsValid w1 = v in
      let shut = SameLists-IsValid (discard-SameLists (s ∷ []) w1) v1 in
      elim (Bool-cases opening.wrote) [
        | inr f ↦ rw (connect_timer_handler, e, f) shut
        | inl t ↦ elim (Bool-cases (opening.new_pib == null)) [
          | inl n ↦ rw (connect_timer_handler, e, t, n) shut
          | inr m ↦
              rw (connect_timer_handler, e, t, m)
                (IsSound-snoc opening.new_pib w.pib_list w.miib_list out m v)
        ]
      ]
]

module _ (sizes : Sizes) (env : Env) (net : Net) where
  tell_all-SameLists : (w : Work) (p : Ptr) → SameLists w (tell_all sizes env net w p).0
  unfolding tell_all
  tell_all-SameLists w p = register_remote_msgid-SameLists sizes env w p 0 true w.miib_list

  after_add :
      (c s : ℕ) (p : Ptr) (w w1 : Work) (r : Status)
      → SameLists w w1
      → has p w.pib_list ≡ false
      → (p == null) ≡ false
      → IsValid w
      → IsValid (
          let x : Work = elim r [
            | error ↦ discard (c ∷ s ∷ []) w1
            | ok ↦
                log
                  (record w1 { pib_list = w1.pib_list ++ p ∷ [] })
                  (register_descriptor (net.descriptor c) p)
          ] in
          x)
  unfolding log
  after_add c s p w w1 error l out n v =
      SameLists-IsValid (discard-SameLists (c ∷ s ∷ []) w1) (SameLists-IsValid l v)
  after_add c s p w w1 ok l out n v =
      rw (l.clients, l.blocks) (IsSound-snoc p w.pib_list w.miib_list out n v)

  add_remote-IsValid :
      (c s size : ℕ) (p : Ptr) (w : Work)
      → has p w.pib_list ≡ false
      → (p == null) ≡ false
      → IsValid w
      → IsValid (add_remote sizes env net c s size p w)
  unfolding add_remote set_pib
  add_remote-IsValid c s size p w out n v =
      let w0 = set_pib w p (new_remote c s size) in
      after_add c s p w0 (tell_all sizes env net w0 p).0 (tell_all sizes env net w0 p).1
        (tell_all-SameLists w0 p) out n v

  after_connect :
      (c : ℕ) (p : Ptr) (w w1 : Work) (r : Status)
      → SameLists w w1
      → ConsumesNothing p w
      → IsValid w
      → IsValid (
          let x : Work = elim r [
            | error ↦ remove_pib p w1
            | ok ↦ log w1 (register_descriptor (net.descriptor c) p)
          ] in
          x)
  unfolding log remove_pib
  after_connect c p w w1 ok l h v = rw (l.clients, l.blocks) v
  after_connect c p w w1 error l h v =
      rw (l.clients, l.blocks) (blocks-without p w.pib_list w.miib_list v h)

  connected-IsValid :
      (c size : ℕ) (p : Ptr) (w : Work)
      → ConsumesNothing p w
      → IsValid w
      → IsValid (connected sizes env net c size p w)
  unfolding connected set_pib
  connected-IsValid c size p w h v =
      let known = record (w.pibs p) { rxclient = c; max_msg_size = size } in
      let w0 = set_pib w p known in
      after_connect c p w0 (tell_all sizes env net w0 p).0 (tell_all sizes env net w0 p).1
        (tell_all-SameLists w0 p) h v

  shut-IsValid : (ss : List ℕ) (w : Work) → IsValid w → IsValid (discard ss w)
  shut-IsValid ss w v = SameLists-IsValid (discard-SameLists ss w) v

  on_remote_register-IsValid :
      (opening : Opening) (c : ℕ) (msg : InMsg) (w : Work)
      → has opening.new_pib w.pib_list ≡ false
      → IsValid w
      → IsValid (on_remote_register sizes env net opening c msg w)
  unfolding on_remote_register log
  on_remote_register-IsValid opening c msg w out v = elim (Option-cases opening.socket) [
    | inl e ↦ rw (on_remote_register, e) (shut-IsValid (c ∷ []) w v)
    | inr (s, e) ↦
        let shut = shut-IsValid (s ∷ c ∷ []) (log w (greet s ack)) v in
        elim (Bool-cases opening.wrote) [
          | inr f ↦ rw (on_remote_register, e, f) shut
          | inl t ↦ elim (Bool-cases (opening.new_pib == null)) [
            | inl n ↦ rw (on_remote_register, e, t, n) shut
            | inr m ↦
                rw (on_remote_register, e, t, m)
                  (add_remote-IsValid c s msg.max_msg_size opening.new_pib (log w (greet s ack)) out
                    m v)
          ]
        ]
  ]

  on_remote_ack-IsValid :
      (c : ℕ) (msg : InMsg) (w : Work)
      → ConsumesNothing (acked sizes env net msg w) w
      → IsValid w
      → IsValid (on_remote_ack sizes env net c msg w)
  unfolding on_remote_ack
  on_remote_ack-IsValid c msg w h v =
      let shut = shut-IsValid (c ∷ []) w v in
      elim (Bool-cases (net.host c == msg.src_ip)) [
        | inr a ↦ rw (on_remote_ack, a) shut
        | inl a ↦ elim (Bool-cases (net.listen_port == msg.src_port)) [
          | inr b ↦ rw (on_remote_ack, a, b) shut
          | inl b ↦ elim (Bool-cases (acked sizes env net msg w == null)) [
            | inl n ↦ rw (on_remote_ack, a, b, n) shut
            | inr m ↦
                rw (on_remote_ack, a, b, m)
                  (connected-IsValid c msg.max_msg_size (acked sizes env net msg w) w h v)
          ]
        ]
      ]

  -- What an arriving message needs: that `malloc` returns no PIB in use, and that a router which
  -- acknowledges a registration consumes nothing yet.
  abbrev pub Fresh : Opening → InMsg → Work → Type 0
  Fresh opening msg w =
      (has opening.new_pib w.pib_list ≡ false) × ConsumesNothing (acked sizes env net msg w) w

  on_in_msg-IsValid :
      (t : Subtype) (opening : Opening) (c : ℕ) (msg : InMsg) (w : Work)
      → Fresh opening msg w
      → IsValid w
      → IsValid (on_in_msg sizes env net t opening c msg w)
  unfolding on_in_msg
  on_in_msg-IsValid register opening c msg w f v = on_remote_register-IsValid opening c msg w f.0 v
  on_in_msg-IsValid ack_subtype opening c msg w f v = on_remote_ack-IsValid c msg w f.1 v
  on_in_msg-IsValid deregister opening c msg w f v = shut-IsValid (c ∷ []) w v
  on_in_msg-IsValid enable opening c msg w f v = shut-IsValid (c ∷ []) w v
  on_in_msg-IsValid disable opening c msg w f v = shut-IsValid (c ∷ []) w v
  on_in_msg-IsValid is_registered_subtype opening c msg w f v = shut-IsValid (c ∷ []) w v
  on_in_msg-IsValid dump_stats opening c msg w f v = shut-IsValid (c ∷ []) w v
  on_in_msg-IsValid other opening c msg w f v = shut-IsValid (c ∷ []) w v

  pub server_rx_handler-IsValid :
      (a : Arrival) (opening : Opening) (w : Work)
      → has opening.new_pib w.pib_list ≡ false
      → ((msg : InMsg) → a.in_msg ≡ some msg → ConsumesNothing (acked sizes env net msg w) w)
      → IsValid w
      → IsValid (server_rx_handler sizes env net a opening w)
  unfolding server_rx_handler
  server_rx_handler-IsValid a opening w out h v = elim (Option-cases a.new_client) [
    | inl e ↦ rw (server_rx_handler, e) v
    | inr (c, e) ↦
        let shut = shut-IsValid (c ∷ []) w v in
        elim (Option-cases a.hdr) [
          | inl n ↦ rw (server_rx_handler, e, n) shut
          | inr (hdr, y) ↦ elim (Bool-cases (hdr.magic == magic_number)) [
            | inr m ↦ rw (server_rx_handler, e, y, m) shut
            | inl m ↦ elim (Bool-cases (hdr.msg_id == internal_msgid)) [
              | inr i ↦ rw (server_rx_handler, e, y, m, i) shut
              | inl i ↦ elim (Option-cases a.in_msg) [
                | inl z ↦ rw (server_rx_handler, e, y, m, i, z) shut
                | inr (msg, z) ↦
                    rw (server_rx_handler, e, y, m, i, z)
                      (on_in_msg-IsValid msg.sub_msg_id opening c msg w (out, h msg z) v)
              ]
            ]
          ]
        ]
  ]
