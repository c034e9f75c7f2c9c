-- ===== src/MsgRouter/Keep.antt =====
-- msgRouter.c: the messages, and the lists of the router.
use radlib.Base.{
  ℕ, ◌+◌, ◌%◌, ◌≡◌, true, false, if◌then◌else◌, ◌==◌, some, List, Bool-cases, Option-cases, inl,
  inr,
}
use radlib.Base.Lists.{has, Distinct, erase, All-erase, Distinct-erase}
use radlib.SysDefs.{ulong_mod, sign_extended}
use radlib.RadList.{Ptr, null}
use radlib.MsgRouter.{
  Work, Env, log, get_pib_by_pid, get_miib, set_consumers, remove_miib, is_empty, set_pib,
  internal_msgid, magic_number,
}
use radlib.MsgRouter.Send.{Sizes, register_all_remotes, route}
use radlib.MsgRouter.Handler.{
  Hdr, Alloc, Subtype, register, deregister, ack_subtype, enable, disable, is_registered_subtype,
  dump_stats, other, sender, on_register, add_consumer, on_enable, on_is_registered, on_disable,
  on_message, on_internal, queue_msg_handler, count_tx_error, count_transmit,
}
use radlib.MsgRouter.Valid.{
  Known, ids, IsValid, IsSound-snoc, get_miib-MiibOk, set_consumers-MiibOk, ids-set_consumers,
  remove_miib-MiibOk, ids-remove_miib,
}
use radlib.MsgRouter.Frame.{
  SameLists-IsValid, send_answer-SameLists, register_all_remotes-SameLists, route-SameLists,
}
use radlib.MsgRouter.Leave.{IsClient, sender-IsClient, known_sender, on_deregister-IsValid}
use radlib.MsgRouter.Enable.{add_consumer-IsSound}

module _ (sizes : Sizes) (env : Env) where
  on_register-IsValid :
      (alloc : Alloc) (q : ℕ) (hdr : Hdr) (x : Ptr) (w : Work)
      → has alloc.new_pib w.pib_list ≡ false
      → IsValid w
      → IsValid (on_register sizes env alloc q hdr x w)
  unfolding on_register log set_pib
  on_register-IsValid alloc q hdr x w out v =
      let p = alloc.new_pib in
      let pib = get_pib_by_pid w hdr.srcpid in
      elim (Bool-cases (x == null)) [
        | inr y ↦ rw y v
        | inl y ↦ rw y (elim (Bool-cases (pib == null)) [
          | inr e ↦ rw e (SameLists-IsValid (send_answer-SameLists sizes env w pib _) v)
          | inl e ↦ rw e (elim (Bool-cases (p == null)) [
            | inl n ↦ rw n v
            | inr n ↦ rw n (elim (Bool-cases alloc.attach_ok) [
              | inr f ↦ rw f (record {
                distinct = v.distinct;
                non_null = v.non_null;
                blocks = v.blocks;
                ids_distinct = v.ids_distinct;
              })
              | inl t ↦ rw t (
                  SameLists-IsValid (send_answer-SameLists sizes env _ p _)
                    (IsSound-snoc p w.pib_list w.miib_list out n v))
            ])
          ])
        ])
      ]

  on_enable-IsValid :
      (alloc : Alloc) (hdr : Hdr) (x : Ptr) (w : Work)
      → IsClient w x
      → IsValid w
      → IsValid (on_enable sizes env alloc hdr x w)
  unfolding on_enable
  on_enable-IsValid alloc hdr x w c v =
      let p = sender w x hdr in
      let id = hdr.target_msg_id in
      elim (Bool-cases (p == null)) [
        | inl y ↦ rw y v
        | inr n ↦
            let h = known_sender w p (sender-IsClient w x hdr c) n in
            rw n (elim (Option-cases (add_consumer alloc.miib_ok alloc.cib_ok id p w.miib_list)) [
              | inl e ↦ rw e v
              | inr ((k, ms), e) ↦ rw e (
                  SameLists-IsValid
                    (register_all_remotes-SameLists sizes env (record w { miib_list = ms }) k true x
                      w.pib_list)
                    (add_consumer-IsSound alloc.miib_ok alloc.cib_ok id p w.pib_list w.miib_list ms
                      k h v e))
            ])
      ]

  on_is_registered-IsValid :
      (hdr : Hdr) (x : Ptr) (w : Work) → IsValid w → IsValid (on_is_registered sizes env hdr x w)
  unfolding on_is_registered
  on_is_registered-IsValid hdr x w v = elim (Bool-cases (sender w x hdr == null)) [
    | inl y ↦ rw y v
    | inr n ↦ rw n (elim (Option-cases (get_miib hdr.target_msg_id w.miib_list)) [
      | inl e ↦ rw e v
      | inr (ps, e) ↦
          rw e (SameLists-IsValid (send_answer-SameLists sizes env w (sender w x hdr) _) v)
    ])
  ]

  on_disable-IsValid :
      (hdr : Hdr) (x : Ptr) (w : Work) → IsValid w → IsValid (on_disable sizes env hdr x w)
  unfolding on_disable
  on_disable-IsValid hdr x w v =
      let p = sender w x hdr in
      let id = hdr.target_msg_id in
      elim (Bool-cases (p == null)) [
        | inl y ↦ rw y v
        | inr n ↦ rw n (elim (Option-cases (get_miib id w.miib_list)) [
          | inl e ↦ rw e v
          | inr (ps, e) ↦
              rw e (disabled p id ps e (get_miib-MiibOk w.pib_list id w.miib_list ps v.blocks e))
        ])
      ]
    where
      disabled :
          (p : Ptr) (id : ℕ) (ps : List Ptr)
          → get_miib id w.miib_list ≡ some ps
          → Known w.pib_list ps × Distinct ps
          → IsValid (
              let w1 = record w { miib_list = set_consumers id (erase p ps) w.miib_list } in
              let told = register_all_remotes sizes env w1 id false x w1.pib_list in
              if is_empty (erase p ps)
              then record told { miib_list = remove_miib id told.miib_list }
              else w1)
      disabled p id ps e k =
          let left = erase p ps in
          let w1 = record w { miib_list = set_consumers id left w.miib_list } in
          let v1 : IsValid w1 = record {
            distinct = v.distinct;
            non_null = v.non_null;
            blocks =
                set_consumers-MiibOk w.pib_list id left w.miib_list
                  (All-erase _ p ps k.0, Distinct-erase p ps k.1) v.blocks;
            ids_distinct = rw (ids-set_consumers id left w.miib_list) v.ids_distinct;
          } in
          let u =
            SameLists-IsValid (register_all_remotes-SameLists sizes env w1 id false x w1.pib_list)
              v1 in
          let told = register_all_remotes sizes env w1 id false x w1.pib_list in
          elim (Bool-cases (is_empty left)) [
            | inl y ↦ rw y (record {
              distinct = u.distinct;
              non_null = u.non_null;
              blocks = remove_miib-MiibOk told.pib_list id told.miib_list u.blocks;
              ids_distinct =
                  rw (ids-remove_miib id told.miib_list)
                    (Distinct-erase (sign_extended id) (ids told.miib_list) u.ids_distinct);
            })
            | inr n ↦ rw n v1
          ]

  on_message-IsValid :
      (hdr : Hdr) (x : Ptr) (w : Work) → IsValid w → IsValid (on_message sizes env hdr x w)
  unfolding on_message count_transmit count_tx_error set_pib
  on_message-IsValid hdr x w v = elim (Bool-cases (sender w x hdr == null)) [
    | inl y ↦ rw y v
    | inr n ↦ rw n (elim (Option-cases (get_miib hdr.msg_id w.miib_list)) [
      | inl e ↦ rw e v
      | inr (ps, e) ↦
          let w1 =
            count_transmit (record w { receives = (w.receives + 1) % ulong_mod })
              (sender w x hdr) in
          rw e (
            SameLists-IsValid {w = w1} {v = route sizes env w1 x hdr.msg_id hdr.bytes ps}
              (route-SameLists sizes env w1 x hdr.msg_id hdr.bytes ps) v)
    ])
  ]

  on_internal-IsValid :
      (t : Subtype) (alloc : Alloc) (q : ℕ) (hdr : Hdr) (x : Ptr) (w : Work)
      → has alloc.new_pib w.pib_list ≡ false
      → IsClient w x
      → IsValid w
      → IsValid (on_internal sizes env t alloc q hdr x w)
  unfolding on_internal
  on_internal-IsValid register alloc q hdr x w out c v = on_register-IsValid alloc q hdr x w out v
  on_internal-IsValid deregister alloc q hdr x w out c v = on_deregister-IsValid w x hdr v
  on_internal-IsValid enable alloc q hdr x w out c v = on_enable-IsValid alloc hdr x w c v
  on_internal-IsValid disable alloc q hdr x w out c v = on_disable-IsValid hdr x w v
  on_internal-IsValid is_registered_subtype alloc q hdr x w out c v =
      on_is_registered-IsValid hdr x w v
  on_internal-IsValid ack_subtype alloc q hdr x w out c v = v
  on_internal-IsValid dump_stats alloc q hdr x w out c v = v
  on_internal-IsValid other alloc q hdr x w out c v = v

  -- `QueueMsgHandler` keeps the lists valid, whatever the message is, if the block that `malloc` may
  -- return is not a client already and the socket, if there is one, belongs to a client: then every
  -- consumer of a message ID is a client on the list, so no message is sent to a freed block, no client
  -- stands twice, no client is twice a consumer of one block, and no message ID that `getMIIB` can find,
  -- as it can all those below 2^31, has two blocks.
  pub queue_msg_handler-IsValid :
      (alloc : Alloc) (q : ℕ) (hdr : Hdr) (x : Ptr) (w : Work)
      → has alloc.new_pib w.pib_list ≡ false
      → IsClient w x
      → IsValid w
      → IsValid (queue_msg_handler sizes env alloc q hdr x w)
  unfolding queue_msg_handler
  queue_msg_handler-IsValid alloc q hdr x w out c v =
      elim (Bool-cases (hdr.magic == magic_number)) [
        | inr n ↦ rw n v
        | inl y ↦ rw y (elim (Bool-cases (hdr.msg_id == internal_msgid)) [
          | inl i ↦ rw i (on_internal-IsValid hdr.sub_msg_id alloc q hdr x w out c v)
          | inr j ↦ rw j (on_message-IsValid hdr x w v)
        ])
      ]
