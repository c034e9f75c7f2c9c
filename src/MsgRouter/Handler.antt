-- ===== src/MsgRouter/Handler.antt =====
-- msgRouter.c: `QueueMsgHandler`, the handler of every message that reaches the router.
use radlib.Base.{
  ℕ, ◌+◌, ◌%◌, Bool, true, false, if◌then◌else◌, ◌==◌, not, Option, none, some, List, [], ◌∷◌, ◌++◌,
}
use radlib.Base.Lists.{erase}
use radlib.SysDefs.{sign_extended, ulong_mod}
use radlib.RadList.{Ptr, null}
use radlib.MsgRouter.{
  pib_type_local, Pib, Miib, ack, is_registered, queue_attach, queue_dettach, socket_destroy, Work,
  Env, log, set_pib, internal_msgid, magic_number, get_pib_by_pid, get_miib, set_consumers,
  remove_miib, is_empty, remove_client_from_all_msgs, add_client,
}
use radlib.MsgRouter.Send.{Sizes, send_answer, register_all_remotes, route}

-- `MSGRTR_SUBTYPE_…`, and any other number.
pub data Subtype : Type 0 where
  register deregister ack_subtype enable disable is_registered_subtype dump_stats other : Subtype

-- `MSGRTR_HDR` with what follows it: the fields of an internal message and the bytes of any.
pub record Hdr : Type 0 where
  pub magic : ℕ
  pub srcpid : ℕ
  pub msg_id : ℕ
  pub sub_msg_id : Subtype
  pub target_msg_id : ℕ
  pub bytes : List ℕ

-- What a call gets from `malloc` and `radProcessQueueAttach`.
pub record Alloc : Type 0 where
  pub new_pib : Ptr
  pub miib_ok : Bool
  pub cib_ok : Bool
  pub attach_ok : Bool

-- The sender: the PIB of the socket, or the local client with the PID of the header.
unfoldable pub sender : Work → (sock_pib : Ptr) → Hdr → Ptr
sender w sock_pib hdr = if sock_pib == null then get_pib_by_pid w hdr.srcpid else sock_pib

unfoldable pub new_local : (pid queue_name : ℕ) → Pib
new_local pid queue_name = record {
  type = pib_type_local;
  pid = pid;
  queue_name = queue_name;
  rxclient = 0;
  txclient = 0;
  max_msg_size = 0;
  transmits = 0;
  receives = 0;
  rx_errors = 0;
  tx_errors = 0;
}

-- What is closed for a client that leaves.
unfoldable pub close_client : (sock_pib p : Ptr) → Work → Work
unfolding log
close_client sock_pib p w =
    if sock_pib == null
    then log w (queue_dettach (w.pibs p).queue_name)
    else log (log w (socket_destroy (w.pibs p).txclient)) (socket_destroy (w.pibs p).rxclient)

unfoldable pub drop_client : Ptr → Work → Work
unfolding remove_client_from_all_msgs
drop_client p w =
    let w1 = remove_client_from_all_msgs w p in record w1 { pib_list = erase p w1.pib_list }

unfoldable pub on_deregister : Hdr → (sock_pib : Ptr) → Work → Work
unfolding sender drop_client close_client
on_deregister hdr sock_pib w =
    let p = sender w sock_pib hdr in
    if p == null then w else close_client sock_pib p (drop_client p w)

-- The block of a message ID, or a new one, with one consumer more: the blocks, and the message ID of
-- that block. None if `malloc` of a block fails.
unfoldable pub add_consumer : (miib_ok cib_ok : Bool) → ℕ → Ptr → List Miib → Option (ℕ × List Miib)
unfolding add_client
add_consumer miib_ok cib_ok id p ms = elim (get_miib id ms) [
  | some ps ↦ some (sign_extended id, set_consumers id (add_client cib_ok ps p) ms)
  | none ↦
      if miib_ok
      then some (id, ms ++ record { msg_id = id; consumers = add_client cib_ok [] p } ∷ [])
      else none
]

unfoldable pub count_tx_error : Work → Ptr → Work
unfolding set_pib
count_tx_error w p =
    set_pib w p (record (w.pibs p) { tx_errors = ((w.pibs p).tx_errors + 1) % ulong_mod })

unfoldable pub count_transmit : Work → Ptr → Work
unfolding set_pib
count_transmit w p =
    set_pib w p (record (w.pibs p) { transmits = ((w.pibs p).transmits + 1) % ulong_mod })

module _ (sizes : Sizes) (env : Env) where
  -- A local client registers.
  unfoldable pub on_register : Alloc → (src_queue : ℕ) → Hdr → (sock_pib : Ptr) → Work → Work
  unfolding new_local set_pib log
  on_register alloc src_queue hdr sock_pib w =
      let pib = get_pib_by_pid w hdr.srcpid in
      let p = alloc.new_pib in
      let attached = log (set_pib w p (new_local hdr.srcpid src_queue)) (queue_attach src_queue) in
      if not (sock_pib == null)
      then w
      else if not (pib == null)
      then (send_answer sizes env w pib ack).0
      else if p == null
      then w
      else if not alloc.attach_ok
      then attached
      else (send_answer sizes env (record attached { pib_list = attached.pib_list ++ p ∷ [] }) p
          ack).0

  unfoldable pub on_enable : Alloc → Hdr → (sock_pib : Ptr) → Work → Work
  unfolding sender add_consumer
  on_enable alloc hdr sock_pib w =
      let p = sender w sock_pib hdr in
      if p == null
      then w
      else elim (add_consumer alloc.miib_ok alloc.cib_ok hdr.target_msg_id p w.miib_list) [
        | none ↦ w
        | some (id, ms) ↦
            register_all_remotes sizes env (record w { miib_list = ms }) id true sock_pib w.pib_list
      ]

  unfoldable pub on_is_registered : Hdr → (sock_pib : Ptr) → Work → Work
  unfolding sender
  on_is_registered hdr sock_pib w =
      let p = sender w sock_pib hdr in
      if p == null then w else elim (get_miib hdr.target_msg_id w.miib_list) [
        | none ↦ w
        | some ps ↦ (send_answer sizes env w p (is_registered (not (is_empty ps)))).0
      ]

  -- The last consumer's leaving is told to the remote routers before the block goes.
  unfoldable pub on_disable : Hdr → (sock_pib : Ptr) → Work → Work
  unfolding sender
  on_disable hdr sock_pib w =
      let p = sender w sock_pib hdr in
      let id = hdr.target_msg_id in
      if p == null then w else elim (get_miib id w.miib_list) [
        | none ↦ w
        | some ps ↦
            let left = erase p ps in
            let w1 = record w { miib_list = set_consumers id left w.miib_list } in
            let told = register_all_remotes sizes env w1 id false sock_pib w1.pib_list in
            if is_empty left then record told { miib_list = remove_miib id told.miib_list } else w1
      ]

  -- A normal message.
  unfoldable pub on_message : Hdr → (sock_pib : Ptr) → Work → Work
  unfolding sender count_tx_error count_transmit
  on_message hdr sock_pib w =
      let p = sender w sock_pib hdr in
      let w1 = record w { receives = (w.receives + 1) % ulong_mod } in
      if p == null then w else elim (get_miib hdr.msg_id w.miib_list) [
        | none ↦ count_tx_error w1 p
        | some ps ↦ route sizes env (count_transmit w1 p) sock_pib hdr.msg_id hdr.bytes ps
      ]

  unfoldable pub on_internal :
      Subtype → Alloc → (src_queue : ℕ) → Hdr → (sock_pib : Ptr) → Work → Work
  unfolding on_register on_deregister on_enable on_is_registered on_disable
  on_internal register alloc src_queue hdr sock_pib w = on_register alloc src_queue hdr sock_pib w
  on_internal deregister alloc src_queue hdr sock_pib w = on_deregister hdr sock_pib w
  on_internal enable alloc src_queue hdr sock_pib w = on_enable alloc hdr sock_pib w
  on_internal disable alloc src_queue hdr sock_pib w = on_disable hdr sock_pib w
  on_internal is_registered_subtype alloc src_queue hdr sock_pib w = on_is_registered hdr sock_pib w
  on_internal ack_subtype alloc src_queue hdr sock_pib w = w
  on_internal dump_stats alloc src_queue hdr sock_pib w = w
  on_internal other alloc src_queue hdr sock_pib w = w

  unfoldable pub queue_msg_handler : Alloc → (src_queue : ℕ) → Hdr → (sock_pib : Ptr) → Work → Work
  unfolding on_internal on_message
  queue_msg_handler alloc src_queue hdr sock_pib w =
      if not (hdr.magic == magic_number)
      then w
      else if hdr.msg_id == internal_msgid
      then on_internal hdr.sub_msg_id alloc src_queue hdr sock_pib w
      else on_message hdr sock_pib w
