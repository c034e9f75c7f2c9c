-- ===== src/MsgRouter/Connect.antt =====
-- msgRouter.c: `ServerRXHandler` and `connectTimerHandler`, which connect the router with other routers.
-- Names and addresses of hosts are numbers.
use radlib.Base.{ℕ, Bool, true, if◌then◌else◌, ◌==◌, not, Option, none, some, List, [], ◌∷◌, ◌++◌}
use radlib.Base.Lists.{erase}
use radlib.SysDefs.{Status, ok, error}
use radlib.RadList.{Ptr, null}
use radlib.MsgRouter.{
  Pib, pib_type_remote, ack, register_router, greet, socket_destroy, register_descriptor,
  connect_timer_start, Work, Env, log, set_pib, get_pib_by_socket, internal_msgid, magic_number,
}
use radlib.MsgRouter.Send.{Sizes, register_remote_msgid}
use radlib.MsgRouter.Handler.{
  Subtype, register, deregister, ack_subtype, enable, disable, is_registered_subtype, dump_stats,
  other, Hdr,
}

-- The fields of `MSGRTR_INTERNAL_MSG` between routers, in the host's order.
pub record InMsg : Type 0 where
  pub sub_msg_id : Subtype
  pub src_ip : ℕ
  pub src_port : ℕ
  pub socket_id : ℕ
  pub max_msg_size : ℕ

-- What does not change: `radSocketGetDescriptor`, `radSocketGetHost` and the port that is listened on.
pub record Net : Type 0 where
  pub descriptor : ℕ → ℕ
  pub host : ℕ → ℕ
  pub listen_port : ℕ

-- What `radSocketServerAcceptConnection` and `radSocketReadExact` deliver.
pub record Arrival : Type 0 where
  pub new_client : Option ℕ
  pub hdr : Option Hdr
  pub in_msg : Option InMsg

-- What `radSocketClientCreate` gives, whether the header and the message could be written on that
-- socket, and what `malloc` gives.
pub record Opening : Type 0 where
  pub socket : Option ℕ
  pub wrote : Bool
  pub new_pib : Ptr

unfoldable pub discard : List ℕ → Work → Work
unfolding log
discard [] w = w
discard (s ∷ ss) w = discard ss (log w (socket_destroy s))

-- `RemovePIB`.
unfoldable pub remove_pib : Ptr → Work → Work
remove_pib p w = record w { pib_list = erase p w.pib_list }

unfoldable pub new_remote : (rxclient txclient max_msg_size : ℕ) → Pib
new_remote rxclient txclient max_msg_size = record {
  type = pib_type_remote;
  pid = 0;
  queue_name = 0;
  rxclient = rxclient;
  txclient = txclient;
  max_msg_size = max_msg_size;
  transmits = 0;
  receives = 0;
  rx_errors = 0;
  tx_errors = 0;
}

unfoldable pub connect_timer_handler : Opening → Work → Work
unfolding log set_pib discard new_remote
connect_timer_handler opening w = elim opening.socket [
  | none ↦ log (record w { remote_server = 0 }) connect_timer_start
  | some s ↦
      let w1 = log (record w { remote_server = s }) (greet s register_router) in
      if not opening.wrote
      then discard (s ∷ []) w1
      else if opening.new_pib == null
      then discard (s ∷ []) w1
      else (let w2 = set_pib w1 opening.new_pib (new_remote 0 s 0) in
          record w2 { pib_list = w2.pib_list ++ opening.new_pib ∷ [] })
]

module _ (sizes : Sizes) (env : Env) (net : Net) where
  -- The end of both cases: the other router is told of all message IDs.
  unfoldable pub tell_all : Work → Ptr → Work × Status
  unfolding register_remote_msgid
  tell_all w p = register_remote_msgid sizes env w p 0 true w.miib_list

  unfoldable pub add_remote : (new_client new_server max_msg_size : ℕ) → Ptr → Work → Work
  unfolding tell_all set_pib log discard new_remote
  add_remote new_client new_server max_msg_size p w =
      let (w1, r) = tell_all (set_pib w p (new_remote new_client new_server max_msg_size)) p in
      elim r [
        | error ↦ discard (new_client ∷ new_server ∷ []) w1
        | ok ↦
            log (record w1 { pib_list = w1.pib_list ++ p ∷ [] })
              (register_descriptor (net.descriptor new_client) p)
      ]

  -- The message is a registration.
  unfoldable pub on_remote_register : Opening → (new_client : ℕ) → InMsg → Work → Work
  unfolding log discard add_remote
  on_remote_register opening new_client msg w = elim opening.socket [
    | none ↦ discard (new_client ∷ []) w
    | some s ↦
        let w1 = log w (greet s ack) in
        if not opening.wrote
        then discard (s ∷ new_client ∷ []) w1
        else if opening.new_pib == null
        then discard (s ∷ new_client ∷ []) w1
        else add_remote new_client s msg.max_msg_size opening.new_pib w1
  ]

  unfoldable pub connected : (new_client max_msg_size : ℕ) → Ptr → Work → Work
  unfolding tell_all set_pib log remove_pib
  connected new_client max_msg_size p w =
      let known = record (w.pibs p) { rxclient = new_client; max_msg_size = max_msg_size } in
      let (w1, r) = tell_all (set_pib w p known) p in
      elim r [
        | error ↦ remove_pib p w1
        | ok ↦ log w1 (register_descriptor (net.descriptor new_client) p)
      ]

  -- The PIB that an acknowledgement belongs to.
  unfoldable pub acked : InMsg → Work → Ptr
  unfolding get_pib_by_socket
  acked msg w = get_pib_by_socket net.descriptor w (net.descriptor msg.socket_id)

  -- The message acknowledges the router's own registration.
  unfoldable pub on_remote_ack : (new_client : ℕ) → InMsg → Work → Work
  unfolding discard acked connected
  on_remote_ack new_client msg w =
      if not (net.host new_client == msg.src_ip)
      then discard (new_client ∷ []) w
      else if not (net.listen_port == msg.src_port)
      then discard (new_client ∷ []) w
      else if acked msg w == null
      then discard (new_client ∷ []) w
      else connected new_client msg.max_msg_size (acked msg w) w

  unfoldable pub on_in_msg : Subtype → Opening → (new_client : ℕ) → InMsg → Work → Work
  unfolding discard on_remote_register on_remote_ack
  on_in_msg register opening c msg w = on_remote_register opening c msg w
  on_in_msg ack_subtype opening c msg w = on_remote_ack c msg w
  on_in_msg deregister opening c msg w = discard (c ∷ []) w
  on_in_msg enable opening c msg w = discard (c ∷ []) w
  on_in_msg disable opening c msg w = discard (c ∷ []) w
  on_in_msg is_registered_subtype opening c msg w = discard (c ∷ []) w
  on_in_msg dump_stats opening c msg w = discard (c ∷ []) w
  on_in_msg other opening c msg w = discard (c ∷ []) w

  unfoldable pub server_rx_handler : Arrival → Opening → Work → Work
  unfolding discard on_in_msg
  server_rx_handler a opening w = elim a.new_client [
    | none ↦ w
    | some c ↦ elim a.hdr [
      | none ↦ discard (c ∷ []) w
      | some hdr ↦
          if not (hdr.magic == magic_number)
          then discard (c ∷ []) w
          else if not (hdr.msg_id == internal_msgid)
          then discard (c ∷ []) w
          else elim a.in_msg [
            | none ↦ discard (c ∷ []) w
            | some msg ↦ on_in_msg msg.sub_msg_id opening c msg w
          ]
    ]
  ]
