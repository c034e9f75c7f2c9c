-- ===== src/MsgRouter/Send.antt =====
-- msgRouter.c: the functions that send, to local clients through their queues and to remote ones
-- through their sockets.
use radlib.Base.{ℕ, ◌+◌, ◌%◌, Bool, if◌then◌else◌, ◌==◌, ◌||◌, not, ltb, List, [], ◌∷◌}
use radlib.Base.Lists.{length}
use radlib.SysDefs.{Status, ok, error, uint_mod, ulong_mod}
use radlib.RadList.{Ptr}
use radlib.MsgRouter.{
  pib_type_local, pib_type_remote, Miib, Payload, enable_msgid, disable_msgid, message, queue_send,
  socket_write, Work, Env, log, set_pib,
}

-- The sizes of `MSGRTR_HDR` and `MSGRTR_INTERNAL_MSG`, which depend on the platform.
pub record Sizes : Type 0 where
  pub hdr : ℕ
  pub internal_msg : ℕ

module _ (sizes : Sizes) (env : Env) where
  -- `SendToRemote`.
  unfoldable pub send_to_remote : Work → Ptr → Payload → (length : ℕ) → Work × Status
  unfolding log
  send_to_remote w p m length =
      if not (env.has_buffer w.events (sizes.hdr + length))
      then (w, error)
      else (log w (socket_write p m), if env.accepts w.events p then ok else error)

  -- `SendACK` and `SendIsRegistered`.
  unfoldable pub send_answer : Work → Ptr → Payload → Work × Status
  unfolding log
  send_answer w p m =
      if not (env.has_buffer w.events (sizes.hdr + sizes.internal_msg)) then (w, error) else (
        log w (elim (w.pibs p).type [
          | pib_type_local ↦ queue_send p m
          | pib_type_remote ↦ socket_write p m
        ]),
        if env.accepts w.events p then ok else error,
      )

  -- `RegisterRemoteMsgID`: `id` 0 stands for all message IDs.
  unfoldable pub register_remote_msgid :
      Work → Ptr → (id : ℕ) → (is_register : Bool) → List Miib → Work × Status
  unfolding send_to_remote
  register_remote_msgid w p id is_register [] = (w, ok)
  register_remote_msgid w p id is_register (m ∷ ms) =
      let note = if is_register then enable_msgid m.msg_id else disable_msgid m.msg_id in
      let (w', r) = send_to_remote w p note sizes.internal_msg in
      let sent : Work × Status = elim r [
        | ok ↦ register_remote_msgid w' p id is_register ms
        | error ↦ (w', error)
      ] in
      let rest = register_remote_msgid w p id is_register ms in
      if (id == 0) || (m.msg_id == id) then sent else rest

  -- The body of the loops below.
  unfoldable pub register_one :
      Work → (id : ℕ) → (is_register : Bool) → (not_this_one p : Ptr) → Work
  unfolding register_remote_msgid
  register_one w id is_register not_this_one p =
      if p == not_this_one then w else elim (w.pibs p).type [
        | pib_type_remote ↦ (register_remote_msgid w p id is_register w.miib_list).0
        | pib_type_local ↦ w
      ]

  -- `RegisterAllRemotesMsgID` and `DeregisterAllRemotesMsgID`.
  unfoldable pub register_all_remotes :
      Work → (id : ℕ) → (is_register : Bool) → (not_this_one : Ptr) → List Ptr → Work
  unfolding register_one
  register_all_remotes w id is_register not_this_one [] = w
  register_all_remotes w id is_register not_this_one (p ∷ ps) =
      register_all_remotes (register_one w id is_register not_this_one p) id is_register
        not_this_one ps

  unfoldable pub count_rx_error : Work → Ptr → Work
  unfolding set_pib
  count_rx_error w p =
      set_pib w p (record (w.pibs p) { rx_errors = ((w.pibs p).rx_errors + 1) % ulong_mod })

  unfoldable pub count_sent : Work → Ptr → Work
  unfolding set_pib
  count_sent w p =
      record (set_pib w p
        (record (w.pibs p) { receives = ((w.pibs p).receives + 1) % ulong_mod })) {
          transmits = (w.transmits + 1) % ulong_mod;
        }

  -- The two branches of `SendToClient`. A message is its ID, as a `UINT` or in the 32 digits that
  -- `htonl` keeps, and its bytes.
  unfoldable pub send_local : Work → Ptr → (id : ℕ) → List ℕ → Work × Status
  unfolding count_rx_error count_sent log
  send_local w p id bytes =
      if not (env.has_buffer w.events (length bytes))
      then (w, error)
      else if not (env.accepts w.events p)
      then (count_rx_error (log w (queue_send p (message (id % uint_mod) bytes))) p, error)
      else (count_sent (log w (queue_send p (message (id % uint_mod) bytes))) p, ok)

  unfoldable pub send_remote : Work → Ptr → (id : ℕ) → List ℕ → Work × Status
  unfolding count_rx_error count_sent send_to_remote
  send_remote w p id bytes =
      if ltb (w.pibs p).max_msg_size (length bytes)
      then (count_rx_error w p, error)
      else (let (w', r) = send_to_remote w p (message (id % uint_mod) bytes) (length bytes) in
          elim r [ error ↦ (count_rx_error w' p, error) | ok ↦ (count_sent w' p, ok) ])

  unfoldable pub send_to_client : Work → Ptr → (id : ℕ) → List ℕ → Work × Status
  unfolding send_local send_remote
  send_to_client w p id bytes = elim (w.pibs p).type [
    | pib_type_local ↦ send_local w p id bytes
    | pib_type_remote ↦ send_remote w p id bytes
  ]

  -- The loop over the consumers of a message, which leaves the socket out that it came from.
  unfoldable pub route_one : Work → (sock_pib : Ptr) → (id : ℕ) → List ℕ → Ptr → Work
  unfolding send_to_client
  route_one w sock_pib id bytes p = if p == sock_pib then w else (send_to_client w p id bytes).0

  unfoldable pub route : Work → (sock_pib : Ptr) → (id : ℕ) → List ℕ → List Ptr → Work
  unfolding route_one
  route w sock_pib id bytes [] = w
  route w sock_pib id bytes (p ∷ ps) = route (route_one w sock_pib id bytes p) sock_pib id bytes ps
