-- ===== src/MsgRouter/Client.antt =====
-- msgRouter.c: `ClientRXHandler`, which reads a message from the socket of a remote client.
use radlib.Base.{ℕ, Bool, if◌then◌else◌, ◌==◌, not, Option, none, some}
use radlib.RadList.{Ptr}
use radlib.MsgRouter.{
  socket_destroy, deregister_descriptor, connect_timer_start, Work, Env, log, magic_number,
}
use radlib.MsgRouter.Send.{Sizes}
use radlib.MsgRouter.Handler.{Hdr, Alloc, drop_client, queue_msg_handler}

-- What `radSocketReadExact` delivers: a header, converted to the host's order, and whether the bytes
-- that it announces could be read.
pub record Read : Type 0 where
  pub hdr : Option Hdr
  pub rest_ok : Bool

-- `descriptor` is `radSocketGetDescriptor`.
unfoldable pub close_remote : (descriptor : ℕ → ℕ) → Ptr → Work → Work
unfolding log drop_client
close_remote descriptor p w =
    let w1 = drop_client p w in
    let rx = (w1.pibs p).rxclient in
    log (log (log w1 (deregister_descriptor (descriptor rx))) (socket_destroy (w1.pibs p).txclient))
      (socket_destroy rx)

-- The router's own connection is tried again if it was the one that failed.
unfoldable pub header_failed : (descriptor : ℕ → ℕ) → Ptr → Work → Work
unfolding close_remote
header_failed descriptor p w =
    let w1 = close_remote descriptor p w in
    if w.remote_server == (w.pibs p).txclient
    then log (record w1 { remote_server = 0 }) connect_timer_start
    else w1

module _ (sizes : Sizes) (env : Env) where
  unfoldable pub client_rx_handler : (descriptor : ℕ → ℕ) → Alloc → Read → Ptr → Work → Work
  unfolding header_failed close_remote queue_msg_handler
  client_rx_handler descriptor alloc r p w = elim r.hdr [
    | none ↦ header_failed descriptor p w
    | some hdr ↦
        if not (hdr.magic == magic_number)
        then close_remote descriptor p w
        else if not r.rest_ok
        then close_remote descriptor p w
        else queue_msg_handler sizes env alloc 0 hdr p w
  ]
