-- ===== src/MsgRouter/Run.antt =====
-- msgRouter.c: everything that can happen to the router, and its lists.
use radlib.Base.{ℕ, ◌≡◌, true, false, some}
use radlib.Base.Lists.{has}
use radlib.RadList.{Ptr, null}
use radlib.MsgRouter.{Work, Env}
use radlib.MsgRouter.Send.{Sizes}
use radlib.MsgRouter.Handler.{Hdr, Alloc, queue_msg_handler}
use radlib.MsgRouter.Client.{Read, client_rx_handler}
use radlib.MsgRouter.Connect.{
  InMsg, Net, Arrival, Opening, connect_timer_handler, acked, server_rx_handler,
}
use radlib.MsgRouter.Peers.{ConsumesNothing}

module _ (sizes : Sizes) (env : Env) (net : Net) where
  -- What happens to the router: a message on its queue, bytes on the socket of a client on the list, a
  -- connection from another router, and the timer that connects it with one. A block that `malloc`
  -- returns is not in use, and a router that acknowledges a registration consumes nothing yet.
  pub data Step : Work → Work → Type 0 where
    on_queue :
        (w : Work) (alloc : Alloc) (src_queue : ℕ) (hdr : Hdr)
        → has alloc.new_pib w.pib_list ≡ false
        → Step w (queue_msg_handler sizes env alloc src_queue hdr null w)
    on_socket :
        (w : Work) (alloc : Alloc) (r : Read) (p : Ptr)
        → has alloc.new_pib w.pib_list ≡ false
        → has p w.pib_list ≡ true
        → Step w (client_rx_handler sizes env net.descriptor alloc r p w)
    on_connection :
        (w : Work) (a : Arrival) (opening : Opening)
        → has opening.new_pib w.pib_list ≡ false
        → ((msg : InMsg) → a.in_msg ≡ some msg → ConsumesNothing (acked sizes env net msg w) w)
        → Step w (server_rx_handler sizes env net a opening w)
    on_timer :
        (w : Work) (opening : Opening)
        → has opening.new_pib w.pib_list ≡ false
        → Step w (connect_timer_handler opening w)

  pub data Reach (w : Work) : Work → Type 0 where
    here : Reach w w
    next : {u v : Work} → Reach w u → Step u v → Reach w v
