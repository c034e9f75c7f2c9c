-- ===== src/MsgRouter/Receive.antt =====
-- msgRouter.c: `ClientRXHandler` and the lists of the router.
use radlib.Base.{
  ℕ, ◌≡◌, refl, Bool, true, false, if◌then◌else◌, ◌==◌, not, Bool-cases, Option-cases, inl, inr,
}
use radlib.Base.Lists.{has}
use radlib.RadList.{Ptr}
use radlib.MsgRouter.{Work, Env, log, magic_number}
use radlib.MsgRouter.Send.{Sizes}
use radlib.MsgRouter.Handler.{Alloc, drop_client, queue_msg_handler}
use radlib.MsgRouter.Valid.{IsValid}
use radlib.MsgRouter.Frame.{SameLists, SameLists-IsValid}
use radlib.MsgRouter.Leave.{drop_client-IsValid}
use radlib.MsgRouter.Client.{Read, close_remote, header_failed, client_rx_handler}
use radlib.MsgRouter.Keep.{queue_msg_handler-IsValid}

close_remote-SameLists :
    (descriptor : ℕ → ℕ) (p : Ptr) (w : Work)
    → SameLists (drop_client p w) (close_remote descriptor p w)
unfolding close_remote log
close_remote-SameLists descriptor p w = record { clients = refl; blocks = refl }

close_remote-IsValid :
    (descriptor : ℕ → ℕ) (p : Ptr) (w : Work) → IsValid w → IsValid (close_remote descriptor p w)
close_remote-IsValid descriptor p w v =
    SameLists-IsValid (close_remote-SameLists descriptor p w) (drop_client-IsValid w p v)

either-IsValid : (b : Bool) (u w : Work) → IsValid u → IsValid w → IsValid (if b then u else w)
either-IsValid true u w p q = p
either-IsValid false u w p q = q

header_failed-IsValid :
    (descriptor : ℕ → ℕ) (p : Ptr) (w : Work) → IsValid w → IsValid (header_failed descriptor p w)
unfolding header_failed log
header_failed-IsValid descriptor p w v =
    elim (Bool-cases (w.remote_server == (w.pibs p).txclient)) [
      | inl y ↦ rw y (close_remote-IsValid descriptor p w v)
      | inr n ↦ rw n (close_remote-IsValid descriptor p w v)
    ]

module _ (sizes : Sizes) (env : Env) where
  -- `ClientRXHandler` keeps the lists valid whether the header or the rest cannot be read, the magic
  -- number is wrong, or the message is handled, if the socket's block is a client on the list and the
  -- block that `malloc` may return is not.
  pub client_rx_handler-IsValid :
      (descriptor : ℕ → ℕ) (alloc : Alloc) (r : Read) (p : Ptr) (w : Work)
      → has alloc.new_pib w.pib_list ≡ false
      → has p w.pib_list ≡ true
      → IsValid w
      → IsValid (client_rx_handler sizes env descriptor alloc r p w)
  unfolding client_rx_handler
  client_rx_handler-IsValid descriptor alloc r p w out c v = elim (Option-cases r.hdr) [
    | inl n ↦ rw (client_rx_handler, n) (header_failed-IsValid descriptor p w v)
    | inr (hdr, y) ↦
        let closed = close_remote descriptor p w in
        let handled = queue_msg_handler sizes env alloc 0 hdr p w in
        let c0 = close_remote-IsValid descriptor p w v in
        rw (client_rx_handler, y)
          (either-IsValid (not (hdr.magic == magic_number)) closed
            (if not r.rest_ok then closed else handled) c0
            (either-IsValid (not r.rest_ok) closed handled c0
              (queue_msg_handler-IsValid sizes env alloc 0 hdr p w out (inr c) v)))
  ]
