-- ===== src/MsgRouter/Tests.antt =====
-- msgRouter.c: a router with two local clients and a remote one; the message ID 9 has the consumers 20
-- and 30.
use radlib.Base.{
  ◌+◌, ◌≡◌, ◌≢◌, refl, true, false, if◌then◌else◌, ◌==◌, inl, none, some, [], ◌∷◌, arith,
}
use radlib.Base.Lists.{has, All}
use radlib.SysDefs.{sign_extended}
use radlib.RadList.{Ptr, null}
use radlib.MsgRouter.{
  Pib, pib_type_local, pib_type_remote, Work, Env, magic_number, find_pid, get_pib_by_pid, get_miib,
}
use radlib.MsgRouter.Send.{Sizes}
use radlib.MsgRouter.Handler.{
  Hdr, Alloc, register, deregister, other, sender, on_deregister, queue_msg_handler,
}
use radlib.MsgRouter.Connect.{Net, Arrival, Opening, server_rx_handler}
use radlib.MsgRouter.Settle.{Outcome, server_rx_handler-Outcome}
use radlib.MsgRouter.Valid.{IsValid}
use radlib.MsgRouter.Leave.{on_deregister_lem}
use radlib.MsgRouter.Keep.{queue_msg_handler-IsValid}
use radlib.MsgRouter.Due.{due}
use radlib.MsgRouter.Route.{queue_msg_handler-due}

-- The clients 10 and 20 are local, with the PIDs 110 and 120; the client 30 is remote.
abbrev pib_at : Ptr → Pib
pib_at a = record {
  type = if a == 30 then pib_type_remote else pib_type_local;
  pid = if a == 30 then 0 else a + 100;
  queue_name = a;
  rxclient = if a == 30 then 6 else 0;
  txclient = if a == 30 then 7 else 0;
  max_msg_size = 512;
  transmits = 0;
  receives = 0;
  rx_errors = 0;
  tx_errors = 0;
}

abbrev router : Work
router = record {
  pibs = pib_at;
  pib_list = 10 ∷ 20 ∷ 30 ∷ [];
  miib_list = record { msg_id = 9; consumers = 20 ∷ 30 ∷ [] } ∷ [];
  remote_server = 0;
  transmits = 0;
  receives = 0;
  events = [];
}

abbrev sizes : Sizes
sizes = record { hdr = 32; internal_msg = 200 }

-- Every buffer is there, and every client but 20 accepts what it is sent.
abbrev env : Env
env = record { has_buffer = λ es n. true; accepts = λ es p. if p == 20 then false else true }

abbrev alloc : Alloc
alloc = record { new_pib = 40; miib_ok = true; cib_ok = true; attach_ok = true }

-- A message of the ID 9 from the client with the PID 110.
abbrev news : Hdr
news = record {
  magic = magic_number;
  srcpid = 110;
  msg_id = 9;
  sub_msg_id = other;
  target_msg_id = 0;
  bytes = 1 ∷ 2 ∷ [];
}

-- The client with the PID 120 deregisters.
abbrev goodbye : Hdr
goodbye = record {
  magic = magic_number;
  srcpid = 120;
  msg_id = 0xFFFF_FFFF;
  sub_msg_id = deregister;
  target_msg_id = 0;
  bytes = [];
}

router-IsValid : IsValid router
unfolding sign_extended
router-IsValid = record {
  distinct = (refl, (refl, (refl, tt)));
  non_null = refl;
  blocks = (((refl, (refl, tt)), (refl, (refl, tt))), tt);
  ids_distinct = (refl, tt);
}

queue_msg_handler-IsValid_example :
    IsValid (queue_msg_handler sizes env alloc 5 goodbye null router)
queue_msg_handler-IsValid_example =
    queue_msg_handler-IsValid sizes env alloc 5 goodbye null router refl (inl refl) router-IsValid

goodbye-sender : sender router null goodbye ≡ 20
unfolding sender get_pib_by_pid find_pid
goodbye-sender = refl

goodbye-ne_null : sender router null goodbye ≢ null
goodbye-ne_null = rw goodbye-sender (omega arith)

on_deregister_lem_example :
    (has (sender router null goodbye) (on_deregister goodbye null router).pib_list ≡ false)
    × All
        (λ m. has (sender router null goodbye) m.consumers ≡ false)
        (on_deregister goodbye null router).miib_list
    × ((a : Ptr)
        → has a (on_deregister goodbye null router).pib_list
          ≡ (if a == sender router null goodbye then false else has a router.pib_list))
on_deregister_lem_example = on_deregister_lem router null goodbye router-IsValid goodbye-ne_null

queue_msg_handler-due_example :
    ((queue_msg_handler sizes env alloc 5 news null router).events
      ≡ due pib_at null 9 (1 ∷ 2 ∷ []) (20 ∷ 30 ∷ []))
    × ((queue_msg_handler sizes env alloc 5 news null router).receives ≡ 1)
unfolding sender get_pib_by_pid find_pid
queue_msg_handler-due_example =
    queue_msg_handler-due sizes env (λ es n. refl) alloc 5 news null router (20 ∷ 30 ∷ []) refl
      (omega arith) (omega arith) refl refl

-- A socket's descriptor and host are its number.
abbrev net : Net
net = record { descriptor = λ s. s; host = λ s. s; listen_port = 77 }

-- The socket 60 is opened for another router.
abbrev opening : Opening
opening = record { socket = some 60; wrote = true; new_pib = 50 }

-- The connection 61 brings a registration.
abbrev greeting : Hdr
greeting = record {
  magic = magic_number;
  srcpid = 0;
  msg_id = 0xFFFF_FFFF;
  sub_msg_id = register;
  target_msg_id = 0;
  bytes = [];
}

abbrev arrival : Arrival
arrival = record {
  new_client = some 61;
  hdr = some greeting;
  in_msg = some (record {
    sub_msg_id = register;
    src_ip = 1;
    src_port = 77;
    socket_id = 8;
    max_msg_size = 512;
  });
}

server_rx_handler-Outcome_example :
    Outcome sizes env net arrival 61 router (server_rx_handler sizes env net arrival opening router)
server_rx_handler-Outcome_example =
    server_rx_handler-Outcome sizes env net arrival opening 61 router refl

-- An ID that is no `int` is not found: each request for it makes a block more.
ids_of_a_long :
    (get_miib 2147483648 (record { msg_id = 2147483648; consumers = 20 ∷ [] } ∷ []) ≡ none)
    × (get_miib 4294967305 router.miib_list ≡ get_miib 9 router.miib_list)
unfolding get_miib sign_extended
ids_of_a_long = (refl, refl)
