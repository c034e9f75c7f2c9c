-- ===== src/RouterClient/Tests.antt =====
-- radmsgRouter.c: the processes with the PIDs 110 and 120 and a router whose clients they are.
use radlib.Base.{ℕ, ◌+◌, ◌≡◌, ◌≢◌, refl, true, false, some, List, [], ◌∷◌, ◌++◌, arith}
use radlib.Base.Lists.{has}
use radlib.SysDefs.{ok, pos}
use radlib.RadList.{null}
use radlib.MsgRouter
use radlib.MsgRouter.{Event, Work, get_miib, find_pid, get_pib_by_pid, internal_msgid, magic_number}
use radlib.MsgRouter.Send.{Sizes}
use radlib.MsgRouter.Handler.{Alloc, ack_subtype, enable, disable, dump_stats, queue_msg_handler}
use radlib.MsgRouter.Valid.{IsValid}
use radlib.MsgRouter.Subscribe.{consumers_of}
use radlib.RouterClient.{
  Local, Env, Poll, nothing, message, Incoming, waiting, ack_answer, wait_for_router, send_request,
  request, user_msg, message_register, message_deregister, message_send, stats_dump,
}
use radlib.RouterClient.Wait.{Awaited, wait_for_router-Awaited, wait_for_router-ends}
use radlib.RouterClient.Requests.{Guarded, requests-Guarded}
use radlib.RouterClient.Service.{Delivers, message_deregister-not_consumes, publish-subscribe}

abbrev sizes : Sizes
sizes = record { hdr = 32; internal_msg = 200 }

-- Every buffer is there, with the number 7, and every queue takes it.
abbrev process_env : ℕ → Env
process_env pid = record {
  pid = pid;
  get_buffer = λ cs n. some 7;
  accepts = λ cs. true;
  attaches = λ cs. true;
  running = true;
}

abbrev local : Local
local = record { rtr_queue_name = 4; calls = [] }

-- An answer of the router that is no acknowledgement, in the buffer 3, and one that is.
abbrev reply : Incoming
reply = record {
  bfr = 3;
  msg_type = internal_msgid;
  hdr = request 100 dump_stats 0;
  is_registered = pos 0;
}

abbrev acknowledgement : Incoming
acknowledgement = record {
  bfr = 5;
  msg_type = internal_msgid;
  hdr = request 100 ack_subtype 0;
  is_registered = pos 0;
}

abbrev rounds : List Poll
rounds =
    record { now = 1025; recv = message reply }
    ∷ record { now = 1050; recv = nothing }
    ∷ record { now = 1075; recv = message acknowledgement }
    ∷ []

wait_for_router-Awaited_example :
    Awaited ack_answer 1000 rounds local (wait_for_router ack_answer 1000 rounds local)
wait_for_router-Awaited_example = wait_for_router-Awaited ack_answer 1000 rounds local

abbrev late : Poll
late = record { now = 2001; recv = message acknowledgement }

wait_for_router-ends_example :
    (wait_for_router ack_answer 1000
      (record { now = 1025; recv = message reply } ∷ late ∷ [])
      local).0
    ≢ waiting
wait_for_router-ends_example =
    wait_for_router-ends ack_answer 1000 (record { now = 1025; recv = message reply } ∷ []) [] late
      local (omega arith) (omega arith)

requests-Guarded_example :
    Guarded true sizes
      (process_env 110)
      (request 110 enable 9)
      200
      local
      (message_register sizes (process_env 110) 9 local)
    × Guarded true sizes
        (process_env 110)
        (request 110 disable 9)
        200
        local
        (message_deregister sizes (process_env 110) 9 local)
    × Guarded true sizes
        (process_env 110)
        (user_msg 110 9 (1 ∷ 2 ∷ []))
        2
        local
        (message_send sizes (process_env 110) 9 (1 ∷ 2 ∷ []) local)
    × Guarded true sizes
        (process_env 110)
        (request 110 dump_stats 0)
        200
        local
        (stats_dump sizes (process_env 110) local)
requests-Guarded_example =
    requests-Guarded sizes (process_env 110) 9 (1 ∷ 2 ∷ []) local (omega arith)

abbrev unregistered : Local
unregistered = record { rtr_queue_name = 0; calls = [] }

abbrev router : Work
router = record {
  pibs = λ a. record {
    type = MsgRouter.pib_type_local;
    pid = a + 100;
    queue_name = a;
    rxclient = 0;
    txclient = 0;
    max_msg_size = 0;
    transmits = 0;
    receives = 0;
    rx_errors = 0;
    tx_errors = 0;
  };
  pib_list = 10 ∷ 20 ∷ [];
  miib_list = [];
  remote_server = 0;
  transmits = 0;
  receives = 0;
  events = [];
}

abbrev router_env : MsgRouter.Env
router_env = record { has_buffer = λ es n. true; accepts = λ es p. true }

abbrev alloc : Alloc
alloc = record { new_pib = 40; miib_ok = true; cib_ok = true; attach_ok = true }

registered : (message_register sizes (process_env 110) 9 local).1 ≡ ok
unfolding message_register send_request
registered = refl

deregistered : (message_deregister sizes (process_env 110) 9 local).1 ≡ ok
unfolding message_deregister send_request
deregistered = refl

sent : (message_send sizes (process_env 120) 9 (1 ∷ 2 ∷ []) local).1 ≡ ok
unfolding message_send
sent = refl

subscriber_pib : get_pib_by_pid router 110 ≡ 10
unfolding get_pib_by_pid
subscriber_pib = refl

publisher_pib : get_pib_by_pid router 120 ≡ 20
unfolding get_pib_by_pid
publisher_pib = refl

router-IsValid : IsValid router
router-IsValid = record {
  distinct = (refl, (refl, tt));
  non_null = refl;
  blocks = tt;
  ids_distinct = tt;
}

message_deregister-not_consumes_example :
    Delivers (request 110 disable 9) local (message_deregister sizes (process_env 110) 9 local).0
    × (has (get_pib_by_pid router 110) (
          consumers_of 9
            (queue_msg_handler sizes router_env alloc 5
              (request 110 disable 9)
              null
              router).miib_list)
        ≡ false)
message_deregister-not_consumes_example =
    message_deregister-not_consumes sizes (process_env 110) router_env alloc 5 9 local router
      deregistered (omega arith) router-IsValid (rw subscriber_pib refl)

publish-subscribe_example :
    Delivers (request 110 enable 9) local (message_register sizes (process_env 110) 9 local).0
    × Delivers
        (user_msg 120 9 (1 ∷ 2 ∷ []))
        local
        (message_send sizes (process_env 120) 9 (1 ∷ 2 ∷ []) local).0
    × ((es : List Event) × (fs : List Event) × ((queue_msg_handler sizes router_env alloc 5
            (user_msg 120 9 (1 ∷ 2 ∷ []))
            null
            (queue_msg_handler sizes router_env alloc 5 (request 110 enable 9) null router)).events
          ≡ es
            ++ MsgRouter.queue_send (get_pib_by_pid router 110) (MsgRouter.message 9 (1 ∷ 2 ∷ []))
              ∷ fs))
publish-subscribe_example =
    publish-subscribe sizes (process_env 110) (process_env 120) router_env (λ es n. refl) alloc
      alloc 5 5 9 (1 ∷ 2 ∷ []) local local router registered sent refl refl (omega arith)
      (omega arith) (rw subscriber_pib refl) (rw publisher_pib refl) refl
