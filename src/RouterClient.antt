-- ===== src/RouterClient.antt =====
-- src/radmsgRouter.c: the side of a local process in the protocol with the message router: it
-- registers, enables and disables message IDs, and sends messages. Names and buffers are numbers; the
-- name 0 is the empty one, of a process that is not registered.
pub mod Wait
pub mod Requests
pub mod Service
mod Tests
use radlib.Base.{
  ℕ, ◌+◌, ◌-◌, ◌%◌, Bool, true, false, if◌then◌else◌, ◌==◌, ltb, ◌||◌, ◌&&◌, not, Option, none,
  some, List, [], ◌∷◌, ◌++◌,
}
use radlib.Base.Lists.{length}
use radlib.SysDefs.{Status, ok, error, ℤ, pos, negsuc, eq_int, ulong_mod, sign_extended}
use radlib.MsgRouter.{internal_msgid, magic_number}
use radlib.MsgRouter.Send.{Sizes}
use radlib.MsgRouter.Handler.{
  Subtype, register, deregister, ack_subtype, enable, disable, is_registered_subtype, dump_stats,
  other, Hdr,
}

-- The calls of other components: a buffer put on a queue, a buffer released, a queue left.
pub data Call : Type 0 where
  queue_send : (queue_name bfr : ℕ) → Hdr → Call
  bfr_rls : ℕ → Call
  queue_attach : ℕ → Call
  queue_dettach : ℕ → Call

-- `msgRtrLocalWork`, with the calls made so far.
pub record Local : Type 0 where
  pub rtr_queue_name : ℕ
  pub calls : List Call

-- What the system answers: `getpid`, the buffer that `radBufferGet` returns, whether
-- `radProcessQueueSend` and `radProcessQueueAttach` succeed, depending on the calls before, and
-- whether the router's PID file is there.
pub record Env : Type 0 where
  pub pid : ℕ
  pub get_buffer : List Call → (size : ℕ) → Option ℕ
  pub accepts : List Call → Bool
  pub attaches : List Call → Bool
  pub running : Bool

unfoldable pub log : Local → Call → Local
log l c = record l { calls = l.calls ++ c ∷ [] }

-- A header with an internal message.
unfoldable pub request : (pid : ℕ) → Subtype → (target_msg_id : ℕ) → Hdr
request pid t target = record {
  magic = magic_number;
  srcpid = pid;
  msg_id = internal_msgid;
  sub_msg_id = t;
  target_msg_id = target;
  bytes = [];
}

-- A header with a message of the process.
unfoldable pub user_msg : (pid msg_id : ℕ) → List ℕ → Hdr
user_msg pid id bytes = record {
  magic = magic_number;
  srcpid = pid;
  msg_id = id;
  sub_msg_id = other;
  target_msg_id = 0;
  bytes = bytes;
}

-- `MSGRTR_MAX_ACK_WAIT`, in milliseconds.
abbrev pub max_ack_wait : ℕ
max_ack_wait = 1000

-- What `radQueueRecv` finds: a buffer with a header, with the field `isRegistered` of an answer.
pub record Incoming : Type 0 where
  pub bfr : ℕ
  pub msg_type : ℕ
  pub hdr : Hdr
  pub is_registered : ℤ

pub data Recv : Type 0 where
  nothing queue_closed : Recv
  message : Incoming → Recv

-- One round of a wait: the reading of the clock, and what is on the queue after the sleep.
pub record Poll : Type 0 where
  pub now : ℕ
  pub recv : Recv

-- (ULONG)(now - startTime) > MSGRTR_MAX_ACK_WAIT.
unfoldable pub is_late : (start : ℕ) → Poll → Bool
is_late start p = ltb max_ack_wait ((p.now + ulong_mod - start) % ulong_mod)

-- Is a message from the router, or only marked as one?
unfoldable pub is_genuine : Incoming → Bool
is_genuine m = (m.hdr.magic == magic_number) && (m.hdr.msg_id == internal_msgid)

-- How a wait ends: with the answer, after too long, or because the queue is closed; `waiting` is
-- before the next round.
pub data Waited : Type 0 where
  answered : ℤ → Waited
  timeout closed waiting : Waited

-- The two functions that wait differ in the subtype that they wait for and in what they return of
-- it: `answer` is that value, if the message is the one.
abbrev pub Answer : Type 0
Answer = Incoming → Option ℤ

unfoldable pub ack_answer : Answer
ack_answer m = elim m.hdr.sub_msg_id [ ack_subtype ↦ some (pos 1) | _ ↦ none ]

unfoldable pub registered_answer : Answer
registered_answer m = elim m.hdr.sub_msg_id [
  | is_registered_subtype ↦ some m.is_registered
  | _ ↦ none
]

-- What is done with a message: the wait goes on or ends, and the buffer is released or not.
unfoldable pub on_incoming : Answer → Incoming → Local → Local × Option ℤ
unfolding log is_genuine
on_incoming answer m l =
    if not (m.msg_type == internal_msgid)
    then (log l (bfr_rls m.bfr), none)
    else if not (is_genuine m)
    then (log l (bfr_rls m.bfr), none)
    else elim (answer m) [ none ↦ (l, none) | some v ↦ (log l (bfr_rls m.bfr), some v) ]

-- `waitForRouterAck` and `waitForRouterAnswer`, with what is left on the queue.
unfoldable pub wait_for_router :
    Answer → (start : ℕ) → List Poll → Local → Waited × Local × List Poll
unfolding is_late on_incoming
wait_for_router answer start [] l = (waiting, l, [])
wait_for_router answer start (p ∷ ps) l =
    let go_on : Waited × Local × List Poll = elim p.recv [
      | nothing ↦ wait_for_router answer start ps l
      | queue_closed ↦ (closed, l, ps)
      | message m ↦
          let (l', v) = on_incoming answer m l in
          elim v [ none ↦ wait_for_router answer start ps l' | some z ↦ (answered z, l', ps) ]
    ] in
    if is_late start p then (timeout, l, p ∷ ps) else go_on

module _ (sizes : Sizes) (env : Env) where
  -- `sendPidToRouter`; `sendToRouter` is the same with the process's own PID in the header.
  unfoldable pub send_to_router : Hdr → (length : ℕ) → Local → Local × Status
  unfolding log
  send_to_router hdr length l = elim (env.get_buffer l.calls ((sizes.hdr + length) % ulong_mod)) [
    | none ↦ (l, error)
    | some b ↦
        let l1 = log l (queue_send l.rtr_queue_name b hdr) in
        if env.accepts l1.calls then (l1, ok) else (log l1 (bfr_rls b), error)
  ]

  unfoldable pub send_request : Subtype → (target_msg_id : ℕ) → Local → Local × Status
  unfolding send_to_router request
  send_request t target l = send_to_router (request env.pid t target) sizes.internal_msg l

  -- `radMsgRouterInit`, with the name of the router's queue, the clock when it starts to wait, and
  -- the rounds of the wait; `none` means that it still waits.
  unfoldable pub init : (queue_name start : ℕ) → List Poll → Local → Local × Option Status
  unfolding log send_request wait_for_router ack_answer
  init queue_name start polls l =
      let l1 = log (record l { rtr_queue_name = queue_name }) (queue_attach queue_name) in
      let (l2, r) = send_request register 0 l1 in
      let (a, l3, rest) = wait_for_router ack_answer start polls l2 in
      let no_ack : Local × Option Status = (record l3 { rtr_queue_name = 0 }, some error) in
      let waited : Local × Option Status = elim a [
        | answered v ↦ (if eq_int v (pos 1) then (l3, some ok) else no_ack)
        | timeout ↦ no_ack
        | closed ↦ no_ack
        | waiting ↦ (l3, none)
      ] in
      if not env.running
      then (l, some error)
      else if not (env.attaches l.calls)
      then (record l1 { rtr_queue_name = 0 }, some error)
      else elim r [ error ↦ (record l2 { rtr_queue_name = 0 }, some error) | ok ↦ waited ]

  -- `radMsgRouterExit`.
  unfoldable pub exit_router : Local → Local
  unfolding log send_request
  exit_router l =
      let (l1, r) = send_request deregister 0 l in
      elim r [
        | error ↦ l1
        | ok ↦ record (log l1 (queue_dettach l.rtr_queue_name)) { rtr_queue_name = 0 }
      ]

  -- `radMsgRouterProcessExit`.
  unfoldable pub process_exit : (pid : ℕ) → Local → Local
  unfolding send_to_router request
  process_exit pid l = (send_to_router (request pid deregister 0) sizes.internal_msg l).0

  -- `radMsgRouterMessageRegister` and `radMsgRouterMessageDeregister`.
  unfoldable pub message_register : (msg_id : ℕ) → Local → Local × Status
  unfolding send_request
  message_register id l =
      if (l.rtr_queue_name == 0) || (id == 0) then (l, error) else send_request enable id l

  unfoldable pub message_deregister : (msg_id : ℕ) → Local → Local × Status
  unfolding send_request
  message_deregister id l =
      if (l.rtr_queue_name == 0) || (id == 0) then (l, error) else send_request disable id l

  -- `radMsgRouterMessageIsRegistered`: 0 is FALSE, -1 is ERROR; `none` means that it still waits.
  unfoldable pub message_is_registered : (msg_id start : ℕ) → List Poll → Local → Local × Option ℤ
  unfolding send_request wait_for_router registered_answer
  message_is_registered id start polls l =
      let (l1, r) = send_request is_registered_subtype id l in
      let (a, l2, rest) = wait_for_router registered_answer start polls l1 in
      let waited : Local × Option ℤ = elim a [
        | answered v ↦ (l2, some (if eq_int v (negsuc 0) then pos 0 else v))
        | timeout ↦ (l2, some (pos 0))
        | closed ↦ (l2, some (pos 0))
        | waiting ↦ (l2, none)
      ] in
      if id == 0 then (l, some (pos 0)) else elim r [ error ↦ (l1, some (pos 0)) | ok ↦ waited ]

  -- `radMsgRouterMessageSend`.
  unfoldable pub message_send : (msg_id : ℕ) → List ℕ → Local → Local × Status
  unfolding send_to_router user_msg
  message_send id bytes l =
      if (l.rtr_queue_name == 0) || (id == 0)
      then (l, error)
      else send_to_router (user_msg env.pid id bytes) (sign_extended (length bytes)) l

  -- `radMsgRouterStatsDump`.
  unfoldable pub stats_dump : Local → Local × Status
  unfolding send_request
  stats_dump l = if l.rtr_queue_name == 0 then (l, error) else send_request dump_stats 0 l
