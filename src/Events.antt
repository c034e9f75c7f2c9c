-- ===== src/Events.antt =====
-- src/radevents.c and h/radevents.h: events as the digits of a mask of 32, which a process catches and
-- sends to itself or to others. Names, buffers and parameters are numbers.
pub mod Masks
mod Tests
use Prim.Native.Nat.{bit_and, bit_or}
use radlib.Base.{
  ℕ, ◌-◌, Bool, true, false, if◌then◌else◌, ◌==◌, not, Option, none, some, List, [], ◌∷◌, ◌++◌,
}
use radlib.Base.Bits.{power_of_two}
use radlib.SysDefs.{Status, ok, error}

-- `EVENTS_ID`: the queue, the events that are caught, the callback, if there is one, with its
-- parameter.
pub record EventsId : Type 0 where
  pub qid : ℕ
  pub mask : ℕ
  pub evt_processor : Option ℕ
  pub user_parm : ℕ

-- What is in a buffer: an event for the process itself (`SELF_EVENT`), or for another (`EVENTS_MSG`).
pub record EventsMsg : Type 0 where
  pub events : ℕ
  pub events_data : ℕ

-- The calls of other components: the callback, a try to send a buffer on a queue or to the process
-- itself through its notify descriptor, and the release of a buffer.
pub data Call : Type 0 where
  callback : (evt_processor : Option ℕ) → (events_rx events_data user_parm : ℕ) → Call
  queue_send : (qid dest_name bfr : ℕ) → EventsMsg → Call
  notify : (bfr : ℕ) → EventsMsg → Call
  bfr_rls : ℕ → Call

-- The buffer that `radBufferGet` returns, and whether `radQueueSend` succeeds, depending on the calls
-- before. Where the write to the notify descriptor fails, the program only logs it.
pub record Env : Type 0 where
  pub get_buffer : List Call → Option ℕ
  pub queue_accepts : List Call → Bool

-- ~a, for 32 digits.
abbrev pub complement : ℕ → ℕ
complement a = power_of_two 32 - 1 - a

-- `radEventsInit`.
unfoldable pub init :
    (memory_ok : Bool)
    → (queue_id initial_events : ℕ) → (evt_callback : Option ℕ) → (user_parm : ℕ) → Option EventsId
init memory_ok queue_id initial_events evt_callback user_parm =
    if memory_ok
    then some (record {
      qid = queue_id;
      mask = initial_events;
      evt_processor = evt_callback;
      user_parm = user_parm;
    })
    else none

-- `radEventsAdd`, `radEventsRemove` and `radEventsGetMask`.
unfoldable pub add : (new_events : ℕ) → EventsId → EventsId × Status
add new_events id = (record id { mask = bit_or id.mask new_events }, ok)

unfoldable pub remove : (remove_events : ℕ) → EventsId → EventsId × Status
remove remove_events id = (record id { mask = bit_and id.mask (complement remove_events) }, ok)

unfoldable pub get_mask : EventsId → ℕ
get_mask id = id.mask

-- `selfEventsProcess`, called with the buffer that was written to the notify descriptor.
unfoldable pub self_events_process : EventsId → (bfr : ℕ) → EventsMsg → List Call → List Call
self_events_process id bfr m cs =
    cs
    ++ (callback id.evt_processor (bit_and id.mask m.events) m.events_data id.user_parm
        ∷ bfr_rls bfr
        ∷ [])

-- `radEventsProcess`.
unfoldable pub process : EventsId → (events_rx events_data : ℕ) → List Call → List Call × Status
process id rx d cs =
    if bit_and id.mask rx == 0
    then (cs, ok)
    else (cs ++ callback id.evt_processor (bit_and id.mask rx) d id.user_parm ∷ [], ok)

module _ (env : Env) where
  -- The two branches of `radEventsSend`; a destination of NULL is the process itself.
  unfoldable pub send_self : EventsId → EventsMsg → List Call → List Call × Status
  send_self id m cs = elim id.evt_processor [
    | none ↦ (cs, ok)
    | some f ↦ elim (env.get_buffer cs) [
      | none ↦ (cs, error)
      | some b ↦ (cs ++ notify b m ∷ [], ok)
    ]
  ]

  unfoldable pub send_other :
      EventsId → (dest_name : ℕ) → EventsMsg → List Call → List Call × Status
  send_other id dest m cs = elim (env.get_buffer cs) [
    | none ↦ (cs, error)
    | some b ↦
        let cs' = cs ++ queue_send id.qid dest b m ∷ [] in
        if env.queue_accepts cs' then (cs', ok) else (cs' ++ bfr_rls b ∷ [], error)
  ]

  unfoldable pub send :
      EventsId
      → (dest_name : Option ℕ) → (events_to_send events_data : ℕ) → List Call
      → List Call × Status
  unfolding send_self send_other
  send id dest events d cs =
      let m : EventsMsg = record { events = events; events_data = d } in
      elim dest [ none ↦ send_self id m cs | some name ↦ send_other id name m cs ]
