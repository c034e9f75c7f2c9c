-- ===== src/Events/Tests.antt =====
-- radevents.c: a process that catches the events 0 and 3 at first.
use radlib.Base.{ℕ, ◌<◌, ◌≡◌, ◌≢◌, false, ◌⊎◌, some, [], ◌∷◌, ◌++◌, arith}
use radlib.Base.Bits.{bit}
use radlib.SysDefs.{ok}
use radlib.Events.{EventsId, callback, process}
use radlib.Events.Masks.{add_events, remove_events, run, received, process-caught}

abbrev events_id : EventsId
events_id = record { qid = 1; mask = 9; evt_processor = some 5; user_parm = 6 }

process-caught_example :
    ((process (run (add_events 4 ∷ remove_events 1 ∷ []) events_id) 7 2 [] ≡ ([], ok))
      × ((i : ℕ) → i < 32 → received (add_events 4 ∷ remove_events 1 ∷ []) events_id 7 i ≡ false))
    ⊎ ((es : ℕ) × (process (run (add_events 4 ∷ remove_events 1 ∷ []) events_id) 7 2 []
          ≡ ([] ++ callback (some 5) es 2 6 ∷ [], ok))
        × (es ≢ 0)
        × ((i : ℕ)
            → i < 32
            → bit i es ≡ received (add_events 4 ∷ remove_events 1 ∷ []) events_id 7 i))
process-caught_example =
    process-caught (add_events 4 ∷ remove_events 1 ∷ []) events_id 7 2 [] (omega arith)
