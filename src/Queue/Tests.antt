-- ===== src/Queue/Tests.antt =====
-- radqueue.c: a table of four records, and a process of two groups.
use radlib.Base.{ℕ, ◌≡◌, refl, true, false, ◌==◌, if◌then◌else◌, none, some, List, [], ◌∷◌, arith}
use radlib.SysDefs.{ok}
use radlib.Queue.{MsgqRecord, QmsgHdr, Queue, queue_group_all}
use radlib.Queue.Table.{has_record, delete_queue}
use radlib.Queue.Group.{Body}
use radlib.Queue.Recv.{Read, bytes, again, recv, received, recv-received}
use radlib.Queue.Unique.{IsTable}
use radlib.Queue.Purge.{has_queue, delete_queue-all, delete_queue-gone}
use radlib.Queue.View.{Members, Holds, join, leave, calls, specs, calls_refines}

abbrev entry : (name group : ℕ) → MsgqRecord
entry name group = record { name = name; group = group; update_flag = false }

-- The queues 10, 11 and 12, of which 10 and 11 are in the group 5.
abbrev four_records : List MsgqRecord
four_records = entry 10 1 ∷ entry 11 1 ∷ entry 10 5 ∷ entry 11 5 ∷ []

four_records-IsTable : IsTable four_records
unfolding has_record
four_records-IsTable = record { unique = (refl, (refl, (refl, (refl, tt)))); room = omega arith }

delete_queue-all_example :
    IsTable (delete_queue 10 queue_group_all four_records).1
    × ((delete_queue 10 queue_group_all four_records).0 ≡ ok)
    × (has_record 11 5 (delete_queue 10 queue_group_all four_records).1
        ≡ has_record 11 5 four_records)
delete_queue-all_example = delete_queue-all 10 11 5 four_records four_records-IsTable (omega arith)

delete_queue-gone_example : has_queue 10 (delete_queue 10 queue_group_all four_records).1 ≡ false
delete_queue-gone_example = delete_queue-gone 10 four_records (refl, (refl, (refl, tt)))

-- A third record that follows its neighbour is passed over.
neighbours : has_queue 10 (delete_queue 10 queue_group_all (entry 10 1 ∷ entry 10 5 ∷ [])).1 ≡ true
unfolding delete_queue
neighbours = refl

abbrev no_members : Members
no_members = record { member = λ n g. false; size = 0 }

nothing-Holds : Holds [] no_members
unfolding has_record
nothing-Holds = record {
  table = record { unique = tt; room = omega arith };
  member = λ m k. refl;
  size = refl;
}

calls_refines_example :
    ((calls (join 10 5 ∷ leave 10 5 ∷ leave 10 5 ∷ []) []).0
      ≡ (specs (join 10 5 ∷ leave 10 5 ∷ leave 10 5 ∷ []) no_members).0)
    × Holds
        (calls (join 10 5 ∷ leave 10 5 ∷ leave 10 5 ∷ []) []).1
        (specs (join 10 5 ∷ leave 10 5 ∷ leave 10 5 ∷ []) no_members).1
calls_refines_example =
    calls_refines (join 10 5 ∷ leave 10 5 ∷ leave 10 5 ∷ []) [] no_members (tt, (refl, (refl, tt)))
      nothing-Holds

abbrev header_bytes : List ℕ
header_bytes = 3 ∷ 1 ∷ 4 ∷ 10 ∷ []

abbrev decode : List ℕ → QmsgHdr
decode [] = record { mtype = 0; length = 0; bfr_offset = 0; name = 0 }
decode (a ∷ bs) = record { mtype = a; length = 1; bfr_offset = 4; name = 10 }

abbrev pieces : List Read
pieces = bytes 3 (1 ∷ []) ∷ again ∷ bytes 4 (10 ∷ []) ∷ []

recv-received_example :
    recv 4 decode pieces
    ≡ received
        (decode header_bytes)
        (if (decode header_bytes).length == 0 then none else some (decode header_bytes).bfr_offset)
recv-received_example =
    recv-received 4 decode header_bytes pieces (4 ∷ 10 ∷ [], refl, ([], refl, refl)) refl

abbrev process_10 : Queue
process_10 = record {
  table = four_records;
  name = 10;
  reflect_fd = 3;
  pipe_fd = 4;
  send_queues = [];
  events = [];
}

abbrev note : Body
note name q = (ok, record q { pipe_fd = name })
