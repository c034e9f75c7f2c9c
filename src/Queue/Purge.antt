-- ===== src/Queue/Purge.antt =====
-- radqueue.c: the deletion of a queue from all groups.
use radlib.Base.{
  ℕ, ◌≤◌, ◌≡◌, ◌≢◌, refl, Bool, true, false, if◌then◌else◌, ◌==◌, ◌&&◌, ◌||◌, List, [], ◌∷◌, arith,
  Bool-cases, inl, inr,
}
use radlib.Base.Lists.{length}
use radlib.SysDefs.{ok, error}
use radlib.Queue.{MsgqRecord, queue_group_all}
use radlib.Queue.Table.{has_record, delete_all, delete_queue}
use radlib.Queue.Unique.{is_record-flagged, flagged_name, IsTable, Unique}

-- Whether a queue is in any group.
abbrev pub has_queue : ℕ → List MsgqRecord → Bool
has_queue n [] = false
has_queue n (r ∷ rs) = (r.name == n) || has_queue n rs

-- No two neighbours are of the queue.
abbrev pub NoneSideBySide : ℕ → List MsgqRecord → Type 0
NoneSideBySide n [] = Unit
NoneSideBySide n (r ∷ []) = Unit
NoneSideBySide n (r ∷ q ∷ rs) =
    (((r.name == n) && (q.name == n)) ≡ false) × NoneSideBySide n (q ∷ rs)

others-delete_all :
    (n m k : ℕ) (passed : Bool) (t : List MsgqRecord)
    → m ≢ n
    → has_record m k (delete_all n passed t).1 ≡ has_record m k t
unfolding has_record delete_all
others-delete_all n m k passed [] h = refl
others-delete_all n m k true (r ∷ rs) h = rw (others-delete_all n m k false rs h) refl
others-delete_all n m k false (r ∷ rs) h = elim (Bool-cases (r.name == n)) [
  | inl y ↦ rw (y, others-delete_all n m k true rs h) (ground arith)
  | inr x ↦ rw (x, is_record-flagged queue_group_all m k r, others-delete_all n m k false rs h) refl
]

fewer-delete_all :
    (n m k : ℕ) (passed : Bool) (t : List MsgqRecord)
    → has_record m k t ≡ false
    → has_record m k (delete_all n passed t).1 ≡ false
unfolding has_record delete_all
fewer-delete_all n m k passed [] h = refl
fewer-delete_all n m k true (r ∷ rs) h = ground (arith, fewer-delete_all n m k false rs)
fewer-delete_all n m k false (r ∷ rs) h =
    let l = fewer-delete_all n m k true rs in
    let o = fewer-delete_all n m k false rs in
    let f = is_record-flagged queue_group_all m k r in
    elim (Bool-cases (r.name == n)) [
      | inl y ↦ rw y (ground (arith, l))
      | inr x ↦ rw (x, f) (ground (arith, o))
    ]

Unique-delete_all :
    (n : ℕ) (passed : Bool) (t : List MsgqRecord) → Unique t → Unique (delete_all n passed t).1
unfolding delete_all
Unique-delete_all n passed [] u = tt
Unique-delete_all n true (r ∷ rs) u =
    (fewer-delete_all n r.name r.group false rs u.0, Unique-delete_all n false rs u.1)
Unique-delete_all n false (r ∷ rs) u =
    let (a, b) = flagged_name queue_group_all r in
    elim (Bool-cases (r.name == n)) [
      | inl y ↦ rw y (Unique-delete_all n true rs u.1)
      | inr x ↦
          rw (x, a, b)
            (fewer-delete_all n r.name r.group false rs u.0, Unique-delete_all n false rs u.1)
    ]

length-delete_all :
    (n : ℕ) (passed : Bool) (t : List MsgqRecord) → length (delete_all n passed t).1 ≤ length t
unfolding delete_all
length-delete_all n passed [] = omega arith
length-delete_all n true (r ∷ rs) = omega (arith, length-delete_all n false rs)
length-delete_all n false (r ∷ rs) = elim (Bool-cases (r.name == n)) [
  | inl y ↦ rw y (omega (arith, length-delete_all n true rs))
  | inr x ↦ rw x (omega (arith, length-delete_all n false rs))
]

found-delete_all : (n : ℕ) (t : List MsgqRecord) → (delete_all n false t).0 ≡ has_queue n t
unfolding delete_all
found-delete_all n [] = refl
found-delete_all n (r ∷ rs) = elim (Bool-cases (r.name == n)) [
  | inl y ↦ rw y refl
  | inr x ↦ rw x (found-delete_all n rs)
]

NoneSideBySide-tail :
    (n : ℕ) (q : MsgqRecord) (rs : List MsgqRecord)
    → NoneSideBySide n (q ∷ rs)
    → NoneSideBySide n rs
NoneSideBySide-tail n q [] s = tt
NoneSideBySide-tail n q (r ∷ rs) s = s.1

gone-delete_all :
    (n : ℕ) (t : List MsgqRecord)
    → NoneSideBySide n t
    → has_queue n (delete_all n false t).1 ≡ false
unfolding delete_all
gone-delete_all n [] s = refl
gone-delete_all n (r ∷ []) s = elim (Bool-cases (r.name == n)) [
  | inl y ↦ rw y refl
  | inr x ↦ rw (x, (flagged_name queue_group_all r).0) (ground arith)
]
gone-delete_all n (r ∷ q ∷ rs) s = elim (Bool-cases (r.name == n)) [
  | inl y ↦ rw y (ground (arith, s.0, gone-delete_all n rs (NoneSideBySide-tail n q rs s.1)))
  | inr x ↦
      rw (x, (flagged_name queue_group_all r).0) (ground (arith, gone-delete_all n (q ∷ rs) s.1))
]

-- `qdbDeleteQueue` with QUEUE_GROUP_ALL keeps a table valid and the records of all other queues in it,
-- and returns OK exactly if the queue has a record.
pub delete_queue-all :
    (n m k : ℕ) (t : List MsgqRecord)
    → IsTable t
    → m ≢ n
    → IsTable (delete_queue n queue_group_all t).1
      × ((delete_queue n queue_group_all t).0 ≡ (if has_queue n t then ok else error))
      × (has_record m k (delete_queue n queue_group_all t).1 ≡ has_record m k t)
unfolding delete_queue
delete_queue-all n m k t v h = (
  record {
    unique = Unique-delete_all n false t v.unique;
    room = omega (arith, length-delete_all n false t, v.room);
  },
  rw (found-delete_all n t) refl,
  others-delete_all n m k false t h,
)

-- If no two neighbouring records are the queue's, `qdbDeleteQueue` with QUEUE_GROUP_ALL leaves none of
-- its records.
pub delete_queue-gone :
    (n : ℕ) (t : List MsgqRecord)
    → NoneSideBySide n t
    → has_queue n (delete_queue n queue_group_all t).1 ≡ false
unfolding delete_queue
delete_queue-gone n t s = gone-delete_all n t s
