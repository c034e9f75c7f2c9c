-- ===== src/Queue/Unique.antt =====
-- radqueue.c: the table of queues has no record twice, and no more records than it has room for.
use radlib.Base.{
  ℕ, suc, ◌+◌, ◌≤◌, ◌≡◌, refl, ap, ◌∙◌, true, false, if◌then◌else◌, ◌==◌, ◌&&◌, ◌||◌, leb, not,
  List, [], ◌∷◌, ◌++◌, arith, Bool-cases, inl, inr,
}
use radlib.Base.Lists.{length, length-append}
use radlib.SysDefs.{ok, error}
use radlib.Queue.{MsgqRecord, max_queue_records}
use radlib.Queue.Table.{is_record, has_record, flagged, flag_all, add_queue, delete_one}

-- No two records have the same name and group.
abbrev pub Unique : List MsgqRecord → Type 0
Unique [] = Unit
Unique (r ∷ rs) = (has_record r.name r.group rs ≡ false) × Unique rs

pub record IsTable (t : List MsgqRecord) : Type 0 where
  pub unique : Unique t
  pub room : length t ≤ max_queue_records

-- What happens to flags does not change which records there are.
pub is_record-flagged : (g n k : ℕ) (r : MsgqRecord) → is_record n k (flagged g r) ≡ is_record n k r
is_record-flagged g n k r = elim (Bool-cases (r.group == g)) [
  | inl y ↦ rw y refl
  | inr m ↦ rw m refl
]

pub has_record-flag_all :
    (g n k : ℕ) (t : List MsgqRecord) → has_record n k (flag_all g t) ≡ has_record n k t
unfolding has_record flag_all
has_record-flag_all g n k [] = refl
has_record-flag_all g n k (r ∷ rs) =
    rw (is_record-flagged g n k r, has_record-flag_all g n k rs) refl

length-flag_all : (g : ℕ) (t : List MsgqRecord) → length (flag_all g t) ≡ length t
unfolding flag_all
length-flag_all g [] = refl
length-flag_all g (r ∷ rs) = ap suc (length-flag_all g rs)

pub flagged_name :
    (g : ℕ) (r : MsgqRecord) → ((flagged g r).name ≡ r.name) × ((flagged g r).group ≡ r.group)
flagged_name g r = elim (Bool-cases (r.group == g)) [
  | inl y ↦ rw y (refl, refl)
  | inr m ↦ rw m (refl, refl)
]

Unique-flag_all : (g : ℕ) (t : List MsgqRecord) → Unique t → Unique (flag_all g t)
unfolding flag_all
Unique-flag_all g [] u = tt
Unique-flag_all g (r ∷ rs) u =
    let (a, b) = flagged_name g r in
    (rw (a, b) (has_record-flag_all g r.name r.group rs ∙ u.0), Unique-flag_all g rs u.1)

pub has_record-append :
    (n k : ℕ) (t u : List MsgqRecord)
    → has_record n k (t ++ u) ≡ (has_record n k t || has_record n k u)
unfolding has_record
has_record-append n k [] u = refl
has_record-append n k (r ∷ rs) u = ground (arith, has_record-append n k rs u)

Unique-snoc :
    (t : List MsgqRecord) (r : MsgqRecord)
    → Unique t
    → has_record r.name r.group t ≡ false
    → Unique (t ++ r ∷ [])
unfolding has_record
Unique-snoc [] r u h = (refl, tt)
Unique-snoc (x ∷ xs) r u h = (
  ground (arith, has_record-append x.name x.group xs (r ∷ [])),
  Unique-snoc xs r u.1 (ground arith),
)

-- The records of a queue that a deletion leaves.
pub has-delete_one :
    (n g m k : ℕ) (t : List MsgqRecord)
    → Unique t
    → has_record m k (delete_one n g t).1
      ≡ (if (m == n) && (k == g) then false else has_record m k t)
unfolding has_record delete_one
has-delete_one n g m k [] u = ground arith
has-delete_one n g m k (r ∷ rs) u =
    let f = is_record-flagged g n g r in
    let h = is_record-flagged g m k r in
    elim (Bool-cases (is_record n g r)) [
      | inl y ↦ rw (f, y) (ground (arith, u.0))
      | inr x ↦ rw (f, x, h, has-delete_one n g m k rs u.1) (ground arith)
    ]

Unique-delete_one : (n g : ℕ) (t : List MsgqRecord) → Unique t → Unique (delete_one n g t).1
unfolding delete_one
Unique-delete_one n g [] u = tt
Unique-delete_one n g (r ∷ rs) u =
    let (a, b) = flagged_name g r in
    elim (Bool-cases (is_record n g r)) [
      | inl y ↦ rw (is_record-flagged g n g r, y) u.1
      | inr x ↦
          let out : has_record r.name r.group (delete_one n g rs).1 ≡ false =
            ground (arith, has-delete_one n g r.name r.group rs u.1, u.0) in
          rw (is_record-flagged g n g r, x, a, b) (out, Unique-delete_one n g rs u.1)
    ]

-- The result of a deletion, and how many records it leaves.
pub delete_one-status :
    (n g : ℕ) (t : List MsgqRecord)
    → ((delete_one n g t).0 ≡ (if has_record n g t then ok else error))
      × (length (delete_one n g t).1 + (if has_record n g t then 1 else 0) ≡ length t)
unfolding has_record delete_one
delete_one-status n g [] = (refl, omega arith)
delete_one-status n g (r ∷ rs) =
    let (a, b) = delete_one-status n g rs in
    elim (Bool-cases (is_record n g r)) [
      | inl y ↦ rw (is_record-flagged g n g r, y) (refl, omega arith)
      | inr x ↦ rw (is_record-flagged g n g r, x) (a, omega (arith, b))
    ]

pub delete_one-IsTable : (n g : ℕ) (t : List MsgqRecord) → IsTable t → IsTable (delete_one n g t).1
delete_one-IsTable n g t v = record {
  unique = Unique-delete_one n g t v.unique;
  room = omega (arith, v.room, (delete_one-status n g t).1);
}

-- An addition.
pub has-add_queue :
    (n g m k : ℕ) (t : List MsgqRecord)
    → has_record m k (add_queue n g t).1 ≡ (
        if (m == n) && (k == g)
        then has_record n g t || not (leb max_queue_records (length t))
        else has_record m k t)
unfolding add_queue has_record
has-add_queue n g m k t =
    let r : MsgqRecord = record { name = n; group = g; update_flag = true } in
    let e = has_record-append m k (flag_all g t) (r ∷ []) in
    let f = has_record-flag_all g m k t in
    elim (Bool-cases (has_record n g t)) [
      | inl y ↦ rw y (ground (arith, y))
      | inr x ↦ elim (Bool-cases (leb max_queue_records (length t))) [
        | inl w ↦ rw (x, w) (ground (arith, x))
        | inr l ↦ rw (x, l, e, f) (ground (arith, x))
      ]
    ]

pub add_queue-status :
    (n g : ℕ) (t : List MsgqRecord)
    → ((add_queue n g t).0
        ≡ (if has_record n g t then ok else if leb max_queue_records (length t) then error else ok))
      × (length (add_queue n g t).1
          ≡ length t
            + (if has_record n g t then 0 else if leb max_queue_records (length t) then 0 else 1))
unfolding add_queue
add_queue-status n g t =
    let r : MsgqRecord = record { name = n; group = g; update_flag = true } in
    let e = length-append (flag_all g t) (r ∷ []) in
    let f = length-flag_all g t in
    elim (Bool-cases (has_record n g t)) [
      | inl y ↦ rw y (refl, omega arith)
      | inr x ↦ elim (Bool-cases (leb max_queue_records (length t))) [
        | inl w ↦ rw (x, w) (refl, omega arith)
        | inr l ↦ rw (x, l) (refl, omega (arith, e, f))
      ]
    ]

pub add_queue-IsTable : (n g : ℕ) (t : List MsgqRecord) → IsTable t → IsTable (add_queue n g t).1
unfolding add_queue
add_queue-IsTable n g t v =
    let r : MsgqRecord = record { name = n; group = g; update_flag = true } in
    elim (Bool-cases (has_record n g t)) [
      | inl y ↦ rw y v
      | inr x ↦ elim (Bool-cases (leb max_queue_records (length t))) [
        | inl w ↦ rw (x, w) v
        | inr l ↦
            rw (x, l)
              (record {
                unique =
                    Unique-snoc (flag_all g t) r (Unique-flag_all g t v.unique)
                      (has_record-flag_all g n g t ∙ x);
                room = ground (arith, length-append (flag_all g t) (r ∷ []), length-flag_all g t);
              })
      ]
    ]
