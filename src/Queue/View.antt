-- ===== src/Queue/View.antt =====
-- radqueue.c: the table of queues as a set of at most 64 pairs of a queue and a group.
use radlib.Base.{
  ℕ, ◌+◌, ◌-◌, ◌≡◌, refl, ap₂, sym, Bool, true, false, if◌then◌else◌, ◌==◌, ◌&&◌, leb, List, [],
  ◌∷◌, arith, Bool-cases, inl, inr,
}
use radlib.Base.Lists.{length}
use radlib.SysDefs.{Status, ok, error}
use radlib.Queue.{MsgqRecord, max_queue_records, queue_group_all}
use radlib.Queue.Table.{has_record, add_queue, delete_one, delete_queue}
use radlib.Queue.Unique.{
  IsTable, has-add_queue, add_queue-status, add_queue-IsTable, has-delete_one, delete_one-status,
  delete_one-IsTable,
}

-- The registrations that the processes ask for; `leave` is of one group, not of all.
pub data Command : Type 0 where
  join leave : (name group : ℕ) → Command

-- A set with the number of its members.
pub record Members : Type 0 where
  pub member : ℕ → ℕ → Bool
  pub size : ℕ

abbrev pub change : Members → (name group : ℕ) → Bool → (size : ℕ) → Members
change s n g b size = record {
  member = λ m k. if (m == n) && (k == g) then b else s.member m k;
  size = size;
}

-- The specification.
abbrev pub spec : Command → Members → Status × Members
spec (join n g) s =
    if s.member n g
    then (ok, s)
    else if leb max_queue_records s.size
    then (error, s)
    else (ok, change s n g true (s.size + 1))
spec (leave n g) s = if s.member n g then (ok, change s n g false (s.size - 1)) else (error, s)

abbrev pub specs : List Command → Members → List Status × Members
specs [] s = ([], s)
specs (c ∷ cs) s = let (r, t) = spec c s in let (rs, u) = specs cs t in (r ∷ rs, u)

-- The same calls on the table.
abbrev pub call : Command → List MsgqRecord → Status × List MsgqRecord
call (join n g) t = add_queue n g t
call (leave n g) t = delete_queue n g t

abbrev pub calls : List Command → List MsgqRecord → List Status × List MsgqRecord
calls [] t = ([], t)
calls (c ∷ cs) t = let (r, u) = call c t in let (rs, v) = calls cs u in (r ∷ rs, v)

abbrev pub OneGroup : Command → Type 0
OneGroup (join n g) = Unit
OneGroup (leave n g) = (g == queue_group_all) ≡ false

abbrev pub OneGroups : List Command → Type 0
OneGroups [] = Unit
OneGroups (c ∷ cs) = OneGroup c × OneGroups cs

-- A valid table that holds exactly the members.
pub record Holds (t : List MsgqRecord) (s : Members) : Type 0 where
  pub table : IsTable t
  pub member : (m k : ℕ) → has_record m k t ≡ s.member m k
  pub size : length t ≡ s.size

join-Holds :
    (n g : ℕ) (t : List MsgqRecord) (s : Members)
    → Holds t s
    → ((add_queue n g t).0 ≡ (spec (join n g) s).0)
      × Holds (add_queue n g t).1 (spec (join n g) s).1
join-Holds n g t s h =
    let (a, b) = add_queue-status n g t in
    let e : s.member n g ≡ has_record n g t = sym (h.member n g) in
    let l : s.size ≡ length t = sym h.size in
    let v = add_queue-IsTable n g t h.table in
    elim (Bool-cases (has_record n g t)) [
      | inl y ↦
          rw (e, l, y)
            (
              rw y at a,
              record {
                table = v;
                member = λ m k. ground (arith, has-add_queue n g m k t, h.member m k, e, y);
                size = omega (arith, rw y at b, h.size);
              },
            )
      | inr x ↦ elim (Bool-cases (leb max_queue_records (length t))) [
        | inl w ↦
            rw (e, l, x, w)
              (
                rw (x, w) at a,
                record {
                  table = v;
                  member = λ m k. ground (arith, has-add_queue n g m k t, h.member m k, e, x, w);
                  size = omega (arith, rw (x, w) at b, h.size);
                },
              )
        | inr f ↦
            rw (e, l, x, f)
              (
                rw (x, f) at a,
                record {
                  table = v;
                  member = λ m k. ground (arith, has-add_queue n g m k t, h.member m k, e, x, f);
                  size = omega (arith, rw (x, f) at b, h.size);
                },
              )
      ]
    ]

leave-Holds :
    (n g : ℕ) (t : List MsgqRecord) (s : Members)
    → Holds t s
    → ((delete_one n g t).0 ≡ (spec (leave n g) s).0)
      × Holds (delete_one n g t).1 (spec (leave n g) s).1
leave-Holds n g t s h =
    let (a, b) = delete_one-status n g t in
    let e : s.member n g ≡ has_record n g t = sym (h.member n g) in
    let v = delete_one-IsTable n g t h.table in
    elim (Bool-cases (has_record n g t)) [
      | inl y ↦
          rw (e, y)
            (
              rw y at a,
              record {
                table = v;
                member =
                    λ m k. ground (arith, has-delete_one n g m k t h.table.unique, h.member m k);
                size = omega (arith, rw y at b, h.size);
              },
            )
      | inr x ↦
          rw (e, x)
            (
              rw x at a,
              record {
                table = v;
                member = λ m k.
                    ground (arith, has-delete_one n g m k t h.table.unique, h.member m k, e, x);
                size = omega (arith, rw x at b, h.size);
              },
            )
    ]

call-Holds :
    (c : Command) (t : List MsgqRecord) (s : Members)
    → OneGroup c
    → Holds t s
    → ((call c t).0 ≡ (spec c s).0) × Holds (call c t).1 (spec c s).1
unfolding delete_queue
call-Holds (join n g) t s o h = join-Holds n g t s h
call-Holds (leave n g) t s o h = rw o (leave-Holds n g t s h)

-- From a valid table, any sequence of `qdbAddQueue` and of `qdbDeleteQueue` of one group returns what
-- the same sequence returns on a set of at most 64 members, and the table then holds that set.
pub calls_refines :
    (cs : List Command) (t : List MsgqRecord) (s : Members)
    → OneGroups cs
    → Holds t s
    → ((calls cs t).0 ≡ (specs cs s).0) × Holds (calls cs t).1 (specs cs s).1
calls_refines [] t s o h = (refl, h)
calls_refines (c ∷ cs) t s (o, os) h =
    let (e, k) = call-Holds c t s o h in
    let (f, l) = calls_refines cs (call c t).1 (spec c s).1 os k in (ap₂ (λ r rs. r ∷ rs) e f, l)
