-- ===== src/Buffers/Tests.antt =====
-- radbuffers.c: a segment with two sizes, 16 and 64 bytes; of the small buffers one is free, of the
-- large ones two are.
use mathlib.Core.Path.{subst}
use radlib.Base.{
  ℕ, true, none, inr, if◌then◌else◌, ◌==◌, zero, suc, ◌+◌, ◌<◌, ◌≤◌, ◌≢◌, ◌≡◌, refl, some, List, [],
  ◌∷◌, arith,
}
use radlib.Base.Lists.{get_or, length, replicate}
use radlib.SysDefs.{ok}
use radlib.Buffers.{BfrHdr, BufferShare, get, get_loop, fit_loop, take_head, set_header, rls}
use radlib.Buffers.Free.{FreeList, Frees, IsValid}
use radlib.Buffers.Get.{Got, get-Got}
use radlib.Buffers.Release.{Released, rls-Released, get-rls}
use radlib.Buffers.Init.{Shmem, init}
use radlib.Buffers.Start.{IsStart}
use radlib.Buffers.Layout.{wanted}
use radlib.Buffers.Fresh.{Fresh, init-Fresh}

abbrev headers : ℕ → BfrHdr
headers p =
    if p == 100
    then record { next = 0; size_index = 0; allocated = 0 }
    else if p == 148
    then record { next = 220; size_index = 1; allocated = 0 }
    else if p == 220
    then record { next = 0; size_index = 1; allocated = 0 }
    else record { next = 0; size_index = 0; allocated = if p == 124 then 1 else 0 }

abbrev unused : List ℕ
unused = replicate 8 0

abbrev segment : BufferShare
segment = record {
  num_sizes = 2;
  sizes = 16 ∷ 64 ∷ unused;
  count = 2 ∷ 2 ∷ unused;
  pool = 100 ∷ 148 ∷ unused;
  alloc_count = 1;
  headers = headers;
}

abbrev frees : Frees
frees zero = 100 ∷ []
frees (suc zero) = 148 ∷ 220 ∷ []
frees (suc (suc i)) = []

get_or-unused : (n i : ℕ) → get_or {A = ℕ} (replicate n 0) i 0 ≡ 0
get_or-unused zero i = refl
get_or-unused (suc n) zero = refl
get_or-unused (suc n) (suc i) = get_or-unused n i

segment-lists : (i : ℕ) → FreeList headers i (get_or segment.pool i 0) (frees i)
segment-lists zero = (refl, omega arith, refl, refl, refl, refl)
segment-lists (suc zero) =
    (refl, omega arith, refl, refl, refl, (refl, omega arith, refl, refl, refl, refl))
segment-lists (suc (suc i)) = get_or-unused 8 i

segment-end : (i : ℕ) → get_or segment.sizes (suc (suc i) + 1) 0 ≡ 0
segment-end i =
    let e : suc (suc (suc i)) ≡ suc (suc i) + 1 = omega arith in
    subst (λ j. get_or segment.sizes j 0 ≡ 0) e (get_or-unused 8 (suc i))

segment-ascending :
    (i : ℕ)
    → get_or segment.sizes (i + 1) 0 ≢ 0
    → (get_or segment.sizes i 0 ≢ 0) × (get_or segment.sizes i 0 ≤ get_or segment.sizes (i + 1) 0)
segment-ascending zero h = (omega arith, omega arith)
segment-ascending (suc zero) h = ground (arith, h refl)
segment-ascending (suc (suc i)) h = ground (arith, segment-end i)

segment-IsValid : IsValid segment frees
segment-IsValid = record {
  sizes_length = refl;
  pool_length = refl;
  ascending = segment-ascending;
  lists = λ i b. segment-lists i;
}

frees-short : (i : ℕ) → length (frees i) < 3
frees-short zero = omega arith
frees-short (suc zero) = omega arith
frees-short (suc (suc i)) = omega arith

get-Got_example : Got segment frees 20 (get segment 20)
get-Got_example = get-Got segment frees 20 segment-IsValid

rls-Released_example : Released segment frees 132 (rls segment 132)
rls-Released_example = rls-Released segment frees 132 segment-IsValid (omega arith) (omega arith)

-- What is left when a buffer for 20 bytes is taken.
abbrev taken : BufferShare
unfolding get get_loop fit_loop take_head set_header
taken = (get segment 20).1

get-rls_example : ((rls taken 156).0 ≡ ok) × IsValid (rls taken 156).1 frees
unfolding get get_loop fit_loop take_head set_header
get-rls_example = get-rls segment taken frees 20 156 segment-IsValid refl

abbrev roomy : Shmem
roomy = record { existing = none; make = λ n. true }

-- Two buffers of 32 bytes and one of 64; the numbers behind the biggest size are not used.
abbrev counts : List ℕ
counts = 2 ∷ 1 ∷ 3 ∷ 0 ∷ []

thirty_two-IsStart : IsStart 1 20 32
thirty_two-IsStart = record { value = refl; enough = omega arith; least = inr (omega arith) }

init-Fresh_example :
    (s : BufferShare) × (init roomy 2 176 20 64 counts ≡ some (ok, some s))
    × Fresh 176 (wanted 10 32 64 counts) s
init-Fresh_example =
    init-Fresh roomy 1 2 176 20 64 32 counts refl (omega arith) thirty_two-IsStart (omega arith)
      (omega arith) (omega arith) (omega arith) refl
