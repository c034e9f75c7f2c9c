-- ===== src/Buffers/Fresh.antt =====
-- radbuffers.c: a segment that `radBuffersInit` made.
use mathlib.Core.Path.{subst}
use radlib.Base.{
  ℕ, zero, suc, ◌+◌, ◌*◌, ◌%◌, ◌<◌, ◌≤◌, ◌≡◌, ◌≢◌, refl, ap, sym, ◌∙◌, inl, inr, true, false, ◌==◌,
  leb, none, some, List, [], ◌∷◌, map, arith, Bool-cases, ==_ne,
}
use radlib.Base.Lists.{length, get_or}
use radlib.SysDefs.{ok, uint_mod, ulong_mod}
use radlib.Buffers.{
  BfrHdr, BufferShare, max_bfr_sizes, hdr_size, get_total, total_loop, get_available,
}
use radlib.Buffers.Init.{
  Shmem, PoolRow, size_loop, segment_size, fill_loop, pad, no_header, share_of, fill, make_segment,
  init,
}
use radlib.Buffers.Free.{FreeList, Frees, IsValid}
use radlib.Buffers.Count.{total_free, get_available-total}
use radlib.Buffers.Start.{doubled_grows, IsStart, start_loop-IsStart}
use radlib.Buffers.Layout.{
  addresses, length-addresses, Laid, wanted, bytes, row_of, pool_of, size_loop-wanted, Positive,
  wanted-Positive, fill_loop-Filled,
}

-- The segment for the wanted sizes `ws`: a row for each, their buffers one behind the other and free,
-- from the end of the share to the end of the segment.
abbrev pub free_of : List PoolRow → Frees
free_of ps j = get_or (map (λ p. addresses p.number p.first (hdr_size + p.size)) ps) j []

pub record Fresh (share_size : ℕ) (ws : List (ℕ × ℕ)) (s : BufferShare) : Type 0 where
  pub valid : IsValid s (free_of (pool_of share_size ws))
  pub laid : Laid s.headers 0 share_size (pool_of share_size ws) (share_size + bytes ws)
  pub rows : s.num_sizes ≡ length ws
  pub counted : (j : ℕ) → length (free_of (pool_of share_size ws) j) ≡ get_or s.count j 0
  pub size_of : (j : ℕ) → get_or s.sizes j 0 ≡ get_or (map (λ w. w.0) ws) j 0
  pub unallocated : s.alloc_count ≡ 0

length-pad : (n : ℕ) (xs : List ℕ) → length (pad n xs) ≡ n
length-pad zero xs = refl
length-pad (suc n) [] = ap suc (length-pad n [])
length-pad (suc n) (x ∷ xs) = ap suc (length-pad n xs)

get_or-pad : (n : ℕ) (xs : List ℕ) (j : ℕ) → length xs ≤ n → get_or (pad n xs) j 0 ≡ get_or xs j 0
get_or-pad zero [] j h = refl
get_or-pad zero (x ∷ xs) j h = absurd (omega arith)
get_or-pad (suc n) [] zero h = refl
get_or-pad (suc n) [] (suc j) h = get_or-pad n [] j (omega arith)
get_or-pad (suc n) (x ∷ xs) zero h = refl
get_or-pad (suc n) (x ∷ xs) (suc j) h = get_or-pad n xs j (omega arith)

length-wanted : (rounds size max : ℕ) (ns : List ℕ) → length (wanted rounds size max ns) ≤ rounds
length-wanted zero size max ns = omega arith
length-wanted (suc rounds) size max [] = omega arith
length-wanted (suc rounds) size max (n ∷ ns) = elim (Bool-cases (n == 0)) [
  | inl y ↦ rw y (omega arith)
  | inr x ↦ elim (Bool-cases (leb max size)) [
    | inl l ↦ rw (x, l) (omega arith)
    | inr g ↦ rw (x, g) (omega (arith, length-wanted rounds (size * 2) max ns))
  ]
]

abbrev sizes_of : List (ℕ × ℕ) → List ℕ
sizes_of ws = map (λ w. w.0) ws

-- Ascending from `low`, without a zero.
abbrev Ascends : (low : ℕ) → List ℕ → Type 0
Ascends low [] = Unit
Ascends low (x ∷ xs) = (low ≤ x) × (x ≢ 0) × Ascends x xs

wanted-Ascends :
    (rounds size max : ℕ) (ns : List ℕ) (low : ℕ)
    → low ≤ size
    → size ≢ 0
    → Ascends low (sizes_of (wanted rounds size max ns))
wanted-Ascends zero size max ns low l z = tt
wanted-Ascends (suc rounds) size max [] low l z = tt
wanted-Ascends (suc rounds) size max (n ∷ ns) low l z = elim (Bool-cases (n == 0)) [
  | inl y ↦ rw y tt
  | inr x ↦ elim (Bool-cases (leb max size)) [
    | inl m ↦ rw (x, m) (l, z, tt)
    | inr g ↦
        rw (x, g) (l, z, wanted-Ascends rounds (size * 2) max ns size (omega arith) (omega arith))
  ]
]

get_or-Ascends :
    (low : ℕ) (xs : List ℕ) (i : ℕ)
    → Ascends low xs
    → get_or xs (suc i) 0 ≢ 0
    → (get_or xs i 0 ≢ 0) × (get_or xs i 0 ≤ get_or xs (suc i) 0)
get_or-Ascends low [] i a h = absurd (h refl)
get_or-Ascends low (x ∷ []) i a h = absurd (h refl)
get_or-Ascends low (x ∷ y ∷ xs) zero (l, z, m) h = (z, m.0)
get_or-Ascends low (x ∷ y ∷ xs) (suc i) (l, z, a) h = get_or-Ascends x (y ∷ xs) i a h

get_or-Ascends_next :
    (low : ℕ) (xs : List ℕ) (i : ℕ)
    → Ascends low xs
    → get_or xs (i + 1) 0 ≢ 0
    → (get_or xs i 0 ≢ 0) × (get_or xs i 0 ≤ get_or xs (i + 1) 0)
get_or-Ascends_next low xs i a =
    let e : suc i ≡ i + 1 = omega arith in
    subst (λ j. get_or xs j 0 ≢ 0 → (get_or xs i 0 ≢ 0) × (get_or xs i 0 ≤ get_or xs j 0)) e
      (get_or-Ascends low xs i a)

length-pool_of : (t : ℕ) (ws : List (ℕ × ℕ)) → length (pool_of t ws) ≡ length ws
length-pool_of t [] = refl
length-pool_of t (w ∷ ws) = ap suc (length-pool_of (t + (w.0 + hdr_size) * w.1) ws)

module _ {A B : Type 0} (f : A → B) where
  length-map : (ps : List A) → length (map f ps) ≡ length ps
  length-map [] = refl
  length-map (p ∷ ps) = ap suc (length-map ps)

sizes_of-pool_of : (t : ℕ) (ws : List (ℕ × ℕ)) → map (λ p. p.size) (pool_of t ws) ≡ sizes_of ws
sizes_of-pool_of t [] = refl
sizes_of-pool_of t ((size, n) ∷ ws) =
    ap (λ xs. size ∷ xs) (sizes_of-pool_of (t + (size + hdr_size) * n) ws)

Laid-lists :
    (h : ℕ → BfrHdr) (i t end : ℕ) (ps : List PoolRow) (j : ℕ)
    → Laid h i t ps end
    → FreeList h (i + j) (get_or (map (λ p. p.first) ps) j 0) (free_of ps j)
Laid-lists h i t end [] j l = refl
Laid-lists h i t end (p ∷ ps) zero (e, l, ls) =
    let k : i ≡ i + 0 = omega arith in
    subst (λ x. FreeList h x p.first (addresses p.number p.first (hdr_size + p.size))) k
      (subst (λ x. FreeList h i p.first (addresses p.number x (hdr_size + p.size))) (sym e) l)
Laid-lists h i t end (p ∷ ps) (suc j) (e, l, ls) =
    let k : i + 1 + j ≡ i + suc j = omega arith in
    subst (λ x. FreeList h x (get_or (map (λ p. p.first) ps) j 0) (free_of ps j)) k
      (Laid-lists h (i + 1) _ end ps j ls)

counted_of :
    (ps : List PoolRow) (j : ℕ) → length (free_of ps j) ≡ get_or (map (λ p. p.number) ps) j 0
counted_of [] j = refl
counted_of (p ∷ ps) zero = length-addresses p.number p.first (hdr_size + p.size)
counted_of (p ∷ ps) (suc j) = counted_of ps j

segment_size-bytes :
    (total : ℕ) (ws : List (ℕ × ℕ))
    → total + bytes ws < uint_mod
    → segment_size total (map row_of ws) ≡ total + bytes ws
unfolding segment_size
segment_size-bytes total [] h = omega arith
segment_size-bytes total ((size, n) ∷ ws) h =
    let f : (total + (size + hdr_size) * n) % ulong_mod ≡ total + (size + hdr_size) * n =
      omega (arith, h) in
    rw (segment_size, f)
      (segment_size-bytes (total + (size + hdr_size) * n) ws (omega (arith, h)) ∙ (omega arith))

share_of-Fresh :
    (share_size : ℕ) (ws : List (ℕ × ℕ)) (h : ℕ → BfrHdr)
    → Laid h 0 share_size (pool_of share_size ws) (share_size + bytes ws)
    → length ws ≤ max_bfr_sizes
    → Ascends 0 (sizes_of ws)
    → Fresh share_size ws (share_of (length ws) (pool_of share_size ws) h)
share_of-Fresh share_size ws h l r a =
    let ps = pool_of share_size ws in
    let short : (f : PoolRow → ℕ) → length (map f ps) ≤ max_bfr_sizes =
      λ f. omega (arith, length-map f ps, length-pool_of share_size ws, r) in
    let size_at : (j : ℕ)
        → get_or (pad max_bfr_sizes (map (λ p. p.size) ps)) j 0 ≡ get_or (sizes_of ws) j 0 =
      λ j.
        get_or-pad max_bfr_sizes (map (λ p. p.size) ps) j (short (λ p. p.size))
        ∙ ap (λ xs. get_or xs j 0) (sizes_of-pool_of share_size ws) in
    record {
      valid = record {
        sizes_length = length-pad max_bfr_sizes (map (λ p. p.size) ps);
        pool_length = length-pad max_bfr_sizes (map (λ p. p.first) ps);
        ascending = λ i. rw (size_at i, size_at (i + 1)) (get_or-Ascends_next 0 (sizes_of ws) i a);
        lists = λ i b.
            rw (get_or-pad max_bfr_sizes (map (λ p. p.first) ps) i (short (λ p. p.first))) (
              subst (λ x. FreeList h x (get_or (map (λ p. p.first) ps) i 0) (free_of ps i))
                (omega arith) (Laid-lists h 0 share_size (share_size + bytes ws) ps i l));
      };
      laid = l;
      rows = refl;
      counted = λ j.
          counted_of ps j
          ∙ sym (get_or-pad max_bfr_sizes (map (λ p. p.number) ps) j (short (λ p. p.number)));
      size_of = size_at;
      unallocated = refl;
    }

fill-Fresh :
    (share_size : ℕ) (ws : List (ℕ × ℕ))
    → Positive ws
    → 0 < share_size
    → share_size + bytes ws < uint_mod
    → length ws ≤ max_bfr_sizes
    → Ascends 0 (sizes_of ws)
    → Fresh share_size ws (fill share_size (map row_of ws))
unfolding fill
fill-Fresh share_size ws v z b r a =
    let made = fill_loop 0 share_size (map row_of ws) (λ a. no_header) in
    let (e, l, f) = fill_loop-Filled 0 share_size ws (λ a. no_header) v z b in
    subst (λ n. Fresh share_size ws (share_of n made.0 made.1)) (sym (length-map row_of ws))
      (subst (λ ps. Fresh share_size ws (share_of (length ws) ps made.1)) (sym e)
        (share_of-Fresh share_size ws made.1 l r a))

-- Where no segment exists yet, the starting size doubles `k` times, the segment is smaller than 4 GB
-- and the shared memory for it can be made, `radBuffersInit` returns OK with a valid segment. The
-- sizes start with the starting size and double up to the first that is as big as the biggest one
-- asked for, at most ten of them and only as long as their numbers are positive. The buffers are all
-- free, as many of each size as asked for, and lie one behind the other without a gap, from the end of
-- the share to the end of the segment.
pub init-Fresh :
    (shm : Shmem) (k fuel share_size min max start : ℕ) (counts : List ℕ)
    → shm.existing ≡ none
    → max ≢ 0
    → IsStart k min start
    → k < fuel
    → 0 < share_size
    → start < uint_mod
    → share_size + bytes (wanted max_bfr_sizes start max counts) < uint_mod
    → shm.make (share_size + bytes (wanted max_bfr_sizes start max counts)) ≡ true
    → (s : BufferShare) × (init shm fuel share_size min max counts ≡ some (ok, some s))
      × Fresh share_size (wanted max_bfr_sizes start max counts) s
unfolding init make_segment
init-Fresh shm k fuel share_size min max start counts x m i f z u b y =
    let ws = wanted max_bfr_sizes start max counts in
    let ne : start ≢ 0 = omega (arith, i.value, doubled_grows k 16) in
    let rows : size_loop max_bfr_sizes start false max counts ≡ map row_of ws =
      let w : start % ulong_mod ≡ start = omega arith in
      subst (λ x. size_loop max_bfr_sizes x false max counts ≡ map row_of ws) w
        (size_loop-wanted max_bfr_sizes start max counts (omega (arith, b))) in
    let sized = segment_size-bytes share_size ws b in
    (
      fill share_size (map row_of ws),
      rw (x, ==_ne max 0 m, start_loop-IsStart k fuel min start i f (omega arith), rows, sized, y)
          refl,
      fill-Fresh share_size ws (wanted-Positive max_bfr_sizes start max counts ne) z b
          (length-wanted max_bfr_sizes start max counts)
          (wanted-Ascends max_bfr_sizes start max counts 0 (omega arith) ne),
    )

total_loop-total :
    (s : BufferShare) (fs : Frees) (rounds i sum : ℕ)
    → ((j : ℕ) → length (fs j) ≡ get_or s.count j 0)
    → sum < uint_mod
    → total_loop rounds i s sum ≡ (sum + total_free rounds i fs) % uint_mod
unfolding total_loop
total_loop-total s fs zero i sum c h = omega arith
total_loop-total s fs (suc rounds) i sum c h =
    total_loop-total s fs rounds (i + 1) ((sum + get_or s.count i 0) % uint_mod) c (omega arith)
    ∙ (omega (arith, c i))

-- In such a segment with at most ten sizes, `radBuffersGetAvailable` returns what `radBuffersGetTotal`
-- returns, if the fuel is above the number of buffers of each size.
pub get_available-get_total :
    (fuel share_size : ℕ) (ws : List (ℕ × ℕ)) (s : BufferShare)
    → Fresh share_size ws s
    → length ws ≤ max_bfr_sizes
    → ((j : ℕ) → get_or s.count j 0 < fuel)
    → get_available fuel s ≡ some (get_total s)
unfolding get_total
get_available-get_total fuel share_size ws s f r b =
    let fs = free_of (pool_of share_size ws) in
    get_available-total s fs f.valid fuel (omega (arith, f.rows, r)) (λ j l. rw (f.counted j) (b j))
    ∙ ap some (omega (arith, total_loop-total s fs s.num_sizes 0 0 f.counted (omega arith)))
