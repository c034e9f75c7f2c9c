-- ===== src/Buffers/Init.antt =====
-- radbuffers.c: `radBuffersInit`, which makes the segment: the choice of the sizes, and the headers of
-- the free buffers. Addresses are offsets from the start of the segment.
use radlib.Base.{
  ℕ, zero, suc, ◌+◌, ◌-◌, ◌*◌, ◌%◌, Bool, false, if◌then◌else◌, ◌==◌, ◌||◌, leb, ltb, Option, none,
  some, List, [], ◌∷◌, map,
}
use radlib.Base.Lists.{length}
use radlib.SysDefs.{Status, ok, error, uint_mod, ulong_mod}
use radlib.Buffers.{BfrHdr, BufferShare, max_bfr_sizes, hdr_size, set_header}

-- What the shared memory gives: an existing segment, if there is one and it can be attached, and
-- whether a new one of a size can be made.
pub record Shmem : Type 0 where
  pub existing : Option (Option BufferShare)
  pub make : ℕ → Bool

-- The loop that doubles the starting size, on fuel.
unfoldable pub start_loop : (fuel temp_int size : ℕ) → Option ℕ
start_loop zero temp_int size = none
start_loop (suc fuel) temp_int size =
    let rest = start_loop fuel (temp_int * 2 % ulong_mod) size in
    if ltb temp_int size then rest else some temp_int

-- `sizes`, `offsets` and `numberOfEachSize` at one index.
pub record SizeRow : Type 0 where
  pub size : ℕ
  pub offset : ℕ
  pub number : ℕ

-- The loop over the sizes. `counts` is what is left of `numberOfEachSize`, where a number that is not
-- positive is 0.
unfoldable pub size_loop :
    (rounds size : ℕ) (last_one : Bool) (max_buffer_size : ℕ) → List ℕ → List SizeRow
size_loop zero size last_one max_buffer_size counts = []
size_loop (suc rounds) size last_one max_buffer_size [] = []
size_loop (suc rounds) size last_one max_buffer_size (n ∷ ns) =
    let rest =
      size_loop rounds (size * 2 % ulong_mod) (leb max_buffer_size size || last_one) max_buffer_size
        ns in
    if (n == 0) || last_one
    then []
    else record { size = size; offset = (size + hdr_size) * n % ulong_mod; number = n } ∷ rest

-- The size of the segment, from the size of a `BUFFER_SHARE`.
unfoldable pub segment_size : ℕ → List SizeRow → ℕ
segment_size total [] = total
segment_size total (r ∷ rs) = segment_size ((total + r.offset) % ulong_mod) rs

-- The loop over the buffers of one size, at `temp_int`.
unfoldable pub header_loop : (rounds j number i temp_int size : ℕ) → (ℕ → BfrHdr) → ℕ → BfrHdr
unfolding set_header
header_loop zero j number i temp_int size h = h
header_loop (suc rounds) j number i temp_int size h =
    let hdr : BfrHdr = record {
      next = if j == number - 1 then 0 else (temp_int + (j + 1) * (hdr_size + size)) % uint_mod;
      size_index = i;
      allocated = 0;
    } in
    header_loop rounds (j + 1) number i temp_int size
      (set_header h (temp_int + j * (hdr_size + size)) hdr)

-- `sizes`, `count` and `pool` of the share at one index.
pub record PoolRow : Type 0 where
  pub size : ℕ
  pub number : ℕ
  pub first : ℕ

-- The loop that fills the share.
unfoldable pub fill_loop :
    (i temp_int : ℕ) → List SizeRow → (ℕ → BfrHdr) → List PoolRow × (ℕ → BfrHdr)
unfolding header_loop
fill_loop i temp_int [] h = ([], h)
fill_loop i temp_int (r ∷ rs) h =
    let (ps, g) =
      fill_loop (i + 1) ((temp_int + r.offset) % ulong_mod) rs
        (header_loop r.number 0 r.number i temp_int r.size h) in
    if r.size == 0
    then ([], h)
    else (record { size = r.size; number = r.number; first = temp_int % uint_mod } ∷ ps, g)

-- An array with zeros behind the elements that were set.
abbrev pub pad : ℕ → List ℕ → List ℕ
pad zero xs = []
pad (suc n) [] = 0 ∷ pad n []
pad (suc n) (x ∷ xs) = x ∷ pad n xs

abbrev pub no_header : BfrHdr
no_header = record { next = 0; size_index = 0; allocated = 0 }

-- The share of a new segment, which was cleared.
abbrev pub share_of : (num_sizes : ℕ) → List PoolRow → (ℕ → BfrHdr) → BufferShare
share_of num_sizes ps h = record {
  num_sizes = num_sizes;
  sizes = pad max_bfr_sizes (map (λ p. p.size) ps);
  count = pad max_bfr_sizes (map (λ p. p.number) ps);
  pool = pad max_bfr_sizes (map (λ p. p.first) ps);
  alloc_count = 0;
  headers = h;
}

unfoldable pub fill : (share_size : ℕ) → List SizeRow → BufferShare
unfolding fill_loop
fill share_size rows =
    let (ps, h) = fill_loop 0 share_size rows (λ a. no_header) in share_of (length rows) ps h

-- A new segment, once its starting size is found.
unfoldable pub make_segment :
    Shmem → (share_size size max_buffer_size : ℕ) → List ℕ → Status × Option BufferShare
unfolding size_loop segment_size fill
make_segment shm share_size size max_buffer_size counts =
    let rows = size_loop max_bfr_sizes size false max_buffer_size counts in
    if shm.make (segment_size share_size rows)
    then (ok, some (fill share_size rows))
    else (error, none)

-- `radBuffersInit`, for sizes that are not negative; `share_size` is the size of a `BUFFER_SHARE`.
unfoldable pub init :
    Shmem
    → (fuel share_size min_buffer_size max_buffer_size : ℕ) → List ℕ
    → Option (Status × Option BufferShare)
unfolding start_loop make_segment
init shm fuel share_size min_buffer_size max_buffer_size counts =
    let created : Option (Status × Option BufferShare) =
      if max_buffer_size == 0
      then some (error, none)
      else elim (start_loop fuel 16 min_buffer_size) [
        | none ↦ none
        | some size ↦ some (make_segment shm share_size size max_buffer_size counts)
      ] in
    elim shm.existing [
      | some (some s) ↦ some (ok, some s)
      | some none ↦ some (error, none)
      | none ↦ created
    ]
