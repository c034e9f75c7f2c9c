-- ===== src/Buffers.antt =====
-- src/radbuffers.c and h/radbuffers.h: buffers of fixed sizes in one shared memory segment, with a
-- free list for each size. An address is an offset from the start of the segment; the segment's
-- lock is held by each call for as long as it works on the lists, so a call is one step.
pub mod Init
pub mod Start
pub mod Layout
pub mod Fresh
pub mod Free
pub mod Get
pub mod Release
pub mod Count
mod Tests
use radlib.Base.{
  ℕ, zero, suc, ◌+◌, ◌-◌, ◌%◌, ◌*◌, Bool, if◌then◌else◌, ◌==◌, leb, ltb, not, ◌&&◌, Option, none,
  some, List, [], ◌∷◌,
}
use radlib.Base.Lists.{get_or, set}
use radlib.SysDefs.{Status, ok, error, uint_mod, ulong_mod}

abbrev pub max_bfr_sizes : ℕ
max_bfr_sizes = 10

-- `BFR_HDR`, 8 bytes packed.
pub record BfrHdr : Type 0 where
  pub next : ℕ
  pub size_index : ℕ
  pub allocated : ℕ

abbrev pub hdr_size : ℕ
hdr_size = 8

-- `BUFFER_SHARE`, with the headers that the segment holds behind it.
pub record BufferShare : Type 0 where
  pub num_sizes : ℕ
  pub sizes : List ℕ
  pub count : List ℕ
  pub pool : List ℕ
  pub alloc_count : ℕ
  pub headers : ℕ → BfrHdr

unfoldable pub set_header : (ℕ → BfrHdr) → ℕ → BfrHdr → ℕ → BfrHdr
set_header h p v a = if a == p then v else h a

-- The first index, from `index` on, whose buffers hold `size` bytes; `index + rounds` if none does.
unfoldable pub fit_loop : (rounds index : ℕ) → List ℕ → ℕ → ℕ
fit_loop zero index sizes size = index
fit_loop (suc rounds) index sizes size =
    let rest = fit_loop rounds (index + 1) sizes size in
    if leb size (get_or sizes index 0) then index else rest

-- The pool at `index` gives its first buffer away. The address behind the header is returned.
unfoldable pub take_head : BufferShare → ℕ → Option ℕ × BufferShare
unfolding set_header
take_head s index =
    let p = get_or s.pool index 0 in
    let hdr = s.headers p in
    (
      some (p + hdr_size),
      record s {
        pool = set s.pool index hdr.next;
        alloc_count = (s.alloc_count + 1) % uint_mod;
        headers = set_header s.headers p (record hdr { allocated = 1 });
      },
    )

-- The second loop of `radBufferGet`: the best fit, or the next bigger size that has a buffer.
unfoldable pub get_loop : (rounds index : ℕ) → BufferShare → Option ℕ × BufferShare
unfolding take_head
get_loop zero index s = (none, s)
get_loop (suc rounds) index s =
    let rest = get_loop rounds (index + 1) s in
    if get_or s.sizes index 0 == 0
    then (none, s)
    else if get_or s.pool index 0 == 0
    then rest
    else if not ((s.headers (get_or s.pool index 0)).allocated == 0)
    then rest
    else take_head s index

-- `radBufferGet`. `size` is the `int` as the comparison with an unsigned size converts it.
unfoldable pub get : BufferShare → ℕ → Option ℕ × BufferShare
unfolding fit_loop get_loop
get s size =
    let index = fit_loop max_bfr_sizes 0 s.sizes size in
    if leb max_bfr_sizes index then (none, s) else get_loop (max_bfr_sizes - index) index s

unfoldable pub rls : BufferShare → ℕ → Status × BufferShare
unfolding set_header
rls s buffer =
    let p = buffer - hdr_size in
    let hdr = s.headers p in
    if not (hdr.allocated == 1) then (error, s) else (
      ok,
      record s {
        pool = set s.pool hdr.size_index p;
        headers =
            set_header s.headers p
              (record hdr { allocated = 0; next = get_or s.pool hdr.size_index 0 });
      },
    )

-- `radBufferGetSizeAvail`: the walk along a free list, on fuel.
unfoldable pub avail_loop : ℕ → BufferShare → (hdr count : ℕ) → Option ℕ
avail_loop zero s hdr count = none
avail_loop (suc fuel) s hdr count =
    let rest = avail_loop fuel s (s.headers hdr).next ((count + 1) % uint_mod) in
    if (s.headers hdr).next == 0 then some count else rest

unfoldable pub get_size_avail : ℕ → BufferShare → ℕ → Option ℕ
unfolding avail_loop
get_size_avail fuel s index =
    if get_or s.pool index 0 == 0 then some 0 else avail_loop fuel s (get_or s.pool index 0) 1

unfoldable pub total_loop : (rounds i : ℕ) → BufferShare → ℕ → ℕ
total_loop zero i s sum = sum
total_loop (suc rounds) i s sum =
    total_loop rounds (i + 1) s ((sum + get_or s.count i 0) % uint_mod)

unfoldable pub get_total : BufferShare → ℕ
unfolding total_loop
get_total s = total_loop s.num_sizes 0 s 0

unfoldable pub available_loop : (rounds : ℕ) → ℕ → (i : ℕ) → BufferShare → ℕ → Option ℕ
unfolding get_size_avail
available_loop zero fuel i s sum = some sum
available_loop (suc rounds) fuel i s sum = elim (get_size_avail fuel s i) [
  | none ↦ none
  | some n ↦ available_loop rounds fuel (i + 1) s ((sum + n) % uint_mod)
]

unfoldable pub get_available : ℕ → BufferShare → Option ℕ
unfolding available_loop
get_available fuel s = available_loop s.num_sizes fuel 0 s 0
