-- ===== src/Buffers/Layout.antt =====
-- radbuffers.c: the buffers of a new segment, one behind the other.
use mathlib.Core.Path.{subst}
use radlib.Base.{
  ℕ, zero, suc, ◌+◌, ◌-◌, ◌*◌, ◌%◌, ◌<◌, ◌≤◌, ◌≡◌, ◌≢◌, refl, ap, sym, ◌∙◌, true, false,
  if◌then◌else◌, ◌==◌, List, [], ◌∷◌, map, leb, ltb, arith, Bool-cases, inl, inr, ==_ne, ==_self,
  ne_of_==,
}
use radlib.Base.Lists.{length, has}
use radlib.SysDefs.{uint_mod, ulong_mod}
use radlib.Buffers.{BfrHdr, hdr_size, set_header}
use radlib.Buffers.Init.{header_loop, SizeRow, PoolRow, size_loop, fill_loop}
use radlib.Buffers.Free.{FreeList, FreeList-frame}

-- The addresses of `n` buffers that take `step` bytes each.
abbrev pub addresses : (n p step : ℕ) → List ℕ
addresses zero p step = []
addresses (suc n) p step = p ∷ addresses n (p + step) step

pub length-addresses : (n p step : ℕ) → length (addresses n p step) ≡ n
length-addresses zero p step = refl
length-addresses (suc n) p step = ap suc (length-addresses n (p + step) step)

pub has-addresses_below : (n a p step : ℕ) → a < p → has a (addresses n p step) ≡ false
has-addresses_below zero a p step h = refl
has-addresses_below (suc n) a p step h =
    ground (arith, has-addresses_below n a (p + step) step (omega arith))

pub has-addresses_beyond :
    (n a p step : ℕ) → p + n * step ≤ a → 0 < step → has a (addresses n p step) ≡ false
has-addresses_beyond zero a p step h z = refl
has-addresses_beyond (suc n) a p step h z =
    let d : suc n * step ≡ step + n * step = omega arith in
    ground (arith, d, has-addresses_beyond n a (p + step) step (omega (arith, d)) z)

next_place : (j step : ℕ) → (j + 1) * step ≡ j * step + step
next_place j step = omega arith

module _ (number i temp size : ℕ) where
  pub header_loop-frame :
      (rounds j : ℕ) (h : ℕ → BfrHdr) (a : ℕ)
      → a < temp + j * (hdr_size + size)
      → header_loop rounds j number i temp size h a ≡ h a
  unfolding header_loop set_header
  header_loop-frame zero j h a l = refl
  header_loop-frame (suc rounds) j h a l =
      let e = next_place j (hdr_size + size) in
      header_loop-frame rounds (j + 1) _ a (omega (arith, e))
      ∙ rw (==_ne a (temp + j * (hdr_size + size)) (omega arith)) refl

  pub header_loop-FreeList :
      (rounds j : ℕ) (h : ℕ → BfrHdr)
      → j + rounds ≡ number
      → 0 < temp
      → temp + number * (hdr_size + size) < uint_mod
      → FreeList
          (header_loop rounds j number i temp size h)
          i
          (if rounds == 0 then 0 else temp + j * (hdr_size + size))
          (addresses rounds (temp + j * (hdr_size + size)) (hdr_size + size))
  unfolding header_loop set_header
  header_loop-FreeList zero j h e z b = refl
  header_loop-FreeList (suc rounds) j h e z b =
      let step = hdr_size + size in
      let p = temp + j * step in
      let after : BfrHdr = record {
        next = if j == number - 1 then 0 else (temp + (j + 1) * step) % uint_mod;
        size_index = i;
        allocated = 0;
      } in
      let f = header_loop rounds (j + 1) number i temp size (set_header h p after) in
      let k = next_place j step in
      let q : number * step ≡ (j + 1) * step + rounds * step =
        sym (ap (λ n. n * step) e) ∙ (omega arith) in
      let fits : (temp + (j + 1) * step) % uint_mod ≡ temp + (j + 1) * step = omega (arith, b, q) in
      let own : f p ≡ after =
        header_loop-frame rounds (j + 1) (set_header h p after) p (omega (arith, k))
        ∙ rw (==_self p) refl in
      let link : (f p).next ≡ (if rounds == 0 then 0 else temp + (j + 1) * step) =
        rw (own, fits) (ground (arith, e)) in
      let rest : FreeList f i (f p).next (addresses rounds (temp + (j + 1) * step) step) =
        rw link
          (header_loop-FreeList rounds (j + 1) (set_header h p after) (omega (arith, e)) z b) in
      (
        rw (==_ne (suc rounds) 0 (omega arith)) refl,
        omega arith,
        rw own refl,
        rw own refl,
        has-addresses_below rounds p (p + step) step (omega arith),
        subst (λ x. FreeList f i (f p).next (addresses rounds x step)) (omega arith) rest,
      )

-- From the index `i` and the offset `temp`, each pool has its buffers one behind the other, and the
-- next pool follows; the last one ends at `end`.
abbrev pub Laid : (ℕ → BfrHdr) → (i temp : ℕ) → List PoolRow → (end : ℕ) → Type 0
Laid h i temp [] end = temp ≡ end
Laid h i temp (p ∷ ps) end =
    (p.first ≡ temp)
    × FreeList h i p.first (addresses p.number temp (hdr_size + p.size))
    × Laid h (i + 1) (temp + (p.size + hdr_size) * p.number) ps end

-- The sizes that are wanted, with their numbers: they double up to the first that is big enough.
abbrev pub wanted : (rounds size max : ℕ) → List ℕ → List (ℕ × ℕ)
wanted zero size max ns = []
wanted (suc rounds) size max [] = []
wanted (suc rounds) size max (n ∷ ns) =
    let rest = wanted rounds (size * 2) max ns in
    if n == 0 then [] else (size, n) ∷ (if leb max size then [] else rest)

-- The bytes that they take.
abbrev pub bytes : List (ℕ × ℕ) → ℕ
bytes [] = 0
bytes ((size, n) ∷ ws) = (size + hdr_size) * n + bytes ws

abbrev pub row_of : ℕ × ℕ → SizeRow
row_of (size, n) = record { size = size; offset = (size + hdr_size) * n; number = n }

abbrev pub pool_of : (temp : ℕ) → List (ℕ × ℕ) → List PoolRow
pool_of temp [] = []
pool_of temp ((size, n) ∷ ws) =
    record { size = size; number = n; first = temp } ∷ pool_of (temp + (size + hdr_size) * n) ws

positive_part : (n a : ℕ) → n ≢ 0 → a ≤ a * n
positive_part zero a h = absurd (h refl)
positive_part (suc n) a h = omega arith

size_loop-last : (rounds size max : ℕ) (ns : List ℕ) → size_loop rounds size true max ns ≡ []
unfolding size_loop
size_loop-last zero size max ns = refl
size_loop-last (suc rounds) size max [] = refl
size_loop-last (suc rounds) size max (n ∷ ns) = elim (Bool-cases (n == 0)) [
  | inl y ↦ rw y refl
  | inr x ↦ rw x refl
]

-- Where the segment's offsets fit in a UINT, no size wraps around.
pub size_loop-wanted :
    (rounds size max : ℕ) (ns : List ℕ)
    → bytes (wanted rounds size max ns) < uint_mod
    → size_loop rounds (size % ulong_mod) false max ns ≡ map row_of (wanted rounds size max ns)
unfolding size_loop
size_loop-wanted zero size max ns h = refl
size_loop-wanted (suc rounds) size max [] h = refl
size_loop-wanted (suc rounds) size max (n ∷ ns) h = elim (Bool-cases (n == 0)) [
  | inl y ↦ rw y refl
  | inr x ↦
      let b : bytes ((size, n) ∷ (if leb max size then [] else wanted rounds (size * 2) max ns))
          < uint_mod =
        rw x at h in
      let one = positive_part n (size + hdr_size) (ne_of_== n 0 x) in
      let f : size % ulong_mod ≡ size = omega (arith, b, one) in
      let o : (size + hdr_size) * n % ulong_mod ≡ (size + hdr_size) * n = omega (arith, b) in
      elim (Bool-cases (leb max size)) [
        | inl l ↦ rw (x, f, o, l, size_loop-last rounds (size * 2 % ulong_mod) max ns) refl
        | inr g ↦
            let c : (size + hdr_size) * n + bytes (wanted rounds (size * 2) max ns) < uint_mod =
              rw g at b in
            rw (x, f, o, g, size_loop-wanted rounds (size * 2) max ns (omega arith)) refl
      ]
]

abbrev pub Positive : List (ℕ × ℕ) → Type 0
Positive [] = Unit
Positive ((size, n) ∷ ws) = (size ≢ 0) × (n ≢ 0) × Positive ws

pub wanted-Positive :
    (rounds size max : ℕ) (ns : List ℕ) → size ≢ 0 → Positive (wanted rounds size max ns)
wanted-Positive zero size max ns h = tt
wanted-Positive (suc rounds) size max [] h = tt
wanted-Positive (suc rounds) size max (n ∷ ns) h = elim (Bool-cases (n == 0)) [
  | inl y ↦ rw y tt
  | inr x ↦ elim (Bool-cases (leb max size)) [
    | inl l ↦ rw (x, l) (h, ne_of_== n 0 x, tt)
    | inr g ↦ rw (x, g) (h, ne_of_== n 0 x, wanted-Positive rounds (size * 2) max ns (omega arith))
  ]
]

-- What the loop over the sizes makes.
abbrev pub Filled :
    (ℕ → BfrHdr) → (i temp : ℕ) → List (ℕ × ℕ) → List PoolRow × (ℕ → BfrHdr) → Type 0
Filled h i temp ws (ps, g) =
    (ps ≡ pool_of temp ws)
    × Laid g i temp (pool_of temp ws) (temp + bytes ws)
    × ((a : ℕ) → a < temp → g a ≡ h a)

below_end : (n a p step : ℕ) → 0 < step → has a (addresses n p step) ≡ true → a < p + n * step
below_end n a p step z h = elim (Bool-cases (ltb a (p + n * step))) [
  | inl y ↦ ground (arith, y)
  | inr x ↦ ground (arith, x, h, has-addresses_beyond n a p step)
]

header_list :
    (n i temp size : ℕ) (h : ℕ → BfrHdr)
    → n ≢ 0
    → 0 < temp
    → temp + (size + hdr_size) * n < uint_mod
    → FreeList (header_loop n 0 n i temp size h) i temp (addresses n temp (hdr_size + size))
header_list n i temp size h w z b =
    let step = hdr_size + size in
    let f = header_loop n 0 n i temp size h in
    let l = header_loop-FreeList n i temp size n 0 h (omega arith) z (omega (arith, b)) in
    let e : temp + 0 * step ≡ temp = omega arith in
    let m : FreeList f i (temp + 0 * step) (addresses n (temp + 0 * step) step) =
      rw (==_ne n 0 w) at l in
    subst (λ x. FreeList f i x (addresses n x step)) e m

pub fill_loop-Filled :
    (i temp : ℕ) (ws : List (ℕ × ℕ)) (h : ℕ → BfrHdr)
    → Positive ws
    → 0 < temp
    → temp + bytes ws < uint_mod
    → Filled h i temp ws (fill_loop i temp (map row_of ws) h)
unfolding fill_loop
fill_loop-Filled i temp [] h v z b = (refl, omega arith, λ a l. refl)
fill_loop-Filled i temp ((size, n) ∷ ws) h (v, w, vs) z b =
    let h1 = header_loop n 0 n i temp size h in
    let off = (size + hdr_size) * n in
    let wrap : (temp + off) % ulong_mod ≡ temp + off = omega (arith, b) in
    let first : temp % uint_mod ≡ temp = omega (arith, b) in
    let r = fill_loop (i + 1) (temp + off) (map row_of ws) h1 in
    let (e, l, f) =
      fill_loop-Filled (i + 1) (temp + off) ws h1 vs (omega arith) (omega (arith, b)) in
    let step = hdr_size + size in
    let own : FreeList h1 i temp (addresses n temp step) =
      header_list n i temp size h w z (omega (arith, b)) in
    let list : FreeList r.1 i temp (addresses n temp step) =
      FreeList-frame h1 r.1 i temp (addresses n temp step)
        (λ a m. f a (omega (arith, below_end n a temp step (omega arith) m))) own in
    let p : PoolRow = record { size = size; number = n; first = temp } in
    let out : Filled h i temp ((size, n) ∷ ws) (p ∷ r.0, r.1) = (
      ap (λ ps. p ∷ ps) e,
      (
        refl,
        list,
        subst (λ x. Laid r.1 (i + 1) (temp + off) (pool_of (temp + off) ws) x) (omega arith) l,
      ),
      λ a m. f a (omega arith) ∙ header_loop-frame n i temp size n 0 h a (omega arith),
    ) in
    let made : fill_loop i temp (map row_of ((size, n) ∷ ws)) h ≡ (p ∷ r.0, r.1) =
      rw (==_ne size 0 v, wrap, first) refl in
    subst (λ x. Filled h i temp ((size, n) ∷ ws) x) (sym made) out
