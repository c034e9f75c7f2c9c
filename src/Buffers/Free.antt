-- ===== src/Buffers/Free.antt =====
-- radbuffers.c: a segment whose pools are the heads of well-formed free lists.
use radlib.Base.{
  ℕ, ◌+◌, ◌<◌, ◌≤◌, ◌≡◌, refl, ◌≢◌, false, true, List, [], ◌∷◌, arith, if◌then◌else◌, ◌==◌,
}
use radlib.Base.Lists.{length, has, get_or}
use radlib.Buffers.{BfrHdr, BufferShare, max_bfr_sizes}

-- From the offset `p` the headers lead through the free buffers `xs` of the size index `i`.
abbrev pub FreeList : (ℕ → BfrHdr) → ℕ → ℕ → List ℕ → Type 0
FreeList h i p [] = p ≡ 0
FreeList h i p (x ∷ xs) =
    (p ≡ x)
    × (x ≢ 0)
    × ((h x).allocated ≡ 0)
    × ((h x).size_index ≡ i)
    × (has x xs ≡ false)
    × FreeList h i (h x).next xs

-- The free buffers of each size index.
abbrev pub Frees : Type 0
Frees = ℕ → List ℕ

abbrev pub put : Frees → ℕ → List ℕ → Frees
put fs i xs j = if j == i then xs else fs j

pub record IsValid (s : BufferShare) (fs : Frees) : Type 0 where
  pub sizes_length : length s.sizes ≡ max_bfr_sizes
  pub pool_length : length s.pool ≡ max_bfr_sizes
  -- the sizes that are in use come first, in ascending order
  pub ascending :
      (i : ℕ)
      → get_or s.sizes (i + 1) 0 ≢ 0
      → (get_or s.sizes i 0 ≢ 0) × (get_or s.sizes i 0 ≤ get_or s.sizes (i + 1) 0)
  pub lists : (i : ℕ) → i < max_bfr_sizes → FreeList s.headers i (get_or s.pool i 0) (fs i)

pub FreeList-frame :
    (h g : ℕ → BfrHdr) (i p : ℕ) (xs : List ℕ)
    → ((a : ℕ) → has a xs ≡ true → g a ≡ h a)
    → FreeList h i p xs
    → FreeList g i p xs
FreeList-frame h g i p [] same l = l
FreeList-frame h g i p (x ∷ xs) same (e, ne, a, k, d, l) =
    let s : g x ≡ h x = same x (ground arith) in
    (
      e,
      ne,
      ground arith,
      ground arith,
      d,
      rw s (FreeList-frame h g i (h x).next xs (λ a m. same a (ground arith)) l),
    )

-- An address with another size index, or that is allocated, is on no such list.
pub not-mem_of_size_index :
    (h : ℕ → BfrHdr) (i p x : ℕ) (xs : List ℕ)
    → FreeList h i p xs
    → (h x).size_index ≢ i
    → has x xs ≡ false
not-mem_of_size_index h i p x [] l ne = refl
not-mem_of_size_index h i p x (y ∷ ys) (e, z, a, k, d, l) ne =
    ground (arith, not-mem_of_size_index h i (h y).next x ys l ne)

pub not-mem_of_allocated :
    (h : ℕ → BfrHdr) (i p x : ℕ) (xs : List ℕ)
    → FreeList h i p xs
    → (h x).allocated ≢ 0
    → has x xs ≡ false
not-mem_of_allocated h i p x [] l ne = refl
not-mem_of_allocated h i p x (y ∷ ys) (e, z, a, k, d, l) ne =
    ground (arith, not-mem_of_allocated h i (h y).next x ys l ne)
