-- ===== src/Buffers/Release.antt =====
-- radbuffers.c: what `radBufferRls` does, also after `radBufferGet`.
use mathlib.Core.Path.{subst, fun_ext}
use radlib.Base.{
  ℕ, ◌-◌, ◌<◌, ◌≡◌, refl, ◌≢◌, List, ◌∷◌, arith, ◌==◌, sym, some, Bool-cases, inl, inr, ◌∙◌,
  eq_of_==, ne_of_==, ==_self,
}
use radlib.Base.Lists.{get_or, set, length-set, get_or-set_self, get_or-set_ne}
use radlib.SysDefs.{Status, ok, error}
use radlib.Buffers.{BfrHdr, BufferShare, max_bfr_sizes, hdr_size, set_header, get, rls}
use radlib.Buffers.Free.{FreeList, Frees, put, IsValid, FreeList-frame, not-mem_of_allocated}
use radlib.Buffers.Get.{Gave, Got, get-Got}

-- The buffer whose header is at `p` went back to the front of the free list of its size.
pub record Back (s : BufferShare) (fs : Frees) (p b : ℕ) (t : BufferShare) : Type 0 where
  pub was_allocated : (s.headers p).allocated ≡ 1
  pub valid : IsValid t (put fs (s.headers p).size_index (p ∷ fs (s.headers p).size_index))
  pub others : (a : ℕ) → a ≢ p → t.headers a ≡ s.headers a
  pub again : rls t b ≡ (error, t)

-- The two outcomes of a release.
abbrev pub Released : BufferShare → Frees → ℕ → Status × BufferShare → Type 0
Released s fs b (error, t) = (t ≡ s) × ((s.headers (b - hdr_size)).allocated ≢ 1)
Released s fs b (ok, t) = Back s fs (b - hdr_size) b t

module _ (s : BufferShare) (fs : Frees) (v : IsValid s fs) (p : ℕ) where
  module _ (n : BfrHdr) (i : ℕ) (al : (s.headers p).allocated ≡ 1) (ne : p ≢ 0)
      (e : n ≡ record { next = get_or s.pool i 0; size_index = i; allocated = 0 }) where
    old-list :
        (j : ℕ)
        → j < max_bfr_sizes
        → FreeList (set_header s.headers p n) j (get_or s.pool j 0) (fs j)
    unfolding set_header
    old-list j h =
        let out =
          not-mem_of_allocated s.headers j (get_or s.pool j 0) p (fs j) (v.lists j h)
            (λ q. omega (arith, al, q)) in
        FreeList-frame s.headers _ j (get_or s.pool j 0) (fs j) (λ a m. ground arith) (v.lists j h)

    own-list :
        i < max_bfr_sizes
        → FreeList (set_header s.headers p n) i (get_or (set s.pool i p) i 0) (p ∷ fs i)
    unfolding set_header
    own-list h =
        let out =
          not-mem_of_allocated s.headers i (get_or s.pool i 0) p (fs i) (v.lists i h)
            (λ q. omega (arith, al, q)) in
        let next : get_or s.pool i 0 ≡ (set_header s.headers p n p).next = ground arith in
        (
          get_or-set_self s.pool i p 0 (rw v.pool_length h),
          ne,
          ground arith,
          ground arith,
          out,
          subst (λ q. FreeList (set_header s.headers p n) i q (fs i)) next (old-list i h),
        )

    rls-lists :
        i < max_bfr_sizes
        → (j : ℕ) → j < max_bfr_sizes
        → FreeList
            (set_header s.headers p n)
            j
            (get_or (set s.pool i p) j 0)
            (put fs i (p ∷ fs i) j)
    rls-lists lt j h = elim (Bool-cases (j == i)) [
      | inl y ↦ rw (eq_of_== j i y, ==_self i) (own-list lt)
      | inr m ↦ rw (m, get_or-set_ne s.pool i j p 0 (λ q. ne_of_== j i m (sym q))) (old-list j h)
    ]

-- `radBufferRls` of an address whose header says that the buffer is allocated, on a valid segment
-- and with a header that is not at offset 0 and has an index in range, returns OK. It puts that
-- buffer at the front of the free list of its size, changes no other header and leaves the segment
-- valid; a second release of the same buffer is then refused. Of any other address the release
-- returns ERROR and changes nothing.
pub rls-Released :
    (s : BufferShare) (fs : Frees) (b : ℕ)
    → IsValid s fs
    → b - hdr_size ≢ 0
    → (s.headers (b - hdr_size)).size_index < max_bfr_sizes
    → Released s fs b (rls s b)
unfolding rls set_header
rls-Released s fs b v ne lt =
    let p = b - hdr_size in
    let hdr = s.headers p in
    elim (Bool-cases (hdr.allocated == 1)) [
      | inl y ↦
          let al = eq_of_== hdr.allocated 1 y in
          rw y (record {
            was_allocated = al;
            valid = record {
              sizes_length = v.sizes_length;
              pool_length = length-set s.pool hdr.size_index p ∙ v.pool_length;
              ascending = v.ascending;
              lists = rls-lists s fs v p _ hdr.size_index al ne refl lt;
            };
            others = λ a f. ground arith;
            again = ground arith;
          })
      | inr n ↦ rw n (refl, ne_of_== hdr.allocated 1 n)
    ]

put-put :
    (fs : Frees) (i k x p : ℕ) (rest : List ℕ)
    → fs i ≡ x ∷ rest
    → k ≡ i
    → p ≡ x
    → put (put fs i rest) k (p ∷ put fs i rest k) ≡ fs
put-put fs i k x p rest e f g = fun_ext (λ j. elim (Bool-cases (j == i)) [
  | inl y ↦ let q = eq_of_== j i y in rw (f, y, ==_self i, g, q) (sym e)
  | inr n ↦ rw (f, n)
])

Released-same :
    (t : BufferShare) (fs gs : Frees) (b : ℕ) (r : Status × BufferShare)
    → (t.headers (b - hdr_size)).allocated ≡ 1
    → put gs
        (t.headers (b - hdr_size)).size_index
        ((b - hdr_size) ∷ gs (t.headers (b - hdr_size)).size_index)
      ≡ fs
    → Released t gs b r
    → (r.0 ≡ ok) × IsValid r.1 fs
Released-same t fs gs b (error, u) al e (same, no_alloc) = absurd (no_alloc al)
Released-same t fs gs b (ok, u) al e back = (refl, subst (IsValid u) e back.valid)

-- A buffer that `radBufferGet` just gave away from a valid segment is released with OK, and the
-- segment is valid with the same free lists as before.
pub get-rls :
    (s t : BufferShare) (fs : Frees) (size b : ℕ)
    → IsValid s fs
    → get s size ≡ (some b, t)
    → ((rls t b).0 ≡ ok) × IsValid (rls t b).1 fs
get-rls s t fs size b v e =
    let g : Gave s fs size b t = subst (Got s fs size) e (get-Got s fs size v) in
    let p : b - hdr_size ≡ g.offset = omega (arith, g.address) in
    let i = g.index in
    let l = subst (FreeList s.headers i (get_or s.pool i 0)) g.was_free (v.lists i g.in_range) in
    let k : (t.headers (b - hdr_size)).size_index ≡ i = rw p g.indexed in
    Released-same t fs (put fs i g.rest) b (rls t b) (rw p g.marked)
      (put-put fs i _ g.offset _ g.rest g.was_free k p)
      (rls-Released t (put fs i g.rest) b g.valid (rw p l.1) (rw k g.in_range))
