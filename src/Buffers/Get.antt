-- ===== src/Buffers/Get.antt =====
-- radbuffers.c: what `radBufferGet` returns.
use mathlib.Core.Path.{subst}
use native.Mathlib.Nat.{add-zero}
use radlib.Base.{
  ℕ, zero, suc, ◌+◌, ◌-◌, ◌<◌, ◌≤◌, ◌≡◌, refl, ◌≢◌, List, [], ◌∷◌, arith, ◌==◌, sym, Option, none,
  some, Bool-cases, inl, inr, ap, ◌∙◌, leb, eq_of_==, ne_of_==, ==_self, ==_ne, ltb,
}
use radlib.Base.Lists.{get_or, set, length-set, get_or-set_self, get_or-set_ne}
use radlib.Buffers.{
  BfrHdr, BufferShare, max_bfr_sizes, hdr_size, set_header, fit_loop, take_head, get_loop, get,
}
use radlib.Buffers.Free.{FreeList, Frees, put, IsValid, FreeList-frame, not-mem_of_size_index}

-- A buffer of the partition `i` was given away, the first free one.
pub record Gave (s : BufferShare) (fs : Frees) (size b : ℕ) (t : BufferShare) : Type 0 where
  pub index : ℕ
  pub offset : ℕ
  pub rest : List ℕ
  pub in_range : index < max_bfr_sizes
  pub address : b ≡ offset + hdr_size
  pub was_free : fs index ≡ offset ∷ rest
  pub big_enough : size ≤ get_or s.sizes index 0
  pub best_fit : (j : ℕ) → j < index → size ≤ get_or s.sizes j 0 → fs j ≡ []
  pub marked : (t.headers offset).allocated ≡ 1
  pub indexed : (t.headers offset).size_index ≡ index
  pub others : (a : ℕ) → a ≢ offset → t.headers a ≡ s.headers a
  pub valid : IsValid t (put fs index rest)

-- The result of `radBufferGet`: a buffer, or NULL with nothing changed where no size fits that has
-- a free buffer.
abbrev pub Got : BufferShare → Frees → ℕ → Option ℕ × BufferShare → Type 0
Got s fs size (none, t) =
    (t ≡ s)
    × ((j : ℕ) → j < max_bfr_sizes → get_or s.sizes j 0 ≢ 0 → size ≤ get_or s.sizes j 0 → fs j ≡ [])
Got s fs size (some b, t) = Gave s fs size b t

fit_loop_lem :
    (rounds index : ℕ) (sizes : List ℕ) (size : ℕ)
    → (index ≤ fit_loop rounds index sizes size)
      × (fit_loop rounds index sizes size ≤ index + rounds)
      × (fit_loop rounds index sizes size < index + rounds
          → size ≤ get_or sizes (fit_loop rounds index sizes size) 0)
      × ((j : ℕ) → index ≤ j → j < fit_loop rounds index sizes size → get_or sizes j 0 < size)
unfolding fit_loop
fit_loop_lem zero index sizes size =
    (omega arith, omega arith, λ h. absurd (omega arith), λ j a b. absurd (omega arith))
fit_loop_lem (suc rounds) index sizes size =
    let (lo, hi, fits, small) = fit_loop_lem rounds (index + 1) sizes size in
    elim (Bool-cases (leb size (get_or sizes index 0))) [
      | inl y ↦ rw y (omega arith, omega arith, λ h. ground arith, λ j a b. absurd (omega arith))
      | inr n ↦ rw n (
        omega arith,
        omega arith,
        λ h. fits (omega arith),
        λ j a b. elim (Bool-cases (j == index)) [
          | inl e ↦ ground arith
          | inr e ↦ small j (ground arith) b
        ],
      )
    ]

module _ (s : BufferShare) (fs : Frees) (v : IsValid s fs) (size : ℕ) where
  module _ (i x : ℕ) (rest : List ℕ) (lt : i < max_bfr_sizes) (e : fs i ≡ x ∷ rest) where
    head_list : FreeList s.headers i (get_or s.pool i 0) (x ∷ rest)
    head_list = subst (FreeList s.headers i (get_or s.pool i 0)) e (v.lists i lt)

    take_head-lists :
        (hdr : BfrHdr) (j : ℕ)
        → j < max_bfr_sizes
        → FreeList
            (set_header s.headers x hdr)
            j
            (get_or (set s.pool i (s.headers x).next) j 0)
            (put fs i rest j)
    unfolding set_header
    take_head-lists hdr j h =
        let (p, ne, al, k, d, l) = head_list in
        elim (Bool-cases (j == i)) [
          | inl y ↦
              let f : j ≡ i = eq_of_== j i y in
              rw (f, ==_self i, get_or-set_self s.pool i (s.headers x).next 0 (rw v.pool_length lt))
                (FreeList-frame s.headers _ i (s.headers x).next rest (λ a m. ground arith) l)
          | inr n ↦
              let f : i ≢ j = λ q. ne_of_== j i n (sym q) in
              let out =
                not-mem_of_size_index s.headers j (get_or s.pool j 0) x (fs j) (v.lists j h)
                  (λ q. f (sym k ∙ q)) in
              rw (n, get_or-set_ne s.pool i j (s.headers x).next 0 f)
                (FreeList-frame s.headers _ j (get_or s.pool j 0) (fs j) (λ a m. ground arith)
                  (v.lists j h))
        ]

    take_head-Gave :
        size ≤ get_or s.sizes i 0
        → ((j : ℕ) → j < i → size ≤ get_or s.sizes j 0 → fs j ≡ [])
        → Got s fs size (take_head s i)
    unfolding take_head
    take_head-Gave big best =
        let (p, ne, al, k, d, l) = head_list in
        rw p (record {
          index = i;
          offset = x;
          rest = rest;
          in_range = lt;
          address = refl;
          was_free = e;
          big_enough = big;
          best_fit = best;
          marked = ground arith;
          indexed = ground arith;
          others = λ a f. ground arith;
          valid = record {
            sizes_length = v.sizes_length;
            pool_length = length-set s.pool i (s.headers x).next ∙ v.pool_length;
            ascending = v.ascending;
            lists = take_head-lists _;
          };
        })

  used_below : (i d : ℕ) → get_or s.sizes (i + d) 0 ≢ 0 → get_or s.sizes i 0 ≢ 0
  used_below i zero h = rw (← add-zero i) h
  used_below i (suc d) h =
      used_below i d (v.ascending (i + d) (subst (λ k. get_or s.sizes k 0 ≢ 0) (omega arith) h)).0

  unused_above : (i j : ℕ) → i ≤ j → get_or s.sizes i 0 ≡ 0 → get_or s.sizes j 0 ≢ 0 → ⊥
  unused_above i j le z ne =
      used_below i (j - i) (subst (λ k. get_or s.sizes k 0 ≢ 0) (omega arith) ne) z

  abbrev Continues : (rounds index : ℕ) → Type 0
  Continues rounds index =
      index + rounds ≡ max_bfr_sizes
      → (get_or s.sizes index 0 ≢ 0 → size ≤ get_or s.sizes index 0)
      → ((j : ℕ) → j < index → size ≤ get_or s.sizes j 0 → fs j ≡ [])
      → Got s fs size (get_loop rounds index s)

  get_loop_step :
      (rounds index : ℕ) (xs : List ℕ)
      → fs index ≡ xs
      → index + suc rounds ≡ max_bfr_sizes
      → get_or s.sizes index 0 ≢ 0
      → size ≤ get_or s.sizes index 0
      → ((j : ℕ) → j < index → size ≤ get_or s.sizes j 0 → fs j ≡ [])
      → Continues rounds (index + 1)
      → Got s fs size (get_loop (suc rounds) index s)
  unfolding get_loop
  get_loop_step rounds index [] e r nz big best next =
      let p : get_or s.pool index 0 ≡ 0 =
        subst (FreeList s.headers index (get_or s.pool index 0)) e (v.lists index (omega arith)) in
      rw (==_ne (get_or s.sizes index 0) 0 nz, p)
        (next (omega arith) (λ ne. omega (arith, big, (v.ascending index ne).1))
          (λ j h le. elim (Bool-cases (j == index)) [
            | inl y ↦ subst (λ k. fs k ≡ []) (sym (eq_of_== j index y)) e
            | inr n ↦ best j (ground arith) le
          ]))
  get_loop_step rounds index (x ∷ rest) e r nz big best next =
      let lt : index < max_bfr_sizes = omega arith in
      let (p, ne, al, k, d, l) = head_list index x rest lt e in
      rw
        (
          ==_ne (get_or s.sizes index 0) 0 nz,
          ==_ne (get_or s.pool index 0) 0 (rw p ne),
          ap (λ q. (s.headers q).allocated) p ∙ al,
        )
        (take_head-Gave index x rest lt e big best)

  -- The loop from `index` on, where nothing before it fits and is free.
  get_loop-Got : (rounds index : ℕ) → Continues rounds index
  get_loop-Got zero index r big best =
      unfold get_loop in (refl, λ j h ne le. best j (omega arith) le)
  get_loop-Got (suc rounds) index r big best = elim (Bool-cases (get_or s.sizes index 0 == 0)) [
    | inl z ↦
        unfold get_loop in
        rw z (
          refl,
          λ j h ne le. elim (Bool-cases (ltb j index)) [
            | inl y ↦ best j (ground arith) le
            | inr n ↦ absurd (unused_above index j (ground arith) (eq_of_== _ 0 z) ne)
          ],
        )
    | inr nz ↦
        let ne = ne_of_== (get_or s.sizes index 0) 0 nz in
        get_loop_step rounds index (fs index) refl r ne (big ne) best
          (get_loop-Got rounds (index + 1))
  ]

-- On a valid segment `radBufferGet` gives away the first free buffer of the smallest size that is
-- big enough and has one. It marks that buffer as allocated, touches no other header, and leaves a
-- valid segment whose free lists are the same but for that buffer. It returns NULL, with nothing
-- changed, only if every size in use that is big enough has no free buffer.
pub get-Got : (s : BufferShare) (fs : Frees) (size : ℕ) → IsValid s fs → Got s fs size (get s size)
unfolding get
get-Got s fs size v =
    let (lo, hi, fits, small) = fit_loop_lem max_bfr_sizes 0 s.sizes size in
    elim (Bool-cases (leb max_bfr_sizes (fit_loop max_bfr_sizes 0 s.sizes size))) [
      | inl y ↦
          rw y (refl, λ j h ne le. absurd (omega (arith, small j (omega arith) (ground arith))))
      | inr n ↦ rw n (
          get_loop-Got s fs v size _ _ (ground arith) (λ ne. fits (ground arith))
            (λ j h le. absurd (omega (arith, small j (omega arith) h))))
    ]
