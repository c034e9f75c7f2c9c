-- ===== src/Buffers/Count.antt =====
-- radbuffers.c: the counts of free buffers.
use radlib.Base.{ℕ, zero, suc, ◌+◌, ◌%◌, ◌<◌, ◌≤◌, ◌≡◌, List, [], ◌∷◌, arith, some, ap, ◌∙◌, ==_ne}
use radlib.Base.Lists.{length, get_or}
use radlib.SysDefs.{uint_mod}
use radlib.Buffers.{
  BufferShare, max_bfr_sizes, avail_loop, get_size_avail, available_loop, get_available,
}
use radlib.Buffers.Free.{FreeList, Frees, IsValid}

-- The free buffers of the size indices `i`, …, `i + rounds - 1`.
abbrev pub total_free : (rounds i : ℕ) → Frees → ℕ
total_free zero i fs = 0
total_free (suc rounds) i fs = length (fs i) + total_free rounds (i + 1) fs

avail_loop-length :
    (fuel : ℕ) (s : BufferShare) (i p x count : ℕ) (xs : List ℕ)
    → FreeList s.headers i p (x ∷ xs)
    → length xs < fuel
    → count < uint_mod
    → avail_loop fuel s x count ≡ some ((count + length xs) % uint_mod)
unfolding avail_loop
avail_loop-length zero s i p x count xs l h c = absurd (omega arith)
avail_loop-length (suc fuel) s i p x count [] l h c = rw l.5 (ap some (omega arith))
avail_loop-length (suc fuel) s i p x count (y ∷ ys) l h c =
    let e = l.5.0 in
    rw
      (
        ==_ne (s.headers x).next 0 (rw e l.5.1),
        e,
        avail_loop-length fuel s i (s.headers x).next y ((count + 1) % uint_mod) ys l.5
            (omega arith) (omega arith),
      )
      (ap some (omega arith))

module _ (s : BufferShare) (fs : Frees) (v : IsValid s fs) (fuel : ℕ) where
  get_size_avail-length :
      (i : ℕ) (xs : List ℕ)
      → FreeList s.headers i (get_or s.pool i 0) xs
      → length xs < fuel
      → get_size_avail fuel s i ≡ some (length xs % uint_mod)
  unfolding get_size_avail
  get_size_avail-length i [] l h = rw l (ap some (omega arith))
  get_size_avail-length i (x ∷ xs) l h =
      rw
        (
          ==_ne (get_or s.pool i 0) 0 (rw l.0 l.1),
          l.0,
          avail_loop-length fuel s i (get_or s.pool i 0) x 1 xs l (omega arith) (omega arith),
        )
        (ap some (omega arith))

  available_loop-total :
      (rounds i sum : ℕ)
      → i + rounds ≤ max_bfr_sizes
      → ((j : ℕ) → j < max_bfr_sizes → length (fs j) < fuel)
      → sum < uint_mod
      → available_loop rounds fuel i s sum ≡ some ((sum + total_free rounds i fs) % uint_mod)
  unfolding available_loop
  available_loop-total zero i sum h f c = ap some (omega arith)
  available_loop-total (suc rounds) i sum h f c =
      rw
        (
          get_size_avail-length i (fs i) (v.lists i (omega arith)) (f i (omega arith)),
          available_loop,
        )
        (available_loop-total rounds (i + 1) ((sum + length (fs i) % uint_mod) % uint_mod)
            (omega arith) f (omega arith)
          ∙ ap some (omega arith))

  -- On a valid segment with at most ten sizes, and with more fuel than any free list is long,
  -- `radBuffersGetAvailable` returns the number of free buffers of the sizes in use, as an `int`.
  pub get_available-total :
      s.num_sizes ≤ max_bfr_sizes
      → ((j : ℕ) → j < max_bfr_sizes → length (fs j) < fuel)
      → get_available fuel s ≡ some (total_free s.num_sizes 0 fs % uint_mod)
  unfolding get_available
  get_available-total h f =
      available_loop-total s.num_sizes 0 0 (omega arith) f (omega arith) ∙ ap some (omega arith)
