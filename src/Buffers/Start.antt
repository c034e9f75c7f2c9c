-- ===== src/Buffers/Start.antt =====
-- radbuffers.c: the size that `radBuffersInit` starts with.
use mathlib.Core.Path.{subst}
use radlib.Base.{
  ℕ, zero, suc, ◌*◌, ◌%◌, ◌<◌, ◌≤◌, ◌≡◌, ◌⊎◌, refl, ap, sym, ◌∙◌, inl, inr, true, false, ltb, some,
  arith, Bool-cases,
}
use radlib.SysDefs.{ulong_mod}
use radlib.Buffers.Init.{start_loop}

-- A starting size: 16, doubled `k` times, no more often than is needed.
abbrev pub doubled : (k a : ℕ) → ℕ
doubled zero a = a
doubled (suc k) a = doubled k (a * 2)

pub record IsStart (k min start : ℕ) : Type 0 where
  pub value : start ≡ doubled k 16
  pub enough : min ≤ start
  pub least : (k ≡ 0) ⊎ (start < min * 2)

pub doubled_grows : (k a : ℕ) → a ≤ doubled k a
doubled_grows zero a = omega arith
doubled_grows (suc k) a = omega (arith, doubled_grows k (a * 2))

doubled_twice : (k a : ℕ) → doubled (suc k) a ≡ doubled k a * 2
doubled_twice zero a = refl
doubled_twice (suc k) a = doubled_twice k (a * 2)

-- Every size has one.
pub every_size-IsStart : (min : ℕ) → (k : ℕ) × (start : ℕ) × IsStart k min start
every_size-IsStart zero = (0, 16, record { value = refl; enough = omega arith; least = inl refl })
every_size-IsStart (suc min) =
    let (k, start, h) = every_size-IsStart min in
    let low : 16 ≤ start = omega (arith, h.value, doubled_grows k 16) in
    elim (Bool-cases (ltb start (suc min))) [
      | inr n ↦ (
        k,
        start,
        record {
          value = h.value;
          enough = ground (arith, n);
          least = elim h.least [ inl z ↦ inl z | inr l ↦ inr (omega (arith, l)) ];
        },
      )
      | inl y ↦
          let e : start ≡ min = ground (arith, y, h.enough) in
          (
            suc k,
            start * 2,
            record {
              value = ap (λ x. x * 2) h.value ∙ sym (doubled_twice k 16);
              enough = omega (arith, e, low);
              least = inr (omega (arith, e));
            },
          )
    ]

start_loop-doubled :
    (k fuel a min : ℕ)
    → k < fuel
    → 0 < a
    → min ≤ doubled k a
    → (k ≡ 0) ⊎ (doubled k a < min * 2)
    → doubled k a < ulong_mod
    → start_loop fuel a min ≡ some (doubled k a)
unfolding start_loop
start_loop-doubled k zero a min f z e l u = absurd (omega arith)
start_loop-doubled zero (suc fuel) a min f z e l u =
    let stop : ltb a min ≡ false = ground arith in rw stop refl
start_loop-doubled (suc k) (suc fuel) a min f z e (inl p) u = absurd (omega arith)
start_loop-doubled (suc k) (suc fuel) a min f z e (inr l) u =
    let g = doubled_grows k (a * 2) in
    let more : ltb a min ≡ true = ground (arith, g, l) in
    let fits : a * 2 % ulong_mod ≡ a * 2 = omega (arith, g, u) in
    let again : (k ≡ 0) ⊎ (doubled k (a * 2) < min * 2) = inr l in
    rw (more, fits) (start_loop-doubled k fuel (a * 2) min (omega arith) (omega arith) e again u)

pub start_loop-IsStart :
    (k fuel min start : ℕ)
    → IsStart k min start
    → k < fuel
    → start < ulong_mod
    → start_loop fuel 16 min ≡ some start
start_loop-IsStart k fuel min start h f u =
    subst (λ x. start_loop fuel 16 min ≡ some x) (sym h.value)
      (start_loop-doubled k fuel 16 min f (omega arith) (rw (sym h.value) h.enough)
        (rw (sym h.value) h.least) (rw (sym h.value) u))
