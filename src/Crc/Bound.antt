-- ===== src/Crc/Bound.antt =====
-- radcrc.c: the width of the results.
use mathlib.Core.Path.{subst}
use Prim.Native.Nat.{bit_xor}
use radlib.Base.{
  ℕ, zero, suc, ◌%◌, ◌/◌, ◌<◌, ◌≤◌, ◌^◌, sym, List, [], ◌∷◌, arith, ◌==◌, Bool-cases, inl, inr,
}
use radlib.Base.Lists.{All}
use radlib.Crc.{
  crc16_polynomial, crc16_seed, crc32_polynomial, crc32_seed, crc16_calculate, crc32_calculate,
}
use radlib.Crc.Xor.{bits, bit_xor-bound}
use radlib.Crc.Step.{step, steps}
use radlib.Crc.Bitwise.{bitwise_crc, crc_calculate-bitwise_crc}

module _ (n p : ℕ) (wide : p < bits n) where
  step_bound : (x : ℕ) → x < bits n → step p x < bits n
  step_bound x h = elim (Bool-cases (x % 2 == 1)) [
    | inl o ↦ rw o (bit_xor-bound n (x / 2) p (omega arith) wide)
    | inr e ↦ rw e (omega arith)
  ]

  steps_bound : (k x : ℕ) → x < bits n → steps k p x < bits n
  steps_bound zero x h = h
  steps_bound (suc k) x h = steps_bound k (step p x) (step_bound x h)

  bitwise_crc_bound :
      (crc : ℕ) (block : List ℕ)
      → 256 ≤ bits n
      → crc < bits n
      → All (λ b. b < 256) block
      → bitwise_crc p crc block < bits n
  bitwise_crc_bound crc [] w h a = h
  bitwise_crc_bound crc (b ∷ bs) w h (lt, a) =
      bitwise_crc_bound (steps 8 p (bit_xor crc b)) bs w
        (steps_bound 8 (bit_xor crc b) (bit_xor-bound n crc b h (omega arith))) a

-- The CRCs of a block of bytes fit in 16 and in 32 bits, so they fit in the `USHORT` and the `ULONG`
-- that hold them.
pub crc_calculate-bound :
    (block : List ℕ)
    → All (λ b. b < 256) block
    → (crc16_calculate block < 2 ^ 16) × (crc32_calculate block < 2 ^ 32)
crc_calculate-bound block a =
    let (e, f) = crc_calculate-bitwise_crc block a in
    (
      subst (λ c. c < 2 ^ 16) (sym e)
          (bitwise_crc_bound 16 crc16_polynomial (omega arith) crc16_seed block (omega arith)
            (omega arith) a),
      subst (λ c. c < 2 ^ 32) (sym f)
          (bitwise_crc_bound 32 crc32_polynomial (omega arith) crc32_seed block (omega arith)
            (omega arith) a),
    )
