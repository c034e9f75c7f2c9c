-- ===== src/Crc/Step.antt =====
-- radcrc.c: the CRC of one byte bit by bit, and its linearity.
use Prim.Native.Nat.{bit_xor}
use radlib.Base.{
  ℕ, zero, suc, ◌*◌, ◌%◌, ◌/◌, ◌≡◌, refl, sym, ap, ◌∙◌, if◌then◌else◌, ◌==◌, Bool-cases, inl, inr,
  arith,
}
use radlib.Crc.Xor.{shifted, bit_xor_half, bit_xor_parity, bit_xor_assoc, bit_xor-shifted}

-- One bit: shift right, and add the polynomial if a 1 falls out.
abbrev pub step : (polynomial : ℕ) → ℕ → ℕ
step polynomial x = if x % 2 == 1 then bit_xor (x / 2) polynomial else x / 2

abbrev pub steps : ℕ → (polynomial : ℕ) → ℕ → ℕ
steps zero polynomial x = x
steps (suc n) polynomial x = steps n polynomial (step polynomial x)

step-shifted : (p h y : ℕ) → step p (bit_xor (2 * h) y) ≡ bit_xor h (step p y)
step-shifted p h y =
    let parity : bit_xor (2 * h) y % 2 ≡ y % 2 = omega (arith, bit_xor_parity (2 * h) y) in
    let double : 2 * h / 2 ≡ h = omega arith in
    let half : bit_xor (2 * h) y / 2 ≡ bit_xor h (y / 2) =
      bit_xor_half (2 * h) y ∙ ap (λ z. bit_xor z (y / 2)) double in
    rw (parity, half)
      (elim (Bool-cases (y % 2 == 1)) [
        | inl o ↦ rw o (bit_xor_assoc h (y / 2) p)
        | inr e ↦ rw e refl
      ])

-- The bits that do not reach the end in `n` steps are only shifted.
pub steps-shifted : (n p h y : ℕ) → steps n p (bit_xor (shifted n h) y) ≡ bit_xor h (steps n p y)
steps-shifted zero p h y = refl
steps-shifted (suc n) p h y =
    ap (steps n p) (step-shifted p (shifted n h) y) ∙ steps-shifted n p h (step p y)

-- A step of the table against eight steps of one bit.
pub steps-byte :
    (p crc b : ℕ)
    → steps 8 p (bit_xor crc b) ≡ bit_xor (crc / 256) (steps 8 p (bit_xor (crc % 256) b))
steps-byte p crc b =
    let whole : bit_xor (shifted 8 (crc / 256)) (crc % 256) ≡ crc =
      omega (arith, bit_xor-shifted 8 (crc / 256) (crc % 256) (omega arith)) in
    ap (λ z. steps 8 p (bit_xor z b)) (sym whole)
    ∙ ap (steps 8 p) (bit_xor_assoc (shifted 8 (crc / 256)) (crc % 256) b)
    ∙ steps-shifted 8 p (crc / 256) (bit_xor (crc % 256) b)
