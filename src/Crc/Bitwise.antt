-- ===== src/Crc/Bitwise.antt =====
-- radcrc.c: the tables against their polynomials, and the CRCs against bitwise ones.
use Prim.Native.Nat.{bit_xor}
use radlib.Base.{
  ℕ, zero, suc, ◌%◌, ◌/◌, ◌<◌, ◌≡◌, refl, sym, ap, ◌∙◌, Bool, true, ◌&&◌, ◌==◌, List, [], ◌∷◌,
  arith,
}
use radlib.Base.Lists.{All, get_or}
use radlib.Crc.{
  crc16_polynomial, crc16_seed, crc32_polynomial, crc32_seed, table16, table32, crc_loop,
  crc16_calculate, crc32_calculate,
}
use radlib.Crc.Xor.{bit_xor-bound}
use radlib.Crc.Step.{steps, steps-byte}

-- The CRC by its definition: each byte is added to the lowest bits, then eight bits are shifted out.
abbrev pub bitwise_crc : (polynomial crc : ℕ) → List ℕ → ℕ
bitwise_crc polynomial crc [] = crc
bitwise_crc polynomial crc (p ∷ ps) = bitwise_crc polynomial (steps 8 polynomial (bit_xor crc p)) ps

-- The entries below `n` are as the polynomial says.
entries_ok : (polynomial : ℕ) → List ℕ → ℕ → Bool
entries_ok polynomial table zero = true
entries_ok polynomial table (suc n) =
    (get_or table n 0 == steps 8 polynomial n) && entries_ok polynomial table n

entries_ok_entry :
    (p : ℕ) (table : List ℕ) (n i : ℕ)
    → entries_ok p table n ≡ true
    → i < n
    → get_or table i 0 ≡ steps 8 p i
unfolding entries_ok
entries_ok_entry p table zero i h b = absurd (omega arith)
entries_ok_entry p table (suc n) i h b = ground (arith, entries_ok_entry p table n i)

table16_ok : entries_ok crc16_polynomial table16 256 ≡ true
unfolding entries_ok
table16_ok = refl

table32_ok : entries_ok crc32_polynomial table32 256 ≡ true
unfolding entries_ok
table32_ok = refl

crc_loop-bitwise_crc :
    (p : ℕ) (table : List ℕ) (crc : ℕ) (block : List ℕ)
    → entries_ok p table 256 ≡ true
    → All (λ b. b < 256) block
    → crc_loop table crc block ≡ bitwise_crc p crc block
unfolding crc_loop
crc_loop-bitwise_crc p table crc [] ok h = refl
crc_loop-bitwise_crc p table crc (b ∷ bs) ok (lt, h) =
    let i = bit_xor (crc % 256) b in
    let entry : get_or table i 0 ≡ steps 8 p i =
      entries_ok_entry p table 256 i ok (bit_xor-bound 8 (crc % 256) b (omega arith) lt) in
    let next = ap (bit_xor (crc / 256)) entry ∙ sym (steps-byte p crc b) in
    crc_loop-bitwise_crc p table (bit_xor (crc / 256) (get_or table i 0)) bs ok h
    ∙ ap (λ c. bitwise_crc p c bs) next

-- For a block of bytes, `radCRC16Calculate` and `radCRC32Calculate` are the bitwise CRCs of their
-- polynomials and seeds.
pub crc_calculate-bitwise_crc :
    (block : List ℕ)
    → All (λ b. b < 256) block
    → (crc16_calculate block ≡ bitwise_crc crc16_polynomial crc16_seed block)
      × (crc32_calculate block ≡ bitwise_crc crc32_polynomial crc32_seed block)
unfolding crc16_calculate crc32_calculate
crc_calculate-bitwise_crc block h = (
  crc_loop-bitwise_crc crc16_polynomial table16 crc16_seed block table16_ok h,
  crc_loop-bitwise_crc crc32_polynomial table32 crc32_seed block table32_ok h,
)
