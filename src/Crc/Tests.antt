-- ===== src/Crc/Tests.antt =====
-- radcrc.c: the CRCs of the bytes of "123456789".
use radlib.Base.{ℕ, ◌≡◌, ◌<◌, refl, List, [], ◌∷◌, arith}
use radlib.Base.Lists.{All}
use radlib.Crc.{
  crc16_polynomial, crc16_seed, crc32_polynomial, crc32_seed, crc_loop, crc16_calculate,
  crc32_calculate,
}
use radlib.Crc.Bitwise.{bitwise_crc, crc_calculate-bitwise_crc}

abbrev digits : List ℕ
digits = 49 ∷ 50 ∷ 51 ∷ 52 ∷ 53 ∷ 54 ∷ 55 ∷ 56 ∷ 57 ∷ []

digits_bytes : All (λ b. b < 256) digits
digits_bytes = (
  omega arith,
  (
    omega arith,
    (
      omega arith,
      (omega arith, (omega arith, (omega arith, (omega arith, (omega arith, (omega arith, tt)))))),
    ),
  ),
)

-- The check value of the CRC without the last inversion.
crc16_digits : crc16_calculate digits ≡ 0x6F91
unfolding crc16_calculate crc_loop
crc16_digits = refl

crc_calculate-bitwise_crc_example :
    (crc16_calculate digits ≡ bitwise_crc crc16_polynomial crc16_seed digits)
    × (crc32_calculate digits ≡ bitwise_crc crc32_polynomial crc32_seed digits)
crc_calculate-bitwise_crc_example = crc_calculate-bitwise_crc digits digits_bytes
