-- ===== src/Wal/Bytes.antt =====
-- Bytes of pkg/wal/wal.go: little-endian words (encoding/binary) and the IEEE CRC-32 (hash/crc32).
use Prim.Native.Nat.{bit_xor}
use observe_x.Prelude.{
  ℕ, zero, suc, ◌+◌, ◌*◌, ◌/◌, ◌%◌, ◌<◌, ◌≡◌, refl, List, [], ◌∷◌, ◌++◌, arith, ◌==◌, if◌then◌else◌,
}

abbrev pub u32_mod : ℕ
u32_mod = 4294967296

abbrev pub u64_mod : ℕ
u64_mod = 18446744073709551616

unfoldable pub put_u32 : ℕ → List ℕ
put_u32 n = n % 256 ∷ n / 256 % 256 ∷ n / 65536 % 256 ∷ n / 16777216 % 256 ∷ []

unfoldable pub get_u32 : List ℕ → ℕ
get_u32 (a ∷ b ∷ c ∷ d ∷ _) = a + 256 * b + 65536 * c + 16777216 * d
get_u32 _ = 0

unfoldable pub put_u64 : ℕ → List ℕ
unfolding put_u32
put_u64 n = put_u32 (n % u32_mod) ++ put_u32 (n / u32_mod)

unfoldable pub get_u64 : List ℕ → ℕ
unfolding get_u32
get_u64 (a ∷ b ∷ c ∷ d ∷ rest) = get_u32 (a ∷ b ∷ c ∷ d ∷ []) + u32_mod * get_u32 rest
get_u64 _ = 0

pub get-put_u32 : (n : ℕ) (rest : List ℕ) → n < u32_mod → get_u32 (put_u32 n ++ rest) ≡ n
unfolding get_u32 put_u32
get-put_u32 n rest h = omega arith

pub get-put_u64 : (n : ℕ) (rest : List ℕ) → n < u64_mod → get_u64 (put_u64 n ++ rest) ≡ n
unfolding get_u64 put_u64 get_u32 put_u32
get-put_u64 n rest h = omega arith

-- One bit of the reflected polynomial division.
crc_bit : ℕ → ℕ
crc_bit c = if c % 2 == 1 then bit_xor (c / 2) 0xEDB88320 else c / 2

crc_bits : ℕ → ℕ → ℕ
crc_bits zero c = c
crc_bits (suc k) c = crc_bits k (crc_bit c)

crc_from : ℕ → List ℕ → ℕ
crc_from c [] = c
crc_from c (b ∷ bs) = crc_from (crc_bits 8 (bit_xor c b)) bs

-- crc32.ChecksumIEEE; the result is a uint32.
unfoldable pub crc32 : List ℕ → ℕ
unfolding crc_bit crc_bits crc_from
crc32 bs = bit_xor (crc_from 0xFFFFFFFF bs) 0xFFFFFFFF % u32_mod

pub crc32_bound : (bs : List ℕ) → crc32 bs < u32_mod
unfolding crc32
crc32_bound bs = omega arith

-- The standard check value of the checksum, over the text 123456789.
crc32_check : crc32 (49 ∷ 50 ∷ 51 ∷ 52 ∷ 53 ∷ 54 ∷ 55 ∷ 56 ∷ 57 ∷ []) ≡ 0xCBF43926
unfolding crc32
crc32_check = refl
