-- ===== src/Crc.antt =====
-- CRC32/IEEE of src/block_codec.cpp: the 256-entry table and the loop over the bytes.
pub mod Bitwise
pub mod Detect
use Prim.Native.Nat.{bit_and, bit_xor}
use chronos_vector.Base.{ℕ, zero, suc, ◌/◌, ◌^◌, List, [], ◌∷◌, take, ◌==◌, if◌then◌else◌}

abbrev pub polynomial : ℕ
polynomial = 0xEDB88320

-- One round of the constructor of `Crc32Table`.
pub crc_round : ℕ → ℕ
crc_round c = if bit_and c 1 == 1 then bit_xor polynomial (c / 2) else c / 2

-- The inner loop, `k` rounds.
pub crc_rounds : ℕ → ℕ → ℕ
crc_rounds zero c = c
crc_rounds (suc k) c = crc_rounds k (crc_round c)

-- `kCrcTable.t[i]`
pub crc_table : ℕ → ℕ
crc_table i = crc_rounds 8 i

-- The body of the loop of `crc32_ieee`, for the byte `b`.
unfoldable pub crc_step : ℕ → ℕ → ℕ
unfolding crc_round crc_rounds crc_table
crc_step c b = bit_xor (crc_table (bit_and (bit_xor c b) 0xFF)) (c / 2 ^ 8)

unfoldable pub crc_loop : ℕ → List ℕ → ℕ
unfolding crc_step
crc_loop c [] = c
crc_loop c (b ∷ bs) = crc_loop (crc_step c b) bs

unfoldable pub crc32_ieee : List ℕ → ℕ → ℕ
unfolding crc_loop
crc32_ieee bytes len = bit_xor (crc_loop 0xFFFFFFFF (take len bytes)) 0xFFFFFFFF
