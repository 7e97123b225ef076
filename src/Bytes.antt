-- ===== src/Bytes.antt =====
-- The byte order helpers of src/block_codec.cpp and src/engine.cpp: `memcpy` of an integer on the
-- little-endian machines that the library supports.
pub mod Laws
use chronos_vector.Base.{ℕ, zero, suc, ◌+◌, ◌*◌, ◌/◌, ◌%◌, List, [], ◌∷◌, ◌++◌, take, drop}
use chronos_vector.Base.Int.{ℤ, word64, signed64}

-- The `n` bytes of `v`, lowest first, and the number that some bytes stand for.
unfoldable pub put_le : ℕ → ℕ → List ℕ
put_le zero v = []
put_le (suc n) v = (v % 256) ∷ put_le n (v / 256)

unfoldable pub get_le : List ℕ → ℕ
get_le [] = 0
get_le (b ∷ bs) = b + 256 * get_le bs

abbrev pub put_u16_le : ℕ → List ℕ
put_u16_le v = put_le 2 v

abbrev pub put_u32_le : ℕ → List ℕ
put_u32_le v = put_le 4 v

abbrev pub put_u64_le : ℕ → List ℕ
put_u64_le v = put_le 8 v

abbrev pub put_i64_le : ℤ → List ℕ
put_i64_le v = put_le 8 (word64 v)

-- A read at `p = bytes + off`.
abbrev pub get_u16_le : List ℕ → ℕ
get_u16_le p = get_le (take 2 p)

abbrev pub get_u32_le : List ℕ → ℕ
get_u32_le p = get_le (take 4 p)

abbrev pub get_u64_le : List ℕ → ℕ
get_u64_le p = get_le (take 8 p)

abbrev pub get_i64_le : List ℕ → ℤ
get_i64_le p = signed64 (get_le (take 8 p))

-- `memcpy` of an `int64_t` array and of a `float` array (as 32-bit words), and back.
unfoldable pub put_i64s : List ℤ → List ℕ
put_i64s [] = []
put_i64s (t ∷ ts) = put_i64_le t ++ put_i64s ts

unfoldable pub get_i64s : ℕ → List ℕ → List ℤ
get_i64s zero p = []
get_i64s (suc n) p = get_i64_le p ∷ get_i64s n (drop 8 p)

unfoldable pub put_u32s : List ℕ → List ℕ
put_u32s [] = []
put_u32s (t ∷ ts) = put_u32_le t ++ put_u32s ts

unfoldable pub get_u32s : ℕ → List ℕ → List ℕ
get_u32s zero p = []
get_u32s (suc n) p = get_u32_le p ∷ get_u32s n (drop 4 p)
