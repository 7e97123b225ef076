-- ===== src/Codec/Layout.antt =====
-- Where the fields of a serialized block lie.
use chronos_vector.Base.{
  ℕ, ◌+◌, ◌^◌, ◌<◌, ◌≡◌, refl, ap, ◌∙◌, List, ◌++◌, drop, length, All, All-append, arith, ltb, ◌==◌,
  if◌then◌else◌, append_assoc, Bool, true, false, not, same,
}
use Prim.Native.Nat.{bit_and, bit_or}
use chronos_vector.Base.Int.{IsInt64, word64}
use chronos_vector.Bytes.{
  put_le, put_u16_le, put_u32_le, put_i64_le, get_u16_le, get_u32_le, get_i64_le,
}
use chronos_vector.Bytes.Laws.{
  IsByte, put_le-IsByte, get_le-front, get_i64-front, drop-front, next_field, length-field,
}
use chronos_vector.Codec.{
  Block, with_header, block_magic, block_version, block_flags, DecodedBlockHeader, parse_header,
  dtype_float32, dtype_int8,
}

-- What follows each field.
module _ (b : Block) (rest : List ℕ) where
  abbrev from36 : List ℕ
  from36 = put_u32_le 0 ++ rest

  abbrev from32 : List ℕ
  from32 = put_u32_le b.payload_size_bytes ++ from36

  abbrev from24 : List ℕ
  from24 = put_i64_le b.t_end_ms ++ from32

  abbrev from16 : List ℕ
  from16 = put_i64_le b.t_start_ms ++ from24

  abbrev from12 : List ℕ
  from12 = put_u32_le b.count ++ from16

  abbrev from8 : List ℕ
  from8 = put_u32_le b.dim ++ from12

  abbrev from6 : List ℕ
  from6 = put_u16_le (block_flags b) ++ from8

  abbrev from4 : List ℕ
  from4 = put_u16_le block_version ++ from6

  pub drop_header4 : drop 4 (with_header b rest) ≡ from4
  drop_header4 = drop-front 4 block_magic from4

  pub drop_header6 : drop 6 (with_header b rest) ≡ from6
  drop_header6 = next_field 4 2 block_version (with_header b rest) from6 drop_header4

  pub drop_header8 : drop 8 (with_header b rest) ≡ from8
  drop_header8 = next_field 6 2 (block_flags b) (with_header b rest) from8 drop_header6

  pub drop_header12 : drop 12 (with_header b rest) ≡ from12
  drop_header12 = next_field 8 4 b.dim (with_header b rest) from12 drop_header8

  pub drop_header16 : drop 16 (with_header b rest) ≡ from16
  drop_header16 = next_field 12 4 b.count (with_header b rest) from16 drop_header12

  pub drop_header24 : drop 24 (with_header b rest) ≡ from24
  drop_header24 = next_field 16 8 (word64 b.t_start_ms) (with_header b rest) from24 drop_header16

  pub drop_header32 : drop 32 (with_header b rest) ≡ from32
  drop_header32 = next_field 24 8 (word64 b.t_end_ms) (with_header b rest) from32 drop_header24

  pub drop_header36 : drop 36 (with_header b rest) ≡ from36
  drop_header36 = next_field 32 4 b.payload_size_bytes (with_header b rest) from36 drop_header32

  -- The data begins at `block_header_size`.
  pub drop_header40 : drop 40 (with_header b rest) ≡ rest
  drop_header40 = next_field 36 4 0 (with_header b rest) rest drop_header36

-- The fields of a block hold what their C types can.
pub record IsTyped (b : Block) : Type 0 where
  pub dim_word : b.dim < 2 ^ 32
  pub count_word : b.count < 2 ^ 32
  pub payload_word : b.payload_size_bytes < 2 ^ 32
  pub start_word : IsInt64 b.t_start_ms
  pub end_word : IsInt64 b.t_end_ms
  pub dtype_known : b.dtype < 2

unfoldable pub header_of : Block → DecodedBlockHeader
header_of b = record {
  dim = b.dim;
  count = b.count;
  t_start_ms = b.t_start_ms;
  t_end_ms = b.t_end_ms;
  payload_size_bytes = b.payload_size_bytes;
  dtype = b.dtype;
}

-- The flag bits, by the two tests that set them.
abbrev flag_word : Bool → Bool → ℕ
flag_word p q = bit_or (if p then 1 else 0) (if q then 2 else 0)

abbrev pub FlagsRead : Bool → Bool → ℕ → Type 0
FlagsRead p q f =
    (f < 256 ^ 2)
    × (same (not (bit_and f 1 == 0)) p ≡ true)
    × ((bit_and f 2 == 0) ≡ not q)
    × ((bit_and f 0xFFFC == 0) ≡ true)

flag_word-reads : (p q : Bool) → FlagsRead p q (flag_word p q)
flag_word-reads true true = (omega arith, refl, refl, refl)
flag_word-reads true false = (omega arith, refl, refl, refl)
flag_word-reads false true = (omega arith, refl, refl, refl)
flag_word-reads false false = (omega arith, refl, refl, refl)

pub block_flags-reads :
    (b : Block) → FlagsRead (ltb 0 b.payload_size_bytes) (b.dtype == 1) (block_flags b)
block_flags-reads b = flag_word-reads (ltb 0 b.payload_size_bytes) (b.dtype == 1)

pub parse_flags :
    (b : Block) (rest : List ℕ) → get_u16_le (drop 6 (with_header b rest)) ≡ block_flags b
parse_flags b rest =
    ap get_u16_le (drop_header6 b rest)
    ∙ get_le-front 2 (block_flags b) (from8 b rest) (block_flags-reads b).0

known_dtype : (dt : ℕ) → dt < 2 → (if not (dt == 1) then dtype_float32 else dtype_int8) ≡ dt
known_dtype dt h = ground arith

parse_dtype :
    (b : Block) (rest : List ℕ) → IsTyped b → (parse_header (with_header b rest)).dtype ≡ b.dtype
parse_dtype b rest t =
    ap (λ f. if bit_and f 2 == 0 then dtype_float32 else dtype_int8) (parse_flags b rest)
    ∙ ap (λ z. if z then dtype_float32 else dtype_int8) (block_flags-reads b).2
    ∙ known_dtype b.dtype t.dtype_known

-- The header reads back.
pub parse-with_header :
    (b : Block) (rest : List ℕ) → IsTyped b → parse_header (with_header b rest) ≡ header_of b
unfolding header_of
parse-with_header b rest t = λ i. record {
  dim = (ap get_u32_le (drop_header8 b rest) ∙ get_le-front 4 b.dim (from12 b rest) t.dim_word) i;
  count =
      (ap get_u32_le (drop_header12 b rest) ∙ get_le-front 4 b.count (from16 b rest) t.count_word)
        i;
  t_start_ms =
      (ap get_i64_le (drop_header16 b rest)
          ∙ get_i64-front b.t_start_ms (from24 b rest) t.start_word)
        i;
  t_end_ms =
      (ap get_i64_le (drop_header24 b rest) ∙ get_i64-front b.t_end_ms (from32 b rest) t.end_word)
        i;
  payload_size_bytes =
      (ap get_u32_le (drop_header32 b rest)
          ∙ get_le-front 4 b.payload_size_bytes (from36 b rest) t.payload_word)
        i;
  dtype = parse_dtype b rest t i;
}

-- The header is 40 bytes long.
pub length-with_header :
    (b : Block) (rest : List ℕ) → length (with_header b rest) ≡ 40 + length rest
length-with_header b rest = omega (
  arith,
  length-field 4 block_magic (from4 b rest),
  length-field 2 block_version (from6 b rest),
  length-field 2 (block_flags b) (from8 b rest),
  length-field 4 b.dim (from12 b rest),
  length-field 4 b.count (from16 b rest),
  length-field 8 (word64 b.t_start_ms) (from24 b rest),
  length-field 8 (word64 b.t_end_ms) (from32 b rest),
  length-field 4 b.payload_size_bytes (from36 b rest),
  length-field 4 0 rest,
)

-- The header in front of two parts is the header of the first in front of the second.
pub with_header-append :
    (b : Block) (xs ys : List ℕ) → with_header b xs ++ ys ≡ with_header b (xs ++ ys)
with_header-append b xs ys = simp append_assoc

pub with_header-IsByte : (b : Block) (xs : List ℕ) → All IsByte xs → All IsByte (with_header b xs)
with_header-IsByte b xs h = field 4 block_magic (from4 b xs) (
    field 2 block_version (from6 b xs) (
      field 2 (block_flags b) (from8 b xs) (
        field 4 b.dim (from12 b xs) (
          field 4 b.count (from16 b xs) (
            field 8 (word64 b.t_start_ms) (from24 b xs) (
              field 8 (word64 b.t_end_ms) (from32 b xs)
                (field 4 b.payload_size_bytes (from36 b xs) (field 4 0 xs h))))))))
  where
    field : (n v : ℕ) (ys : List ℕ) → All IsByte ys → All IsByte (put_le n v ++ ys)
    field n v ys hy = All-append IsByte (put_le n v) ys (put_le-IsByte n v) hy
