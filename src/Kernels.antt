-- ===== src/Kernels.antt =====
-- The INT8 kernels of src/kernels.cpp. A float is its 32-bit word; the float operations and the
-- norm that Eigen computes are arguments. A float constant is written as its word. An `int8_t` array
-- is a list of integers here; `bytes_i8` is its bytes.
pub mod Dot
pub mod Float32
use chronos_vector.Base.{
  ℕ, zero, suc, ◌+◌, ◌-◌, ◌*◌, ◌%◌, ◌^◌, Bool, true, false, ◌||◌, Option, none, some, List, [], ◌∷◌,
  map, replicate, ltb, leb, ◌==◌, if◌then◌else◌, take, drop, length, ◌&&◌,
}
use chronos_vector.Base.Int.{ℤ, pos, negsuc, ◌+ℤ◌, ◌*ℤ◌, ltb_ℤ}

-- The operations of `float`, with its comparisons `<`, `<=` and `==` (a NaN passes none of them) and `std::sqrt`, and what Eigen computes: a norm, one entry of `W.transpose() * q`, and
-- the sum of the columns of a matrix with so many rows.
pub record Floats : Type 0 where
  pub lt : ℕ → ℕ → Bool
  pub le : ℕ → ℕ → Bool
  pub eq : ℕ → ℕ → Bool
  pub neg : ℕ → ℕ
  pub add : ℕ → ℕ → ℕ
  pub sub : ℕ → ℕ → ℕ
  pub mul : ℕ → ℕ → ℕ
  pub div : ℕ → ℕ → ℕ
  pub of_int : ℤ → ℕ
  pub lround : ℕ → ℤ
  pub sqrt : ℕ → ℕ
  pub l2_norm : List ℕ → ℕ
  pub dot : List ℕ → List ℕ → ℕ
  pub row_sums : ℕ → List ℕ → List ℕ

abbrev pub f0 : ℕ
f0 = 0

abbrev pub f1 : ℕ
f1 = 0x3F800000

abbrev pub f2 : ℕ
f2 = 0x40000000

abbrev pub f127 : ℕ
f127 = 0x42FE0000

abbrev pub f_minus_127 : ℕ
f_minus_127 = 0xC2FE0000

-- `x == 0.0f`
abbrev pub eq_zero : Floats → ℕ → Bool
eq_zero fl x = fl.eq x f0

-- The byte of an `int8_t`, and the conversion of a `long` to `int8_t`.
unfoldable pub byte_i8 : ℤ → ℕ
byte_i8 (pos n) = n % 256
byte_i8 (negsuc n) = 255 - n % 256

unfoldable pub int8_of : ℕ → ℤ
int8_of b = if ltb b 128 then pos b else negsuc (255 - b)

unfoldable pub bytes_i8 : List ℤ → List ℕ
bytes_i8 [] = []
bytes_i8 (q ∷ qs) = byte_i8 q ∷ bytes_i8 qs

unfoldable pub ints_i8 : List ℕ → List ℤ
ints_i8 [] = []
ints_i8 (b ∷ bs) = int8_of b ∷ ints_i8 bs

-- The first pass of `QuantizeF32ToI8`: the largest magnitude.
unfoldable pub max_abs : Floats → List ℕ → ℕ → ℕ
max_abs fl [] m = m
max_abs fl (x ∷ xs) m =
    let a = if fl.lt x f0 then fl.neg x else x in max_abs fl xs (if fl.lt m a then a else m)

-- One value: scaled, clamped to [-127, 127] and rounded.
unfoldable pub quantize_value : Floats → ℕ → ℕ → ℕ
quantize_value fl inv_scale x =
    let scaled = fl.mul x inv_scale in
    let below = if fl.lt f127 scaled then f127 else scaled in
    let clamped = if fl.lt below f_minus_127 then f_minus_127 else below in
    byte_i8 (fl.lround clamped)

-- The bytes of the quantized vector, and its scale.
unfoldable pub quantize : Floats → List ℕ → List ℕ × ℕ
quantize fl v =
    let m = max_abs fl v f0 in
    if eq_zero fl m
    then (replicate (length v) 0, f0)
    else (map (quantize_value fl (fl.div f127 m)) v, fl.div m f127)

-- `acc` within `int32_t`, or `none` where the signed addition overflows.
unfoldable pub checked_i32 : ℤ → Option ℤ
checked_i32 (pos n) = if ltb n (2 ^ 31) then some (pos n) else none
checked_i32 (negsuc n) = if ltb n (2 ^ 31) then some (negsuc n) else none

-- `dot_i8`, over the `dim` first values of both arrays.
unfoldable pub dot_i8_from : ℤ → List ℤ → List ℤ → Option ℤ
dot_i8_from acc [] bs = some acc
dot_i8_from acc (a ∷ us) [] = some acc
dot_i8_from acc (a ∷ us) (b ∷ bs) = elim (checked_i32 (acc +ℤ (a *ℤ b))) [
  | none ↦ none
  | some next ↦ dot_i8_from next us bs
]

unfoldable pub dot_i8 : List ℤ → List ℤ → Option ℤ
dot_i8 us bs = dot_i8_from (pos 0) us bs

-- `x <= 0.0f`
abbrev pub not_positive : Floats → ℕ → Bool
not_positive fl x = fl.le x f0

-- One score of `CosineI8Chunk` for the row with this scale and norm.
unfoldable pub cosine_i8_score : Floats → List ℤ → ℕ → ℕ → List ℤ → ℕ → ℕ → Option ℕ
cosine_i8_score fl row scale row_norm q q_scale q_norm =
    if not_positive fl row_norm || not_positive fl scale then some f0 else elim (dot_i8 row q) [
      | none ↦ none
      | some d ↦ some (
          fl.mul (fl.mul (fl.mul (fl.of_int d) scale) q_scale) (fl.div (fl.div f1 q_norm) row_norm))
    ]

-- The loop of both INT8 kernels, with the score that it takes of a row, its scale and its norm. `none` is a
-- score that overflows or an array that is too short.
unfoldable pub rows_i8 :
    (List ℤ → ℕ → ℕ → Option ℕ) → List ℤ → List ℕ → List ℕ → ℕ → ℕ → Option (List ℕ)
rows_i8 f vecs scales norms zero dim = some []
rows_i8 f vecs [] norms (suc n) dim = none
rows_i8 f vecs (s ∷ scales) [] (suc n) dim = none
rows_i8 f vecs (s ∷ scales) (r ∷ norms) (suc n) dim =
    let rest = rows_i8 f (drop dim vecs) scales norms n dim in
    elim (f (take dim vecs) s r) [
      | none ↦ none
      | some x ↦ elim rest [ none ↦ none | some xs ↦ some (x ∷ xs) ]
    ]

-- `CosineI8Chunk`; `none` is a dot product that overflows or an array that is too short.
unfoldable pub cosine_i8_chunk :
    Floats → List ℤ → List ℕ → List ℕ → ℕ → ℕ → List ℤ → ℕ → ℕ → Option (List ℕ)
cosine_i8_chunk fl vecs scales row_norms count dim q q_scale q_norm =
    if not_positive fl q_norm || not_positive fl q_scale
    then some (replicate count f0)
    else rows_i8 (λ row s rn. cosine_i8_score fl row s rn q q_scale q_norm) vecs scales row_norms
        count dim

-- One score of `EuclideanSqI8Chunk`.
unfoldable pub euclidean_i8_score : Floats → List ℤ → ℕ → ℕ → List ℤ → ℕ → ℕ → Option ℕ
euclidean_i8_score fl row scale row_norm q q_scale q_norm = elim (dot_i8 row q) [
  | none ↦ none
  | some d ↦
      let dot_flt = fl.mul (fl.mul (fl.of_int d) scale) q_scale in
      let sq =
        fl.sub (fl.add (fl.mul row_norm row_norm) (fl.mul q_norm q_norm)) (fl.mul f2 dot_flt) in
      some (if fl.lt sq f0 then f0 else sq)
]

-- `EuclideanSqI8Chunk`
unfoldable pub euclidean_i8_chunk :
    Floats → List ℤ → List ℕ → List ℕ → ℕ → ℕ → List ℤ → ℕ → ℕ → Option (List ℕ)
euclidean_i8_chunk fl vecs scales row_norms count dim q q_scale q_norm =
    rows_i8 (λ row s rn. euclidean_i8_score fl row s rn q q_scale q_norm) vecs scales row_norms
      count dim
