-- ===== src/Bytes/Laws.antt =====
-- Reading back what the byte order helpers wrote.
use native.Mathlib.Nat.{pow-suc}
use chronos_vector.Base.{
  ℕ, zero, suc, ◌+◌, ◌*◌, ◌/◌, ◌^◌, ◌<◌, ◌≡◌, refl, ap, ap₂, ◌∙◌, sym, List, [], ◌∷◌, ◌++◌, take,
  drop, length, length-append, All, take-append_length, drop-append_length, drop-drop, append_assoc,
  arith,
}
use chronos_vector.Base.Int.{ℤ, IsInt64, word64, signed64, signed64-word64, word64-lt}
use chronos_vector.Bytes.{
  put_le, get_le, put_i64_le, get_i64_le, put_i64s, get_i64s, put_u32s, get_u32s, put_u32_le,
}

abbrev pub IsByte : ℕ → Type 0
IsByte b = b < 256

pub length-put_le : (n v : ℕ) → length (put_le n v) ≡ n
unfolding put_le
length-put_le zero v = refl
length-put_le (suc n) v = ap suc (length-put_le n (v / 256))

pub put_le-IsByte : (n v : ℕ) → All IsByte (put_le n v)
unfolding put_le
put_le-IsByte zero v = tt
put_le-IsByte (suc n) v = (omega arith, put_le-IsByte n (v / 256))

pub get_le-put_le : (n v : ℕ) → v < 256 ^ n → get_le (put_le n v) ≡ v
unfolding put_le get_le
get_le-put_le zero v h = omega arith
get_le-put_le (suc n) v h = omega (arith, get_le-put_le n (v / 256) (omega (arith, pow-suc 256 n)))

-- A field at the front of a buffer, read back.
pub get_le-front :
    (n v : ℕ) (rest : List ℕ) → v < 256 ^ n → get_le (take n (put_le n v ++ rest)) ≡ v
get_le-front n v rest h =
    ap get_le (take-append_length n (put_le n v) rest (length-put_le n v)) ∙ get_le-put_le n v h

pub get_i64-front : (z : ℤ) (rest : List ℕ) → IsInt64 z → get_i64_le (put_i64_le z ++ rest) ≡ z
get_i64-front z rest h =
    ap signed64 (get_le-front 8 (word64 z) rest (word64-lt z h)) ∙ signed64-word64 z h

pub drop-front : (n v : ℕ) (rest : List ℕ) → drop n (put_le n v ++ rest) ≡ rest
drop-front n v rest = drop-append_length n (put_le n v) rest (length-put_le n v)

pub length-put_i64s : (ts : List ℤ) → length (put_i64s ts) ≡ length ts * 8
unfolding put_i64s
length-put_i64s [] = refl
length-put_i64s (t ∷ ts) = omega (
  arith,
  length-append (put_i64_le t) (put_i64s ts),
  length-put_le 8 (word64 t),
  length-put_i64s ts,
)

pub length-put_u32s : (ts : List ℕ) → length (put_u32s ts) ≡ length ts * 4
unfolding put_u32s
length-put_u32s [] = refl
length-put_u32s (t ∷ ts) =
    omega (arith, length-append (put_u32_le t) (put_u32s ts), length-put_le 4 t, length-put_u32s ts)

-- The array of `int64_t`, read back.
pub get_i64s-put_i64s :
    (ts : List ℤ) (rest : List ℕ) → All IsInt64 ts → get_i64s (length ts) (put_i64s ts ++ rest) ≡ ts
unfolding put_i64s get_i64s
get_i64s-put_i64s [] rest h = refl
get_i64s-put_i64s (t ∷ ts) rest (ht, hts) = rw (append_assoc (put_i64_le t) (put_i64s ts) rest) (
    ap₂ ◌∷◌ (get_i64-front t (put_i64s ts ++ rest) ht) (
      ap (get_i64s (length ts)) (drop-front 8 (word64 t) (put_i64s ts ++ rest))
      ∙ get_i64s-put_i64s ts rest hts))

-- The array of floats, read back as the words that hold them.
pub get_u32s-put_u32s :
    (ts : List ℕ) (rest : List ℕ)
    → All (λ w. w < 2 ^ 32) ts
    → get_u32s (length ts) (put_u32s ts ++ rest) ≡ ts
unfolding put_u32s get_u32s
get_u32s-put_u32s [] rest h = refl
get_u32s-put_u32s (t ∷ ts) rest (ht, hts) = rw (append_assoc (put_u32_le t) (put_u32s ts) rest) (
    ap₂ ◌∷◌ (get_le-front 4 t (put_u32s ts ++ rest) ht) (
      ap (get_u32s (length ts)) (drop-front 4 t (put_u32s ts ++ rest))
      ∙ get_u32s-put_u32s ts rest hts))

-- The offset behind a field, from the offset of the field.
pub next_field :
    (off n v : ℕ) (xs ys : List ℕ) → drop off xs ≡ put_le n v ++ ys → drop (off + n) xs ≡ ys
next_field off n v xs ys e = sym (drop-drop n off xs) ∙ ap (drop n) e ∙ drop-front n v ys

pub length-field : (n v : ℕ) (rest : List ℕ) → length (put_le n v ++ rest) ≡ n + length rest
length-field n v rest = omega (arith, length-append (put_le n v) rest, length-put_le n v)
