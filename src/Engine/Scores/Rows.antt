-- ===== src/Engine/Scores/Rows.antt =====
-- The loops of the kernels of src/kernels.cpp over a chunk of the ring's arrays, row by row.
use chronos_vector.Base.{
  ℕ, zero, suc, ◌+◌, ◌*◌, ◌≡◌, refl, ap, ap₂, sym, ◌∙◌, Option, none, some, List, [], ◌∷◌, ◌++◌,
  map, take, drop, length, arith, take-append_length, drop-append_length,
}
use chronos_vector.Base.Int.{ℤ}
use chronos_vector.Base.Memory.{read_bytes, length-read_bytes}
use chronos_vector.Bytes.{get_u32s, get_u32_le}
use chronos_vector.Kernels.{ints_i8, int8_of, rows_i8}
use chronos_vector.Kernels.Float32.{rows_f32}

suc_plus : (a b : ℕ) → suc a + b ≡ suc (a + b)
suc_plus a b = omega arith

read_bytes-add :
    (m : ℕ → ℕ) (off a b : ℕ)
    → read_bytes m off (a + b) ≡ read_bytes m off a ++ read_bytes m (off + a) b
unfolding read_bytes
read_bytes-add m off zero b = ap₂ (read_bytes m) (omega arith) (omega arith)
read_bytes-add m off (suc a) b =
    ap (read_bytes m off) (suc_plus a b)
    ∙ ap (λ t. m off ∷ t)
        (read_bytes-add m (off + 1) a b
          ∙ ap (λ k. read_bytes m (off + 1) a ++ read_bytes m k b) (omega arith))

-- Decoding the rows one after the other.
length-get_u32s : (n : ℕ) (p : List ℕ) → length (get_u32s n p) ≡ n
unfolding get_u32s
length-get_u32s zero p = refl
length-get_u32s (suc n) p = ap suc (length-get_u32s n (drop 4 p))

get_u32s-append :
    (a b : ℕ) (xs ys : List ℕ)
    → length xs ≡ a * 4
    → get_u32s (a + b) (xs ++ ys) ≡ get_u32s a xs ++ get_u32s b ys
unfolding get_u32s
get_u32s-append zero b [] ys h = ap (λ n. get_u32s n ys) (omega arith)
get_u32s-append zero b (x ∷ xs) ys h = absurd (omega arith)
get_u32s-append (suc a) b (w ∷ x ∷ y ∷ z ∷ xs) ys h =
    ap (λ n. get_u32s n (w ∷ x ∷ y ∷ z ∷ (xs ++ ys))) (suc_plus a b)
    ∙ ap (λ t. get_u32_le (w ∷ x ∷ y ∷ z ∷ []) ∷ t) (get_u32s-append a b xs ys (omega arith))
get_u32s-append (suc a) b [] ys h = absurd (omega arith)
get_u32s-append (suc a) b (w ∷ []) ys h = absurd (omega arith)
get_u32s-append (suc a) b (w ∷ x ∷ []) ys h = absurd (omega arith)
get_u32s-append (suc a) b (w ∷ x ∷ y ∷ []) ys h = absurd (omega arith)

length-ints_i8 : (p : List ℕ) → length (ints_i8 p) ≡ length p
unfolding ints_i8
length-ints_i8 [] = refl
length-ints_i8 (b ∷ p) = ap suc (length-ints_i8 p)

ints_i8-append : (p q : List ℕ) → ints_i8 (p ++ q) ≡ ints_i8 p ++ ints_i8 q
unfolding ints_i8
ints_i8-append [] q = refl
ints_i8-append (b ∷ p) q = ap (λ t. int8_of b ∷ t) (ints_i8-append p q)

-- The slots from `start` on.
abbrev pub slots_from : ℕ → ℕ → List ℕ
slots_from start zero = []
slots_from start (suc n) = start ∷ slots_from (start + 1) n

row_start : (start dim : ℕ) → (start + 1) * dim ≡ start * dim + dim
row_start start dim = omega arith

more_rows : (n dim : ℕ) → suc n * dim ≡ dim + n * dim
more_rows n dim = omega arith

bytes_lem : (n dim : ℕ) → suc n * dim * 4 ≡ dim * 4 + n * dim * 4
bytes_lem n dim = omega arith

next_row : (start dim : ℕ) → start * dim * 4 + dim * 4 ≡ (start + 1) * dim * 4
next_row start dim = omega arith

-- The floats of the chunk at slot `start` are those of its first row, then those of the others.
pub chunk_words :
    (m : ℕ → ℕ) (start n dim : ℕ)
    → get_u32s (suc n * dim) (read_bytes m (start * dim * 4) (suc n * dim * 4))
      ≡ get_u32s dim (read_bytes m (start * dim * 4) (dim * 4))
        ++ get_u32s (n * dim) (read_bytes m ((start + 1) * dim * 4) (n * dim * 4))
chunk_words m start n dim =
    ap₂ (λ c k. get_u32s c (read_bytes m (start * dim * 4) k)) (more_rows n dim) (bytes_lem n dim)
    ∙ ap (get_u32s (dim + n * dim)) (read_bytes-add m (start * dim * 4) (dim * 4) (n * dim * 4))
    ∙ get_u32s-append dim (n * dim) (read_bytes m (start * dim * 4) (dim * 4))
        (read_bytes m (start * dim * 4 + dim * 4) (n * dim * 4))
        (length-read_bytes m (start * dim * 4) (dim * 4))
    ∙ ap
        (λ off.
          get_u32s dim (read_bytes m (start * dim * 4) (dim * 4))
          ++ get_u32s (n * dim) (read_bytes m off (n * dim * 4)))
        (next_row start dim)

-- The float rows of the chunk at slot `start`.
pub rows_f32_lem :
    (f : List ℕ → ℕ → ℕ) (m norms : ℕ → ℕ) (start n dim : ℕ)
    → rows_f32 f
        (get_u32s (n * dim) (read_bytes m (start * dim * 4) (n * dim * 4)))
        (read_bytes norms start n)
        n
        dim
      ≡ map
          (λ j. f (get_u32s dim (read_bytes m (j * dim * 4) (dim * 4))) (norms j))
          (slots_from start n)
unfolding rows_f32 read_bytes
rows_f32_lem f m norms start zero dim = refl
rows_f32_lem f m norms start (suc n) dim =
    ap₂ ◌∷◌
      (ap (λ t. f t (norms start))
        (ap (take dim) (chunk_words m start n dim)
          ∙ take-append_length dim _ _ (length-get_u32s dim _)))
      (ap (λ t. rows_f32 f t (read_bytes norms (start + 1) n) n dim)
          (ap (drop dim) (chunk_words m start n dim)
            ∙ drop-append_length dim _ _ (length-get_u32s dim _))
        ∙ rows_f32_lem f m norms (start + 1) n dim)

-- A score in front of others, if there are both.
abbrev pub cons_some : Option ℕ → Option (List ℕ) → Option (List ℕ)
cons_some o rest = elim o [
  | none ↦ none
  | some x ↦ elim rest [ none ↦ none | some xs ↦ some (x ∷ xs) ]
]

-- All the scores, if there is each of them.
unfoldable pub all_some : List (Option ℕ) → Option (List ℕ)
all_some [] = some []
all_some (o ∷ os) = cons_some o (all_some os)

-- The INT8 rows of the chunk at slot `start`.
pub rows_i8_lem :
    (f : List ℤ → ℕ → ℕ → Option ℕ) (m scales norms : ℕ → ℕ) (start n dim : ℕ)
    → rows_i8 f
        (ints_i8 (read_bytes m (start * dim) (n * dim)))
        (read_bytes scales start n)
        (read_bytes norms start n)
        n
        dim
      ≡ all_some (
          map
            (λ j. f (ints_i8 (read_bytes m (j * dim) dim)) (scales j) (norms j))
            (slots_from start n))
unfolding rows_i8 read_bytes all_some
rows_i8_lem f m scales norms start zero dim = refl
rows_i8_lem f m scales norms start (suc n) dim =
    ap₂ cons_some
      (ap (λ t. f t (scales start) (norms start))
        (ap (take dim) whole ∙ take-append_length dim row others size))
      (ap
          (λ t.
            rows_i8 f t (read_bytes scales (start + 1) n) (read_bytes norms (start + 1) n) n dim)
          (ap (drop dim) whole ∙ drop-append_length dim row others size)
        ∙ rows_i8_lem f m scales norms (start + 1) n dim)
  where
    row : List ℤ
    row = ints_i8 (read_bytes m (start * dim) dim)

    others : List ℤ
    others = ints_i8 (read_bytes m ((start + 1) * dim) (n * dim))

    size : length row ≡ dim
    size = length-ints_i8 (read_bytes m (start * dim) dim) ∙ length-read_bytes m (start * dim) dim

    whole : ints_i8 (read_bytes m (start * dim) (suc n * dim)) ≡ row ++ others
    whole =
        ap (λ k. ints_i8 (read_bytes m (start * dim) k)) (more_rows n dim)
        ∙ ap ints_i8 (read_bytes-add m (start * dim) dim (n * dim))
        ∙ ints_i8-append (read_bytes m (start * dim) dim)
            (read_bytes m (start * dim + dim) (n * dim))
        ∙ ap (λ off. row ++ ints_i8 (read_bytes m off (n * dim))) (sym (row_start start dim))
