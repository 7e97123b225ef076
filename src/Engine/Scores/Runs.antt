-- ===== src/Engine/Scores/Runs.antt =====
-- One call of a kernel in `FillScoresForRange` of src/engine.cpp, row by row.
use chronos_vector.Base.{
  ℕ, zero, suc, ◌+◌, ◌*◌, ◌≡◌, refl, ap, sym, ◌∙◌, inl, inr, Bool, true, false, ◌||◌, Option, none,
  some, List, [], ◌∷◌, ◌++◌, map, arith, ◌==◌, if◌then◌else◌, ==_false, Option-cases, replicate,
  length,
}
use chronos_vector.Base.Int.{ℤ}
use chronos_vector.Base.Memory.{read_bytes}
use chronos_vector.Bytes.{get_u32s}
use chronos_vector.Ring.{Ring}
use chronos_vector.Kernels.{
  Floats, f0, ints_i8, not_positive, cosine_i8_score, euclidean_i8_score, cosine_i8_chunk,
  euclidean_i8_chunk, rows_i8,
}
use chronos_vector.Kernels.Float32.{
  cosine_f32_score, euclidean_f32_score, cosine_f32_chunk, euclidean_f32_chunk, rows_f32,
}
use chronos_vector.Engine.Scores.{Query, run_i8, run_f32, joined}
use chronos_vector.Engine.Scores.Rows.{rows_f32_lem, rows_i8_lem, all_some, cons_some, slots_from}

abbrev pub f32_score : Floats → Query → List ℕ → ℕ → ℕ
f32_score fl q row rn =
    if q.is_cosine
    then cosine_f32_score fl row rn q.q_f32 q.qn
    else euclidean_f32_score fl row rn q.q_f32 q.qn

abbrev pub i8_score : Floats → Query → List ℤ → ℕ → ℕ → Option ℕ
i8_score fl q row scale rn =
    if q.is_cosine
    then if not_positive fl q.qn || not_positive fl q.q_scale
      then some f0
      else cosine_i8_score fl row scale rn q.q_i8 q.q_scale q.qn
    else euclidean_i8_score fl row scale rn q.q_i8 q.q_scale q.qn

pub all_some-map : (g : ℕ → ℕ) (xs : List ℕ) → all_some (map (λ j. some (g j)) xs) ≡ some (map g xs)
unfolding all_some
all_some-map g [] = refl
all_some-map g (x ∷ xs) = rw (all_some-map g xs) refl

joined_cons :
    (x : ℕ) (a b : Option (List ℕ))
    → cons_some (some x) (joined a b) ≡ joined (cons_some (some x) a) b
joined_cons x none b = refl
joined_cons x (some xs) none = refl
joined_cons x (some xs) (some ys) = refl

pub all_some-append :
    (xs ys : List (Option ℕ)) → all_some (xs ++ ys) ≡ joined (all_some xs) (all_some ys)
unfolding all_some
all_some-append [] ys = elim (Option-cases (all_some ys)) [
  | inl e ↦ rw e refl
  | inr (l, e) ↦ rw e refl
]
all_some-append (none ∷ xs) ys = refl
all_some-append (some x ∷ xs) ys =
    ap (cons_some (some x)) (all_some-append xs ys) ∙ joined_cons x (all_some xs) (all_some ys)

replicate_lem : (xs : List ℕ) → all_some (map (λ j. some f0) xs) ≡ some (replicate (length xs) f0)
unfolding all_some
replicate_lem [] = refl
replicate_lem (x ∷ xs) = rw (replicate_lem xs) refl

pub when_true {ℓ} : {A : Type ℓ} (t : Bool) (x y : A) → t ≡ true → (if t then x else y) ≡ x
when_true t x y h = ap (λ z. if z then x else y) h

pub when_false {ℓ} : {A : Type ℓ} (t : Bool) (x y : A) → t ≡ false → (if t then x else y) ≡ y
when_false t x y h = ap (λ z. if z then x else y) h

nonempty {ℓ} : {A : Type ℓ} (n : ℕ) (x y : A) → (if suc n == 0 then x else y) ≡ y
nonempty n x y = ap (λ z. if z then x else y) (==_false (suc n) 0 (omega arith))

length-slots : (start n : ℕ) → length (slots_from start n) ≡ n
length-slots start zero = refl
length-slots start (suc n) = ap suc (length-slots (start + 1) n)

module _ (fl : Floats) (r : Ring) (q : Query) where
  abbrev pub f32_at : ℕ → ℕ
  f32_at j =
      f32_score fl q (get_u32s r.dim (read_bytes r.vectors (j * r.dim * 4) (r.dim * 4))) (r.norms j)

  abbrev pub i8_at : ℕ → Option ℕ
  i8_at j =
      i8_score fl q (ints_i8 (read_bytes r.vectors (j * r.dim) r.dim)) (r.scales j) (r.norms j)

  by_metric_f32 :
      (t : Bool) (vecs norms : List ℕ) (n : ℕ)
      → (if t
          then cosine_f32_chunk fl vecs norms n r.dim q.q_f32 q.qn
          else euclidean_f32_chunk fl vecs norms n r.dim q.q_f32 q.qn)
        ≡ rows_f32
            (λ row rn.
              if t
              then cosine_f32_score fl row rn q.q_f32 q.qn
              else euclidean_f32_score fl row rn q.q_f32 q.qn)
            vecs
            norms
            n
            r.dim
  unfolding cosine_f32_chunk euclidean_f32_chunk
  by_metric_f32 true vecs norms n = refl
  by_metric_f32 false vecs norms n = refl

  pub run_f32_lem : (start n : ℕ) → run_f32 fl r q r.dim start n ≡ map f32_at (slots_from start n)
  unfolding run_f32
  run_f32_lem start zero = refl
  run_f32_lem start (suc n) =
      nonempty n _ _
      ∙ by_metric_f32 q.is_cosine _ _ (suc n)
      ∙ rows_f32_lem (f32_score fl q) r.vectors r.norms start (suc n) r.dim

  -- The score of a row where the shortcut of the cosine kernel is taken.
  shortcut :
      (t : Bool) (f : List ℤ → ℕ → ℕ → Option ℕ) (start n : ℕ)
      → (if t
          then some (replicate n f0)
          else rows_i8 f
              (ints_i8 (read_bytes r.vectors (start * r.dim) (n * r.dim)))
              (read_bytes r.scales start n)
              (read_bytes r.norms start n)
              n
              r.dim)
        ≡ all_some (
            map
              (λ j.
                if t
                then some f0
                else f (ints_i8 (read_bytes r.vectors (j * r.dim) r.dim)) (r.scales j) (r.norms j))
              (slots_from start n))
  shortcut true f start n =
      ap (λ k. some (replicate k f0)) (sym (length-slots start n))
      ∙ sym (replicate_lem (slots_from start n))
  shortcut false f start n = rows_i8_lem f r.vectors r.scales r.norms start n r.dim

  by_metric_i8 :
      (t : Bool) (start n : ℕ)
      → (let vecs = ints_i8 (read_bytes r.vectors (start * r.dim) (n * r.dim)) in
          let scales = read_bytes r.scales start n in
          let norms = read_bytes r.norms start n in
          if t
          then cosine_i8_chunk fl vecs scales norms n r.dim q.q_i8 q.q_scale q.qn
          else euclidean_i8_chunk fl vecs scales norms n r.dim q.q_i8 q.q_scale q.qn)
        ≡ all_some (
            map
              (λ j.
                let row = ints_i8 (read_bytes r.vectors (j * r.dim) r.dim) in
                if t
                then if not_positive fl q.qn || not_positive fl q.q_scale
                  then some f0
                  else cosine_i8_score fl row (r.scales j) (r.norms j) q.q_i8 q.q_scale q.qn
                else euclidean_i8_score fl row (r.scales j) (r.norms j) q.q_i8 q.q_scale q.qn)
              (slots_from start n))
  unfolding cosine_i8_chunk euclidean_i8_chunk
  by_metric_i8 true start n =
      shortcut (not_positive fl q.qn || not_positive fl q.q_scale)
        (λ row s rn. cosine_i8_score fl row s rn q.q_i8 q.q_scale q.qn) start n
  by_metric_i8 false start n =
      rows_i8_lem (λ row s rn. euclidean_i8_score fl row s rn q.q_i8 q.q_scale q.qn) r.vectors
        r.scales r.norms start n r.dim

  pub run_i8_lem :
      (start n : ℕ) → run_i8 fl r q r.dim start n ≡ all_some (map i8_at (slots_from start n))
  unfolding run_i8 all_some
  run_i8_lem start zero = refl
  run_i8_lem start (suc n) = nonempty n _ _ ∙ by_metric_i8 q.is_cosine start (suc n)
