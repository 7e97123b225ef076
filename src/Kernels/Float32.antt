-- ===== src/Kernels/Float32.antt =====
-- The float32 kernels of src/kernels.cpp. Eigen's array expressions are taken entry by entry: entry `i` of
-- `W.transpose() * q` is `dot` of row `i` and `q`, and the rest is arithmetic on that entry.
use chronos_vector.Base.{ℕ, zero, suc, List, [], ◌∷◌, take, drop, get_or, if◌then◌else◌}
use chronos_vector.Kernels.{Floats, f0, f2}

-- One score of `CosineF32Chunk` for the row with this norm: 0 where a norm is not positive.
unfoldable pub cosine_f32_score : Floats → List ℕ → ℕ → List ℕ → ℕ → ℕ
cosine_f32_score fl row row_norm q qn =
    if fl.lt f0 qn
    then if fl.lt f0 row_norm then fl.div (fl.dot row q) (fl.mul row_norm qn) else f0
    else f0

-- One score of `EuclideanSqF32Chunk`, `max` included.
unfoldable pub euclidean_f32_score : Floats → List ℕ → ℕ → List ℕ → ℕ → ℕ
euclidean_f32_score fl row row_norm q qn =
    let sq = fl.sub (fl.add (fl.mul row_norm row_norm) (fl.mul qn qn)) (fl.mul f2 (fl.dot row q)) in
    if fl.lt sq f0 then f0 else sq

-- One score for each of `count` rows of `dim` floats, which stand one after the other, with their norms.
unfoldable pub rows_f32 : (List ℕ → ℕ → ℕ) → List ℕ → List ℕ → ℕ → ℕ → List ℕ
rows_f32 f vecs norms zero dim = []
rows_f32 f vecs norms (suc n) dim =
    f (take dim vecs) (get_or norms 0 0) ∷ rows_f32 f (drop dim vecs) (drop 1 norms) n dim

unfoldable pub cosine_f32_chunk : Floats → List ℕ → List ℕ → ℕ → ℕ → List ℕ → ℕ → List ℕ
cosine_f32_chunk fl vecs norms count dim q qn =
    rows_f32 (λ row rn. cosine_f32_score fl row rn q qn) vecs norms count dim

unfoldable pub euclidean_f32_chunk : Floats → List ℕ → List ℕ → ℕ → ℕ → List ℕ → ℕ → List ℕ
euclidean_f32_chunk fl vecs norms count dim q qn =
    rows_f32 (λ row rn. euclidean_f32_score fl row rn q qn) vecs norms count dim
