-- ===== src/Engine/Scores.antt =====
-- `FillScoresForRange` of src/engine.cpp. A pointer into an array of the ring is the list of what the kernel reads
-- from there on; a score list is `none` where an INT8 dot product overflows.
pub mod Rows
pub mod Wrap
pub mod Runs
pub mod Chunks
use chronos_vector.Base.{
  ℕ, zero, suc, ◌+◌, ◌-◌, ◌*◌, Bool, true, false, Option, none, some, List, [], ◌∷◌, ◌++◌, min, ltb,
  ◌==◌, if◌then◌else◌,
}
use chronos_vector.Base.Int.{ℤ}
use chronos_vector.Base.Memory.{read_bytes}
use chronos_vector.Bytes.{get_u32s}
use chronos_vector.Types.{dtype_int8}
use chronos_vector.Ring.{Ring, slot, sub_u64}
use chronos_vector.Kernels.{Floats, ints_i8, cosine_i8_chunk, euclidean_i8_chunk}
use chronos_vector.Kernels.Float32.{cosine_f32_chunk, euclidean_f32_chunk}

-- The query as the kernels take it: its floats and norm, and its quantized values and scale.
pub record Query : Type 0 where
  pub q_f32 : List ℕ
  pub qn : ℕ
  pub q_i8 : List ℤ
  pub q_scale : ℕ
  pub is_cosine : Bool

-- The two lambdas `run`: the scores of `count` rows from slot `start` on.
unfoldable pub run_i8 : Floats → Ring → Query → ℕ → ℕ → ℕ → Option (List ℕ)
run_i8 fl r q dim start count =
    let vecs = ints_i8 (read_bytes r.vectors (start * dim) (count * dim)) in
    let scales = read_bytes r.scales start count in
    let norms = read_bytes r.norms start count in
    if count == 0
    then some []
    else if q.is_cosine
    then cosine_i8_chunk fl vecs scales norms count dim q.q_i8 q.q_scale q.qn
    else euclidean_i8_chunk fl vecs scales norms count dim q.q_i8 q.q_scale q.qn

unfoldable pub run_f32 : Floats → Ring → Query → ℕ → ℕ → ℕ → List ℕ
run_f32 fl r q dim start count =
    let vecs = get_u32s (count * dim) (read_bytes r.vectors (start * dim * 4) (count * dim * 4)) in
    let norms = read_bytes r.norms start count in
    if count == 0
    then []
    else if q.is_cosine
    then cosine_f32_chunk fl vecs norms count dim q.q_f32 q.qn
    else euclidean_f32_chunk fl vecs norms count dim q.q_f32 q.qn

-- Two lists of scores, one after the other.
abbrev pub joined : Option (List ℕ) → Option (List ℕ) → Option (List ℕ)
joined none ys = none
joined (some xs) none = none
joined (some xs) (some ys) = some (xs ++ ys)

-- `FillScoresForRange`: the `n` slots from that of `begin` on are one chunk, or two where they wrap.
unfoldable pub fill_scores : Floats → Ring → Query → ℕ → ℕ → ℕ → Option (List ℕ)
fill_scores fl r q dim begin n =
    let start_slot = slot r begin in
    let first_len = min n (sub_u64 r.capacity start_slot) in
    let wraps = ltb first_len n in
    if r.dtype == dtype_int8
    then joined (run_i8 fl r q dim start_slot first_len)
        (if wraps then run_i8 fl r q dim 0 (n - first_len) else some [])
    else some (
        run_f32 fl r q dim start_slot first_len
        ++ (if wraps then run_f32 fl r q dim 0 (n - first_len) else []))
