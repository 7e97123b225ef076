-- ===== src/Engine/Anomaly.antt =====
-- `DetectAnomaly` of src/engine.cpp. A float is its word. `none` where the code leaves `*out_is_anomaly` as it is.
pub mod Mean
pub mod Verdict
use chronos_vector.Base.{
  ℕ, zero, suc, ◌+◌, ◌-◌, ◌*◌, Bool, true, false, not, ◌&&◌, Option, none, some, List, [], ◌∷◌, map,
  replicate, min, ltb, ◌==◌, if◌then◌else◌, get_or,
}
use chronos_vector.Base.Int.{pos}
use chronos_vector.Base.Memory.{read_bytes}
use chronos_vector.Bytes.{get_u32s}
use chronos_vector.Types.{
  ErrorCode, ok, err_closed, err_dim_mismatch, err_invalid_arg, err_not_found, metric_cosine,
}
use chronos_vector.Ring.{Ring, slot, snapshot, add_u64, sub_u64}
use chronos_vector.Kernels.{Floats, f0, f1}
use chronos_vector.Kernels.Float32.{cosine_f32_chunk, euclidean_f32_chunk}
use chronos_vector.Engine.{Bytes, Engine, Event, on_anomaly_detected, hears, find}
use chronos_vector.Engine.Ingest.{note}

-- `mean += W.rowwise().sum()`, entry by entry.
unfoldable pub add_floats : Floats → List ℕ → List ℕ → List ℕ
add_floats fl [] ys = []
add_floats fl (x ∷ xs) [] = x ∷ xs
add_floats fl (x ∷ xs) (y ∷ ys) = fl.add x y ∷ add_floats fl xs ys

-- `W.rowwise().sum()` for the `count` vectors from slot `start` on, which the code reads as floats.
unfoldable pub chunk_sum : Floats → Ring → ℕ → ℕ → ℕ → List ℕ
chunk_sum fl r dim start count =
    fl.row_sums dim
      (get_u32s (count * dim) (read_bytes r.vectors (start * dim * 4) (count * dim * 4)))

-- The sum of the vectors of `n` entries from `begin` on, in one chunk, or in two where they wrap.
unfoldable pub window_sum : Floats → Ring → ℕ → ℕ → ℕ → List ℕ
window_sum fl r dim begin n =
    let start_slot = slot r begin in
    let first_len = min n (sub_u64 r.capacity start_slot) in
    let first = add_floats fl (replicate dim f0) (chunk_sum fl r dim start_slot first_len) in
    if ltb first_len n then add_floats fl first (chunk_sum fl r dim 0 (n - first_len)) else first

-- `mean /= static_cast<float>(N)`
unfoldable pub window_mean : Floats → Ring → ℕ → ℕ → ℕ → List ℕ
window_mean fl r dim begin n = map (λ x. fl.div x (fl.of_int (pos n))) (window_sum fl r dim begin n)

-- The distance of `v` from the mean, by the engine's metric.
unfoldable pub mean_distance : Floats → Bool → ℕ → List ℕ → List ℕ → ℕ
mean_distance fl is_cosine dim mean v =
    let norms = fl.l2_norm mean ∷ [] in
    let vn = fl.l2_norm v in
    if is_cosine
    then fl.sub f1 (get_or (cosine_f32_chunk fl mean norms 1 dim v vn) 0 f0)
    else let sq = get_or (euclidean_f32_chunk fl mean norms 1 dim v vn) 0 f0 in
      fl.sqrt (if fl.lt f0 sq then sq else f0)

-- What a check returns: the code, the flag, and the engine.
pub record AnomalyAnswer (S : Type 0) : Type 0 where
  pub error : ErrorCode
  pub is_anomaly : Option Bool
  pub engine : Engine S

abbrev pub count_check : {S : Type 0} → Engine S → Engine S
count_check e = record e { total_anomaly_checks = add_u64 e.total_anomaly_checks 1 }

-- The answer for a distance.
unfoldable pub anomaly_verdict : {S : Type 0} → Floats → Engine S → Bytes → ℕ → ℕ → AnomalyAnswer S
anomaly_verdict fl e id threshold distance =
    let is_anom = fl.lt threshold distance in
    let heard = is_anom && hears e.sink (λ s. s.hears_anomaly) in
    record {
      error = ok;
      is_anomaly = some is_anom;
      engine = note (count_check e) heard (on_anomaly_detected id distance);
    }

unfoldable pub detect_ring :
    {S : Type 0} → Floats → Engine S → Bytes → Ring → List ℕ → ℕ → ℕ → AnomalyAnswer S
detect_ring fl e id r v dim threshold =
    let s = snapshot r in
    if s.1 - s.0 == 0
    then record { error = ok; is_anomaly = some false; engine = count_check e }
    else anomaly_verdict fl e id threshold (
        mean_distance fl (e.cfg.distance_metric == metric_cosine) dim
          (window_mean fl r dim s.0 (s.1 - s.0)) v)

-- `DetectAnomaly`; `output` is whether `out_is_anomaly` is non-null. `v` has `dim` floats.
unfoldable pub detect_anomaly :
    {S : Type 0} → Floats → Engine S → Bytes → Option (List ℕ) → ℕ → ℕ → Bool → AnomalyAnswer S
detect_anomaly fl e id v dim threshold output =
    if e.closed
    then record { error = err_closed; is_anomaly = none; engine = e }
    else if not (dim == e.cfg.dim)
    then record { error = err_dim_mismatch; is_anomaly = none; engine = e }
    else elim v [
      | none ↦ record { error = err_invalid_arg; is_anomaly = none; engine = e }
      | some floats ↦
          if not output
          then record { error = err_invalid_arg; is_anomaly = none; engine = e }
          else elim (find e.sensors id) [
            | none ↦ record { error = err_not_found; is_anomaly = some false; engine = e }
            | some slot ↦ elim slot.ring [
              | none ↦ record { error = ok; is_anomaly = some false; engine = e }
              | some r ↦ detect_ring fl e id r floats dim threshold
            ]
          ]
    ]
