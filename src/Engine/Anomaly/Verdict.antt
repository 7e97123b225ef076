-- ===== src/Engine/Anomaly/Verdict.antt =====
-- The answer of `DetectAnomaly` of src/engine.cpp, in terms of the visible entries.
use chronos_vector.Base.{
  ℕ, ◌+◌, ◌-◌, ◌<◌, ◌%◌, ◌^◌, ◌≡◌, refl, ap, sym, ◌∙◌, true, false, some, List, map, length, arith,
  ◌-◌, take, drop, ◌==◌, ==_false, ==_iff,
}
use chronos_vector.Base.Int.{pos}
use chronos_vector.Types.{ok, dtype_float32, metric_cosine}
use chronos_vector.Ring.{Ring, snapshot}
use chronos_vector.Ring.Inv.{IsValid, snapshot_bounds}
use chronos_vector.Ring.Window.{contents, length-contents}
use chronos_vector.Kernels.{Floats}
use chronos_vector.Engine.{Bytes, Engine, SensorSlot, find}
use chronos_vector.Engine.Anomaly.{
  anomaly_verdict, detect_anomaly, detect_ring, mean_distance, window_mean,
}
use chronos_vector.Engine.Anomaly.Mean.{vectors_of, total_of, window_sum-entries}
use chronos_vector.Engine.Scores.Runs.{when_false}

-- The vectors of the visible entries, and how many of them can stand before the end of the array.
abbrev pub visible_vectors : Ring → List (List ℕ)
visible_vectors r = vectors_of r.dim (contents r)

abbrev pub before_end : Ring → ℕ
before_end r = r.capacity - (snapshot r).0 % r.capacity

-- The mean of the visible entries: the sum of the vectors before the end of the array, from 0 on, and then that of the
-- vectors behind it, over their number.
abbrev pub mean_of : Floats → Ring → List ℕ
mean_of fl r =
    map (λ x. fl.div x (fl.of_int (pos (length (contents r)))))
      (total_of fl r.dim (take (before_end r) (visible_vectors r))
        (drop (before_end r) (visible_vectors r)))

-- The distance between the vector and the mean of the visible entries.
abbrev pub window_distance : {S : Type 0} → Floats → Engine S → Ring → List ℕ → ℕ
window_distance fl e r v =
    mean_distance fl (e.cfg.distance_metric == metric_cosine) r.dim (mean_of fl r) v

module _ {S : Type 0} (fl : Floats) (e : Engine S) (id : Bytes) (r : Ring) (v : List ℕ)
    (threshold : ℕ) where
  ring_lem :
      IsValid r
      → r.dtype ≡ dtype_float32
      → 0 < length (contents r)
      → detect_ring fl e id r v r.dim threshold
        ≡ anomaly_verdict fl e id threshold (window_distance fl e r v)
  unfolding detect_ring contents window_mean
  ring_lem valid dtype some_left =
      let n = (snapshot r).1 - (snapshot r).0 in
      when_false _ _ _ (==_false n 0 (omega (arith, length-contents r)))
      ∙ ap
          (λ m.
            anomaly_verdict fl e id threshold
              (mean_distance fl (e.cfg.distance_metric == metric_cosine) r.dim m v))
          (ap (map (λ x. fl.div x (fl.of_int (pos n)))) (
              window_sum-entries fl r valid dtype (snapshot r).0 n
                (omega (arith, snapshot_bounds valid)))
            ∙ ap
                (λ k.
                  map (λ x. fl.div x (fl.of_int (pos k)))
                    (total_of fl r.dim (take (before_end r) (visible_vectors r))
                      (drop (before_end r) (visible_vectors r))))
                (sym (length-contents r)))

  found_lem :
      (slot : SensorSlot)
      → e.closed ≡ false
      → find e.sensors id ≡ some slot
      → slot.ring ≡ some r
      → r.dim ≡ e.cfg.dim
      → detect_anomaly fl e id (some v) r.dim threshold true
        ≡ detect_ring fl e id r v r.dim threshold
  unfolding detect_anomaly
  found_lem slot is_open found ring dim =
      simp (is_open, (==_iff r.dim e.cfg.dim).1 dim, found, ring) refl

  -- `DetectAnomaly` on an open engine, for a sensor with a non-empty valid float32 ring of the engine's dimension,
  -- returns OK, and flags the vector exactly when the threshold is less than its distance from
  -- the mean of all the visible entries, which sums those before the end of the array and then those behind it; it counts one check and leaves the sensors as they are.
  pub detect_anomaly-mean :
      (slot : SensorSlot)
      → e.closed ≡ false
      → find e.sensors id ≡ some slot
      → slot.ring ≡ some r
      → r.dim ≡ e.cfg.dim
      → IsValid r
      → r.dtype ≡ dtype_float32
      → 0 < length (contents r)
      → let answer = detect_anomaly fl e id (some v) r.dim threshold true in
        (answer.error ≡ ok)
        × (answer.is_anomaly ≡ some (fl.lt threshold (window_distance fl e r v)))
        × (answer.engine.sensors ≡ e.sensors)
        × (answer.engine.total_anomaly_checks ≡ (e.total_anomaly_checks + 1) % 2 ^ 64)
  unfolding anomaly_verdict
  detect_anomaly-mean slot is_open found ring dim valid dtype some_left =
      let whole = found_lem slot is_open found ring dim ∙ ring_lem valid dtype some_left in
      (
        ap (λ a. a.error) whole,
        ap (λ a. a.is_anomaly) whole,
        ap (λ a. a.engine.sensors) whole,
        ap (λ a. a.engine.total_anomaly_checks) whole,
      )
