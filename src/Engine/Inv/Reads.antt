-- ===== src/Engine/Inv/Reads.antt =====
-- The queries of src/engine.cpp leave the configuration and the sensors as they are.
use chronos_vector.Base.{
  ℕ, ◌-◌, ◌≡◌, ◌^◌, refl, Bool, true, false, not, ◌||◌, Option, none, some, List, if◌then◌else◌,
  ◌==◌, ltb,
}
use chronos_vector.Base.Int.{ℤ, pos, negsuc, ltb_ℤ}
use chronos_vector.Ring.{Ring, snapshot}
use chronos_vector.Kernels.{Floats}
use chronos_vector.Engine.{Bytes, Engine, SensorSlot, find}
use chronos_vector.Engine.Query.{RangeAnswer, query_range, query_ring}
use chronos_vector.Engine.Nearest.{
  HeapOps, NearestAnswer, nearest_rows, nearest_ring, query_nearest_n,
}
use chronos_vector.Engine.Anomaly.{AnomalyAnswer, anomaly_verdict, detect_ring, detect_anomaly}

-- A choice between answers that both satisfy `P`.
pub chosen : {A : Type 0} (P : A → Type 0) (t : Bool) {x y : A} → P x → P y → P (if t then x else y)
chosen P true p q = p
chosen P false p q = q

-- The answer for a sensor that may be unknown, or without a ring.
pub looked_up :
    {A : Type 0} (P : A → Type 0) (o : Option SensorSlot) (unknown empty : A) (f : Ring → A)
    → P unknown
    → P empty
    → ((r : Ring) → P (f r))
    → P (elim o [ none ↦ unknown | some slot ↦ elim slot.ring [ none ↦ empty | some r ↦ f r ] ])
looked_up P none unknown empty f p q k = p
looked_up P (some slot) unknown empty f p q k = inside slot.ring
  where
    inside : (o : Option Ring) → P (elim o [ none ↦ empty | some r ↦ f r ])
    inside none = q
    inside (some r) = k r

module _ {S : Type 0} (e : Engine S) where
  abbrev pub Unchanged : Engine S → Type 0
  Unchanged e' = (e'.cfg ≡ e.cfg) × (e'.sensors ≡ e.sensors)

  abbrev RangeKeeps : RangeAnswer S → Type 0
  RangeKeeps a = Unchanged a.engine

  pub query_range-Unchanged :
      (id : Bytes) (t_start t_end max : ℤ) (outputs : Bool)
      → Unchanged (query_range e id t_start t_end max outputs).engine
  unfolding query_range query_ring
  query_range-Unchanged id t_start t_end (negsuc max) outputs = (refl, refl)
  query_range-Unchanged id t_start t_end (pos max) outputs =
      chosen RangeKeeps e.closed (refl, refl)
        (chosen RangeKeeps (max == 0 || not outputs || ltb_ℤ t_end t_start) (refl, refl)
          (looked_up RangeKeeps (find e.sensors id) _ _ (λ r. query_ring e r t_start t_end max)
            (refl, refl) (refl, refl) (λ r. chosen RangeKeeps _ (refl, refl) (refl, refl))))

  abbrev AnomalyKeeps : AnomalyAnswer S → Type 0
  AnomalyKeeps a = Unchanged a.engine

  pub detect_anomaly-Unchanged :
      (fl : Floats) (id : Bytes) (v : Option (List ℕ)) (dim threshold : ℕ) (output : Bool)
      → Unchanged (detect_anomaly fl e id v dim threshold output).engine
  unfolding detect_anomaly detect_ring anomaly_verdict
  detect_anomaly-Unchanged fl id none dim threshold output =
      chosen AnomalyKeeps e.closed (refl, refl)
        (chosen AnomalyKeeps (not (dim == e.cfg.dim)) (refl, refl) (refl, refl))
  detect_anomaly-Unchanged fl id (some v) dim threshold output =
      chosen AnomalyKeeps e.closed (refl, refl)
        (chosen AnomalyKeeps (not (dim == e.cfg.dim)) (refl, refl)
          (chosen AnomalyKeeps (not output) (refl, refl)
            (looked_up AnomalyKeeps (find e.sensors id) _ _
              (λ r. detect_ring fl e id r v dim threshold) (refl, refl) (refl, refl)
              (λ r. chosen AnomalyKeeps _ (refl, refl) (refl, refl)))))

  abbrev pub NearestKeeps : Option (NearestAnswer S) → Type 0
  NearestKeeps none = Unit {0}
  NearestKeeps (some a) = Unchanged a.engine

  nearest_ring-Unchanged :
      (fl : Floats) (ops : HeapOps) (id : Bytes) (r : Ring) (target : List ℕ) (n : ℕ)
      → NearestKeeps (nearest_ring fl ops e id r target n)
  unfolding nearest_ring nearest_rows
  nearest_ring-Unchanged fl ops id r target n =
      chosen NearestKeeps ((snapshot r).1 - (snapshot r).0 == 0) (refl, refl)
        (chosen NearestKeeps (ltb ((snapshot r).1 - (snapshot r).0) (2 ^ 31)) (scored _) tt)
    where
      scored :
          (o : Option (List ℕ))
          → NearestKeeps
              (elim o [ none ↦ none | some scores ↦ some (nearest_rows fl ops e id r n scores) ])
      scored none = tt
      scored (some scores) = (refl, refl)

  pub query_nearest_n-Unchanged :
      (fl : Floats) (ops : HeapOps) (id : Bytes) (target : Option (List ℕ)) (dim : ℕ) (n : ℤ)
      (outputs : Bool)
      → NearestKeeps (query_nearest_n fl ops e id target dim n outputs)
  unfolding query_nearest_n
  query_nearest_n-Unchanged fl ops id target dim (negsuc n) outputs =
      chosen NearestKeeps e.closed (refl, refl)
        (chosen NearestKeeps (not (dim == e.cfg.dim)) (refl, refl) (refl, refl))
  query_nearest_n-Unchanged fl ops id none dim (pos n) outputs =
      chosen NearestKeeps e.closed (refl, refl)
        (chosen NearestKeeps (not (dim == e.cfg.dim)) (refl, refl) (refl, refl))
  query_nearest_n-Unchanged fl ops id (some v) dim (pos n) outputs =
      chosen NearestKeeps e.closed (refl, refl)
        (chosen NearestKeeps (not (dim == e.cfg.dim)) (refl, refl)
          (chosen NearestKeeps (n == 0 || not outputs) (refl, refl)
            (looked_up NearestKeeps (find e.sensors id) _ _ (λ r. nearest_ring fl ops e id r v n)
              (refl, refl) (refl, refl) (λ r. nearest_ring-Unchanged fl ops id r v n))))
