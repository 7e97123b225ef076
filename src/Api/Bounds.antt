-- ===== src/Api/Bounds.antt =====
-- The C query functions of src/engine.cpp write no more rows than the caller's arrays have room for.
use chronos_vector.Base.{
  ℕ, zero, suc, ◌+◌, ◌-◌, ◌*◌, ◌^◌, ◌≤◌, ◌≡◌, refl, ap, subst, Bool, true, false, not, ◌||◌, ◌&&◌,
  Option, none, some, List, [], ◌∷◌, map, take, length, length-take, min, ltb, ◌==◌, if◌then◌else◌,
  arith, inl, inr, Bool-cases,
}
use chronos_vector.Base.Int.{ℤ, pos, ltb_ℤ}
use chronos_vector.Validation.{validate_sensor_id}
use chronos_vector.Ring.{Ring, snapshot, timestamp_at, vector_at, add_u64}
use chronos_vector.Kernels.{Floats}
use chronos_vector.Engine.{Bytes, Engine, find}
use chronos_vector.Engine.Evict.{is_ok_code}
use chronos_vector.Engine.Query.{
  RangeAnswer, RangeRows, range_loop, query_ring, query_range, int64_max,
}
use chronos_vector.Engine.Nearest.{
  HeapOps, NearestAnswer, nearest_rows, nearest_ring, query_nearest_n, top_k, better, Scored,
}
use chronos_vector.Types.{metric_cosine}
use chronos_vector.Engine.Inv.Reads.{chosen, looked_up}
use chronos_vector.Api.{Call, chronosv_query_nearest_n, chronosv_query_range}

length-map {ℓ κ} :
    {A : Type ℓ} {B : Type κ} (f : A → B) (xs : List A) → length (map f xs) ≡ length xs
length-map f [] = refl
length-map f (x ∷ xs) = ap suc (length-map f xs)

-- The number of rows that a call writes.
abbrev pub written {ℓ} : {A : Type ℓ} → Option (List A) → ℕ
written none = 0
written (some xs) = length xs

length-range_loop :
    (r : Ring) (t_start t_end : ℤ) (row_bytes n idx room : ℕ) (oldest : ℤ)
    → length (range_loop r t_start t_end row_bytes n idx room oldest).rows ≤ room
unfolding range_loop
length-range_loop r t_start t_end row_bytes zero idx room oldest = omega arith
length-range_loop r t_start t_end row_bytes (suc n) idx zero oldest = omega arith
length-range_loop r t_start t_end row_bytes (suc n) idx (suc room) oldest =
    go (ltb_ℤ (timestamp_at r idx) t_start || ltb_ℤ t_end (timestamp_at r idx))
      (length-range_loop r t_start t_end row_bytes n (idx + 1) (suc room) older)
      (length-range_loop r t_start t_end row_bytes n (idx + 1) room older)
  where
    older : ℤ
    older = if ltb_ℤ (timestamp_at r idx) oldest then timestamp_at r idx else oldest

    go :
        (t : Bool)
        → length (range_loop r t_start t_end row_bytes n (idx + 1) (suc room) older).rows ≤ suc room
        → length (range_loop r t_start t_end row_bytes n (idx + 1) room older).rows ≤ room
        → length
            (elim t as (λ _. RangeRows) [
              | true ↦ range_loop r t_start t_end row_bytes n (idx + 1) (suc room) older
              | false ↦
                  let rest = range_loop r t_start t_end row_bytes n (idx + 1) room older in
                  record rest { rows = (timestamp_at r idx, vector_at r idx row_bytes) ∷ rest.rows }
            ]).rows
          ≤ suc room
    go true skipped kept = skipped
    go false skipped kept = omega arith

module _ {S : Type 0} (e : Engine S) where
  abbrev RangeWithin : ℕ → RangeAnswer S → Type 0
  RangeWithin max a = written a.rows ≤ max

  query_ring-Within :
      (r : Ring) (t_start t_end : ℤ) (max : ℕ) → RangeWithin max (query_ring e r t_start t_end max)
  unfolding query_ring
  query_ring-Within r t_start t_end max =
      let n = (snapshot r).1 - (snapshot r).0 in
      let found = range_loop r t_start t_end (e.cfg.dim * 4) n (snapshot r).0 max int64_max in
      let rows = length-range_loop r t_start t_end (e.cfg.dim * 4) n (snapshot r).0 max int64_max in
      elim (Bool-cases (ltb 0 n && ltb_ℤ t_start found.oldest)) [
        | inl older ↦ rw (query_ring, older) rows
        | inr whole ↦ rw (query_ring, whole) rows
      ]

  query_range-Within :
      (id : Bytes) (t_start t_end : ℤ) (max : ℕ) (outputs : Bool)
      → RangeWithin max (query_range e id t_start t_end (pos max) outputs)
  unfolding query_range
  query_range-Within id t_start t_end max outputs =
      chosen (RangeWithin max) e.closed (omega arith) (
        chosen (RangeWithin max) (max == 0 || not outputs || ltb_ℤ t_end t_start) (omega arith) (
          looked_up (RangeWithin max) (find e.sensors id) _ _
            (λ r. query_ring e r t_start t_end max) (omega arith) (omega arith)
            (λ r. query_ring-Within r t_start t_end max)))

  abbrev NearestWithin : ℕ → Option (NearestAnswer S) → Type 0
  NearestWithin n none = Unit {0}
  NearestWithin n (some a) = written a.rows ≤ n

  nearest_ring-Within :
      (fl : Floats) (ops : HeapOps) (id : Bytes) (r : Ring) (target : List ℕ) (n : ℕ)
      → NearestWithin n (nearest_ring fl ops e id r target n)
  unfolding nearest_ring nearest_rows
  nearest_ring-Within fl ops id r target n =
      chosen (NearestWithin n) ((snapshot r).1 - (snapshot r).0 == 0) (omega arith)
        (chosen (NearestWithin n) (ltb ((snapshot r).1 - (snapshot r).0) (2 ^ 31)) (scored _) tt)
    where
      scored :
          (o : Option (List ℕ))
          → NearestWithin n
              (elim o [ none ↦ none | some scores ↦ some (nearest_rows fl ops e id r n scores) ])
      scored none = tt
      scored (some scores) =
          let k = min n (length scores) in
          let top = top_k ops (better fl (e.cfg.distance_metric == metric_cosine)) k scores in
          let row : Scored → ℤ × ℕ = λ p. (timestamp_at r (add_u64 (snapshot r).0 p.1), p.0) in
          omega (arith, length-map row (take k top), length-take k top)

  query_nearest_n-Within :
      (fl : Floats) (ops : HeapOps) (id : Bytes) (target : Option (List ℕ)) (dim n : ℕ)
      (outputs : Bool)
      → NearestWithin n (query_nearest_n fl ops e id target dim (pos n) outputs)
  unfolding query_nearest_n
  query_nearest_n-Within fl ops id none dim n outputs =
      chosen (NearestWithin n) e.closed (omega arith)
        (chosen (NearestWithin n) (not (dim == e.cfg.dim)) (omega arith) (omega arith))
  query_nearest_n-Within fl ops id (some v) dim n outputs =
      chosen (NearestWithin n) e.closed (omega arith) (
        chosen (NearestWithin n) (not (dim == e.cfg.dim)) (omega arith) (
          chosen (NearestWithin n) (n == 0 || not outputs) (omega arith) (
            looked_up (NearestWithin n) (find e.sensors id) _ _
              (λ r. nearest_ring fl ops e id r v n) (omega arith) (omega arith)
              (λ r. nearest_ring-Within fl ops id r v n))))

module _ {S : Type 0} (fl : Floats) (ops : HeapOps) (n max : ℕ) where
  abbrev CallWithin : Option (Call S (List (ℤ × ℕ))) → Type 0
  CallWithin none = Unit {0}
  CallWithin (some c) = written c.output ≤ n

  nearest-Within :
      (h : Option (Engine S)) (id : Option Bytes) (target : Option (List ℕ)) (dim : ℕ)
      (outputs : Bool)
      → CallWithin (chronosv_query_nearest_n fl ops h id target dim (pos n) outputs)
  unfolding chronosv_query_nearest_n
  nearest-Within none id target dim outputs = omega arith
  nearest-Within (some e) none target dim outputs = omega arith
  nearest-Within (some e) (some id) target dim outputs =
      chosen CallWithin (is_ok_code (validate_sensor_id (some id)))
        (answered _ (query_nearest_n-Within e fl ops id target dim n outputs)) (omega arith)
    where
      answered :
          (o : Option (NearestAnswer S))
          → NearestWithin e n o
          → CallWithin (elim o [
            | none ↦ none
            | some a ↦ some (record { error = a.error; output = a.rows; handle = some a.engine })
          ])
      answered none w = tt
      answered (some a) w = w

  range-Within :
      (h : Option (Engine S)) (id : Option Bytes) (t_start t_end : ℤ) (outputs : Bool)
      → written (chronosv_query_range h id t_start t_end (pos max) outputs).output ≤ max
  unfolding chronosv_query_range
  range-Within none id t_start t_end outputs = omega arith
  range-Within (some e) none t_start t_end outputs = omega arith
  range-Within (some e) (some id) t_start t_end outputs =
      chosen (λ (c : Call S (List (ℤ × List ℕ))). written c.output ≤ max)
        (is_ok_code (validate_sensor_id (some id)))
        (query_range-Within e id t_start t_end max outputs) (omega arith)

  -- Whatever the handle, the id and the engine are: `chronosv_query_nearest_n`, where it has a defined result, writes at
  -- most `n` rows, and `chronosv_query_range` at most `max`, which the caller's arrays have room for.
  pub queries_within :
      (h : Option (Engine S)) (id : Option Bytes) (target : Option (List ℕ)) (dim : ℕ)
      (outputs : Bool) (t_start t_end : ℤ) (c : Call S (List (ℤ × ℕ)))
      → chronosv_query_nearest_n fl ops h id target dim (pos n) outputs ≡ some c
      → (written c.output ≤ n)
        × (written (chronosv_query_range h id t_start t_end (pos max) outputs).output ≤ max)
  queries_within h id target dim outputs t_start t_end c q = (
    subst CallWithin q (nearest-Within h id target dim outputs),
    range-Within h id t_start t_end outputs,
  )
