-- ===== src/Api/Calls/Closed.antt =====
-- What a client of the C functions of src/engine.cpp can still do after `chronosv_close`.
use chronos_vector.Base.{
  ℕ, ◌≡◌, refl, ap, sym, subst, ◌∙◌, Bool, true, false, Option, none, some, List, if◌then◌else◌,
  ◌==◌, ◌||◌,
}
use chronos_vector.Base.Int.{ℤ, pos, negsuc}
use chronos_vector.Codec.{is_null}
use chronos_vector.Ring.{Allocator}
use chronos_vector.Validation.{validate_sensor_id}
use chronos_vector.Engine.{Bytes, Engine, close}
use chronos_vector.Engine.Evict.{is_ok_code}
use chronos_vector.Engine.Sensors.{
  some_injective, preallocate_sensor-closed, drop_sensor-closed, append_entry-closed,
  append_batch-closed, flush_engine-closed, maintain_sliding_window-closed, close-closed,
}
use chronos_vector.Engine.Scores.Runs.{when_true}
use chronos_vector.Engine.Query.{RangeAnswer, query_range}
use chronos_vector.Engine.Nearest.{NearestAnswer, query_nearest_n}
use chronos_vector.Engine.Anomaly.{AnomalyAnswer, detect_anomaly}
use chronos_vector.Api.{
  Call, rejected, with_id, chronosv_close, chronosv_preallocate_sensor, chronosv_append,
  chronosv_append_batch, chronosv_query_nearest_n, chronosv_query_range, chronosv_detect_anomaly,
  chronosv_maintain_sliding_window, chronosv_drop_sensor, chronosv_flush,
}
use chronos_vector.Api.Calls.{
  Linked, Step, Runs, closes, preallocates, appends, appends_batch, queries_nearest, queries_range,
  detects, maintains, drops, flushes, ends, runs,
}

module _ {S : Type 0} (e : Engine S) where
  -- A call that leaves this engine behind the handle.
  abbrev Same : {A : Type 0} → Call S A → Type 0
  Same c = c.handle ≡ some e

  if-Same : {A : Type 0} (t : Bool) (c d : Call S A) → Same c → Same d → Same (if t then c else d)
  if-Same true c d p q = p
  if-Same false c d p q = q

  with_id-Same :
      {A : Type 0} (id : Option Bytes) (body : Bytes → Call S A)
      → ((i : Bytes) → Same (body i))
      → Same (with_id e id body)
  with_id-Same none body f = refl
  with_id-Same (some i) body f =
      if-Same (is_ok_code (validate_sensor_id (some i))) (body i) _ (f i) refl

module _ {S : Type 0} (w : Linked S) (e : Engine S) (shut : e.closed ≡ true) where
  query_range-closed :
      (id : Bytes) (t_start t_end max : ℤ) (outputs : Bool)
      → (query_range e id t_start t_end max outputs).engine ≡ e
  unfolding query_range
  query_range-closed id t_start t_end (negsuc max) outputs = refl
  query_range-closed id t_start t_end (pos max) outputs =
      ap (λ (a : RangeAnswer S). a.engine) (when_true e.closed _ _ shut)

  detect_anomaly-closed :
      (id : Bytes) (v : Option (List ℕ)) (dim threshold : ℕ) (output : Bool)
      → (detect_anomaly w.floats e id v dim threshold output).engine ≡ e
  unfolding detect_anomaly
  detect_anomaly-closed id v dim threshold output =
      ap (λ (a : AnomalyAnswer S). a.engine) (when_true e.closed _ _ shut)

  abbrev AnswerSame : Option (Call S (List (ℤ × ℕ))) → Type 0
  AnswerSame none = Unit {0}
  AnswerSame (some c) = Same e c

  nearest-closed :
      (id : Option Bytes) (target : Option (List ℕ)) (dim : ℕ) (n : ℤ) (outputs : Bool)
      → AnswerSame (chronosv_query_nearest_n w.floats w.heap_ops (some e) id target dim n outputs)
  unfolding chronosv_query_nearest_n query_nearest_n
  nearest-closed none target dim n outputs = refl
  nearest-closed (some id) target dim n outputs = go (is_ok_code (validate_sensor_id (some id)))
    where
      shape : Option (NearestAnswer S) → Option (Call S (List (ℤ × ℕ)))
      shape none = none
      shape (some a) = some record { error = a.error; output = a.rows; handle = some a.engine }

      go :
          (t : Bool)
          → AnswerSame (
              if t
              then elim (query_nearest_n w.floats w.heap_ops e id target dim n outputs) [
                | none ↦ none
                | some a ↦ some record { error = a.error; output = a.rows; handle = some a.engine }
              ]
              else some (rejected (validate_sensor_id (some id)) (some e)))
      go true = subst AnswerSame (sym (ap shape (when_true e.closed _ _ shut))) refl
      go false = refl

  append-closed :
      (a : Allocator) (id : Option Bytes) (ts : ℤ) (vec : Option (List ℕ)) (dim : ℕ)
      (payload : Option Bytes)
      → Same e (chronosv_append a w.floats (some e) id ts vec dim payload)
  unfolding chronosv_append
  append-closed a id ts none dim payload = refl
  append-closed a id ts (some vec) dim payload = if-Same e (dim == 0) _ _ refl (
      with_id-Same e id _
        λ i. ap (λ p. some p.1) (append_entry-closed a w.floats e i ts vec dim payload shut))

  batch-closed :
      (a : Allocator) (id : Option Bytes) (ts : Option (List ℤ)) (vecs : Option (List ℕ))
      (count dim : ℕ) (payloads : Option Bytes)
      → Same e (chronosv_append_batch a w.floats (some e) id ts vecs count dim payloads)
  unfolding chronosv_append_batch
  batch-closed a id ts vecs count dim payloads = if-Same e (dim == 0) _ _ refl (
      with_id-Same e id _ λ i. if-Same e (count == 0) _ _ refl (
        if-Same e (is_null ts || is_null vecs) _ _ refl (
          ap (λ p. some p.1) (append_batch-closed a w.floats e i ts vecs count dim payloads shut))))

  -- The handle after a call that leaves the engine.
  same_engine : (o : Option (Engine S)) (e' : Engine S) → o ≡ some e → o ≡ some e' → e' ≡ e
  same_engine o e' p q = some_injective (sym q ∙ p)

  Step-closed : (k : ℕ) (e' : Engine S) → Step w e k e' → e' ≡ e
  unfolding chronosv_close chronosv_preallocate_sensor chronosv_query_range chronosv_detect_anomaly
      chronosv_maintain_sliding_window chronosv_drop_sensor chronosv_flush
  Step-closed k e' (closes p) = same_engine _ e' (ap (λ q. some q.1) (close-closed e shut)) p
  Step-closed k e' (preallocates a id p) =
      same_engine _ e'
        (with_id-Same e id _ λ i. ap (λ q. some q.1) (preallocate_sensor-closed a e i shut)) p
  Step-closed k e' (appends a id ts vec dim payload p) =
      same_engine _ e' (append-closed a id ts vec dim payload) p
  Step-closed k e' (appends_batch a id ts vecs count dim payloads p) =
      same_engine _ e' (batch-closed a id ts vecs count dim payloads) p
  Step-closed k e' (queries_nearest id target dim n outputs c q p) =
      same_engine _ e' (subst AnswerSame q (nearest-closed id target dim n outputs)) p
  Step-closed k e' (queries_range id t_start t_end max outputs p) =
      same_engine _ e'
        (with_id-Same e id _ λ i. ap some (query_range-closed i t_start t_end max outputs)) p
  Step-closed k e' (detects id v dim threshold output p) =
      same_engine _ e'
        (with_id-Same e id _ λ i. ap some (detect_anomaly-closed i v dim threshold output)) p
  Step-closed k e' (maintains memory window_ms p) =
      same_engine _ e'
        (ap (λ q. some q.1) (maintain_sliding_window-closed w.backend memory e window_ms shut)) p
  Step-closed k e' (drops id p) =
      same_engine _ e'
        (with_id-Same e id _ λ i. ap (λ q. some q.1) (drop_sensor-closed w.backend e i shut)) p
  Step-closed k e' (flushes memory p) =
      same_engine _ e' (ap (λ q. some q.1) (flush_engine-closed w.backend memory e shut)) p

module _ {S : Type 0} (w : Linked S) where
  stays : (c : Engine S) → c.closed ≡ true → (e' : Engine S) → Runs w c e' → e' ≡ c
  stays c shut e' ends = refl
  stays c shut e' (runs {k = k} {e' = before} calls step) =
      let same = stays c shut before calls in
      Step-closed w before (ap (λ x. x.closed) same ∙ shut) k e' step ∙ same

  -- After `Close`, whatever C functions a client calls with whatever arguments, in any order, the engine stays as it
  -- was but for its closed flag: its configuration, sensors, rings, counters, events and the backend. So a flush after
  -- it writes nothing, and what the rings held at the close never reaches the backend.
  pub closed_for_good :
      (e e' : Engine S)
      → Runs w (close e).1 e'
      → (e' ≡ record e { closed = true }) × (e'.backend ≡ e.backend) × (e'.sensors ≡ e.sensors)
  unfolding close
  closed_for_good e e' calls =
      let same = stays (close e).1 refl e' calls in
      (same, ap (λ x. x.backend) same, ap (λ x. x.sensors) same)
