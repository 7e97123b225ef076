-- ===== src/Api/Calls/Names.antt =====
-- The sensor ids that the C functions of src/engine.cpp let into an engine.
use chronos_vector.Base.{
  ℕ, ◌≡◌, refl, sym, subst, Bool, true, false, Option, none, some, List, if◌then◌else◌, ◌==◌, ◌||◌,
  Bool-cases, inl, inr,
}
use chronos_vector.Base.Int.{ℤ}
use chronos_vector.Codec.{is_null}
use chronos_vector.Ring.{Allocator}
use chronos_vector.Types.{ErrorCode, ok}
use chronos_vector.Validation.{validate_sensor_id}
use chronos_vector.Validation.SensorId.{IsSensorId, validate_sensor_id_iff}
use chronos_vector.Engine.{Bytes, Engine, close}
use chronos_vector.Engine.Evict.{is_ok_code}
use chronos_vector.Engine.Sensors.{some_injective}
use chronos_vector.Engine.Inv.Ids.{
  Ids, preallocate_sensor-Ids, append_entry-Ids, append_batch-Ids, drop_sensor-Ids,
  flush_engine-Ids, maintain_sliding_window-Ids,
}
use chronos_vector.Engine.Inv.Reads.{
  Unchanged, NearestKeeps, query_range-Unchanged, detect_anomaly-Unchanged,
  query_nearest_n-Unchanged,
}
use chronos_vector.Engine.Query.{query_range}
use chronos_vector.Engine.Anomaly.{detect_anomaly}
use chronos_vector.Engine.Nearest.{NearestAnswer, query_nearest_n}
use chronos_vector.Api.{
  Call, rejected, with_id, chronosv_close, chronosv_preallocate_sensor, chronosv_append,
  chronosv_append_batch, chronosv_query_nearest_n, chronosv_query_range, chronosv_detect_anomaly,
  chronosv_maintain_sliding_window, chronosv_drop_sensor, chronosv_flush,
}
use chronos_vector.Api.Calls.{
  Linked, Step, Runs, closes, preallocates, appends, appends_batch, queries_nearest, queries_range,
  detects, maintains, drops, flushes, ends, runs,
}

ok_of : (c : ErrorCode) → is_ok_code c ≡ true → c ≡ ok
ok_of ok h = refl
ok_of _ h = absurd cc

module _ {S : Type 0} where
  -- Every sensor of the engine has a valid id.
  abbrev pub IsNamed : Engine S → Type 0
  IsNamed e = Ids IsSensorId e.sensors

  -- So does the engine behind a handle, if there is one.
  abbrev HandleNamed : Option (Engine S) → Type 0
  HandleNamed none = Unit {0}
  HandleNamed (some e) = IsNamed e

  if-Named :
      {A : Type 0} (t : Bool) (c d : Call S A)
      → HandleNamed c.handle
      → HandleNamed d.handle
      → HandleNamed (if t then c else d).handle
  if-Named true c d f g = f
  if-Named false c d f g = g

  -- The body of a call runs only for an id that the check accepts.
  with_id-Named :
      {A : Type 0} (e : Engine S) (id : Option Bytes) (body : Bytes → Call S A)
      → IsNamed e
      → ((i : Bytes) → IsSensorId i → HandleNamed (body i).handle)
      → HandleNamed (with_id e id body).handle
  with_id-Named e none body h f = h
  with_id-Named e (some id) body h f =
      elim (Bool-cases (is_ok_code (validate_sensor_id (some id)))) [
        | inl good ↦
            subst
              (λ t.
                HandleNamed
                  (if t then body id else rejected (validate_sensor_id (some id)) (some e)).handle)
              (sym good) (f id ((validate_sensor_id_iff id).0 (ok_of _ good)))
        | inr bad ↦
            subst
              (λ t.
                HandleNamed
                  (if t then body id else rejected (validate_sensor_id (some id)) (some e)).handle)
              (sym bad) h
      ]

  next-Named : (o : Option (Engine S)) (e : Engine S) → HandleNamed o → o ≡ some e → IsNamed e
  next-Named none e f p = absurd cc
  next-Named (some x) e f p = subst IsNamed (some_injective p) f

module _ {S : Type 0} (w : Linked S) (e : Engine S) (h : IsNamed e) where
  same-Named : (e' : Engine S) → Unchanged e e' → IsNamed e'
  same-Named e' (cfg, sensors) = subst (Ids IsSensorId) (sym sensors) h

  append-Named :
      (a : Allocator) (id : Option Bytes) (ts : ℤ) (vec : Option (List ℕ)) (dim : ℕ)
      (payload : Option Bytes)
      → HandleNamed (chronosv_append a w.floats (some e) id ts vec dim payload).handle
  unfolding chronosv_append
  append-Named a id ts none dim payload = h
  append-Named a id ts (some vec) dim payload = if-Named (dim == 0) _ _ h (
      with_id-Named e id _ h
        λ i v. append_entry-Ids IsSensorId e h a w.floats i ts vec dim payload v)

  batch-Named :
      (a : Allocator) (id : Option Bytes) (ts : Option (List ℤ)) (vecs : Option (List ℕ))
      (count dim : ℕ) (payloads : Option Bytes)
      → HandleNamed (chronosv_append_batch a w.floats (some e) id ts vecs count dim payloads).handle
  unfolding chronosv_append_batch
  batch-Named a id ts vecs count dim payloads = if-Named (dim == 0) _ _ h (
      with_id-Named e id _ h λ i v. if-Named (count == 0) _ _ h (
        if-Named (is_null ts || is_null vecs) _ _ h
          (append_batch-Ids IsSensorId e h a w.floats i ts vecs count dim payloads v)))

  AnswerNamed : Option (Call S (List (ℤ × ℕ))) → Type 0
  AnswerNamed none = Unit {0}
  AnswerNamed (some c) = HandleNamed c.handle

  nearest-Named :
      (id : Option Bytes) (target : Option (List ℕ)) (dim : ℕ) (k : ℤ) (outputs : Bool)
      → AnswerNamed (chronosv_query_nearest_n w.floats w.heap_ops (some e) id target dim k outputs)
  unfolding chronosv_query_nearest_n AnswerNamed
  nearest-Named none target dim k outputs = h
  nearest-Named (some id) target dim k outputs = checked (is_ok_code (validate_sensor_id (some id)))
    where
      answered :
          (o : Option (NearestAnswer S))
          → NearestKeeps e o
          → AnswerNamed (elim o [
            | none ↦ none
            | some a ↦ some (record { error = a.error; output = a.rows; handle = some a.engine })
          ])
      answered none u = tt
      answered (some a) u = same-Named a.engine u

      checked :
          (t : Bool)
          → AnswerNamed (
              if t
              then elim (query_nearest_n w.floats w.heap_ops e id target dim k outputs) [
                | none ↦ none
                | some a ↦
                    some (record { error = a.error; output = a.rows; handle = some a.engine })
              ]
              else some (rejected (validate_sensor_id (some id)) (some e)))
      checked true =
          answered _ (query_nearest_n-Unchanged e w.floats w.heap_ops id target dim k outputs)
      checked false = h

  Step-Named : (k : ℕ) (e' : Engine S) → Step w e k e' → IsNamed e'
  unfolding chronosv_close close chronosv_preallocate_sensor chronosv_query_range
      chronosv_detect_anomaly chronosv_maintain_sliding_window chronosv_drop_sensor chronosv_flush
      AnswerNamed
  Step-Named k e' (closes p) = next-Named _ e' h p
  Step-Named k e' (preallocates a id p) =
      next-Named _ e' (with_id-Named e id _ h λ i v. preallocate_sensor-Ids IsSensorId e h a i v) p
  Step-Named k e' (appends a id ts vec dim payload p) =
      next-Named _ e' (append-Named a id ts vec dim payload) p
  Step-Named k e' (appends_batch a id ts vecs count dim payloads p) =
      next-Named _ e' (batch-Named a id ts vecs count dim payloads) p
  Step-Named k e' (queries_nearest id target dim m outputs c q p) =
      next-Named _ e' (subst AnswerNamed q (nearest-Named id target dim m outputs)) p
  Step-Named k e' (queries_range id t_start t_end max outputs p) =
      next-Named _ e'
        (with_id-Named e id _ h λ i v.
          same-Named (query_range e i t_start t_end max outputs).engine
            (query_range-Unchanged e i t_start t_end max outputs))
        p
  Step-Named k e' (detects id v dim threshold output p) =
      next-Named _ e'
        (with_id-Named e id _ h λ i valid.
          same-Named (detect_anomaly w.floats e i v dim threshold output).engine
            (detect_anomaly-Unchanged e w.floats i v dim threshold output))
        p
  Step-Named k e' (maintains memory window_ms p) =
      next-Named _ e' (maintain_sliding_window-Ids IsSensorId w.backend memory e window_ms h) p
  Step-Named k e' (drops id p) =
      next-Named _ e' (with_id-Named e id _ h λ i v. drop_sensor-Ids IsSensorId e h w.backend i) p
  Step-Named k e' (flushes memory p) =
      next-Named _ e' (flush_engine-Ids IsSensorId w.backend memory e h) p

-- An engine whose sensors all have valid ids (1 to 256 bytes, no byte 0x01) has only such sensors after any C functions
-- that a client calls, with any arguments and in any order: so no id in the map holds the separator of the storage keys.
pub Runs-Named :
    {S : Type 0} (w : Linked S) (e e' : Engine S) → IsNamed e → Runs w e e' → IsNamed e'
Runs-Named w e e' h ends = h
Runs-Named w e e' h (runs {k = k} {e' = before} calls step) =
    Step-Named w before (Runs-Named w e before h calls) k e' step
