-- ===== src/Api/Calls/Sound.antt =====
-- Every engine that a client of the C functions can have satisfies the invariant.
use chronos_vector.Base.{
  ℕ, ◌+◌, ◌<◌, ◌^◌, ◌≡◌, ap, sym, subst, Bool, true, false, Option, none, some, List, arith,
  if◌then◌else◌, ◌==◌, ◌||◌,
}
use chronos_vector.Base.Int.{ℤ}
use chronos_vector.Codec.{is_null}
use chronos_vector.Ring.{Allocator}
use chronos_vector.Types.{ErrorCode, Result, done, fail, ok}
use chronos_vector.Validation.{validate_sensor_id}
use chronos_vector.Engine.{Bytes, Engine}
use chronos_vector.Engine.Evict.{is_ok_code}
use chronos_vector.Engine.Sensors.{some_injective}
use chronos_vector.Engine.Inv.{IsSound, MapFits}
use chronos_vector.Engine.Inv.Keeps.{
  Follows-Sound, more-Sound, preallocate_sensor-Sound, append_entry-Sound, append_batch-Sound,
  drop_sensor-Sound, close-Sound,
}
use chronos_vector.Engine.Inv.Evicts.{flush_engine-Sound, maintain_sliding_window-Sound}
use chronos_vector.Engine.Inv.Reads.{
  Unchanged, NearestKeeps, query_range-Unchanged, detect_anomaly-Unchanged,
  query_nearest_n-Unchanged,
}
use chronos_vector.Engine.Inv.Starts.{IfDone, Starts, create-Starts, open_engine-Starts}
use chronos_vector.Engine.Nearest.{NearestAnswer, query_nearest_n}
use chronos_vector.Api.{
  Call, rejected, with_id, chronosv_create, chronosv_open, chronosv_close,
  chronosv_preallocate_sensor, chronosv_append, chronosv_append_batch, chronosv_query_nearest_n,
  chronosv_query_range, chronosv_detect_anomaly, chronosv_maintain_sliding_window,
  chronosv_drop_sensor, chronosv_flush,
}
use chronos_vector.Api.Calls.{
  Linked, Step, Reach, closes, preallocates, appends, appends_batch, queries_nearest, queries_range,
  detects, maintains, drops, flushes, created, opened, called,
}

module _ {S : Type 0} (enable_int8 : Bool) where
  -- The engine behind a handle, if there is one, satisfies the invariant.
  abbrev HandleSound : ℕ → Option (Engine S) → Type 0
  HandleSound m none = Unit {0}
  HandleSound m (some e) = IsSound enable_int8 m e

  if-Sound :
      {A : Type 0} (m : ℕ) (t : Bool) (c d : Call S A)
      → HandleSound m c.handle
      → HandleSound m d.handle
      → HandleSound m (if t then c else d).handle
  if-Sound m true c d f g = f
  if-Sound m false c d f g = g

  with_id-Sound :
      {A : Type 0} (m : ℕ) (e : Engine S) (id : Option Bytes) (body : Bytes → Call S A)
      → IsSound enable_int8 m e
      → ((i : Bytes) → HandleSound m (body i).handle)
      → HandleSound m (with_id e id body).handle
  with_id-Sound m e none body h f = h
  with_id-Sound m e (some id) body h f =
      if-Sound m (is_ok_code (validate_sensor_id (some id))) (body id) _ (f id) h

  -- The handle after a call is the one that the next call gets.
  next-Sound :
      (m : ℕ) (h : Option (Engine S)) (e : Engine S)
      → HandleSound m h
      → h ≡ some e
      → IsSound enable_int8 m e
  next-Sound m none e f p = absurd cc
  next-Sound m (some x) e f p = subst (IsSound enable_int8 m) (some_injective p) f

module _ {S : Type 0} (w : Linked S) (n : ℕ) (e : Engine S) (h : IsSound w.enable_int8 n e) where
  same-Sound : (e' : Engine S) → Unchanged e e' → IsSound w.enable_int8 n e'
  same-Sound e' (cfg, sensors) =
      Follows-Sound w.enable_int8 n e h n e' (cfg, subst (MapFits e.cfg n) (sym sensors) h.rings)

  append-Handle :
      (a : Allocator) (id : Option Bytes) (ts : ℤ) (vec : Option (List ℕ)) (dim : ℕ)
      (payload : Option Bytes)
      → n + 1 < 2 ^ 64
      → HandleSound w.enable_int8
          (n + 1)
          (chronosv_append a w.floats (some e) id ts vec dim payload).handle
  unfolding chronosv_append
  append-Handle a id ts none dim payload room = more-Sound w.enable_int8 n e h (n + 1) (omega arith)
  append-Handle a id ts (some vec) dim payload room =
      let kept = more-Sound w.enable_int8 n e h (n + 1) (omega arith) in
      if-Sound w.enable_int8 (n + 1) (dim == 0) _ _ kept (
        with_id-Sound w.enable_int8 (n + 1) e id _ kept
          (λ i. append_entry-Sound w.enable_int8 n e h a w.floats i ts vec dim payload room))

  append_batch-Handle :
      (a : Allocator) (id : Option Bytes) (ts : Option (List ℤ)) (vecs : Option (List ℕ))
      (count dim : ℕ) (payloads : Option Bytes)
      → n + count < 2 ^ 64
      → HandleSound w.enable_int8
          (n + count)
          (chronosv_append_batch a w.floats (some e) id ts vecs count dim payloads).handle
  unfolding chronosv_append_batch
  append_batch-Handle a id ts vecs count dim payloads room =
      let m = n + count in
      let kept = more-Sound w.enable_int8 n e h m (omega arith) in
      if-Sound w.enable_int8 m (dim == 0) _ _ kept (
        with_id-Sound w.enable_int8 m e id _ kept λ i.
          if-Sound w.enable_int8 m (count == 0) _ _ kept (
            if-Sound w.enable_int8 m (is_null ts || is_null vecs) _ _ kept (
              append_batch-Sound w.enable_int8 n e h a w.floats i ts vecs count dim payloads room)))

  CallSound : {A : Type 0} → Option (Call S A) → Type 0
  CallSound none = Unit {0}
  CallSound (some c) = HandleSound w.enable_int8 n c.handle

  nearest-Handle :
      (id : Option Bytes) (target : Option (List ℕ)) (dim : ℕ) (k : ℤ) (outputs : Bool)
      → CallSound (chronosv_query_nearest_n w.floats w.heap_ops (some e) id target dim k outputs)
  unfolding chronosv_query_nearest_n CallSound
  nearest-Handle none target dim k outputs = h
  nearest-Handle (some id) target dim k outputs =
      checked (is_ok_code (validate_sensor_id (some id)))
    where
      answered :
          (o : Option (NearestAnswer S))
          → NearestKeeps e o
          → CallSound {A = List (ℤ × ℕ)} (elim o [
            | none ↦ none
            | some a ↦ some (record { error = a.error; output = a.rows; handle = some a.engine })
          ])
      answered none u = tt
      answered (some a) u = same-Sound a.engine u

      checked :
          (t : Bool)
          → CallSound {A = List (ℤ × ℕ)} (
              if t
              then elim (query_nearest_n w.floats w.heap_ops e id target dim k outputs) [
                | none ↦ none
                | some a ↦
                    some (record { error = a.error; output = a.rows; handle = some a.engine })
              ]
              else some (rejected (validate_sensor_id (some id)) (some e)))
      checked true =
          answered _ (query_nearest_n-Unchanged e w.floats w.heap_ops id target dim k outputs)
      checked false = h

  -- A step that appends nothing.
  idle-Sound :
      (o : Option (Engine S)) (e' : Engine S)
      → HandleSound w.enable_int8 n o
      → o ≡ some e'
      → IsSound w.enable_int8 (n + 0) e'
  idle-Sound o e' f p =
      more-Sound w.enable_int8 n e' (next-Sound w.enable_int8 n o e' f p) (n + 0) (omega arith)

  Step-Sound :
      (k : ℕ) (e' : Engine S) → n + k < 2 ^ 64 → Step w e k e' → IsSound w.enable_int8 (n + k) e'
  unfolding chronosv_close chronosv_preallocate_sensor chronosv_query_range chronosv_detect_anomaly
      chronosv_maintain_sliding_window chronosv_drop_sensor chronosv_flush CallSound
  Step-Sound k e' room (closes p) = idle-Sound _ e' (close-Sound w.enable_int8 n e h) p
  Step-Sound k e' room (preallocates a id p) =
      idle-Sound _ e'
        (with_id-Sound w.enable_int8 n e id _ h (preallocate_sensor-Sound w.enable_int8 n e h a)) p
  Step-Sound k e' room (appends a id ts vec dim payload p) =
      next-Sound w.enable_int8 (n + 1) _ e' (append-Handle a id ts vec dim payload room) p
  Step-Sound k e' room (appends_batch a id ts vecs count dim payloads p) =
      next-Sound w.enable_int8 (n + count) _ e'
        (append_batch-Handle a id ts vecs count dim payloads room) p
  Step-Sound k e' room (queries_nearest id target dim m outputs c q p) =
      idle-Sound _ e' (subst CallSound q (nearest-Handle id target dim m outputs)) p
  Step-Sound k e' room (queries_range id t_start t_end max outputs p) =
      idle-Sound _ e'
        (with_id-Sound w.enable_int8 n e id _ h
          (λ i. same-Sound _ (query_range-Unchanged e i t_start t_end max outputs)))
        p
  Step-Sound k e' room (detects id v dim threshold output p) =
      idle-Sound _ e'
        (with_id-Sound w.enable_int8 n e id _ h
          (λ i. same-Sound _ (detect_anomaly-Unchanged e w.floats i v dim threshold output)))
        p
  Step-Sound k e' room (maintains memory window_ms p) =
      idle-Sound _ e' (maintain_sliding_window-Sound w.backend memory w.enable_int8 n e window_ms h)
        p
  Step-Sound k e' room (drops id p) =
      idle-Sound _ e'
        (with_id-Sound w.enable_int8 n e id _ h (drop_sensor-Sound w.enable_int8 n e h w.backend)) p
  Step-Sound k e' room (flushes memory p) =
      idle-Sound _ e' (flush_engine-Sound w.backend memory w.enable_int8 n e h) p

module _ {S : Type 0} (w : Linked S) where
  created-Starts :
      (r : Result (Engine S)) (e : Engine S)
      → IfDone (Starts w.enable_int8) r
      → elim r as (λ _. ErrorCode × Option (Engine S)) [
        | done x ↦ (ok, some x)
        | fail c ↦ (c, none)
      ]
        ≡ (ok, some e)
      → Starts w.enable_int8 e
  created-Starts (done x) e f p = subst (Starts w.enable_int8) (some_injective (ap (λ q. q.1) p)) f
  created-Starts (fail c) e f p = absurd (none_some (ap (λ q. q.1) p))
    where
      none_some : none ≡ some e → ⊥
      none_some q = cc

  opened-Starts :
      (r : Result (Engine S)) (e : Engine S)
      → IfDone (Starts w.enable_int8) r
      → elim r as (λ _. ErrorCode × Option (Option (Engine S))) [
        | done x ↦ (ok, some (some x))
        | fail c ↦ (c, some none)
      ]
        ≡ (ok, some (some e))
      → Starts w.enable_int8 e
  opened-Starts (done x) e f p =
      subst (Starts w.enable_int8) (some_injective (some_injective (ap (λ q. q.1) p))) f
  opened-Starts (fail c) e f p = absurd (none_some (some_injective (ap (λ q. q.1) p)))
    where
      none_some : none ≡ some e → ⊥
      none_some q = cc

  -- In every engine that a client can have after any calls of the C functions, the sensors' rings are valid and have the
  -- configured shape, and the configuration is valid but for a window that may be 0: as long as the ring capacity
  -- and the number of vectors appended are together less than 2^64.
  pub Reach-Sound : {n : ℕ} {e : Engine S} → n < 2 ^ 64 → Reach w n e → IsSound w.enable_int8 n e
  unfolding chronosv_create chronosv_open
  Reach-Sound room (created cfg sink r1 r2 p) =
      created-Starts _ _
        (create-Starts w.backend w.null_state w.open_path w.enable_int8 cfg sink r1 r2) p room
  Reach-Sound room (opened a now_ms r1 r2 none p) = absurd (none_some (ap (λ q. q.1) p))
    where
      none_some : {A : Type 0} {x : A} → none ≡ some x → ⊥
      none_some q = cc
  Reach-Sound room (opened a now_ms r1 r2 (some path) p) =
      opened-Starts _ _
        (open_engine-Starts w.backend w.null_state w.open_path w.enable_int8 a w.floats now_ms r1 r2
          (some path))
        p room
  Reach-Sound room (called {n = n} {k = k} {e = e} {e' = e'} reach step q) =
      subst (λ m. IsSound {S = S} w.enable_int8 m e') (sym q)
        (Step-Sound w n e (Reach-Sound (omega arith) reach) k e' (omega arith) step)
