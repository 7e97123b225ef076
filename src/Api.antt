-- ===== src/Api.antt =====
-- The C functions of src/engine.cpp: the checks of handle, sensor id and pointers, then the engine's operation. A handle is
-- the engine behind it, `none` if it is null; a C string is its bytes without the ending 0.
pub mod Calls
pub mod Text
pub mod Bounds
use chronos_vector.Base.{
  ℕ, Bool, true, false, not, ◌||◌, Option, none, some, List, [], ◌==◌, if◌then◌else◌,
}
use chronos_vector.Base.Int.{ℤ}
use chronos_vector.Types.{Config, ErrorCode, Result, done, fail, ok, err_invalid_arg}
use chronos_vector.Validation.{validate_sensor_id}
use chronos_vector.Ring.{Allocator}
use chronos_vector.Kernels.{Floats}
use chronos_vector.Engine.{Bytes, Backend, Engine, Sink, preallocate_sensor, drop_sensor, close}
use chronos_vector.Codec.{is_null}
use chronos_vector.Engine.Ingest.{append_entry, append_batch}
use chronos_vector.Engine.Evict.{is_ok_code, flush_engine, maintain_sliding_window}
use chronos_vector.Engine.Lifecycle.{create}
use chronos_vector.Engine.Open.{open_engine}
use chronos_vector.Engine.Query.{query_range}
use chronos_vector.Engine.Nearest.{HeapOps, query_nearest_n}
use chronos_vector.Engine.Anomaly.{detect_anomaly}
use chronos_vector.Engine.Listing.{Listing, list_sensors}
use chronos_vector.Engine.Stats.{Stats, get_stats}

-- The code that a call returns, what it writes for the caller (`none` where it writes nothing), and the handle.
pub record Call (S : Type 0) (A : Type 0) : Type 0 where
  pub error : ErrorCode
  pub output : Option A
  pub handle : Option (Engine S)

abbrev pub rejected : {S A : Type 0} → ErrorCode → Option (Engine S) → Call S A
rejected c handle = record { error = c; output = none; handle = handle }

-- A call with nothing to write.
abbrev pub plain : {S : Type 0} → ErrorCode × Engine S → Call S (Unit {0})
plain p = record { error = p.0; output = none; handle = some p.1 }

-- `if (!engine) return CHRONOSV_ERR_INVALID_ARG;`
abbrev pub with_engine : {S A : Type 0} → Option (Engine S) → (Engine S → Call S A) → Call S A
with_engine none body = rejected err_invalid_arg none
with_engine (some e) body = body e

-- The check of the sensor id. A null id never passes it.
abbrev pub with_id : {S A : Type 0} → Engine S → Option Bytes → (Bytes → Call S A) → Call S A
with_id e none body = rejected (validate_sensor_id none) (some e)
with_id e (some id) body =
    let vid = validate_sensor_id (some id) in
    if is_ok_code vid then body id else rejected vid (some e)

unfoldable pub chronosv_create :
    {S : Type 0}
    → Backend S
    → S
    → (Bytes → Option S)
    → Bool
    → Option Config
    → Option Sink
    → ℕ
    → ℕ
    → ErrorCode × Option (Engine S)
chronosv_create b null_state open_path enable_int8 none sink r1 r2 = (err_invalid_arg, none)
chronosv_create b null_state open_path enable_int8 (some cfg) sink r1 r2 =
    elim (create b null_state open_path enable_int8 cfg sink r1 r2) [
      | done e ↦ (ok, some e)
      | fail c ↦ (c, none)
    ]

-- `chronosv_open`; `has_out` is whether `out` is non-null, and the output what `*out` is set to.
unfoldable pub chronosv_open :
    {S : Type 0}
    → Backend S
    → S
    → (Bytes → Option S)
    → Bool
    → (Bytes → Allocator)
    → Floats
    → ℤ
    → ℕ
    → ℕ
    → Option Bytes
    → Bool
    → ErrorCode × Option (Option (Engine S))
chronosv_open b null_state open_path enable_int8 a fl now_ms r1 r2 path has_out =
    if is_null path || not has_out
    then (err_invalid_arg, none)
    else elim (open_engine b null_state open_path enable_int8 a fl now_ms r1 r2 path) [
      | done e ↦ (ok, some (some e))
      | fail c ↦ (c, some none)
    ]

unfoldable pub chronosv_close : {S : Type 0} → Option (Engine S) → Call S (Unit {0})
chronosv_close engine = with_engine engine λ e. plain (close e)

unfoldable pub chronosv_preallocate_sensor :
    {S : Type 0} → Allocator → Option (Engine S) → Option Bytes → Call S (Unit {0})
chronosv_preallocate_sensor a engine sensor_id =
    with_engine engine λ e. with_id e sensor_id λ id. plain (preallocate_sensor a e id)

-- `vec` has `dim` floats.
unfoldable pub chronosv_append :
    {S : Type 0}
    → Allocator
    → Floats
    → Option (Engine S)
    → Option Bytes
    → ℤ
    → Option (List ℕ)
    → ℕ
    → Option Bytes
    → Call S (Unit {0})
chronosv_append a fl engine sensor_id ts_ms vec dim payload = with_engine engine λ e. elim vec [
  | none ↦ rejected err_invalid_arg (some e)
  | some floats ↦
      if dim == 0
      then rejected err_invalid_arg (some e)
      else with_id e sensor_id λ id. plain (append_entry a fl e id ts_ms floats dim payload)
]

unfoldable pub chronosv_append_batch :
    {S : Type 0}
    → Allocator
    → Floats
    → Option (Engine S)
    → Option Bytes
    → Option (List ℤ)
    → Option (List ℕ)
    → ℕ
    → ℕ
    → Option Bytes
    → Call S (Unit {0})
chronosv_append_batch a fl engine sensor_id ts_ms vecs count dim payloads = with_engine engine λ e.
    if dim == 0
    then rejected err_invalid_arg (some e)
    else with_id e sensor_id λ id.
      if count == 0
      then plain (ok, e)
      else if is_null ts_ms || is_null vecs
      then rejected err_invalid_arg (some e)
      else plain (append_batch a fl e id ts_ms vecs count dim payloads)

-- `none` is undefined behaviour of `QueryNearestN`.
unfoldable pub chronosv_query_nearest_n :
    {S : Type 0}
    → Floats
    → HeapOps
    → Option (Engine S)
    → Option Bytes
    → Option (List ℕ)
    → ℕ
    → ℤ
    → Bool
    → Option (Call S (List (ℤ × ℕ)))
chronosv_query_nearest_n fl ops none sensor_id target dim n outputs =
    some (rejected err_invalid_arg none)
chronosv_query_nearest_n fl ops (some e) none target dim n outputs =
    some (rejected (validate_sensor_id none) (some e))
chronosv_query_nearest_n fl ops (some e) (some id) target dim n outputs =
    let vid = validate_sensor_id (some id) in
    if is_ok_code vid
    then elim (query_nearest_n fl ops e id target dim n outputs) [
      | none ↦ none
      | some a ↦ some record { error = a.error; output = a.rows; handle = some a.engine }
    ]
    else some (rejected vid (some e))

unfoldable pub chronosv_query_range :
    {S : Type 0} → Option (Engine S) → Option Bytes → ℤ → ℤ → ℤ → Bool → Call S (List (ℤ × List ℕ))
chronosv_query_range engine sensor_id t_start_ms t_end_ms max outputs = with_engine engine λ e.
    with_id e sensor_id λ id.
      let a = query_range e id t_start_ms t_end_ms max outputs in
      record { error = a.error; output = a.rows; handle = some a.engine }

unfoldable pub chronosv_detect_anomaly :
    {S : Type 0}
    → Floats
    → Option (Engine S)
    → Option Bytes
    → Option (List ℕ)
    → ℕ
    → ℕ
    → Bool
    → Call S Bool
chronosv_detect_anomaly fl engine sensor_id v dim threshold output = with_engine engine λ e.
    with_id e sensor_id λ id.
      let a = detect_anomaly fl e id v dim threshold output in
      record { error = a.error; output = a.is_anomaly; handle = some a.engine }

unfoldable pub chronosv_maintain_sliding_window :
    {S : Type 0} → Backend S → (Bytes → Option ℕ) → Option (Engine S) → ℤ → Call S (Unit {0})
chronosv_maintain_sliding_window b memory engine window_ms =
    with_engine engine λ e. plain (maintain_sliding_window b memory e window_ms)

unfoldable pub chronosv_drop_sensor :
    {S : Type 0} → Backend S → Option (Engine S) → Option Bytes → Call S (Unit {0})
chronosv_drop_sensor b engine sensor_id =
    with_engine engine λ e. with_id e sensor_id λ id. plain (drop_sensor b e id)

unfoldable pub chronosv_flush :
    {S : Type 0} → Backend S → (Bytes → Option ℕ) → Option (Engine S) → Call S (Unit {0})
chronosv_flush b memory engine = with_engine engine λ e. plain (flush_engine b memory e)

unfoldable pub chronosv_list_sensors :
    {S : Type 0} → (ℕ → ℕ → Bool) → Option (Engine S) → Bool → ℕ → Bool → Listing
chronosv_list_sensors grants none has_ids max has_count = record {
  error = err_invalid_arg;
  ids = [];
  count = none;
}
chronosv_list_sensors grants (some e) has_ids max has_count =
    list_sensors grants e has_ids max has_count

-- `has_out` is whether `out` is non-null.
unfoldable pub chronosv_get_stats :
    {S : Type 0} → Backend S → Option (Engine S) → Bool → Call S Stats
chronosv_get_stats b engine has_out = with_engine engine λ e.
    if has_out
    then record { error = ok; output = some (get_stats b e); handle = some e }
    else rejected err_invalid_arg (some e)
