-- ===== src/Engine/Ingest.antt =====
-- `Append` and `AppendBatch` of src/engine.cpp. A vector is its floats, as words; a pointer that may be
-- null is an option.
pub mod Batch
use chronos_vector.Base.{
  ℕ, zero, suc, ◌-◌, Bool, not, ◌&&◌, ◌||◌, Option, none, some, List, [], ◌∷◌, ◌++◌, take, drop,
  get_or, ltb, ◌==◌, if◌then◌else◌,
}
use chronos_vector.Base.Int.{ℤ, pos}
use chronos_vector.Types.{
  Config, done, ErrorCode, err_closed, err_dim_mismatch, err_invalid_arg, dtype_int8, ◌>>=◌, ◌>>◌,
  guard,
}
use chronos_vector.Bytes.{put_u32s}
use chronos_vector.Codec.{is_null, buffer}
use chronos_vector.Ring.{Ring, Allocator, append, add_u64}
use chronos_vector.Kernels.{Floats, quantize}
use chronos_vector.Engine.{
  Bytes, Engine, SensorMap, Event, on_append, on_overwrite, hears, find, put, get_or_create_ring,
  commit,
}

-- The ring after the entry is normed, quantized where the ring is INT8, and appended.
unfoldable pub append_row : Floats → Ring → ℤ → List ℕ → Option Bytes → Ring
append_row fl ring ts vec payload =
    let q = quantize fl vec in
    if ring.dtype == dtype_int8
    then append ring ts q.0 (fl.l2_norm vec) payload q.1
    else append ring ts (put_u32s vec) (fl.l2_norm vec) payload 0

-- A write through the ring pointer of a sensor.
unfoldable pub set_ring : SensorMap → Bytes → Ring → SensorMap
set_ring m id ring = elim (find m id) [
  | none ↦ m
  | some slot ↦ put m id (record slot { ring = some ring })
]

abbrev pub note : {S : Type 0} → Engine S → Bool → Event → Engine S
note e heard event = record e { events = if heard then e.events ++ (event ∷ []) else e.events }

-- The overwrites that the calling thread has not reported yet.
unfoldable pub report_overwrites : {S : Type 0} → Engine S → Bytes → Ring → Engine S
report_overwrites e id ring =
    let cur = ring.overwritten_entries in
    let seen = e.last_overwrites_seen in
    let fresh = hears e.sink (λ s. s.hears_overwrite) && ltb seen cur in
    record (note e fresh (on_overwrite id (cur - seen))) {
      last_overwrites_seen = if fresh then cur else seen;
    }

unfoldable pub append_on : {S : Type 0} → Floats → Engine S → Bytes → Ring → Engine S
append_on fl e id ring =
    let counted = record e {
      sensors = set_ring e.sensors id ring;
      total_appends = add_u64 e.total_appends 1;
    } in
    report_overwrites (note counted (hears e.sink (λ s. s.hears_append)) (on_append id)) id ring

-- `Append`. `vec` has `dim` floats.
unfoldable pub append_entry :
    {S : Type 0}
    → Allocator
    → Floats
    → Engine S
    → Bytes
    → ℤ
    → List ℕ
    → ℕ
    → Option Bytes
    → ErrorCode × Engine S
append_entry a fl e id ts vec dim payload = commit e do
  guard (not e.closed) err_closed
  guard (dim == e.cfg.dim) err_dim_mismatch
  found ← get_or_create_ring a e id
  done (append_on fl found.1 id (append_row fl found.0 ts vec payload))

-- The loop of `AppendBatch` over the rows that are left.
unfoldable pub append_rows : Floats → Config → Ring → ℕ → List ℤ → List ℕ → ℕ → Option Bytes → Ring
append_rows fl cfg ring zero ts vecs dim payloads = ring
append_rows fl cfg ring (suc n) ts vecs dim payloads =
    let payload : Option Bytes = elim payloads [
      | none ↦ none
      | some p ↦ if ltb 0 cfg.payload_size_bytes then some p else none
    ] in
    let next = append_row fl ring (get_or ts 0 (pos 0)) (take dim vecs) payload in
    append_rows fl cfg next n (drop 1 ts) (drop dim vecs) dim
      (elim payloads [ none ↦ none | some p ↦ some (drop cfg.payload_size_bytes p) ])

-- `AppendBatch`: `count` timestamps, `count * dim` floats and `count` payloads.
unfoldable pub append_batch :
    {S : Type 0}
    → Allocator
    → Floats
    → Engine S
    → Bytes
    → Option (List ℤ)
    → Option (List ℕ)
    → ℕ
    → ℕ
    → Option Bytes
    → ErrorCode × Engine S
append_batch a fl e id ts vecs count dim payloads = commit e do
  guard (not e.closed) err_closed
  guard (dim == e.cfg.dim) err_dim_mismatch
  if count == 0 then done e else do
    guard (not (is_null ts || is_null vecs)) err_invalid_arg
    found ← get_or_create_ring a e id
    let ring = append_rows fl e.cfg found.0 count (buffer ts) (buffer vecs) dim payloads
    done (record found.1 {
      sensors = set_ring found.1.sensors id ring;
      total_appends = add_u64 found.1.total_appends count;
    })
