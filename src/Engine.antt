-- ===== src/Engine.antt =====
-- The state of `Engine` in src/engine.cpp, its sensor map, and `PreallocateSensor` and `DropSensor`. Each
-- function is one call that nothing interleaves with. The backend (`StorageBackend` of
-- include/chronosv/storage_backend.h) and the allocator are arguments.
pub mod Ingest
pub mod Evict
pub mod Stats
pub mod Lifecycle
pub mod Open
pub mod Query
pub mod Sensors
pub mod Scores
pub mod Nearest
pub mod Anomaly
pub mod Listing
pub mod Inv
pub mod Loop
pub mod Limit
use chronos_vector.Base.{
  ℕ, zero, suc, ◌+◌, ◌%◌, ◌^◌, Bool, true, false, not, ◌&&◌, ◌||◌, Option, none, some, List, [],
  ◌∷◌, ◌++◌, length, ltb, leb, ◌==◌, if◌then◌else◌,
}
use chronos_vector.Base.Int.{ℤ, pos}
use chronos_vector.Types.{
  Config, Result, done, fail, ErrorCode, ok, err_closed, err_not_found, err_capacity, err_oom,
  ◌>>=◌, ◌>>◌, guard,
}
use chronos_vector.Codec.{Block, Outputs, Decoded}
use chronos_vector.Ring.{Ring, Allocator, make_ring, add_u64}

-- A sensor id or a path is its bytes.
abbrev pub Bytes : Type 0
Bytes = List ℕ

-- `StorageBackend`, over the backend's own state.
pub record Backend (S : Type 0) : Type 0 where
  pub write_block : S → Block → ErrorCode × S
  pub read_block : S → Bytes → ℤ → Outputs → Result Decoded
  pub list_blocks : S → Bytes → Result (List ℤ)
  pub list_sensors : S → Result (List Bytes)
  pub delete_sensor : S → Bytes → ErrorCode × S
  pub flush : S → ErrorCode × S
  pub write_metadata : S → Bytes → ErrorCode × S
  pub read_metadata : S → Result Bytes
  pub cold_bytes_estimate : S → ℕ

-- `SensorSlot`: a slot without a ring belongs to a sensor that was found when the engine was opened.
pub record SensorSlot : Type 0 where
  pub ring : Option Ring
  pub next_block_id : ℤ

-- `SensorMap`, in the order in which a loop meets the sensors.
abbrev pub SensorMap : Type 0
SensorMap = List (Bytes × SensorSlot)

-- What the sink is told.
pub data Event : Type 0 where
  on_append : Bytes → Event
  on_overwrite : Bytes → ℕ → Event
  on_query : Bytes → ℕ → Event
  on_anomaly_detected : Bytes → ℕ → Event
  on_flush_error : Bytes → ErrorCode → Event
  on_eviction : Bytes → ℕ → ℕ → Event
  on_warning : ErrorCode → Event

-- Which callbacks of the sink are set.
pub record Sink : Type 0 where
  pub hears_append : Bool
  pub hears_overwrite : Bool
  pub hears_query : Bool
  pub hears_anomaly : Bool
  pub hears_flush_error : Bool
  pub hears_eviction : Bool
  pub hears_warning : Bool

-- `EvictScratch`: each buffer only grows.
pub record EvictScratch : Type 0 where
  pub timestamps : List ℤ
  pub vectors : List ℕ
  pub scales : List ℕ
  pub payloads : List ℕ

pub record Engine (S : Type 0) : Type 0 where
  pub cfg : Config
  pub uuid : Bytes
  pub sensors : SensorMap
  pub sink : Option Sink
  pub backend : S
  pub evict_scratch : EvictScratch
  pub total_appends : ℕ
  pub total_queries : ℕ
  pub total_anomaly_checks : ℕ
  pub total_evictions : ℕ
  pub total_dropped_sensors : ℕ
  pub flush_errors_total : ℕ
  pub dropped_overwrite_events : ℕ
  pub dropped_overwritten_entries : ℕ
  pub closed : Bool
  -- Overwrites last reported by the calling thread.
  pub last_overwrites_seen : ℕ
  -- The calls of the sink so far, the latest last.
  pub events : List Event

-- `sink_ && sink_->on_...`
abbrev pub hears : Option Sink → (Sink → Bool) → Bool
hears none callback = false
hears (some s) callback = callback s

unfoldable pub same_id : Bytes → Bytes → Bool
same_id [] [] = true
same_id [] (c ∷ cs) = false
same_id (b ∷ bs) [] = false
same_id (b ∷ bs) (c ∷ cs) = b == c && same_id bs cs

-- `find`, `erase` and a write through the pointer that `find` gives; a new sensor goes in at the end.
unfoldable pub find : SensorMap → Bytes → Option SensorSlot
find [] id = none
find ((k, slot) ∷ m) id = elim (same_id k id) [ true ↦ some slot | false ↦ find m id ]

unfoldable pub put : SensorMap → Bytes → SensorSlot → SensorMap
put [] id slot = (id, slot) ∷ []
put ((k, old) ∷ m) id slot = elim (same_id k id) [
  | true ↦ (k, slot) ∷ m
  | false ↦ (k, old) ∷ put m id slot
]

unfoldable pub erase : SensorMap → Bytes → SensorMap
erase [] id = []
erase ((k, slot) ∷ m) id = elim (same_id k id) [ true ↦ m | false ↦ (k, slot) ∷ erase m id ]

-- `std::make_unique<SensorRing>` with the engine's configuration, and the test of `ok()`.
unfoldable pub new_ring : Allocator → Config → Result Ring
new_ring a cfg =
    let ring = make_ring a cfg.ring_capacity cfg.dim cfg.payload_size_bytes cfg.storage_dtype in
    if ring.is_ok then done ring else fail err_oom

-- The slow path of `GetOrCreateRing` for a slot without a ring and for a new sensor.
unfoldable pub attach_ring :
    {S : Type 0} → Allocator → Engine S → Bytes → ℤ → Result (Ring × Engine S)
attach_ring a e id next_block_id = do
  ring ← new_ring a e.cfg
  let slot : SensorSlot = record { ring = some ring; next_block_id = next_block_id }
  done (ring, record e { sensors = put e.sensors id slot })

-- `GetOrCreateRing`; the engine is unchanged where it fails.
unfoldable pub get_or_create_ring :
    {S : Type 0} → Allocator → Engine S → Bytes → Result (Ring × Engine S)
get_or_create_ring a e id = elim (find e.sensors id) [
  | none ↦ do
    guard (not (ltb 0 e.cfg.max_sensors && leb e.cfg.max_sensors (length e.sensors))) err_capacity
    attach_ring a e id (pos 0)
  | some slot ↦ elim slot.ring [
    | some ring ↦ done (ring, e)
    | none ↦ attach_ring a e id slot.next_block_id
  ]
]

-- The result of a call that changes the engine only where it succeeds.
abbrev pub commit : {S : Type 0} → Engine S → Result (Engine S) → ErrorCode × Engine S
commit e (done e') = (ok, e')
commit e (fail c) = (c, e)

unfoldable pub preallocate_sensor :
    {S : Type 0} → Allocator → Engine S → Bytes → ErrorCode × Engine S
preallocate_sensor a e id =
    commit e do guard (not e.closed) err_closed; found ← get_or_create_ring a e id; done found.1

-- The counters of a ring that goes away.
abbrev pub ring_overwrite_events : Option Ring → ℕ
ring_overwrite_events none = 0
ring_overwrite_events (some r) = r.overwrite_events

abbrev pub ring_overwritten_entries : Option Ring → ℕ
ring_overwritten_entries none = 0
ring_overwritten_entries (some r) = r.overwritten_entries

-- `DropSensor`; what the backend returns is ignored.
unfoldable pub drop_sensor : {S : Type 0} → Backend S → Engine S → Bytes → ErrorCode × Engine S
drop_sensor b e id = commit e do
  guard (not e.closed) err_closed
  elim (find e.sensors id) [
    | none ↦ fail err_not_found
    | some slot ↦ done (record e {
      dropped_overwrite_events =
          add_u64 e.dropped_overwrite_events (ring_overwrite_events slot.ring);
      dropped_overwritten_entries =
          add_u64 e.dropped_overwritten_entries (ring_overwritten_entries slot.ring);
      sensors = erase e.sensors id;
      total_dropped_sensors = add_u64 e.total_dropped_sensors 1;
      backend = (b.delete_sensor e.backend id).1;
    })
  ]

-- `Close`; stopping the thread changes nothing that is modelled.
unfoldable pub close : {S : Type 0} → Engine S → ErrorCode × Engine S
close e = (ok, record e { closed = true })
