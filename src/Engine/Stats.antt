-- ===== src/Engine/Stats.antt =====
-- `GetStats` of src/engine.cpp and `chronosv_stats_t` of include/chronosv/types.h, without the fields that the code leaves zero.
use chronos_vector.Base.{ℕ, ◌%◌, ◌^◌, Option, none, some, [], ◌∷◌, length}
use chronos_vector.Types.{abi_version}
use chronos_vector.Ring.{Ring, add_u64, hot_bytes}
use chronos_vector.Engine.{
  Bytes, Backend, Engine, SensorMap, ring_overwrite_events, ring_overwritten_entries,
}

pub record Stats : Type 0 where
  pub uuid : Bytes
  pub abi : ℕ
  pub sensor_cap : ℕ
  pub sensor_count : ℕ
  pub total_appends : ℕ
  pub total_queries : ℕ
  pub total_anomaly_checks : ℕ
  pub total_evictions : ℕ
  pub total_dropped_sensors : ℕ
  pub flush_errors_total : ℕ
  pub cold_bytes_estimate : ℕ
  pub hot_bytes_total : ℕ
  pub total_overwrite_events : ℕ
  pub total_overwritten_entries : ℕ

abbrev pub ring_hot_bytes : Option Ring → ℕ
ring_hot_bytes none = 0
ring_hot_bytes (some r) = hot_bytes r

-- One `+=` of the loop over the sensors; a slot without a ring adds nothing.
unfoldable pub add_rings : (Option Ring → ℕ) → SensorMap → ℕ → ℕ
add_rings field [] acc = acc
add_rings field ((id, slot) ∷ m) acc = add_rings field m (add_u64 acc (field slot.ring))

unfoldable pub get_stats : {S : Type 0} → Backend S → Engine S → Stats
get_stats b e = record {
  uuid = e.uuid;
  abi = abi_version;
  sensor_cap = e.cfg.max_sensors;
  sensor_count = length e.sensors % 2 ^ 32;
  total_appends = e.total_appends;
  total_queries = e.total_queries;
  total_anomaly_checks = e.total_anomaly_checks;
  total_evictions = e.total_evictions;
  total_dropped_sensors = e.total_dropped_sensors;
  flush_errors_total = e.flush_errors_total;
  cold_bytes_estimate = b.cold_bytes_estimate e.backend;
  hot_bytes_total = add_rings ring_hot_bytes e.sensors 0;
  total_overwrite_events = add_rings ring_overwrite_events e.sensors e.dropped_overwrite_events;
  total_overwritten_entries =
      add_rings ring_overwritten_entries e.sensors e.dropped_overwritten_entries;
}
