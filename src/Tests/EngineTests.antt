-- ===== src/Tests/EngineTests.antt =====
-- The engine, the kernels and the keys at concrete inputs (compare tests/test_engine.cpp).
use chronos_vector.Base.{
  length, ◌≤◌, ◌≡◌, ◌↔◌, refl, true, false, none, some, [], ◌∷◌, map, take, drop, arith,
}
use chronos_vector.Base.Int.{pos, negsuc, signed64, word64}
use chronos_vector.Types.{Config, ok, err_capacity}
use chronos_vector.Codec.{Block}
use chronos_vector.Ring.{Ring, Allocator, make_ring, append, snapshot, add_u64, entry_at}
use chronos_vector.Ring.Inv.{IsValid, make_ring-IsValid, append-IsValid}
use chronos_vector.Ring.Window.{contents, entries}
use chronos_vector.Kernels.{Floats, dot_i8}
use chronos_vector.Kernels.Dot.{dot_from, dot_i8-exact}
use chronos_vector.Engine.{
  Bytes, Engine, drop_sensor, preallocate_sensor, get_or_create_ring, erase, find, same_id,
}
use chronos_vector.Engine.Ingest.{append_entry, append_batch}
use chronos_vector.Engine.Ingest.Batch.{append_batch-each, append_each}
use chronos_vector.Engine.Evict.{evict_sensor}
use chronos_vector.Engine.Evict.Cut.{
  contents-evict_sensor, evicted_count, ring_contents, slot_with, taken, latest, old_run,
}
use chronos_vector.Engine.Evict.Persist.{evict_sensor-Persists, Persists}
use chronos_vector.Engine.Sensors.{drop_sensor-keeps_overwrites}
use chronos_vector.Engine.Limit.{sensors_within_limit}
use chronos_vector.Engine.Stats.{get_stats}
use chronos_vector.Engine.Lifecycle.{new_engine}
use chronos_vector.Engine.Query.{query_ring}
use chronos_vector.Engine.Query.Range.{query_ring-rows, in_range, row_of}
use chronos_vector.Storage.{null_backend, encode_key, range_begin_key, range_end_key}
use chronos_vector.Storage.Keys.{encode_key-range, between}

abbrev ample : Allocator
ample = record { grants = λ k n. true; leftover = λ k i. 0 }

abbrev plain_floats : Floats
plain_floats = record {
  lt = λ x y. false;
  le = λ x y. false;
  eq = λ x y. false;
  neg = λ x. x;
  add = λ x y. x;
  sub = λ x y. x;
  mul = λ x y. x;
  div = λ x y. x;
  of_int = λ z. 0;
  lround = λ x. pos 0;
  sqrt = λ x. x;
  l2_norm = λ v. 0;
  dot = λ v w. 0;
  row_sums = λ n m. m;
}

abbrev float_config : Config
float_config = record {
  abi = 1;
  cold_path = none;
  dim = 1;
  uuid = [];
  ring_capacity = 64;
  window_duration_ms = pos 1000;
  eviction_interval_ms = pos 100;
  payload_size_bytes = 0;
  storage_dtype = 0;
  distance_metric = 0;
  max_sensors = 0;
  recover_hot_window = 0;
}

abbrev fresh_ring : Ring
fresh_ring = make_ring ample 64 1 0 0

-- An old entry and a new one.
abbrev two_rows : Ring
two_rows =
    append (append fresh_ring (pos 100) (1 ∷ 2 ∷ 3 ∷ 4 ∷ []) 5 none 0) (pos 5000)
      (6 ∷ 7 ∷ 8 ∷ 9 ∷ []) 5 none 0

abbrev sensor_one : Bytes
sensor_one = 115 ∷ 49 ∷ []

abbrev running_engine : Engine (Unit {0})
running_engine = record (new_engine float_config none tt 1 2) {
  sensors = (sensor_one, slot_with two_rows (pos 0)) ∷ [];
}

abbrev closed_engine : Engine (Unit {0})
closed_engine = record running_engine { closed = true }

two_rows-IsValid : IsValid two_rows
unfolding make_ring append
two_rows-IsValid =
    append-IsValid (pos 5000) (6 ∷ 7 ∷ 8 ∷ 9 ∷ []) 5 none 0
      (append-IsValid (pos 100) (1 ∷ 2 ∷ 3 ∷ 4 ∷ []) 5 none 0
        (make_ring-IsValid ample 64 1 0 0 6 refl (omega arith) (omega arith)) (omega arith))
      (omega arith)

dot_i8-exact_example :
    dot_i8 (pos 127 ∷ negsuc 127 ∷ []) (pos 127 ∷ pos 2 ∷ [])
    ≡ some (dot_from (pos 0) (pos 127 ∷ negsuc 127 ∷ []) (pos 127 ∷ pos 2 ∷ []))
dot_i8-exact_example =
    dot_i8-exact (pos 127 ∷ negsuc 127 ∷ []) (pos 127 ∷ pos 2 ∷ [])
      ((omega arith, omega arith), ((omega arith, omega arith), tt))
      ((omega arith, omega arith), ((omega arith, omega arith), tt)) (omega arith)

contents-evict_sensor_example :
    ring_contents
      (evict_sensor null_backend none running_engine sensor_one
        (slot_with two_rows (pos 0))
        (pos 1000)).1.ring
    ≡ drop (evicted_count (pos 1000) (contents two_rows)) (contents two_rows)
contents-evict_sensor_example =
    contents-evict_sensor null_backend running_engine sensor_one two_rows (pos 0) (pos 1000)
      two_rows-IsValid

one_old : evicted_count (pos 1000) (contents two_rows) ≡ 1
unfolding evicted_count contents entries entry_at latest old_run snapshot make_ring append signed64
    word64
one_old = refl

evict_sensor-Persists_example :
    (blk : Block) × ((evict_sensor null_backend none running_engine sensor_one
        (slot_with two_rows (pos 0))
        (pos 1000)).0.backend
      ≡ (null_backend.write_block running_engine.backend blk).1)
    × Persists sensor_one
        (pos 0)
        two_rows
        (taken null_backend running_engine sensor_one two_rows (pos 0) (pos 1000))
        blk
evict_sensor-Persists_example =
    evict_sensor-Persists null_backend running_engine sensor_one two_rows (pos 0) (pos 1000)
      (omega (arith, one_old)) (omega (arith, one_old))

drop_sensor-keeps_overwrites_example :
    let dropped = drop_sensor null_backend running_engine sensor_one in
    (dropped.0 ≡ ok)
    × ((get_stats null_backend dropped.1).total_overwrite_events
        ≡ (get_stats null_backend running_engine).total_overwrite_events)
    × ((get_stats null_backend dropped.1).total_overwritten_entries
        ≡ (get_stats null_backend running_engine).total_overwritten_entries)
    × (dropped.1.total_dropped_sensors ≡ add_u64 running_engine.total_dropped_sensors 1)
    × (dropped.1.backend ≡ (null_backend.delete_sensor running_engine.backend sensor_one).1)
    × (dropped.1.sensors ≡ erase running_engine.sensors sensor_one)
unfolding find same_id new_engine
drop_sensor-keeps_overwrites_example =
    drop_sensor-keeps_overwrites null_backend running_engine sensor_one (slot_with two_rows (pos 0))
      refl refl

query_ring-rows_example :
    ((query_ring running_engine two_rows (pos 0) (pos 200) 5).rows
      ≡ some (take 5 (map row_of (in_range (pos 0) (pos 200) (contents two_rows)))))
    × ((query_ring running_engine two_rows (pos 0) (pos 200) 5).engine.total_queries
        ≡ add_u64 running_engine.total_queries 1)
unfolding make_ring append new_engine
query_ring-rows_example = query_ring-rows running_engine two_rows (pos 0) (pos 200) 5 refl

encode_key-range_example :
    (between (range_begin_key sensor_one) (range_end_key sensor_one) (encode_key (115 ∷ []) (pos 3))
      ≡ true)
    ↔ (sensor_one ≡ 115 ∷ [])
encode_key-range_example =
    encode_key-range sensor_one (115 ∷ []) (pos 3) (ground arith) (ground arith)

abbrev full_engine : Engine (Unit {0})
full_engine = record running_engine { cfg = record float_config { max_sensors = 1 } }

sensors_within_limit_example :
    (length (preallocate_sensor ample full_engine (120 ∷ [])).1.sensors ≤ 1)
    × (length
          (append_entry ample plain_floats full_engine (120 ∷ []) (pos 9) (7 ∷ []) 1 none).1.sensors
        ≤ 1)
sensors_within_limit_example =
    sensors_within_limit ample plain_floats full_engine (120 ∷ []) (pos 9) (7 ∷ []) 1 none
      (omega arith) (omega arith)

-- A second sensor does not fit.
full_engine_refuses : (preallocate_sensor ample full_engine (120 ∷ [])).0 ≡ err_capacity
unfolding preallocate_sensor get_or_create_ring find same_id new_engine
full_engine_refuses = refl

append_batch-each_example :
    (append_batch ample plain_floats running_engine sensor_one
      (some (pos 6000 ∷ pos 7000 ∷ []))
      (some (1 ∷ 2 ∷ []))
      2
      1
      none).1.sensors
    ≡ (append_each ample plain_floats sensor_one 1 2 running_engine
        (pos 6000 ∷ pos 7000 ∷ [])
        (1 ∷ 2 ∷ [])
        none).sensors
unfolding new_engine find same_id
append_batch-each_example =
    append_batch-each ample plain_floats sensor_one 1 2 running_engine (slot_with two_rows (pos 0))
      two_rows (pos 6000 ∷ pos 7000 ∷ []) (1 ∷ 2 ∷ []) none refl refl refl
