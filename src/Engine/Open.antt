-- ===== src/Engine/Open.antt =====
-- `Engine::Open` and `RehydrateSensorRing` of src/engine.cpp.
use chronos_vector.Base.{
  ℕ, Bool, not, ◌||◌, Option, none, some, List, [], ◌∷◌, ◌++◌, length, ◌==◌, if◌then◌else◌,
}
use chronos_vector.Base.Int.{ℤ, pos, word64, signed64}
use chronos_vector.Types.{
  Config, Result, done, fail, err_invalid_arg, err_not_found, abi_version, ◌>>=◌,
}
use chronos_vector.Metadata.{deserialize_engine_metadata}
use chronos_vector.Validation.{validate_and_default}
use chronos_vector.Ring.{Ring, Allocator, make_ring, add_u64}
use chronos_vector.Kernels.{Floats}
use chronos_vector.Engine.{Bytes, Backend, Engine, SensorSlot, SensorMap}
use chronos_vector.Engine.Evict.{sub_i64, last_or}
use chronos_vector.Engine.Lifecycle.{new_engine, init_backend, rehydrate_blocks, zero_config}

unfoldable pub reversed {ℓ} : {A : Type ℓ} → List A → List A
reversed [] = []
reversed (x ∷ xs) = reversed xs ++ (x ∷ [])

-- `RehydrateSensorRing`: the ring that the slot gets.
unfoldable pub rehydrate_sensor_ring :
    {S : Type 0} → Backend S → Allocator → Floats → Config → S → Bytes → List ℤ → ℤ → Option Ring
rehydrate_sensor_ring b a fl cfg s id block_ids cutoff_ms =
    let ring = make_ring a cfg.ring_capacity cfg.dim cfg.payload_size_bytes cfg.storage_dtype in
    if length block_ids == 0 || not ring.is_ok
    then none
    else rehydrate_blocks b fl cfg s id cutoff_ms (reversed block_ids) ring 0

-- `ids_buf.empty() ? 0 : ids_buf.back() + 1`
unfoldable pub next_id_after : List ℤ → ℤ
next_id_after [] = pos 0
next_id_after (k ∷ ks) = signed64 (add_u64 (word64 (last_or (k ∷ ks) (pos 0))) 1)

-- The loop over the persisted sensors.
unfoldable pub recover_sensors :
    {S : Type 0}
    → Backend S
    → (Bytes → Allocator)
    → Floats
    → Config
    → S
    → ℤ
    → List Bytes
    → Result SensorMap
recover_sensors b a fl cfg s cutoff_ms [] = done []
recover_sensors b a fl cfg s cutoff_ms (id ∷ ids) = do
  block_ids ← b.list_blocks s id
  rest ← recover_sensors b a fl cfg s cutoff_ms ids
  let slot : SensorSlot = record {
    ring =
        if cfg.recover_hot_window == 0
        then none
        else rehydrate_sensor_ring b (a id) fl cfg s id block_ids cutoff_ms;
    next_block_id = next_id_after block_ids;
  }
  done ((id, slot) ∷ rest)

-- The configuration and UUID of the engine that is opened: those of the metadata if there is any.
unfoldable pub persisted_config : Result Bytes → Bytes → Config → Bytes → Result (Config × Bytes)
persisted_config (done meta) path cfg uuid = do
  p ← deserialize_engine_metadata meta (length meta) cfg
  done (record p.0 { abi = abi_version; cold_path = some path }, p.1)
persisted_config (fail err_not_found) path cfg uuid = done (cfg, uuid)
persisted_config (fail e) path cfg uuid = fail e

-- `Engine::Open`. `now_ms` is the clock.
unfoldable pub open_engine :
    {S : Type 0}
    → Backend S
    → S
    → (Bytes → Option S)
    → Bool
    → (Bytes → Allocator)
    → Floats
    → ℤ
    → ℕ
    → ℕ
    → Option Bytes
    → Result (Engine S)
open_engine b null_state open_path enable_int8 a fl now_ms r1 r2 none = fail err_invalid_arg
open_engine b null_state open_path enable_int8 a fl now_ms r1 r2 (some []) = fail err_invalid_arg
open_engine b null_state open_path enable_int8 a fl now_ms r1 r2 (some (c ∷ cs)) = do
  let path = c ∷ cs
  let cfg = record zero_config { abi = abi_version; cold_path = some path; dim = 128 }
  s ← init_backend null_state open_path (some path)
  let e = new_engine cfg none s r1 r2
  p ← persisted_config (b.read_metadata s) path cfg e.uuid
  valid ← validate_and_default enable_int8 p.0
  ids ← b.list_sensors s
  sensors ← recover_sensors b a fl valid s (sub_i64 now_ms valid.window_duration_ms) ids
  done (record e { cfg = valid; uuid = p.1; sensors = sensors })
