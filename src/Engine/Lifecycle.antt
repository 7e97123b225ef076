-- ===== src/Engine/Lifecycle.antt =====
-- Creating and opening an engine: `Engine::Create`, `Engine::Open`, `InitBackend`, `RehydrateSensorRing` and the
-- UUID of src/engine.cpp. The random numbers, the clock and the two backends' constructors are arguments.
use Prim.Native.Nat.{bit_and, bit_or}
use chronos_vector.Base.{
  ℕ, zero, suc, ◌+◌, ◌*◌, Bool, true, false, ◌&&◌, Option, none, some, List, [], ◌∷◌, ◌++◌, take,
  drop, get_or, length, ltb, leb, ◌==◌, if◌then◌else◌,
}
use chronos_vector.Base.Int.{ℤ, pos, ltb_ℤ}
use chronos_vector.Types.{
  Config, Result, done, fail, ErrorCode, ok, err_invalid_arg, err_not_found, err_io, err_corruption,
  dtype_size, dtype_int8, dtype_float32, ◌>>=◌, ◌>>◌, guard,
}
use chronos_vector.Bytes.{put_u64_le, get_u32s}
use chronos_vector.Codec.{Outputs, Decoded, DecodedBlockHeader}
use chronos_vector.Metadata.{serialize_engine_metadata, deserialize_engine_metadata}
use chronos_vector.Validation.{validate_and_default}
use chronos_vector.Ring.{Ring, append}
use chronos_vector.Kernels.{Floats, dot_i8, ints_i8}
use chronos_vector.Engine.{Bytes, Backend, Engine, Sink}

-- `generate_uuid_v4` from two random 64-bit words.
unfoldable pub generate_uuid_v4 : ℕ → ℕ → Bytes
generate_uuid_v4 a b =
    let out = put_u64_le a ++ put_u64_le b in
    take 6 out
    ++ (bit_or (bit_and (get_or out 6 0) 0x0F) 0x40
        ∷ (get_or out 7 0 ∷ (bit_or (bit_and (get_or out 8 0) 0x3F) 0x80 ∷ drop 9 out)))

-- `is_zero_uuid`, over the bytes that are left.
unfoldable pub is_zero_uuid : Bytes → Bool
is_zero_uuid [] = true
is_zero_uuid (u ∷ us) = u == 0 && is_zero_uuid us

-- The state before the first call, with the backend already chosen.
unfoldable pub new_engine : {S : Type 0} → Config → Option Sink → S → ℕ → ℕ → Engine S
new_engine cfg sink backend a b = record {
  cfg = cfg;
  uuid = if is_zero_uuid (take 16 cfg.uuid) then generate_uuid_v4 a b else take 16 cfg.uuid;
  sensors = [];
  sink = sink;
  backend = backend;
  evict_scratch = record { timestamps = []; vectors = []; scales = []; payloads = [] };
  total_appends = 0;
  total_queries = 0;
  total_anomaly_checks = 0;
  total_evictions = 0;
  total_dropped_sensors = 0;
  flush_errors_total = 0;
  dropped_overwrite_events = 0;
  dropped_overwritten_entries = 0;
  closed = false;
  last_overwrites_seen = 0;
  events = [];
}

-- `InitBackend`: the null backend's state without a path, else what opening the path gives.
unfoldable pub init_backend : {S : Type 0} → S → (Bytes → Option S) → Option Bytes → Result S
init_backend null_state open_path none = done null_state
init_backend null_state open_path (some []) = done null_state
init_backend null_state open_path (some (c ∷ cs)) = elim (open_path (c ∷ cs)) [
  | none ↦ fail err_io
  | some s ↦ done s
]

-- The fields that a persisted engine and a new configuration must agree on.
unfoldable pub schema_matches : Config → Config → Bool
schema_matches p c =
    p.dim == c.dim
    && p.storage_dtype == c.storage_dtype
    && p.distance_metric == c.distance_metric
    && p.payload_size_bytes == c.payload_size_bytes
    && p.ring_capacity == c.ring_capacity

-- `chronosv_config_t{}`
abbrev pub zero_config : Config
zero_config = record {
  abi = 0;
  cold_path = none;
  dim = 0;
  uuid = [];
  ring_capacity = 0;
  window_duration_ms = pos 0;
  eviction_interval_ms = pos 0;
  payload_size_bytes = 0;
  storage_dtype = 0;
  distance_metric = 0;
  max_sensors = 0;
  recover_hot_window = 0;
}

-- The UUID that an existing blob gives, or this engine's where there is none.
unfoldable pub reconcile : Result Bytes → Config → Bytes → Result Bytes
reconcile (done existing) cfg uuid = do
  persisted ← deserialize_engine_metadata existing (length existing) zero_config
  guard (schema_matches persisted.0 cfg) err_invalid_arg
  done persisted.1
reconcile (fail err_not_found) cfg uuid = done uuid
reconcile (fail e) cfg uuid = fail e

-- A backend that stores no metadata is accepted.
abbrev pub metadata_written : ErrorCode → Bool
metadata_written ok = true
metadata_written err_not_found = true
metadata_written _ = false

-- `Engine::Create`
unfoldable pub create :
    {S : Type 0}
    → Backend S
    → S
    → (Bytes → Option S)
    → Bool
    → Config
    → Option Sink
    → ℕ
    → ℕ
    → Result (Engine S)
create b null_state open_path enable_int8 cfg_in sink r1 r2 = do
  cfg ← validate_and_default enable_int8 cfg_in
  s ← init_backend null_state open_path cfg.cold_path
  let e = new_engine cfg sink s r1 r2
  uuid ← reconcile (b.read_metadata s) cfg e.uuid
  let w = b.write_metadata s (serialize_engine_metadata cfg uuid)
  guard (metadata_written w.0) w.0
  done (record e { uuid = uuid; backend = w.1 })

-- The norm that rehydration gives an entry; `none` is an overflow of the sum of squares.
unfoldable pub entry_norm : Floats → DecodedBlockHeader → Bytes → ℕ → Option ℕ
entry_norm fl h row scale =
    if h.dtype == dtype_float32
    then some (fl.l2_norm (get_u32s h.dim row))
    else elim (dot_i8 (ints_i8 row) (ints_i8 row)) [
      | none ↦ none
      | some acc ↦ some (fl.mul scale (fl.sqrt (fl.of_int acc)))
    ]

-- The replay of one block's entries: the ring and how many slots are filled. `none` is the early
-- return at a full ring (or an overflow), after which the ring is lost.
unfoldable pub replay_block : Floats → Config → ℤ → Decoded → ℕ → ℕ → Ring → ℕ → Option (Ring × ℕ)
replay_block fl cfg cutoff_ms full i zero ring filled = some (ring, filled)
replay_block fl cfg cutoff_ms full i (suc n) ring filled =
    let h = full.header in
    let stride = h.dim * dtype_size h.dtype in
    let ts = get_or full.timestamps i (pos 0) in
    let row = take stride (drop (i * stride) full.vectors) in
    let scale = if h.dtype == dtype_float32 then 0 else get_or full.scales i 0 in
    let payload : Option Bytes =
      if ltb 0 h.payload_size_bytes
      then some (drop (i * h.payload_size_bytes) full.payloads)
      else none in
    elim (ltb_ℤ ts cutoff_ms) [
      | true ↦ replay_block fl cfg cutoff_ms full (i + 1) n ring filled
      | false ↦ elim (leb cfg.ring_capacity filled) [
        | true ↦ none
        | false ↦ elim (entry_norm fl h row scale) [
          | none ↦ none
          | some norm ↦
              replay_block fl cfg cutoff_ms full (i + 1) n (append ring ts row norm payload scale)
                (filled + 1)
        ]
      ]
    ]

abbrev pub no_outputs : Outputs
no_outputs = record {
  out_timestamps = false;
  out_vectors = false;
  out_scales = false;
  out_payloads = false;
}

-- The buffers that the full read of a block gets.
abbrev pub outputs_for : DecodedBlockHeader → Outputs
outputs_for h = record {
  out_timestamps = true;
  out_vectors = true;
  out_scales = h.dtype == dtype_int8;
  out_payloads = ltb 0 h.payload_size_bytes;
}

-- Whether a failed read skips the block.
abbrev pub is_corruption : ErrorCode → Bool
is_corruption err_corruption = true
is_corruption _ = false

-- The loop over the block ids, newest first. `none` is a return before the ring is attached.
unfoldable pub rehydrate_blocks :
    {S : Type 0} → Backend S → Floats → Config → S → Bytes → ℤ → List ℤ → Ring → ℕ → Option Ring
rehydrate_blocks b fl cfg s id cutoff_ms [] ring filled = some ring
rehydrate_blocks b fl cfg s id cutoff_ms (k ∷ ks) ring filled =
    elim (b.read_block s id k no_outputs) [
      | fail e ↦ elim (is_corruption e) [
        | true ↦ rehydrate_blocks b fl cfg s id cutoff_ms ks ring filled
        | false ↦ none
      ]
      | done peek ↦ elim (ltb_ℤ peek.header.t_end_ms cutoff_ms) [
        | true ↦ none
        | false ↦ elim (b.read_block s id k (outputs_for peek.header)) [
          | fail e ↦ elim (is_corruption e) [
            | true ↦ rehydrate_blocks b fl cfg s id cutoff_ms ks ring filled
            | false ↦ none
          ]
          | done full ↦ elim (replay_block fl cfg cutoff_ms full 0 full.header.count ring filled) [
            | none ↦ none
            | some r ↦ rehydrate_blocks b fl cfg s id cutoff_ms ks r.0 r.1
          ]
        ]
      ]
    ]
