-- ===== src/Metadata.antt =====
-- The engine metadata blob of src/engine.cpp, 59 bytes that `chronosv_open` reads the schema from.
pub mod RoundTrip
use chronos_vector.Base.{ℕ, ◌+◌, List, [], ◌++◌, take, drop, leb, ◌==◌, not, ltb}
use chronos_vector.Types.{Config, Result, done, fail, err_corruption, ◌>>=◌, ◌>>◌, guard}
use chronos_vector.Bytes.{
  put_le, get_le, put_u16_le, put_u32_le, put_u64_le, put_i64_le, get_u16_le, get_u32_le,
  get_u64_le, get_i64_le,
}

abbrev pub engine_meta_magic : ℕ
engine_meta_magic = 0x4D564543

abbrev pub engine_meta_version : ℕ
engine_meta_version = 1

abbrev pub engine_meta_size : ℕ
engine_meta_size = 59

-- The blob for a configuration and an engine's UUID.
unfoldable pub serialize_engine_metadata : Config → List ℕ → List ℕ
serialize_engine_metadata cfg uuid =
    put_u32_le engine_meta_magic
    ++ (put_u16_le engine_meta_version
        ++ (put_u16_le 0
            ++ (put_u32_le cfg.dim
                ++ (put_le 1 cfg.storage_dtype
                    ++ (put_le 1 cfg.distance_metric
                        ++ (put_u32_le cfg.payload_size_bytes
                            ++ (put_u64_le cfg.ring_capacity
                                ++ (put_i64_le cfg.window_duration_ms
                                    ++ (put_i64_le cfg.eviction_interval_ms
                                        ++ (take 16 uuid
                                            ++ put_le 1 cfg.recover_hot_window))))))))))

-- `cfg` with the persisted fields, and the persisted UUID.
unfoldable pub deserialize_engine_metadata : List ℕ → ℕ → Config → Result (Config × List ℕ)
deserialize_engine_metadata bytes len cfg = do
  guard (not (ltb len engine_meta_size)) err_corruption
  guard (get_u32_le bytes == engine_meta_magic) err_corruption
  guard (get_u16_le (drop 4 bytes) == engine_meta_version) err_corruption
  done (
    record cfg {
      dim = get_u32_le (drop 8 bytes);
      storage_dtype = get_le (take 1 (drop 12 bytes));
      distance_metric = get_le (take 1 (drop 13 bytes));
      payload_size_bytes = get_u32_le (drop 14 bytes);
      ring_capacity = get_u64_le (drop 18 bytes);
      window_duration_ms = get_i64_le (drop 26 bytes);
      eviction_interval_ms = get_i64_le (drop 34 bytes);
      recover_hot_window = get_le (take 1 (drop 58 bytes));
    },
    take 16 (drop 42 bytes),
  )
