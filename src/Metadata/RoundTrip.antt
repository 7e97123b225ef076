-- ===== src/Metadata/RoundTrip.antt =====
-- `deserialize_engine_metadata` of src/engine.cpp after `serialize_engine_metadata`.
use chronos_vector.Base.{
  ℕ, ◌^◌, ◌<◌, ◌≡◌, refl, ap, ap₂, ◌∙◌, sym, List, [], ◌++◌, take, drop, length, length-append,
  arith, take-append_length, take_all, drop-append_length, drop-drop, append-nil, ==_iff,
  length-take,
}
use chronos_vector.Base.Int.{IsInt64, word64}
use chronos_vector.Types.{Config, done, guard_pass, err_corruption}
use chronos_vector.Bytes.{put_le, get_le, get_u16_le, get_u32_le, get_u64_le, get_i64_le}
use chronos_vector.Bytes.Laws.{
  get_le-front, get_i64-front, drop-front, next_field, length-field, length-put_le,
}
use chronos_vector.Metadata.{
  serialize_engine_metadata, deserialize_engine_metadata, engine_meta_magic, engine_meta_version,
}

-- The fields hold what their C types can.
pub record IsTyped (cfg : Config) : Type 0 where
  pub dim_word : cfg.dim < 2 ^ 32
  pub dtype_byte : cfg.storage_dtype < 2 ^ 8
  pub metric_byte : cfg.distance_metric < 2 ^ 8
  pub payload_word : cfg.payload_size_bytes < 2 ^ 32
  pub capacity_word : cfg.ring_capacity < 2 ^ 64
  pub window_word : IsInt64 cfg.window_duration_ms
  pub interval_word : IsInt64 cfg.eviction_interval_ms
  pub recover_byte : cfg.recover_hot_window < 2 ^ 8

-- What the blob carries over from one configuration to another.
unfoldable pub with_persisted : Config → Config → Config
with_persisted cfg into = record into {
  dim = cfg.dim;
  storage_dtype = cfg.storage_dtype;
  distance_metric = cfg.distance_metric;
  payload_size_bytes = cfg.payload_size_bytes;
  ring_capacity = cfg.ring_capacity;
  window_duration_ms = cfg.window_duration_ms;
  eviction_interval_ms = cfg.eviction_interval_ms;
  recover_hot_window = cfg.recover_hot_window;
}

module _ (cfg : Config) (uuid : List ℕ) (t : IsTyped cfg) (u : length uuid ≡ 16) where
  abbrev from58 : List ℕ
  from58 = put_le 1 cfg.recover_hot_window

  abbrev from42 : List ℕ
  from42 = take 16 uuid ++ from58

  abbrev from34 : List ℕ
  from34 = put_le 8 (word64 cfg.eviction_interval_ms) ++ from42

  abbrev from26 : List ℕ
  from26 = put_le 8 (word64 cfg.window_duration_ms) ++ from34

  abbrev from18 : List ℕ
  from18 = put_le 8 cfg.ring_capacity ++ from26

  abbrev from14 : List ℕ
  from14 = put_le 4 cfg.payload_size_bytes ++ from18

  abbrev from13 : List ℕ
  from13 = put_le 1 cfg.distance_metric ++ from14

  abbrev from12 : List ℕ
  from12 = put_le 1 cfg.storage_dtype ++ from13

  abbrev from8 : List ℕ
  from8 = put_le 4 cfg.dim ++ from12

  abbrev from6 : List ℕ
  from6 = put_le 2 0 ++ from8

  abbrev from4 : List ℕ
  from4 = put_le 2 engine_meta_version ++ from6

  abbrev blob : List ℕ
  blob = put_le 4 engine_meta_magic ++ from4

  blob_lem : serialize_engine_metadata cfg uuid ≡ blob
  unfolding serialize_engine_metadata
  blob_lem = refl

  at4 : drop 4 blob ≡ from4
  at4 = drop-front 4 engine_meta_magic from4

  at6 : drop 6 blob ≡ from6
  at6 = next_field 4 2 engine_meta_version blob from6 at4

  at8 : drop 8 blob ≡ from8
  at8 = next_field 6 2 0 blob from8 at6

  at12 : drop 12 blob ≡ from12
  at12 = next_field 8 4 cfg.dim blob from12 at8

  at13 : drop 13 blob ≡ from13
  at13 = next_field 12 1 cfg.storage_dtype blob from13 at12

  at14 : drop 14 blob ≡ from14
  at14 = next_field 13 1 cfg.distance_metric blob from14 at13

  at18 : drop 18 blob ≡ from18
  at18 = next_field 14 4 cfg.payload_size_bytes blob from18 at14

  at26 : drop 26 blob ≡ from26
  at26 = next_field 18 8 cfg.ring_capacity blob from26 at18

  at34 : drop 34 blob ≡ from34
  at34 = next_field 26 8 (word64 cfg.window_duration_ms) blob from34 at26

  at42 : drop 42 blob ≡ from42
  at42 = next_field 34 8 (word64 cfg.eviction_interval_ms) blob from42 at34

  length-uuid : length (take 16 uuid) ≡ 16
  length-uuid = omega (arith, length-take 16 uuid, u)

  at58 : drop 58 blob ≡ from58
  at58 =
      sym (drop-drop 16 42 blob)
      ∙ ap (drop 16) at42
      ∙ drop-append_length 16 (take 16 uuid) from58 length-uuid

  read_recover : get_le (take 1 (drop 58 blob)) ≡ cfg.recover_hot_window
  read_recover =
      ap (λ p. get_le (take 1 p)) (at58 ∙ sym (append-nil from58))
      ∙ get_le-front 1 cfg.recover_hot_window [] t.recover_byte

  read_uuid : take 16 (drop 42 blob) ≡ uuid
  read_uuid =
      ap (take 16) at42
      ∙ take-append_length 16 (take 16 uuid) from58 length-uuid
      ∙ take_all 16 uuid (omega (arith, u))

  read_config :
      (into : Config)
      → record into {
        dim = get_u32_le (drop 8 blob);
        storage_dtype = get_le (take 1 (drop 12 blob));
        distance_metric = get_le (take 1 (drop 13 blob));
        payload_size_bytes = get_u32_le (drop 14 blob);
        ring_capacity = get_u64_le (drop 18 blob);
        window_duration_ms = get_i64_le (drop 26 blob);
        eviction_interval_ms = get_i64_le (drop 34 blob);
        recover_hot_window = get_le (take 1 (drop 58 blob));
      }
        ≡ with_persisted cfg into
  unfolding with_persisted
  read_config into = λ i. record into {
    dim = (ap get_u32_le at8 ∙ get_le-front 4 cfg.dim from12 t.dim_word) i;
    storage_dtype =
        (ap (λ p. get_le (take 1 p)) at12 ∙ get_le-front 1 cfg.storage_dtype from13 t.dtype_byte) i;
    distance_metric =
        (ap (λ p. get_le (take 1 p)) at13 ∙ get_le-front 1 cfg.distance_metric from14 t.metric_byte)
          i;
    payload_size_bytes =
        (ap get_u32_le at14 ∙ get_le-front 4 cfg.payload_size_bytes from18 t.payload_word) i;
    ring_capacity =
        (ap get_u64_le at18 ∙ get_le-front 8 cfg.ring_capacity from26 t.capacity_word) i;
    window_duration_ms =
        (ap get_i64_le at26 ∙ get_i64-front cfg.window_duration_ms from34 t.window_word) i;
    eviction_interval_ms =
        (ap get_i64_le at34 ∙ get_i64-front cfg.eviction_interval_ms from42 t.interval_word) i;
    recover_hot_window = read_recover i;
  }

  length-blob : length blob ≡ 59
  length-blob = omega (
    arith,
    length-field 4 engine_meta_magic from4,
    length-field 2 engine_meta_version from6,
    length-field 2 0 from8,
    length-field 4 cfg.dim from12,
    length-field 1 cfg.storage_dtype from13,
    length-field 1 cfg.distance_metric from14,
    length-field 4 cfg.payload_size_bytes from18,
    length-field 8 cfg.ring_capacity from26,
    length-field 8 (word64 cfg.window_duration_ms) from34,
    length-field 8 (word64 cfg.eviction_interval_ms) from42,
    length-append (take 16 uuid) from58,
    length-uuid,
    length-put_le 1 cfg.recover_hot_window,
  )

  pub deserialize_lem :
      (into : Config)
      → deserialize_engine_metadata
          (serialize_engine_metadata cfg uuid)
          (length (serialize_engine_metadata cfg uuid))
          into
        ≡ done (with_persisted cfg into, uuid)
  unfolding deserialize_engine_metadata
  deserialize_lem into =
      ap (λ p. deserialize_engine_metadata p (length p) into) blob_lem
      ∙ guard_pass _ err_corruption _ (ground (arith, length-blob))
      ∙ guard_pass _ err_corruption _ (
          (==_iff (get_u32_le blob) engine_meta_magic).1
            (get_le-front 4 engine_meta_magic from4 (omega arith)))
      ∙ guard_pass _ err_corruption _ (
          (==_iff (get_u16_le (drop 4 blob)) engine_meta_version).1
            (ap get_u16_le at4 ∙ get_le-front 2 engine_meta_version from6 (omega arith)))
      ∙ ap done (ap₂ (λ p q. (p, q)) (read_config into) read_uuid)

-- The metadata that an engine writes is read back by `chronosv_open` and `chronosv_create`: every
-- persisted field and the UUID, with the other fields of the target configuration kept.
pub deserialize-serialize :
    (cfg into : Config) (uuid : List ℕ)
    → IsTyped cfg
    → length uuid ≡ 16
    → deserialize_engine_metadata
        (serialize_engine_metadata cfg uuid)
        (length (serialize_engine_metadata cfg uuid))
        into
      ≡ done (with_persisted cfg into, uuid)
deserialize-serialize cfg into uuid t u = deserialize_lem cfg uuid t u into
