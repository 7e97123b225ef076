-- ===== src/Tests/CodecTests.antt =====
-- The codecs, the CRC and the validation at concrete inputs (compare tests/test_block_codec.cpp).
use chronos_vector.Base.{
  ℕ, ◌^◌, ◌≡◌, ◌≢◌, refl, ◌↔◌, ◌-◌, true, false, some, none, List, [], ◌∷◌, ◌++◌, length, arith,
  take, drop,
}
use chronos_vector.Base.Int.{pos, negsuc, word64, signed64}
use chronos_vector.Types.{Config, done, fail, err_corruption, ok}
use chronos_vector.Bytes.{put_le, get_le, put_i64s, put_u32s}
use chronos_vector.Crc.{crc32_ieee}
use chronos_vector.Crc.Bitwise.{crc32_bitwise, crc32_ieee-eq-bitwise}
use chronos_vector.Crc.Detect.{crc32_ieee_detects}
use chronos_vector.Codec.{
  Block, Outputs, serialize_block, decode_block, block_size, block_serialized_size,
}
use chronos_vector.Codec.Size.{true_size}
use chronos_vector.Codec.Sections.{IsComplete, view, serialize_block_fits}
use chronos_vector.Codec.RoundTrip.{decode-serialize}
use chronos_vector.Codec.Corruption.{corrupt-rejected}
use chronos_vector.Metadata.{serialize_engine_metadata, deserialize_engine_metadata}
use chronos_vector.Metadata.RoundTrip.{with_persisted, deserialize-serialize}
use chronos_vector.Validation.{validate_and_default, validate_sensor_id, with_defaults}
use chronos_vector.Validation.Settings.{
  IsValidConfig, validate_and_default-IsValidConfig, validate_and_default_complete,
}
use chronos_vector.Validation.SensorId.{IsSensorId, validate_sensor_id_iff}

-- The check value of CRC-32/IEEE: "123456789".
check_value : crc32_ieee (49 ∷ 50 ∷ 51 ∷ 52 ∷ 53 ∷ 54 ∷ 55 ∷ 56 ∷ 57 ∷ []) 9 ≡ 0xCBF43926
unfolding crc32_ieee
check_value = refl

-- Two INT8 entries of dimension 2 with one payload byte each, in buffers of three.
abbrev pub two_entries : Block
two_entries = record {
  sensor_id = 115 ∷ 49 ∷ [];
  block_id = pos 0;
  t_start_ms = pos 100;
  t_end_ms = negsuc 4;
  count = 2;
  dim = 2;
  payload_size_bytes = 1;
  dtype = 1;
  timestamps = some (pos 100 ∷ negsuc 4 ∷ pos 7 ∷ []);
  vectors = some (1 ∷ 2 ∷ 255 ∷ 127 ∷ 9 ∷ 9 ∷ []);
  scales = some (5 ∷ 6 ∷ 7 ∷ []);
  payloads = some (11 ∷ 12 ∷ 13 ∷ []);
}

abbrev pub all_outputs : Outputs
all_outputs = record {
  out_timestamps = true;
  out_vectors = true;
  out_scales = true;
  out_payloads = true;
}

pub two_entries-IsComplete : IsComplete two_entries
two_entries-IsComplete = record {
  typed = omega arith;
  shape = omega arith;
  given = refl;
  timestamps_long = omega arith;
  vectors_long = omega arith;
  scales_long = λ _. omega arith;
  payloads_long = omega arith;
  timestamps_typed = omega arith;
  vectors_typed = omega arith;
  scales_typed = omega arith;
  payloads_typed = omega arith;
}

pub two_entries_size : block_size two_entries ≡ 74
unfolding block_serialized_size
two_entries_size = refl

decode-serialize_example :
    decode_block (some (serialize_block two_entries true ++ (1 ∷ 2 ∷ []))) 76 true all_outputs
    ≡ done (view two_entries all_outputs)
decode-serialize_example =
    decode-serialize two_entries (1 ∷ 2 ∷ []) 76 all_outputs two_entries-IsComplete
      (omega (arith, serialize_block_fits two_entries two_entries-IsComplete, two_entries_size))

serialize_block_fits_example :
    (length (serialize_block two_entries true) ≡ block_size two_entries)
    × (block_size two_entries ≡ true_size 2 2 1 1)
serialize_block_fits_example = serialize_block_fits two_entries two_entries-IsComplete

-- The block in bytes, up to its first vector byte, and from there on.
abbrev front_bytes : List ℕ
front_bytes = take 56 (serialize_block two_entries true)

abbrev back_bytes : List ℕ
back_bytes = drop 57 (serialize_block two_entries true)

corrupt-rejected_example :
    decode_block
      (some (front_bytes ++ (3 ∷ back_bytes)))
      (length (front_bytes ++ (3 ∷ back_bytes)))
      true
      all_outputs
    ≡ fail err_corruption
unfolding serialize_block crc32_ieee put_le put_i64s put_u32s word64
corrupt-rejected_example =
    corrupt-rejected two_entries front_bytes back_bytes 1 3 all_outputs two_entries-IsComplete refl
      (omega arith) (omega arith) (omega arith) (λ e. omega arith)

-- A header of 2^30 entries of dimension 2^32 - 2, whose size wraps to 44 bytes.
abbrev wrapped_header : List ℕ
wrapped_header =
    put_le 4 0x30425643
    ++ (put_le 2 1
        ++ (put_le 2 0
            ++ (put_le 4 (2 ^ 32 - 2) ++ (put_le 4 (2 ^ 30) ++ (put_le 16 0 ++ put_le 8 0)))))

abbrev no_outputs : Outputs
no_outputs = record {
  out_timestamps = false;
  out_vectors = false;
  out_scales = false;
  out_payloads = false;
}

wrapped_size : block_serialized_size (2 ^ 30) (2 ^ 32 - 2) 0 0 ≡ 44
unfolding block_serialized_size
wrapped_size = refl

-- The decoder accepts these 44 bytes as a block of 2^30 entries.
wrapped_accepted :
    decode_block
      (some (wrapped_header ++ put_le 4 (crc32_ieee wrapped_header 40)))
      44
      true
      no_outputs
    ≡ done (record {
      header = record {
        dim = 2 ^ 32 - 2;
        count = 2 ^ 30;
        t_start_ms = pos 0;
        t_end_ms = pos 0;
        payload_size_bytes = 0;
        dtype = 0;
      };
      timestamps = [];
      vectors = [];
      scales = [];
      payloads = [];
    })
unfolding decode_block crc32_ieee put_le get_le block_serialized_size signed64
wrapped_accepted = refl

crc32_ieee-eq-bitwise_example : crc32_ieee (49 ∷ 50 ∷ []) 2 ≡ crc32_bitwise (49 ∷ 50 ∷ []) 2
crc32_ieee-eq-bitwise_example = crc32_ieee-eq-bitwise (49 ∷ 50 ∷ []) 2 (omega arith)

crc32_ieee_detects_example : crc32_ieee (7 ∷ 49 ∷ 50 ∷ []) 3 ≢ crc32_ieee (7 ∷ 48 ∷ 50 ∷ []) 3
crc32_ieee_detects_example =
    crc32_ieee_detects (7 ∷ []) (50 ∷ []) 49 48 (omega arith) (omega arith) (omega arith)
      (omega arith) (omega arith)

abbrev sensor_config : Config
sensor_config = record {
  abi = 1;
  cold_path = none;
  dim = 4;
  uuid = [];
  ring_capacity = 0;
  window_duration_ms = pos 0;
  eviction_interval_ms = pos 250;
  payload_size_bytes = 0;
  storage_dtype = 0;
  distance_metric = 1;
  max_sensors = 2;
  recover_hot_window = 1;
}

abbrev sensor_uuid : List ℕ
sensor_uuid = 1 ∷ 2 ∷ 3 ∷ 4 ∷ 5 ∷ 6 ∷ 7 ∷ 8 ∷ 9 ∷ 10 ∷ 11 ∷ 12 ∷ 13 ∷ 14 ∷ 15 ∷ 16 ∷ []

deserialize-serialize_example :
    deserialize_engine_metadata
      (serialize_engine_metadata sensor_config sensor_uuid)
      (length (serialize_engine_metadata sensor_config sensor_uuid))
      sensor_config
    ≡ done (with_persisted sensor_config sensor_config, sensor_uuid)
deserialize-serialize_example =
    deserialize-serialize sensor_config sensor_config sensor_uuid (omega arith) refl

sensor_config_accepted :
    validate_and_default true sensor_config ≡ done (with_defaults sensor_config)
unfolding validate_and_default
sensor_config_accepted = refl

validate_and_default-IsValidConfig_example :
    IsValidConfig true (with_defaults sensor_config)
    × (with_defaults sensor_config ≡ with_defaults sensor_config)
validate_and_default-IsValidConfig_example =
    validate_and_default-IsValidConfig true sensor_config (with_defaults sensor_config)
      sensor_config_accepted

validate_and_default_complete_example :
    validate_and_default true (with_defaults sensor_config) ≡ done (with_defaults sensor_config)
validate_and_default_complete_example =
    validate_and_default_complete true (with_defaults sensor_config)
      (validate_and_default-IsValidConfig true sensor_config (with_defaults sensor_config)
        sensor_config_accepted).0

validate_sensor_id_iff_example :
    (validate_sensor_id (some (115 ∷ 49 ∷ [])) ≡ ok) ↔ IsSensorId (115 ∷ 49 ∷ [])
validate_sensor_id_iff_example = validate_sensor_id_iff (115 ∷ 49 ∷ [])
