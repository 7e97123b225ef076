-- ===== src/Validation.antt =====
-- `validate_and_default` and `validate_sensor_id` of src/engine.cpp.
pub mod Settings
pub mod SensorId
use Prim.Native.Nat.{bit_and}
use chronos_vector.Base.{
  ℕ, zero, suc, ◌+◌, ◌-◌, ◌≡◌, refl, Bool, true, false, not, ◌&&◌, ◌||◌, Option, none, some, List,
  [], ◌∷◌, ltb, leb, ◌==◌, if◌then◌else◌, length,
}
use chronos_vector.Base.Int.{ℤ, pos, negsuc, ltb_ℤ}
use chronos_vector.Types.{
  Config, Result, done, fail, ErrorCode, ok, err_invalid_arg, err_unsupported, abi_version,
  dtype_int8, metric_euclidean, ◌>>=◌, ◌>>◌, guard,
}

abbrev pub default_ring_capacity : ℕ
default_ring_capacity = 65536

abbrev pub default_window_duration_ms : ℤ
default_window_duration_ms = pos 600000

abbrev pub default_eviction_interval_ms : ℤ
default_eviction_interval_ms = pos 60000

abbrev pub max_sensor_id_len : ℕ
max_sensor_id_len = 256

abbrev pub max_dim : ℕ
max_dim = 65536

abbrev pub max_payload_size : ℕ
max_payload_size = 4096

-- `std::has_single_bit`
abbrev pub has_single_bit : ℕ → Bool
has_single_bit x = not (x == 0) && bit_and x (x - 1) == 0

abbrev pub is_zero : ℤ → Bool
is_zero (pos n) = n == 0
is_zero (negsuc n) = false

-- The three defaults for fields left at zero.
unfoldable pub with_defaults : Config → Config
with_defaults c = record c {
  ring_capacity = if c.ring_capacity == 0 then default_ring_capacity else c.ring_capacity;
  window_duration_ms =
      if is_zero c.window_duration_ms then default_window_duration_ms else c.window_duration_ms;
  eviction_interval_ms =
      if is_zero c.eviction_interval_ms
      then default_eviction_interval_ms
      else c.eviction_interval_ms;
}

-- `enable_int8` is whether CHRONOSV_ENABLE_INT8 is defined. The configuration comes back with its
-- defaults filled in.
unfoldable pub validate_and_default : Bool → Config → Result Config
unfolding with_defaults
validate_and_default enable_int8 c = do
  guard (c.abi == abi_version) err_invalid_arg
  guard (not (c.dim == 0 || ltb max_dim c.dim)) err_invalid_arg
  guard (leb c.payload_size_bytes max_payload_size) err_invalid_arg
  guard (leb c.storage_dtype dtype_int8) err_invalid_arg
  guard (leb c.distance_metric metric_euclidean) err_invalid_arg
  guard (not (c.storage_dtype == dtype_int8) || enable_int8) err_unsupported
  let d = with_defaults c
  guard (leb 64 d.ring_capacity) err_invalid_arg
  guard (has_single_bit d.ring_capacity) err_invalid_arg
  guard (not (ltb_ℤ d.window_duration_ms (pos 0))) err_invalid_arg
  guard (not (ltb_ℤ d.eviction_interval_ms (pos 100))) err_invalid_arg
  done d

-- The loop: the length reached, or `none` at a reserved byte. The list is the C string from `id + n`
-- on, without its terminator; `fuel` counts down `n <= kMaxSensorIdLen`.
unfoldable pub scan_id : ℕ → ℕ → List ℕ → Option ℕ
scan_id zero n cs = some n
scan_id (suc fuel) n [] = some n
scan_id (suc fuel) n (c ∷ cs) = elim (c == 1) [ true ↦ none | false ↦ scan_id fuel (n + 1) cs ]

unfoldable pub validate_sensor_id : Option (List ℕ) → ErrorCode
validate_sensor_id none = err_invalid_arg
validate_sensor_id (some id) = elim (scan_id (max_sensor_id_len + 1) 0 id) [
  | none ↦ err_invalid_arg
  | some n ↦
      if n == 0 then err_invalid_arg else if ltb max_sensor_id_len n then err_invalid_arg else ok
]
