-- ===== src/Types.antt =====
-- include/chronosv/types.h: error codes, storage dtypes, metrics and the configuration; and
-- `dtype_size` of include/chronosv/ring_buffer.h. An enum of C is the number that stands for it, since the
-- code meets numbers outside the enum; a float is the 32-bit word that holds it.
use chronos_vector.Base.{ℕ, ◌≡◌, refl, Bool, true, false, Option, List, ◌==◌, if◌then◌else◌}
use chronos_vector.Base.Int.{ℤ, pos, negsuc}

-- `chronosv_error_t`
pub data ErrorCode : Type 0 where
  ok : ErrorCode
  warn_range_truncated warn_partial_result : ErrorCode
  err_invalid_arg err_not_found err_dim_mismatch err_io err_oom err_unsupported : ErrorCode
  err_closed err_capacity err_corruption err_internal : ErrorCode

-- The signed return code.
unfoldable pub code : ErrorCode → ℤ
code ok = pos 0
code warn_range_truncated = pos 1
code warn_partial_result = pos 2
code err_invalid_arg = negsuc 0
code err_not_found = negsuc 1
code err_dim_mismatch = negsuc 2
code err_io = negsuc 3
code err_oom = negsuc 4
code err_unsupported = negsuc 5
code err_closed = negsuc 6
code err_capacity = negsuc 7
code err_corruption = negsuc 8
code err_internal = negsuc 98

-- A result with its error code.
pub data Result {ℓ} (A : Type ℓ) : Type ℓ where
  done : A → Result A
  fail : ErrorCode → Result A

-- `if (!test) return e;`
abbrev pub guard : (test : Bool) → ErrorCode → Result (Unit {0})
guard false e = fail e
guard true e = done tt

-- An error ends the function.
infixl 5 ◌>>◌ ◌>>=◌
abbrev pub ◌>>=◌ {ι κ} : {P : Type ι} {Q : Type κ} → Result P → (P → Result Q) → Result Q
fail e >>= next = fail e
done p >>= next = next p

abbrev pub ◌>>◌ {κ} : {Q : Type κ} → Result (Unit {0}) → Result Q → Result Q
test >> next = test >>= λ _. next

-- A guard that passes is skipped.
pub guard_pass {ℓ} :
    {B : Type ℓ} (t : Bool) (e : ErrorCode) (k : Result B) → t ≡ true → (guard t e >> k) ≡ k
guard_pass true e k h = refl
guard_pass false e k h = cc

-- A guard that does not pass ends the function.
pub guard_fail {ℓ} :
    {B : Type ℓ} (t : Bool) (e : ErrorCode) (k : Result B) → t ≡ false → (guard t e >> k) ≡ fail e
guard_fail true e k h = cc
guard_fail false e k h = refl

-- `chronosv_dtype_t` and `chronosv_metric_t`
abbrev pub dtype_float32 : ℕ
dtype_float32 = 0

abbrev pub dtype_int8 : ℕ
dtype_int8 = 1

abbrev pub metric_cosine : ℕ
metric_cosine = 0

abbrev pub metric_euclidean : ℕ
metric_euclidean = 1

abbrev pub abi_version : ℕ
abi_version = 1

-- Size of one element in bytes, 0 for an unknown dtype.
abbrev pub dtype_size : ℕ → ℕ
dtype_size dt = if dt == dtype_float32 then 4 else if dt == dtype_int8 then 1 else 0

-- `chronosv_config_t`, without the metrics sink. A path is its bytes.
pub record Config : Type 0 where
  pub abi : ℕ
  pub cold_path : Option (List ℕ)
  pub dim : ℕ
  pub uuid : List ℕ
  pub ring_capacity : ℕ
  pub window_duration_ms : ℤ
  pub eviction_interval_ms : ℤ
  pub payload_size_bytes : ℕ
  pub storage_dtype : ℕ
  pub distance_metric : ℕ
  pub max_sensors : ℕ
  pub recover_hot_window : ℕ
