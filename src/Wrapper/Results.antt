-- ===== src/Wrapper/Results.antt =====
-- `is_error`, `is_warning` and `error_string` of include/chronosv/chronos_vector.hpp.
use Prim.Native.String.{String}
use text.Mathlib.Text.{starts_with, ◌==◌}
use chronos_vector.Base.{◌≡◌, refl, Bool, false}
use chronos_vector.Base.Int.{pos, ltb_ℤ}
use chronos_vector.Types.{
  ErrorCode, code, ok, warn_range_truncated, warn_partial_result, err_invalid_arg, err_not_found,
  err_dim_mismatch, err_io, err_oom, err_unsupported, err_closed, err_capacity, err_corruption,
  err_internal,
}
use chronos_vector.Api.Text.{chronosv_error_string}

unfoldable pub is_error : ErrorCode → Bool
is_error e = ltb_ℤ (code e) (pos 0)

unfoldable pub is_warning : ErrorCode → Bool
is_warning e = ltb_ℤ (pos 0) (code e)

unfoldable pub error_string : ErrorCode → String
error_string e = chronosv_error_string (code e)

-- `error_string` has a text of its own kind for each return code: it starts with "error: " exactly for the codes that
-- `is_error` takes, with "warning: " exactly for those that `is_warning` takes, and is never "unknown".
pub error_string_lem :
    (e : ErrorCode)
    → (starts_with (error_string e) "error: " ≡ is_error e)
      × (starts_with (error_string e) "warning: " ≡ is_warning e)
      × ((error_string e == "unknown") ≡ false)
unfolding error_string is_error is_warning chronosv_error_string code
error_string_lem ok = (refl, refl, refl)
error_string_lem warn_range_truncated = (refl, refl, refl)
error_string_lem warn_partial_result = (refl, refl, refl)
error_string_lem err_invalid_arg = (refl, refl, refl)
error_string_lem err_not_found = (refl, refl, refl)
error_string_lem err_dim_mismatch = (refl, refl, refl)
error_string_lem err_io = (refl, refl, refl)
error_string_lem err_oom = (refl, refl, refl)
error_string_lem err_unsupported = (refl, refl, refl)
error_string_lem err_closed = (refl, refl, refl)
error_string_lem err_capacity = (refl, refl, refl)
error_string_lem err_corruption = (refl, refl, refl)
error_string_lem err_internal = (refl, refl, refl)
