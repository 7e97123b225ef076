-- ===== src/Api/Text.antt =====
-- `chronosv_error_string` of src/engine.cpp.
use Prim.Native.String.{String}
use chronos_vector.Base.{◌==◌, if◌then◌else◌}
use chronos_vector.Base.Int.{ℤ, pos, negsuc}

-- The text of a return code; `negsuc k` is the code `-(k + 1)`.
unfoldable pub chronosv_error_string : ℤ → String
chronosv_error_string (pos n) =
    if n == 0
    then "ok"
    else if n == 1
    then "warning: range truncated to hot window"
    else if n == 2
    then "warning: fewer results than requested"
    else "unknown"
chronosv_error_string (negsuc k) =
    if k == 0
    then "error: invalid argument"
    else if k == 1
    then "error: sensor not found"
    else if k == 2
    then "error: vector dim does not match engine dim"
    else if k == 3
    then "error: I/O failure"
    else if k == 4
    then "error: out of memory"
    else if k == 5
    then "error: feature not compiled in / not yet implemented"
    else if k == 6
    then "error: engine is closed"
    else if k == 7
    then "error: max_sensors exceeded"
    else if k == 8
    then "error: persisted block failed magic/version/CRC/format validation"
    else if k == 98
    then "error: internal"
    else "unknown"
