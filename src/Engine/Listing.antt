-- ===== src/Engine/Listing.antt =====
-- `ListSensors` of src/engine.cpp.
pub mod All
use chronos_vector.Base.{
  ℕ, zero, suc, ◌+◌, Bool, true, false, not, ◌&&◌, Option, none, some, List, [], ◌∷◌, ◌++◌, ltb,
  length, if◌then◌else◌,
}
use chronos_vector.Types.{ErrorCode, ok, err_invalid_arg, err_oom}
use chronos_vector.Engine.{Bytes, Engine, SensorMap}

-- What the caller's array holds and what `*out_count` is set to; a copy is its bytes with the ending 0. Copies that
-- were freed are no part of it.
pub record Listing : Type 0 where
  pub error : ErrorCode
  pub ids : List Bytes
  pub count : Option ℕ

-- The loop, with what it has written. `grants` is whether `malloc` of so many bytes succeeds at its `k`-th call.
unfoldable pub list_loop : (ℕ → ℕ → Bool) → SensorMap → ℕ → List Bytes → Listing
list_loop grants [] max written = record {
  error = ok;
  ids = written;
  count = some (length written);
}
list_loop grants ((id, slot) ∷ m) max written =
    let rest = list_loop grants m max (written ++ ((id ++ (0 ∷ [])) ∷ [])) in
    if not (ltb (length written) max)
    then record { error = ok; ids = written; count = some (length written) }
    else if not (grants (length written) (length id + 1))
    then record { error = err_oom; ids = []; count = some 0 }
    else rest

-- `ListSensors`; `has_ids` and `has_count` are whether the two output pointers are non-null.
unfoldable pub list_sensors : {S : Type 0} → (ℕ → ℕ → Bool) → Engine S → Bool → ℕ → Bool → Listing
list_sensors grants e has_ids max has_count =
    if not has_count
    then record { error = err_invalid_arg; ids = []; count = none }
    else if ltb 0 max && not has_ids
    then record { error = err_invalid_arg; ids = []; count = none }
    else list_loop grants e.sensors max []
