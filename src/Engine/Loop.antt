-- ===== src/Engine/Loop.antt =====
-- `EvictionLoop` of src/engine.cpp. The waits return in time; what other threads do to the engine between two rounds, and
-- what each load of `stop_requested_` finds, are arguments.
pub mod Stops
use chronos_vector.Base.{ℕ, zero, suc, ◌+◌, Bool, true, false, Option, none, some, if◌then◌else◌}
use chronos_vector.Engine.{Bytes, Backend, Engine}
use chronos_vector.Engine.Evict.{evict_once}

-- The engine as the loop leaves it, or `none` where `fuel` rounds are not enough. `t` is the number of loads so far.
unfoldable pub eviction_loop :
    {S : Type 0}
    → Backend S
    → (ℕ → Bytes → Option ℕ)
    → (ℕ → Engine S → Engine S)
    → (ℕ → Bool)
    → ℕ
    → ℕ
    → Engine S
    → Option (Engine S)
eviction_loop b memory others stop zero t e = none
eviction_loop b memory others stop (suc fuel) t e =
    let rest =
      eviction_loop b memory others stop fuel (t + 2) (evict_once b (memory t) (others t e) none) in
    if stop t then some e else if stop (t + 1) then some (others t e) else rest
