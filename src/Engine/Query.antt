-- ===== src/Engine/Query.antt =====
-- `QueryRange` of src/engine.cpp. The output arrays are the lists that it writes.
pub mod Range
use chronos_vector.Base.{
  ℕ, zero, suc, ◌+◌, ◌-◌, ◌*◌, Bool, true, false, not, ◌&&◌, ◌||◌, Option, none, some, List, [],
  ◌∷◌, ◌++◌, ltb, ◌==◌, if◌then◌else◌,
}
use chronos_vector.Base.Int.{ℤ, pos, negsuc, ltb_ℤ}
use chronos_vector.Types.{
  ErrorCode, ok, err_closed, err_invalid_arg, err_not_found, warn_range_truncated,
}
use chronos_vector.Ring.{Ring, snapshot, timestamp_at, vector_at, add_u64}
use chronos_vector.Engine.{Bytes, Engine, Event, on_warning, hears, find}
use chronos_vector.Engine.Ingest.{note}
use Prim.Native.Nat.{◌^◌}

abbrev pub int64_max : ℤ
int64_max = pos (2 ^ 63 - 1)

-- The rows written, and the oldest timestamp met.
pub record RangeRows : Type 0 where
  pub rows : List (ℤ × List ℕ)
  pub oldest : ℤ

-- The loop: `n` indices from `idx` on are left, and `room` rows can still be written. A row is
-- `row_bytes` bytes from the start of its slot.
unfoldable pub range_loop : Ring → ℤ → ℤ → ℕ → ℕ → ℕ → ℕ → ℤ → RangeRows
range_loop r t_start t_end row_bytes zero idx room oldest = record { rows = []; oldest = oldest }
range_loop r t_start t_end row_bytes (suc n) idx zero oldest = record { rows = []; oldest = oldest }
range_loop r t_start t_end row_bytes (suc n) idx (suc room) oldest =
    let ts = timestamp_at r idx in
    let older = if ltb_ℤ ts oldest then ts else oldest in
    elim (ltb_ℤ ts t_start || ltb_ℤ t_end ts) [
      | true ↦ range_loop r t_start t_end row_bytes n (idx + 1) (suc room) older
      | false ↦
          let rest = range_loop r t_start t_end row_bytes n (idx + 1) room older in
          record rest { rows = (ts, vector_at r idx row_bytes) ∷ rest.rows }
    ]

-- What a query returns: the code, the rows (none where `*out_count` is not set), and the engine.
pub record RangeAnswer (S : Type 0) : Type 0 where
  pub error : ErrorCode
  pub rows : Option (List (ℤ × List ℕ))
  pub engine : Engine S

-- The answer from a ring. `max` is positive.
unfoldable pub query_ring : {S : Type 0} → Engine S → Ring → ℤ → ℤ → ℕ → RangeAnswer S
query_ring e r t_start t_end max =
    let s = snapshot r in
    let found = range_loop r t_start t_end (e.cfg.dim * 4) (s.1 - s.0) s.0 max int64_max in
    let counted = record e { total_queries = add_u64 e.total_queries 1 } in
    if ltb 0 (s.1 - s.0) && ltb_ℤ t_start found.oldest
    then record {
      error = warn_range_truncated;
      rows = some found.rows;
      engine = note counted (hears e.sink (λ k. k.hears_warning)) (on_warning warn_range_truncated);
    }
    else record { error = ok; rows = some found.rows; engine = counted }

-- `QueryRange`; `outputs` is whether the three output pointers are non-null.
unfoldable pub query_range : {S : Type 0} → Engine S → Bytes → ℤ → ℤ → ℤ → Bool → RangeAnswer S
query_range e id t_start t_end (negsuc max) outputs = record {
  error = if e.closed then err_closed else err_invalid_arg;
  rows = none;
  engine = e;
}
query_range e id t_start t_end (pos max) outputs =
    if e.closed
    then record { error = err_closed; rows = none; engine = e }
    else if max == 0 || not outputs || ltb_ℤ t_end t_start
    then record { error = err_invalid_arg; rows = none; engine = e }
    else elim (find e.sensors id) [
      | none ↦ record { error = err_not_found; rows = some []; engine = e }
      | some slot ↦ elim slot.ring [
        | none ↦ record { error = ok; rows = some []; engine = e }
        | some r ↦ query_ring e r t_start t_end max
      ]
    ]
