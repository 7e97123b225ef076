-- ===== src/Engine/Evict/Persist.antt =====
-- The block that `EvictSensor` of src/engine.cpp hands to the backend.
use chronos_vector.Base.{
  none, ℕ, ◌-◌, ◌*◌, ◌^◌, ◌≤◌, ◌<◌, ◌≡◌, refl, ap, sym, ◌∙◌, map, length, take, arith, ==_false,
}
use chronos_vector.Base.Int.{ℤ}
use chronos_vector.Codec.{Block, buffer}
use chronos_vector.Ring.{Ring, snapshot, vsz}
use chronos_vector.Ring.Window.{contents, entries, length-contents}
use chronos_vector.Engine.{Bytes, Backend, Engine}
use chronos_vector.Engine.Evict.{
  evict_sensor, copy_out, evicted_block, timestamp_column, vector_column,
}
use chronos_vector.Engine.Evict.Cut.{
  evicted_count-le, joined_vectors, ts_of, timestamp_column_lem, vector_column_lem, take-entries,
  take-over, length-timestamp_column, length-vector_column, persisted, entries_backend, some_taken,
  taken, slot_with,
}

-- The block of `n` evicted entries, in terms of what was visible.
pub record Persists (id : Bytes) (k : ℤ) (r : Ring) (n : ℕ) (blk : Block) : Type 0 where
  pub same_sensor : blk.sensor_id ≡ id
  pub next_id : blk.block_id ≡ k
  pub counted : blk.count ≡ n
  pub shape : (blk.dim ≡ r.dim) × (blk.dtype ≡ r.dtype) × (blk.payload_size_bytes ≡ r.payload_size)
  pub all_timestamps : take n (buffer blk.timestamps) ≡ map ts_of (take n (contents r))
  pub all_vectors : take (n * vsz r) (buffer blk.vectors) ≡ joined_vectors (take n (contents r))

module _ {S : Type 0} (b : Backend S) (e : Engine S) (id : Bytes) (r : Ring) (k : ℤ) where
  front : (n : ℕ) → n ≤ length (contents r) → entries r (snapshot r).0 n ≡ take n (contents r)
  unfolding contents
  front n h = sym (
      take-entries r (snapshot r).0 n ((snapshot r).1 - (snapshot r).0)
        (omega (arith, length-contents r)))

  block_lem :
      (n : ℕ) → n ≤ length (contents r) → n < 2 ^ 32 → Persists id k r n (persisted b e id r k n)
  unfolding evicted_block copy_out
  block_lem n h small = record {
    same_sensor = refl;
    next_id = refl;
    counted = omega arith;
    shape = (refl, refl, refl);
    all_timestamps =
        take-over n (timestamp_column r (snapshot r).0 n) e.evict_scratch.timestamps
          (length-timestamp_column r (snapshot r).0 n)
        ∙ timestamp_column_lem r (snapshot r).0 n
        ∙ ap (map ts_of) (front n h);
    all_vectors =
        take-over (n * vsz r) (vector_column r (snapshot r).0 n) e.evict_scratch.vectors
          (length-vector_column r (snapshot r).0 n)
        ∙ vector_column_lem r (snapshot r).0 n
        ∙ ap joined_vectors (front n h);
  }

  -- A pass that takes entries from a sensor (fewer than 2^32, with memory for the copy) hands the
  -- backend one block, under the sensor's id and its next block id, that holds the timestamps and the
  -- vectors of exactly the entries it takes, in order.
  pub evict_sensor-Persists :
      (w : ℤ)
      → 0 < taken b e id r k w
      → taken b e id r k w < 2 ^ 32
      → (blk : Block) × ((evict_sensor b none e id (slot_with r k) w).0.backend
          ≡ (b.write_block e.backend blk).1)
        × Persists id k r (taken b e id r k w) blk
  evict_sensor-Persists w some_old small = (
    persisted b e id r k (taken b e id r k w),
    ap (λ p. p.0.backend) (some_taken b e id r k w (==_false (taken b e id r k w) 0 (omega arith)))
        ∙ entries_backend b e id r k (taken b e id r k w),
    block_lem (taken b e id r k w) (evicted_count-le w (contents r)) small,
  )
