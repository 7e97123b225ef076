-- ===== src/Engine/Inv/Evicts.antt =====
-- Eviction of src/engine.cpp keeps the invariant of the engine: `EvictOnce`, `Flush` and `MaintainSlidingWindow`.
use chronos_vector.Base.{
  ℕ, ◌+◌, ◌-◌, ◌≤◌, ◌≡◌, refl, sym, subst, ◌∙◌, Bool, true, false, not, Option, none, some, [], ◌∷◌,
  arith, if◌then◌else◌, ◌==◌, inl, inr, Bool-cases,
}
use chronos_vector.Base.Int.{ℤ, pos, ltb_ℤ, ◌≤ℤ◌}
use chronos_vector.Types.{Config, ErrorCode, done, guard, ◌>>◌, err_closed, err_invalid_arg}
use chronos_vector.Ring.{Ring, snapshot, advance_tail}
use chronos_vector.Ring.Inv.{snapshot_bounds, advance_tail-IsValid}
use chronos_vector.Ring.Window.{contents, length-contents}
use chronos_vector.Engine.{Bytes, Backend, Engine, EvictScratch, SensorSlot, SensorMap, commit}
use chronos_vector.Engine.Evict.{
  is_ok_code, new_tail, evicted_block, copy_out, evict_entries, evict_sensor, failed_growth,
  evict_all, evict_once, flush_engine, maintain_sliding_window,
}
use chronos_vector.Engine.Evict.Cut.{new_tail_lem, evicted_count-le}
use chronos_vector.Engine.Inv.{RingFits, SlotFits, MapFits, IsSound}
use chronos_vector.Engine.Inv.Reads.{chosen}
use chronos_vector.Engine.Inv.Keeps.{Follows-Sound}

advance_tail-Fits :
    {cfg : Config} {n : ℕ} {r : Ring} (k : ℕ)
    → k ≤ r.head
    → RingFits cfg n r
    → RingFits cfg n (advance_tail r k)
unfolding advance_tail
advance_tail-Fits k h f = record {
  valid = advance_tail-IsValid k f.valid h;
  capacity_same = f.capacity_same;
  dim_same = f.dim_same;
  dtype_same = f.dtype_same;
  payload_same = f.payload_same;
  head_max = f.head_max;
}

-- A pass moves the tail no further than the head.
within_head :
    {cfg : Config} {n : ℕ} (r : Ring) (w : ℤ)
    → RingFits cfg n r
    → (snapshot r).0 + (new_tail r w - (snapshot r).0) ≤ r.head
within_head r w f = omega (
  arith,
  new_tail_lem r w,
  evicted_count-le w (contents r),
  length-contents r,
  snapshot_bounds f.valid,
)

module _ {S : Type 0} (b : Backend S) (n : ℕ) where
  -- A pass over one sensor: the configuration stays, and what the slot is left with fits.
  abbrev PassFits : Engine S → Engine S × SensorSlot → Type 0
  PassFits e p = (p.0.cfg ≡ e.cfg) × SlotFits e.cfg n p.1

  evict_entries-Fits :
      (e : Engine S) (id : Bytes) (slot : SensorSlot) (r : Ring) (count : ℕ)
      → (snapshot r).0 + count ≤ r.head
      → RingFits e.cfg n r
      → PassFits e (evict_entries b e id slot r count)
  unfolding evict_entries
  evict_entries-Fits e id slot r count h f =
      elim (Bool-cases (
        is_ok_code
          (b.write_block e.backend (
            evicted_block id slot.next_block_id r count
              (copy_out e.evict_scratch r (snapshot r).0 count))).0)) [
                | inl good ↦ rw good (refl, advance_tail-Fits ((snapshot r).0 + count) h f)
                | inr bad ↦ rw bad (refl, advance_tail-Fits ((snapshot r).0 + count) h f)
              ]

  grown_pass :
      (e : Engine S) (id : Bytes) (slot : SensorSlot) (r : Ring) (count : ℕ)
      → SlotFits e.cfg n slot
      → PassFits e (evict_entries b e id slot r count)
      → (o : Option EvictScratch)
      → PassFits e (elim o [
        | none ↦ evict_entries b e id slot r count
        | some scratch ↦ (record e { evict_scratch = scratch }, slot)
      ])
  grown_pass e id slot r count s f none = f
  grown_pass e id slot r count s f (some scratch) = (refl, s)

  evict_sensor-Fits :
      (memory : Option ℕ) (e : Engine S) (id : Bytes) (slot : SensorSlot) (w : ℤ)
      → SlotFits e.cfg n slot
      → PassFits e (evict_sensor b memory e id slot w)
  unfolding evict_sensor
  evict_sensor-Fits memory e id slot w f = go slot.ring f
    where
      go :
          (o : Option Ring)
          → elim o as (λ _. Type 0) [ none ↦ Unit {0} | some r ↦ RingFits e.cfg n r ]
          → PassFits e (elim o as (λ _. Engine S × SensorSlot) [
            | none ↦ (e, slot)
            | some r ↦
                let count = new_tail r w - (snapshot r).0 in
                if count == 0
                then (e, slot)
                else elim (failed_growth memory e.evict_scratch r count) [
                  | none ↦ evict_entries b e id slot r count
                  | some scratch ↦ (record e { evict_scratch = scratch }, slot)
                ]
          ])
      go none g = (refl, f)
      go (some r) g =
          let count = new_tail r w - (snapshot r).0 in
          chosen (PassFits e) (count == 0) (refl, f)
            (grown_pass e id slot r count f
              (evict_entries-Fits e id slot r count (within_head r w g) g) _)

  evict_all-Fits :
      (memory : Bytes → Option ℕ) (cfg : Config) (m : SensorMap) (e : Engine S) (w : ℤ)
      → e.cfg ≡ cfg
      → MapFits cfg n m
      → let pass = evict_all b memory e m w in (pass.0.cfg ≡ cfg) × MapFits cfg n pass.1
  unfolding evict_all
  evict_all-Fits memory cfg [] e w same fs = (same, tt)
  evict_all-Fits memory cfg ((id, slot) ∷ m) e w same (f, fs) =
      let here =
        evict_sensor-Fits (memory id) e id slot w (subst (λ c. SlotFits c n slot) (sym same) f) in
      let rest =
        evict_all-Fits memory cfg m (evict_sensor b (memory id) e id slot w).0 w (here.0 ∙ same)
          fs in
      (
        rest.0,
        (subst (λ c. SlotFits c n (evict_sensor b (memory id) e id slot w).1) same here.1, rest.1),
      )

-- The window is no part of a ring's shape.
RingFits-window :
    (cfg : Config) (w : ℤ) (n : ℕ) (r : Ring)
    → RingFits cfg n r
    → RingFits (record cfg { window_duration_ms = w }) n r
RingFits-window cfg w n r f = record {
  valid = f.valid;
  capacity_same = f.capacity_same;
  dim_same = f.dim_same;
  dtype_same = f.dtype_same;
  payload_same = f.payload_same;
  head_max = f.head_max;
}

MapFits-window :
    (cfg : Config) (w : ℤ) (n : ℕ) (m : SensorMap)
    → MapFits cfg n m
    → MapFits (record cfg { window_duration_ms = w }) n m
MapFits-window cfg w n [] fs = tt
MapFits-window cfg w n ((id, slot) ∷ m) (f, fs) =
    (slot_lem slot.ring f, MapFits-window cfg w n m fs)
  where
    slot_lem :
        (o : Option Ring)
        → elim o as (λ _. Type 0) [ none ↦ Unit {0} | some r ↦ RingFits cfg n r ]
        → elim o as (λ _. Type 0) [
          | none ↦ Unit {0}
          | some r ↦ RingFits (record cfg { window_duration_ms = w }) n r
        ]
    slot_lem none g = g
    slot_lem (some r) g = RingFits-window cfg w n r g

module _ {S : Type 0} (b : Backend S) (memory : Bytes → Option ℕ) (enable_int8 : Bool) (n : ℕ) where
  pub evict_once-Sound :
      (e : Engine S) (w : Option ℤ)
      → IsSound enable_int8 n e
      → IsSound enable_int8 n (evict_once b memory e w)
  unfolding evict_once
  evict_once-Sound e w h =
      Follows-Sound enable_int8 n e h n _
        (evict_all-Fits b n memory e.cfg e.sensors e _ refl h.rings)

  pub flush_engine-Sound :
      (e : Engine S) → IsSound enable_int8 n e → IsSound enable_int8 n (flush_engine b memory e).1
  unfolding flush_engine
  flush_engine-Sound e h = go e.closed
    where
      evicted : Engine S
      evicted = evict_once b memory e (some (pos 0))

      go :
          (t : Bool)
          → IsSound enable_int8 n
              (if◌then◌else◌ {A = ErrorCode × Engine S} t
                (err_closed, e)
                (let flushed = b.flush evicted.backend in
                  (flushed.0, record evicted { backend = flushed.1 }))).1
      go true = h
      go false =
          let k = evict_once-Sound e (some (pos 0)) h in
          Follows-Sound enable_int8 n evicted k n _ (refl, k.rings)

  pub maintain_sliding_window-Sound :
      (e : Engine S) (w : ℤ)
      → IsSound enable_int8 n e
      → IsSound enable_int8 n (maintain_sliding_window b memory e w).1
  unfolding maintain_sliding_window
  maintain_sliding_window-Sound e w h = go e.closed (ltb_ℤ w (pos 0)) (λ k. ground arith)
    where
      set : Engine S
      set = record e { cfg = record e.cfg { window_duration_ms = w } }

      go :
          (t s : Bool)
          → (s ≡ false → pos 0 ≤ℤ w)
          → IsSound enable_int8 n
              (commit e do
                guard (not t) err_closed
                guard (not s) err_invalid_arg
                done (evict_once b memory set none)).1
      go true s k = h
      go false true k = h
      go false false k = evict_once-Sound set none (record {
        runnable = (h.runnable.0, k refl);
        capacity_word = h.capacity_word;
        rings = MapFits-window e.cfg w n e.sensors h.rings;
      })
