-- ===== src/Engine/Sensors.antt =====
-- The sensor map of src/engine.cpp: its limit, the counters that survive `DropSensor`, and closed engines.
use chronos_vector.Base.{
  ℕ, ◌≡◌, refl, ap, sym, ◌∙◌, Bool, true, false, not, Option, none, some, List, [], ◌∷◌, arith,
  if◌then◌else◌, inl, inr, Bool-cases,
}
use chronos_vector.Base.Int.{ℤ}
use chronos_vector.Types.{Result, done, fail, ok, err_closed, guard_fail, guard_pass, err_not_found}
use chronos_vector.Ring.{Ring, Allocator, add_u64}
use chronos_vector.Kernels.{Floats}
use chronos_vector.Engine.{
  Bytes, Backend, Engine, SensorSlot, SensorMap, find, erase, same_id, preallocate_sensor,
  drop_sensor, close, commit, ring_overwritten_entries, ring_overwrite_events,
}
use chronos_vector.Engine.Stats.{get_stats, add_rings}
use chronos_vector.Engine.Ingest.{append_entry, append_batch}
use chronos_vector.Engine.Evict.{flush_engine, maintain_sliding_window}

pub some_injective {ℓ} : {A : Type ℓ} {x y : A} → some x ≡ some y → x ≡ y
some_injective {x} p = ap (λ o. elim o [ none ↦ x | some z ↦ z ]) p

pub find_here :
    (k : Bytes) (s : SensorSlot) (m : SensorMap) (id : Bytes)
    → same_id k id ≡ true
    → find ((k, s) ∷ m) id ≡ some s
unfolding find
find_here k s m id here = rw (find, here) refl

pub find_there :
    (k : Bytes) (s : SensorSlot) (m : SensorMap) (id : Bytes)
    → same_id k id ≡ false
    → find ((k, s) ∷ m) id ≡ find m id
unfolding find
find_there k s m id there = rw (find, there) refl

erase_here :
    (k : Bytes) (s : SensorSlot) (m : SensorMap) (id : Bytes)
    → same_id k id ≡ true
    → erase ((k, s) ∷ m) id ≡ m
unfolding erase
erase_here k s m id here = rw (erase, here) refl

erase_there :
    (k : Bytes) (s : SensorSlot) (m : SensorMap) (id : Bytes)
    → same_id k id ≡ false
    → erase ((k, s) ∷ m) id ≡ (k, s) ∷ erase m id
unfolding erase
erase_there k s m id there = rw (erase, there) refl

when_true {ℓ} : {A : Type ℓ} (t : Bool) (x y : A) → t ≡ true → (if t then x else y) ≡ x
when_true true x y h = refl
when_true false x y h = absurd cc

swap : (acc x y : ℕ) → add_u64 (add_u64 acc x) y ≡ add_u64 (add_u64 acc y) x
swap acc x y = omega arith

-- What a loop of `GetStats` adds up to when a sensor's number has gone into its start.
add_rings-erase :
    (field : Option Ring → ℕ) (m : SensorMap) (id : Bytes) (slot : SensorSlot) (acc : ℕ)
    → find m id ≡ some slot
    → add_rings field (erase m id) (add_u64 acc (field slot.ring)) ≡ add_rings field m acc
unfolding add_rings find
add_rings-erase field [] id slot acc h = absurd cc
add_rings-erase field ((k, s) ∷ m) id slot acc h = elim (Bool-cases (same_id k id)) [
  | inl here ↦
      let same_slot : slot ≡ s = sym (some_injective (sym (find_here k s m id here) ∙ h)) in
      ap (λ l. add_rings field l (add_u64 acc (field slot.ring))) (erase_here k s m id here)
      ∙ ap (λ t. add_rings field m (add_u64 acc (field t.ring))) same_slot
  | inr there ↦
      ap (λ l. add_rings field l (add_u64 acc (field slot.ring))) (erase_there k s m id there)
      ∙ ap (add_rings field (erase m id)) (swap acc (field slot.ring) (field s.ring))
      ∙ add_rings-erase field m id slot (add_u64 acc (field s.ring))
          (sym (find_there k s m id there) ∙ h)
]

-- The operations that change an engine reject a closed one, and a second `Close` changes nothing.
module _ {S : Type 0} where
  pub preallocate_sensor-closed :
      (a : Allocator) (e : Engine S) (id : Bytes)
      → e.closed ≡ true
      → preallocate_sensor a e id ≡ (err_closed, e)
  unfolding preallocate_sensor
  preallocate_sensor-closed a e id shut = ap (commit e) (guard_fail _ err_closed _ (ap not shut))

  pub drop_sensor-closed :
      (b : Backend S) (e : Engine S) (id : Bytes)
      → e.closed ≡ true
      → drop_sensor b e id ≡ (err_closed, e)
  unfolding drop_sensor
  drop_sensor-closed b e id shut = ap (commit e) (guard_fail _ err_closed _ (ap not shut))

  pub append_entry-closed :
      (a : Allocator) (fl : Floats) (e : Engine S) (id : Bytes) (ts : ℤ) (vec : List ℕ) (dim : ℕ)
      (payload : Option Bytes)
      → e.closed ≡ true
      → append_entry a fl e id ts vec dim payload ≡ (err_closed, e)
  unfolding append_entry
  append_entry-closed a fl e id ts vec dim payload shut =
      ap (commit e) (guard_fail _ err_closed _ (ap not shut))

  pub append_batch-closed :
      (a : Allocator) (fl : Floats) (e : Engine S) (id : Bytes) (ts : Option (List ℤ))
      (vecs : Option (List ℕ)) (count dim : ℕ) (payloads : Option Bytes)
      → e.closed ≡ true
      → append_batch a fl e id ts vecs count dim payloads ≡ (err_closed, e)
  unfolding append_batch
  append_batch-closed a fl e id ts vecs count dim payloads shut =
      ap (commit e) (guard_fail _ err_closed _ (ap not shut))

  pub flush_engine-closed :
      (b : Backend S) (memory : Bytes → Option ℕ) (e : Engine S)
      → e.closed ≡ true
      → flush_engine b memory e ≡ (err_closed, e)
  unfolding flush_engine
  flush_engine-closed b memory e shut = when_true e.closed _ _ shut

  pub maintain_sliding_window-closed :
      (b : Backend S) (memory : Bytes → Option ℕ) (e : Engine S) (window_ms : ℤ)
      → e.closed ≡ true
      → maintain_sliding_window b memory e window_ms ≡ (err_closed, e)
  unfolding maintain_sliding_window
  maintain_sliding_window-closed b memory e window_ms shut =
      ap (commit e) (guard_fail _ err_closed _ (ap not shut))

  pub close-closed : (e : Engine S) → e.closed ≡ true → close e ≡ (ok, e)
  unfolding close
  close-closed e shut = ap (λ t. (ok, record e { closed = t })) (sym shut)

abbrev pub drop_slot : {S : Type 0} → Backend S → Engine S → Bytes → SensorSlot → Engine S
drop_slot b e id slot = record e {
  dropped_overwrite_events = add_u64 e.dropped_overwrite_events (ring_overwrite_events slot.ring);
  dropped_overwritten_entries =
      add_u64 e.dropped_overwritten_entries (ring_overwritten_entries slot.ring);
  sensors = erase e.sensors id;
  total_dropped_sensors = add_u64 e.total_dropped_sensors 1;
  backend = (b.delete_sensor e.backend id).1;
}

abbrev pub drop_found :
    {S : Type 0} → Backend S → Engine S → Bytes → Option SensorSlot → Result (Engine S)
drop_found b e id o = elim o [
  | none ↦ fail err_not_found
  | some slot ↦ done (drop_slot b e id slot)
]

drop_sensor_lem :
    {S : Type 0} (b : Backend S) (e : Engine S) (id : Bytes) (slot : SensorSlot)
    → e.closed ≡ false
    → find e.sensors id ≡ some slot
    → drop_sensor b e id ≡ (ok, drop_slot b e id slot)
unfolding drop_sensor
drop_sensor_lem b e id slot running known =
    ap (commit e) (
      guard_pass (not e.closed) err_closed (drop_found b e id (find e.sensors id)) (ap not running))
    ∙ ap (λ o. commit e (drop_found b e id o)) known

-- `DropSensor` of a known sensor of an open engine succeeds, and the lifetime overwrite totals of
-- `GetStats` do not change by it, although the sensor's ring is gone; it counts one dropped sensor, and
-- the backend deletes the sensor, whatever it returns.
pub drop_sensor-keeps_overwrites :
    {S : Type 0} (b : Backend S) (e : Engine S) (id : Bytes) (slot : SensorSlot)
    → e.closed ≡ false
    → find e.sensors id ≡ some slot
    → let dropped = drop_sensor b e id in
      (dropped.0 ≡ ok)
      × ((get_stats b dropped.1).total_overwrite_events ≡ (get_stats b e).total_overwrite_events)
      × ((get_stats b dropped.1).total_overwritten_entries
          ≡ (get_stats b e).total_overwritten_entries)
      × (dropped.1.total_dropped_sensors ≡ add_u64 e.total_dropped_sensors 1)
      × (dropped.1.backend ≡ (b.delete_sensor e.backend id).1)
      × (dropped.1.sensors ≡ erase e.sensors id)
unfolding get_stats
drop_sensor-keeps_overwrites b e id slot running known =
    let step = drop_sensor_lem b e id slot running known in
    let after = drop_slot b e id slot in
    (
      ap (λ p. p.0) step,
      ap (λ p. add_rings ring_overwrite_events p.1.sensors p.1.dropped_overwrite_events) step
          ∙ add_rings-erase ring_overwrite_events e.sensors id slot e.dropped_overwrite_events
              known,
      ap (λ p. add_rings ring_overwritten_entries p.1.sensors p.1.dropped_overwritten_entries) step
          ∙ add_rings-erase ring_overwritten_entries e.sensors id slot e.dropped_overwritten_entries
              known,
      ap (λ p. p.1.total_dropped_sensors) step,
      ap (λ p. p.1.backend) step,
      ap (λ p. p.1.sensors) step,
    )
