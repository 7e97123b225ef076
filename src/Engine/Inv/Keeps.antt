-- ===== src/Engine/Inv/Keeps.antt =====
-- Ingest, drop and close of src/engine.cpp keep the invariant of the engine.
use chronos_vector.Base.{
  ℕ, ◌+◌, ◌≤◌, ◌<◌, ◌^◌, refl, sym, subst, Bool, true, false, not, ◌||◌, Option, none, some, List,
  arith, if◌then◌else◌, ◌==◌, inl, inr, Option-cases,
}
use chronos_vector.Base.Int.{ℤ}
use chronos_vector.Types.{
  Config, Result, done, fail, ErrorCode, guard, ◌>>=◌, ◌>>◌, err_closed, err_invalid_arg,
  err_dim_mismatch,
}
use chronos_vector.Codec.{is_null, buffer}
use chronos_vector.Ring.{Ring, Allocator, add_u64}
use chronos_vector.Kernels.{Floats}
use chronos_vector.Engine.{
  Bytes, Backend, Engine, SensorSlot, SensorMap, find, get_or_create_ring, commit,
  preallocate_sensor, drop_sensor, close,
}
use chronos_vector.Engine.Ingest.{
  append_row, set_ring, append_on, append_rows, report_overwrites, append_entry, append_batch,
}
use chronos_vector.Engine.Sensors.{drop_slot, drop_found}
use chronos_vector.Engine.Inv.{
  RingFits, MapFits, IsRunnable, IsSound, put-Fits, erase-Fits, MapFits-more,
}
use chronos_vector.Engine.Inv.Ops.{
  Follows, Found, get_or_create_ring-Found, append_row-Fits, append_rows-Fits,
}

set_ring-Fits :
    (cfg : Config) (n : ℕ) (m : SensorMap) (id : Bytes) (r : Ring)
    → MapFits cfg n m
    → RingFits cfg n r
    → MapFits cfg n (set_ring m id r)
unfolding set_ring
set_ring-Fits cfg n m id r fs f = elim (Option-cases (find m id)) [
  | inl unknown ↦ rw (set_ring, unknown) fs
  | inr (slot, known) ↦ rw (set_ring, known) (put-Fits cfg n m id _ fs f)
]

module _ {S : Type 0} (enable_int8 : Bool) (n : ℕ) (e : Engine S)
    (h : IsSound enable_int8 n e) where
  pub Follows-Sound :
      (m : ℕ) (e' : Engine S) → Follows enable_int8 n e h m e' → IsSound enable_int8 m e'
  Follows-Sound m e' (same, fs) = record {
    runnable = subst (IsRunnable enable_int8) (sym same) h.runnable;
    capacity_word = subst (λ c. c.ring_capacity < 2 ^ 64) (sym same) h.capacity_word;
    rings = subst (λ c. MapFits c m e'.sensors) (sym same) fs;
  }

  pub more-Sound : (m : ℕ) → n ≤ m → IsSound enable_int8 m e
  more-Sound m le = Follows-Sound m e (refl, MapFits-more e.cfg n m e.sensors le h.rings)

  -- The engine that a call leaves behind.
  abbrev Kept : ℕ → Result (Engine S) → Type 0
  Kept m r = IsSound enable_int8 m (commit e r).1

  guard-Kept :
      (m : ℕ) (t : Bool) (c : ErrorCode) (k : Result (Engine S))
      → n ≤ m
      → Kept m k
      → Kept m (guard t c >> k)
  guard-Kept m true c k le f = f
  guard-Kept m false c k le f = more-Sound m le

  Found-Kept :
      (m : ℕ) (g : Ring × Engine S → Engine S)
      → n ≤ m
      → ((p : Ring × Engine S)
          → RingFits e.cfg n p.0
          → Follows enable_int8 n e h n p.1
          → Follows enable_int8 n e h m (g p))
      → (r : Result (Ring × Engine S)) → Found enable_int8 n e h r
      → Kept m (r >>= λ p. done (g p))
  Found-Kept m g le step (fail c) f = more-Sound m le
  Found-Kept m g le step (done p) (f, w) = Follows-Sound m (g p) (step p f w)

  pub preallocate_sensor-Sound :
      (a : Allocator) (id : Bytes) → IsSound enable_int8 n (preallocate_sensor a e id).1
  unfolding preallocate_sensor
  preallocate_sensor-Sound a id = guard-Kept n (not e.closed) err_closed _ (omega arith) (
      Found-Kept n (λ p. p.1) (omega arith) (λ p f w. w) (get_or_create_ring a e id)
        (get_or_create_ring-Found enable_int8 n e h a id))

  pub append_entry-Sound :
      (a : Allocator) (fl : Floats) (id : Bytes) (ts : ℤ) (vec : List ℕ) (dim : ℕ)
      (payload : Option Bytes)
      → n + 1 < 2 ^ 64
      → IsSound enable_int8 (n + 1) (append_entry a fl e id ts vec dim payload).1
  unfolding append_entry append_on report_overwrites
  append_entry-Sound a fl id ts vec dim payload room =
      guard-Kept (n + 1) (not e.closed) err_closed _ (omega arith) (
        guard-Kept (n + 1) (dim == e.cfg.dim) err_dim_mismatch _ (omega arith) (
          Found-Kept (n + 1) (λ p. append_on fl p.1 id (append_row fl p.0 ts vec payload))
            (omega arith)
            (λ p f (same, fs). (
              same,
              set_ring-Fits e.cfg (n + 1) p.1.sensors id _
                  (MapFits-more e.cfg n (n + 1) p.1.sensors (omega arith) fs)
                  (append_row-Fits fl ts vec payload room f),
            ))
            (get_or_create_ring a e id) (get_or_create_ring-Found enable_int8 n e h a id)))

  pub append_batch-Sound :
      (a : Allocator) (fl : Floats) (id : Bytes) (ts : Option (List ℤ)) (vecs : Option (List ℕ))
      (count dim : ℕ) (payloads : Option Bytes)
      → n + count < 2 ^ 64
      → IsSound enable_int8 (n + count) (append_batch a fl e id ts vecs count dim payloads).1
  unfolding append_batch
  append_batch-Sound a fl id ts vecs count dim payloads room =
      guard-Kept (n + count) (not e.closed) err_closed _ (omega arith) (
        guard-Kept (n + count) (dim == e.cfg.dim) err_dim_mismatch _ (omega arith)
          (elim (count == 0) as (λ t. Kept (n + count) (if t then done e else rest)) [
            | true ↦ more-Sound (n + count) (omega arith)
            | false ↦
                guard-Kept (n + count) (not (is_null ts || is_null vecs)) err_invalid_arg _
                  (omega arith)
                  (Found-Kept (n + count) after (omega arith)
                    (λ p f (same, fs). (
                      same,
                      set_ring-Fits e.cfg (n + count) p.1.sensors id _
                          (MapFits-more e.cfg n (n + count) p.1.sensors (omega arith) fs)
                          (append_rows-Fits fl e.cfg e.cfg (n + count) count n p.0 (buffer ts)
                            (buffer vecs) dim payloads (omega arith) room f),
                    ))
                    (get_or_create_ring a e id) (get_or_create_ring-Found enable_int8 n e h a id))
          ]))
    where
      after : Ring × Engine S → Engine S
      after p = record p.1 {
        sensors =
            set_ring p.1.sensors id
              (append_rows fl e.cfg p.0 count (buffer ts) (buffer vecs) dim payloads);
        total_appends = add_u64 p.1.total_appends count;
      }

      rest : Result (Engine S)
      rest =
          guard (not (is_null ts || is_null vecs)) err_invalid_arg
          >> (get_or_create_ring a e id >>= λ p. done (after p))

  pub drop_sensor-Sound :
      (b : Backend S) (id : Bytes) → IsSound enable_int8 n (drop_sensor b e id).1
  unfolding drop_sensor
  drop_sensor-Sound b id =
      guard-Kept n (not e.closed) err_closed _ (omega arith) (go (find e.sensors id))
    where
      go : (o : Option SensorSlot) → Kept n (drop_found b e id o)
      go none = h
      go (some slot) =
          Follows-Sound n (drop_slot b e id slot) (refl, erase-Fits e.cfg n e.sensors id h.rings)

  pub close-Sound : IsSound enable_int8 n (close e).1
  unfolding close
  close-Sound = Follows-Sound n _ (refl, h.rings)
