-- ===== src/Engine/Inv/Ids.antt =====
-- The sensor ids of the engine of src/engine.cpp, operation by operation: a new one comes from the call alone.
use chronos_vector.Base.{
  ℕ, Bool, true, false, not, ◌&&◌, ◌||◌, Option, none, some, List, [], ◌∷◌, All, if◌then◌else◌,
  ◌==◌, inl, inr, Bool-cases, Option-cases, length, ltb, leb,
}
use chronos_vector.Base.Int.{ℤ, pos, ltb_ℤ}
use chronos_vector.Types.{
  Result, done, fail, ErrorCode, guard, ◌>>=◌, ◌>>◌, err_closed, err_invalid_arg, err_dim_mismatch,
  err_capacity,
}
use chronos_vector.Codec.{is_null, buffer}
use chronos_vector.Ring.{Ring, Allocator, add_u64}
use chronos_vector.Kernels.{Floats}
use chronos_vector.Engine.{
  Bytes, Backend, Engine, SensorSlot, SensorMap, find, put, erase, same_id, new_ring, attach_ring,
  get_or_create_ring, commit, preallocate_sensor, drop_sensor,
}
use chronos_vector.Engine.Ingest.{
  append_row, set_ring, append_on, append_rows, report_overwrites, append_entry, append_batch,
}
use chronos_vector.Engine.Evict.{
  evict_sensor, evict_all, evict_once, flush_engine, maintain_sliding_window,
}
use chronos_vector.Engine.Sensors.{drop_found}
use chronos_vector.Engine.Inv.Reads.{chosen}

module _ (P : Bytes → Type 0) where
  -- Every id of the map satisfies `P`.
  abbrev pub Ids : SensorMap → Type 0
  Ids m = All (λ p. P p.0) m

  put-Ids : (m : SensorMap) (id : Bytes) (slot : SensorSlot) → Ids m → P id → Ids (put m id slot)
  unfolding put
  put-Ids [] id slot h p = (p, tt)
  put-Ids ((k, s) ∷ m) id slot (f, fs) p = elim (Bool-cases (same_id k id)) [
    | inl here ↦ rw (put, here) (f, fs)
    | inr there ↦ rw (put, there) (f, put-Ids m id slot fs p)
  ]

  erase-Ids : (m : SensorMap) (id : Bytes) → Ids m → Ids (erase m id)
  unfolding erase
  erase-Ids [] id h = tt
  erase-Ids ((k, s) ∷ m) id (f, fs) = elim (Bool-cases (same_id k id)) [
    | inl here ↦ rw (erase, here) fs
    | inr there ↦ rw (erase, there) (f, erase-Ids m id fs)
  ]

  set_ring-Ids : (m : SensorMap) (id : Bytes) (r : Ring) → Ids m → P id → Ids (set_ring m id r)
  unfolding set_ring
  set_ring-Ids m id r h p = elim (Option-cases (find m id)) [
    | inl unknown ↦ rw (set_ring, unknown) h
    | inr (slot, known) ↦ rw (set_ring, known) (put-Ids m id _ h p)
  ]

  module _ {S : Type 0} (e : Engine S) (h : Ids e.sensors) where
    abbrev Found : Result (Ring × Engine S) → Type 0
    Found (fail c) = Unit {0}
    Found (done p) = Ids p.1.sensors

    attached-Found :
        (id : Bytes) (k : ℤ) (r : Result Ring)
        → P id
        → Found (
            r >>= λ ring.
            let slot : SensorSlot = record { ring = some ring; next_block_id = k } in
            done (ring, record e { sensors = put e.sensors id slot }))
    attached-Found id k (fail c) p = tt
    attached-Found id k (done ring) p = put-Ids e.sensors id _ h p

    attach_ring-Found : (a : Allocator) (id : Bytes) (k : ℤ) → P id → Found (attach_ring a e id k)
    unfolding attach_ring
    attach_ring-Found a id k p = attached-Found id k (new_ring a e.cfg) p

    guard-Found :
        (t : Bool) (c : ErrorCode) (m : Result (Ring × Engine S)) → Found m → Found (guard t c >> m)
    guard-Found true c m f = f
    guard-Found false c m f = tt

    get_or_create_ring-Found :
        (a : Allocator) (id : Bytes) → P id → Found (get_or_create_ring a e id)
    unfolding get_or_create_ring
    get_or_create_ring-Found a id p = go (find e.sensors id)
      where
        inside :
            (o : Option Ring) (k : ℤ)
            → Found (elim o [ none ↦ attach_ring a e id k | some ring ↦ done (ring, e) ])
        inside none k = attach_ring-Found a id k p
        inside (some ring) k = h

        go :
            (o : Option SensorSlot)
            → Found (elim o [
              | none ↦
                  guard
                    (not (ltb 0 e.cfg.max_sensors && leb e.cfg.max_sensors (length e.sensors)))
                    err_capacity
                  >> attach_ring a e id (pos 0)
              | some slot ↦ elim slot.ring [
                | some ring ↦ done (ring, e)
                | none ↦ attach_ring a e id slot.next_block_id
              ]
            ])
        go none = guard-Found _ err_capacity _ (attach_ring-Found a id (pos 0) p)
        go (some slot) = inside slot.ring slot.next_block_id

    -- The ids of the engine that a call leaves behind.
    abbrev Kept : Result (Engine S) → Type 0
    Kept r = Ids (commit e r).1.sensors

    guard-Kept : (t : Bool) (c : ErrorCode) (k : Result (Engine S)) → Kept k → Kept (guard t c >> k)
    guard-Kept true c k f = f
    guard-Kept false c k f = h

    Found-Kept :
        (g : Ring × Engine S → Engine S)
        → ((p : Ring × Engine S) → Ids p.1.sensors → Ids (g p).sensors)
        → (r : Result (Ring × Engine S)) → Found r
        → Kept (r >>= λ p. done (g p))
    Found-Kept g step (fail c) f = h
    Found-Kept g step (done p) f = step p f

    pub preallocate_sensor-Ids :
        (a : Allocator) (id : Bytes) → P id → Ids (preallocate_sensor a e id).1.sensors
    unfolding preallocate_sensor
    preallocate_sensor-Ids a id p =
        guard-Kept (not e.closed) err_closed _
          (Found-Kept (λ f. f.1) (λ f w. w) _ (get_or_create_ring-Found a id p))

    pub append_entry-Ids :
        (a : Allocator) (fl : Floats) (id : Bytes) (ts : ℤ) (vec : List ℕ) (dim : ℕ)
        (payload : Option Bytes)
        → P id
        → Ids (append_entry a fl e id ts vec dim payload).1.sensors
    unfolding append_entry append_on report_overwrites
    append_entry-Ids a fl id ts vec dim payload p = guard-Kept (not e.closed) err_closed _ (
        guard-Kept (dim == e.cfg.dim) err_dim_mismatch _ (
          Found-Kept (λ f. append_on fl f.1 id (append_row fl f.0 ts vec payload))
            (λ f w. set_ring-Ids f.1.sensors id _ w p) _ (get_or_create_ring-Found a id p)))

    pub append_batch-Ids :
        (a : Allocator) (fl : Floats) (id : Bytes) (ts : Option (List ℤ)) (vecs : Option (List ℕ))
        (count dim : ℕ) (payloads : Option Bytes)
        → P id
        → Ids (append_batch a fl e id ts vecs count dim payloads).1.sensors
    unfolding append_batch
    append_batch-Ids a fl id ts vecs count dim payloads p = guard-Kept (not e.closed) err_closed _ (
        guard-Kept (dim == e.cfg.dim) err_dim_mismatch _
          (elim (count == 0) as (λ t. Kept (if t then done e else rest)) [
            | true ↦ h
            | false ↦ guard-Kept (not (is_null ts || is_null vecs)) err_invalid_arg _ (
                Found-Kept after (λ f w. set_ring-Ids f.1.sensors id _ w p) _
                  (get_or_create_ring-Found a id p))
          ]))
      where
        after : Ring × Engine S → Engine S
        after f = record f.1 {
          sensors =
              set_ring f.1.sensors id
                (append_rows fl e.cfg f.0 count (buffer ts) (buffer vecs) dim payloads);
          total_appends = add_u64 f.1.total_appends count;
        }

        rest : Result (Engine S)
        rest =
            guard (not (is_null ts || is_null vecs)) err_invalid_arg
            >> (get_or_create_ring a e id >>= λ f. done (after f))

    pub drop_sensor-Ids : (b : Backend S) (id : Bytes) → Ids (drop_sensor b e id).1.sensors
    unfolding drop_sensor
    drop_sensor-Ids b id = guard-Kept (not e.closed) err_closed _ (go (find e.sensors id))
      where
        go : (o : Option SensorSlot) → Kept (drop_found b e id o)
        go none = h
        go (some slot) = erase-Ids e.sensors id h

  module _ {S : Type 0} (b : Backend S) (memory : Bytes → Option ℕ) where
    evict_all-Ids :
        (e : Engine S) (m : SensorMap) (w : ℤ) → Ids m → Ids (evict_all b memory e m w).1
    unfolding evict_all
    evict_all-Ids e [] w h = tt
    evict_all-Ids e ((id, slot) ∷ m) w (f, fs) =
        (f, evict_all-Ids (evict_sensor b (memory id) e id slot w).0 m w fs)

    evict_once-Ids :
        (e : Engine S) (o : Option ℤ) → Ids e.sensors → Ids (evict_once b memory e o).sensors
    unfolding evict_once
    evict_once-Ids e o h = evict_all-Ids e e.sensors _ h

    pub flush_engine-Ids : (e : Engine S) → Ids e.sensors → Ids (flush_engine b memory e).1.sensors
    unfolding flush_engine
    flush_engine-Ids e h =
        chosen (λ (q : ErrorCode × Engine S). Ids q.1.sensors) e.closed h
          (evict_once-Ids e (some (pos 0)) h)

    pub maintain_sliding_window-Ids :
        (e : Engine S) (w : ℤ)
        → Ids e.sensors
        → Ids (maintain_sliding_window b memory e w).1.sensors
    unfolding maintain_sliding_window
    maintain_sliding_window-Ids e w h = guard-Kept e h (not e.closed) err_closed _ (
        guard-Kept e h (not (ltb_ℤ w (pos 0))) err_invalid_arg _
          (evict_once-Ids (record e { cfg = record e.cfg { window_duration_ms = w } }) none h))
