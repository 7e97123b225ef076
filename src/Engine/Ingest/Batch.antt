-- ===== src/Engine/Ingest/Batch.antt =====
-- `AppendBatch` of src/engine.cpp against single calls of `Append`.
use chronos_vector.Base.{
  ℕ, zero, suc, ◌≡◌, refl, ap, sym, ◌∙◌, true, false, not, Option, none, some, List, [], ◌∷◌, take,
  drop, get_or, arith, inl, inr, Bool-cases, ◌==◌, ==_iff, ==_false, ltb, if◌then◌else◌,
}
use chronos_vector.Base.Int.{ℤ, pos}
use chronos_vector.Types.{Config, done, guard_pass, err_closed, err_dim_mismatch, ◌>>=◌}
use chronos_vector.Ring.{Ring, Allocator, add_u64}
use chronos_vector.Kernels.{Floats}
use chronos_vector.Engine.{
  Bytes, Engine, SensorSlot, SensorMap, find, put, same_id, get_or_create_ring, commit,
}
use chronos_vector.Engine.Sensors.{find_here, find_there, some_injective}
use chronos_vector.Engine.Scores.Runs.{when_false}
use chronos_vector.Engine.Limit.{ring_for, ring_for_lem}
use chronos_vector.Engine.Ingest.{
  append_row, append_rows, append_on, append_entry, append_batch, set_ring, report_overwrites,
}

same_id_refl : (k : Bytes) → same_id k k ≡ true
unfolding same_id
same_id_refl [] = refl
same_id_refl (b ∷ bs) = rw ((==_iff b b).1 refl, same_id_refl bs) refl

find-put : (m : SensorMap) (id : Bytes) (s : SensorSlot) → find (put m id s) id ≡ some s
unfolding put
find-put [] id s = find_here id s [] id (same_id_refl id)
find-put ((k, t) ∷ m) id s = elim (Bool-cases (same_id k id)) [
  | inl here ↦ rw (put, here) (find_here k s m id here)
  | inr there ↦ rw (put, there) (find_there k t (put m id s) id there ∙ find-put m id s)
]

put_here :
    (k : Bytes) (x : SensorSlot) (m : SensorMap) (id : Bytes) (t : SensorSlot)
    → same_id k id ≡ true
    → put ((k, x) ∷ m) id t ≡ (k, t) ∷ m
unfolding put
put_here k x m id t here = rw (put, here) refl

put_there :
    (k : Bytes) (x : SensorSlot) (m : SensorMap) (id : Bytes) (t : SensorSlot)
    → same_id k id ≡ false
    → put ((k, x) ∷ m) id t ≡ (k, x) ∷ put m id t
unfolding put
put_there k x m id t there = rw (put, there) refl

put-put : (m : SensorMap) (id : Bytes) (s t : SensorSlot) → put (put m id s) id t ≡ put m id t
unfolding put
put-put [] id s t = put_here id s [] id t (same_id_refl id)
put-put ((k, x) ∷ m) id s t = elim (Bool-cases (same_id k id)) [
  | inl here ↦
      ap (λ l. put l id t) (put_here k x m id s here)
      ∙ put_here k s m id t here
      ∙ sym (put_here k x m id t here)
  | inr there ↦
      ap (λ l. put l id t) (put_there k x m id s there)
      ∙ put_there k x (put m id s) id t there
      ∙ ap (λ l. (k, x) ∷ l) (put-put m id s t)
      ∙ sym (put_there k x m id t there)
]

-- Writing back what is there.
put-find : (m : SensorMap) (id : Bytes) (s : SensorSlot) → find m id ≡ some s → put m id s ≡ m
unfolding put find
put-find [] id s h = absurd cc
put-find ((k, x) ∷ m) id s h = elim (Bool-cases (same_id k id)) [
  | inl here ↦
      rw (put, here) (ap (λ y. (k, y) ∷ m) (some_injective (sym h ∙ find_here k x m id here)))
  | inr there ↦
      rw (put, there) (ap (λ l. (k, x) ∷ l) (put-find m id s (sym (find_there k x m id there) ∙ h)))
]

-- A slot that holds this ring.
abbrev with_ring : SensorSlot → Ring → SensorSlot
with_ring slot r = record slot { ring = some r }

set_ring_known :
    (m : SensorMap) (id : Bytes) (slot : SensorSlot) (r r' : Ring)
    → find m id ≡ some (with_ring slot r)
    → set_ring m id r' ≡ put m id (with_ring slot r')
unfolding set_ring
set_ring_known m id slot r r' known =
    ap
      (λ (o : Option SensorSlot). elim o as (λ _. SensorMap) [
        | none ↦ m
        | some s ↦ put m id (record s { ring = some r' })
      ])
      known

-- The payload of the next row, as `AppendBatch` passes it on.
abbrev pub row_payload : Config → Option Bytes → Option Bytes
row_payload cfg payloads = elim payloads [
  | none ↦ none
  | some p ↦ if ltb 0 cfg.payload_size_bytes then some p else none
]

module _ {S : Type 0} (a : Allocator) (fl : Floats) (id : Bytes) (dim : ℕ) where
  -- One call of `Append` for each row.
  unfoldable pub append_each : ℕ → Engine S → List ℤ → List ℕ → Option Bytes → Engine S
  append_each zero e ts vecs payloads = e
  append_each (suc n) e ts vecs payloads =
      append_each n
        (append_entry a fl e id (get_or ts 0 (pos 0)) (take dim vecs) dim
          (row_payload e.cfg payloads)).1
        (drop 1 ts) (drop dim vecs)
        (elim payloads [ none ↦ none | some p ↦ some (drop e.cfg.payload_size_bytes p) ])

  get_known :
      (e : Engine S) (slot : SensorSlot) (r : Ring)
      → find e.sensors id ≡ some (with_ring slot r)
      → get_or_create_ring a e id ≡ done (r, e)
  get_known e slot r known = ring_for_lem a e id ∙ ap (ring_for a e id) known

  append_entry_lem :
      (e : Engine S) (slot : SensorSlot) (r : Ring) (ts : ℤ) (vec : List ℕ) (payload : Option Bytes)
      → e.closed ≡ false
      → dim ≡ e.cfg.dim
      → find e.sensors id ≡ some (with_ring slot r)
      → (append_entry a fl e id ts vec dim payload).1
        ≡ append_on fl e id (append_row fl r ts vec payload)
  unfolding append_entry
  append_entry_lem e slot r ts vec payload running same known =
      ap (λ m. (commit e m).1)
        (guard_pass (not e.closed) err_closed _ (ap not running)
          ∙ guard_pass (dim == e.cfg.dim) err_dim_mismatch _ ((==_iff dim e.cfg.dim).1 same)
          ∙ ap (λ g. g >>= λ f. done (append_on fl f.1 id (append_row fl f.0 ts vec payload)))
              (get_known e slot r known))

  after_one :
      (e : Engine S) (slot : SensorSlot) (r r' : Ring)
      → find e.sensors id ≡ some (with_ring slot r)
      → (append_on fl e id r').sensors ≡ put e.sensors id (with_ring slot r')
  unfolding append_on report_overwrites
  after_one e slot r r' known = set_ring_known e.sensors id slot r r' known

  each_lem :
      (n : ℕ) (e : Engine S) (slot : SensorSlot) (r : Ring) (ts : List ℤ) (vecs : List ℕ)
      (payloads : Option Bytes)
      → e.closed ≡ false
      → dim ≡ e.cfg.dim
      → find e.sensors id ≡ some (with_ring slot r)
      → (append_each n e ts vecs payloads).sensors
        ≡ put e.sensors id (with_ring slot (append_rows fl e.cfg r n ts vecs dim payloads))
  unfolding append_each append_rows append_on report_overwrites
  each_lem zero e slot r ts vecs payloads running same known =
      sym (put-find e.sensors id (with_ring slot r) known)
  each_lem (suc n) e slot r ts vecs payloads running same known =
      let payload = row_payload e.cfg payloads in
      let ts_rest = drop 1 ts in
      let vecs_rest = drop dim vecs in
      let rest : Option Bytes = elim payloads [
        | none ↦ none
        | some p ↦ some (drop e.cfg.payload_size_bytes p)
      ] in
      let r1 = append_row fl r (get_or ts 0 (pos 0)) (take dim vecs) payload in
      let one =
        append_entry_lem e slot r (get_or ts 0 (pos 0)) (take dim vecs) payload running same
          known in
      let moved = after_one e slot r r1 known in
      ap (λ x. (append_each n x ts_rest vecs_rest rest).sensors) one
      ∙ each_lem n (append_on fl e id r1) slot r1 ts_rest vecs_rest rest running same
          (ap (λ m. find m id) moved ∙ find-put e.sensors id (with_ring slot r1))
      ∙ ap (λ m. put m id (with_ring slot (append_rows fl e.cfg r1 n ts_rest vecs_rest dim rest)))
          moved
      ∙ put-put e.sensors id (with_ring slot r1) _

  batch_lem :
      (count : ℕ) (e : Engine S) (slot : SensorSlot) (r : Ring) (ts : List ℤ) (vecs : List ℕ)
      (payloads : Option Bytes)
      → e.closed ≡ false
      → dim ≡ e.cfg.dim
      → find e.sensors id ≡ some (with_ring slot r)
      → (append_batch a fl e id (some ts) (some vecs) count dim payloads).1.sensors
        ≡ put e.sensors id (with_ring slot (append_rows fl e.cfg r count ts vecs dim payloads))
  unfolding append_batch append_rows
  batch_lem zero e slot r ts vecs payloads running same known =
      ap (λ m. (commit e m).1.sensors)
        (guard_pass (not e.closed) err_closed _ (ap not running)
          ∙ guard_pass (dim == e.cfg.dim) err_dim_mismatch _ ((==_iff dim e.cfg.dim).1 same))
      ∙ sym (put-find e.sensors id (with_ring slot r) known)
  batch_lem (suc n) e slot r ts vecs payloads running same known =
      ap (λ m. (commit e m).1.sensors)
        (guard_pass (not e.closed) err_closed _ (ap not running)
          ∙ guard_pass (dim == e.cfg.dim) err_dim_mismatch _ ((==_iff dim e.cfg.dim).1 same)
          ∙ when_false (suc n == 0) _ _ (==_false (suc n) 0 (omega arith))
          ∙ ap (λ g. g >>= λ f. done (after f)) (get_known e slot r known))
      ∙ set_ring_known e.sensors id slot r _ known
    where
      after : Ring × Engine S → Engine S
      after f = record f.1 {
        sensors = set_ring f.1.sensors id (append_rows fl e.cfg f.0 (suc n) ts vecs dim payloads);
        total_appends = add_u64 f.1.total_appends (suc n);
      }

  -- On an open engine with a ring for the sensor, `AppendBatch` of the engine's dimension leaves the sensors exactly as
  -- `count` calls of `Append` do, one for each row, in order: also where the ring wraps and overwrites.
  pub append_batch-each :
      (count : ℕ) (e : Engine S) (slot : SensorSlot) (r : Ring) (ts : List ℤ) (vecs : List ℕ)
      (payloads : Option Bytes)
      → e.closed ≡ false
      → dim ≡ e.cfg.dim
      → find e.sensors id ≡ some (with_ring slot r)
      → (append_batch a fl e id (some ts) (some vecs) count dim payloads).1.sensors
        ≡ (append_each count e ts vecs payloads).sensors
  append_batch-each count e slot r ts vecs payloads running same known =
      batch_lem count e slot r ts vecs payloads running same known
      ∙ sym (each_lem count e slot r ts vecs payloads running same known)
