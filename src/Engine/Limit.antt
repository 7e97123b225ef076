-- ===== src/Engine/Limit.antt =====
-- The limit on the number of sensors, `max_sensors`, in `GetOrCreateRing` of src/engine.cpp.
use chronos_vector.Base.{
  ℕ, suc, ◌≤◌, ◌<◌, ◌≡◌, refl, ap, sym, subst, ◌∙◌, Bool, true, false, not, ◌&&◌, Option, none,
  some, List, [], ◌∷◌, length, arith, ltb, leb, ◌==◌, inl, inr, Bool-cases, Option-cases,
}
use chronos_vector.Base.Int.{ℤ, pos}
use chronos_vector.Types.{
  ErrorCode, Result, done, fail, err_closed, err_capacity, err_dim_mismatch, guard, ◌>>=◌, ◌>>◌,
}
use chronos_vector.Ring.{Ring, Allocator}
use chronos_vector.Kernels.{Floats}
use chronos_vector.Engine.{
  Bytes, Engine, SensorSlot, SensorMap, find, put, same_id, new_ring, attach_ring,
  get_or_create_ring, preallocate_sensor, commit,
}
use chronos_vector.Engine.Sensors.{find_there}
use chronos_vector.Engine.Ingest.{append_entry, append_on, append_row, set_ring, report_overwrites}

length-put_le :
    (m : SensorMap) (id : Bytes) (slot : SensorSlot) → length (put m id slot) ≤ suc (length m)
unfolding put
length-put_le [] id slot = omega arith
length-put_le ((k, s) ∷ m) id slot = elim (Bool-cases (same_id k id)) [
  | inl here ↦ rw (put, here) (omega arith)
  | inr there ↦ rw (put, there) (omega (arith, length-put_le m id slot))
]

length-put_known :
    (m : SensorMap) (id : Bytes) (slot old : SensorSlot)
    → find m id ≡ some old
    → length (put m id slot) ≡ length m
unfolding put find
length-put_known [] id slot old h = absurd cc
length-put_known ((k, s) ∷ m) id slot old h = elim (Bool-cases (same_id k id)) [
  | inl here ↦ rw (put, here) refl
  | inr there ↦
      rw (put, there)
        (ap suc (length-put_known m id slot old (sym (find_there k s m id there) ∙ h)))
]

length-set_ring : (m : SensorMap) (id : Bytes) (r : Ring) → length (set_ring m id r) ≡ length m
unfolding set_ring
length-set_ring m id r = elim (Option-cases (find m id)) [
  | inl unknown ↦ rw (set_ring, unknown) refl
  | inr (slot, known) ↦ rw (set_ring, known) (length-put_known m id _ slot known)
]

module _ {S : Type 0} where
  -- A result with at most `n` sensors, if there is one.
  abbrev AtMost : ℕ → Result (Ring × Engine S) → Type 0
  AtMost n (fail c) = Unit {0}
  AtMost n (done p) = length p.1.sensors ≤ n

  abbrev attached : Engine S → Bytes → ℤ → Ring → Result (Ring × Engine S)
  attached e id k ring =
      let slot : SensorSlot = record { ring = some ring; next_block_id = k } in
      done (ring, record e { sensors = put e.sensors id slot })

  attached_fits :
      (n : ℕ) (e : Engine S) (id : Bytes) (k : ℤ)
      → ((slot : SensorSlot) → length (put e.sensors id slot) ≤ n)
      → (m : Result Ring) → AtMost n (m >>= attached e id k)
  attached_fits n e id k h (fail c) = tt
  attached_fits n e id k h (done ring) = h _

  attach_fits :
      (n : ℕ) (a : Allocator) (e : Engine S) (id : Bytes) (k : ℤ)
      → ((slot : SensorSlot) → length (put e.sensors id slot) ≤ n)
      → AtMost n (attach_ring a e id k)
  unfolding attach_ring
  attach_fits n a e id k h = attached_fits n e id k h (new_ring a e.cfg)

  abbrev pub has_room : Engine S → Bool
  has_room e = not (ltb 0 e.cfg.max_sensors && leb e.cfg.max_sensors (length e.sensors))

  abbrev pub ring_of : Allocator → Engine S → Bytes → ℤ → Option Ring → Result (Ring × Engine S)
  ring_of a e id k o = elim o [ none ↦ attach_ring a e id k | some ring ↦ done (ring, e) ]

  abbrev pub ring_for : Allocator → Engine S → Bytes → Option SensorSlot → Result (Ring × Engine S)
  ring_for a e id o = elim o [
    | none ↦ guard (has_room e) err_capacity >> attach_ring a e id (pos 0)
    | some slot ↦ ring_of a e id slot.next_block_id slot.ring
  ]

  pub ring_for_lem :
      (a : Allocator) (e : Engine S) (id : Bytes)
      → get_or_create_ring a e id ≡ ring_for a e id (find e.sensors id)
  unfolding get_or_create_ring
  ring_for_lem a e id = refl

  module _ (a : Allocator) (e : Engine S) (id : Bytes) (limited : 0 < e.cfg.max_sensors)
      (within : length e.sensors ≤ e.cfg.max_sensors) where
    new_fits :
        (t : Bool)
        → has_room e ≡ t
        → AtMost e.cfg.max_sensors (guard t err_capacity >> attach_ring a e id (pos 0))
    new_fits false h = tt
    new_fits true h = attach_fits e.cfg.max_sensors a e id (pos 0) (λ slot.
        let room : length e.sensors < e.cfg.max_sensors = ground arith in
        omega (arith, length-put_le e.sensors id slot))

    known_fits :
        (k : ℤ) (o : Option Ring) (old : SensorSlot)
        → find e.sensors id ≡ some old
        → AtMost e.cfg.max_sensors (ring_of a e id k o)
    known_fits k (some ring) old known = within
    known_fits k none old known =
        attach_fits e.cfg.max_sensors a e id k
          (λ slot. omega (arith, length-put_known e.sensors id slot old known))

    ring_fits :
        (o : Option SensorSlot)
        → find e.sensors id ≡ o
        → AtMost e.cfg.max_sensors (ring_for a e id o)
    ring_fits none h = new_fits (has_room e) refl
    ring_fits (some slot) h = known_fits slot.next_block_id slot.ring slot h

    get_fits : AtMost e.cfg.max_sensors (get_or_create_ring a e id)
    get_fits =
        subst (AtMost e.cfg.max_sensors) (sym (ring_for_lem a e id))
          (ring_fits (find e.sensors id) refl)

    abbrev StaysLimited : Result (Engine S) → Type 0
    StaysLimited m = length (commit e m).1.sensors ≤ e.cfg.max_sensors

    guard_within :
        (t : Bool) (c : ErrorCode) (k : Result (Engine S))
        → StaysLimited k
        → StaysLimited (guard t c >> k)
    guard_within false c k h = within
    guard_within true c k h = h

    found_within :
        (g : Ring × Engine S → Engine S)
        → ((p : Ring × Engine S) → length (g p).sensors ≡ length p.1.sensors)
        → (m : Result (Ring × Engine S)) → AtMost e.cfg.max_sensors m
        → StaysLimited (m >>= λ p. done (g p))
    found_within g h (fail c) fits = within
    found_within g h (done p) fits = subst (λ n. n ≤ e.cfg.max_sensors) (sym (h p)) fits

  append_on-sensors :
      (fl : Floats) (e : Engine S) (id : Bytes) (r : Ring)
      → length (append_on fl e id r).sensors ≡ length e.sensors
  unfolding append_on report_overwrites
  append_on-sensors fl e id r = length-set_ring e.sensors id r

  -- With a positive `max_sensors`, an engine within the limit stays within it, whatever
  -- `PreallocateSensor` or `Append` is called with and whatever they return.
  pub sensors_within_limit :
      (a : Allocator) (fl : Floats) (e : Engine S) (id : Bytes) (ts : ℤ) (vec : List ℕ) (dim : ℕ)
      (payload : Option Bytes)
      → 0 < e.cfg.max_sensors
      → length e.sensors ≤ e.cfg.max_sensors
      → (length (preallocate_sensor a e id).1.sensors ≤ e.cfg.max_sensors)
        × (length (append_entry a fl e id ts vec dim payload).1.sensors ≤ e.cfg.max_sensors)
  unfolding preallocate_sensor append_entry
  sensors_within_limit a fl e id ts vec dim payload limited within =
      let fits = get_fits a e id limited within in
      let m = get_or_create_ring a e id in
      let made = λ (p : Ring × Engine S). append_on fl p.1 id (append_row fl p.0 ts vec payload) in
      (
        guard_within a e id limited within (not e.closed) err_closed (m >>= λ p. done p.1)
            (found_within a e id limited within (λ p. p.1) (λ p. refl) m fits),
        guard_within a e id limited within (not e.closed) err_closed _ (
            guard_within a e id limited within (dim == e.cfg.dim) err_dim_mismatch
              (m >>= λ p. done (made p))
              (found_within a e id limited within made
                (λ p. append_on-sensors fl p.1 id (append_row fl p.0 ts vec payload)) m fits)),
      )
