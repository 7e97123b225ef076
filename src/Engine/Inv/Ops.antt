-- ===== src/Engine/Inv/Ops.antt =====
-- The operations of src/engine.cpp keep the invariant of the engine: rings that are found or made, and appends.
use chronos_vector.Base.{
  ℕ, suc, zero, ◌+◌, ◌≤◌, ◌<◌, ◌^◌, ◌≡◌, refl, subst, Bool, true, false, not, ◌&&◌, Option, none,
  some, List, arith, if◌then◌else◌, ◌==◌, inl, inr, Bool-cases, length, ltb, leb,
}
use chronos_vector.Base.Int.{ℤ, pos}
use chronos_vector.Types.{Config, Result, done, fail, ErrorCode, guard, ◌>>=◌, ◌>>◌, err_capacity}
use chronos_vector.Ring.{Ring, Allocator, make_ring, append}
use chronos_vector.Ring.Inv.{make_ring-IsValid, append-IsValid}
use chronos_vector.Kernels.{Floats}
use chronos_vector.Engine.{
  Bytes, Engine, SensorSlot, find, put, new_ring, attach_ring, get_or_create_ring,
}
use chronos_vector.Engine.Ingest.{append_row, append_rows}
use chronos_vector.Engine.Inv.{
  RingFits, SlotFits, MapFits, IsRunnable, IsSound, find-Fits, put-Fits, RingFits-more,
}

-- `Append` on a ring that fits, as long as the head does not wrap.
pub append-Fits :
    {cfg : Config} {n : ℕ} {r : Ring} (ts : ℤ) (vec : List ℕ) (norm : ℕ) (payload : Option (List ℕ))
    (scale : ℕ)
    → n + 1 < 2 ^ 64
    → RingFits cfg n r
    → RingFits cfg (n + 1) (append r ts vec norm payload scale)
unfolding append
append-Fits ts vec norm payload scale room f = record {
  valid = append-IsValid ts vec norm payload scale f.valid (omega (arith, f.head_max));
  capacity_same = f.capacity_same;
  dim_same = f.dim_same;
  dtype_same = f.dtype_same;
  payload_same = f.payload_same;
  head_max = omega (arith, f.head_max, room);
}

pub append_row-Fits :
    {cfg : Config} {n : ℕ} {r : Ring} (fl : Floats) (ts : ℤ) (vec : List ℕ) (payload : Option Bytes)
    → n + 1 < 2 ^ 64
    → RingFits cfg n r
    → RingFits cfg (n + 1) (append_row fl r ts vec payload)
unfolding append_row
append_row-Fits {r = r} fl ts vec payload room f = elim (Bool-cases (r.dtype == 1)) [
  | inl int8 ↦ rw int8 (append-Fits ts _ _ payload _ room f)
  | inr float ↦ rw float (append-Fits ts _ _ payload 0 room f)
]

pub append_rows-Fits :
    (fl : Floats) (cfg shape : Config) (m k n : ℕ) (r : Ring) (ts : List ℤ) (vecs : List ℕ)
    (dim : ℕ) (payloads : Option Bytes)
    → n + k ≤ m
    → m < 2 ^ 64
    → RingFits shape n r
    → RingFits shape m (append_rows fl cfg r k ts vecs dim payloads)
unfolding append_rows
append_rows-Fits fl cfg shape m zero n r ts vecs dim payloads h room f =
    RingFits-more (omega arith) f
append_rows-Fits fl cfg shape m (suc k) n r ts vecs dim payloads h room f =
    append_rows-Fits fl cfg shape m k (n + 1) _ _ _ dim _ (omega arith) room
      (append_row-Fits fl _ _ _ (omega arith) f)

pub new_ring-Fits :
    (enable_int8 : Bool) (cfg : Config) (n : ℕ) (a : Allocator)
    → IsRunnable enable_int8 cfg
    → cfg.ring_capacity < 2 ^ 64
    → RingFits cfg n
        (make_ring a cfg.ring_capacity cfg.dim cfg.payload_size_bytes cfg.storage_dtype)
unfolding make_ring
new_ring-Fits enable_int8 cfg n a (v, w) word =
    let (k, e) = v.capacity_power in
    record {
      valid =
          make_ring-IsValid a cfg.ring_capacity cfg.dim cfg.payload_size_bytes cfg.storage_dtype k e
            v.capacity_min word;
      capacity_same = refl;
      dim_same = refl;
      dtype_same = refl;
      payload_same = refl;
      head_max = omega arith;
    }

module _ {S : Type 0} (enable_int8 : Bool) (n : ℕ) (e : Engine S)
    (h : IsSound enable_int8 n e) where
  -- What is known of an engine that took the place of `e`.
  abbrev pub Follows : ℕ → Engine S → Type 0
  Follows m e' = (e'.cfg ≡ e.cfg) × MapFits e.cfg m e'.sensors

  abbrev pub Found : Result (Ring × Engine S) → Type 0
  Found (fail c) = Unit {0}
  Found (done p) = RingFits e.cfg n p.0 × Follows n p.1

  abbrev attached : Bytes → ℤ → Ring → Result (Ring × Engine S)
  attached id k ring =
      let slot : SensorSlot = record { ring = some ring; next_block_id = k } in
      done (ring, record e { sensors = put e.sensors id slot })

  attached-Found :
      (a : Allocator) (id : Bytes) (k : ℤ) (t : Bool) (c : ErrorCode) (ring : Ring)
      → RingFits e.cfg n ring
      → Found ((if t then done ring else fail c) >>= attached id k)
  attached-Found a id k true c ring f = (f, (refl, put-Fits e.cfg n e.sensors id _ h.rings f))
  attached-Found a id k false c ring f = tt

  attach_ring-Found : (a : Allocator) (id : Bytes) (k : ℤ) → Found (attach_ring a e id k)
  unfolding attach_ring new_ring
  attach_ring-Found a id k =
      attached-Found a id k _ _ _ (new_ring-Fits enable_int8 e.cfg n a h.runnable h.capacity_word)

  guard-Found :
      (t : Bool) (c : ErrorCode) (m : Result (Ring × Engine S)) → Found m → Found (guard t c >> m)
  guard-Found true c m f = f
  guard-Found false c m f = tt

  known-Found :
      (a : Allocator) (id : Bytes) (slot : SensorSlot) (o : Option Ring)
      → slot.ring ≡ o
      → SlotFits e.cfg n slot
      → Found (elim o [ none ↦ attach_ring a e id slot.next_block_id | some ring ↦ done (ring, e) ])
  known-Found a id slot none r f = attach_ring-Found a id slot.next_block_id
  known-Found a id slot (some ring) r f = (
    subst
        (λ (o : Option Ring). elim o as (λ _. Type 0) [
          | none ↦ Unit {0}
          | some x ↦ RingFits e.cfg n x
        ])
        r f,
    (refl, h.rings),
  )

  pub get_or_create_ring-Found : (a : Allocator) (id : Bytes) → Found (get_or_create_ring a e id)
  unfolding get_or_create_ring
  get_or_create_ring-Found a id = go (find e.sensors id) refl
    where
      go :
          (o : Option SensorSlot)
          → find e.sensors id ≡ o
          → Found (elim o [
            | none ↦
                guard
                  (not (ltb 0 e.cfg.max_sensors && leb e.cfg.max_sensors (length e.sensors)))
                  err_capacity
                >> attach_ring a e id (pos 0)
            | some slot ↦ elim slot.ring [
              | some ring ↦ done (ring, e)
              | none ↦ attach_ring a e id slot.next_block_id
            ]
          ])
      go none w = guard-Found _ _ _ (attach_ring-Found a id (pos 0))
      go (some slot) w =
          known-Found a id slot slot.ring refl (find-Fits e.cfg n e.sensors id slot h.rings w)
