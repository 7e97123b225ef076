-- ===== src/Ring.antt =====
-- `SensorRing` of include/chronosv/ring_buffer.h. The atomics are plain fields here: each function is one call
-- that nothing interleaves with. An array is a function of its offsets; head and tail are 64-bit
-- words that wrap.
pub mod Inv
pub mod Window
pub mod Refine
pub mod Account
pub mod Steps
use Prim.Native.Nat.{bit_and}
use chronos_vector.Base.{
  ℕ, zero, suc, ◌+◌, ◌-◌, ◌*◌, ◌%◌, ◌^◌, Bool, true, false, not, ◌&&◌, ◌||◌, Option, none, some,
  List, [], ◌∷◌, take, ltb, leb, ◌==◌, if◌then◌else◌,
}
use chronos_vector.Base.Int.{ℤ, signed64}
use chronos_vector.Base.Memory.{update, write_bytes, read_bytes}
use chronos_vector.Types.{dtype_size, dtype_int8}

abbrev pub cacheline : ℕ
cacheline = 64

-- `uint64_t` addition, subtraction and multiplication
abbrev pub add_u64 : ℕ → ℕ → ℕ
add_u64 a b = (a + b) % 2 ^ 64

abbrev pub sub_u64 : ℕ → ℕ → ℕ
sub_u64 a b = (a + 2 ^ 64 - b) % 2 ^ 64

abbrev pub mul_u64 : ℕ → ℕ → ℕ
mul_u64 a b = (a * b) % 2 ^ 64

-- `(n + align - 1) & ~(align - 1)` on 64-bit words.
unfoldable pub round_up : ℕ → ℕ → ℕ
round_up n align = bit_and (sub_u64 (add_u64 n align) 1) (2 ^ 64 - 1 - (align - 1))

-- The allocator behind the library: whether it grants its k-th request for so many bytes, and what
-- the memory holds then.
pub record Allocator : Type 0 where
  pub grants : ℕ → ℕ → Bool
  pub leftover : ℕ → ℕ → ℕ

-- Whether `aligned_alloc_bytes` returns non-null.
abbrev pub aligned_alloc_bytes : Allocator → ℕ → ℕ → Bool
aligned_alloc_bytes a k bytes = if bytes == 0 then false else a.grants k (round_up bytes cacheline)

pub record Ring : Type 0 where
  pub capacity : ℕ
  pub mask : ℕ
  pub dim : ℕ
  pub payload_size : ℕ
  pub dtype : ℕ
  pub is_ok : Bool
  pub head : ℕ
  pub tail : ℕ
  pub overwrite_events : ℕ
  pub overwritten_entries : ℕ
  pub timestamps : ℕ → ℤ
  pub vectors : ℕ → ℕ
  pub norms : ℕ → ℕ
  pub scales : ℕ → ℕ
  pub payloads : ℕ → ℕ

-- The constructor.
unfoldable pub make_ring : Allocator → ℕ → ℕ → ℕ → ℕ → Ring
make_ring a capacity dim payload_size dtype = record {
  capacity = capacity;
  mask = sub_u64 capacity 1;
  dim = dim;
  payload_size = payload_size;
  dtype = dtype;
  is_ok =
      aligned_alloc_bytes a 0 (mul_u64 capacity 8)
      && aligned_alloc_bytes a 1 (mul_u64 (mul_u64 capacity dim) (dtype_size dtype))
      && aligned_alloc_bytes a 2 (mul_u64 capacity 4)
      && (not (dtype == dtype_int8) || aligned_alloc_bytes a 3 (mul_u64 capacity 4))
      && (payload_size == 0 || aligned_alloc_bytes a 4 (mul_u64 capacity payload_size));
  head = 0;
  tail = 0;
  overwrite_events = 0;
  overwritten_entries = 0;
  timestamps = λ i. signed64 (a.leftover 0 i % 2 ^ 64);
  vectors = a.leftover 1;
  norms = a.leftover 2;
  scales = a.leftover 3;
  payloads = a.leftover 4;
}

-- Bytes of one vector.
abbrev pub vsz : Ring → ℕ
vsz r = r.dim * dtype_size r.dtype

abbrev pub slot : Ring → ℕ → ℕ
slot r idx = bit_and idx r.mask

-- `Append`: the overwrite test, the writes into the slot, and the new head. `vec` begins the bytes
-- at `vec`, and `payload` those at `payload` if it is non-null.
unfoldable pub append : Ring → ℤ → List ℕ → ℕ → Option (List ℕ) → ℕ → Ring
append r ts vec norm payload scale =
    let lapped = leb r.capacity (sub_u64 r.head r.tail) in
    let idx = slot r r.head in
    record r {
      head = add_u64 r.head 1;
      overwrite_events = if lapped then add_u64 r.overwrite_events 1 else r.overwrite_events;
      overwritten_entries =
          if lapped then add_u64 r.overwritten_entries 1 else r.overwritten_entries;
      timestamps = update r.timestamps idx ts;
      vectors = write_bytes r.vectors (idx * vsz r) (take (vsz r) vec);
      norms = update r.norms idx norm;
      scales = if r.dtype == dtype_int8 then update r.scales idx scale else r.scales;
      payloads = elim payload [
        | none ↦ r.payloads
        | some p ↦
            if ltb 0 r.payload_size
            then write_bytes r.payloads (idx * r.payload_size) (take r.payload_size p)
            else r.payloads
      ];
    }

-- `Snapshot`: the half-open interval of virtual indices that a reader goes through.
unfoldable pub snapshot : Ring → ℕ × ℕ
snapshot r =
    (if ltb r.capacity (sub_u64 r.head r.tail) then sub_u64 r.head r.capacity else r.tail, r.head)

unfoldable pub advance_tail : Ring → ℕ → Ring
advance_tail r new_tail = record r { tail = new_tail }

-- The slot readers. `vector_at` and `payload_at` return a pointer; these read `n` bytes from it.
abbrev pub timestamp_at : Ring → ℕ → ℤ
timestamp_at r idx = r.timestamps (slot r idx)

abbrev pub vector_at : Ring → ℕ → ℕ → List ℕ
vector_at r idx n = read_bytes r.vectors (slot r idx * vsz r) n

abbrev pub norm_at : Ring → ℕ → ℕ
norm_at r idx = r.norms (slot r idx)

abbrev pub scale_at : Ring → ℕ → ℕ
scale_at r idx = if r.dtype == dtype_int8 then r.scales (slot r idx) else 0

abbrev pub payload_at : Ring → ℕ → List ℕ
payload_at r idx = read_bytes r.payloads (slot r idx * r.payload_size) r.payload_size

-- What one slot holds.
pub record Entry : Type 0 where
  pub ts : ℤ
  pub vec : List ℕ
  pub norm : ℕ
  pub scale : ℕ
  pub payload : List ℕ

unfoldable pub entry_at : Ring → ℕ → Entry
entry_at r idx = record {
  ts = timestamp_at r idx;
  vec = vector_at r idx (vsz r);
  norm = norm_at r idx;
  scale = scale_at r idx;
  payload = payload_at r idx;
}

unfoldable pub hot_bytes : Ring → ℕ
hot_bytes r =
    let base = mul_u64 r.capacity (8 + vsz r + 4) in
    let scaled = if r.dtype == dtype_int8 then add_u64 base (mul_u64 r.capacity 4) else base in
    if ltb 0 r.payload_size then add_u64 scaled (mul_u64 r.capacity r.payload_size) else scaled
