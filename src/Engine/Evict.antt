-- ===== src/Engine/Evict.antt =====
-- `EvictSensor`, `EvictOnce`, `Flush` and `MaintainSlidingWindow` of src/engine.cpp.
pub mod Cut
pub mod Persist
pub mod Flush
use chronos_vector.Base.{
  ℕ, zero, suc, ◌+◌, ◌-◌, ◌*◌, ◌%◌, ◌^◌, Bool, true, false, not, ◌&&◌, ◌||◌, Option, none, some,
  List, [], ◌∷◌, ◌++◌, length, drop, get_or, replicate, ltb, ◌==◌, if◌then◌else◌,
}
use chronos_vector.Base.Int.{ℤ, pos, negsuc, word64, signed64, ltb_ℤ}
use chronos_vector.Types.{
  Config, Result, done, fail, ErrorCode, ok, err_closed, err_invalid_arg, dtype_size, dtype_int8,
  ◌>>=◌, ◌>>◌, guard,
}
use chronos_vector.Codec.{Block}
use chronos_vector.Validation.{is_zero}
use chronos_vector.Ring.{
  Ring, snapshot, advance_tail, timestamp_at, vector_at, payload_at, slot, vsz, add_u64, sub_u64,
}
use chronos_vector.Engine.{
  Bytes, Backend, Engine, EvictScratch, SensorSlot, SensorMap, Event, on_flush_error, on_eviction,
  hears, commit,
}
use chronos_vector.Engine.Ingest.{note}

-- `int64_t` subtraction. Where it overflows, which C++ leaves undefined, it wraps here.
abbrev pub sub_i64 : ℤ → ℤ → ℤ
sub_i64 x y = signed64 (sub_u64 (word64 x) (word64 y))

abbrev pub int64_min : ℤ
int64_min = negsuc (2 ^ 63 - 1)

-- The loop for the largest timestamp among `n` indices from `idx` on.
unfoldable pub max_ts : Ring → ℕ → ℕ → ℤ → ℤ
max_ts r zero idx m = m
max_ts r (suc n) idx m =
    let t = timestamp_at r idx in max_ts r n (idx + 1) (if ltb_ℤ m t then t else m)

-- The loop that moves the tail past the leading entries older than the cutoff; `n` indices are left.
unfoldable pub leading_end : Ring → ℤ → ℕ → ℕ → ℕ
leading_end r cutoff zero idx = idx
leading_end r cutoff (suc n) idx =
    let rest = leading_end r cutoff n (idx + 1) in
    if ltb_ℤ (timestamp_at r idx) cutoff then rest else idx

unfoldable pub cutoff_of : Ring → ℤ → ℤ
cutoff_of r window_ms = let s = snapshot r in sub_i64 (max_ts r (s.1 - s.0) s.0 int64_min) window_ms

-- `new_tail`
unfoldable pub new_tail : Ring → ℤ → ℕ
new_tail r window_ms =
    let s = snapshot r in
    if is_zero window_ms then s.1 else leading_end r (cutoff_of r window_ms) (s.1 - s.0) s.0

-- The columns of `count` entries from `begin` on, as the copy loop writes them.
unfoldable pub timestamp_column : Ring → ℕ → ℕ → List ℤ
timestamp_column r begin zero = []
timestamp_column r begin (suc n) = timestamp_at r begin ∷ timestamp_column r (begin + 1) n

unfoldable pub vector_column : Ring → ℕ → ℕ → List ℕ
vector_column r begin zero = []
vector_column r begin (suc n) = vector_at r begin (vsz r) ++ vector_column r (begin + 1) n

unfoldable pub scale_column : Ring → ℕ → ℕ → List ℕ
scale_column r begin zero = []
scale_column r begin (suc n) = r.scales (slot r begin) ∷ scale_column r (begin + 1) n

unfoldable pub payload_column : Ring → ℕ → ℕ → List ℕ
payload_column r begin zero = []
payload_column r begin (suc n) = payload_at r begin ++ payload_column r (begin + 1) n

-- A column written over the front of a buffer that only grows.
abbrev pub over {ℓ} : {A : Type ℓ} → List A → List A → List A
over column buf = column ++ drop (length column) buf

-- The scratch after the copy loop.
unfoldable pub copy_out : EvictScratch → Ring → ℕ → ℕ → EvictScratch
copy_out s r begin count = record {
  timestamps = over (timestamp_column r begin count) s.timestamps;
  vectors = over (vector_column r begin count) s.vectors;
  scales = if r.dtype == dtype_int8 then over (scale_column r begin count) s.scales else s.scales;
  payloads =
      if ltb 0 r.payload_size then over (payload_column r begin count) s.payloads else s.payloads;
}

-- `back()`
unfoldable pub last_or {ℓ} : {A : Type ℓ} → List A → A → A
last_or [] d = d
last_or (x ∷ xs) d = last_or xs x

-- The block that is persisted: a view of the scratch.
unfoldable pub evicted_block : Bytes → ℤ → Ring → ℕ → EvictScratch → Block
evicted_block id block_id r count s = record {
  sensor_id = id;
  block_id = block_id;
  t_start_ms = get_or s.timestamps 0 (pos 0);
  t_end_ms = last_or s.timestamps (pos 0);
  count = count % 2 ^ 32;
  dim = r.dim;
  payload_size_bytes = r.payload_size;
  dtype = r.dtype;
  timestamps = some s.timestamps;
  vectors = some s.vectors;
  scales = if r.dtype == dtype_int8 then some s.scales else none;
  payloads = if ltb 0 r.payload_size then some s.payloads else none;
}

-- The bytes that the sink is told for a block that was written.
abbrev pub reported_bytes : Ring → ℕ → ℕ
reported_bytes r count =
    40 + count * (8 + vsz r + (if ltb 0 r.payload_size then r.payload_size else 0)) + 4

-- `rc == CHRONOSV_OK`
abbrev pub is_ok_code : ErrorCode → Bool
is_ok_code ok = true
is_ok_code _ = false

-- `EvictSensor` from the copy on, for `count` entries.
unfoldable pub evict_entries :
    {S : Type 0} → Backend S → Engine S → Bytes → SensorSlot → Ring → ℕ → Engine S × SensorSlot
evict_entries b e id slot r count =
    let begin = (snapshot r).0 in
    let scratch = copy_out e.evict_scratch r begin count in
    let w = b.write_block e.backend (evicted_block id slot.next_block_id r count scratch) in
    let saved = record e {
      evict_scratch = scratch;
      total_evictions = add_u64 e.total_evictions 1;
      backend = w.1;
    } in
    let moved : SensorSlot = record slot { ring = some (advance_tail r (begin + count)) } in
    let heard = hears e.sink (λ s. s.hears_eviction) in
    let failed = record saved { flush_errors_total = add_u64 e.flush_errors_total 1 } in
    let told = note failed (hears e.sink (λ s. s.hears_flush_error)) (on_flush_error id w.0) in
    if is_ok_code w.0
    then (
      note saved heard (on_eviction id count (reported_bytes r count)),
      record moved { next_block_id = signed64 (add_u64 (word64 slot.next_block_id) 1) },
    )
    else (note told heard (on_eviction id count 0), moved)

-- `resize` of a buffer that is shorter than `n`.
abbrev grow {ℓ} : {A : Type ℓ} → A → ℕ → List A → List A
grow d n buf = buf ++ replicate (n - length buf) d

-- The scratch before the failing growth, if there are so many: each step is whether it grows a buffer, and the
-- scratch before it.
unfoldable pub before_failure : ℕ → List (Bool × EvictScratch) → Option EvictScratch
before_failure k [] = none
before_failure k ((false, s) ∷ steps) = before_failure k steps
before_failure zero ((true, s) ∷ steps) = some s
before_failure (suc k) ((true, s) ∷ steps) = before_failure k steps

-- What the `resize` calls leave where one of them throws: `memory` is the number of growths that succeed before, or
-- `none` where all do. `none` where nothing throws.
unfoldable pub failed_growth : Option ℕ → EvictScratch → Ring → ℕ → Option EvictScratch
failed_growth none s r count = none
failed_growth (some k) s r count =
    let int8 = r.dtype == dtype_int8 in
    let with_timestamps = record s { timestamps = grow (pos 0) count s.timestamps } in
    let with_vectors = record with_timestamps { vectors = grow 0 (count * vsz r) s.vectors } in
    let with_scales = record with_vectors {
      scales = if int8 then grow 0 count s.scales else s.scales;
    } in
    before_failure k (
      (ltb (length s.timestamps) count, s)
      ∷ (ltb (length s.vectors) (count * vsz r), with_timestamps)
      ∷ (int8 && ltb (length s.scales) count, with_vectors)
      ∷ (ltb 0 r.payload_size && ltb (length s.payloads) (count * r.payload_size), with_scales)
      ∷ [])

-- `EvictSensor`; `memory` is which growth of the scratch fails, if one does.
unfoldable pub evict_sensor :
    {S : Type 0} → Backend S → Option ℕ → Engine S → Bytes → SensorSlot → ℤ → Engine S × SensorSlot
evict_sensor b memory e id slot window_ms = elim slot.ring [
  | none ↦ (e, slot)
  | some r ↦
      let count = new_tail r window_ms - (snapshot r).0 in
      if count == 0 then (e, slot) else elim (failed_growth memory e.evict_scratch r count) [
        | none ↦ evict_entries b e id slot r count
        | some scratch ↦ (record e { evict_scratch = scratch }, slot)
      ]
]

-- The loop of `EvictOnce` over the sensors.
unfoldable pub evict_all :
    {S : Type 0} → Backend S → (Bytes → Option ℕ) → Engine S → SensorMap → ℤ → Engine S × SensorMap
evict_all b memory e [] window_ms = (e, [])
evict_all b memory e ((id, slot) ∷ m) window_ms =
    let here = evict_sensor b (memory id) e id slot window_ms in
    let rest = evict_all b memory here.0 m window_ms in (rest.0, (id, here.1) ∷ rest.1)

-- `EvictOnce`; without an override the window is that of the configuration.
unfoldable pub evict_once :
    {S : Type 0} → Backend S → (Bytes → Option ℕ) → Engine S → Option ℤ → Engine S
evict_once b memory e override =
    let window_ms : ℤ = elim override [
      | none ↦ e.cfg.window_duration_ms
      | some w ↦ if ltb_ℤ w (pos 0) then e.cfg.window_duration_ms else w
    ] in
    let pass = evict_all b memory e e.sensors window_ms in record pass.0 { sensors = pass.1 }

-- `Flush`
unfoldable pub flush_engine :
    {S : Type 0} → Backend S → (Bytes → Option ℕ) → Engine S → ErrorCode × Engine S
flush_engine b memory e =
    if e.closed
    then (err_closed, e)
    else let evicted = evict_once b memory e (some (pos 0)) in
      let flushed = b.flush evicted.backend in (flushed.0, record evicted { backend = flushed.1 })

-- `MaintainSlidingWindow`
unfoldable pub maintain_sliding_window :
    {S : Type 0} → Backend S → (Bytes → Option ℕ) → Engine S → ℤ → ErrorCode × Engine S
maintain_sliding_window b memory e window_ms = commit e do
  guard (not e.closed) err_closed
  guard (not (ltb_ℤ window_ms (pos 0))) err_invalid_arg
  let set = record e { cfg = record e.cfg { window_duration_ms = window_ms } }
  done (evict_once b memory set none)
