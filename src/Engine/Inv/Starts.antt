-- ===== src/Engine/Inv/Starts.antt =====
-- `Create` and `Open` of src/engine.cpp establish the invariant of the engine.
use chronos_vector.Base.{
  ℕ, suc, zero, ◌+◌, ◌≤◌, ◌<◌, ◌*◌, ◌^◌, ◌≡◌, refl, subst, Bool, true, false, Option, none, some,
  List, [], ◌∷◌, get_or, take, drop, ltb, arith, if◌then◌else◌, ◌==◌, leb,
}
use chronos_vector.Base.Int.{ℤ, pos, ltb_ℤ}
use chronos_vector.Types.{
  dtype_size, dtype_float32, Config, Result, done, fail, ErrorCode, guard, ◌>>=◌, ◌>>◌,
}
use chronos_vector.Codec.{Decoded}
use chronos_vector.Metadata.{serialize_engine_metadata}
use chronos_vector.Ring.{Ring, Allocator, append}
use chronos_vector.Kernels.{Floats}
use chronos_vector.Validation.{validate_and_default}
use chronos_vector.Validation.Settings.{validate_and_default-IsValidConfig}
use chronos_vector.Engine.{Bytes, Backend, Engine, Sink}
use chronos_vector.Engine.Lifecycle.{
  create, new_engine, init_backend, reconcile, replay_block, rehydrate_blocks, entry_norm,
  is_corruption, metadata_written, no_outputs, outputs_for,
}
use chronos_vector.Engine.Open.{
  open_engine, recover_sensors, rehydrate_sensor_ring, reversed, next_id_after, persisted_config,
}
use chronos_vector.Engine.Evict.{sub_i64}
use chronos_vector.Engine.Inv.{RingFits, SlotFits, MapFits, IsRunnable, IsSound, RingFits-more}
use chronos_vector.Engine.Inv.Ops.{append-Fits, new_ring-Fits}

-- What holds of the value, where there is one.
abbrev pub IfDone : {A : Type 0} → (A → Type 0) → Result A → Type 0
IfDone P (done x) = P x
IfDone P (fail c) = Unit {0}

abbrev IfSome : {A : Type 0} → (A → Type 0) → Option A → Type 0
IfSome P (some x) = P x
IfSome P none = Unit {0}

bind-IfDone :
    {A B : Type 0} (P : B → Type 0) (r : Result A) (f : A → Result B)
    → ((x : A) → r ≡ done x → IfDone P (f x))
    → IfDone P (r >>= f)
bind-IfDone P (done x) f h = h x refl
bind-IfDone P (fail c) f h = tt

step-IfDone :
    {A B : Type 0} (Q : A → Type 0) (P : B → Type 0) (r : Result A) (f : A → Result B)
    → IfDone Q r
    → ((x : A) → Q x → IfDone P (f x))
    → IfDone P (r >>= f)
step-IfDone Q P (done x) f q h = h x q
step-IfDone Q P (fail c) f q h = tt

guard-IfDone :
    {B : Type 0} (P : B → Type 0) (t : Bool) (c : ErrorCode) (r : Result B)
    → IfDone P r
    → IfDone P (guard t c >> r)
guard-IfDone P true c r h = h
guard-IfDone P false c r h = tt

runnable_lem :
    (enable_int8 : Bool) (c d : Config)
    → validate_and_default enable_int8 c ≡ done d
    → IsRunnable enable_int8 d
runnable_lem enable_int8 c d h =
    let v = (validate_and_default-IsValidConfig enable_int8 c d h).0 in
    (
      record {
        abi_current = v.abi_current;
        dim_pos = v.dim_pos;
        dim_max = v.dim_max;
        payload_max = v.payload_max;
        dtype_known = v.dtype_known;
        metric_known = v.metric_known;
        int8_enabled = v.int8_enabled;
        capacity_min = v.capacity_min;
        capacity_power = v.capacity_power;
        window_pos = omega arith;
        interval_min = v.interval_min;
      },
      omega (arith, v.window_pos),
    )

-- An engine that starts with a validated configuration, whose capacity is a 64-bit word.
abbrev pub Starts : {S : Type 0} → Bool → Engine S → Type 0
Starts enable_int8 e = e.cfg.ring_capacity < 2 ^ 64 → IsSound enable_int8 e.cfg.ring_capacity e

pub create-Starts :
    {S : Type 0} (b : Backend S) (null_state : S) (open_path : Bytes → Option S)
    (enable_int8 : Bool) (cfg : Config) (sink : Option Sink) (r1 r2 : ℕ)
    → IfDone (Starts enable_int8) (create b null_state open_path enable_int8 cfg sink r1 r2)
unfolding create new_engine
create-Starts b null_state open_path enable_int8 cfg sink r1 r2 =
    bind-IfDone (Starts enable_int8) (validate_and_default enable_int8 cfg) _ λ d valid.
      bind-IfDone (Starts enable_int8) (init_backend null_state open_path d.cold_path) _ λ s p.
        bind-IfDone (Starts enable_int8)
          (reconcile (b.read_metadata s) d (new_engine d sink s r1 r2).uuid) _
          λ uuid q.
            let w = b.write_metadata s (serialize_engine_metadata d uuid) in
            let e = record (new_engine d sink s r1 r2) { uuid = uuid; backend = w.1 } in
            guard-IfDone (Starts enable_int8) (metadata_written w.0) w.0 (done e) λ word. record {
              runnable = runnable_lem enable_int8 cfg d valid;
              capacity_word = word;
              rings = tt;
            }

module _ {S : Type 0} (b : Backend S) (fl : Floats) (cfg : Config) (s : S) (cutoff_ms : ℤ)
    (word : cfg.ring_capacity < 2 ^ 64) where
  -- A ring to which `filled` entries were replayed, at most a capacity of them.
  abbrev Replayed : Ring × ℕ → Type 0
  Replayed p = RingFits cfg p.1 p.0 × (p.1 ≤ cfg.ring_capacity)

  -- The choices of a round of the replay loop.
  round-Fits :
      (filled : ℕ) (old full : Bool) (o : Option ℕ) (skip : Option (Ring × ℕ))
      (take_it : ℕ → Option (Ring × ℕ))
      → (full ≡ false → filled < cfg.ring_capacity)
      → IfSome Replayed skip
      → ((norm : ℕ) → filled < cfg.ring_capacity → IfSome Replayed (take_it norm))
      → IfSome Replayed (elim old [
        | true ↦ skip
        | false ↦ elim full [
          | true ↦ none
          | false ↦ elim o [ none ↦ none | some norm ↦ take_it norm ]
        ]
      ])
  round-Fits filled true full o skip take_it room f g = f
  round-Fits filled false true o skip take_it room f g = tt
  round-Fits filled false false none skip take_it room f g = tt
  round-Fits filled false false (some norm) skip take_it room f g = g norm (room refl)

  replay_block-Fits :
      (full : Decoded) (n i : ℕ) (ring : Ring) (filled : ℕ)
      → Replayed (ring, filled)
      → IfSome Replayed (replay_block fl cfg cutoff_ms full i n ring filled)
  unfolding replay_block
  replay_block-Fits full zero i ring filled f = f
  replay_block-Fits full (suc n) i ring filled f =
      let h = full.header in
      let stride = h.dim * dtype_size h.dtype in
      let ts = get_or full.timestamps i (pos 0) in
      let row = take stride (drop (i * stride) full.vectors) in
      let scale = if h.dtype == dtype_float32 then 0 else get_or full.scales i 0 in
      let payload : Option Bytes =
        if ltb 0 h.payload_size_bytes
        then some (drop (i * h.payload_size_bytes) full.payloads)
        else none in
      round-Fits filled (ltb_ℤ ts cutoff_ms) (leb cfg.ring_capacity filled)
        (entry_norm fl h row scale) (replay_block fl cfg cutoff_ms full (i + 1) n ring filled)
        (λ norm.
          replay_block fl cfg cutoff_ms full (i + 1) n (append ring ts row norm payload scale)
            (filled + 1))
        (λ k. ground arith) (replay_block-Fits full n (i + 1) ring filled f)
        (λ norm room.
          replay_block-Fits full n (i + 1) (append ring ts row norm payload scale) (filled + 1)
            (append-Fits ts row norm payload scale (omega arith) f.0, omega arith))

  -- The choices of a round of the loop over the blocks.
  block-Fits :
      (peek : Result Decoded) (old : Decoded → Bool) (read : Decoded → Result Decoded)
      (replay : Decoded → Option (Ring × ℕ)) (skip : Option Ring) (next : Ring × ℕ → Option Ring)
      → IfSome (RingFits cfg cfg.ring_capacity) skip
      → ((full : Decoded) → IfSome Replayed (replay full))
      → ((p : Ring × ℕ) → Replayed p → IfSome (RingFits cfg cfg.ring_capacity) (next p))
      → IfSome (RingFits cfg cfg.ring_capacity) (elim peek [
        | fail e ↦ elim (is_corruption e) [ true ↦ skip | false ↦ none ]
        | done h ↦ elim (old h) [
          | true ↦ none
          | false ↦ elim (read h) [
            | fail e ↦ elim (is_corruption e) [ true ↦ skip | false ↦ none ]
            | done full ↦ elim (replay full) [ none ↦ none | some p ↦ next p ]
          ]
        ]
      ])
  block-Fits (fail e) old read replay skip next f g k = skipped (is_corruption e)
    where
      skipped :
          (t : Bool)
          → IfSome (RingFits cfg cfg.ring_capacity) (elim t [ true ↦ skip | false ↦ none ])
      skipped true = f
      skipped false = tt
  block-Fits (done h) old read replay skip next f g k = aged (old h)
    where
      skipped :
          (t : Bool)
          → IfSome (RingFits cfg cfg.ring_capacity) (elim t [ true ↦ skip | false ↦ none ])
      skipped true = f
      skipped false = tt

      replayed :
          (o : Option (Ring × ℕ))
          → IfSome Replayed o
          → IfSome (RingFits cfg cfg.ring_capacity) (elim o [ none ↦ none | some p ↦ next p ])
      replayed none p = tt
      replayed (some p) q = k p q

      whole :
          (r : Result Decoded)
          → IfSome (RingFits cfg cfg.ring_capacity) (elim r [
            | fail e ↦ elim (is_corruption e) [ true ↦ skip | false ↦ none ]
            | done full ↦ elim (replay full) [ none ↦ none | some p ↦ next p ]
          ])
      whole (fail e) = skipped (is_corruption e)
      whole (done full) = replayed (replay full) (g full)

      aged :
          (t : Bool)
          → IfSome (RingFits cfg cfg.ring_capacity) (elim t [
            | true ↦ none
            | false ↦ elim (read h) [
              | fail e ↦ elim (is_corruption e) [ true ↦ skip | false ↦ none ]
              | done full ↦ elim (replay full) [ none ↦ none | some p ↦ next p ]
            ]
          ])
      aged true = tt
      aged false = whole (read h)

  rehydrate_blocks-Fits :
      (id : Bytes) (ks : List ℤ) (ring : Ring) (filled : ℕ)
      → Replayed (ring, filled)
      → IfSome
          (RingFits cfg cfg.ring_capacity)
          (rehydrate_blocks b fl cfg s id cutoff_ms ks ring filled)
  unfolding rehydrate_blocks
  rehydrate_blocks-Fits id [] ring filled (f, le) = RingFits-more le f
  rehydrate_blocks-Fits id (k ∷ ks) ring filled f =
      block-Fits (b.read_block s id k no_outputs) (λ h. ltb_ℤ h.header.t_end_ms cutoff_ms)
        (λ h. b.read_block s id k (outputs_for h.header))
        (λ full. replay_block fl cfg cutoff_ms full 0 full.header.count ring filled)
        (rehydrate_blocks b fl cfg s id cutoff_ms ks ring filled)
        (λ p. rehydrate_blocks b fl cfg s id cutoff_ms ks p.0 p.1)
        (rehydrate_blocks-Fits id ks ring filled f)
        (λ full. replay_block-Fits full full.header.count 0 ring filled f)
        (λ p g. rehydrate_blocks-Fits id ks p.0 p.1 g)

chosen-IfSome :
    {A : Type 0} (P : A → Type 0) (t : Bool) (o : Option A)
    → IfSome P o
    → IfSome P (if t then none else o)
chosen-IfSome P true o h = tt
chosen-IfSome P false o h = h

IfSome-SlotFits :
    (cfg : Config) (n : ℕ) (o : Option Ring) (k : ℤ)
    → IfSome (RingFits cfg n) o
    → SlotFits cfg n (record { ring = o; next_block_id = k })
IfSome-SlotFits cfg n none k h = tt
IfSome-SlotFits cfg n (some r) k h = h

rehydrate_sensor_ring-Fits :
    {S : Type 0} (b : Backend S) (a : Allocator) (fl : Floats) (enable_int8 : Bool) (cfg : Config)
    (s : S) (id : Bytes) (block_ids : List ℤ) (cutoff_ms : ℤ)
    → IsRunnable enable_int8 cfg
    → cfg.ring_capacity < 2 ^ 64
    → IfSome
        (RingFits cfg cfg.ring_capacity)
        (rehydrate_sensor_ring b a fl cfg s id block_ids cutoff_ms)
unfolding rehydrate_sensor_ring
rehydrate_sensor_ring-Fits b a fl enable_int8 cfg s id block_ids cutoff_ms v word =
    chosen-IfSome (RingFits cfg cfg.ring_capacity) _ _ (
      rehydrate_blocks-Fits b fl cfg s cutoff_ms word id (reversed block_ids) _ 0
        (new_ring-Fits enable_int8 cfg 0 a v word, omega arith))

recover_sensors-Fits :
    {S : Type 0} (b : Backend S) (a : Bytes → Allocator) (fl : Floats) (enable_int8 : Bool)
    (cfg : Config) (s : S) (cutoff_ms : ℤ) (ids : List Bytes)
    → IsRunnable enable_int8 cfg
    → cfg.ring_capacity < 2 ^ 64
    → IfDone (MapFits cfg cfg.ring_capacity) (recover_sensors b a fl cfg s cutoff_ms ids)
unfolding recover_sensors
recover_sensors-Fits b a fl enable_int8 cfg s cutoff_ms [] v word = tt
recover_sensors-Fits b a fl enable_int8 cfg s cutoff_ms (id ∷ ids) v word =
    let Fits = MapFits cfg cfg.ring_capacity in
    bind-IfDone Fits (b.list_blocks s id) _ λ block_ids p.
      step-IfDone Fits Fits (recover_sensors b a fl cfg s cutoff_ms ids) _
        (recover_sensors-Fits b a fl enable_int8 cfg s cutoff_ms ids v word)
        λ rest fits. (
          IfSome-SlotFits cfg cfg.ring_capacity _ (next_id_after block_ids) (
              chosen-IfSome (RingFits cfg cfg.ring_capacity) (cfg.recover_hot_window == 0) _ (
                rehydrate_sensor_ring-Fits b (a id) fl enable_int8 cfg s id block_ids cutoff_ms v
                  word)),
          fits,
        )

pub open_engine-Starts :
    {S : Type 0} (b : Backend S) (null_state : S) (open_path : Bytes → Option S)
    (enable_int8 : Bool) (a : Bytes → Allocator) (fl : Floats) (now_ms : ℤ) (r1 r2 : ℕ)
    (path : Option Bytes)
    → IfDone
        (Starts enable_int8)
        (open_engine b null_state open_path enable_int8 a fl now_ms r1 r2 path)
unfolding open_engine
open_engine-Starts b null_state open_path enable_int8 a fl now_ms r1 r2 none = tt
open_engine-Starts b null_state open_path enable_int8 a fl now_ms r1 r2 (some []) = tt
open_engine-Starts {S = S} b null_state open_path enable_int8 a fl now_ms r1 r2 (some (c ∷ cs)) =
    let P : Engine S → Type 0 = Starts enable_int8 in
    bind-IfDone P (init_backend null_state open_path (some (c ∷ cs))) _ λ s p0.
      bind-IfDone P (persisted_config (b.read_metadata s) (c ∷ cs) _ _) _ λ p p1.
        bind-IfDone P (validate_and_default enable_int8 p.0) _ λ valid p2.
          bind-IfDone P (b.list_sensors s) _ λ ids p3.
            bind-IfDone P
              (recover_sensors b a fl valid s (sub_i64 now_ms valid.window_duration_ms) ids) _
              λ sensors p4. λ word. record {
                runnable = runnable_lem enable_int8 p.0 valid p2;
                capacity_word = word;
                rings = subst (IfDone (MapFits valid valid.ring_capacity)) p4 (
                    recover_sensors-Fits b a fl enable_int8 valid s _ ids
                      (runnable_lem enable_int8 p.0 valid p2) word);
              }
