-- ===== src/Api/Calls.antt =====
-- The engines that a client of the C functions of src/engine.cpp can have, call by call.
pub mod Sound
pub mod Closed
pub mod Names
use chronos_vector.Base.{ℕ, ◌+◌, ◌≡◌, Bool, true, Option, none, some, List}
use chronos_vector.Base.Int.{ℤ}
use chronos_vector.Types.{Config, ok}
use chronos_vector.Ring.{Allocator}
use chronos_vector.Kernels.{Floats}
use chronos_vector.Engine.{Bytes, Backend, Engine, Sink}
use chronos_vector.Engine.Nearest.{HeapOps}
use chronos_vector.Api.{
  Call, chronosv_create, chronosv_open, chronosv_close, chronosv_preallocate_sensor,
  chronosv_append, chronosv_append_batch, chronosv_query_nearest_n, chronosv_query_range,
  chronosv_detect_anomaly, chronosv_maintain_sliding_window, chronosv_drop_sensor, chronosv_flush,
}

-- What the library is linked with.
pub record Linked (S : Type 0) : Type 0 where
  pub backend : Backend S
  pub null_state : S
  pub open_path : Bytes → Option S
  pub enable_int8 : Bool
  pub floats : Floats
  pub heap_ops : HeapOps

-- One call on a handle: the most vectors that it appends, and the engine after it. Each call may return any code.
pub data Step {S : Type 0} (w : Linked S) (e : Engine S) : ℕ → Engine S → Type 0 where
  closes : {e' : Engine S} → (chronosv_close (some e)).handle ≡ some e' → Step w e 0 e'
  preallocates :
      {e' : Engine S} (a : Allocator) (id : Option Bytes)
      → (chronosv_preallocate_sensor a (some e) id).handle ≡ some e'
      → Step w e 0 e'
  appends :
      {e' : Engine S} (a : Allocator) (id : Option Bytes) (ts : ℤ) (vec : Option (List ℕ)) (dim : ℕ)
      (payload : Option Bytes)
      → (chronosv_append a w.floats (some e) id ts vec dim payload).handle ≡ some e'
      → Step w e 1 e'
  appends_batch :
      {e' : Engine S} (a : Allocator) (id : Option Bytes) (ts : Option (List ℤ))
      (vecs : Option (List ℕ)) (count dim : ℕ) (payloads : Option Bytes)
      → (chronosv_append_batch a w.floats (some e) id ts vecs count dim payloads).handle ≡ some e'
      → Step w e count e'
  queries_nearest :
      {e' : Engine S} (id : Option Bytes) (target : Option (List ℕ)) (dim : ℕ) (n : ℤ)
      (outputs : Bool) (c : Call S (List (ℤ × ℕ)))
      → chronosv_query_nearest_n w.floats w.heap_ops (some e) id target dim n outputs ≡ some c
      → c.handle ≡ some e'
      → Step w e 0 e'
  queries_range :
      {e' : Engine S} (id : Option Bytes) (t_start t_end max : ℤ) (outputs : Bool)
      → (chronosv_query_range (some e) id t_start t_end max outputs).handle ≡ some e'
      → Step w e 0 e'
  detects :
      {e' : Engine S} (id : Option Bytes) (v : Option (List ℕ)) (dim threshold : ℕ) (output : Bool)
      → (chronosv_detect_anomaly w.floats (some e) id v dim threshold output).handle ≡ some e'
      → Step w e 0 e'
  maintains :
      {e' : Engine S} (memory : Bytes → Option ℕ) (window_ms : ℤ)
      → (chronosv_maintain_sliding_window w.backend memory (some e) window_ms).handle ≡ some e'
      → Step w e 0 e'
  drops :
      {e' : Engine S} (id : Option Bytes)
      → (chronosv_drop_sensor w.backend (some e) id).handle ≡ some e'
      → Step w e 0 e'
  flushes :
      {e' : Engine S} (memory : Bytes → Option ℕ)
      → (chronosv_flush w.backend memory (some e)).handle ≡ some e'
      → Step w e 0 e'

-- Calls on a handle, one after the other.
pub data Runs {S : Type 0} (w : Linked S) (e : Engine S) : Engine S → Type 0 where
  ends : Runs w e e
  runs : {k : ℕ} {e' e'' : Engine S} → Runs w e e' → Step w e' k e'' → Runs w e e''

-- The engines that are reachable from `chronosv_create` or `chronosv_open`. The number bounds the entries that any ring
-- was given: the capacity, for those that `chronosv_open` replays, and one for each vector since.
pub data Reach {S : Type 0} (w : Linked S) : ℕ → Engine S → Type 0 where
  created :
      {e : Engine S} (cfg : Config) (sink : Option Sink) (r1 r2 : ℕ)
      → chronosv_create w.backend w.null_state w.open_path w.enable_int8 (some cfg) sink r1 r2
        ≡ (ok, some e)
      → Reach w e.cfg.ring_capacity e
  opened :
      {e : Engine S} (a : Bytes → Allocator) (now_ms : ℤ) (r1 r2 : ℕ) (path : Option Bytes)
      → chronosv_open w.backend w.null_state w.open_path w.enable_int8 a w.floats now_ms r1 r2 path
          true
        ≡ (ok, some (some e))
      → Reach w e.cfg.ring_capacity e
  called : {n k m : ℕ} {e e' : Engine S} → Reach w n e → Step w e k e' → m ≡ n + k → Reach w m e'
