-- ===== src/Tests/ApiTests.antt =====
-- The C functions at concrete inputs (compare tests/test_engine.cpp).
use chronos_vector.Base.{
  ℕ, ◌≤◌, ◌≡◌, Bool, ltb, refl, true, false, none, some, Option, [], ◌∷◌, arith,
}
use chronos_vector.Base.Int.{pos}
use chronos_vector.Types.{Config}
use chronos_vector.Ring.{Allocator}
use chronos_vector.Kernels.{Floats}
use chronos_vector.Engine.{Engine, close}
use chronos_vector.Engine.Ingest.{append_entry}
use chronos_vector.Engine.Evict.{flush_engine}
use chronos_vector.Engine.Lifecycle.{new_engine, create, init_backend, reconcile}
use chronos_vector.Engine.Nearest.Insertion.{ordered_heap}
use chronos_vector.Engine.Inv.{IsSound}
use chronos_vector.Engine.Loop.{eviction_loop}
use chronos_vector.Engine.Loop.Stops.{eviction_loop-returns}
use chronos_vector.Storage.{null_backend}
use chronos_vector.Validation.{validate_sensor_id, scan_id, validate_and_default}
use chronos_vector.Api.{chronosv_create, chronosv_append, chronosv_flush}
use chronos_vector.Api.Calls.{Linked, Reach, created, called, appends, flushes, Runs, ends, runs}
use chronos_vector.Api.Calls.Sound.{Reach-Sound}
use chronos_vector.Api.Calls.Closed.{closed_for_good}
use chronos_vector.Api.Calls.Names.{IsNamed, Runs-Named}

abbrev granting : Allocator
granting = record { grants = λ k n. true; leftover = λ k i. 0 }

abbrev zero_floats : Floats
zero_floats = record {
  lt = λ x y. false;
  le = λ x y. false;
  eq = λ x y. false;
  neg = λ x. x;
  add = λ x y. x;
  sub = λ x y. x;
  mul = λ x y. x;
  div = λ x y. x;
  of_int = λ z. 0;
  lround = λ x. pos 0;
  sqrt = λ x. x;
  l2_norm = λ v. 0;
  dot = λ v w. 0;
  row_sums = λ n m. m;
}

abbrev api_config : Config
api_config = record {
  abi = 1;
  cold_path = none;
  dim = 1;
  uuid = [];
  ring_capacity = 64;
  window_duration_ms = pos 1000;
  eviction_interval_ms = pos 100;
  payload_size_bytes = 0;
  storage_dtype = 0;
  distance_metric = 0;
  max_sensors = 0;
  recover_hot_window = 0;
}

abbrev linked : Linked (Unit {0})
linked = record {
  backend = null_backend;
  null_state = tt;
  open_path = λ path. none;
  enable_int8 = false;
  floats = zero_floats;
  heap_ops = ordered_heap;
}

abbrev spare : Engine (Unit {0})
spare = new_engine api_config none tt 1 2

-- The engine behind a handle, or a spare one.
abbrev behind : Option (Engine (Unit {0})) → Engine (Unit {0})
behind none = spare
behind (some e) = e

abbrev fresh : Engine (Unit {0})
fresh = behind (chronosv_create null_backend tt (λ path. none) false (some api_config) none 1 2).1

abbrev fed : Engine (Unit {0})
fed =
    behind
      (chronosv_append granting zero_floats (some fresh) (some (115 ∷ [])) (pos 100) (some (7 ∷ []))
        1 none).handle

abbrev flushed : Engine (Unit {0})
flushed = behind (chronosv_flush null_backend (λ id. none) (some fed)).handle

fresh-Reach : Reach linked 64 fresh
unfolding chronosv_create create validate_and_default init_backend reconcile new_engine
fresh-Reach = created api_config none 1 2 refl

fed-Reach : Reach linked 65 fed
unfolding chronosv_append validate_sensor_id scan_id
fed-Reach =
    called fresh-Reach (appends granting (some (115 ∷ [])) (pos 100) (some (7 ∷ [])) 1 none refl)
      refl

flushed-Reach : Reach linked 65 flushed
unfolding chronosv_flush
flushed-Reach = called fed-Reach (flushes (λ id. none) refl) refl

Reach-Sound_example : IsSound false 65 flushed
Reach-Sound_example = Reach-Sound linked (omega arith) flushed-Reach

-- The engine after a close, and a client that goes on appending and flushing.
abbrev shut : Engine (Unit {0})
shut = (close fed).1

shut-Runs : Runs linked shut shut
unfolding close chronosv_flush flush_engine chronosv_append validate_sensor_id scan_id append_entry
shut-Runs =
    runs (runs ends (appends granting (some (115 ∷ [])) (pos 200) (some (7 ∷ [])) 1 none refl))
      (flushes (λ id. none) refl)

closed_for_good_example :
    (shut ≡ record fed { closed = true })
    × (shut.backend ≡ fed.backend)
    × (shut.sensors ≡ fed.sensors)
closed_for_good_example = closed_for_good linked fed shut shut-Runs

fresh-IsNamed : IsNamed fresh
unfolding chronosv_create create validate_and_default init_backend reconcile new_engine
fresh-IsNamed = tt

flushed-Runs : Runs linked fresh flushed
unfolding chronosv_append validate_sensor_id scan_id chronosv_flush
flushed-Runs =
    runs (runs ends (appends granting (some (115 ∷ [])) (pos 100) (some (7 ∷ [])) 1 none refl))
      (flushes (λ id. none) refl)

Runs-Named_example : IsNamed flushed
Runs-Named_example = Runs-Named linked fresh flushed fresh-IsNamed flushed-Runs

closing : ℕ → Bool
closing j = ltb 2 j

closed_after : (j : ℕ) → 3 ≤ j → closing j ≡ true
unfolding closing
closed_after j h = ground arith

eviction_loop-returns_example :
    (e' : Engine (Unit {0})) × (eviction_loop null_backend
        (λ t id. none)
        (λ t e. e)
        closing
        2
        0
        flushed
      ≡ some e')
    × IsSound false 65 e'
    × (3 ≤ 0 → e' ≡ flushed)
eviction_loop-returns_example =
    eviction_loop-returns null_backend (λ t id. none) (λ t e. e) closing false 65 3 closed_after
      (λ t e h. h) 2 0 flushed (omega arith) (omega arith)
      (Reach-Sound linked (omega arith) flushed-Reach)
