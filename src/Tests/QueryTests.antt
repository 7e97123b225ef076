-- ===== src/Tests/QueryTests.antt =====
-- Nearest-neighbour queries at concrete inputs (compare tests/test_engine.cpp).
use chronos_vector.Base.{
  ℕ, ◌≤◌, ◌≡◌, ◌+◌, ◌%◌, ◌^◌, take, refl, inl, true, some, none, List, [], ◌∷◌, map, length, min,
  ltb, leb, ◌==◌, false, arith, if◌then◌else◌,
}
use chronos_vector.Base.Int.{ℤ, pos}
use chronos_vector.Types.{Config, ok, warn_partial_result, dtype_int8}
use chronos_vector.Bytes.{get_u32s, get_le}
use chronos_vector.Ring.{
  Ring, Allocator, make_ring, append, snapshot, timestamp_at, add_u64, entry_at,
}
use chronos_vector.Ring.Inv.{IsValid, make_ring-IsValid, append-IsValid}
use chronos_vector.Ring.Window.{contents, entries}
use chronos_vector.Kernels.{Floats}
use chronos_vector.Kernels.Float32.{cosine_f32_score}
use chronos_vector.Base.Memory.{read_bytes, write_bytes}
use chronos_vector.Engine.{Engine, find, same_id}
use chronos_vector.Engine.Anomaly.{add_floats, detect_anomaly}
use chronos_vector.Engine.Anomaly.Mean.{total_of, flat}
use chronos_vector.Engine.Anomaly.Verdict.{detect_anomaly-mean, mean_of, window_distance}
use chronos_vector.Engine.Listing.{list_sensors}
use chronos_vector.Engine.Listing.All.{list_sensors-take, listed, terminated}
use chronos_vector.Engine.Evict.Cut.{slot_with}
use chronos_vector.Engine.Lifecycle.{new_engine}
use chronos_vector.Engine.Scores.{Query, fill_scores}
use chronos_vector.Engine.Scores.Rows.{all_some}
use chronos_vector.Engine.Scores.Wrap.{entry_score}
use chronos_vector.Engine.Scores.Chunks.{fill_scores-entries}
use chronos_vector.Validation.{validate_sensor_id, scan_id}
use chronos_vector.Api.{Call, rejected, chronosv_query_nearest_n, chronosv_query_range}
use chronos_vector.Api.Bounds.{queries_within, written}
use chronos_vector.Engine.Scores.{run_f32, run_i8}
use chronos_vector.Kernels.Float32.{rows_f32, cosine_f32_chunk}
use chronos_vector.Engine.Nearest.{
  HeapOps, query_nearest_n, nearest_rows, top_k, top_loop, top_step,
}
use chronos_vector.Engine.Nearest.{Scored, NearestAnswer, better, nearest_ring, query_of}
use chronos_vector.Engine.Nearest.Order.{IsOrder}
use chronos_vector.Engine.Nearest.Best.{IsBest, placed}
use chronos_vector.Engine.Nearest.Insertion.{ordered_heap, ordered_heap-laws}
use chronos_vector.Engine.Nearest.Answer.{nearest_ring-IsBest, by_cosine}

abbrev plenty : Allocator
plenty = record { grants = λ k n. true; leftover = λ k i. 0 }

-- Words compared as numbers; the first word of the row is its dot product with the query.
abbrev word_floats : Floats
word_floats = record {
  lt = ltb;
  le = leb;
  eq = ◌==◌;
  neg = λ x. x;
  add = λ x y. x;
  sub = λ x y. x;
  mul = λ x y. x;
  div = λ x y. x;
  of_int = λ z. 0;
  lround = λ x. pos 0;
  sqrt = λ x. x;
  l2_norm = λ v. 1;
  dot = λ v w. elim v [ [] ↦ 0 | x ∷ xs ↦ x ];
  row_sums = λ n m. m;
}

abbrev small_config : Config
small_config = record {
  abi = 1;
  cold_path = none;
  dim = 1;
  uuid = [];
  ring_capacity = 64;
  window_duration_ms = pos 1000;
  eviction_interval_ms = pos 100;
  payload_size_bytes = 0;
  storage_dtype = 0;
  distance_metric = 0;
  max_sensors = 0;
  recover_hot_window = 0;
}

abbrev two_vectors : Ring
two_vectors =
    append (append (make_ring plenty 64 1 0 0) (pos 100) (1 ∷ 0 ∷ 0 ∷ 0 ∷ []) 5 none 0) (pos 5000)
      (2 ∷ 0 ∷ 0 ∷ 0 ∷ []) 5 none 0

abbrev query_engine : Engine (Unit {0})
query_engine = record (new_engine small_config none tt 1 2) {
  sensors = (115 ∷ [], slot_with two_vectors (pos 0)) ∷ [];
}

abbrev cosine_query : Query
cosine_query = query_of word_floats true two_vectors (7 ∷ [])

two_vectors-IsValid : IsValid two_vectors
unfolding make_ring append
two_vectors-IsValid =
    append-IsValid (pos 5000) (2 ∷ 0 ∷ 0 ∷ 0 ∷ []) 5 none 0
      (append-IsValid (pos 100) (1 ∷ 0 ∷ 0 ∷ 0 ∷ []) 5 none 0
        (make_ring-IsValid plenty 64 1 0 0 6 refl (omega arith) (omega arith)) (omega arith))
      (omega arith)

is_float32 : two_vectors.dtype ≡ 0
unfolding make_ring append
is_float32 = refl

capacity_64 : two_vectors.capacity ≡ 64
unfolding make_ring append
capacity_64 = refl

fill_scores-entries_example :
    fill_scores word_floats two_vectors cosine_query two_vectors.dim 0 2
    ≡ all_some (
        map
          (entry_score word_floats (two_vectors.dtype == dtype_int8) cosine_query two_vectors.dim)
          (entries two_vectors 0 2))
fill_scores-entries_example =
    fill_scores-entries word_floats two_vectors cosine_query two_vectors-IsValid (inl is_float32) 0
      2 (omega (arith, capacity_64))

two_left : length (contents two_vectors) ≡ 2
unfolding contents make_ring append snapshot
two_left = refl

two_scores :
    all_some (
      map
        (entry_score word_floats
          (two_vectors.dtype == dtype_int8)
          (query_of word_floats (by_cosine query_engine) two_vectors (7 ∷ []))
          two_vectors.dim)
        (contents two_vectors))
    ≡ some (1 ∷ 2 ∷ [])
unfolding all_some entry_score query_of contents entries entry_at make_ring append snapshot get_u32s
    new_engine cosine_f32_score get_le read_bytes write_bytes
two_scores = refl

abbrev Anything : Scored → Type 0
Anything p = Unit {0}

words_IsOrder : IsOrder (better word_floats true) Anything
words_IsOrder = record {
  asym = λ a b pa pb h. after_lt b.0 a.0 h;
  neg_trans = λ a b c pa pb pc h k. not_lt_trans a.0 b.0 c.0 h k;
}
  where
    after_lt : (m n : ℕ) → ltb m n ≡ true → ltb n m ≡ false
    after_lt m n h = ground arith

    not_lt_trans : (m n k : ℕ) → ltb n m ≡ false → ltb k n ≡ false → ltb k m ≡ false
    not_lt_trans m n k h g = ground arith

nearest_ring-IsBest_example :
    (answer : NearestAnswer (Unit {0})) × (top : List Scored) × (rest : List Scored) × (nearest_ring
        word_floats ordered_heap query_engine
        (115 ∷ [])
        two_vectors
        (7 ∷ [])
        1
      ≡ some answer)
    × (answer.rows
        ≡ some
            (map (λ p. (timestamp_at two_vectors (add_u64 (snapshot two_vectors).0 p.1), p.0)) top))
    × (answer.error ≡ (if ltb (length (contents two_vectors)) 1 then warn_partial_result else ok))
    × IsBest (better word_floats true) (1 ∷ 2 ∷ []) (min 1 (length (contents two_vectors))) top rest
unfolding make_ring append new_engine placed
nearest_ring-IsBest_example =
    nearest_ring-IsBest word_floats ordered_heap query_engine (115 ∷ []) two_vectors (7 ∷ []) 1
      (1 ∷ 2 ∷ []) Anything two_vectors-IsValid refl (inl is_float32) (omega (arith, two_left))
      (omega (arith, two_left)) (omega arith) two_scores (tt, (tt, tt)) words_IsOrder
      (ordered_heap-laws (better word_floats true) Anything words_IsOrder)

-- The sums of the two rows of a matrix, whose columns stand one after the other.
abbrev pair_sums : List ℕ → List ℕ
pair_sums [] = 0 ∷ 0 ∷ []
pair_sums (x ∷ []) = x ∷ 0 ∷ []
pair_sums (x ∷ y ∷ zs) = elim (pair_sums zs) [ a ∷ b ∷ cs ↦ (x + a) ∷ (y + b) ∷ [] | _ ↦ [] ]

-- Words that are added as numbers.
abbrev exact_floats : Floats
exact_floats = record word_floats { add = ◌+◌; row_sums = λ n m. pair_sums m }

-- A ring of pairs whose next slot is the last one.
abbrev at_end : Ring
at_end = record (make_ring plenty 64 2 0 0) { head = 63; tail = 63 }

at_end-IsValid : IsValid at_end
unfolding make_ring
at_end-IsValid =
    let v = make_ring-IsValid plenty 64 2 0 0 6 refl (omega arith) (omega arith) in
    record {
      power = v.power;
      capacity_min = v.capacity_min;
      capacity_word = v.capacity_word;
      mask_lem = v.mask_lem;
      head_word = omega arith;
      ordered = omega arith;
    }

-- Two pairs, one in the last slot and one in the first.
abbrev wrapped : Ring
wrapped =
    append (append at_end (pos 100) (1 ∷ 0 ∷ 0 ∷ 0 ∷ 2 ∷ 0 ∷ 0 ∷ 0 ∷ []) 5 none 0) (pos 5000)
      (3 ∷ 0 ∷ 0 ∷ 0 ∷ 4 ∷ 0 ∷ 0 ∷ 0 ∷ []) 5 none 0

wrapped-IsValid : IsValid wrapped
unfolding make_ring append
wrapped-IsValid =
    append-IsValid (pos 5000) (3 ∷ 0 ∷ 0 ∷ 0 ∷ 4 ∷ 0 ∷ 0 ∷ 0 ∷ []) 5 none 0
      (append-IsValid (pos 100) (1 ∷ 0 ∷ 0 ∷ 0 ∷ 2 ∷ 0 ∷ 0 ∷ 0 ∷ []) 5 none 0 at_end-IsValid
        (omega arith))
      (omega arith)

abbrev pair_engine : Engine (Unit {0})
pair_engine = record (new_engine (record small_config { dim = 2 }) none tt 1 2) {
  sensors = (115 ∷ [], slot_with wrapped (pos 0)) ∷ [];
}

two_pairs : length (contents wrapped) ≡ 2
unfolding contents make_ring append snapshot
two_pairs = refl

-- Their sum.
pair_total : mean_of exact_floats wrapped ≡ 4 ∷ 6 ∷ []
unfolding contents entries entry_at make_ring append snapshot get_u32s get_le read_bytes write_bytes
    add_floats total_of flat
pair_total = refl

detect_anomaly-mean_example :
    let answer =
      detect_anomaly exact_floats pair_engine (115 ∷ []) (some (7 ∷ 8 ∷ [])) wrapped.dim 3 true in
    (answer.error ≡ ok)
    × (answer.is_anomaly
        ≡ some (exact_floats.lt 3 (window_distance exact_floats pair_engine wrapped (7 ∷ 8 ∷ []))))
    × (answer.engine.sensors ≡ pair_engine.sensors)
    × (answer.engine.total_anomaly_checks ≡ (pair_engine.total_anomaly_checks + 1) % 2 ^ 64)
unfolding make_ring append new_engine find same_id
detect_anomaly-mean_example =
    detect_anomaly-mean exact_floats pair_engine (115 ∷ []) wrapped (7 ∷ 8 ∷ []) 3
      (slot_with wrapped (pos 0)) refl refl refl refl wrapped-IsValid refl
      (omega (arith, two_pairs))

list_sensors-take_example :
    list_sensors (λ k n. true) query_engine true 5 true
    ≡ listed (take 5 (map terminated query_engine.sensors))
list_sensors-take_example = list_sensors-take (λ k n. true) (λ k n. refl) query_engine 5

-- Heap functions that leave a vector as it is, enough for one entry.
abbrev still : HeapOps
still = record { push_heap = λ c xs. xs; pop_heap = λ c xs. xs; sort = λ c xs. xs }

abbrev answer : Call (Unit {0}) (List (ℤ × ℕ))
answer =
    elim (chronosv_query_nearest_n word_floats still (some query_engine) (some (115 ∷ []))
      (some (7 ∷ [])) 1 (pos 2) true) [ none ↦ rejected ok none | some c ↦ c ]

answered :
    chronosv_query_nearest_n word_floats still
      (some query_engine)
      (some (115 ∷ []))
      (some (7 ∷ []))
      1
      (pos 2)
      true
    ≡ some answer
unfolding chronosv_query_nearest_n validate_sensor_id scan_id query_nearest_n new_engine find
    same_id nearest_ring nearest_rows top_k top_loop top_step fill_scores run_f32 run_i8
    cosine_f32_chunk rows_f32 cosine_f32_score query_of make_ring append snapshot get_u32s get_le
    read_bytes write_bytes
answered = refl

queries_within_example :
    (written answer.output ≤ 2)
    × (written
          (chronosv_query_range
            (some query_engine)
            (some (115 ∷ []))
            (pos 0)
            (pos 900)
            (pos 1)
            true).output
        ≤ 1)
queries_within_example =
    queries_within word_floats still 2 1 (some query_engine) (some (115 ∷ [])) (some (7 ∷ [])) 1
      true (pos 0) (pos 900) answer answered
