-- ===== src/Engine/Nearest.antt =====
-- `QueryNearestN` of src/engine.cpp. The heap and sort functions of the C++ library are arguments. The output arrays
-- are the list of rows that it writes.
pub mod Order
pub mod Best
pub mod Top
pub mod Answer
pub mod Insertion
use chronos_vector.Base.{
  ℕ, zero, suc, ◌+◌, ◌-◌, ◌^◌, Bool, true, false, not, ◌||◌, Option, none, some, List, [], ◌∷◌,
  ◌++◌, map, take, length, min, ltb, ◌==◌, if◌then◌else◌,
}
use chronos_vector.Base.Int.{ℤ, pos, negsuc}
use chronos_vector.Types.{
  ErrorCode, ok, err_closed, err_dim_mismatch, err_invalid_arg, err_not_found, warn_partial_result,
  dtype_int8, metric_cosine,
}
use chronos_vector.Ring.{Ring, snapshot, timestamp_at, add_u64}
use chronos_vector.Kernels.{Floats, quantize, ints_i8}
use chronos_vector.Engine.{Bytes, Engine, Event, on_query, hears, find}
use chronos_vector.Engine.Ingest.{note}
use chronos_vector.Engine.Scores.{Query, fill_scores}

-- A score, and the entry's place in the snapshot.
abbrev pub Scored : Type 0
Scored = ℕ × ℕ

-- `std::push_heap`, `std::pop_heap` and `std::sort` on a whole vector, with their comparison.
pub record HeapOps : Type 0 where
  pub push_heap : (Scored → Scored → Bool) → List Scored → List Scored
  pub pop_heap : (Scored → Scored → Bool) → List Scored → List Scored
  pub sort : (Scored → Scored → Bool) → List Scored → List Scored

-- `heap_cmp`: the first is better.
abbrev pub better : Floats → Bool → Scored → Scored → Bool
better fl is_cosine a b = if is_cosine then fl.lt b.0 a.0 else fl.lt a.0 b.0

-- `back() = x`
abbrev pub set_back : List Scored → Scored → List Scored
set_back [] x = []
set_back (y ∷ []) x = x ∷ []
set_back (y ∷ z ∷ zs) x = y ∷ set_back (z ∷ zs) x

-- One round of the selection loop. The case of an empty heap that is not to grow does not occur.
unfoldable pub top_step :
    HeapOps → (Scored → Scored → Bool) → ℕ → Scored → List Scored → List Scored
top_step ops cmp k x heap =
    if ltb (length heap) k then ops.push_heap cmp (heap ++ (x ∷ [])) else elim heap [
      | [] ↦ []
      | w ∷ h ↦ if cmp x w then ops.push_heap cmp (set_back (ops.pop_heap cmp (w ∷ h)) x) else w ∷ h
    ]

-- The loop over the scores that are left, the first of them that of entry `i`.
unfoldable pub top_loop :
    HeapOps → (Scored → Scored → Bool) → ℕ → List ℕ → ℕ → List Scored → List Scored
top_loop ops cmp k [] i heap = heap
top_loop ops cmp k (s ∷ ss) i heap = top_loop ops cmp k ss (i + 1) (top_step ops cmp k (s, i) heap)

-- The selection and the final sort.
unfoldable pub top_k : HeapOps → (Scored → Scored → Bool) → ℕ → List ℕ → List Scored
top_k ops cmp k scores = ops.sort cmp (top_loop ops cmp k scores 0 [])

-- What a query returns: the code, the rows (`none` where `*out_count` is not set), and the engine.
pub record NearestAnswer (S : Type 0) : Type 0 where
  pub error : ErrorCode
  pub rows : Option (List (ℤ × ℕ))
  pub engine : Engine S

-- The query as the kernels take it.
unfoldable pub query_of : Floats → Bool → Ring → List ℕ → Query
query_of fl is_cosine r target =
    let quantized = quantize fl target in
    let is_i8 = r.dtype == dtype_int8 in
    record {
      q_f32 = target;
      qn = fl.l2_norm target;
      q_i8 = if is_i8 then ints_i8 quantized.0 else [];
      q_scale = if is_i8 then quantized.1 else 0;
      is_cosine = is_cosine;
    }

-- The answer for these scores. `n` results are wanted.
unfoldable pub nearest_rows :
    {S : Type 0} → Floats → HeapOps → Engine S → Bytes → Ring → ℕ → List ℕ → NearestAnswer S
nearest_rows fl ops e id r n scores =
    let begin = (snapshot r).0 in
    let k = min n (length scores) in
    let top = top_k ops (better fl (e.cfg.distance_metric == metric_cosine)) k scores in
    let counted = record e { total_queries = add_u64 e.total_queries 1 } in
    record {
      error = if ltb k n then warn_partial_result else ok;
      rows = some (map (λ p. (timestamp_at r (add_u64 begin p.1), p.0)) (take k top));
      engine = note counted (hears e.sink (λ s. s.hears_query)) (on_query id k);
    }

-- The answer from a ring; `none` is undefined behaviour: 2^31 entries or more, whose number is no `int`, or
-- an INT8 dot product that overflows.
unfoldable pub nearest_ring :
    {S : Type 0}
    → Floats
    → HeapOps
    → Engine S
    → Bytes
    → Ring
    → List ℕ
    → ℕ
    → Option (NearestAnswer S)
nearest_ring fl ops e id r target n =
    let s = snapshot r in
    let q = query_of fl (e.cfg.distance_metric == metric_cosine) r target in
    if s.1 - s.0 == 0
    then some record { error = warn_partial_result; rows = some []; engine = e }
    else if ltb (s.1 - s.0) (2 ^ 31)
    then elim (fill_scores fl r q e.cfg.dim s.0 (s.1 - s.0)) [
      | none ↦ none
      | some scores ↦ some (nearest_rows fl ops e id r n scores)
    ]
    else none

-- `QueryNearestN`; `outputs` is whether the three output pointers are non-null. `target` has `dim` floats.
unfoldable pub query_nearest_n :
    {S : Type 0}
    → Floats
    → HeapOps
    → Engine S
    → Bytes
    → Option (List ℕ)
    → ℕ
    → ℤ
    → Bool
    → Option (NearestAnswer S)
query_nearest_n fl ops e id target dim n outputs =
    if e.closed
    then some record { error = err_closed; rows = none; engine = e }
    else if not (dim == e.cfg.dim)
    then some record { error = err_dim_mismatch; rows = none; engine = e }
    else elim n [
      | negsuc k ↦ some record { error = err_invalid_arg; rows = none; engine = e }
      | pos k ↦ elim target [
        | none ↦ some record { error = err_invalid_arg; rows = none; engine = e }
        | some floats ↦
            if k == 0 || not outputs
            then some record { error = err_invalid_arg; rows = none; engine = e }
            else elim (find e.sensors id) [
              | none ↦ some record { error = err_not_found; rows = some []; engine = e }
              | some slot ↦ elim slot.ring [
                | none ↦ some record { error = warn_partial_result; rows = some []; engine = e }
                | some r ↦ nearest_ring fl ops e id r floats k
              ]
            ]
      ]
    ]
