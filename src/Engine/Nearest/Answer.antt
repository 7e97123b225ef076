-- ===== src/Engine/Nearest/Answer.antt =====
-- The answer of `QueryNearestN` of src/engine.cpp, in terms of the visible entries.
use chronos_vector.Base.{
  ℕ, ◌-◌, ◌^◌, ◌<◌, ◌≡◌, refl, ap, sym, ◌∙◌, ◌⊎◌, Bool, Option, none, some, List, map, take, length,
  min, ltb, ◌==◌, ==_false, if◌then◌else◌, All, arith, take_all, lt→ltb, [], ◌∷◌, suc,
}
use chronos_vector.Base.Int.{ℤ}
use chronos_vector.Types.{ok, warn_partial_result, dtype_float32, dtype_int8, metric_cosine}
use chronos_vector.Ring.{Ring, snapshot, timestamp_at, add_u64}
use chronos_vector.Ring.Inv.{IsValid, snapshot_bounds}
use chronos_vector.Ring.Window.{contents, length-contents}
use chronos_vector.Kernels.{Floats}
use chronos_vector.Engine.{Bytes, Engine}
use chronos_vector.Engine.Scores.{fill_scores}
use chronos_vector.Engine.Scores.Rows.{all_some, cons_some}
use chronos_vector.Engine.Scores.Runs.{when_true, when_false}
use chronos_vector.Engine.Scores.Wrap.{entry_score}
use chronos_vector.Engine.Scores.Chunks.{fill_scores-entries}
use chronos_vector.Engine.Nearest.{
  Scored, HeapOps, better, top_k, query_of, NearestAnswer, nearest_rows, nearest_ring,
}
use chronos_vector.Engine.Nearest.Order.{IsOrder, HeapLaws}
use chronos_vector.Engine.Nearest.Best.{placed, IsBest}
use chronos_vector.Engine.Nearest.Top.{top_k_lem}

-- Whether the engine's metric is cosine similarity.
abbrev pub by_cosine : {S : Type 0} → Engine S → Bool
by_cosine e = e.cfg.distance_metric == metric_cosine

some_injective {ℓ} : {A : Type ℓ} {x y : A} → some x ≡ some y → x ≡ y
some_injective {x} p = ap (λ o. elim o [ none ↦ x | some z ↦ z ]) p

all_some-length :
    (os : List (Option ℕ)) (xs : List ℕ) → all_some os ≡ some xs → length os ≡ length xs
unfolding all_some
all_some-length [] xs h = ap length (some_injective h)
all_some-length (none ∷ os) xs h = absurd cc
all_some-length (some x ∷ os) xs h = go (all_some-length os) (all_some os) refl h
  where
    go :
        ((ys : List ℕ) → all_some os ≡ some ys → length os ≡ length ys)
        → (o : Option (List ℕ)) → all_some os ≡ o
        → cons_some (some x) o ≡ some xs
        → suc (length os) ≡ length xs
    go ih none e h = absurd cc
    go ih (some ys) e h = ap suc (ih ys e) ∙ ap length (some_injective h)

length-map {ℓ κ} :
    {A : Type ℓ} {B : Type κ} (f : A → B) (xs : List A) → length (map f xs) ≡ length xs
length-map f [] = refl
length-map f (x ∷ xs) = ap suc (length-map f xs)

module _ {S : Type 0} (fl : Floats) (ops : HeapOps) (e : Engine S) (id : Bytes) (r : Ring)
    (target : List ℕ) (n : ℕ) (scores : List ℕ) where
  abbrev cmp : Scored → Scored → Bool
  cmp = better fl (by_cosine e)

  -- The scores of the visible entries, one by one.
  abbrev Scores : Type 0
  Scores =
      all_some (
        map (entry_score fl (r.dtype == dtype_int8) (query_of fl (by_cosine e) r target) r.dim)
          (contents r))
      ≡ some scores

  sizes : Scores → length (contents r) ≡ length scores
  sizes scored = sym (length-map _ (contents r)) ∙ all_some-length _ scores scored

  from_ring :
      IsValid r
      → e.cfg.dim ≡ r.dim
      → (r.dtype ≡ dtype_float32) ⊎ (r.dtype ≡ dtype_int8)
      → 0 < length (contents r)
      → length (contents r) < 2 ^ 31
      → Scores
      → nearest_ring fl ops e id r target n ≡ some (nearest_rows fl ops e id r n scores)
  unfolding nearest_ring contents
  from_ring v same_dim dtype some_left small scored =
      let begin = (snapshot r).0 in
      let count = (snapshot r).1 - (snapshot r).0 in
      let q = query_of fl (by_cosine e) r target in
      let filled : fill_scores fl r q e.cfg.dim begin count ≡ some scores =
        ap (λ d. fill_scores fl r q d begin count) same_dim
        ∙ fill_scores-entries fl r q v dtype begin count (omega (arith, snapshot_bounds v))
        ∙ scored in
      when_false _ _ _ (==_false count 0 (omega (arith, length-contents r)))
      ∙ when_true _ _ _ (lt→ltb count (2 ^ 31) (omega (arith, length-contents r)))
      ∙ ap
          (λ (o : Option (List ℕ)). elim o as (λ _. Option (NearestAnswer S)) [
            | none ↦ none
            | some ss ↦ some (nearest_rows fl ops e id r n ss)
          ])
          filled

  rows_lem :
      {rest : List Scored}
      → length (contents r) ≡ length scores
      → let k = min n (length (contents r)) in
        IsBest cmp scores k (top_k ops cmp k scores) rest
        → (nearest_rows fl ops e id r n scores).rows
          ≡ some (
              map
                (λ p. (timestamp_at r (add_u64 (snapshot r).0 p.1), p.0))
                (top_k ops cmp k scores))
  unfolding nearest_rows
  rows_lem same best =
      let row : Scored → ℤ × ℕ = λ p. (timestamp_at r (add_u64 (snapshot r).0 p.1), p.0) in
      ap (λ m. some (map row (take (min n m) (top_k ops cmp (min n m) scores)))) (sym same)
      ∙ ap (λ l. some (map row l)) (take_all _ _ (omega (arith, best.count)))

  fewer : (m : ℕ) → ltb (min n m) n ≡ ltb m n
  fewer m = ground arith

  error_lem :
      length (contents r) ≡ length scores
      → (nearest_rows fl ops e id r n scores).error
        ≡ (if ltb (length (contents r)) n then warn_partial_result else ok)
  unfolding nearest_rows
  error_lem same =
      ap (λ t. if t then warn_partial_result else ok)
        (fewer (length scores) ∙ ap (λ m. ltb m n) (sym same))

  -- `QueryNearestN` on a non-empty valid ring (of fewer than 2^31 entries, of the engine's dimension and of a
  -- known dtype) returns the timestamps and scores of the best `n` visible entries, or of all if there are fewer,
  -- best first, no entry left out having a better score; and it warns exactly when it returns fewer than `n`. The
  -- comparison is a strict weak order on the scores at hand (so none is NaN), and the heap functions keep
  -- their contracts.
  pub nearest_ring-IsBest :
      (P : Scored → Type 0)
      → IsValid r
      → e.cfg.dim ≡ r.dim
      → (r.dtype ≡ dtype_float32) ⊎ (r.dtype ≡ dtype_int8)
      → 0 < length (contents r)
      → length (contents r) < 2 ^ 31
      → 0 < n
      → Scores
      → All P (placed scores 0)
      → IsOrder cmp P
      → HeapLaws ops cmp P
      → (answer : NearestAnswer S) × (top : List Scored) × (rest : List Scored) × (nearest_ring fl
            ops e id r target n
          ≡ some answer)
        × (answer.rows ≡ some (map (λ p. (timestamp_at r (add_u64 (snapshot r).0 p.1), p.0)) top))
        × (answer.error ≡ (if ltb (length (contents r)) n then warn_partial_result else ok))
        × IsBest cmp scores (min n (length (contents r))) top rest
  nearest_ring-IsBest P v same_dim dtype some_left small pos_n scored ps o laws =
      let k = min n (length (contents r)) in
      let (rest, best) =
        top_k_lem ops cmp P o laws k scores ps (omega arith) (omega (arith, sizes scored)) in
      (
        nearest_rows fl ops e id r n scores,
        top_k ops cmp k scores,
        rest,
        from_ring v same_dim dtype some_left small scored,
        rows_lem (sizes scored) best,
        error_lem (sizes scored),
        best,
      )
