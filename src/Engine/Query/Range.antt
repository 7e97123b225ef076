-- ===== src/Engine/Query/Range.antt =====
-- The rows that `QueryRange` of src/engine.cpp writes, in terms of the visible entries.
use chronos_vector.Base.{
  ℕ, zero, suc, ◌+◌, ◌-◌, ◌*◌, ◌≡◌, refl, ap, sym, ◌∙◌, ◌||◌, ◌&&◌, ltb, List, [], ◌∷◌, map, take,
  Bool-cases, inl, inr, if◌then◌else◌, some,
}
use chronos_vector.Base.Int.{ℤ, ltb_ℤ}
use chronos_vector.Ring.{Ring, Entry, snapshot, entry_at, vsz, add_u64}
use chronos_vector.Ring.Window.{entries, contents}
use chronos_vector.Engine.{Engine}
use chronos_vector.Engine.Query.{range_loop, int64_max, query_ring}

-- The entries from `t_start` to `t_end`, both included, in order.
unfoldable pub in_range : ℤ → ℤ → List Entry → List Entry
in_range t_start t_end [] = []
in_range t_start t_end (x ∷ xs) =
    let rest = in_range t_start t_end xs in
    if ltb_ℤ x.ts t_start || ltb_ℤ t_end x.ts then rest else x ∷ rest

abbrev pub row_of : Entry → ℤ × List ℕ
row_of x = (x.ts, x.vec)

range_loop_lem :
    (r : Ring) (t_start t_end : ℤ) (n idx room : ℕ) (oldest : ℤ)
    → (range_loop r t_start t_end (vsz r) n idx room oldest).rows
      ≡ take room (map row_of (in_range t_start t_end (entries r idx n)))
unfolding range_loop in_range entries entry_at
range_loop_lem r t_start t_end zero idx zero oldest = refl
range_loop_lem r t_start t_end zero idx (suc room) oldest = refl
range_loop_lem r t_start t_end (suc n) idx zero oldest = refl
range_loop_lem r t_start t_end (suc n) idx (suc room) oldest =
    elim (Bool-cases (ltb_ℤ (entry_at r idx).ts t_start || ltb_ℤ t_end (entry_at r idx).ts)) [
      | inl outside ↦
          rw (range_loop, in_range, outside)
            (range_loop_lem r t_start t_end n (idx + 1) (suc room) _)
      | inr inside ↦
          rw (range_loop, in_range, inside)
            (ap (λ t. row_of (entry_at r idx) ∷ t)
              (range_loop_lem r t_start t_end n (idx + 1) room _))
    ]

-- A query that reaches a ring with rows of `cfg.dim` floats writes the first `max` visible entries with
-- timestamps from `t_start` to `t_end`, both included, oldest first, each with its vector, and counts
-- one query.
pub query_ring-rows :
    {S : Type 0} (e : Engine S) (r : Ring) (t_start t_end : ℤ) (max : ℕ)
    → vsz r ≡ e.cfg.dim * 4
    → ((query_ring e r t_start t_end max).rows
        ≡ some (take max (map row_of (in_range t_start t_end (contents r)))))
      × ((query_ring e r t_start t_end max).engine.total_queries ≡ add_u64 e.total_queries 1)
unfolding query_ring contents
query_ring-rows e r t_start t_end max fits =
    let n = (snapshot r).1 - (snapshot r).0 in
    let begin = (snapshot r).0 in
    let found = range_loop r t_start t_end (e.cfg.dim * 4) n begin max int64_max in
    let rows =
      ap (λ k. some (range_loop r t_start t_end k n begin max int64_max).rows) (sym fits)
      ∙ ap some (range_loop_lem r t_start t_end n begin max int64_max) in
    elim (Bool-cases (ltb 0 n && ltb_ℤ t_start found.oldest)) [
      | inl truncated ↦ rw truncated (rows, refl)
      | inr whole ↦ rw whole (rows, refl)
    ]
