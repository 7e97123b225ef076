-- ===== src/Engine/Loop/Stops.antt =====
-- `EvictionLoop` of src/engine.cpp ends after `Close`, with the engine in a good state.
use native.Mathlib.Decide.{dec_le}
use chronos_vector.Base.{
  Option, ℕ, zero, suc, ◌+◌, ◌*◌, ◌≤◌, ◌<◌, ◌≡◌, refl, sym, ◌∙◌, Bool, true, false, none, some, inl,
  inr, arith, Bool-cases,
}
use chronos_vector.Engine.{Bytes, Backend, Engine}
use chronos_vector.Engine.Evict.{evict_once}
use chronos_vector.Engine.Loop.{eviction_loop}
use chronos_vector.Engine.Inv.{IsSound}
use chronos_vector.Engine.Inv.Evicts.{evict_once-Sound}
use chronos_vector.Engine.Scores.Runs.{when_true, when_false}

module _ {S : Type 0} (b : Backend S) (memory : ℕ → Bytes → Option ℕ)
    (others : ℕ → Engine S → Engine S) (stop : ℕ → Bool) (enable_int8 : Bool) (n : ℕ) where
  -- A load that finds the flag unset came before `Close`.
  before : (k t : ℕ) → ((j : ℕ) → k ≤ j → stop j ≡ true) → stop t ≡ false → t < k
  before k t set off = elim (dec_le k t) [
    | yes late ↦ absurd (differ (sym (set t late) ∙ off))
    | no early ↦ omega arith
  ]
    where
      differ : true ≡ false → ⊥
      differ p = cc

  -- Once `Close` has set the flag, here before load number `k`, `EvictionLoop` returns: as many rounds are enough as
  -- there are pairs of loads up to there. The engine satisfies the invariant at the end, if it does at the start
  -- and whatever other threads do keeps it; a loop that starts with the flag set leaves the engine as it is.
  pub eviction_loop-returns :
      (k : ℕ)
      → ((j : ℕ) → k ≤ j → stop j ≡ true)
      → ((t : ℕ) (e : Engine S) → IsSound enable_int8 n e → IsSound enable_int8 n (others t e))
      → (fuel t : ℕ) (e : Engine S) → 0 < fuel
      → k < t + 2 * fuel
      → IsSound enable_int8 n e
      → (e' : Engine S) × (eviction_loop b memory others stop fuel t e ≡ some e')
        × IsSound enable_int8 n e'
        × (k ≤ t → e' ≡ e)
  unfolding eviction_loop
  eviction_loop-returns k set keep zero t e some_fuel enough h = absurd (omega arith)
  eviction_loop-returns k set keep (suc fuel) t e some_fuel enough h = elim (Bool-cases (stop t)) [
    | inl now ↦ (e, when_true _ _ _ now, h, λ late. refl)
    | inr going ↦
        let early : t < k = before k t set going in
        elim (Bool-cases (stop (t + 1))) [
          | inl soon ↦ (
            others t e,
            when_false _ _ _ going ∙ when_true _ _ _ soon,
            keep t e h,
            λ late. absurd (omega arith),
          )
          | inr on ↦
              let earlier : t + 1 < k = before k (t + 1) set on in
              let pass = evict_once b (memory t) (others t e) none in
              let (e', p, good, same) =
                eviction_loop-returns k set keep fuel (t + 2) pass (omega arith) (omega arith)
                  (evict_once-Sound b (memory t) enable_int8 n (others t e) none (keep t e h)) in
              (
                e',
                when_false _ _ _ going ∙ when_false _ _ _ on ∙ p,
                good,
                λ late. absurd (omega arith),
              )
        ]
  ]
