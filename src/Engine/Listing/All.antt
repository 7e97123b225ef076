-- ===== src/Engine/Listing/All.antt =====
-- The ids that `ListSensors` of src/engine.cpp hands out.
use chronos_vector.Base.{
  ℕ, zero, suc, ◌+◌, ◌-◌, ◌≤◌, ◌<◌, ◌≡◌, refl, ap, sym, ◌∙◌, inl, inr, Bool, true, false, not, ◌&&◌,
  none, some, List, [], ◌∷◌, ◌++◌, append-nil, append_assoc, map, take, length, length-append, ltb,
  arith, if◌then◌else◌, Bool-cases,
}
use chronos_vector.Types.{ok, err_invalid_arg}
use chronos_vector.Engine.{Bytes, Engine, SensorMap, SensorSlot}
use chronos_vector.Engine.Listing.{Listing, list_loop, list_sensors}
use chronos_vector.Engine.Scores.Runs.{when_true, when_false}

-- An id with the ending 0.
abbrev pub terminated : Bytes × SensorSlot → Bytes
terminated p = p.0 ++ (0 ∷ [])

-- A finished listing of these copies.
abbrev pub listed : List Bytes → Listing
listed ids = record { error = ok; ids = ids; count = some (length ids) }

module _ (grants : ℕ → ℕ → Bool) (granted : (k n : ℕ) → grants k n ≡ true) where
  take_nil : (n : ℕ) → take {A = Bytes} n [] ≡ []
  take_nil zero = refl
  take_nil (suc n) = refl

  one_more :
      (written : List Bytes) (c : Bytes) (cs : List Bytes) (max : ℕ)
      → length written < max
      → (written ++ (c ∷ [])) ++ take (max - length (written ++ (c ∷ []))) cs
        ≡ written ++ take (max - length written) (c ∷ cs)
  one_more written c cs max h =
      append_assoc written (c ∷ []) (take (max - length (written ++ (c ∷ []))) cs)
      ∙ ap (λ k. written ++ take k (c ∷ cs)) left
    where
      left : suc (max - length (written ++ (c ∷ []))) ≡ max - length written
      left = omega (arith, length-append written (c ∷ []))

  loop_lem :
      (m : SensorMap) (max : ℕ) (written : List Bytes)
      → length written ≤ max
      → list_loop grants m max written
        ≡ listed (written ++ take (max - length written) (map terminated m))
  unfolding list_loop
  loop_lem [] max written h =
      ap listed
        (sym (append-nil written) ∙ ap (λ t. written ++ t) (sym (take_nil (max - length written))))
  loop_lem ((id, slot) ∷ m) max written h = elim (Bool-cases (ltb (length written) max)) [
    | inl room ↦
        when_false _ _ _ (ap not room)
        ∙ when_false _ _ _ (ap not (granted (length written) (length id + 1)))
        ∙ loop_lem m max (written ++ ((id ++ (0 ∷ [])) ∷ []))
            (omega (arith, length-append written ((id ++ (0 ∷ [])) ∷ []), more room))
        ∙ ap listed (one_more written (id ++ (0 ∷ [])) (map terminated m) max (more room))
    | inr full ↦
        when_true _ _ _ (ap not full)
        ∙ ap listed (
            sym (append-nil written)
            ∙ ap (λ k. written ++ take k (map terminated ((id, slot) ∷ m))) (sym (no_room full)))
  ]
    where
      more : ltb (length written) max ≡ true → length written < max
      more r = ground arith

      no_room : ltb (length written) max ≡ false → max - length written ≡ 0
      no_room f = ground arith

  -- `ListSensors` returns copies of the first `max` ids, each ended by 0, and their number, where the allocator grants
  -- every request and both pointers are set.
  pub list_sensors-take :
      {S : Type 0} (e : Engine S) (max : ℕ)
      → list_sensors grants e true max true ≡ listed (take max (map terminated e.sensors))
  unfolding list_sensors
  list_sensors-take e max =
      either (ltb 0 max)
      ∙ loop_lem e.sensors max [] (omega arith)
      ∙ ap (λ k. listed (take k (map terminated e.sensors))) no_less
    where
      none_less : (n : ℕ) → n - 0 ≡ n
      none_less n = omega arith

      no_less : max - length {A = Bytes} [] ≡ max
      no_less = none_less max

      either :
          (t : Bool)
          → (if t && not true
              then record { error = err_invalid_arg; ids = []; count = none }
              else list_loop grants e.sensors max [])
            ≡ list_loop grants e.sensors max []
      either true = refl
      either false = refl
