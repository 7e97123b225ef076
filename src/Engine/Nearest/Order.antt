-- ===== src/Engine/Nearest/Order.antt =====
-- What `QueryNearestN` of src/engine.cpp relies on: an order on scores, and the documented contracts of
-- `std::push_heap`, `std::pop_heap` and `std::sort`.
use mathlib.Core.List.{Permᴰ}
use chronos_vector.Base.{◌≡◌, Bool, true, false, List, [], ◌∷◌, ◌++◌, All, subst}
use chronos_vector.Engine.Nearest.{Scored, HeapOps}

-- A strict weak order on the items that satisfy `P` (the numbers, among the floats).
pub record IsOrder (cmp : Scored → Scored → Bool) (P : Scored → Type 0) : Type 0 where
  pub asym : (a b : Scored) → P a → P b → cmp a b ≡ true → cmp b a ≡ false
  pub neg_trans :
      (a b c : Scored) → P a → P b → P c → cmp a b ≡ false → cmp b c ≡ false → cmp a c ≡ false

-- No item is better than one before it.
abbrev pub IsSorted : (Scored → Scored → Bool) → List Scored → Type 0
IsSorted cmp [] = Unit {0}
IsSorted cmp (x ∷ xs) = All (λ y. cmp y x ≡ false) xs × IsSorted cmp xs

-- The contracts, for vectors of items that satisfy `P`. `IsHeap` is the library's heap property.
pub record HeapLaws (ops : HeapOps) (cmp : Scored → Scored → Bool) (P : Scored → Type 0)
    : Type 1 where
  pub IsHeap : List Scored → Type 0
  pub empty_heap : IsHeap []
  pub front : (w : Scored) (xs : List Scored) → IsHeap (w ∷ xs) → All (λ x. cmp w x ≡ false) xs
  pub push :
      (xs : List Scored) (x : Scored)
      → All P xs
      → P x
      → IsHeap xs
      → IsHeap (ops.push_heap cmp (xs ++ (x ∷ [])))
        × Permᴰ (ops.push_heap cmp (xs ++ (x ∷ []))) (xs ++ (x ∷ []))
  pub pop :
      (w : Scored) (xs : List Scored)
      → All P (w ∷ xs)
      → IsHeap (w ∷ xs)
      → (ys : List Scored) × (ops.pop_heap cmp (w ∷ xs) ≡ ys ++ (w ∷ [])) × IsHeap ys × Permᴰ ys xs
  pub sorts :
      (xs : List Scored) → All P xs → IsSorted cmp (ops.sort cmp xs) × Permᴰ (ops.sort cmp xs) xs

-- A property of each item passes to a permutation.
pub All-PermD : (P : Scored → Type 0) {xs ys : List Scored} → Permᴰ xs ys → All P xs → All P ys
All-PermD P Permᴰ.nil h = tt
All-PermD P (Permᴰ.cons e p) (h, hs) = (subst P e h, All-PermD P p hs)
All-PermD P (Permᴰ.swap e f) (h, (k, hs)) = (subst P f k, (subst P e h, hs))
All-PermD P (Permᴰ.trans p q) h = All-PermD P q (All-PermD P p h)
