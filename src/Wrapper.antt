-- ===== src/Wrapper.antt =====
-- The class `Engine` of include/chronosv/chronos_vector.hpp: who owns which C handle. A handle is its number in the order
-- of creation; an object is its place in the list of the wrapper objects made so far, with the handle it holds.
pub mod Ownership
pub mod Results
use chronos_vector.Base.{
  ℕ, zero, suc, ◌+◌, Bool, true, false, Option, none, some, List, [], ◌∷◌, ◌++◌, ◌==◌,
  if◌then◌else◌,
}

-- The objects' handles, the number of handles that `chronosv_create` gave out, and those passed to `chronosv_destroy`.
pub record Handles : Type 0 where
  pub objects : List (Option ℕ)
  pub made : ℕ
  pub destroyed : List ℕ

-- The handle of object `i`; an object that does not exist has none.
unfoldable pub held : List (Option ℕ) → ℕ → Option ℕ
held [] i = none
held (h ∷ hs) zero = h
held (h ∷ hs) (suc i) = held hs i

-- `h_ = h` in object `i`.
unfoldable pub hold : List (Option ℕ) → ℕ → Option ℕ → List (Option ℕ)
hold [] i h = []
hold (x ∷ hs) zero h = h ∷ hs
hold (x ∷ hs) (suc i) h = x ∷ hold hs i h

-- `Create` that succeeds.
unfoldable pub create_object : Handles → Handles
create_object s = record {
  objects = s.objects ++ (some s.made ∷ []);
  made = s.made + 1;
  destroyed = s.destroyed;
}

-- `Engine(Engine&&)`: a new object takes the handle of object `i`.
unfoldable pub move_construct : Handles → ℕ → Handles
move_construct s i = record s { objects = hold s.objects i none ++ (held s.objects i ∷ []) }

-- `reset`, which the destructor calls as well.
unfoldable pub reset : Handles → ℕ → Handles
reset s i = elim (held s.objects i) [
  | none ↦ s
  | some h ↦ record s { objects = hold s.objects i none; destroyed = h ∷ s.destroyed }
]

-- `operator=(Engine&&)`: object `i` takes the handle of object `j`.
unfoldable pub move_assign : Handles → ℕ → ℕ → Handles
move_assign s i j =
    let r = reset s i in
    if i == j then s else record r { objects = hold (hold r.objects j none) i (held r.objects j) }
