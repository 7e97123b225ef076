-- ===== src/Wrapper/Ownership.antt =====
-- Each C handle has one owner until it is destroyed, in include/chronosv/chronos_vector.hpp.
use chronos_vector.Base.{
  ℕ, zero, suc, ◌+◌, ◌<◌, ◌≡◌, refl, ap, Bool, true, false, Option, none, some, List, [], ◌∷◌, ◌++◌,
  arith, ltb, ◌==◌, if◌then◌else◌, inl, inr, ◌⊎◌, length, Bool-cases, Option-cases,
}
use chronos_vector.Wrapper.{Handles, held, hold, create_object, move_construct, reset, move_assign}

-- How often a handle occurs.
abbrev one_if : Bool → ℕ
one_if true = 1
one_if false = 0

abbrev pub owns : ℕ → Option ℕ → ℕ
owns h none = 0
owns h (some x) = if x == h then 1 else 0

abbrev pub owners : ℕ → List (Option ℕ) → ℕ
owners h [] = 0
owners h (o ∷ os) = owns h o + owners h os

abbrev pub times_destroyed : ℕ → List ℕ → ℕ
times_destroyed h [] = 0
times_destroyed h (x ∷ xs) = owns h (some x) + times_destroyed h xs

-- A sequence of operations on wrapper objects; the indices may be any, also of one object twice.
pub data Program : Handles → Type 0 where
  start : Program (record { objects = []; made = 0; destroyed = [] })
  creates : {s : Handles} → Program s → Program (create_object s)
  moves : {s : Handles} (i : ℕ) → Program s → Program (move_construct s i)
  assigns : {s : Handles} (i j : ℕ) → i < length s.objects → Program s → Program (move_assign s i j)
  resets : {s : Handles} (i : ℕ) → Program s → Program (reset s i)

-- Each handle that was given out has one owner, or was destroyed once; no other is known.
pub IsOwned : Handles → Type 0
IsOwned s =
    (h : ℕ) → owners h s.objects + times_destroyed h s.destroyed ≡ (if ltb h s.made then 1 else 0)

owners-append : (h : ℕ) (xs ys : List (Option ℕ)) → owners h (xs ++ ys) ≡ owners h xs + owners h ys
owners-append h [] ys = omega arith
owners-append h (x ∷ xs) ys = omega (arith, owners-append h xs ys)

owners-hold :
    (h : ℕ) (xs : List (Option ℕ)) (i : ℕ) (o : Option ℕ)
    → i < length xs
    → owners h (hold xs i o) + owns h (held xs i) ≡ owners h xs + owns h o
unfolding hold held
owners-hold h [] i o lt = absurd (omega arith)
owners-hold h (x ∷ xs) zero o lt = omega arith
owners-hold h (x ∷ xs) (suc i) o lt = omega (arith, owners-hold h xs i o (omega arith))

-- Taking the handle out of any object.
owners-release :
    (h : ℕ) (xs : List (Option ℕ)) (i : ℕ)
    → owners h (hold xs i none) + owns h (held xs i) ≡ owners h xs
unfolding hold held
owners-release h [] i = omega arith
owners-release h (x ∷ xs) zero = omega arith
owners-release h (x ∷ xs) (suc i) = omega (arith, owners-release h xs i)

length-hold : (xs : List (Option ℕ)) (i : ℕ) (o : Option ℕ) → length (hold xs i o) ≡ length xs
unfolding hold
length-hold [] i o = refl
length-hold (x ∷ xs) zero o = refl
length-hold (x ∷ xs) (suc i) o = ap suc (length-hold xs i o)

-- Taking a handle out leaves an empty object empty, and the object itself is empty then.
held-release :
    (xs : List (Option ℕ)) (i j : ℕ) → (i ≡ j) ⊎ (held xs i ≡ none) → held (hold xs j none) i ≡ none
unfolding hold held
held-release [] i j w = refl
held-release (x ∷ xs) zero zero w = refl
held-release (x ∷ xs) zero (suc j) (inl e) = absurd (omega arith)
held-release (x ∷ xs) zero (suc j) (inr e) = e
held-release (x ∷ xs) (suc i) zero (inl e) = absurd (omega arith)
held-release (x ∷ xs) (suc i) zero (inr e) = e
held-release (x ∷ xs) (suc i) (suc j) (inl e) = held-release xs i j (inl (omega arith))
held-release (x ∷ xs) (suc i) (suc j) (inr e) = held-release xs i j (inr e)

create_object-IsOwned : (s : Handles) → IsOwned s → IsOwned (create_object s)
unfolding create_object IsOwned
create_object-IsOwned s owned h =
    ground (arith, owned h, owners-append h s.objects (some s.made ∷ []))

move_construct-IsOwned : (s : Handles) (i : ℕ) → IsOwned s → IsOwned (move_construct s i)
unfolding move_construct IsOwned
move_construct-IsOwned s i owned h = omega (
  arith,
  owned h,
  owners-append h (hold s.objects i none) (held s.objects i ∷ []),
  owners-release h s.objects i,
)

-- `reset` leaves the object empty.
reset_lem :
    (s : Handles) (i : ℕ)
    → IsOwned s
    → IsOwned (reset s i)
      × (held (reset s i).objects i ≡ none)
      × (length (reset s i).objects ≡ length s.objects)
unfolding reset IsOwned
reset_lem s i owned = elim (Option-cases (held s.objects i)) [
  | inl empty ↦ rw (reset, empty) (owned, empty, refl)
  | inr (g, full) ↦
      rw (reset, full)
        (
          (λ h. omega (arith, owned h, owners-release h s.objects i, ap (owns h) full)),
          held-release s.objects i i (inl refl),
          length-hold s.objects i none,
        )
]

move_assign-IsOwned :
    (s : Handles) (i j : ℕ) → i < length s.objects → IsOwned s → IsOwned (move_assign s i j)
unfolding move_assign IsOwned
move_assign-IsOwned s i j lt owned = elim (Bool-cases (i == j)) [
  | inl self ↦ rw self owned
  | inr other ↦
      let (kept, empty, size) = reset_lem s i owned in
      let objects = (reset s i).objects in
      rw other (λ h. omega (
        arith,
        kept h,
        owners-release h objects j,
        owners-hold h (hold objects j none) i (held objects j)
            (omega (arith, length-hold objects j none, size)),
        ap (owns h) (held-release objects i j (inr empty)),
      ))
]

-- Whatever wrapper objects are created, moved, assigned and destroyed, in any order: each C handle that was given out
-- has exactly one object that holds it, or was passed to `chronosv_destroy` exactly once, never both; and a handle
-- that was not given out is neither held nor destroyed.
pub Program-IsOwned :
    (s : Handles)
    → Program s
    → (h : ℕ) → owners h s.objects + times_destroyed h s.destroyed ≡ (if ltb h s.made then 1 else 0)
unfolding IsOwned
Program-IsOwned s start h = ground arith
Program-IsOwned s (creates p) h = create_object-IsOwned _ (Program-IsOwned _ p) h
Program-IsOwned s (moves i p) h = move_construct-IsOwned _ i (Program-IsOwned _ p) h
Program-IsOwned s (assigns i j lt p) h = move_assign-IsOwned _ i j lt (Program-IsOwned _ p) h
Program-IsOwned s (resets i p) h = (reset_lem _ i (Program-IsOwned _ p)).0 h
