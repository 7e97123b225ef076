-- ===== src/Engine/Nearest/Best.antt =====
-- What `QueryNearestN` of src/engine.cpp promises of its answer, and one step of its selection loop.
use mathlib.Core.List.Permᴰ
use mathlib.Core.List.{Permᴰ}
use chronos_vector.Base.{
  ℕ, suc, ◌+◌, ◌≡◌, refl, ap, subst, ◌∙◌, Bool, true, false, List, [], ◌∷◌, ◌++◌, All, length, ltb,
  append-nil,
}
use chronos_vector.Engine.Nearest.{Scored, HeapOps, top_step, set_back}
use chronos_vector.Engine.Nearest.Order.{IsSorted}

pub length-PermD : {xs ys : List Scored} → Permᴰ xs ys → length xs ≡ length ys
length-PermD Permᴰ.nil = refl
length-PermD (Permᴰ.cons e p) = ap suc (length-PermD p)
length-PermD (Permᴰ.swap e f) = refl
length-PermD (Permᴰ.trans p q) = length-PermD p ∙ length-PermD q

All-map {ℓ} :
    {A : Type ℓ} {P Q : A → Type 0} → ((a : A) → P a → Q a) → (xs : List A) → All P xs → All Q xs
All-map f [] h = tt
All-map f (x ∷ xs) (h, hs) = (f x h, All-map f xs hs)

-- The scores with the places of their entries, from place `i` on.
unfoldable pub placed : List ℕ → ℕ → List Scored
placed [] i = []
placed (s ∷ ss) i = (s, i) ∷ placed ss (i + 1)

pub length-placed : (ss : List ℕ) (i : ℕ) → length (placed ss i) ≡ length ss
unfolding placed
length-placed [] i = refl
length-placed (s ∷ ss) i = ap suc (length-placed ss (i + 1))

-- `top` is the best `k` of the scores, best first, and `rest` are the others: none of them is better.
pub record IsBest (cmp : Scored → Scored → Bool) (scores : List ℕ) (k : ℕ) (top rest : List Scored)
    : Type 0 where
  pub count : length top ≡ k
  pub in_order : IsSorted cmp top
  pub same : Permᴰ (top ++ rest) (placed scores 0)
  pub beaten : All (λ y. All (λ z. cmp z y ≡ false) rest) top

pub set_back-snoc : (ys : List Scored) (w x : Scored) → set_back (ys ++ (w ∷ [])) x ≡ ys ++ (x ∷ [])
set_back-snoc [] w x = refl
set_back-snoc (y ∷ []) w x = refl
set_back-snoc (y ∷ z ∷ ys) w x = ap (λ t. y ∷ t) (set_back-snoc (z ∷ ys) w x)

pub snoc-PermD : (xs : List Scored) (x : Scored) → Permᴰ (xs ++ (x ∷ [])) (x ∷ xs)
snoc-PermD xs x = subst (λ t. Permᴰ (xs ++ (x ∷ [])) (x ∷ t)) (append-nil xs) (Permᴰ.middle x xs [])

module _ (ops : HeapOps) (cmp : Scored → Scored → Bool) (k : ℕ) (x : Scored) where
  pub grow_lem :
      (heap : List Scored)
      → ltb (length heap) k ≡ true
      → top_step ops cmp k x heap ≡ ops.push_heap cmp (heap ++ (x ∷ []))
  unfolding top_step
  grow_lem heap h = rw (top_step, h) refl

  pub replace_lem :
      (w : Scored) (l : List Scored)
      → ltb (length (w ∷ l)) k ≡ false
      → cmp x w ≡ true
      → top_step ops cmp k x (w ∷ l) ≡ ops.push_heap cmp (set_back (ops.pop_heap cmp (w ∷ l)) x)
  unfolding top_step
  replace_lem w l h wins = rw (top_step, h, wins) refl

  pub keep_lem :
      (w : Scored) (l : List Scored)
      → ltb (length (w ∷ l)) k ≡ false
      → cmp x w ≡ false
      → top_step ops cmp k x (w ∷ l) ≡ w ∷ l
  unfolding top_step
  keep_lem w l h loses = rw (top_step, h, loses) refl

pub beaten_nil :
    (cmp : Scored → Scored → Bool) (h : List Scored) → All (λ t. All (λ x. cmp x t ≡ false) []) h
beaten_nil cmp [] = tt
beaten_nil cmp (t ∷ h) = (tt, beaten_nil cmp h)
