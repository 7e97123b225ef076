-- ===== src/Engine/Nearest/Insertion.antt =====
-- Functions that meet the contracts of `std::push_heap`, `std::pop_heap` and `std::sort`: a heap kept in order, the worst
-- item first.
use mathlib.Core.List.Permᴰ
use mathlib.Core.List.{Permᴰ}
use chronos_vector.Base.{
  ◌≡◌, refl, Bool, false, List, [], ◌∷◌, ◌++◌, All, All-append, if◌then◌else◌, Bool-cases, inl, inr,
}
use chronos_vector.Engine.Nearest.{Scored, HeapOps}
use chronos_vector.Engine.Nearest.Order.{IsOrder, IsSorted, HeapLaws, All-PermD}

insert : (Scored → Scored → Bool) → Scored → List Scored → List Scored
insert cmp x [] = x ∷ []
insert cmp x (y ∷ ys) = let rest = insert cmp x ys in if cmp y x then y ∷ rest else x ∷ y ∷ ys

insertion_sort : (Scored → Scored → Bool) → List Scored → List Scored
unfolding insert
insertion_sort cmp [] = []
insertion_sort cmp (x ∷ xs) = insert cmp x (insertion_sort cmp xs)

-- The order the other way round.
abbrev opposite : (Scored → Scored → Bool) → Scored → Scored → Bool
opposite cmp a b = cmp b a

rotate : List Scored → List Scored
rotate [] = []
rotate (w ∷ xs) = xs ++ (w ∷ [])

pub ordered_heap : HeapOps
unfolding insertion_sort rotate
ordered_heap = record {
  push_heap = λ cmp. insertion_sort (opposite cmp);
  pop_heap = λ cmp. rotate;
  sort = insertion_sort;
}

module _ (cmp : Scored → Scored → Bool) (P : Scored → Type 0) (o : IsOrder cmp P) where
  insert-PermD : (x : Scored) (ys : List Scored) → Permᴰ (insert cmp x ys) (x ∷ ys)
  unfolding insert
  insert-PermD x [] = Permᴰ.refl (x ∷ [])
  insert-PermD x (y ∷ ys) = elim (Bool-cases (cmp y x)) [
    | inl first ↦
        rw (insert, first)
          (Permᴰ.trans (Permᴰ.cons refl (insert-PermD x ys)) (Permᴰ.swap refl refl))
    | inr last ↦ rw (insert, last) (Permᴰ.refl (x ∷ y ∷ ys))
  ]

  sort-PermD : (xs : List Scored) → Permᴰ (insertion_sort cmp xs) xs
  unfolding insertion_sort
  sort-PermD [] = Permᴰ.nil
  sort-PermD (x ∷ xs) =
      Permᴰ.trans (insert-PermD x (insertion_sort cmp xs)) (Permᴰ.cons refl (sort-PermD xs))

  -- What is not better than `y` is not better than what `y` is not worse than.
  not_better :
      (x y : Scored) (ys : List Scored)
      → P x
      → P y
      → All P ys
      → cmp y x ≡ false
      → All (λ z. cmp z y ≡ false) ys
      → All (λ z. cmp z x ≡ false) ys
  not_better x y [] px py ps h hs = tt
  not_better x y (z ∷ ys) px py (pz, ps) h (k, hs) =
      (o.neg_trans z y x pz py px k h, not_better x y ys px py ps h hs)

  insert-IsSorted :
      (x : Scored) (ys : List Scored)
      → P x
      → All P ys
      → IsSorted cmp ys
      → IsSorted cmp (insert cmp x ys)
  unfolding insert
  insert-IsSorted x [] px ps s = (tt, tt)
  insert-IsSorted x (y ∷ ys) px (py, ps) (first_y, s) = elim (Bool-cases (cmp y x)) [
    | inl first ↦
        rw (insert, first)
          (
            All-PermD (λ z. cmp z y ≡ false) (Permᴰ.symm (insert-PermD x ys))
                (o.asym y x py px first, first_y),
            insert-IsSorted x ys px ps s,
          )
    | inr last ↦ rw (insert, last) ((last, not_better x y ys px py ps last first_y), (first_y, s))
  ]

  sort-IsSorted : (xs : List Scored) → All P xs → IsSorted cmp (insertion_sort cmp xs)
  unfolding insertion_sort
  sort-IsSorted [] ps = tt
  sort-IsSorted (x ∷ xs) (px, ps) =
      insert-IsSorted x (insertion_sort cmp xs) px (All-PermD P (Permᴰ.symm (sort-PermD xs)) ps)
        (sort-IsSorted xs ps)

opposite-IsOrder :
    (cmp : Scored → Scored → Bool) (P : Scored → Type 0) → IsOrder cmp P → IsOrder (opposite cmp) P
opposite-IsOrder cmp P o = record {
  asym = λ a b pa pb h. o.asym b a pb pa h;
  neg_trans = λ a b c pa pb pc h k. o.neg_trans c b a pc pb pa k h;
}

pub ordered_heap-laws :
    (cmp : Scored → Scored → Bool) (P : Scored → Type 0)
    → IsOrder cmp P
    → HeapLaws ordered_heap cmp P
unfolding ordered_heap rotate
ordered_heap-laws cmp P o =
    let q = opposite-IsOrder cmp P o in
    record {
      IsHeap = IsSorted (opposite cmp);
      empty_heap = tt;
      front = λ w xs h. h.0;
      push = λ xs x ps px h. (
        sort-IsSorted (opposite cmp) P q (xs ++ (x ∷ [])) (All-append P xs (x ∷ []) ps (px, tt)),
        sort-PermD (opposite cmp) P q (xs ++ (x ∷ [])),
      );
      pop = λ w xs ps h. (xs, refl, h.1, Permᴰ.refl xs);
      sorts = λ xs ps. (sort-IsSorted cmp P o xs ps, sort-PermD cmp P o xs);
    }
