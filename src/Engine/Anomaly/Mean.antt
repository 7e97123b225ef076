-- ===== src/Engine/Anomaly/Mean.antt =====
-- The sum of the window in `DetectAnomaly` of src/engine.cpp, in terms of the visible entries.
use chronos_vector.Base.{
  ℕ, zero, suc, ◌+◌, ◌-◌, ◌*◌, ◌≤◌, ◌≡◌, refl, ap, ap₂, sym, ◌∙◌, inl, inr, true, false, List, [],
  ◌∷◌, ◌%◌, take, drop, length, length-append, take-append_length, drop-append_length,
  if◌then◌else◌, ◌++◌, append-nil, map, replicate, min, ltb, arith, Bool-cases,
}
use chronos_vector.Base.Memory.{read_bytes}
use chronos_vector.Bytes.{get_u32s}
use chronos_vector.Types.{dtype_float32, dtype_size}
use chronos_vector.Ring.{Ring, Entry, slot, sub_u64}
use chronos_vector.Ring.Inv.{IsValid, slot_mod, slot-lt}
use chronos_vector.Ring.Window.{entries}
use chronos_vector.Kernels.{Floats, f0}
use chronos_vector.Engine.Anomaly.{add_floats, chunk_sum, window_sum}
use chronos_vector.Engine.Scores.Rows.{slots_from, chunk_words}
use chronos_vector.Engine.Scores.Runs.{when_true}
use chronos_vector.Engine.Scores.Wrap.{row_entry, map-entries, map_cong, two_runs}

-- The lists one after the other.
unfoldable pub flat : List (List ℕ) → List ℕ
flat [] = []
flat (xs ∷ xss) = xs ++ flat xss

-- The vectors of the entries, as floats.
abbrev pub vectors_of : ℕ → List Entry → List (List ℕ)
vectors_of dim xs = map (λ x. get_u32s dim x.vec) xs

-- The sum of the vectors, entry by entry, with the second part added on its own where there is one.
unfoldable pub total_of : Floats → ℕ → List (List ℕ) → List (List ℕ) → List ℕ
unfolding flat
total_of fl dim older [] = add_floats fl (replicate dim f0) (fl.row_sums dim (flat older))
total_of fl dim older (v ∷ newer) =
    add_floats fl (add_floats fl (replicate dim f0) (fl.row_sums dim (flat older)))
      (fl.row_sums dim (flat (v ∷ newer)))

take_past {ℓ} : {A : Type ℓ} (k : ℕ) (xs : List A) → length xs ≤ k → take k xs ≡ xs
take_past zero [] h = refl
take_past zero (x ∷ xs) h = absurd (omega arith)
take_past (suc k) [] h = refl
take_past (suc k) (x ∷ xs) h = ap (λ t. x ∷ t) (take_past k xs (omega arith))

drop_past {ℓ} : {A : Type ℓ} (k : ℕ) (xs : List A) → length xs ≤ k → drop k xs ≡ []
drop_past zero [] h = refl
drop_past zero (x ∷ xs) h = absurd (omega arith)
drop_past (suc k) [] h = refl
drop_past (suc k) (x ∷ xs) h = drop_past k xs (omega arith)

length-slots : {B : Type 0} (g : ℕ → B) (s n : ℕ) → length (map g (slots_from s n)) ≡ n
length-slots g s zero = refl
length-slots g s (suc n) = ap suc (length-slots g (s + 1) n)

min_short : (f n k : ℕ) → f ≡ min n k → ltb f n ≡ true → k ≡ f
min_short f n k e h = ground arith

min_past : (f n k : ℕ) → f ≡ min n k → ltb f n ≡ false → n ≤ k
min_past f n k e h = ground arith

chunk_floats :
    (m : ℕ → ℕ) (start n dim : ℕ)
    → get_u32s (n * dim) (read_bytes m (start * dim * 4) (n * dim * 4))
      ≡ flat (map (λ j. get_u32s dim (read_bytes m (j * dim * 4) (dim * 4))) (slots_from start n))
unfolding flat get_u32s read_bytes
chunk_floats m start zero dim =
    ap (λ k. get_u32s k (read_bytes m (start * dim * 4) (k * 4))) (no_rows dim)
  where
    no_rows : (dim : ℕ) → 0 * dim ≡ 0
    no_rows dim = omega arith
chunk_floats m start (suc n) dim =
    chunk_words m start n dim
    ∙ ap (λ t. get_u32s dim (read_bytes m (start * dim * 4) (dim * 4)) ++ t)
        (chunk_floats m (start + 1) n dim)

module _ (fl : Floats) (r : Ring) (v : IsValid r) (dtype : r.dtype ≡ dtype_float32) (begin n : ℕ)
    (h : n ≤ r.capacity) where
  abbrev row_at : ℕ → List ℕ
  row_at j = get_u32s r.dim (read_bytes r.vectors (j * r.dim * 4) (r.dim * 4))

  abbrev first : ℕ
  first = min n (sub_u64 r.capacity (slot r begin))

  -- The indices before the end of the arrays.
  abbrev room : ℕ
  room = r.capacity - begin % r.capacity

  first_lem : first ≡ min n room
  first_lem = omega (arith, slot_mod v begin, slot-lt v begin, v.capacity_word)

  abbrev older : List (List ℕ)
  older = map row_at (slots_from (slot r begin) first)

  abbrev newer : List (List ℕ)
  newer = map row_at (slots_from 0 (n - first))

  abbrev window : List (List ℕ)
  window = vectors_of r.dim (entries r begin n)

  at_slot : (j : ℕ) → get_u32s r.dim (row_entry r j).vec ≡ row_at j
  at_slot j =
      ap₂ (λ off k. get_u32s r.dim (read_bytes r.vectors off k))
        (ap (λ t. j * (r.dim * dtype_size t)) dtype ∙ assoc j r.dim)
        (ap (λ t. r.dim * dtype_size t) dtype)
    where
      assoc : (j d : ℕ) → j * (d * 4) ≡ j * d * 4
      assoc j d = omega arith

  parts : window ≡ older ++ newer
  parts =
      map-entries (λ x. get_u32s r.dim x.vec) r begin n
      ∙ map_cong _ _ (λ i. at_slot (slot r i)) (slots_from begin n)
      ∙ two_runs r v row_at begin n h

  length-window : length window ≡ n
  length-window = omega (
    arith,
    ap length parts,
    length-append older newer,
    length-slots row_at (slot r begin) first,
    length-slots row_at 0 (n - first),
  )

  -- Some indices wrap around, or none do.
  full : ltb first n ≡ true → room ≡ first
  full more = min_short first n room first_lem more

  short : ltb first n ≡ false → length window ≤ room
  short whole = omega (arith, length-window, min_past first n room first_lem whole)

  no_more : ltb first n ≡ false → n - first ≡ 0
  no_more whole = ground arith

  older_lem : take room window ≡ older
  older_lem = elim (Bool-cases (ltb first n)) [
    | inl more ↦
        ap₂ take (full more) parts
        ∙ take-append_length first older newer (length-slots row_at (slot r begin) first)
    | inr whole ↦
        take_past room window (short whole)
        ∙ parts
        ∙ ap (λ k. older ++ map row_at (slots_from 0 k)) (no_more whole)
        ∙ append-nil older
  ]

  newer_lem : drop room window ≡ newer
  newer_lem = elim (Bool-cases (ltb first n)) [
    | inl more ↦
        ap₂ drop (full more) parts
        ∙ drop-append_length first older newer (length-slots row_at (slot r begin) first)
    | inr whole ↦
        drop_past room window (short whole)
        ∙ sym (ap (λ k. map row_at (slots_from 0 k)) (no_more whole))
  ]

  abbrev zeros : List ℕ
  zeros = replicate r.dim f0

  chunk_sums :
      (start k : ℕ)
      → chunk_sum fl r r.dim start k ≡ fl.row_sums r.dim (flat (map row_at (slots_from start k)))
  unfolding chunk_sum
  chunk_sums start k = ap (fl.row_sums r.dim) (chunk_floats r.vectors start k r.dim)

  total_chunks :
      (k : ℕ)
      → total_of fl r.dim older (map row_at (slots_from 0 k)) ≡ (
          if ltb 0 k
          then add_floats fl
              (add_floats fl zeros (fl.row_sums r.dim (flat older)))
              (fl.row_sums r.dim (flat (map row_at (slots_from 0 k))))
          else add_floats fl zeros (fl.row_sums r.dim (flat older)))
  unfolding total_of
  total_chunks zero = refl
  total_chunks (suc k) = sym (when_true (ltb 0 (suc k)) _ _ (some_left k))
    where
      some_left : (k : ℕ) → ltb 0 (suc k) ≡ true
      some_left k = ground arith

  -- `DetectAnomaly` sums the vectors of the entries of the snapshot, each once and in order: those up to the end
  -- of the array, then those after it.
  pub window_sum-entries :
      window_sum fl r r.dim begin n ≡ total_of fl r.dim (take room window) (drop room window)
  unfolding window_sum
  window_sum-entries =
      ap₂
        (λ a b.
          if ltb first n then add_floats fl (add_floats fl zeros a) b else add_floats fl zeros a)
        (chunk_sums (slot r begin) first) (chunk_sums 0 (n - first))
      ∙ ap
          (λ t.
            if t
            then add_floats fl (add_floats fl zeros (fl.row_sums r.dim (flat older)))
                (fl.row_sums r.dim (flat newer))
            else add_floats fl zeros (fl.row_sums r.dim (flat older)))
          same_test
      ∙ sym (total_chunks (n - first))
      ∙ sym (ap₂ (total_of fl r.dim) older_lem newer_lem)
    where
      same_test : ltb first n ≡ ltb 0 (n - first)
      same_test = ground arith
