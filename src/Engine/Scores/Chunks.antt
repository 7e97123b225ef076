-- ===== src/Engine/Scores/Chunks.antt =====
-- `FillScoresForRange` of src/engine.cpp scores the visible entries one by one, wherever the range wraps.
use chronos_vector.Base.{
  ℕ, ◌-◌, ◌*◌, ◌≤◌, ◌≡◌, ap, ap₂, sym, ◌∙◌, ◌⊎◌, inl, inr, true, false, some, [], ◌++◌, map, arith,
  min, ltb, ◌==◌, if◌then◌else◌, Bool-cases,
}
use chronos_vector.Base.Memory.{read_bytes}
use chronos_vector.Bytes.{get_u32s}
use chronos_vector.Types.{dtype_int8, dtype_float32, dtype_size}
use chronos_vector.Ring.{Ring, slot, sub_u64}
use chronos_vector.Ring.Inv.{IsValid}
use chronos_vector.Ring.Window.{entries}
use chronos_vector.Kernels.{Floats, ints_i8}
use chronos_vector.Engine.Scores.{Query, run_i8, run_f32, joined, fill_scores}
use chronos_vector.Engine.Scores.Rows.{all_some, slots_from}
use chronos_vector.Engine.Scores.Wrap.{row_entry, map-entries, map_cong, two_runs, entry_score}
use chronos_vector.Engine.Scores.Runs.{
  f32_score, i8_score, all_some-map, all_some-append, when_true, when_false, f32_at, i8_at,
  run_f32_lem, run_i8_lem,
}

module _ (fl : Floats) (r : Ring) (q : Query) where
  -- The runs that the wrap test leaves out are empty.
  rest_f32 :
      (first n : ℕ)
      → first ≤ n
      → (if ltb first n then run_f32 fl r q r.dim 0 (n - first) else [])
        ≡ map (f32_at fl r q) (slots_from 0 (n - first))
  rest_f32 first n le = elim (Bool-cases (ltb first n)) [
    | inl more ↦
        ap (λ z. if z then run_f32 fl r q r.dim 0 (n - first) else []) more
        ∙ run_f32_lem fl r q 0 (n - first)
    | inr whole ↦
        ap (λ z. if z then run_f32 fl r q r.dim 0 (n - first) else []) whole
        ∙ ap (λ k. map (f32_at fl r q) (slots_from 0 k)) (none_left whole)
  ]
    where
      none_left : ltb first n ≡ false → 0 ≡ n - first
      none_left h = ground arith

  rest_i8 :
      (first n : ℕ)
      → first ≤ n
      → (if ltb first n then run_i8 fl r q r.dim 0 (n - first) else some [])
        ≡ all_some (map (i8_at fl r q) (slots_from 0 (n - first)))
  unfolding all_some
  rest_i8 first n le = elim (Bool-cases (ltb first n)) [
    | inl more ↦
        ap (λ z. if z then run_i8 fl r q r.dim 0 (n - first) else some []) more
        ∙ run_i8_lem fl r q 0 (n - first)
    | inr whole ↦
        ap (λ z. if z then run_i8 fl r q r.dim 0 (n - first) else some []) whole
        ∙ ap (λ k. all_some (map (i8_at fl r q) (slots_from 0 k))) (none_left whole)
  ]
    where
      none_left : ltb first n ≡ false → 0 ≡ n - first
      none_left h = ground arith

  -- The score of an entry is the score at its slot.
  f32_entry :
      r.dtype ≡ dtype_float32
      → (j : ℕ) → entry_score fl false q r.dim (row_entry r j) ≡ some ((f32_at fl r q) j)
  unfolding entry_score
  f32_entry e j =
      ap₂ (λ off k. some (f32_score fl q (get_u32s r.dim (read_bytes r.vectors off k)) (r.norms j)))
        (ap (λ t. j * (r.dim * dtype_size t)) e ∙ assoc j r.dim) (ap (λ t. r.dim * dtype_size t) e)
    where
      assoc : (j d : ℕ) → j * (d * 4) ≡ j * d * 4
      assoc j d = omega arith

  i8_entry :
      r.dtype ≡ dtype_int8
      → (j : ℕ) → entry_score fl true q r.dim (row_entry r j) ≡ (i8_at fl r q) j
  unfolding entry_score
  i8_entry e j =
      ap
        (λ t.
          i8_score fl q
            (ints_i8 (read_bytes r.vectors (j * (r.dim * dtype_size t)) (r.dim * dtype_size t)))
            (if t == dtype_int8 then r.scales j else 0) (r.norms j))
        e
      ∙ ap₂ (λ off k. i8_score fl q (ints_i8 (read_bytes r.vectors off k)) (r.scales j) (r.norms j))
          (one_byte j r.dim) (one r.dim)
    where
      one_byte : (j d : ℕ) → j * (d * 1) ≡ j * d
      one_byte j d = omega arith

      one : (d : ℕ) → d * 1 ≡ d
      one d = omega arith

  module _ (v : IsValid r) (begin n : ℕ) (h : n ≤ r.capacity) where
    first : ℕ
    first = min n (sub_u64 r.capacity (slot r begin))

    first-le : first ≤ n
    unfolding first
    first-le = omega arith

    scored_f32 :
        (r.dtype == dtype_int8) ≡ false
        → fill_scores fl r q r.dim begin n
          ≡ some (
              map (f32_at fl r q) (slots_from (slot r begin) first)
              ++ map (f32_at fl r q) (slots_from 0 (n - first)))
    unfolding fill_scores first
    scored_f32 z =
        when_false _ _ _ z
        ∙ ap some (ap₂ ◌++◌ (run_f32_lem fl r q (slot r begin) first) (rest_f32 first n first-le))

    scored_i8 :
        (r.dtype == dtype_int8) ≡ true
        → fill_scores fl r q r.dim begin n
          ≡ joined
              (all_some (map (i8_at fl r q) (slots_from (slot r begin) first)))
              (all_some (map (i8_at fl r q) (slots_from 0 (n - first))))
    unfolding fill_scores first
    scored_i8 z =
        when_true _ _ _ z
        ∙ ap₂ joined (run_i8_lem fl r q (slot r begin) first) (rest_i8 first n first-le)

    fill_f32 :
        r.dtype ≡ dtype_float32
        → fill_scores fl r q r.dim begin n
          ≡ all_some (map (entry_score fl false q r.dim) (entries r begin n))
    unfolding first
    fill_f32 e =
        scored_f32 (ap (λ t. t == dtype_int8) e)
        ∙ ap some (sym (two_runs r v (f32_at fl r q) begin n h))
        ∙ sym (all_some-map (λ i. (f32_at fl r q) (slot r i)) (slots_from begin n))
        ∙ ap all_some (
            sym (
              map-entries (entry_score fl false q r.dim) r begin n
              ∙ map_cong _ _ (λ i. f32_entry e (slot r i)) (slots_from begin n)))

    fill_i8 :
        r.dtype ≡ dtype_int8
        → fill_scores fl r q r.dim begin n
          ≡ all_some (map (entry_score fl true q r.dim) (entries r begin n))
    unfolding first
    fill_i8 e =
        scored_i8 (ap (λ t. t == dtype_int8) e)
        ∙ sym (
            all_some-append (map (i8_at fl r q) (slots_from (slot r begin) first))
              (map (i8_at fl r q) (slots_from 0 (n - first))))
        ∙ ap all_some (sym (two_runs r v (i8_at fl r q) begin n h))
        ∙ ap all_some (
            sym (
              map-entries (entry_score fl true q r.dim) r begin n
              ∙ map_cong _ _ (λ i. i8_entry e (slot r i)) (slots_from begin n)))

  -- `FillScoresForRange` over at most `capacity` entries of a valid float32 or INT8 ring gives the
  -- scores of those entries, each by itself and in order, also where the range wraps around the end of the
  -- arrays and is handed to the kernel as two chunks.
  pub fill_scores-entries :
      IsValid r
      → (r.dtype ≡ dtype_float32) ⊎ (r.dtype ≡ dtype_int8)
      → (begin n : ℕ) → n ≤ r.capacity
      → fill_scores fl r q r.dim begin n
        ≡ all_some (map (entry_score fl (r.dtype == dtype_int8) q r.dim) (entries r begin n))
  fill_scores-entries v (inl e) begin n h =
      fill_f32 v begin n h e
      ∙ ap (λ z. all_some (map (entry_score fl z q r.dim) (entries r begin n)))
          (sym (ap (λ t. t == dtype_int8) e))
  fill_scores-entries v (inr e) begin n h =
      fill_i8 v begin n h e
      ∙ ap (λ z. all_some (map (entry_score fl z q r.dim) (entries r begin n)))
          (sym (ap (λ t. t == dtype_int8) e))
