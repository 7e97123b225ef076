-- ===== src/Engine/Scores/Wrap.antt =====
-- The slots of a range of indices of the ring, as one run or two, for `FillScoresForRange` of src/engine.cpp.
use native.Mathlib.Nat.{mul-mod_left, add-mul-mod_self_right, mod-eq_of_lt, div-add-mod, mod-lt}
use chronos_vector.Base.{
  ℕ, zero, suc, ◌+◌, ◌-◌, ◌*◌, ◌/◌, ◌%◌, ◌≤◌, ◌<◌, ◌≡◌, refl, ap, ap₂, sym, ◌∙◌, ◌⊎◌, inl, inr,
  Bool, ◌||◌, Option, some, List, [], ◌∷◌, ◌++◌, map, arith, min, ltb, ◌==◌, if◌then◌else◌,
  Bool-cases, tests,
}
use chronos_vector.Base.Memory.{read_bytes}
use chronos_vector.Bytes.{get_u32s}
use chronos_vector.Types.{dtype_int8}
use chronos_vector.Ring.{Ring, Entry, slot, vsz, entry_at, sub_u64}
use chronos_vector.Ring.Inv.{IsValid, slot_mod, slot-lt}
use chronos_vector.Ring.Window.{entries}
use chronos_vector.Kernels.{Floats, f0, ints_i8, not_positive, cosine_i8_score, euclidean_i8_score}
use chronos_vector.Kernels.Float32.{cosine_f32_score, euclidean_f32_score}
use chronos_vector.Engine.Scores.{Query}
use chronos_vector.Engine.Scores.Rows.{slots_from}

-- The next index has the next slot, or slot 0 past the end.
next_mod : (b c : ℕ) → b % c + 1 < c → (b + 1) % c ≡ b % c + 1
next_mod b c h =
    let e : b + 1 ≡ b % c + 1 + b / c * c = omega (arith, div-add-mod b c) in
    ap (λ k. k % c) e ∙ add-mul-mod_self_right (b % c + 1) (b / c) c ∙ mod-eq_of_lt h

wrap_mod : (b c : ℕ) → 0 < c → (b + (c - b % c)) % c ≡ 0
wrap_mod b c h =
    let e : b + (c - b % c) ≡ (b / c + 1) * c = omega (arith, div-add-mod b c, mod-lt b h) in
    ap (λ k. k % c) e ∙ mul-mod_left (b / c + 1) c

-- What physical slot `j` holds.
abbrev pub row_entry : Ring → ℕ → Entry
row_entry r j = record {
  ts = r.timestamps j;
  vec = read_bytes r.vectors (j * vsz r) (vsz r);
  norm = r.norms j;
  scale = if r.dtype == dtype_int8 then r.scales j else 0;
  payload = read_bytes r.payloads (j * r.payload_size) r.payload_size;
}

-- The score of one entry; `is_i8` is whether the ring stores INT8.
unfoldable pub entry_score : Floats → Bool → Query → ℕ → Entry → Option ℕ
entry_score fl is_i8 q dim x =
    if is_i8
    then if q.is_cosine
      then if not_positive fl q.qn || not_positive fl q.q_scale
        then some f0
        else cosine_i8_score fl (ints_i8 x.vec) x.scale x.norm q.q_i8 q.q_scale q.qn
      else euclidean_i8_score fl (ints_i8 x.vec) x.scale x.norm q.q_i8 q.q_scale q.qn
    else some (
        if q.is_cosine
        then cosine_f32_score fl (get_u32s dim x.vec) x.norm q.q_f32 q.qn
        else euclidean_f32_score fl (get_u32s dim x.vec) x.norm q.q_f32 q.qn)

pub map-entries :
    {B : Type 0} (h : Entry → B) (r : Ring) (begin n : ℕ)
    → map h (entries r begin n) ≡ map (λ i. h (row_entry r (slot r i))) (slots_from begin n)
unfolding entries entry_at
map-entries h r begin zero = refl
map-entries h r begin (suc n) =
    ap (λ t. h (row_entry r (slot r begin)) ∷ t) (map-entries h r (begin + 1) n)

pub map-append {ℓ κ} :
    {A : Type ℓ} {B : Type κ} (f : A → B) (xs ys : List A) → map f (xs ++ ys) ≡ map f xs ++ map f ys
map-append f [] ys = refl
map-append f (x ∷ xs) ys = ap (λ t. f x ∷ t) (map-append f xs ys)

pub map_cong {ℓ κ} :
    {A : Type ℓ} {B : Type κ} (f g : A → B)
    → ((a : A) → f a ≡ g a)
    → (xs : List A) → map f xs ≡ map g xs
map_cong f g h [] = refl
map_cong f g h (x ∷ xs) = ap₂ ◌∷◌ (h x) (map_cong f g h xs)

module _ (r : Ring) (v : IsValid r) {B : Type 0} (g : ℕ → B) where
  abbrev through : ℕ → ℕ → List B
  through begin n = map (λ i. g (slot r i)) (slots_from begin n)

  -- A run of indices that stays before the end of the arrays.
  one_run :
      (begin s n : ℕ)
      → slot r begin ≡ s
      → s + n ≤ r.capacity
      → through begin n ≡ map g (slots_from s n)
  one_run begin s zero e h = refl
  one_run begin s (suc zero) e h = ap (λ j. g j ∷ []) e
  one_run begin s (suc (suc n)) e h =
      ap₂ (λ j t. g j ∷ t) e (one_run (begin + 1) (s + 1) (suc n) step (omega arith))
    where
      step : slot r (begin + 1) ≡ s + 1
      step =
          slot_mod v (begin + 1)
          ∙ next_mod begin r.capacity (omega (arith, sym (slot_mod v begin) ∙ e))
          ∙ ap (λ k. k + 1) (sym (slot_mod v begin) ∙ e)

  split_run : (begin a b : ℕ) → through begin (a + b) ≡ through begin a ++ through (begin + a) b
  split_run begin zero b = ap₂ through (omega arith) (omega arith)
  split_run begin (suc a) b =
      ap (through begin) (suc_plus a b)
      ∙ ap (λ t. g (slot r begin) ∷ t)
          (split_run (begin + 1) a b
            ∙ ap (λ k. through (begin + 1) a ++ through k b) (plus_suc begin a))
    where
      suc_plus : (a b : ℕ) → suc a + b ≡ suc (a + b)
      suc_plus a b = omega arith

      plus_suc : (begin a : ℕ) → begin + 1 + a ≡ begin + suc a
      plus_suc begin a = omega arith

  -- `n` indices, at most a capacity of them, are one or two runs of slots.
  abbrev first_run : ℕ → ℕ → ℕ
  first_run begin n = min n (sub_u64 r.capacity (slot r begin))

  first_run_lem : (begin n : ℕ) → first_run begin n ≡ min n (r.capacity - slot r begin)
  first_run_lem begin n = omega (arith, slot-lt v begin, v.capacity_word)

  second_run :
      (b k : ℕ) → (k ≡ 0) ⊎ (slot r b ≡ 0) → k ≤ r.capacity → through b k ≡ map g (slots_from 0 k)
  second_run b zero w h = refl
  second_run b (suc k) (inl e) h = absurd (omega arith)
  second_run b (suc k) (inr e) h = one_run b 0 (suc k) e (omega arith)

  wraps : (begin n : ℕ) → (n - first_run begin n ≡ 0) ⊎ (slot r (begin + first_run begin n) ≡ 0)
  wraps begin n = elim (Bool-cases (ltb (first_run begin n) n)) [
    | inl more ↦
        let full : begin + first_run begin n ≡ begin + (r.capacity - begin % r.capacity) =
          omega (tests, first_run_lem begin n, slot_mod v begin) in
        inr (
          slot_mod v (begin + first_run begin n)
          ∙ ap (λ k. k % r.capacity) full
          ∙ wrap_mod begin r.capacity (omega (arith, v.capacity_min)))
    | inr whole ↦ inl (ground arith)
  ]

  pub two_runs :
      (begin n : ℕ)
      → n ≤ r.capacity
      → through begin n
        ≡ map g (slots_from (slot r begin) (first_run begin n))
          ++ map g (slots_from 0 (n - first_run begin n))
  two_runs begin n h =
      ap (through begin) (parts (first_run begin n) (omega (arith, first_run_lem begin n)))
      ∙ split_run begin (first_run begin n) (n - first_run begin n)
      ∙ ap₂ ◌++◌
          (one_run begin (slot r begin) (first_run begin n) refl
            (omega (arith, first_run_lem begin n, slot-lt v begin)))
          (second_run (begin + first_run begin n) (n - first_run begin n) (wraps begin n)
            (omega arith))
    where
      parts : (f : ℕ) → f ≤ n → n ≡ f + (n - f)
      parts f le = omega arith
