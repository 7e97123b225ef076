-- ===== src/Engine/Evict/Cut.antt =====
-- What `EvictSensor` of src/engine.cpp takes from a ring and what it persists, in terms of the visible entries.
use chronos_vector.Base.{
  ℕ, zero, suc, ◌+◌, ◌-◌, ◌*◌, ◌≤◌, ◌≡◌, refl, ap, sym, ◌∙◌, true, false, Option, none, some, List,
  [], ◌∷◌, ◌++◌, map, length, take, drop, length-append, take-append_length, arith, ◌==◌,
  if◌then◌else◌, inl, inr, Bool-cases,
}
use chronos_vector.Base.Int.{ℤ, ltb_ℤ}
use chronos_vector.Base.Memory.{length-read_bytes, read_bytes}
use chronos_vector.Codec.{Block}
use chronos_vector.Validation.{is_zero}
use chronos_vector.Ring.{Ring, Entry, snapshot, advance_tail, entry_at, vsz, slot}
use chronos_vector.Ring.Inv.{IsValid}
use chronos_vector.Ring.Window.{entries, contents, length-entries}
use chronos_vector.Ring.Refine.{contents-advance_tail_lem}
use chronos_vector.Engine.{Bytes, Backend, Engine, SensorSlot}
use chronos_vector.Engine.Evict.{
  max_ts, leading_end, cutoff_of, new_tail, sub_i64, int64_min, timestamp_column, vector_column,
  is_ok_code, over, copy_out, evicted_block, evict_entries, evict_sensor, failed_growth,
}

-- The latest timestamp of some entries, `m` at least.
unfoldable pub latest : List Entry → ℤ → ℤ
latest [] m = m
latest (x ∷ xs) m = latest xs (if ltb_ℤ m x.ts then x.ts else m)

-- How many entries at the front are older than the cutoff.
unfoldable pub old_run : ℤ → List Entry → ℕ
old_run cutoff [] = 0
old_run cutoff (x ∷ xs) = let rest = old_run cutoff xs in if ltb_ℤ x.ts cutoff then suc rest else 0

-- How many entries one pass takes: all of them for a window of 0, else those at the front that are
-- older than the latest timestamp less the window.
unfoldable pub evicted_count : ℤ → List Entry → ℕ
evicted_count window_ms xs =
    if is_zero window_ms then length xs else old_run (sub_i64 (latest xs int64_min) window_ms) xs

-- The bytes of the vectors, one after the other.
unfoldable pub joined_vectors : List Entry → List ℕ
joined_vectors [] = []
joined_vectors (x ∷ xs) = x.vec ++ joined_vectors xs

abbrev pub ts_of : Entry → ℤ
ts_of x = x.ts

max_ts_lem : (r : Ring) (n idx : ℕ) (m : ℤ) → max_ts r n idx m ≡ latest (entries r idx n) m
unfolding max_ts latest entries entry_at
max_ts_lem r zero idx m = refl
max_ts_lem r (suc n) idx m = max_ts_lem r n (idx + 1) _

old_run-le : (cutoff : ℤ) (xs : List Entry) → old_run cutoff xs ≤ length xs
unfolding old_run
old_run-le cutoff [] = omega arith
old_run-le cutoff (x ∷ xs) = elim (Bool-cases (ltb_ℤ x.ts cutoff)) [
  | inl older ↦ rw older (omega (arith, old_run-le cutoff xs))
  | inr newer ↦ rw newer (omega arith)
]

leading_end_lem :
    (r : Ring) (cutoff : ℤ) (n idx : ℕ)
    → leading_end r cutoff n idx ≡ idx + old_run cutoff (entries r idx n)
unfolding leading_end old_run entries entry_at
leading_end_lem r cutoff zero idx = omega arith
leading_end_lem r cutoff (suc n) idx = elim (Bool-cases (ltb_ℤ (entry_at r idx).ts cutoff)) [
  | inl older ↦ rw older (omega (arith, leading_end_lem r cutoff n (idx + 1)))
  | inr newer ↦ rw newer (omega arith)
]

pub evicted_count-le : (w : ℤ) (xs : List Entry) → evicted_count w xs ≤ length xs
unfolding evicted_count
evicted_count-le w xs = elim (Bool-cases (is_zero w)) [
  | inl all ↦ rw all (omega arith)
  | inr some_left ↦ rw some_left (old_run-le _ xs)
]

run_lem : (r : Ring) (c : ℤ) (n idx : ℕ) → leading_end r c n idx - idx ≡ old_run c (entries r idx n)
run_lem r c n idx = omega (arith, leading_end_lem r c n idx)

-- The tail moves past the evicted entries.
pub new_tail_lem : (r : Ring) (w : ℤ) → new_tail r w - (snapshot r).0 ≡ evicted_count w (contents r)
unfolding new_tail evicted_count cutoff_of contents
new_tail_lem r w =
    let n = (snapshot r).1 - (snapshot r).0 in
    let begin = (snapshot r).0 in
    elim (Bool-cases (is_zero w)) [
      | inl all ↦ rw all (sym (length-entries r begin n))
      | inr some_left ↦ rw some_left (
          run_lem r (sub_i64 (max_ts r n begin int64_min) w) n begin
          ∙ ap (λ m. old_run (sub_i64 m w) (entries r begin n)) (max_ts_lem r n begin int64_min))
    ]

-- The columns hold the entries.
pub timestamp_column_lem :
    (r : Ring) (idx n : ℕ) → timestamp_column r idx n ≡ map ts_of (entries r idx n)
unfolding timestamp_column entries entry_at
timestamp_column_lem r idx zero = refl
timestamp_column_lem r idx (suc n) =
    ap (λ t. (entry_at r idx).ts ∷ t) (timestamp_column_lem r (idx + 1) n)

pub vector_column_lem :
    (r : Ring) (idx n : ℕ) → vector_column r idx n ≡ joined_vectors (entries r idx n)
unfolding vector_column joined_vectors entries entry_at
vector_column_lem r idx zero = refl
vector_column_lem r idx (suc n) =
    ap (λ t. (entry_at r idx).vec ++ t) (vector_column_lem r (idx + 1) n)

pub take-entries : (r : Ring) (idx n m : ℕ) → n ≤ m → take n (entries r idx m) ≡ entries r idx n
unfolding entries
take-entries r idx zero m h = refl
take-entries r idx (suc n) zero h = absurd (omega arith)
take-entries r idx (suc n) (suc m) h =
    ap (λ t. entry_at r idx ∷ t) (take-entries r (idx + 1) n m (omega arith))

pub length-timestamp_column : (r : Ring) (idx n : ℕ) → length (timestamp_column r idx n) ≡ n
unfolding timestamp_column
length-timestamp_column r idx zero = refl
length-timestamp_column r idx (suc n) = ap suc (length-timestamp_column r (idx + 1) n)

pub length-vector_column : (r : Ring) (idx n : ℕ) → length (vector_column r idx n) ≡ n * vsz r
unfolding vector_column
length-vector_column r idx zero = omega arith
length-vector_column r idx (suc n) = omega (
  arith,
  length-append (read_bytes r.vectors (slot r idx * vsz r) (vsz r)) (vector_column r (idx + 1) n),
  length-read_bytes r.vectors (slot r idx * vsz r) (vsz r),
  length-vector_column r (idx + 1) n,
)

pub take-over {ℓ} :
    {A : Type ℓ} (n : ℕ) (column buf : List A)
    → length column ≡ n
    → take n (over column buf) ≡ column
take-over n column buf h = take-append_length n column (drop (length column) buf) h

abbrev pub ring_contents : Option Ring → List Entry
ring_contents none = []
ring_contents (some r) = contents r

-- A slot that holds this ring.
abbrev pub slot_with : Ring → ℤ → SensorSlot
slot_with r k = record { ring = some r; next_block_id = k }

module _ {S : Type 0} (b : Backend S) (e : Engine S) (id : Bytes) (r : Ring) (k : ℤ) where
  abbrev pub persisted : ℕ → Block
  persisted n = evicted_block id k r n (copy_out e.evict_scratch r (snapshot r).0 n)

  entries_ring :
      (n : ℕ)
      → (evict_entries b e id (slot_with r k) r n).1.ring
        ≡ some (advance_tail r ((snapshot r).0 + n))
  unfolding evict_entries
  entries_ring n = elim (Bool-cases (is_ok_code (b.write_block e.backend (persisted n)).0)) [
    | inl good ↦ rw good refl
    | inr bad ↦ rw bad refl
  ]

  pub entries_backend :
      (n : ℕ)
      → (evict_entries b e id (slot_with r k) r n).0.backend
        ≡ (b.write_block e.backend (persisted n)).1
  unfolding evict_entries
  entries_backend n = elim (Bool-cases (is_ok_code (b.write_block e.backend (persisted n)).0)) [
    | inl good ↦ rw good refl
    | inr bad ↦ rw bad refl
  ]

  abbrev pub taken : ℤ → ℕ
  taken w = evicted_count w (contents r)

  pub nothing_taken :
      (w : ℤ)
      → (taken w == 0) ≡ true
      → evict_sensor b none e id (slot_with r k) w ≡ (e, slot_with r k)
  unfolding evict_sensor failed_growth
  nothing_taken w z = rw (new_tail_lem r w, z) refl

  pub some_taken :
      (w : ℤ)
      → (taken w == 0) ≡ false
      → evict_sensor b none e id (slot_with r k) w
        ≡ evict_entries b e id (slot_with r k) r (taken w)
  unfolding evict_sensor failed_growth
  some_taken w z = rw (new_tail_lem r w, z) refl

  -- One pass over a sensor drops exactly the entries that `evicted_count` says, when the scratch can
  -- grow: the rest stays visible, whether or not the backend stores the block.
  pub contents-evict_sensor :
      (w : ℤ)
      → IsValid r
      → ring_contents (evict_sensor b none e id (slot_with r k) w).1.ring
        ≡ drop (taken w) (contents r)
  contents-evict_sensor w v = elim (Bool-cases (taken w == 0)) [
    | inl none_old ↦
        ap (λ p. ring_contents p.1.ring) (nothing_taken w none_old)
        ∙ ap (λ n. drop n (contents r)) (zero_of (taken w) none_old)
    | inr some_old ↦
        ap (λ p. ring_contents p.1.ring) (some_taken w some_old)
        ∙ ap ring_contents (entries_ring (taken w))
        ∙ contents-advance_tail_lem r (taken w) v (evicted_count-le w (contents r))
  ]
    where
      zero_of : (n : ℕ) → (n == 0) ≡ true → 0 ≡ n
      zero_of n h = ground arith
