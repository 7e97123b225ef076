-- ===== src/Validation/SensorId.antt =====
-- Which sensor ids `validate_sensor_id` of src/engine.cpp accepts.
use chronos_vector.Base.{
  ℕ, zero, suc, ◌+◌, ◌≤◌, ◌<◌, ◌≡◌, ◌≢◌, ap, ◌↔◌, inl, inr, some, List, [], ◌∷◌, length, All, ◌==◌,
  Bool-cases, Option-cases, arith,
}
use chronos_vector.Types.{ok}
use chronos_vector.Validation.{scan_id, validate_sensor_id}

-- 1 to 256 bytes, none of them the separator 0x01 of the storage keys.
pub record IsSensorId (id : List ℕ) : Type 0 where
  pub nonempty : 0 < length id
  pub bounded : length id ≤ 256
  pub no_separator : All (λ c. c ≢ 1) id

-- With enough fuel the loop goes through the id.
scan_id-clean :
    (fuel n : ℕ) (cs : List ℕ)
    → length cs < fuel
    → All (λ c. c ≢ 1) cs
    → scan_id fuel n cs ≡ some (n + length cs)
unfolding scan_id
scan_id-clean zero n cs h a = absurd (omega arith)
scan_id-clean (suc fuel) n [] h a = ap some (omega arith)
scan_id-clean (suc fuel) n (c ∷ cs) h (ne, a) = ground (arith, scan_id-clean fuel (n + 1) cs)

-- A loop that stops before its fuel does has seen the whole id, and no separator.
scan_id-found :
    (fuel n m : ℕ) (cs : List ℕ)
    → scan_id fuel n cs ≡ some m
    → m < n + fuel
    → All (λ c. c ≢ 1) cs × (m ≡ n + length cs)
unfolding scan_id
scan_id-found zero n m cs e h = absurd (ground arith)
scan_id-found (suc fuel) n m [] e h = (tt, ground arith)
scan_id-found (suc fuel) n m (c ∷ cs) e h = elim (Bool-cases (c == 1)) [
  | inl sep ↦ absurd (ground arith)
  | inr other ↦
      let (a, q) = scan_id-found fuel (n + 1) m cs (ground arith) (omega arith) in
      ((ground arith, a), omega arith)
]

accepted : (id : List ℕ) → IsSensorId id → validate_sensor_id (some id) ≡ ok
unfolding validate_sensor_id
accepted id v =
    rw (scan_id-clean 257 0 id (omega (arith, v.bounded)) v.no_separator, validate_sensor_id)
      (ground (arith, v.bounded, v.nonempty))

scanned :
    (id : List ℕ)
    → validate_sensor_id (some id) ≡ ok
    → (m : ℕ) × (scan_id 257 0 id ≡ some m) × (0 < m) × (m ≤ 256)
unfolding validate_sensor_id
scanned id e = elim (Option-cases (scan_id 257 0 id)) [
  | inl q ↦ absurd (ground arith)
  | inr (m, q) ↦ (m, q, ground arith, ground arith)
]

-- `validate_sensor_id` accepts exactly the non-null ids of 1 to 256 bytes that have no 0x01 byte,
-- for ids of any length.
pub validate_sensor_id_iff : (id : List ℕ) → (validate_sensor_id (some id) ≡ ok) ↔ IsSensorId id
validate_sensor_id_iff id = (
  λ e.
      let (m, q, low, high) = scanned id e in
      let (a, r) = scan_id-found 257 0 m id q (omega arith) in
      record { nonempty = omega arith; bounded = omega arith; no_separator = a },
  accepted id,
)
