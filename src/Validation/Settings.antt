-- ===== src/Validation/Settings.antt =====
-- What the configuration check of src/engine.cpp lets through.
use Prim.Native.Nat.{bit_and}
use native.Mathlib.Nat.{pow-suc, one-le-pow, mod_self}
use chronos_vector.Base.{
  ℕ, zero, suc, ◌-◌, ◌/◌, ◌%◌, ◌^◌, ◌≤◌, ◌<◌, ◌≡◌, refl, ap, ◌∙◌, ◌⊎◌, inl, inr, Bool, true, arith,
}
use chronos_vector.Base.Bits.{bit_and_step, bit_and_mask}
use chronos_vector.Base.Int.{pos, ◌≤ℤ◌}
use chronos_vector.Types.{Config, done, abi_version}
use chronos_vector.Validation.{validate_and_default, with_defaults, has_single_bit}

bit_and_self_fuel : (n a : ℕ) → a ≤ n → bit_and a a ≡ a
bit_and_self_fuel n zero h = refl
bit_and_self_fuel zero (suc a) h = absurd (omega arith)
bit_and_self_fuel (suc n) (suc a) h =
    omega (arith, bit_and_step (suc a) (suc a), bit_and_self_fuel n (suc a / 2) (omega arith))

-- `x & (x - 1)` is 0 at the powers of two alone.
power_of_single_bit : (n x : ℕ) → x ≤ n → 0 < x → bit_and x (x - 1) ≡ 0 → (k : ℕ) × (x ≡ 2 ^ k)
power_of_single_bit zero x h p e = absurd (omega arith)
power_of_single_bit (suc n) x h p e = elim (parity x) [
  | inl even ↦
      let (k, q) = power_of_single_bit n (x / 2) (omega arith) (omega arith) (half_even even) in
      (suc k, omega (arith, pow-suc 2 k))
  | inr odd ↦ (0, half_odd odd)
]
  where
    parity : (y : ℕ) → (y % 2 ≡ 0) ⊎ (y % 2 ≡ 1)
    parity y = omega arith

    half_even : x % 2 ≡ 0 → bit_and (x / 2) (x / 2 - 1) ≡ 0
    half_even even =
        let f : (x - 1) / 2 ≡ x / 2 - 1 = omega arith in
        omega (arith, bit_and_step x (x - 1), ap (bit_and (x / 2)) f)

    half_odd : x % 2 ≡ 1 → x ≡ 1
    half_odd odd =
        let f : (x - 1) / 2 ≡ x / 2 = omega arith in
        omega (
          arith,
          bit_and_step x (x - 1),
          ap (bit_and (x / 2)) f,
          bit_and_self_fuel (x / 2) (x / 2) (omega arith),
        )

pub single_bit_power : (x : ℕ) → has_single_bit x ≡ true → (k : ℕ) × (x ≡ 2 ^ k)
single_bit_power x h = power_of_single_bit x x (omega arith) (ground arith) (ground arith)

power_single_bit : (k : ℕ) → has_single_bit (2 ^ k) ≡ true
power_single_bit k = ground (arith, bit_and_mask k (2 ^ k), one-le-pow k 2, mod_self (2 ^ k))

-- What an engine's configuration satisfies.
pub record IsValidConfig (enable_int8 : Bool) (c : Config) : Type 0 where
  pub abi_current : c.abi ≡ abi_version
  pub dim_pos : 0 < c.dim
  pub dim_max : c.dim ≤ 65536
  pub payload_max : c.payload_size_bytes ≤ 4096
  pub dtype_known : c.storage_dtype < 2
  pub metric_known : c.distance_metric < 2
  pub int8_enabled : c.storage_dtype ≡ 1 → enable_int8 ≡ true
  pub capacity_min : 64 ≤ c.ring_capacity
  pub capacity_power : (k : ℕ) × (c.ring_capacity ≡ 2 ^ k)
  pub window_pos : pos 1 ≤ℤ c.window_duration_ms
  pub interval_min : pos 100 ≤ℤ c.eviction_interval_ms

module _ (enable_int8 : Bool) (c d : Config) (h : validate_and_default enable_int8 c ≡ done d) where
  defaulted : d ≡ with_defaults c
  unfolding validate_and_default
  defaulted = ground arith

  single_bit : has_single_bit d.ring_capacity ≡ true
  unfolding validate_and_default
  single_bit = ground arith

  pub validated : IsValidConfig enable_int8 d
  unfolding validate_and_default
  validated = record {
    abi_current = ground arith;
    dim_pos = ground arith;
    dim_max = ground arith;
    payload_max = ground arith;
    dtype_known = ground arith;
    metric_known = ground arith;
    int8_enabled = ground arith;
    capacity_min = ground arith;
    capacity_power = single_bit_power d.ring_capacity single_bit;
    window_pos = ground arith;
    interval_min = ground arith;
  }

-- A configuration that `validate_and_default` accepts comes out with its defaults filled in, and
-- satisfies every limit: a known ABI, dtype and metric, bounded dimension and payload, a ring
-- capacity that is a power of two of at least 64, a positive window and an interval of at least 100 ms.
pub validate_and_default-IsValidConfig :
    (enable_int8 : Bool) (c d : Config)
    → validate_and_default enable_int8 c ≡ done d
    → IsValidConfig enable_int8 d × (d ≡ with_defaults c)
validate_and_default-IsValidConfig enable_int8 c d h =
    (validated enable_int8 c d h, defaulted enable_int8 c d h)

kept : (en : Bool) (c : Config) → IsValidConfig en c → with_defaults c ≡ c
unfolding with_defaults
kept en c v = ground (arith, v.capacity_min, v.window_pos, v.interval_min)

single : (en : Bool) (c : Config) → IsValidConfig en c → has_single_bit c.ring_capacity ≡ true
single en c v = let (k, e) = v.capacity_power in ap has_single_bit e ∙ power_single_bit k

-- Every configuration within the limits is accepted as it is; so a second validation, as in
-- `chronosv_open` after reading metadata, changes nothing.
pub validate_and_default_complete :
    (enable_int8 : Bool) (c : Config)
    → IsValidConfig enable_int8 c
    → validate_and_default enable_int8 c ≡ done c
unfolding validate_and_default
validate_and_default_complete en c v = ground (
  arith,
  kept en c v,
  single en c v,
  v.abi_current,
  v.int8_enabled,
  v.window_pos,
  v.interval_min,
  v.capacity_min,
)
