-- ===== src/Engine/Inv.antt =====
-- The invariant of `Engine` of src/engine.cpp: each ring is valid and has the shape that the configuration says.
pub mod Ops
pub mod Keeps
pub mod Evicts
pub mod Starts
pub mod Reads
pub mod Ids
use chronos_vector.Base.{
  ℕ, suc, ◌+◌, ◌≤◌, ◌<◌, ◌^◌, ◌≡◌, refl, ap, sym, subst, ◌∙◌, Bool, true, false, Option, none, some,
  List, [], ◌∷◌, All, arith, inl, inr, Bool-cases, Option-cases,
}
use chronos_vector.Types.{Config}
use chronos_vector.Ring.{Ring}
use chronos_vector.Ring.Inv.{IsValid}
use chronos_vector.Engine.{Bytes, Engine, SensorSlot, SensorMap, find, put, erase, same_id}
use chronos_vector.Base.Int.{pos, ◌≤ℤ◌}
use chronos_vector.Engine.Sensors.{find_here, find_there, some_injective}
use chronos_vector.Validation.Settings.{IsValidConfig}

-- A valid ring of this configuration, to which at most `n` entries were appended.
pub record RingFits (cfg : Config) (n : ℕ) (r : Ring) : Type 0 where
  pub valid : IsValid r
  pub capacity_same : r.capacity ≡ cfg.ring_capacity
  pub dim_same : r.dim ≡ cfg.dim
  pub dtype_same : r.dtype ≡ cfg.storage_dtype
  pub payload_same : r.payload_size ≡ cfg.payload_size_bytes
  pub head_max : r.head ≤ n

abbrev pub SlotFits : Config → ℕ → SensorSlot → Type 0
SlotFits cfg n slot = elim slot.ring [ none ↦ Unit {0} | some r ↦ RingFits cfg n r ]

abbrev pub MapFits : Config → ℕ → SensorMap → Type 0
MapFits cfg n m = All (λ p. SlotFits cfg n p.1) m

-- A valid configuration, but for the window, which may be 0.
abbrev pub IsRunnable : Bool → Config → Type 0
IsRunnable enable_int8 cfg =
    IsValidConfig enable_int8 (record cfg { window_duration_ms = pos 1 })
    × (pos 0 ≤ℤ cfg.window_duration_ms)

-- The configuration can be run with, its capacity is a 64-bit word, and every ring fits.
pub record IsSound {S : Type 0} (enable_int8 : Bool) (n : ℕ) (e : Engine S) : Type 0 where
  pub runnable : IsRunnable enable_int8 e.cfg
  pub capacity_word : e.cfg.ring_capacity < 2 ^ 64
  pub rings : MapFits e.cfg n e.sensors

pub RingFits-more :
    {cfg : Config} {n m : ℕ} {r : Ring} → n ≤ m → RingFits cfg n r → RingFits cfg m r
RingFits-more h f = record {
  valid = f.valid;
  capacity_same = f.capacity_same;
  dim_same = f.dim_same;
  dtype_same = f.dtype_same;
  payload_same = f.payload_same;
  head_max = omega (arith, f.head_max);
}

SlotFits-more :
    (cfg : Config) (n m : ℕ) (o : Option Ring)
    → n ≤ m
    → elim o as (λ x. Type 0) [ none ↦ Unit {0} | some r ↦ RingFits cfg n r ]
    → elim o as (λ x. Type 0) [ none ↦ Unit {0} | some r ↦ RingFits cfg m r ]
SlotFits-more cfg n m none h f = f
SlotFits-more cfg n m (some r) h f = RingFits-more h f

pub MapFits-more :
    (cfg : Config) (n m : ℕ) (l : SensorMap) → n ≤ m → MapFits cfg n l → MapFits cfg m l
MapFits-more cfg n m [] h f = tt
MapFits-more cfg n m ((id, slot) ∷ l) h (f, fs) =
    (SlotFits-more cfg n m slot.ring h f, MapFits-more cfg n m l h fs)

module _ (cfg : Config) (n : ℕ) where
  pub find-Fits :
      (m : SensorMap) (id : Bytes) (slot : SensorSlot)
      → MapFits cfg n m
      → find m id ≡ some slot
      → SlotFits cfg n slot
  unfolding find
  find-Fits [] id slot fs h = absurd cc
  find-Fits ((k, s) ∷ m) id slot (f, fs) h = elim (Bool-cases (same_id k id)) [
    | inl here ↦ subst (SlotFits cfg n) (some_injective (sym (find_here k s m id here) ∙ h)) f
    | inr there ↦ find-Fits m id slot fs (sym (find_there k s m id there) ∙ h)
  ]

  pub put-Fits :
      (m : SensorMap) (id : Bytes) (slot : SensorSlot)
      → MapFits cfg n m
      → SlotFits cfg n slot
      → MapFits cfg n (put m id slot)
  unfolding put
  put-Fits [] id slot fs g = (g, tt)
  put-Fits ((k, s) ∷ m) id slot (f, fs) g = elim (Bool-cases (same_id k id)) [
    | inl here ↦ rw (put, here) (g, fs)
    | inr there ↦ rw (put, there) (f, put-Fits m id slot fs g)
  ]

  pub erase-Fits : (m : SensorMap) (id : Bytes) → MapFits cfg n m → MapFits cfg n (erase m id)
  unfolding erase
  erase-Fits [] id fs = tt
  erase-Fits ((k, s) ∷ m) id (f, fs) = elim (Bool-cases (same_id k id)) [
    | inl here ↦ rw (erase, here) fs
    | inr there ↦ rw (erase, there) (f, erase-Fits m id fs)
  ]
