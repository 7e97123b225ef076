-- ===== src/Engine/Evict/Flush.antt =====
-- `Flush` of src/engine.cpp: the blocks that it hands to the backend, and what it leaves in the rings.
use chronos_vector.Base.{ℕ, ◌^◌, ◌≡◌, ◌<◌, refl, ◌⊎◌, Option, none, some, [], ◌∷◌, length, All}
use chronos_vector.Base.Int.{ℤ, pos}
use chronos_vector.Types.{ErrorCode}
use chronos_vector.Codec.{Block}
use chronos_vector.Ring.{Ring}
use chronos_vector.Ring.Inv.{IsValid}
use chronos_vector.Ring.Window.{contents}
use chronos_vector.Engine.{Bytes, Backend, Engine, SensorSlot, SensorMap}
use chronos_vector.Engine.Evict.{evict_once}
use chronos_vector.Engine.Evict.Cut.{evicted_count, ring_contents, taken}
use chronos_vector.Engine.Evict.Persist.{Persists}

-- A slot whose ring, if it has one, is valid and holds fewer than 2^32 entries.
abbrev pub ValidSlot : Option Ring → Type 0
ValidSlot none = Unit {0}
ValidSlot (some r) = IsValid r × (length (contents r) < 2 ^ 32)

abbrev pub ValidSensors : SensorMap → Type 0
ValidSensors m = All (λ p. ValidSlot p.1.ring) m

abbrev pub EmptySensors : SensorMap → Type 0
EmptySensors m = All (λ p. ring_contents p.1.ring ≡ []) m

module _ {S : Type 0} (b : Backend S) where
  -- The backend goes from `s` to `s'` by one written block with all the entries of the ring, or stays where there are none.
  abbrev pub HandsRing : Bytes → ℤ → Option Ring → S → S → Type 0
  HandsRing id k none s s' = s' ≡ s
  HandsRing id k (some r) s s' =
      ((contents r ≡ []) × (s' ≡ s))
      ⊎ ((blk : Block) × (s' ≡ (b.write_block s blk).1) × Persists id k r (length (contents r)) blk)

  -- The same for each sensor, one after the other.
  unfoldable pub Hands : SensorMap → S → S → Type 0
  Hands [] s s' = s' ≡ s
  Hands ((id, slot) ∷ m) s s' =
      (mid : S) × HandsRing id slot.next_block_id slot.ring s mid × Hands m mid s'

module _ {S : Type 0} (b : Backend S) (memory : Bytes → Option ℕ) where
  abbrev slot_of : Option Ring → ℤ → SensorSlot
  slot_of o k = record { ring = o; next_block_id = k }

  all_taken :
      (e : Engine S) (id : Bytes) (r : Ring) (k : ℤ)
      → taken b e id r k (pos 0) ≡ length (contents r)
  unfolding evicted_count
  all_taken e id r k = refl

  abbrev flushed : Engine S → ErrorCode × Engine S
  flushed e =
      let evicted = evict_once b memory e (some (pos 0)) in
      let f = b.flush evicted.backend in (f.0, record evicted { backend = f.1 })
