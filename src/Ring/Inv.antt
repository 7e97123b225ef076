-- ===== src/Ring/Inv.antt =====
-- The invariant of `SensorRing`, and where its reads and writes go.
use Prim.Native.Nat.{bit_and}
use native.Mathlib.Nat.{div-add-mod, mul-le-mul_left, mul-le-mul_right}
use native.Mathlib.Decide.{dec_le}
use chronos_vector.Base.{
  ℕ, suc, ◌+◌, ◌-◌, ◌*◌, ◌%◌, ◌^◌, ◌≤◌, ◌<◌, ◌≡◌, ◌≢◌, refl, ap, ◌∙◌, sym, ◌⊎◌, inl, inr, List,
  arith, if◌then◌else◌, ltb, Option, ◌/◌,
}
use chronos_vector.Base.Bits.{bit_and_mask}
use chronos_vector.Base.Int.{ℤ}
use chronos_vector.Ring.{Ring, Allocator, make_ring, append, snapshot, advance_tail, slot}

pub record IsValid (r : Ring) : Type 0 where
  pub power : (k : ℕ) × (r.capacity ≡ 2 ^ k)
  pub capacity_min : 64 ≤ r.capacity
  pub capacity_word : r.capacity < 2 ^ 64
  pub mask_lem : r.mask ≡ r.capacity - 1
  pub head_word : r.head < 2 ^ 64
  pub ordered : r.tail ≤ r.head

-- The mask takes the remainder by the capacity.
pub slot_mod : {r : Ring} → IsValid r → (idx : ℕ) → slot r idx ≡ idx % r.capacity
slot_mod {r} v idx =
    let (k, e) = v.power in
    ap (bit_and idx) (v.mask_lem ∙ ap (λ c. c - 1) e)
    ∙ bit_and_mask k idx
    ∙ ap (λ c. idx % c) (sym e)

-- Every slot index is inside the arrays.
pub slot-lt : {r : Ring} → IsValid r → (idx : ℕ) → slot r idx < r.capacity
slot-lt {r} v idx = rw (slot_mod v idx) (omega (arith, v.capacity_min))

mod_apart : (i j c : ℕ) → i < j → j < i + c → i % c ≢ j % c
mod_apart i j c lt near e = elim (dec_le (j / c) (i / c)) [
  | yes le ↦ absurd (omega (arith, div-add-mod i c, div-add-mod j c, mul-le-mul_left c le))
  | no gt ↦
      let up : suc (i / c) ≤ j / c = omega arith in
      absurd (omega (arith, div-add-mod i c, div-add-mod j c, mul-le-mul_left c up))
]

-- Two indices less than a capacity apart have different slots.
pub slot-ne : {r : Ring} → IsValid r → (i j : ℕ) → i < j → j < i + r.capacity → slot r i ≢ slot r j
slot-ne {r} v i j lt near e =
    mod_apart i j r.capacity lt near (sym (slot_mod v i) ∙ e ∙ slot_mod v j)

-- Two rows of `n` bytes at different slots do not meet.
pub rows_apart : (i j n : ℕ) → i ≢ j → (i * n + n ≤ j * n) ⊎ (j * n + n ≤ i * n)
rows_apart i j n ne = elim (dec_le (suc i) j) [
  | yes lt ↦ inl (omega (arith, mul-le-mul_right n lt))
  | no ge ↦ let lt : suc j ≤ i = omega arith in inr (omega (arith, mul-le-mul_right n lt))
]

-- The row of a slot ends inside an array of one row for each slot.
pub row_inside : {r : Ring} → IsValid r → (idx n : ℕ) → slot r idx * n + n ≤ r.capacity * n
row_inside {r} v idx n = omega (arith, mul-le-mul_right n (slot-lt v idx))

-- A new ring is valid.
pub make_ring-IsValid :
    (a : Allocator) (capacity dim size dtype k : ℕ)
    → capacity ≡ 2 ^ k
    → 64 ≤ capacity
    → capacity < 2 ^ 64
    → IsValid (make_ring a capacity dim size dtype)
unfolding make_ring
make_ring-IsValid a capacity dim size dtype k e low high = record {
  power = (k, e);
  capacity_min = low;
  capacity_word = high;
  mask_lem = omega arith;
  head_word = omega arith;
  ordered = omega arith;
}

-- `Append` keeps the invariant as long as the 64-bit head does not wrap.
pub append-IsValid :
    {r : Ring} (ts : ℤ) (vec : List ℕ) (norm : ℕ) (payload : Option (List ℕ)) (scale : ℕ)
    → IsValid r
    → r.head + 1 < 2 ^ 64
    → IsValid (append r ts vec norm payload scale)
unfolding append
append-IsValid ts vec norm payload scale v room = record {
  power = v.power;
  capacity_min = v.capacity_min;
  capacity_word = v.capacity_word;
  mask_lem = v.mask_lem;
  head_word = omega (arith, v.head_word);
  ordered = omega (arith, v.ordered, room);
}

-- So does `AdvanceTail` within its contract, up to the head.
pub advance_tail-IsValid :
    {r : Ring} (new_tail : ℕ) → IsValid r → new_tail ≤ r.head → IsValid (advance_tail r new_tail)
unfolding advance_tail
advance_tail-IsValid new_tail v h = record {
  power = v.power;
  capacity_min = v.capacity_min;
  capacity_word = v.capacity_word;
  mask_lem = v.mask_lem;
  head_word = v.head_word;
  ordered = h;
}

-- The snapshot in unwrapped arithmetic: the newest `capacity` entries at most.
pub snapshot_lem :
    {r : Ring}
    → IsValid r
    → (snapshot r).0 ≡ (if ltb r.capacity (r.head - r.tail) then r.head - r.capacity else r.tail)
unfolding snapshot
snapshot_lem {r} v = ground (arith, v.head_word, v.ordered)

pub snapshot_bounds :
    {r : Ring}
    → IsValid r
    → (r.tail ≤ (snapshot r).0)
      × ((snapshot r).0 ≤ r.head)
      × (r.head ≤ (snapshot r).0 + r.capacity)
      × ((snapshot r).1 ≡ r.head)
unfolding snapshot
snapshot_bounds {r} v = (
  ground (arith, v.head_word, v.ordered),
  ground (arith, v.head_word, v.ordered),
  ground (arith, v.head_word, v.ordered),
  refl,
)

-- Whatever the virtual index, a slot is inside the arrays of a valid ring, and so is the whole row of
-- `n` bytes at it; indices less than a capacity apart use different slots, whose rows do not overlap.
pub slots_sound :
    (r : Ring) (i j n : ℕ)
    → IsValid r
    → i < j
    → j < i + r.capacity
    → (slot r i < r.capacity)
      × (slot r i * n + n ≤ r.capacity * n)
      × ((slot r i * n + n ≤ slot r j * n) ⊎ (slot r j * n + n ≤ slot r i * n))
slots_sound r i j n v lt near =
    (slot-lt v i, row_inside v i n, rows_apart (slot r i) (slot r j) n (slot-ne v i j lt near))
