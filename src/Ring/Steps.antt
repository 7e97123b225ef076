-- ===== src/Ring/Steps.antt =====
-- `Append` of include/chronosv/ring_buffer.h write by write, with eviction moving the tail in between: a reader can read
-- its slots between any two of these steps.
pub mod Frame
use chronos_vector.Base.{
  ℕ, suc, ◌+◌, ◌≤◌, ◌<◌, ◌^◌, Bool, Option, none, some, List, ltb, leb, ◌==◌, if◌then◌else◌, take,
  ◌*◌,
}
use chronos_vector.Base.Int.{ℤ}
use chronos_vector.Base.Memory.{update, write_bytes}
use chronos_vector.Types.{dtype_int8}
use chronos_vector.Ring.{Ring, slot, vsz, add_u64, sub_u64, advance_tail}

-- The arguments of one `Append`.
pub record Arguments : Type 0 where
  pub ts : ℤ
  pub vec : List ℕ
  pub norm : ℕ
  pub payload : Option (List ℕ)
  pub scale : ℕ

unfoldable pub count_overwrite : Ring → Ring
count_overwrite r =
    let lapped = leb r.capacity (sub_u64 r.head r.tail) in
    record r {
      overwrite_events = if lapped then add_u64 r.overwrite_events 1 else r.overwrite_events;
      overwritten_entries =
          if lapped then add_u64 r.overwritten_entries 1 else r.overwritten_entries;
    }

unfoldable pub put_timestamp : Ring → ℤ → Ring
put_timestamp r ts = record r { timestamps = update r.timestamps (slot r r.head) ts }

unfoldable pub put_vector : Ring → List ℕ → Ring
put_vector r vec = record r {
  vectors = write_bytes r.vectors (slot r r.head * vsz r) (take (vsz r) vec);
}

unfoldable pub put_norm : Ring → ℕ → Ring
put_norm r norm = record r { norms = update r.norms (slot r r.head) norm }

unfoldable pub put_scale : Ring → ℕ → Ring
put_scale r scale = record r {
  scales = if r.dtype == dtype_int8 then update r.scales (slot r r.head) scale else r.scales;
}

unfoldable pub put_payload : Ring → Option (List ℕ) → Ring
put_payload r payload = record r {
  payloads = elim payload [
    | none ↦ r.payloads
    | some p ↦
        if ltb 0 r.payload_size
        then write_bytes r.payloads (slot r r.head * r.payload_size) (take r.payload_size p)
        else r.payloads
  ];
}

-- `head_.store(h + 1)`
unfoldable pub publish : Ring → Ring
publish r = record r { head = add_u64 r.head 1 }

-- Where the producer is in `Append`: the constructors name what it did last.
pub data Phase : Type 0 where
  idle : Phase
  counted timed copied normed scaled filled : Arguments → Phase

-- One step of the producer, or of the one eviction pass at a time.
pub data Step : Ring → Phase → Ring → Phase → Type 0 where
  counts : {r : Ring} (a : Arguments) → Step r idle (count_overwrite r) (counted a)
  times : {r : Ring} (a : Arguments) → Step r (counted a) (put_timestamp r a.ts) (timed a)
  copies : {r : Ring} (a : Arguments) → Step r (timed a) (put_vector r a.vec) (copied a)
  norms : {r : Ring} (a : Arguments) → Step r (copied a) (put_norm r a.norm) (normed a)
  scales : {r : Ring} (a : Arguments) → Step r (normed a) (put_scale r a.scale) (scaled a)
  fills : {r : Ring} (a : Arguments) → Step r (scaled a) (put_payload r a.payload) (filled a)
  publishes : {r : Ring} (a : Arguments) → r.head + 1 < 2 ^ 64 → Step r (filled a) (publish r) idle
  evicts : {r : Ring} {p : Phase} (k : ℕ) → r.tail ≤ k → k ≤ r.head → Step r p (advance_tail r k) p

-- Any number of steps, in any order that the phases allow.
pub data Run (start : Ring) (first : Phase) : Ring → Phase → Type 0 where
  here : Run start first start first
  next : {r s : Ring} {p q : Phase} → Run start first r p → Step r p s q → Run start first s q
