-- ===== src/Ring/Steps/Frame.antt =====
-- What a reader of the ring of include/chronosv/ring_buffer.h can rely on while the producer goes on.
use native.Mathlib.Nat.{add-mul-mod_self_right}
use chronos_vector.Base.{
  ℕ, ◌+◌, ◌-◌, ◌*◌, ◌%◌, ◌^◌, ◌≤◌, ◌<◌, ◌≡◌, ◌≢◌, refl, ap, sym, ◌∙◌, arith, take, length-take,
  ◌==◌, if◌then◌else◌,
}
use chronos_vector.Types.{dtype_int8}
use chronos_vector.Ring.{Ring, append, entry_at, slot, timestamp_at, snapshot, vsz, advance_tail}
use chronos_vector.Ring.Inv.{IsValid, slot-ne, advance_tail-IsValid, slot_mod, snapshot_lem}
use chronos_vector.Ring.Window.{
  update_ne, update_self, write_elsewhere, payload_elsewhere, scale_elsewhere,
}
use chronos_vector.Ring.Steps.{
  Arguments, Phase, Step, Run, idle, counted, timed, copied, normed, scaled, filled, counts, times,
  copies, norms, scales, fills, publishes, evicts, here, next, count_overwrite, put_timestamp,
  put_vector, put_norm, put_scale, put_payload, publish,
}

-- `Append` is its steps one after the other.
pub append-steps :
    (r : Ring) (a : Arguments)
    → append r a.ts a.vec a.norm a.payload a.scale
      ≡ publish (
          put_payload
            (put_scale
              (put_norm (put_vector (put_timestamp (count_overwrite r) a.ts) a.vec) a.norm)
              a.scale)
            a.payload)
unfolding append publish put_payload put_scale put_norm put_vector put_timestamp count_overwrite
append-steps r a = refl

-- The entries that the producer may be writing: one, unless it is idle.
abbrev pub writing : Phase → ℕ
writing idle = 0
writing (counted a) = 1
writing (timed a) = 1
writing (copied a) = 1
writing (normed a) = 1
writing (scaled a) = 1
writing (filled a) = 1

-- The slot of entry `idx` is not the one that is written next, and its entry stays the same.
abbrev Stays : Ring → Ring → ℕ → Type 0
Stays r s idx = entry_at s idx ≡ entry_at r idx

module _ (r : Ring) (a : Arguments) (idx : ℕ) (ne : slot r r.head ≢ slot r idx) where
  put_timestamp-Stays : Stays r (put_timestamp r a.ts) idx
  unfolding put_timestamp entry_at
  put_timestamp-Stays =
      ap (λ t. record (entry_at r idx) { ts = t })
        (update_ne r.timestamps (slot r r.head) (slot r idx) a.ts ne)

  put_vector-Stays : Stays r (put_vector r a.vec) idx
  unfolding put_vector entry_at
  put_vector-Stays =
      ap (λ t. record (entry_at r idx) { vec = t })
        (write_elsewhere r.vectors (slot r r.head) (slot r idx) (vsz r) (take (vsz r) a.vec) ne
          (omega (arith, length-take (vsz r) a.vec)))

  put_norm-Stays : Stays r (put_norm r a.norm) idx
  unfolding put_norm entry_at
  put_norm-Stays =
      ap (λ t. record (entry_at r idx) { norm = t })
        (update_ne r.norms (slot r r.head) (slot r idx) a.norm ne)

  put_scale-Stays : Stays r (put_scale r a.scale) idx
  unfolding put_scale entry_at
  put_scale-Stays =
      ap (λ t. record (entry_at r idx) { scale = t })
        (scale_elsewhere (r.dtype == dtype_int8) r.scales (slot r r.head) (slot r idx) a.scale ne)

  put_payload-Stays : Stays r (put_payload r a.payload) idx
  unfolding put_payload entry_at
  put_payload-Stays =
      ap (λ t. record (entry_at r idx) { payload = t })
        (payload_elsewhere r.payloads (slot r r.head) (slot r idx) r.payload_size a.payload ne)

-- What holds of a ring `r` that a run from `start` reaches.
record Follows (start r : Ring) (p : Phase) : Type 0 where
  valid : IsValid r
  capacity_same : r.capacity ≡ start.capacity
  head_grows : start.head ≤ r.head
  entries_stay :
      (idx : ℕ) → idx < start.head → r.head + writing p ≤ idx + start.capacity → Stays start r idx

-- A step that changes neither the shape nor the head.
write-Follows :
    (start r s : Ring) (p q : Phase)
    → Follows start r p
    → IsValid s
    → s.capacity ≡ r.capacity
    → s.head ≡ r.head
    → writing p ≤ writing q
    → ((idx : ℕ) → idx < start.head → r.head + writing q ≤ idx + start.capacity → Stays r s idx)
    → Follows start s q
write-Follows start r s p q f valid cap head busy stay = record {
  valid = valid;
  capacity_same = cap ∙ f.capacity_same;
  head_grows = omega (arith, f.head_grows, head);
  entries_stay = λ idx old near. stay idx old (omega arith) ∙ f.entries_stay idx old (omega arith);
}

same_shape :
    (r s : Ring)
    → IsValid r
    → s.capacity ≡ r.capacity
    → s.mask ≡ r.mask
    → s.head ≡ r.head
    → s.tail ≡ r.tail
    → IsValid s
same_shape r s v cap mask head tail = record {
  power = (v.power.0, cap ∙ v.power.1);
  capacity_min = omega (arith, cap, v.capacity_min);
  capacity_word = omega (arith, cap, v.capacity_word);
  mask_lem = mask ∙ v.mask_lem ∙ ap (λ c. c - 1) (sym cap);
  head_word = omega (arith, head, v.head_word);
  ordered = omega (arith, head, tail, v.ordered);
}

publish-IsValid : (r : Ring) → IsValid r → r.head + 1 < 2 ^ 64 → IsValid (publish r)
unfolding publish
publish-IsValid r v room = record {
  power = v.power;
  capacity_min = v.capacity_min;
  capacity_word = v.capacity_word;
  mask_lem = v.mask_lem;
  head_word = omega (arith, v.head_word);
  ordered = omega (arith, v.ordered, room);
}

module _ (start : Ring) where
  apart :
      (r : Ring) (p : Phase)
      → Follows start r p
      → (idx : ℕ) → idx < start.head
      → r.head + 1 ≤ idx + start.capacity
      → slot r r.head ≢ slot r idx
  apart r p f idx old near e =
      slot-ne f.valid idx r.head (omega (arith, f.head_grows)) (omega (arith, f.capacity_same))
        (sym e)

  Step-Follows : (r s : Ring) (p q : Phase) → Follows start r p → Step r p s q → Follows start s q
  unfolding count_overwrite put_timestamp put_vector put_norm put_scale put_payload publish
      advance_tail entry_at
  Step-Follows r s p q f (counts a) =
      write-Follows start r _ p _ f (same_shape r _ f.valid refl refl refl refl) refl refl
        (omega arith) (λ idx old near. refl)
  Step-Follows r s p q f (times a) =
      write-Follows start r _ p _ f (same_shape r _ f.valid refl refl refl refl) refl refl
        (omega arith) (λ idx old near. put_timestamp-Stays r a idx (apart r p f idx old near))
  Step-Follows r s p q f (copies a) =
      write-Follows start r _ p _ f (same_shape r _ f.valid refl refl refl refl) refl refl
        (omega arith) (λ idx old near. put_vector-Stays r a idx (apart r p f idx old near))
  Step-Follows r s p q f (norms a) =
      write-Follows start r _ p _ f (same_shape r _ f.valid refl refl refl refl) refl refl
        (omega arith) (λ idx old near. put_norm-Stays r a idx (apart r p f idx old near))
  Step-Follows r s p q f (scales a) =
      write-Follows start r _ p _ f (same_shape r _ f.valid refl refl refl refl) refl refl
        (omega arith) (λ idx old near. put_scale-Stays r a idx (apart r p f idx old near))
  Step-Follows r s p q f (fills a) =
      write-Follows start r _ p _ f (same_shape r _ f.valid refl refl refl refl) refl refl
        (omega arith) (λ idx old near. put_payload-Stays r a idx (apart r p f idx old near))
  Step-Follows r s p q f (publishes a room) = record {
    valid = publish-IsValid r f.valid room;
    capacity_same = f.capacity_same;
    head_grows = omega (arith, f.head_grows, room);
    entries_stay = λ idx old near. f.entries_stay idx old (omega (arith, room));
  }
  Step-Follows r s p q f (evicts k low high) =
      write-Follows start r _ p p f (advance_tail-IsValid k f.valid high) refl refl (omega arith)
        (λ idx old near. refl)

  Run-Follows :
      (first : Phase)
      → IsValid start
      → (r : Ring) (p : Phase) → Run start first r p
      → Follows start r p
  Run-Follows first v r p here = record {
    valid = v;
    capacity_same = refl;
    head_grows = omega arith;
    entries_stay = λ idx old near. refl;
  }
  Run-Follows first v s q (next {r = r} {p = p} run step) =
      Step-Follows r s p q (Run-Follows first v r p run) step

-- An entry that a reader has seen published at index `idx` stays the same through any steps of the producer and of
-- eviction, in any order and from the middle of an `Append` as well, until the producer starts to write entry
-- number `idx + capacity`.
pub Run-entries_stay :
    (start r : Ring) (first p : Phase) (idx : ℕ)
    → IsValid start
    → Run start first r p
    → idx < start.head
    → r.head + writing p ≤ idx + start.capacity
    → entry_at r idx ≡ entry_at start idx
Run-entries_stay start r first p idx v run old near =
    (Run-Follows start first v r p run).entries_stay idx old near

wrap_slot : {r : Ring} → IsValid r → (idx : ℕ) → slot r (idx + r.capacity) ≡ slot r idx
wrap_slot {r} v idx =
    slot_mod v (idx + r.capacity)
    ∙ ap (λ k. k % r.capacity) (one_more idx r.capacity)
    ∙ add-mul-mod_self_right idx 1 r.capacity
    ∙ sym (slot_mod v idx)
  where
    one_more : (m c : ℕ) → m + c ≡ m + 1 * c
    one_more m c = omega arith

-- The bound is sharp: the first write of an `Append` into a ring with `capacity` entries visible replaces the
-- timestamp of the oldest of them, before the tail or the head moves, so also while eviction copies it.
pub full_ring-overwritten :
    (r : Ring) (a : Arguments) (idx : ℕ)
    → IsValid r
    → r.head ≡ idx + r.capacity
    → r.tail ≤ idx
    → ((snapshot r).0 ≡ idx)
      × Step (count_overwrite r) (counted a) (put_timestamp (count_overwrite r) a.ts) (timed a)
      × (timestamp_at (put_timestamp (count_overwrite r) a.ts) idx ≡ a.ts)
      × ((put_timestamp (count_overwrite r) a.ts).head ≡ r.head)
      × ((put_timestamp (count_overwrite r) a.ts).tail ≡ r.tail)
unfolding count_overwrite put_timestamp
full_ring-overwritten r a idx v full below = (
  ground (arith, snapshot_lem v, full, below),
  times a,
  ap (λ k. if k == slot r idx then a.ts else r.timestamps (slot r idx))
        (ap (slot r) full ∙ wrap_slot v idx)
      ∙ update_self r.timestamps (slot r idx) a.ts,
  refl,
  refl,
)
