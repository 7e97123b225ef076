-- ===== src/Ring/Window.antt =====
-- The entries of the ring of include/chronosv/ring_buffer.h, and what `Append` does to each of them.
use chronos_vector.Base.{
  ℕ, zero, suc, ◌+◌, ◌-◌, ◌*◌, ◌≤◌, ◌<◌, ◌≡◌, ◌≢◌, refl, ap, ap₂, ◌∙◌, sym, ◌⊎◌, inl, inr, List, [],
  ◌∷◌, ◌++◌, length, take, drop, length-take, arith, ◌==◌, if◌then◌else◌, ltb, Option, none, some,
  ==_false, ==_iff, Bool, true, false, Bool-cases,
}
use chronos_vector.Base.Int.{ℤ}
use chronos_vector.Base.Memory.{
  update, read_bytes, write_bytes, read-write_self, read-write_disjoint,
}
use chronos_vector.Types.{dtype_int8}
use chronos_vector.Ring.{Ring, Entry, append, snapshot, entry_at, slot, vsz, payload_at}
use chronos_vector.Ring.Inv.{rows_apart}

-- The entries at `n` indices from `start` on.
unfoldable pub entries : Ring → ℕ → ℕ → List Entry
entries r start zero = []
entries r start (suc n) = entry_at r start ∷ entries r (start + 1) n

-- What a reader sees: the entries of the snapshot, oldest first.
unfoldable pub contents : Ring → List Entry
unfolding entries
contents r = entries r (snapshot r).0 ((snapshot r).1 - (snapshot r).0)

pub update_self {ℓ} : {A : Type ℓ} (a : ℕ → A) (i : ℕ) (v : A) → update a i v i ≡ v
update_self a i v = ap (λ z. if z then v else a i) ((==_iff i i).1 refl)

pub update_ne {ℓ} : {A : Type ℓ} (a : ℕ → A) (i j : ℕ) (v : A) → i ≢ j → update a i v j ≡ a j
update_ne a i j v ne = ap (λ z. if z then v else a j) (==_false i j ne)

write_read :
    (m : ℕ → ℕ) (off n : ℕ) (bytes : List ℕ)
    → length bytes ≡ n
    → read_bytes (write_bytes m off bytes) off n ≡ bytes
write_read m off n bytes h =
    ap (read_bytes (write_bytes m off bytes) off) (sym h) ∙ read-write_self m off bytes

pub write_elsewhere :
    (m : ℕ → ℕ) (i j n : ℕ) (bytes : List ℕ)
    → i ≢ j
    → length bytes ≤ n
    → read_bytes (write_bytes m (i * n) bytes) (j * n) n ≡ read_bytes m (j * n) n
write_elsewhere m i j n bytes ne h =
    read-write_disjoint m (i * n) bytes (j * n) n (apart (rows_apart i j n ne))
  where
    apart :
        (i * n + n ≤ j * n) ⊎ (j * n + n ≤ i * n)
        → (j * n + n ≤ i * n) ⊎ (i * n + length bytes ≤ j * n)
    apart (inl p) = inr (omega arith)
    apart (inr p) = inl p

-- The payload that a slot holds after a write: a null payload leaves the old bytes.
pub stored_payload : Ring → Option (List ℕ) → List ℕ
stored_payload r none = payload_at r r.head
stored_payload r (some p) = take r.payload_size p

-- The entry that `Append` stores.
pub stored : Ring → ℤ → List ℕ → ℕ → Option (List ℕ) → ℕ → Entry
stored r ts vec norm payload scale = record {
  ts = ts;
  vec = take (vsz r) vec;
  norm = norm;
  scale = if r.dtype == dtype_int8 then scale else 0;
  payload = stored_payload r payload;
}

-- The caller's buffers hold what `Append` reads from them.
abbrev pub HoldsPayload : Ring → Option (List ℕ) → Type 0
HoldsPayload r none = Unit {0}
HoldsPayload r (some p) = r.payload_size ≤ length p

no_row : (m : ℕ → ℕ) (off n : ℕ) (p : List ℕ) → n ≡ 0 → read_bytes m off n ≡ take n p
unfolding read_bytes
no_row m off n p e = rw e

-- The payload column around a write at slot `i`, with rows of `n` bytes.
abbrev payload_write : (ℕ → ℕ) → ℕ → ℕ → Option (List ℕ) → ℕ → ℕ
payload_write m i n payload = elim payload [
  | none ↦ m
  | some p ↦ if ltb 0 n then write_bytes m (i * n) (take n p) else m
]

payload_written :
    (m : ℕ → ℕ) (i n : ℕ) (p : List ℕ)
    → n ≤ length p
    → read_bytes (payload_write m i n (some p)) (i * n) n ≡ take n p
payload_written m i n p h = elim (Bool-cases (ltb 0 n)) [
  | inl some_bytes ↦
      ap (λ z. read_bytes (if z then write_bytes m (i * n) (take n p) else m) (i * n) n) some_bytes
      ∙ write_read m (i * n) n (take n p) (omega (arith, length-take n p))
  | inr no_bytes ↦ no_row (payload_write m i n (some p)) (i * n) n p (ground arith)
]

pub payload_elsewhere :
    (m : ℕ → ℕ) (i j n : ℕ) (payload : Option (List ℕ))
    → i ≢ j
    → read_bytes (payload_write m i n payload) (j * n) n ≡ read_bytes m (j * n) n
payload_elsewhere m i j n none ne = refl
payload_elsewhere m i j n (some p) ne = elim (Bool-cases (ltb 0 n)) [
  | inl some_bytes ↦
      ap (λ z. read_bytes (if z then write_bytes m (i * n) (take n p) else m) (j * n) n) some_bytes
      ∙ write_elsewhere m i j n (take n p) ne (omega (arith, length-take n p))
  | inr no_bytes ↦
      ap (λ z. read_bytes (if z then write_bytes m (i * n) (take n p) else m) (j * n) n) no_bytes
]

scale_written :
    (z : Bool) (a : ℕ → ℕ) (i scale : ℕ)
    → (if z then (if z then update a i scale else a) i else 0) ≡ (if z then scale else 0)
scale_written true a i scale = update_self a i scale
scale_written false a i scale = refl

pub scale_elsewhere :
    (z : Bool) (a : ℕ → ℕ) (i j scale : ℕ)
    → i ≢ j
    → (if z then (if z then update a i scale else a) j else 0) ≡ (if z then a j else 0)
scale_elsewhere true a i j scale ne = update_ne a i j scale ne
scale_elsewhere false a i j scale ne = refl

new_payload :
    (r : Ring) (payload : Option (List ℕ))
    → HoldsPayload r payload
    → read_bytes
        (payload_write r.payloads (slot r r.head) r.payload_size payload)
        (slot r r.head * r.payload_size)
        r.payload_size
      ≡ stored_payload r payload
unfolding stored_payload
new_payload r none h = refl
new_payload r (some p) h = payload_written r.payloads (slot r r.head) r.payload_size p h

-- The slot that is written holds the new entry.
pub entry_at-append_new :
    (r : Ring) (ts : ℤ) (vec : List ℕ) (norm : ℕ) (payload : Option (List ℕ)) (scale : ℕ)
    → vsz r ≤ length vec
    → HoldsPayload r payload
    → entry_at (append r ts vec norm payload scale) r.head ≡ stored r ts vec norm payload scale
unfolding append entry_at stored
entry_at-append_new r ts vec norm payload scale hv hp = λ i. record {
  ts = update_self r.timestamps (slot r r.head) ts i;
  vec =
      write_read r.vectors (slot r r.head * vsz r) (vsz r) (take (vsz r) vec)
        (omega (arith, length-take (vsz r) vec)) i;
  norm = update_self r.norms (slot r r.head) norm i;
  scale = scale_written (r.dtype == dtype_int8) r.scales (slot r r.head) scale i;
  payload = new_payload r payload hp i;
}

-- Every other slot keeps its entry.
pub entry_at-append_old :
    (r : Ring) (ts : ℤ) (vec : List ℕ) (norm : ℕ) (payload : Option (List ℕ)) (scale j : ℕ)
    → slot r r.head ≢ slot r j
    → entry_at (append r ts vec norm payload scale) j ≡ entry_at r j
unfolding append entry_at
entry_at-append_old r ts vec norm payload scale j ne = λ i. record {
  ts = update_ne r.timestamps (slot r r.head) (slot r j) ts ne i;
  vec =
      write_elsewhere r.vectors (slot r r.head) (slot r j) (vsz r) (take (vsz r) vec) ne
        (omega (arith, length-take (vsz r) vec)) i;
  norm = update_ne r.norms (slot r r.head) (slot r j) norm ne i;
  scale = scale_elsewhere (r.dtype == dtype_int8) r.scales (slot r r.head) (slot r j) scale ne i;
  payload = payload_elsewhere r.payloads (slot r r.head) (slot r j) r.payload_size payload ne i;
}

-- Lists of entries.
pub length-entries : (r : Ring) (s n : ℕ) → length (entries r s n) ≡ n
unfolding entries
length-entries r s zero = refl
length-entries r s (suc n) = ap suc (length-entries r (s + 1) n)

pub entries_snoc :
    (r : Ring) (s n : ℕ) → entries r s (suc n) ≡ entries r s n ++ (entry_at r (s + n) ∷ [])
unfolding entries
entries_snoc r s zero = ap (λ j. entry_at r j ∷ []) (omega arith)
entries_snoc r s (suc n) =
    let e : s + 1 + n ≡ s + suc n = omega arith in
    ap (λ t. entry_at r s ∷ t)
      (entries_snoc r (s + 1) n ∙ ap (λ j. entries r (s + 1) n ++ (entry_at r j ∷ [])) e)

pub entries_cong :
    (r r' : Ring) (s n : ℕ)
    → ((j : ℕ) → s ≤ j → j < s + n → entry_at r j ≡ entry_at r' j)
    → entries r s n ≡ entries r' s n
unfolding entries
entries_cong r r' s zero h = refl
entries_cong r r' s (suc n) h =
    ap₂ ◌∷◌ (h s (omega arith) (omega arith))
      (entries_cong r r' (s + 1) n (λ j p q. h j (omega arith) (omega arith)))

pub drop-entries :
    (r : Ring) (s n k : ℕ) → k ≤ n → drop k (entries r s n) ≡ entries r (s + k) (n - k)
unfolding entries
drop-entries r s n zero h = ap₂ (entries r) (omega arith) (omega arith)
drop-entries r s zero (suc k) h = absurd (omega arith)
drop-entries r s (suc n) (suc k) h =
    drop-entries r (s + 1) n k (omega arith) ∙ ap₂ (entries r) (omega arith) (omega arith)

pub length-contents : (r : Ring) → length (contents r) ≡ (snapshot r).1 - (snapshot r).0
unfolding contents
length-contents r = length-entries r (snapshot r).0 ((snapshot r).1 - (snapshot r).0)
