-- ===== src/Base/Memory.antt =====
-- A block of memory as a function from offsets, with `memcpy` in and out.
use Prim.Native.Nat.{ℕ, zero, suc, ◌+◌, ◌-◌, ◌≤◌, ◌<◌}
use mathlib.Core.Path.{◌≡◌, refl, ap, ap₂, ◌∙◌}
use mathlib.Core.Logic.{◌⊎◌}
use mathlib.Core.Bool.{◌&&◌}
use mathlib.Core.List.{List, [], ◌∷◌}
use native.Mathlib.Omega.{arith}
use chronos_vector.Base.Tests.{ltb, leb, ◌==◌, if◌then◌else◌, lt→ltb, le→leb}
use chronos_vector.Base.Lists.{length, get_or}

-- `a[i] = v`.
abbrev pub update {ℓ} : {A : Type ℓ} → (ℕ → A) → ℕ → A → ℕ → A
update a i v j = if i == j then v else a j

-- `memcpy(m + off, bytes, n)` for the `n` bytes of the list.
unfoldable pub write_bytes : (ℕ → ℕ) → ℕ → List ℕ → ℕ → ℕ
write_bytes m off bytes i =
    if leb off i && ltb i (off + length bytes) then get_or bytes (i - off) 0 else m i

-- The `n` bytes from `off` on.
unfoldable pub read_bytes : (ℕ → ℕ) → ℕ → ℕ → List ℕ
read_bytes m off zero = []
read_bytes m off (suc n) = m off ∷ read_bytes m (off + 1) n

pub length-read_bytes : (m : ℕ → ℕ) (off n : ℕ) → length (read_bytes m off n) ≡ n
unfolding read_bytes
length-read_bytes m off zero = refl
length-read_bytes m off (suc n) = ap suc (length-read_bytes m (off + 1) n)

-- Equal memory reads equal bytes.
pub read_bytes_cong :
    (m m' : ℕ → ℕ) (off n : ℕ)
    → ((i : ℕ) → off ≤ i → i < off + n → m i ≡ m' i)
    → read_bytes m off n ≡ read_bytes m' off n
unfolding read_bytes
read_bytes_cong m m' off zero h = refl
read_bytes_cong m m' off (suc n) h =
    ap₂ ◌∷◌ (h off (omega arith) (omega arith))
      (read_bytes_cong m m' (off + 1) n (λ i p q. h i (omega arith) (omega arith)))

-- What is read apart from a write is unchanged.
pub read-write_disjoint :
    (m : ℕ → ℕ) (off : ℕ) (bytes : List ℕ) (off' n : ℕ)
    → (off' + n ≤ off) ⊎ (off + length bytes ≤ off')
    → read_bytes (write_bytes m off bytes) off' n ≡ read_bytes m off' n
unfolding write_bytes
read-write_disjoint m off bytes off' n h =
    read_bytes_cong (write_bytes m off bytes) m off' n (λ i p q. ground arith)

-- What was written is read back: the bytes are consecutive items of a longer list.
read_bytes_items :
    (m : ℕ → ℕ) (off : ℕ) (xs : List ℕ)
    → ((i : ℕ) → i < length xs → m (off + i) ≡ get_or xs i 0)
    → read_bytes m off (length xs) ≡ xs
unfolding read_bytes
read_bytes_items m off [] h = refl
read_bytes_items m off (x ∷ xs) h =
    ap₂ ◌∷◌ (ap m (omega arith) ∙ h 0 (omega arith))
      (read_bytes_items m (off + 1) xs (λ i p. ap m (omega arith) ∙ h (suc i) (omega arith)))

write_bytes_item :
    (m : ℕ → ℕ) (off : ℕ) (bytes : List ℕ) (i : ℕ)
    → i < length bytes
    → write_bytes m off bytes (off + i) ≡ get_or bytes i 0
unfolding write_bytes
write_bytes_item m off bytes i h =
    let e : off + i - off ≡ i = omega arith in
    rw (le→leb off (off + i) (omega arith), lt→ltb (off + i) (off + length bytes) (omega arith), e)

pub read-write_self :
    (m : ℕ → ℕ) (off : ℕ) (bytes : List ℕ)
    → read_bytes (write_bytes m off bytes) off (length bytes) ≡ bytes
read-write_self m off bytes =
    read_bytes_items (write_bytes m off bytes) off bytes (write_bytes_item m off bytes)
