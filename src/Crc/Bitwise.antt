-- ===== src/Crc/Bitwise.antt =====
-- The table-driven CRC is the bit-by-bit CRC.
use Prim.Native.Nat.{bit_xor}
use native.Mathlib.Nat.{pow-suc}
use chronos_vector.Base.{
  ℕ, zero, suc, ◌+◌, ◌*◌, ◌/◌, ◌%◌, ◌^◌, ◌<◌, ◌≡◌, refl, sym, ap, ap₂, ◌∙◌, ◌⊎◌, List, [], ◌∷◌,
  take, All, inl, inr, arith,
}
use chronos_vector.Base.Bits.{
  bit_and-one, bit_and_mask, bit_xor_half, bit_xor_odd, bit_xor_comm, bit_xor_assoc, bit_xor_cancel,
  bit_xor_fields, bit_xor-zero,
}
use chronos_vector.Bytes.Laws.{IsByte}
use chronos_vector.Crc.{
  polynomial, crc_round, crc_rounds, crc_table, crc_step, crc_loop, crc32_ieee,
}

-- The definition of the reflected CRC32: each byte enters the register, and eight shifts follow.
pub bitwise_loop : ℕ → List ℕ → ℕ
bitwise_loop c [] = c
bitwise_loop c (b ∷ bs) = bitwise_loop (crc_rounds 8 (bit_xor c b)) bs

pub crc32_bitwise : List ℕ → ℕ → ℕ
crc32_bitwise bytes len = bit_xor (bitwise_loop 0xFFFFFFFF (take len bytes)) 0xFFFFFFFF

-- A round by the parity of the register.
pub round_even : (x : ℕ) → x % 2 ≡ 0 → crc_round x ≡ x / 2
unfolding crc_round
round_even x h = ground (arith, bit_and-one x)

pub round_odd : (x : ℕ) → x % 2 ≡ 1 → crc_round x ≡ bit_xor polynomial (x / 2)
unfolding crc_round
round_odd x h = ground (arith, bit_and-one x)

swap_first : (p a b : ℕ) → bit_xor p (bit_xor a b) ≡ bit_xor a (bit_xor p b)
swap_first p a b =
    sym (bit_xor_assoc p a b) ∙ ap (λ t. bit_xor t b) (bit_xor_comm p a) ∙ bit_xor_assoc a p b

cancel_both : (p a b : ℕ) → bit_xor (bit_xor p a) (bit_xor p b) ≡ bit_xor a b
cancel_both p a b =
    bit_xor_assoc p a (bit_xor p b)
    ∙ ap (bit_xor p) (swap_first a p b)
    ∙ bit_xor_cancel p (bit_xor a b)

pub parity : (x : ℕ) → (x % 2 ≡ 0) ⊎ (x % 2 ≡ 1)
parity x = omega arith

sum_parity : (a b x y : ℕ) → a % 2 ≡ x → b % 2 ≡ y → bit_xor a b % 2 ≡ (x + y) % 2
sum_parity a b x y p q = bit_xor_odd a b ∙ ap₂ (λ (u v : ℕ). (u + v) % 2) p q

-- A round is linear in the exclusive or.
pub crc_round-bit_xor : (a b : ℕ) → crc_round (bit_xor a b) ≡ bit_xor (crc_round a) (crc_round b)
crc_round-bit_xor a b = elim (parity a) [
  | inl ea ↦ elim (parity b) [
    | inl eb ↦
        rw (round_even a ea, round_even b eb, round_even (bit_xor a b) (sum_parity a b 0 0 ea eb))
          (bit_xor_half a b)
    | inr ob ↦
        rw (round_even a ea, round_odd b ob, round_odd (bit_xor a b) (sum_parity a b 0 1 ea ob))
          (ap (bit_xor polynomial) (bit_xor_half a b) ∙ swap_first polynomial (a / 2) (b / 2))
  ]
  | inr oa ↦ elim (parity b) [
    | inl eb ↦
        rw (round_odd a oa, round_even b eb, round_odd (bit_xor a b) (sum_parity a b 1 0 oa eb))
          (ap (bit_xor polynomial) (bit_xor_half a b)
            ∙ sym (bit_xor_assoc polynomial (a / 2) (b / 2)))
    | inr ob ↦
        rw (round_odd a oa, round_odd b ob, round_even (bit_xor a b) (sum_parity a b 1 1 oa ob))
          (bit_xor_half a b ∙ sym (cancel_both polynomial (a / 2) (b / 2)))
  ]
]

pub crc_rounds-bit_xor :
    (k a b : ℕ) → crc_rounds k (bit_xor a b) ≡ bit_xor (crc_rounds k a) (crc_rounds k b)
unfolding crc_rounds
crc_rounds-bit_xor zero a b = refl
crc_rounds-bit_xor (suc k) a b =
    ap (crc_rounds k) (crc_round-bit_xor a b) ∙ crc_rounds-bit_xor k (crc_round a) (crc_round b)

-- `k` rounds drop `k` zero bits.
crc_rounds_shift : (k q : ℕ) → crc_rounds k (q * 2 ^ k) ≡ q
unfolding crc_rounds
crc_rounds_shift zero q = omega arith
crc_rounds_shift (suc k) q =
    ap (crc_rounds k) (round_even (q * 2 ^ suc k) (omega (arith, doubled)) ∙ halved)
    ∙ crc_rounds_shift k q
  where
    doubled : q * 2 ^ suc k ≡ 2 * (q * 2 ^ k)
    doubled = omega (arith, ap (λ (t : ℕ). q * t) (pow-suc 2 k))

    halved : q * 2 ^ suc k / 2 ≡ q * 2 ^ k
    halved = omega (arith, doubled)

-- Eight rounds by the table: those of the low byte, and the rest shifted.
crc_rounds_byte : (x : ℕ) → crc_rounds 8 x ≡ bit_xor (crc_rounds 8 (x % 256)) (x / 256)
crc_rounds_byte x =
    ap (crc_rounds 8) (split ∙ bit_xor_comm (x / 256 * 2 ^ 8) (x % 256))
    ∙ crc_rounds-bit_xor 8 (x % 256) (x / 256 * 2 ^ 8)
    ∙ ap (bit_xor (crc_rounds 8 (x % 256))) (crc_rounds_shift 8 (x / 256))
  where
    split : x ≡ bit_xor (x / 256 * 2 ^ 8) (x % 256)
    split = omega (arith, bit_xor_fields 8 (x / 256) (x % 256) (omega arith))

shift_eight : (a b : ℕ) → bit_xor a b / 256 ≡ bit_xor (a / 256) (b / 256)
shift_eight a b = sym (quarter (bit_xor a b)) ∙ halves ∙ ap₂ bit_xor (quarter a) (quarter b)
  where
    quarter : (x : ℕ) → x / 2 / 2 / 2 / 2 / 2 / 2 / 2 / 2 ≡ x / 256
    quarter x = omega arith

    halves :
        bit_xor a b / 2 / 2 / 2 / 2 / 2 / 2 / 2 / 2
        ≡ bit_xor (a / 2 / 2 / 2 / 2 / 2 / 2 / 2 / 2) (b / 2 / 2 / 2 / 2 / 2 / 2 / 2 / 2)
    halves = simp bit_xor_half

-- A step of the table loop is a step of the bitwise loop.
pub crc_step-eq-rounds : (c b : ℕ) → b < 256 → crc_step c b ≡ crc_rounds 8 (bit_xor c b)
unfolding crc_table crc_step
crc_step-eq-rounds c b h =
    rw (bit_and_mask 8 (bit_xor c b), crc_rounds_byte (bit_xor c b), shift_eight c b)
      (ap (bit_xor (crc_rounds 8 (bit_xor c b % 256))) high)
  where
    small : b / 256 ≡ 0
    small = omega arith

    high : c / 2 ^ 8 ≡ bit_xor (c / 256) (b / 256)
    high = rw (small, bit_xor-zero)

-- The register after the whole input.
crc_loop-eq-bitwise : (c : ℕ) (bs : List ℕ) → All IsByte bs → crc_loop c bs ≡ bitwise_loop c bs
unfolding crc_loop bitwise_loop
crc_loop-eq-bitwise c [] h = refl
crc_loop-eq-bitwise c (b ∷ bs) (hb, hbs) =
    crc_loop-eq-bitwise (crc_step c b) bs hbs
    ∙ ap (λ r. bitwise_loop r bs) (crc_step-eq-rounds c b hb)

take-All : (n : ℕ) (bs : List ℕ) → All IsByte bs → All IsByte (take n bs)
take-All zero bs h = tt
take-All (suc n) [] h = tt
take-All (suc n) (b ∷ bs) (hb, hbs) = (hb, take-All n bs hbs)

-- `crc32_ieee`, which looks a table up once for each byte, returns the CRC that the bit-by-bit
-- definition of the reflected polynomial gives, on any bytes and any length.
pub crc32_ieee-eq-bitwise :
    (bytes : List ℕ) (len : ℕ) → All IsByte bytes → crc32_ieee bytes len ≡ crc32_bitwise bytes len
unfolding crc32_ieee crc32_bitwise
crc32_ieee-eq-bitwise bytes len h =
    ap (λ r. bit_xor r 0xFFFFFFFF)
      (crc_loop-eq-bitwise 0xFFFFFFFF (take len bytes) (take-All len bytes h))
