-- ===== src/Crc/Detect.antt =====
-- What the CRC of src/block_codec.cpp detects.
use Prim.Native.Nat.{bit_xor}
use chronos_vector.Base.{
  ℕ, zero, suc, ◌/◌, ◌^◌, ◌<◌, ◌≡◌, ◌≢◌, sym, ap, ◌∙◌, inl, inr, List, [], ◌∷◌, ◌++◌, length, take,
  take_all, take-append_length, All, arith,
}
use chronos_vector.Base.Bits.{bit_xor_comm, bit_xor_cancel, bit_xor_injective, bit_xor-lt}
use chronos_vector.Bytes.Laws.{IsByte}
use chronos_vector.Crc.{polynomial, crc_round, crc_rounds, crc_step, crc_loop, crc32_ieee}
use chronos_vector.Crc.Bitwise.{round_even, round_odd, parity, crc_step-eq-rounds}

-- The polynomial has its top bit set, so a round shows the bit that it dropped.
rounds_differ : (a b : ℕ) → a < 2 ^ 32 → b < 2 ^ 32 → bit_xor polynomial (a / 2) ≢ b / 2
rounds_differ a b ha hb e =
    let f : polynomial ≡ bit_xor (a / 2) (b / 2) =
      sym (bit_xor_cancel (a / 2) polynomial)
      ∙ ap (bit_xor (a / 2)) (bit_xor_comm (a / 2) polynomial ∙ e) in
    absurd (omega (arith, f, bit_xor-lt 31 (a / 2) (b / 2) (omega arith) (omega arith)))

crc_round_injective : (a b : ℕ) → a < 2 ^ 32 → b < 2 ^ 32 → crc_round a ≡ crc_round b → a ≡ b
crc_round_injective a b ha hb e = elim (parity a) [
  | inl ea ↦ elim (parity b) [
    | inl eb ↦ omega (arith, round_even a ea, round_even b eb)
    | inr ob ↦ absurd (rounds_differ b a hb ha (sym (round_odd b ob) ∙ sym e ∙ round_even a ea))
  ]
  | inr oa ↦ elim (parity b) [
    | inl eb ↦ absurd (rounds_differ a b ha hb (sym (round_odd a oa) ∙ e ∙ round_even b eb))
    | inr ob ↦ omega (
      arith,
      bit_xor_injective polynomial (a / 2) (b / 2) (sym (round_odd a oa) ∙ e ∙ round_odd b ob),
    )
  ]
]

crc_round-lt : (a : ℕ) → a < 2 ^ 32 → crc_round a < 2 ^ 32
crc_round-lt a ha = elim (parity a) [
  | inl ea ↦ omega (arith, round_even a ea)
  | inr oa ↦
      omega (arith, round_odd a oa, bit_xor-lt 32 polynomial (a / 2) (omega arith) (omega arith))
]

crc_rounds-lt : (k a : ℕ) → a < 2 ^ 32 → crc_rounds k a < 2 ^ 32
unfolding crc_rounds
crc_rounds-lt zero a ha = ha
crc_rounds-lt (suc k) a ha = crc_rounds-lt k (crc_round a) (crc_round-lt a ha)

crc_rounds_injective :
    (k a b : ℕ) → a < 2 ^ 32 → b < 2 ^ 32 → crc_rounds k a ≡ crc_rounds k b → a ≡ b
unfolding crc_rounds
crc_rounds_injective zero a b ha hb e = e
crc_rounds_injective (suc k) a b ha hb e =
    crc_round_injective a b ha hb
      (crc_rounds_injective k (crc_round a) (crc_round b) (crc_round-lt a ha) (crc_round-lt b hb) e)

word_byte : (c b : ℕ) → c < 2 ^ 32 → b < 256 → bit_xor c b < 2 ^ 32
word_byte c b hc hb = bit_xor-lt 32 c b hc (omega arith)

pub crc_step-lt : (c b : ℕ) → c < 2 ^ 32 → b < 256 → crc_step c b < 2 ^ 32
crc_step-lt c b hc hb =
    rw (crc_step-eq-rounds c b hb) (crc_rounds-lt 8 (bit_xor c b) (word_byte c b hc hb))

steps_agree :
    (c b c' b' : ℕ)
    → c < 2 ^ 32
    → b < 256
    → c' < 2 ^ 32
    → b' < 256
    → crc_step c b ≡ crc_step c' b'
    → bit_xor c b ≡ bit_xor c' b'
steps_agree c b c' b' hc hb hc' hb' e =
    crc_rounds_injective 8 (bit_xor c b) (bit_xor c' b') (word_byte c b hc hb)
      (word_byte c' b' hc' hb') (sym (crc_step-eq-rounds c b hb) ∙ e ∙ crc_step-eq-rounds c' b' hb')

crc_loop_injective :
    (bs : List ℕ) (c c' : ℕ)
    → All IsByte bs
    → c < 2 ^ 32
    → c' < 2 ^ 32
    → crc_loop c bs ≡ crc_loop c' bs
    → c ≡ c'
unfolding crc_loop
crc_loop_injective [] c c' h hc hc' e = e
crc_loop_injective (b ∷ bs) c c' (hb, hbs) hc hc' e = bit_xor_injective b c c' (
    bit_xor_comm b c
    ∙ steps_agree c b c' b hc hb hc' hb (
        crc_loop_injective bs (crc_step c b) (crc_step c' b) hbs (crc_step-lt c b hc hb)
          (crc_step-lt c' b hc' hb) e)
    ∙ bit_xor_comm c' b)

crc_loop_byte :
    (front back : List ℕ) (c b b' : ℕ)
    → All IsByte front
    → All IsByte back
    → c < 2 ^ 32
    → b < 256
    → b' < 256
    → crc_loop c (front ++ (b ∷ back)) ≡ crc_loop c (front ++ (b' ∷ back))
    → b ≡ b'
unfolding crc_loop
crc_loop_byte [] back c b b' hf hk hc hb hb' e = bit_xor_injective c b b' (
    steps_agree c b c b' hc hb hc hb' (
      crc_loop_injective back (crc_step c b) (crc_step c b') hk (crc_step-lt c b hc hb)
        (crc_step-lt c b' hc hb') e))
crc_loop_byte (x ∷ front) back c b b' (hx, hf) hk hc hb hb' e =
    crc_loop_byte front back (crc_step c x) b b' hf hk (crc_step-lt c x hc hx) hb hb' e

-- Replacing any one byte of the input by another byte changes the value of `crc32_ieee` over the
-- whole input.
pub crc32_ieee_detects :
    (front back : List ℕ) (b b' : ℕ)
    → All IsByte front
    → All IsByte back
    → b < 256
    → b' < 256
    → b ≢ b'
    → crc32_ieee (front ++ (b ∷ back)) (length (front ++ (b ∷ back)))
      ≢ crc32_ieee (front ++ (b' ∷ back)) (length (front ++ (b' ∷ back)))
unfolding crc32_ieee
crc32_ieee_detects front back b b' hf hk hb hb' ne e = ne (
    crc_loop_byte front back 0xFFFFFFFF b b' hf hk (omega arith) hb hb'
      (sym (whole (front ++ (b ∷ back))) ∙ undo ∙ whole (front ++ (b' ∷ back))))
  where
    ones : ℕ
    ones = 0xFFFFFFFF

    run : List ℕ → ℕ
    run bs = crc_loop 0xFFFFFFFF (take (length bs) bs)

    whole : (bs : List ℕ) → run bs ≡ crc_loop 0xFFFFFFFF bs
    whole bs = ap (crc_loop 0xFFFFFFFF) (take_all (length bs) bs (omega arith))

    undo : run (front ++ (b ∷ back)) ≡ run (front ++ (b' ∷ back))
    undo = bit_xor_injective ones (run (front ++ (b ∷ back))) (run (front ++ (b' ∷ back))) (
        bit_xor_comm ones (run (front ++ (b ∷ back)))
        ∙ e
        ∙ bit_xor_comm (run (front ++ (b' ∷ back))) ones)

-- The value is a 32-bit word.
pub crc32_ieee-lt : (bytes : List ℕ) (len : ℕ) → All IsByte bytes → crc32_ieee bytes len < 2 ^ 32
unfolding crc32_ieee
crc32_ieee-lt bytes len h =
    bit_xor-lt 32 (crc_loop 0xFFFFFFFF (take len bytes)) 0xFFFFFFFF
      (run len bytes 0xFFFFFFFF h (omega arith)) (omega arith)
  where
    run :
        (n : ℕ) (bs : List ℕ) (c : ℕ) → All IsByte bs → c < 2 ^ 32 → crc_loop c (take n bs) < 2 ^ 32
    run zero bs c h hc = hc
    run (suc n) [] c h hc = hc
    run (suc n) (b ∷ bs) c (hb, hbs) hc = run n bs (crc_step c b) hbs (crc_step-lt c b hc hb)

-- The CRC of the front of a buffer.
pub crc32_ieee-front :
    (n : ℕ) (xs ys : List ℕ) → length xs ≡ n → crc32_ieee (xs ++ ys) n ≡ crc32_ieee xs (length xs)
unfolding crc32_ieee
crc32_ieee-front n xs ys h =
    ap (λ t. bit_xor (crc_loop 0xFFFFFFFF t) 0xFFFFFFFF)
      (take-append_length n xs ys h ∙ sym (take_all (length xs) xs (omega arith)))
