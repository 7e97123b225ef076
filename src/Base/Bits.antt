-- ===== src/Base/Bits.antt =====
-- `&`, `|` and `^` of words as arithmetic. The native operations have no laws at variables.
use Prim.Native.Nat.{
  ℕ, zero, suc, ◌+◌, ◌-◌, ◌*◌, ◌/◌, ◌%◌, ◌^◌, ◌≤◌, ◌<◌, min, max, digits, bitwise, bit_and, bit_or,
  bit_xor, bit_and-bitwise, bit_or-bitwise, bit_xor-bitwise, differ,
}
use mathlib.Core.Path.{◌≡◌, refl, ap, ◌∙◌, sym}
use native.Mathlib.Nat.{pow-suc, one-le-pow, le_refl}
use native.Mathlib.Omega.{arith}

-- The recursion on binary digits does not depend on its fuel, which gives one equation for the
-- lowest digit of each operation.
module _ (z : ℕ → ℕ) (f : ℕ → ℕ → ℕ) where
  fuel_irrelevant : (bound m u w : ℕ) → u ≤ bound → u ≤ m → digits z f bound u w ≡ digits z f m u w
  fuel_irrelevant zero zero u w p q = refl
  fuel_irrelevant zero (suc m) zero w p q = refl
  fuel_irrelevant zero (suc m) (suc u) w p q = absurd (omega arith)
  fuel_irrelevant (suc bound) zero zero w p q = refl
  fuel_irrelevant (suc bound) zero (suc u) w p q = absurd (omega arith)
  fuel_irrelevant (suc bound) (suc m) zero w p q = refl
  fuel_irrelevant (suc bound) (suc m) (suc u) w p q =
      ap (λ t. t * 2 + f (suc u % 2) (w % 2))
        (fuel_irrelevant bound m (suc u / 2) (w / 2) (omega arith) (omega arith))

  lowest_digit :
      (u w : ℕ)
      → bitwise z f (suc u) w ≡ bitwise z f (suc u / 2) (w / 2) * 2 + f (suc u % 2) (w % 2)
  lowest_digit u w =
      ap (λ t. t * 2 + f (suc u % 2) (w % 2))
        (fuel_irrelevant u (suc u / 2) (suc u / 2) (w / 2) (omega arith) (le_refl _))

pub bit_and_step : (u w : ℕ) → bit_and u w ≡ bit_and (u / 2) (w / 2) * 2 + min (u % 2) (w % 2)
bit_and_step zero w = omega (arith, bit_and-bitwise 0 w, bit_and-bitwise 0 (w / 2))
bit_and_step (suc u) w = omega (
  arith,
  lowest_digit (λ t. 0) min u w,
  bit_and-bitwise (suc u / 2) (w / 2),
  bit_and-bitwise (suc u) w,
)

bit_or_step : (u w : ℕ) → bit_or u w ≡ bit_or (u / 2) (w / 2) * 2 + max (u % 2) (w % 2)
bit_or_step zero w = omega (arith, bit_or-bitwise 0 w, bit_or-bitwise 0 (w / 2))
bit_or_step (suc u) w = omega (
  arith,
  bit_or-bitwise (suc u) w,
  bit_or-bitwise (suc u / 2) (w / 2),
  lowest_digit (λ t. t) max u w,
)

differ_digits : (x y : ℕ) → x < 2 → y < 2 → differ x y ≡ (x + y) % 2
differ_digits zero y p q = omega arith
differ_digits (suc x) zero p q = omega arith
differ_digits (suc zero) (suc zero) p q = refl
differ_digits (suc zero) (suc (suc y)) p q = absurd (omega arith)
differ_digits (suc (suc x)) (suc y) p q = absurd (omega arith)

pub bit_xor_step : (u w : ℕ) → bit_xor u w ≡ bit_xor (u / 2) (w / 2) * 2 + (u % 2 + w % 2) % 2
bit_xor_step zero w = omega (arith, bit_xor-bitwise 0 w, bit_xor-bitwise 0 (w / 2))
bit_xor_step (suc u) w = omega (
  arith,
  bit_xor-bitwise (suc u) w,
  bit_xor-bitwise (suc u / 2) (w / 2),
  lowest_digit (λ t. t) differ u w,
  differ_digits (suc u % 2) (w % 2) (omega arith) (omega arith),
)

-- Zero on the right.
bit_and-zero_below : (bound u : ℕ) → u ≤ bound → bit_and u 0 ≡ 0
bit_and-zero_below bound zero h = refl
bit_and-zero_below zero (suc u) h = absurd (omega arith)
bit_and-zero_below (suc bound) (suc u) h =
    omega (arith, bit_and_step (suc u) 0, bit_and-zero_below bound (suc u / 2) (omega arith))

pub bit_and-zero : (u : ℕ) → bit_and u 0 ≡ 0
bit_and-zero u = bit_and-zero_below u u (omega arith)

bit_or-zero_below : (bound u : ℕ) → u ≤ bound → bit_or u 0 ≡ u
bit_or-zero_below bound zero h = refl
bit_or-zero_below zero (suc u) h = absurd (omega arith)
bit_or-zero_below (suc bound) (suc u) h =
    omega (arith, bit_or_step (suc u) 0, bit_or-zero_below bound (suc u / 2) (omega arith))

bit_xor-zero_below : (bound u : ℕ) → u ≤ bound → bit_xor u 0 ≡ u
bit_xor-zero_below bound zero h = refl
bit_xor-zero_below zero (suc u) h = absurd (omega arith)
bit_xor-zero_below (suc bound) (suc u) h =
    omega (arith, bit_xor_step (suc u) 0, bit_xor-zero_below bound (suc u / 2) (omega arith))

pub bit_xor-zero : (u : ℕ) → bit_xor u 0 ≡ u
bit_xor-zero u = bit_xor-zero_below u u (omega arith)

pub zero-bit_xor : (w : ℕ) → bit_xor 0 w ≡ w
zero-bit_xor w = bit_xor-bitwise 0 w

-- The halves and the lowest digit of an exclusive or.
pub bit_xor_half : (u w : ℕ) → bit_xor u w / 2 ≡ bit_xor (u / 2) (w / 2)
bit_xor_half u w = omega (arith, bit_xor_step u w)

pub bit_xor_odd : (u w : ℕ) → bit_xor u w % 2 ≡ (u % 2 + w % 2) % 2
bit_xor_odd u w = omega (arith, bit_xor_step u w)

bit_xor_comm_fuel : (n a b : ℕ) → a ≤ n → bit_xor a b ≡ bit_xor b a
bit_xor_comm_fuel n zero b h = zero-bit_xor b ∙ sym (bit_xor-zero b)
bit_xor_comm_fuel zero (suc a) b h = absurd (omega arith)
bit_xor_comm_fuel (suc n) (suc a) b h = omega (
  arith,
  bit_xor_step (suc a) b,
  bit_xor_step b (suc a),
  bit_xor_comm_fuel n (suc a / 2) (b / 2) (omega arith),
)

pub bit_xor_comm : (a b : ℕ) → bit_xor a b ≡ bit_xor b a
bit_xor_comm a b = bit_xor_comm_fuel a a b (omega arith)

bit_xor_self_fuel : (n a : ℕ) → a ≤ n → bit_xor a a ≡ 0
bit_xor_self_fuel n zero h = refl
bit_xor_self_fuel zero (suc a) h = absurd (omega arith)
bit_xor_self_fuel (suc n) (suc a) h =
    omega (arith, bit_xor_step (suc a) (suc a), bit_xor_self_fuel n (suc a / 2) (omega arith))

pub bit_xor_self : (a : ℕ) → bit_xor a a ≡ 0
bit_xor_self a = bit_xor_self_fuel a a (omega arith)

bit_xor_assoc_fuel : (n a b c : ℕ) → a ≤ n → bit_xor (bit_xor a b) c ≡ bit_xor a (bit_xor b c)
bit_xor_assoc_fuel n zero b c h = rw (zero-bit_xor b, zero-bit_xor (bit_xor b c))
bit_xor_assoc_fuel zero (suc a) b c h = absurd (omega arith)
bit_xor_assoc_fuel (suc n) (suc a) b c h = omega (
  arith,
  bit_xor_step (bit_xor (suc a) b) c,
  bit_xor_step (suc a) (bit_xor b c),
  ap (λ (t : ℕ). bit_xor t (c / 2)) (bit_xor_half (suc a) b),
  ap (λ (t : ℕ). bit_xor (suc a / 2) t) (bit_xor_half b c),
  bit_xor_odd (suc a) b,
  bit_xor_odd b c,
  bit_xor_assoc_fuel n (suc a / 2) (b / 2) (c / 2) (omega arith),
)

pub bit_xor_assoc : (a b c : ℕ) → bit_xor (bit_xor a b) c ≡ bit_xor a (bit_xor b c)
bit_xor_assoc a b c = bit_xor_assoc_fuel a a b c (omega arith)

-- An exclusive or with a known word can be undone.
pub bit_xor_cancel : (a b : ℕ) → bit_xor a (bit_xor a b) ≡ b
bit_xor_cancel a b =
    sym (bit_xor_assoc a a b) ∙ ap (λ t. bit_xor t b) (bit_xor_self a) ∙ zero-bit_xor b

pub bit_xor_injective : (a b c : ℕ) → bit_xor a b ≡ bit_xor a c → b ≡ c
bit_xor_injective a b c e = sym (bit_xor_cancel a b) ∙ ap (bit_xor a) e ∙ bit_xor_cancel a c

double_pow : (q k : ℕ) → q * 2 ^ suc k ≡ 2 * (q * 2 ^ k)
double_pow q k = omega (arith, ap (λ (t : ℕ). q * t) (pow-suc 2 k))

bit_and_split : (k q r : ℕ) → r < 2 ^ k → bit_and (q * 2 ^ k + r) (2 ^ k - 1) ≡ r
bit_and_split zero q r fits = ground (arith, bit_and-zero (q * 1 + r))
bit_and_split (suc k) q r fits = ground (
  arith,
  bit_and_step (q * 2 ^ suc k + r) (2 ^ suc k - 1),
  double_pow q k,
  pow-suc 2 k,
  bit_and_split k q (r / 2) (omega arith),
)

-- A mask of `k` ones takes the remainder by `2 ^ k`.
pub bit_and_mask : (k a : ℕ) → bit_and a (2 ^ k - 1) ≡ a % 2 ^ k
bit_and_mask k a = ground (arith, one-le-pow k 2, bit_and_split k (a / 2 ^ k) (a % 2 ^ k))

-- `|` and `^` of a word shifted left and a word below the shift are sums.
pub bit_or_fields : (k q r : ℕ) → r < 2 ^ k → bit_or (q * 2 ^ k) r ≡ q * 2 ^ k + r
bit_or_fields zero q r fits = ground (arith, bit_or-zero_below q q (omega arith))
bit_or_fields (suc k) q r fits =
    ground (
      arith,
      bit_or_step (q * 2 ^ suc k) r,
      double_pow q k,
      bit_or_fields k q (r / 2) (omega arith),
    )

pub bit_xor_fields : (k q r : ℕ) → r < 2 ^ k → bit_xor (q * 2 ^ k) r ≡ q * 2 ^ k + r
bit_xor_fields zero q r fits = ground (arith, bit_xor-zero q)
bit_xor_fields (suc k) q r fits = ground (
  arith,
  bit_xor_step (q * 2 ^ suc k) r,
  double_pow q k,
  bit_xor_fields k q (r / 2) (omega arith),
)

pub bit_xor-lt : (k a b : ℕ) → a < 2 ^ k → b < 2 ^ k → bit_xor a b < 2 ^ k
bit_xor-lt zero a b p q = ground (arith, bit_xor_step a b, bit_xor-zero 0)
bit_xor-lt (suc k) a b p q = omega (
  arith,
  bit_xor_step a b,
  pow-suc 2 k,
  bit_xor-lt k (a / 2) (b / 2) (omega (arith, pow-suc 2 k)) (omega (arith, pow-suc 2 k)),
)

pub bit_and-one : (a : ℕ) → bit_and a 1 ≡ a % 2
bit_and-one a = bit_and_mask 1 a
