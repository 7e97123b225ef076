-- ===== src/Kernels/Dot.antt =====
-- The integer dot product of src/kernels.cpp does not overflow.
use chronos_vector.Base.{
  ℕ, suc, ◌+◌, ◌*◌, ◌^◌, ◌≤◌, ◌<◌, ◌≡◌, refl, List, [], ◌∷◌, some, arith, length, All,
}
use chronos_vector.Base.Int.{ℤ, pos, negsuc, ◌+ℤ◌, ◌*ℤ◌, pos_part, neg_part}
use chronos_vector.Kernels.{dot_i8, dot_i8_from, checked_i32}
use native.Mathlib.Nat.{mul-le-mul_left, mul-le-mul_right}

-- The exact dot product.
unfoldable pub dot_from : ℤ → List ℤ → List ℤ → ℤ
dot_from acc [] bs = acc
dot_from acc (a ∷ us) [] = acc
dot_from acc (a ∷ us) (b ∷ bs) = dot_from (acc +ℤ (a *ℤ b)) us bs

-- An `int8_t`.
abbrev pub IsInt8 : ℤ → Type 0
IsInt8 z = (pos_part z ≤ 127) × (neg_part z ≤ 128)

-- The magnitude is at most `m`.
abbrev pub IsWithin : ℕ → ℤ → Type 0
IsWithin m z = (pos_part z ≤ m) × (neg_part z ≤ m)

checked_within : (m : ℕ) (z : ℤ) → m < 2 ^ 31 → IsWithin m z → checked_i32 z ≡ some z
unfolding checked_i32
checked_within m (pos n) small h = ground arith
checked_within m (negsuc n) small h = ground arith

mul_bound : (x y : ℕ) → x ≤ 128 → y ≤ 128 → x * y ≤ 16384
mul_bound x y h k = omega (arith, mul-le-mul_right y h, mul-le-mul_left 128 k)

product-IsWithin : (a b : ℤ) → IsInt8 a → IsInt8 b → IsWithin 16384 (a *ℤ b)
unfolding ◌*ℤ◌
product-IsWithin (pos x) (pos y) h k = ground (arith, mul_bound x y (omega arith) (omega arith))
product-IsWithin (pos x) (negsuc y) h k =
    ground (arith, mul_bound x (suc y) (omega arith) (omega arith))
product-IsWithin (negsuc x) (pos y) h k =
    ground (arith, mul_bound (suc x) y (omega arith) (omega arith))
product-IsWithin (negsuc x) (negsuc y) h k =
    ground (arith, mul_bound (suc x) (suc y) (omega arith) (omega arith))

sum-IsWithin : (m n : ℕ) (a b : ℤ) → IsWithin m a → IsWithin n b → IsWithin (m + n) (a +ℤ b)
unfolding ◌+ℤ◌
sum-IsWithin m n a b h k = ground arith

dot_from_lem :
    (m : ℕ) (acc : ℤ) (us bs : List ℤ)
    → IsWithin m acc
    → All IsInt8 us
    → All IsInt8 bs
    → m + 16384 * length us < 2 ^ 31
    → dot_i8_from acc us bs ≡ some (dot_from acc us bs)
unfolding dot_i8_from dot_from
dot_from_lem m acc [] bs w ha hb small = refl
dot_from_lem m acc (a ∷ us) [] w ha hb small = refl
dot_from_lem m acc (a ∷ us) (b ∷ bs) w (ha, has) (hb, hbs) small =
    let next = sum-IsWithin m 16384 acc (a *ℤ b) w (product-IsWithin a b ha hb) in
    rw (dot_i8_from, checked_within (m + 16384) (acc +ℤ (a *ℤ b)) (omega arith) next)
      (dot_from_lem (m + 16384) (acc +ℤ (a *ℤ b)) us bs next has hbs (omega arith))

-- For `int8_t` arrays of at most 131071 values, which is above the largest `dim` of a configuration,
-- no partial sum of `dot_i8` leaves `int32_t`, and the result is the exact dot product.
pub dot_i8-exact :
    (us bs : List ℤ)
    → All IsInt8 us
    → All IsInt8 bs
    → length us ≤ 131071
    → dot_i8 us bs ≡ some (dot_from (pos 0) us bs)
unfolding dot_i8
dot_i8-exact us bs ha hb short =
    dot_from_lem 0 (pos 0) us bs (omega arith, omega arith) ha hb (omega arith)
