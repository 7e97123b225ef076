-- ===== src/Codec/Size.antt =====
-- Sizes of blocks: the `size_t` arithmetic of src/block_codec.cpp against the true size.
use native.Mathlib.Nat.{mul-le-mul}
use chronos_vector.Base.{ℕ, ◌+◌, ◌*◌, ◌^◌, ◌≤◌, ◌<◌, ◌≡◌, arith, ◌==◌, if◌then◌else◌}
use chronos_vector.Types.{dtype_size, dtype_int8}
use chronos_vector.Codec.{block_serialized_size, ts_bytes, vec_bytes, scale_bytes, payload_bytes}

-- The shapes that `validate_and_default` admits, with a 32-bit count.
pub record IsShape (count dim size dtype : ℕ) : Type 0 where
  pub count_max : count < 2 ^ 32
  pub dim_pos : 0 < dim
  pub dim_max : dim ≤ 65536
  pub size_max : size ≤ 4096
  pub dtype_known : dtype < 2

-- The bytes of a block, with no wrap.
unfoldable pub true_size : ℕ → ℕ → ℕ → ℕ → ℕ
true_size count dim size dtype =
    40
    + count * 8
    + count * dim * dtype_size dtype
    + (if dtype == dtype_int8 then count * 4 else 0)
    + count * size
    + 4

zero_factor : (m n : ℕ) → n ≡ 0 → m * n ≡ 0
zero_factor m n e = rw e (omega arith)

module _ {count dim size dtype : ℕ} (h : IsShape count dim size dtype) where
  items-le : count * dim ≤ 2 ^ 48
  items-le = let c : count ≤ 2 ^ 32 = omega (arith, h.count_max) in mul-le-mul c h.dim_max

  payloads-le : count * size ≤ 2 ^ 44
  payloads-le = let c : count ≤ 2 ^ 32 = omega (arith, h.count_max) in mul-le-mul c h.size_max

  pub vec_bytes_lem : vec_bytes count dim dtype ≡ count * dim * dtype_size dtype
  vec_bytes_lem = ground (arith, items-le, h.dtype_known)

  pub ts_bytes_lem : ts_bytes count ≡ count * 8
  ts_bytes_lem = omega (arith, h.count_max)

  pub scale_bytes_lem : scale_bytes count dtype ≡ (if dtype == dtype_int8 then count * 4 else 0)
  scale_bytes_lem = ground (arith, h.count_max)

  pub payload_bytes_lem : payload_bytes count size ≡ count * size
  payload_bytes_lem = ground (arith, payloads-le, zero_factor count size)

  -- No `size_t` operation of `block_serialized_size` wraps for the shapes that an engine can have.
  pub block_serialized_size_lem :
      block_serialized_size count dim size dtype ≡ true_size count dim size dtype
  unfolding block_serialized_size true_size
  block_serialized_size_lem =
      ground (arith, items-le, payloads-le, zero_factor count size, h.dtype_known, h.count_max)
