-- ===== src/Codec/Sections.antt =====
-- What `serialize_block` of src/block_codec.cpp writes: its sections and their lengths.
use chronos_vector.Base.{
  ℕ, zero, suc, ◌+◌, ◌*◌, ◌^◌, ◌≤◌, ◌<◌, ◌≡◌, refl, ap, ◌∙◌, true, false, ◌&&◌, List, [], ◌∷◌, ◌++◌,
  take, length, length-append, length-take, All, All-append, All-take, take-append_past, take_nil,
  arith, ◌==◌, if◌then◌else◌,
}
use chronos_vector.Base.Int.{ℤ, IsInt64, word64}
use chronos_vector.Types.{dtype_size, dtype_int8}
use chronos_vector.Bytes.{put_i64s, put_u32s, put_i64_le, put_u32_le}
use chronos_vector.Bytes.Laws.{
  IsByte, put_le-IsByte, length-put_le, length-put_i64s, length-put_u32s,
}
use chronos_vector.Crc.{crc32_ieee}
use chronos_vector.Codec.{
  Block, buffer, lacks_buffer, with_header, data_sections, serialize_block, block_serialized_size,
  block_size, Outputs, Decoded, ts_bytes, vec_bytes, scale_bytes, payload_bytes,
}
use chronos_vector.Codec.Layout.{IsTyped, header_of, length-with_header, with_header-IsByte}
use chronos_vector.Codec.Size.{
  IsShape, true_size, vec_bytes_lem, ts_bytes_lem, scale_bytes_lem, payload_bytes_lem,
  block_serialized_size_lem,
}

-- A block as the engine hands it over: admitted shape, typed fields, and buffers that are there and
-- long enough.
pub record IsComplete (b : Block) : Type 0 where
  pub typed : IsTyped b
  pub shape : IsShape b.count b.dim b.payload_size_bytes b.dtype
  pub given : lacks_buffer b ≡ false
  pub timestamps_long : b.count ≤ length (buffer b.timestamps)
  pub vectors_long : b.count * b.dim * dtype_size b.dtype ≤ length (buffer b.vectors)
  pub scales_long : b.dtype ≡ dtype_int8 → b.count ≤ length (buffer b.scales)
  pub payloads_long : b.count * b.payload_size_bytes ≤ length (buffer b.payloads)
  pub timestamps_typed : All IsInt64 (buffer b.timestamps)
  pub vectors_typed : All IsByte (buffer b.vectors)
  pub scales_typed : All (λ w. w < 2 ^ 32) (buffer b.scales)
  pub payloads_typed : All IsByte (buffer b.payloads)

-- The entries of a block, as far as the caller asked for them.
unfoldable pub view : Block → Outputs → Decoded
view b w = record {
  header = header_of b;
  timestamps = if w.out_timestamps then take b.count (buffer b.timestamps) else [];
  vectors =
      if w.out_vectors then take (b.count * b.dim * dtype_size b.dtype) (buffer b.vectors) else [];
  scales = if w.out_scales && b.dtype == dtype_int8 then take b.count (buffer b.scales) else [];
  payloads =
      if w.out_payloads then take (b.count * b.payload_size_bytes) (buffer b.payloads) else [];
}

take-put_i64s : (n : ℕ) (ts : List ℤ) → take (n * 8) (put_i64s ts) ≡ put_i64s (take n ts)
unfolding put_i64s
take-put_i64s zero ts = refl
take-put_i64s (suc n) [] = take_nil (suc n * 8)
take-put_i64s (suc n) (t ∷ ts) =
    let e : suc n * 8 ≡ 8 + n * 8 = omega arith in
    rw e (
      take-append_past 8 (n * 8) (put_i64_le t) (put_i64s ts) (length-put_le 8 (word64 t))
      ∙ ap (◌++◌ (put_i64_le t)) (take-put_i64s n ts))

pub take-put_u32s : (n : ℕ) (ts : List ℕ) → take (n * 4) (put_u32s ts) ≡ put_u32s (take n ts)
unfolding put_u32s
take-put_u32s zero ts = refl
take-put_u32s (suc n) [] = take_nil (suc n * 4)
take-put_u32s (suc n) (t ∷ ts) =
    let e : suc n * 4 ≡ 4 + n * 4 = omega arith in
    rw e (
      take-append_past 4 (n * 4) (put_u32_le t) (put_u32s ts) (length-put_le 4 t)
      ∙ ap (◌++◌ (put_u32_le t)) (take-put_u32s n ts))

put_i64s-IsByte : (ts : List ℤ) → All IsByte (put_i64s ts)
unfolding put_i64s
put_i64s-IsByte [] = tt
put_i64s-IsByte (t ∷ ts) =
    All-append IsByte (put_i64_le t) (put_i64s ts) (put_le-IsByte 8 (word64 t)) (put_i64s-IsByte ts)

put_u32s-IsByte : (ts : List ℕ) → All IsByte (put_u32s ts)
unfolding put_u32s
put_u32s-IsByte [] = tt
put_u32s-IsByte (t ∷ ts) =
    All-append IsByte (put_u32_le t) (put_u32s ts) (put_le-IsByte 4 t) (put_u32s-IsByte ts)

-- The four sections of a complete block, by what they hold.
module _ (b : Block) (c : IsComplete b) where
  abbrev pub ts_part : List ℕ
  ts_part = put_i64s (take b.count (buffer b.timestamps))

  abbrev pub vec_part : List ℕ
  vec_part = take (b.count * b.dim * dtype_size b.dtype) (buffer b.vectors)

  abbrev pub scale_part : List ℕ
  scale_part = take (scale_bytes b.count b.dtype) (put_u32s (buffer b.scales))

  abbrev pub payload_part : List ℕ
  payload_part = take (b.count * b.payload_size_bytes) (buffer b.payloads)

  pub data_sections_lem : data_sections b ≡ ts_part ++ (vec_part ++ (scale_part ++ payload_part))
  data_sections_lem =
      rw (ts_bytes_lem c.shape, vec_bytes_lem c.shape, payload_bytes_lem c.shape)
        (ap (λ t. t ++ (vec_part ++ (scale_part ++ payload_part)))
          (take-put_i64s b.count (buffer b.timestamps)))

  pub length-ts_part : length ts_part ≡ ts_bytes b.count
  length-ts_part = omega (
    arith,
    ts_bytes_lem c.shape,
    length-put_i64s (take b.count (buffer b.timestamps)),
    length-take b.count (buffer b.timestamps),
    c.timestamps_long,
  )

  pub length-vec_part : length vec_part ≡ vec_bytes b.count b.dim b.dtype
  length-vec_part = omega (
    arith,
    vec_bytes_lem c.shape,
    length-take (b.count * b.dim * dtype_size b.dtype) (buffer b.vectors),
    c.vectors_long,
  )

  pub length-scale_part : length scale_part ≡ scale_bytes b.count b.dtype
  length-scale_part = ground (
    arith,
    c.shape.count_max,
    c.scales_long,
    length-take (scale_bytes b.count b.dtype) (put_u32s (buffer b.scales)),
    length-put_u32s (buffer b.scales),
  )

  pub length-payload_part : length payload_part ≡ payload_bytes b.count b.payload_size_bytes
  length-payload_part = omega (
    arith,
    payload_bytes_lem c.shape,
    length-take (b.count * b.payload_size_bytes) (buffer b.payloads),
    c.payloads_long,
  )

  pub length-data_sections :
      length (data_sections b) + 44
      ≡ block_serialized_size b.count b.dim b.payload_size_bytes b.dtype
  unfolding true_size
  length-data_sections = omega (
    arith,
    ap length data_sections_lem,
    length-append ts_part (vec_part ++ (scale_part ++ payload_part)),
    length-append vec_part (scale_part ++ payload_part),
    length-append scale_part payload_part,
    length-ts_part,
    length-vec_part,
    length-scale_part,
    length-payload_part,
    ts_bytes_lem c.shape,
    vec_bytes_lem c.shape,
    scale_bytes_lem c.shape,
    payload_bytes_lem c.shape,
    block_serialized_size_lem c.shape,
  )

  abbrev pub body : List ℕ
  body = with_header b (data_sections b)

  abbrev pub crc_part : List ℕ
  crc_part = put_u32_le (crc32_ieee body (length body))

  pub serialize_block_lem : serialize_block b true ≡ body ++ crc_part
  unfolding serialize_block
  serialize_block_lem = ground (arith, c.given, c.shape.dim_pos, c.shape.dtype_known)

  -- The number of bytes written is the size that `block_serialized_size` promises.
  pub length-serialize_block :
      length (serialize_block b true)
      ≡ block_serialized_size b.count b.dim b.payload_size_bytes b.dtype
  length-serialize_block = omega (
    arith,
    ap length serialize_block_lem,
    length-append body crc_part,
    length-with_header b (data_sections b),
    length-put_le 4 (crc32_ieee body (length body)),
    length-data_sections,
  )

  data_sections-IsByte : All IsByte (data_sections b)
  data_sections-IsByte =
      All-append IsByte (take (ts_bytes b.count) (put_i64s (buffer b.timestamps))) _
        (All-take IsByte (ts_bytes b.count) _ (put_i64s-IsByte (buffer b.timestamps)))
        (All-append IsByte (take (vec_bytes b.count b.dim b.dtype) (buffer b.vectors)) _
          (All-take IsByte (vec_bytes b.count b.dim b.dtype) _ c.vectors_typed)
          (All-append IsByte scale_part _
            (All-take IsByte (scale_bytes b.count b.dtype) _ (put_u32s-IsByte (buffer b.scales)))
            (All-take IsByte (payload_bytes b.count b.payload_size_bytes) _ c.payloads_typed)))

  pub body-IsByte : All IsByte body
  body-IsByte = with_header-IsByte b (data_sections b) data_sections-IsByte

-- `serialize_block` writes exactly the bytes that `block_serialized_size` announces, and none of the
-- 64-bit size computations wraps for a block of an engine's shape.
pub serialize_block_fits :
    (b : Block)
    → IsComplete b
    → (length (serialize_block b true) ≡ block_size b)
      × (block_size b ≡ true_size b.count b.dim b.payload_size_bytes b.dtype)
serialize_block_fits b c = (length-serialize_block b c, block_serialized_size_lem c.shape)
