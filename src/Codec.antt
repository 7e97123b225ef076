-- ===== src/Codec.antt =====
-- The block codec, src/block_codec.h and src/block_codec.cpp, with `Block` of
-- include/chronosv/storage_backend.h. A pointer that may be null is an option; `size_t` arithmetic wraps.
pub mod Layout
pub mod Size
pub mod Sections
pub mod RoundTrip
pub mod Corruption
use Prim.Native.Nat.{bit_and, bit_or}
use chronos_vector.Base.{
  ℕ, zero, suc, ◌+◌, ◌-◌, ◌*◌, ◌%◌, ◌^◌, Bool, true, false, not, ◌&&◌, ◌||◌, Option, none, some,
  List, [], ◌++◌, take, drop, length, ltb, leb, ◌==◌, same, if◌then◌else◌,
}
use chronos_vector.Base.Int.{ℤ}
use chronos_vector.Types.{
  Result, done, fail, ErrorCode, err_invalid_arg, err_corruption, dtype_size, dtype_int8,
  dtype_float32, ◌>>=◌, ◌>>◌, guard,
}
use chronos_vector.Bytes.{
  put_u16_le, put_u32_le, put_i64_le, put_i64s, put_u32s, get_u16_le, get_u32_le, get_i64_le,
  get_i64s, get_u32s,
}
use chronos_vector.Crc.{crc32_ieee}

abbrev pub block_magic : ℕ
block_magic = 0x30425643

abbrev pub block_version : ℕ
block_version = 1

abbrev pub block_header_size : ℕ
block_header_size = 40

abbrev pub block_crc_size : ℕ
block_crc_size = 4

abbrev pub flag_has_payload : ℕ
flag_has_payload = 1

abbrev pub flag_is_int8 : ℕ
flag_is_int8 = 2

-- `size_t` addition and multiplication
abbrev pub add_size : ℕ → ℕ → ℕ
add_size a b = (a + b) % 2 ^ 64

abbrev pub mul_size : ℕ → ℕ → ℕ
mul_size a b = (a * b) % 2 ^ 64

-- A borrowed view of one sensor's entries. A buffer may be longer than the view.
pub record Block : Type 0 where
  pub sensor_id : List ℕ
  pub block_id : ℤ
  pub t_start_ms : ℤ
  pub t_end_ms : ℤ
  pub count : ℕ
  pub dim : ℕ
  pub payload_size_bytes : ℕ
  pub dtype : ℕ
  pub timestamps : Option (List ℤ)
  pub vectors : Option (List ℕ)
  pub scales : Option (List ℕ)
  pub payloads : Option (List ℕ)

abbrev pub is_null {ℓ} : {A : Type ℓ} → Option A → Bool
is_null none = true
is_null (some a) = false

abbrev pub buffer {ℓ} : {A : Type ℓ} → Option (List A) → List A
buffer none = []
buffer (some xs) = xs

unfoldable pub block_serialized_size : ℕ → ℕ → ℕ → ℕ → ℕ
block_serialized_size count dim payload_size_bytes dtype =
    let vsz = dtype_size dtype in
    let head = add_size block_header_size (mul_size count 8) in
    let body = add_size head (mul_size (mul_size count dim) vsz) in
    let scaled = if dtype == dtype_int8 then add_size body (mul_size count 4) else body in
    let full =
      if ltb 0 payload_size_bytes
      then add_size scaled (mul_size count payload_size_bytes)
      else scaled in
    if vsz == 0 then 0 else add_size full block_crc_size

abbrev pub block_size : Block → ℕ
block_size b = block_serialized_size b.count b.dim b.payload_size_bytes b.dtype

-- The pointer checks of `serialize_block`.
abbrev pub lacks_buffer : Block → Bool
lacks_buffer b =
    ltb 0 b.count
    && (is_null b.timestamps
        || is_null b.vectors
        || (b.dtype == dtype_int8 && is_null b.scales)
        || (ltb 0 b.payload_size_bytes && is_null b.payloads))

abbrev pub block_flags : Block → ℕ
block_flags b =
    bit_or (if ltb 0 b.payload_size_bytes then flag_has_payload else 0)
      (if b.dtype == dtype_int8 then flag_is_int8 else 0)

abbrev pub ts_bytes : ℕ → ℕ
ts_bytes count = mul_size count 8

abbrev pub vec_bytes : ℕ → ℕ → ℕ → ℕ
vec_bytes count dim dtype = mul_size (mul_size count dim) (dtype_size dtype)

abbrev pub scale_bytes : ℕ → ℕ → ℕ
scale_bytes count dtype = if dtype == dtype_int8 then mul_size count 4 else 0

abbrev pub payload_bytes : ℕ → ℕ → ℕ
payload_bytes count size = if ltb 0 size then mul_size count size else 0

-- The four data sections, each the `memcpy` of so many bytes of a buffer.
abbrev pub data_sections : Block → List ℕ
data_sections b =
    take (ts_bytes b.count) (put_i64s (buffer b.timestamps))
    ++ (take (vec_bytes b.count b.dim b.dtype) (buffer b.vectors)
        ++ (take (scale_bytes b.count b.dtype) (put_u32s (buffer b.scales))
            ++ take (payload_bytes b.count b.payload_size_bytes) (buffer b.payloads)))

-- The 40 bytes of the header, in front of the rest.
abbrev pub with_header : Block → List ℕ → List ℕ
with_header b rest =
    put_u32_le block_magic
    ++ (put_u16_le block_version
        ++ (put_u16_le (block_flags b)
            ++ (put_u32_le b.dim
                ++ (put_u32_le b.count
                    ++ (put_i64_le b.t_start_ms
                        ++ (put_i64_le b.t_end_ms
                            ++ (put_u32_le b.payload_size_bytes ++ (put_u32_le 0 ++ rest))))))))

-- The bytes that the function writes; the number that it returns is their length, 0 on bad input.
-- `out` tells whether `out_bytes` is non-null.
unfoldable pub serialize_block : Block → Bool → List ℕ
serialize_block b out =
    let body = with_header b (data_sections b) in
    if not out || b.dim == 0 || dtype_size b.dtype == 0 || lacks_buffer b
    then []
    else body ++ put_u32_le (crc32_ieee body (length body))

pub record DecodedBlockHeader : Type 0 where
  pub dim : ℕ
  pub count : ℕ
  pub t_start_ms : ℤ
  pub t_end_ms : ℤ
  pub payload_size_bytes : ℕ
  pub dtype : ℕ

-- Which of the `out_*` pointers are non-null.
pub record Outputs : Type 0 where
  pub out_timestamps : Bool
  pub out_vectors : Bool
  pub out_scales : Bool
  pub out_payloads : Bool

-- What a successful call writes, an empty list where it writes nothing.
pub record Decoded : Type 0 where
  pub header : DecodedBlockHeader
  pub timestamps : List ℤ
  pub vectors : List ℕ
  pub scales : List ℕ
  pub payloads : List ℕ

-- The sections, from the end of the header on.
abbrev pub decode_sections : DecodedBlockHeader → Outputs → List ℕ → Decoded
decode_sections h w p =
    let q = drop (ts_bytes h.count) p in
    let r = drop (vec_bytes h.count h.dim h.dtype) q in
    let s = drop (scale_bytes h.count h.dtype) r in
    record {
      header = h;
      timestamps = if w.out_timestamps then get_i64s h.count p else [];
      vectors = if w.out_vectors then take (vec_bytes h.count h.dim h.dtype) q else [];
      scales = if w.out_scales && h.dtype == dtype_int8 then get_u32s h.count r else [];
      payloads = if w.out_payloads then take (payload_bytes h.count h.payload_size_bytes) s else [];
    }

-- The checks from the parsed header on, and the outputs.
abbrev pub decode_checked : List ℕ → ℕ → Outputs → ℕ → DecodedBlockHeader → Result Decoded
decode_checked bytes len w flags h = do
  guard (bit_and flags 0xFFFC == 0) err_corruption
  guard (same (not (bit_and flags flag_has_payload == 0)) (ltb 0 h.payload_size_bytes))
      err_corruption
  guard (not (dtype_size h.dtype == 0 || h.dim == 0)) err_corruption
  let expected = block_serialized_size h.count h.dim h.payload_size_bytes h.dtype
  guard (not (expected == 0 || ltb len expected)) err_corruption
  let body = expected - block_crc_size
  guard (get_u32_le (drop body bytes) == crc32_ieee bytes body) err_corruption
  done (decode_sections h w (drop block_header_size bytes))

abbrev pub parse_header : List ℕ → DecodedBlockHeader
parse_header bytes = record {
  dim = get_u32_le (drop 8 bytes);
  count = get_u32_le (drop 12 bytes);
  t_start_ms = get_i64_le (drop 16 bytes);
  t_end_ms = get_i64_le (drop 24 bytes);
  payload_size_bytes = get_u32_le (drop 32 bytes);
  dtype =
      if bit_and (get_u16_le (drop 6 bytes)) flag_is_int8 == 0 then dtype_float32 else dtype_int8;
}

-- `out_hdr` tells whether that pointer is non-null.
unfoldable pub decode_block : Option (List ℕ) → ℕ → Bool → Outputs → Result Decoded
decode_block none len out_hdr w = fail err_invalid_arg
decode_block (some bytes) len out_hdr w = do
  guard out_hdr err_invalid_arg
  guard (leb (block_header_size + block_crc_size) len) err_corruption
  guard (get_u32_le bytes == block_magic) err_corruption
  guard (get_u16_le (drop 4 bytes) == block_version) err_corruption
  decode_checked bytes len w (get_u16_le (drop 6 bytes)) (parse_header bytes)
