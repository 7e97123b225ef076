-- ===== src/Codec/RoundTrip.antt =====
-- `decode_block` of src/block_codec.cpp after `serialize_block`.
use chronos_vector.Base.{
  ℕ, ◌-◌, ◌*◌, ◌^◌, ◌≤◌, ◌<◌, ◌≡◌, ◌≢◌, refl, ap, ap₂, ◌∙◌, sym, Bool, true, false, ◌&&◌, some,
  List, [], ◌++◌, take, drop, length, length-take, All-take, take-append_length, drop-append_length,
  append_assoc, arith, le→leb, ◌==◌, ==_iff, if◌then◌else◌,
}
use chronos_vector.Types.{done, dtype_int8, guard_pass, err_corruption}
use chronos_vector.Bytes.{get_i64s, get_u32s, get_u16_le, get_u32_le}
use chronos_vector.Bytes.Laws.{get_le-front, get_i64s-put_i64s, get_u32s-put_u32s}
use chronos_vector.Crc.{crc32_ieee}
use chronos_vector.Crc.Detect.{crc32_ieee-lt, crc32_ieee-front}
use chronos_vector.Codec.{
  Block, buffer, with_header, data_sections, serialize_block, decode_block, decode_checked,
  decode_sections, block_flags, block_magic, block_version, block_serialized_size, Outputs,
  ts_bytes, vec_bytes, scale_bytes, payload_bytes,
}
use chronos_vector.Codec.Layout.{
  header_of, parse_flags, parse-with_header, block_flags-reads, drop_header4, drop_header40,
  length-with_header, with_header-append,
}
use chronos_vector.Base.Int.{IsInt64}
use chronos_vector.Bytes.{put_u32s}
use chronos_vector.Codec.Size.{scale_bytes_lem}
use chronos_vector.Codec.Sections.{
  IsComplete, view, ts_part, vec_part, scale_part, payload_part, body, crc_part, data_sections_lem,
  take-put_u32s, serialize_block_lem, length-serialize_block, length-data_sections, length-ts_part,
  length-vec_part, length-scale_part, length-payload_part, body-IsByte,
}

regroup : (t v s p r : List ℕ) → (t ++ (v ++ (s ++ p))) ++ r ≡ t ++ (v ++ (s ++ (p ++ r)))
regroup t v s p r = simp append_assoc

module _ (b : Block) (c : IsComplete b) (junk : List ℕ) where
  abbrev pub size : ℕ
  size = block_serialized_size b.count b.dim b.payload_size_bytes b.dtype

  abbrev data_on : List ℕ
  data_on = data_sections b ++ (crc_part b c ++ junk)

  -- What was written, with whatever follows it in the buffer.
  abbrev whole : List ℕ
  whole = with_header b data_on

  whole_lem : serialize_block b true ++ junk ≡ whole
  whole_lem =
      ap (λ t. t ++ junk) (serialize_block_lem b c)
      ∙ append_assoc (body b c) (crc_part b c) junk
      ∙ with_header-append b (data_sections b) (crc_part b c ++ junk)

  length-body : length (body b c) ≡ size - 4
  length-body = omega (arith, length-with_header b (data_sections b), length-data_sections b c)

  whole-body : whole ≡ body b c ++ (crc_part b c ++ junk)
  whole-body = sym (with_header-append b (data_sections b) (crc_part b c ++ junk))

  crc_input : crc32_ieee whole (size - 4) ≡ crc32_ieee (body b c) (length (body b c))
  crc_input =
      ap (λ t. crc32_ieee t (size - 4)) whole-body
      ∙ crc32_ieee-front (size - 4) (body b c) (crc_part b c ++ junk) length-body

  stored_crc : get_u32_le (drop (size - 4) whole) ≡ crc32_ieee (body b c) (length (body b c))
  stored_crc =
      ap (λ t. get_u32_le (drop (size - 4) t)) whole-body
      ∙ ap get_u32_le (drop-append_length (size - 4) (body b c) (crc_part b c ++ junk) length-body)
      ∙ get_le-front 4 (crc32_ieee (body b c) (length (body b c))) junk
          (crc32_ieee-lt (body b c) (length (body b c)) (body-IsByte b c))

  abbrev after_ts : List ℕ
  after_ts = vec_part b c ++ (scale_part b c ++ (payload_part b c ++ (crc_part b c ++ junk)))

  abbrev after_vec : List ℕ
  after_vec = scale_part b c ++ (payload_part b c ++ (crc_part b c ++ junk))

  abbrev after_scale : List ℕ
  after_scale = payload_part b c ++ (crc_part b c ++ junk)

  data_on_lem : data_on ≡ ts_part b c ++ after_ts
  data_on_lem =
      ap (λ t. t ++ (crc_part b c ++ junk)) (data_sections_lem b c)
      ∙ regroup (ts_part b c) (vec_part b c) (scale_part b c) (payload_part b c)
          (crc_part b c ++ junk)

  abbrev vec_at : List ℕ → List ℕ
  vec_at p = drop (ts_bytes b.count) p

  abbrev scales_from : List ℕ → List ℕ
  scales_from p = drop (vec_bytes b.count b.dim b.dtype) (vec_at p)

  vec_at_lem : vec_at data_on ≡ after_ts
  vec_at_lem =
      ap (drop (ts_bytes b.count)) data_on_lem
      ∙ drop-append_length (ts_bytes b.count) (ts_part b c) after_ts (length-ts_part b c)

  scales_from_lem : scales_from data_on ≡ after_vec
  scales_from_lem =
      ap (drop (vec_bytes b.count b.dim b.dtype)) vec_at_lem
      ∙ drop-append_length (vec_bytes b.count b.dim b.dtype) (vec_part b c) after_vec
          (length-vec_part b c)

  payload_at_lem : drop (scale_bytes b.count b.dtype) (scales_from data_on) ≡ after_scale
  payload_at_lem =
      ap (drop (scale_bytes b.count b.dtype)) scales_from_lem
      ∙ drop-append_length (scale_bytes b.count b.dtype) (scale_part b c) after_scale
          (length-scale_part b c)

  timestamps_lem : get_i64s b.count data_on ≡ take b.count (buffer b.timestamps)
  timestamps_lem =
      ap₂ get_i64s (sym entries) data_on_lem
      ∙ get_i64s-put_i64s (take b.count (buffer b.timestamps)) after_ts
          (All-take IsInt64 b.count (buffer b.timestamps) c.timestamps_typed)
    where
      entries : length (take b.count (buffer b.timestamps)) ≡ b.count
      entries = omega (arith, length-take b.count (buffer b.timestamps), c.timestamps_long)

  vectors_lem : take (vec_bytes b.count b.dim b.dtype) (vec_at data_on) ≡ vec_part b c
  vectors_lem =
      ap (take (vec_bytes b.count b.dim b.dtype)) vec_at_lem
      ∙ take-append_length (vec_bytes b.count b.dim b.dtype) (vec_part b c) after_vec
          (length-vec_part b c)

  payloads_lem :
      take
        (payload_bytes b.count b.payload_size_bytes)
        (drop (scale_bytes b.count b.dtype) (scales_from data_on))
      ≡ payload_part b c
  payloads_lem =
      ap (take (payload_bytes b.count b.payload_size_bytes)) payload_at_lem
      ∙ take-append_length (payload_bytes b.count b.payload_size_bytes) (payload_part b c)
          (crc_part b c ++ junk) (length-payload_part b c)

  scales_lem :
      (b.dtype == dtype_int8) ≡ true
      → get_u32s b.count (scales_from data_on) ≡ take b.count (buffer b.scales)
  scales_lem e =
      ap₂ get_u32s (sym entries) (scales_from_lem ∙ ap (λ t. t ++ after_scale) words)
      ∙ get_u32s-put_u32s (take b.count (buffer b.scales)) after_scale
          (All-take (λ w. w < 2 ^ 32) b.count (buffer b.scales) c.scales_typed)
    where
      entries : length (take b.count (buffer b.scales)) ≡ b.count
      entries = omega (
        arith,
        length-take b.count (buffer b.scales),
        c.scales_long ((==_iff b.dtype dtype_int8).0 e),
      )

      words : scale_part b c ≡ put_u32s (take b.count (buffer b.scales))
      words =
          ap (λ n. take n (put_u32s (buffer b.scales)))
            (scale_bytes_lem c.shape ∙ ap (λ z. if z then b.count * 4 else 0) e)
          ∙ take-put_u32s b.count (buffer b.scales)

  scales_wanted :
      (want z : Bool)
      → ((z ≡ true) → get_u32s b.count (scales_from data_on) ≡ take b.count (buffer b.scales))
      → (if want && z then get_u32s b.count (scales_from data_on) else [])
        ≡ (if want && z then take b.count (buffer b.scales) else [])
  scales_wanted true true h = h refl
  scales_wanted true false h = refl
  scales_wanted false z h = refl

  sections_lem : (w : Outputs) → decode_sections (header_of b) w data_on ≡ view b w
  unfolding header_of view
  sections_lem w = λ i. record {
    header = header_of b;
    timestamps = if w.out_timestamps then timestamps_lem i else [];
    vectors = if w.out_vectors then vectors_lem i else [];
    scales = scales_wanted w.out_scales (b.dtype == dtype_int8) scales_lem i;
    payloads = if w.out_payloads then payloads_lem i else [];
  }

  pub size_facts : (44 ≤ size) × (size ≢ 0)
  size_facts = (omega (arith, length-data_sections b c), omega (arith, length-data_sections b c))

  -- From the parsed header on, every check passes.
  checked_lem :
      (len : ℕ) (w : Outputs)
      → size ≤ len
      → decode_checked whole len w (block_flags b) (header_of b) ≡ done (view b w)
  unfolding header_of
  checked_lem len w h =
      guard_pass _ err_corruption _ (block_flags-reads b).3
      ∙ guard_pass _ err_corruption _ (block_flags-reads b).1
      ∙ guard_pass _ err_corruption _ (ground (arith, c.shape.dim_pos, c.shape.dtype_known))
      ∙ guard_pass _ err_corruption _ (ground (arith, size_facts))
      ∙ guard_pass _ err_corruption _ (
          (==_iff (get_u32_le (drop (size - 4) whole)) (crc32_ieee whole (size - 4))).1
            (stored_crc ∙ sym crc_input))
      ∙ ap done (ap (decode_sections (header_of b) w) (drop_header40 b data_on) ∙ sections_lem w)

  -- A serialized block is decoded whatever bytes follow it in the buffer.
  pub decode-serialize_junk :
      (len : ℕ) (w : Outputs)
      → length (serialize_block b true) ≤ len
      → decode_block (some (serialize_block b true ++ junk)) len true w ≡ done (view b w)
  unfolding decode_block
  decode-serialize_junk len w h =
      ap (λ t. decode_block (some t) len true w) whole_lem
      ∙ guard_pass _ err_corruption _
          (le→leb 44 len (omega (arith, length-serialize_block b c, size_facts)))
      ∙ guard_pass _ err_corruption _
          ((==_iff (get_u32_le whole) block_magic).1 (get_le-front 4 block_magic _ (omega arith)))
      ∙ guard_pass _ err_corruption _ (
          (==_iff (get_u16_le (drop 4 whole)) block_version).1
            (ap get_u16_le (drop_header4 b data_on) ∙ get_le-front 2 block_version _ (omega arith)))
      ∙ ap₂ (decode_checked whole len w) (parse_flags b data_on)
          (parse-with_header b data_on c.typed)
      ∙ checked_lem len w (omega (arith, length-serialize_block b c))

-- `decode_block` returns what `serialize_block` was given: the header fields, and of each section that
-- the caller asks for the first `count` entries of the block's buffers. Bytes behind the block are
-- ignored.
pub decode-serialize :
    (b : Block) (junk : List ℕ) (len : ℕ) (w : Outputs)
    → IsComplete b
    → length (serialize_block b true) ≤ len
    → decode_block (some (serialize_block b true ++ junk)) len true w ≡ done (view b w)
decode-serialize b junk len w c h = decode-serialize_junk b c junk len w h
