-- ===== src/Codec/Corruption.antt =====
-- What `decode_block` of src/block_codec.cpp makes of a serialized block in which a byte has changed.
use chronos_vector.Base.{
  ℕ, ◌-◌, ◌≤◌, ◌<◌, ◌≡◌, ◌≢◌, refl, ap, ap₂, ◌∙◌, sym, ◌^◌, true, some, List, [], ◌∷◌, ◌++◌, take,
  drop, length, length-append, length-take, All, All-split, subst, take-drop, drop-append_length,
  append-nil, append_assoc, append_split, arith, le→leb, ==_iff, ==_false,
}
use chronos_vector.Types.{fail, guard_pass, guard_fail, err_corruption}
use chronos_vector.Bytes.{put_u32_le, get_u16_le, get_u32_le}
use chronos_vector.Bytes.Laws.{IsByte, get_le-front, length-put_le}
use chronos_vector.Crc.{crc32_ieee}
use chronos_vector.Crc.Detect.{crc32_ieee-lt, crc32_ieee-front, crc32_ieee_detects}
use chronos_vector.Codec.{
  Block, with_header, data_sections, serialize_block, decode_block, decode_checked, block_magic,
  block_version, block_size, Outputs,
}
use chronos_vector.Codec.Layout.{
  header_of, parse_flags, parse-with_header, block_flags-reads, drop_header4, length-with_header,
  with_header-append,
}
use chronos_vector.Codec.Sections.{
  IsComplete, body, crc_part, serialize_block_lem, length-serialize_block, length-data_sections,
  body-IsByte,
}
use chronos_vector.Codec.RoundTrip.{size_facts}

-- Other data of the right length behind the header of a block, and a word where the CRC belongs.
module _ (b : Block) (c : IsComplete b) (d : List ℕ) (s : ℕ)
    (long : length d ≡ length (data_sections b)) (word : s < 2 ^ 32) where
  abbrev buf : List ℕ
  buf = with_header b (d ++ put_u32_le s)

  length-front : length (with_header b d) ≡ block_size b - 4
  length-front = omega (arith, length-with_header b d, length-data_sections b c, long)

  buf_lem : buf ≡ with_header b d ++ put_u32_le s
  buf_lem = sym (with_header-append b d (put_u32_le s))

  read_crc : get_u32_le (drop (block_size b - 4) buf) ≡ s
  read_crc =
      ap (λ t. get_u32_le (drop (block_size b - 4) t)) buf_lem
      ∙ ap get_u32_le (
          drop-append_length (block_size b - 4) (with_header b d) (put_u32_le s) length-front
          ∙ sym (append-nil (put_u32_le s)))
      ∙ get_le-front 4 s [] word

  computed_crc :
      crc32_ieee buf (block_size b - 4) ≡ crc32_ieee (with_header b d) (length (with_header b d))
  computed_crc =
      ap (λ t. crc32_ieee t (block_size b - 4)) buf_lem
      ∙ crc32_ieee-front (block_size b - 4) (with_header b d) (put_u32_le s) length-front

  pub mismatch-rejected :
      (len : ℕ) (w : Outputs)
      → s ≢ crc32_ieee (with_header b d) (length (with_header b d))
      → block_size b ≤ len
      → decode_block (some buf) len true w ≡ fail err_corruption
  unfolding decode_block header_of
  mismatch-rejected len w ne h =
      guard_pass _ err_corruption _ (le→leb 44 len (omega (arith, size_facts b c [])))
      ∙ guard_pass _ err_corruption _
          ((==_iff (get_u32_le buf) block_magic).1 (get_le-front 4 block_magic _ (omega arith)))
      ∙ guard_pass _ err_corruption _ (
          (==_iff (get_u16_le (drop 4 buf)) block_version).1 (
            ap get_u16_le (drop_header4 b (d ++ put_u32_le s))
            ∙ get_le-front 2 block_version _ (omega arith)))
      ∙ ap₂ (decode_checked buf len w) (parse_flags b (d ++ put_u32_le s))
          (parse-with_header b (d ++ put_u32_le s) c.typed)
      ∙ guard_pass _ err_corruption _ (block_flags-reads b).3
      ∙ guard_pass _ err_corruption _ (block_flags-reads b).1
      ∙ guard_pass _ err_corruption _ (ground (arith, c.shape.dim_pos, c.shape.dtype_known))
      ∙ guard_pass _ err_corruption _ (ground (arith, size_facts b c []))
      ∙ guard_fail _ err_corruption _ (
          ==_false (get_u32_le (drop (block_size b - 4) buf)) (crc32_ieee buf (block_size b - 4))
            (λ e. ne (sym read_crc ∙ e ∙ computed_crc)))

-- Where a changed byte lies: behind the header `h`, in the data `d` or in the four CRC bytes `k`.
cut_front :
    (h xs front : List ℕ) (n : ℕ) (ys : List ℕ)
    → length h ≡ n
    → n ≤ length front
    → h ++ xs ≡ front ++ ys
    → (front ≡ h ++ drop n front) × (xs ≡ drop n front ++ ys)
cut_front h xs front n ys hn hf e =
    let (p, q) =
      append_split n h xs (take n front) (drop n front ++ ys) hn
        (omega (arith, length-take n front))
        (e
          ∙ ap (λ t. t ++ ys) (sym (take-drop n front))
          ∙ append_assoc (take n front) (drop n front) ys) in
    (sym (take-drop n front) ∙ ap (λ t. t ++ drop n front) (sym p), q)

cut_back :
    (d k us vs : List ℕ) (n : ℕ)
    → length k ≡ n
    → n ≤ length vs
    → d ++ k ≡ us ++ vs
    → (d ≡ us ++ take (length vs - n) vs) × (vs ≡ take (length vs - n) vs ++ k)
cut_back d k us vs n hk hv e =
    let m : ℕ = length vs - n in
    let (p, q) =
      append_split (length d) d k (us ++ take m vs) (drop m vs) refl
        (omega (
          arith,
          ap length e,
          length-append d k,
          length-append us vs,
          length-append us (take m vs),
          length-take m vs,
        ))
        (e ∙ ap (◌++◌ us) (sym (take-drop m vs)) ∙ sym (append_assoc us (take m vs) (drop m vs))) in
    (p, sym (take-drop m vs) ∙ ap (◌++◌ (take m vs)) (sym q))

-- The parts of a serialized block around one of its data bytes.
module _ (b : Block) (c : IsComplete b) (front back : List ℕ) (x : ℕ)
    (e : serialize_block b true ≡ front ++ (x ∷ back)) (hf : 40 ≤ length front)
    (hb : 4 ≤ length back) where
  abbrev header_part : List ℕ
  header_part = with_header b []

  abbrev before : List ℕ
  before = drop 40 front

  abbrev after : List ℕ
  after = take (length back - 4) back

  outer : (front ≡ header_part ++ before) × (data_sections b ++ crc_part b c ≡ before ++ (x ∷ back))
  outer =
      cut_front header_part (data_sections b ++ crc_part b c) front 40 (x ∷ back)
        (length-with_header b []) hf
        (with_header-append b [] (data_sections b ++ crc_part b c)
          ∙ sym (with_header-append b (data_sections b) (crc_part b c))
          ∙ sym (serialize_block_lem b c)
          ∙ e)

  inner : (data_sections b ≡ (before ++ (x ∷ [])) ++ after) × (back ≡ after ++ crc_part b c)
  inner =
      cut_back (data_sections b) (crc_part b c) (before ++ (x ∷ [])) back 4
        (length-put_le 4 (crc32_ieee (body b c) (length (body b c)))) hb
        (outer.1 ∙ sym (append_assoc before (x ∷ []) back))

  data_lem : data_sections b ≡ before ++ (x ∷ after)
  data_lem = inner.0 ∙ append_assoc before (x ∷ []) after

  -- The block with `y` at that place.
  with_byte :
      (y : ℕ) → with_header b (before ++ (y ∷ after)) ≡ (header_part ++ before) ++ (y ∷ after)
  with_byte y =
      sym (with_header-append b [] (before ++ (y ∷ after)))
      ∙ sym (append_assoc header_part before (y ∷ after))

  changed : (y : ℕ) → front ++ (y ∷ back) ≡ with_header b ((before ++ (y ∷ after)) ++ crc_part b c)
  changed y =
      ap₂ (λ f k. f ++ (y ∷ k)) outer.0 inner.1
      ∙ sym (append_assoc (header_part ++ before) (y ∷ after) (crc_part b c))
      ∙ ap (λ t. t ++ crc_part b c) (sym (with_byte y))
      ∙ with_header-append b (before ++ (y ∷ after)) (crc_part b c)

  bytes : All IsByte (header_part ++ before) × All IsByte (x ∷ after)
  bytes =
      All-split IsByte (header_part ++ before) (x ∷ after)
        (subst (All IsByte) (ap (with_header b) data_lem ∙ with_byte x) (body-IsByte b c))

  crc_differs :
      (y : ℕ)
      → y < 256
      → x ≢ y
      → crc32_ieee (body b c) (length (body b c))
        ≢ crc32_ieee
            (with_header b (before ++ (y ∷ after)))
            (length (with_header b (before ++ (y ∷ after))))
  crc_differs y hy ne p =
      crc32_ieee_detects (header_part ++ before) after x y bytes.0 bytes.1.1 bytes.1.0 hy ne (
        ap whole_crc (sym (ap (with_header b) data_lem ∙ with_byte x))
        ∙ p
        ∙ ap whole_crc (with_byte y))
    where
      whole_crc : List ℕ → ℕ
      whole_crc t = crc32_ieee t (length t)

  pub corrupt_lem :
      (y : ℕ) (w : Outputs)
      → y < 256
      → x ≢ y
      → decode_block (some (front ++ (y ∷ back))) (length (front ++ (y ∷ back))) true w
        ≡ fail err_corruption
  corrupt_lem y w hy ne =
      ap (λ t. decode_block (some t) (length (front ++ (y ∷ back))) true w) (changed y)
      ∙ mismatch-rejected b c (before ++ (y ∷ after)) (crc32_ieee (body b c) (length (body b c)))
          (omega (
            arith,
            ap length data_lem,
            length-append before (x ∷ after),
            length-append before (y ∷ after),
          ))
          (crc32_ieee-lt (body b c) (length (body b c)) (body-IsByte b c))
          (length (front ++ (y ∷ back))) w (crc_differs y hy ne)
          (omega (
            arith,
            ap length e,
            length-append front (x ∷ back),
            length-append front (y ∷ back),
            length-serialize_block b c,
          ))

-- Changing any one byte of a serialized block's data (timestamps, vectors, scales, payloads) makes
-- `decode_block` answer CHRONOSV_ERR_CORRUPTION, whatever outputs the caller asks for.
pub corrupt-rejected :
    (b : Block) (front back : List ℕ) (x y : ℕ) (w : Outputs)
    → IsComplete b
    → serialize_block b true ≡ front ++ (x ∷ back)
    → 40 ≤ length front
    → 4 ≤ length back
    → y < 256
    → x ≢ y
    → decode_block (some (front ++ (y ∷ back))) (length (front ++ (y ∷ back))) true w
      ≡ fail err_corruption
corrupt-rejected b front back x y w c e hf hb hy ne = corrupt_lem b c front back x e hf hb y w hy ne
