-- ===== src/Storage/BlockIds.antt =====
-- The block ids that `ListBlocks` of src/storage_rocksdb.cpp reads from the keys.
use chronos_vector.Base.{
  ℕ, zero, suc, ◌+◌, ◌*◌, ◌/◌, ◌%◌, ◌^◌, ◌<◌, ◌≡◌, refl, ap, ap₂, sym, ◌∙◌, List, [], ◌∷◌, ◌++◌,
  map, All, drop, length, length-append, drop-append_length, append_assoc, arith, ==_iff,
}
use chronos_vector.Base.Int.{ℤ, IsInt64, word64, signed64, signed64-word64, word64-lt}
use chronos_vector.Engine.{Bytes}
use chronos_vector.Engine.Scores.Runs.{when_true}
use chronos_vector.Storage.{sep, put_be, get_be, put_u64_be, get_u64_be, encode_key, block_ids_of}

length-put_be : (n v : ℕ) → length (put_be n v) ≡ n
unfolding put_be
length-put_be zero v = refl
length-put_be (suc n) v = ap suc (length-put_be n v)

-- The eight digits of a 64-bit word, and their sum.
digits :
    (v : ℕ)
    → (v / 256 ^ 7) % 256 * 256 ^ 7
        + ((v / 256 ^ 6) % 256 * 256 ^ 6
            + ((v / 256 ^ 5) % 256 * 256 ^ 5
                + ((v / 256 ^ 4) % 256 * 256 ^ 4
                    + ((v / 256 ^ 3) % 256 * 256 ^ 3
                        + ((v / 256 ^ 2) % 256 * 256 ^ 2
                            + ((v / 256 ^ 1) % 256 * 256 ^ 1
                                + ((v / 256 ^ 0) % 256 * 256 ^ 0 + 0)))))))
      ≡ v % 2 ^ 64
digits v = omega arith

get_u64_be-put_u64_be : (v : ℕ) → v < 2 ^ 64 → get_u64_be (put_u64_be v) ≡ v
unfolding get_be put_be
get_u64_be-put_u64_be v h = digits v ∙ small v h
  where
    small : (v : ℕ) → v < 2 ^ 64 → v % 2 ^ 64 ≡ v
    small v h = omega arith

drop_prefix :
    (sensor_id : Bytes) (p : Bytes) → drop (length sensor_id + 1) (sensor_id ++ (sep ∷ p)) ≡ p
drop_prefix sensor_id p =
    ap (drop (length sensor_id + 1)) (sym (append_assoc sensor_id (sep ∷ []) p))
    ∙ drop-append_length (length sensor_id + 1) (sensor_id ++ (sep ∷ [])) p
        (length-append sensor_id (sep ∷ []))

key_id :
    (sensor_id : Bytes) (k : ℤ)
    → IsInt64 k
    → signed64 (get_u64_be (drop (length sensor_id + 1) (encode_key sensor_id k))) ≡ k
unfolding encode_key
key_id sensor_id k h =
    ap (λ p. signed64 (get_u64_be p)) (drop_prefix sensor_id (put_u64_be (word64 k)))
    ∙ ap signed64 (get_u64_be-put_u64_be (word64 k) (word64-lt k h))
    ∙ signed64-word64 k h

length-encode_key :
    (sensor_id : Bytes) (k : ℤ) → length (encode_key sensor_id k) ≡ length sensor_id + 9
unfolding encode_key
length-encode_key sensor_id k =
    omega (arith, length-append sensor_id (sep ∷ put_u64_be (word64 k)), length-put_be 8 (word64 k))

-- `ListBlocks` reads from the keys of a sensor's blocks the block ids that the keys were made of, in the order of the
-- keys.
pub block_ids_of-encode_key :
    (sensor_id : Bytes) (ks : List ℤ)
    → All IsInt64 ks
    → block_ids_of (length sensor_id) (map (encode_key sensor_id) ks) ≡ ks
unfolding block_ids_of
block_ids_of-encode_key sensor_id [] hs = refl
block_ids_of-encode_key sensor_id (k ∷ ks) (h, hs) =
    when_true _ _ _ ((==_iff _ _).1 (length-encode_key sensor_id k))
    ∙ ap₂ ◌∷◌ (key_id sensor_id k h) (block_ids_of-encode_key sensor_id ks hs)
