-- ===== src/Tests/StorageTests.antt =====
-- The RocksDB backend, the wrapper objects and the return codes at concrete inputs (compare
-- tests/test_storage_rocksdb.cpp).
use chronos_vector.Base.{
  ◌≡◌, ◌+◌, refl, ap, ap₂, true, false, ◌&&◌, [], ◌∷◌, arith, ==_iff, ltb, if◌then◌else◌,
}
use text.Mathlib.Text.{starts_with, ◌==◌ as same_text}
use chronos_vector.Types.{done, ok, err_io}
use chronos_vector.Wrapper.Results.{is_error, is_warning, error_string, error_string_lem}
use chronos_vector.Bytes.{put_le, put_i64s, put_u32s}
use chronos_vector.Codec.{serialize_block, block_serialized_size}
use chronos_vector.Codec.Sections.{view}
use chronos_vector.Engine.{Bytes, same_id}
use chronos_vector.Storage.{Database, Store, status_ok, read_block_db, write_block_db, map_status}
use chronos_vector.Base.{map}
use chronos_vector.Base.Int.{pos, negsuc}
use chronos_vector.Storage.{block_ids_of, encode_key}
use chronos_vector.Storage.BlockIds.{block_ids_of-encode_key}
use chronos_vector.Storage.RoundTrip.{KeepsPut, read-write_block, opened}
use chronos_vector.Wrapper.{Handles, create_object, move_assign, reset}
use chronos_vector.Wrapper.Ownership.{
  Program, start, creates, assigns, resets, owners, times_destroyed, Program-IsOwned,
}
use chronos_vector.Tests.CodecTests.{two_entries, all_outputs, two_entries-IsComplete}

-- A database that is a function of the key.
abbrev Table : Type 0
Table = Bytes → Bytes

table : Database Table
table = record {
  put_key = λ d k v. (status_ok, λ j. if same_id k j then v else d j);
  get_key = λ d k. (status_ok, d k);
  keys_from = λ d b e. (status_ok, []);
  delete_range = λ d b e. (status_ok, d);
  flush_memtable = λ d. (status_ok, d);
  sync_wal = λ d. (status_ok, d);
  approximate_size = λ d. 0;
}

same_id_refl : (k : Bytes) → same_id k k ≡ true
unfolding same_id
same_id_refl [] = refl
same_id_refl (b ∷ bs) = ap₂ (λ x y. x && y) ((==_iff b b).1 refl) (same_id_refl bs)

table-KeepsPut : KeepsPut table
unfolding table
table-KeepsPut d key value h = ap (λ t. (status_ok, if t then value else d key)) (same_id_refl key)

abbrev empty_store : Store Table
empty_store = opened (λ k. []) (λ n. true)

stored_ok : (write_block_db table empty_store two_entries).0 ≡ ok
unfolding write_block_db table map_status block_serialized_size serialize_block put_le put_i64s
    put_u32s
stored_ok = refl

read-write_block_example :
    read_block_db table
      (write_block_db table empty_store two_entries).1
      two_entries.sensor_id
      two_entries.block_id
      all_outputs
    ≡ done (view two_entries all_outputs)
read-write_block_example =
    read-write_block table table-KeepsPut (λ k. []) (λ n. true) two_entries all_outputs
      two_entries-IsComplete stored_ok

-- Two objects, the first moved over the second, and both destroyed.
abbrev moved_over : Handles
moved_over =
    reset
      (reset
        (move_assign
          (create_object (create_object (record { objects = []; made = 0; destroyed = [] }))) 1 0)
        0)
      1

moved_over-Program : Program moved_over
unfolding create_object
moved_over-Program = resets 1 (resets 0 (assigns 1 0 (omega arith) (creates (creates start))))

Program-IsOwned_example :
    owners 0 moved_over.objects + times_destroyed 0 moved_over.destroyed
    ≡ (if ltb 0 moved_over.made then 1 else 0)
Program-IsOwned_example = Program-IsOwned moved_over moved_over-Program 0

error_string_lem_example :
    (starts_with (error_string err_io) "error: " ≡ is_error err_io)
    × (starts_with (error_string err_io) "warning: " ≡ is_warning err_io)
    × (same_text (error_string err_io) "unknown" ≡ false)
error_string_lem_example = error_string_lem err_io

block_ids_of-encode_key_example :
    block_ids_of 2 (map (encode_key (115 ∷ 49 ∷ [])) (pos 0 ∷ pos 300 ∷ negsuc 0 ∷ []))
    ≡ pos 0 ∷ pos 300 ∷ negsuc 0 ∷ []
block_ids_of-encode_key_example =
    block_ids_of-encode_key (115 ∷ 49 ∷ []) (pos 0 ∷ pos 300 ∷ negsuc 0 ∷ [])
      ((omega arith, omega arith), ((omega arith, omega arith), ((omega arith, omega arith), tt)))
