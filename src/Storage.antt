-- ===== src/Storage.antt =====
-- `RocksDBStorageBackend` of src/storage_rocksdb.cpp and `NullStorageBackend` of
-- include/chronosv/storage_backend.h. The database is an argument: its state, and what its calls return.
pub mod Keys
pub mod RoundTrip
pub mod BlockIds
use chronos_vector.Base.{
  ℕ, zero, suc, ◌+◌, ◌-◌, ◌*◌, ◌/◌, ◌%◌, ◌^◌, Bool, true, false, not, ◌&&◌, ◌||◌, Option, none,
  some, List, [], ◌∷◌, ◌++◌, take, drop, length, ltb, ◌==◌, if◌then◌else◌,
}
use chronos_vector.Base.Int.{ℤ, pos, word64, signed64}
use chronos_vector.Types.{
  Result, done, fail, ErrorCode, ok, err_not_found, err_corruption, err_invalid_arg, err_io,
  err_oom, ◌>>=◌, ◌>>◌, guard,
}
use chronos_vector.Codec.{Block, Outputs, Decoded, block_size, serialize_block, decode_block}
use chronos_vector.Engine.{Bytes, Backend, same_id}

-- The categories of `rocksdb::Status` that the code tells apart.
pub data Status : Type 0 where
  status_ok status_not_found status_corruption status_invalid_argument status_other : Status

-- The calls of `rocksdb::DB` that the backend makes. `keys_from begin end` is what an iterator from
-- `begin` gives, up to `end` if there is one.
pub record Database (D : Type 0) : Type 0 where
  pub put_key : D → Bytes → Bytes → Status × D
  pub get_key : D → Bytes → Status × Bytes
  pub keys_from : D → Bytes → Option Bytes → Status × List Bytes
  pub delete_range : D → Bytes → Bytes → Status × D
  pub flush_memtable : D → Status × D
  pub sync_wal : D → Status × D
  pub approximate_size : D → ℕ

abbrev pub sep : ℕ
sep = 1

-- The `n` bytes of `v`, highest first, and back.
unfoldable pub put_be : ℕ → ℕ → Bytes
put_be zero v = []
put_be (suc n) v = (v / 256 ^ n) % 256 ∷ put_be n v

unfoldable pub get_be : Bytes → ℕ
get_be [] = 0
get_be (b ∷ bs) = b * 256 ^ length bs + get_be bs

abbrev pub put_u64_be : ℕ → Bytes
put_u64_be v = put_be 8 v

abbrev pub get_u64_be : Bytes → ℕ
get_u64_be p = get_be (take 8 p)

unfoldable pub encode_key : Bytes → ℤ → Bytes
encode_key sensor_id block_id = sensor_id ++ (sep ∷ put_u64_be (word64 block_id))

unfoldable pub range_begin_key : Bytes → Bytes
range_begin_key sensor_id = sensor_id ++ (sep ∷ [])

unfoldable pub range_end_key : Bytes → Bytes
range_end_key sensor_id = sensor_id ++ ((sep + 1) ∷ [])

unfoldable pub map_status : Status → ErrorCode
map_status status_ok = ok
map_status status_not_found = err_not_found
map_status status_corruption = err_corruption
map_status status_invalid_argument = err_invalid_arg
map_status status_other = err_io

-- `"\0meta"`
abbrev pub metadata_key : Bytes
metadata_key = 0 ∷ 109 ∷ 101 ∷ 116 ∷ 97 ∷ []

abbrev pub is_empty_id : Bytes → Bool
is_empty_id [] = true
is_empty_id (b ∷ bs) = false

-- The loop of `ListBlocks` over the keys.
unfoldable pub block_ids_of : ℕ → List Bytes → List ℤ
block_ids_of id_size [] = []
block_ids_of id_size (k ∷ ks) =
    let rest = block_ids_of id_size ks in
    if length k == id_size + 9 then signed64 (get_u64_be (drop (id_size + 1) k)) ∷ rest else rest

-- The part of a key before the first separator.
unfoldable pub key_prefix : Bytes → Option Bytes
key_prefix [] = none
key_prefix (b ∷ bs) =
    let rest = key_prefix bs in
    if b == sep then some [] else elim rest [ none ↦ none | some p ↦ some (b ∷ p) ]

-- The loop of `ListSensors`: the prefixes, each run of equal ones once.
unfoldable pub sensor_ids_of : Bytes → List Bytes → List Bytes
sensor_ids_of last_seen [] = []
sensor_ids_of last_seen (k ∷ ks) = elim (key_prefix k) [
  | none ↦ sensor_ids_of last_seen ks
  | some p ↦ if same_id p last_seen then sensor_ids_of last_seen ks else p ∷ sensor_ids_of p ks
]

-- An open or a null `db_`, and whether an allocation of so many bytes succeeds.
pub record Store (D : Type 0) : Type 0 where
  pub db : Option D
  pub has_memory : ℕ → Bool

module _ {D : Type 0} (calls : Database D) where
  -- A call that changes the database.
  abbrev pub stepped : Store D → Status × D → ErrorCode × Store D
  stepped s r = (map_status r.0, record s { db = some r.1 })

  -- A status that is not ok ends the function.
  abbrev pub checked {ℓ} : {A : Type ℓ} → Status → A → Result A
  checked status_ok a = done a
  checked e a = fail (map_status e)

  unfoldable pub write_block_db : Store D → Block → ErrorCode × Store D
  write_block_db s blk =
      let needed = block_size blk in
      let bytes = serialize_block blk true in
      elim s.db [
        | none ↦ (err_io, s)
        | some d ↦
            if is_empty_id blk.sensor_id || needed == 0
            then (err_invalid_arg, s)
            else if not (s.has_memory needed)
            then (err_oom, s)
            else if length bytes == 0 || not (length bytes == needed)
            then (err_invalid_arg, s)
            else stepped s (calls.put_key d (encode_key blk.sensor_id blk.block_id) bytes)
      ]

  -- The block's identity is the caller's; the rest is what `decode_block` recovers.
  unfoldable pub read_block_db : Store D → Bytes → ℤ → Outputs → Result Decoded
  read_block_db s sensor_id block_id outputs = elim s.db [
    | none ↦ fail err_io
    | some d ↦ do
      guard (not (is_empty_id sensor_id)) err_invalid_arg
      let got = calls.get_key d (encode_key sensor_id block_id)
      value ← checked got.0 got.1
      decode_block (some value) (length value) true outputs
  ]

  unfoldable pub list_blocks_db : Store D → Bytes → Result (List ℤ)
  list_blocks_db s sensor_id = elim s.db [
    | none ↦ fail err_io
    | some d ↦ do
      guard (not (is_empty_id sensor_id)) err_invalid_arg
      let scan = calls.keys_from d (range_begin_key sensor_id) (some (range_end_key sensor_id))
      checked scan.0 (block_ids_of (length sensor_id) scan.1)
  ]

  unfoldable pub list_sensors_db : Store D → Result (List Bytes)
  list_sensors_db s = elim s.db [
    | none ↦ fail err_io
    | some d ↦ let scan = calls.keys_from d [] none in checked scan.0 (sensor_ids_of [] scan.1)
  ]

  unfoldable pub delete_sensor_db : Store D → Bytes → ErrorCode × Store D
  delete_sensor_db s sensor_id = elim s.db [
    | none ↦ (err_io, s)
    | some d ↦
        if is_empty_id sensor_id
        then (err_invalid_arg, s)
        else stepped s (calls.delete_range d (range_begin_key sensor_id) (range_end_key sensor_id))
  ]

  unfoldable pub flush_db : Store D → ErrorCode × Store D
  flush_db s = elim s.db [
    | none ↦ (err_io, s)
    | some d ↦
        let f = calls.flush_memtable d in
        elim f.0 [ status_ok ↦ stepped s (calls.sync_wal f.1) | _ ↦ stepped s f ]
  ]

  unfoldable pub write_metadata_db : Store D → Bytes → ErrorCode × Store D
  write_metadata_db s bytes = elim s.db [
    | none ↦ (err_io, s)
    | some d ↦
        if length bytes == 0
        then (err_invalid_arg, s)
        else stepped s (calls.put_key d metadata_key bytes)
  ]

  unfoldable pub read_metadata_db : Store D → Result Bytes
  read_metadata_db s = elim s.db [
    | none ↦ fail err_io
    | some d ↦ let got = calls.get_key d metadata_key in checked got.0 got.1
  ]

  abbrev pub rocksdb_backend : Backend (Store D)
  rocksdb_backend = record {
    write_block = write_block_db;
    read_block = read_block_db;
    list_blocks = list_blocks_db;
    list_sensors = list_sensors_db;
    delete_sensor = delete_sensor_db;
    flush = flush_db;
    write_metadata = write_metadata_db;
    read_metadata = read_metadata_db;
    cold_bytes_estimate = λ s. elim s.db [ none ↦ 0 | some d ↦ calls.approximate_size d ];
  }

-- `NullStorageBackend`: nothing is kept.
abbrev pub null_backend : Backend (Unit {0})
null_backend = record {
  write_block = λ s blk. (ok, s);
  read_block = λ s id k w. fail err_not_found;
  list_blocks = λ s id. done [];
  list_sensors = λ s. done [];
  delete_sensor = λ s id. (ok, s);
  flush = λ s. (ok, s);
  write_metadata = λ s bytes. (ok, s);
  read_metadata = λ s. fail err_not_found;
  cold_bytes_estimate = λ s. 0;
}
