-- ===== src/Storage/RoundTrip.antt =====
-- `WriteBlock` and `ReadBlock` of src/storage_rocksdb.cpp together.
use chronos_vector.Base.{
  ℕ, ◌≡◌, refl, ap, sym, ◌∙◌, Bool, true, false, not, ◌||◌, some, [], append-nil, length, arith,
  ◌==◌, if◌then◌else◌,
}
use chronos_vector.Types.{done, ErrorCode, ok, err_invalid_arg, err_oom, ◌>>=◌, guard_pass}
use chronos_vector.Codec.{Block, Outputs, block_size, serialize_block, decode_block}
use chronos_vector.Codec.Sections.{IsComplete, view}
use chronos_vector.Codec.RoundTrip.{decode-serialize}
use chronos_vector.Engine.{Bytes}
use chronos_vector.Storage.{
  Database, Store, Status, status_ok, status_not_found, status_corruption, status_invalid_argument,
  status_other, map_status, encode_key, is_empty_id, write_block_db, read_block_db, stepped,
  checked,
}

-- What the database documents: a key that was put is there, with its value.
abbrev pub KeepsPut : {D : Type 0} → Database D → Type 0
KeepsPut {D} calls =
    (d : D) (key value : Bytes)
    → (calls.put_key d key value).0 ≡ status_ok
    → calls.get_key (calls.put_key d key value).1 key ≡ (status_ok, value)

map_status-ok : (st : Status) → map_status st ≡ ok → st ≡ status_ok
unfolding map_status
map_status-ok status_ok h = refl
map_status-ok status_not_found h = cc
map_status-ok status_corruption h = cc
map_status-ok status_invalid_argument h = cc
map_status-ok status_other h = cc

-- A guarded write that returns OK went through.
went_through :
    {A : Type 0} (t u v : Bool) (s : A) (r : ErrorCode × A)
    → (if t
        then (err_invalid_arg, s)
        else if u
        then (err_oom, s)
        else if v
        then (err_invalid_arg, s)
        else r).0
      ≡ ok
    → (t ≡ false)
      × (r.0 ≡ ok)
      × ((if t
            then (err_invalid_arg, s)
            else if u
            then (err_oom, s)
            else if v
            then (err_invalid_arg, s)
            else r)
          ≡ r)
went_through true u v s r h = cc
went_through false true v s r h = cc
went_through false false true s r h = cc
went_through false false false s r h = (refl, h, refl)

first_false : (t u : Bool) → (t || u) ≡ false → t ≡ false
first_false true u h = cc
first_false false u h = refl

-- A backend with its database.
abbrev pub opened : {D : Type 0} → D → (ℕ → Bool) → Store D
opened d m = record { db = some d; has_memory = m }

module _ {D : Type 0} (calls : Database D) (keeps : KeepsPut calls) where
  read_lem :
      (d : D) (m : ℕ → Bool) (b : Block) (w : Outputs) (value : Bytes)
      → is_empty_id b.sensor_id ≡ false
      → calls.get_key d (encode_key b.sensor_id b.block_id) ≡ (status_ok, value)
      → read_block_db calls (opened d m) b.sensor_id b.block_id w
        ≡ decode_block (some value) (length value) true w
  unfolding read_block_db
  read_lem d m b w value named found =
      guard_pass (not (is_empty_id b.sensor_id)) err_invalid_arg _ (ap not named)
      ∙ ap
          (λ (got : Status × Bytes).
            checked calls got.0 got.1 >>= λ v. decode_block (some v) (length v) true w)
          found

  -- A block that `WriteBlock` returns OK for is read back by `ReadBlock` from the database as it is then: the header, and
  -- of each section that the caller asks for the first `count` entries of the block's buffers.
  pub read-write_block :
      (d : D) (m : ℕ → Bool) (b : Block) (w : Outputs)
      → IsComplete b
      → (write_block_db calls (opened d m) b).0 ≡ ok
      → read_block_db calls (write_block_db calls (opened d m) b).1 b.sensor_id b.block_id w
        ≡ done (view b w)
  unfolding write_block_db
  read-write_block d m b w complete written =
      let bytes = serialize_block b true in
      let put = calls.put_key d (encode_key b.sensor_id b.block_id) bytes in
      let (named, good, same) =
        went_through (is_empty_id b.sensor_id || block_size b == 0) (not (m (block_size b)))
          (length bytes == 0 || not (length bytes == block_size b)) (opened d m)
          (stepped calls (opened d m) put) written in
      ap (λ p. read_block_db calls p.1 b.sensor_id b.block_id w) same
      ∙ read_lem put.1 m b w bytes (first_false _ _ named)
          (keeps d (encode_key b.sensor_id b.block_id) bytes (map_status-ok put.0 good))
      ∙ ap (λ v. decode_block (some v) (length bytes) true w) (sym (append-nil bytes))
      ∙ decode-serialize b [] (length bytes) w complete (omega arith)
