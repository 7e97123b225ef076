-- ===== src/Storage/Keys.antt =====
-- The keys of src/storage_rocksdb.cpp, in the byte order of the database.
use chronos_vector.Base.{
  ℕ, ◌≡◌, ◌≢◌, ◌↔◌, refl, ap₂, subst, Bool, true, false, not, ◌&&◌, [], ◌∷◌, ◌++◌, arith, ltb, ◌==◌,
  All, if◌then◌else◌,
}
use chronos_vector.Base.Int.{ℤ, word64}
use chronos_vector.Engine.{Bytes}
use chronos_vector.Storage.{put_u64_be, encode_key, range_begin_key, range_end_key}

-- The database compares keys byte by byte.
unfoldable pub before : Bytes → Bytes → Bool
before [] [] = false
before [] (c ∷ cs) = true
before (b ∷ bs) [] = false
before (b ∷ bs) (c ∷ cs) = let rest = before bs cs in if ltb b c then true else b == c && rest

-- A key from `begin` up to `end`.
abbrev pub between : Bytes → Bytes → Bytes → Bool
between begin end key = not (before key begin) && before key end

-- The bytes of a sensor id do not hold the separator.
abbrev pub HasNoSep : Bytes → Type 0
HasNoSep id = All (λ b. b ≢ 1) id

nothing_before : (s : Bytes) → before s [] ≡ false
unfolding before
nothing_before [] = refl
nothing_before (b ∷ s) = refl

same_head :
    (d c : ℕ) (low high : Bool)
    → (not (if ltb c d then true else c == d && low) && (if ltb c d then true else c == d && high))
      ≡ true
    → (d ≡ c) × ((not low && high) ≡ true)
same_head d c low high h = ground arith

same_range :
    (y x t : Bytes)
    → HasNoSep y
    → HasNoSep x
    → between (y ++ (1 ∷ [])) (y ++ (2 ∷ [])) (x ++ (1 ∷ t)) ≡ true
    → y ≡ x
unfolding before
same_range [] [] t hy hx h = refl
same_range [] (c ∷ x) t hy (hc, hx) h = ground (arith, nothing_before (x ++ (1 ∷ t)))
same_range (d ∷ y) [] t (hd, hy) hx h = ground arith
same_range (d ∷ y) (c ∷ x) t (hd, hy) (hc, hx) h =
    let (e, rest) = same_head d c _ _ h in ap₂ ◌∷◌ e (same_range y x t hy hx rest)

own_range : (x t : Bytes) → between (x ++ (1 ∷ [])) (x ++ (2 ∷ [])) (x ++ (1 ∷ t)) ≡ true
unfolding before
own_range [] [] = refl
own_range [] (b ∷ t) = refl
own_range (c ∷ x) t = ground (arith, own_range x t)

-- The range that `ListBlocks` scans and `DeleteSensor` deletes for one sensor holds every block key of
-- that sensor and no block key of another, for ids without the separator byte 0x01.
pub encode_key-range :
    (owner id : Bytes) (block_id : ℤ)
    → HasNoSep owner
    → HasNoSep id
    → (between (range_begin_key owner) (range_end_key owner) (encode_key id block_id) ≡ true)
      ↔ (owner ≡ id)
unfolding encode_key range_begin_key range_end_key
encode_key-range owner id block_id ho hi = (
  same_range owner id (put_u64_be (word64 block_id)) ho hi,
  λ e.
      subst
        (λ x.
          between (owner ++ (1 ∷ [])) (owner ++ (2 ∷ [])) (x ++ (1 ∷ put_u64_be (word64 block_id)))
          ≡ true)
        e (own_range owner (put_u64_be (word64 block_id))),
)
