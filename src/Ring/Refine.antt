-- ===== src/Ring/Refine.antt =====
-- The ring of include/chronosv/ring_buffer.h as a bounded window: `Append` puts an entry at the end and drops the
-- oldest one when `capacity` entries are visible.
use chronos_vector.Base.{
  ℕ, zero, suc, ◌+◌, ◌-◌, ◌^◌, ◌≤◌, ◌<◌, ◌≡◌, refl, ap, ap₂, ◌∙◌, sym, List, [], ◌∷◌, ◌++◌, length,
  drop, arith, Option,
}
use chronos_vector.Base.Int.{ℤ}
use chronos_vector.Ring.{Ring, append, snapshot, advance_tail, entry_at, vsz}
use chronos_vector.Ring.Inv.{
  IsValid, slot-ne, append-IsValid, snapshot_bounds, snapshot_lem, advance_tail-IsValid,
}
use chronos_vector.Ring.Window.{
  entries, contents, stored, HoldsPayload, entry_at-append_new, entry_at-append_old, entries_snoc,
  entries_cong, drop-entries, length-contents,
}

-- The specification: a list of at most `cap` items that loses its oldest ones.
unfoldable pub push_bounded {ℓ} : {A : Type ℓ} → ℕ → List A → A → List A
push_bounded cap xs x = drop (length xs + 1 - cap) (xs ++ (x ∷ []))

entry_at-advance_tail : (r : Ring) (t j : ℕ) → entry_at (advance_tail r t) j ≡ entry_at r j
unfolding entry_at advance_tail
entry_at-advance_tail r t j = refl

drop_front {ℓ} :
    {A : Type ℓ} (k : ℕ) (xs ys : List A) → k ≤ length xs → drop k (xs ++ ys) ≡ drop k xs ++ ys
drop_front zero xs ys h = refl
drop_front (suc k) [] ys h = absurd (omega arith)
drop_front (suc k) (x ∷ xs) ys h = drop_front k xs ys (omega arith)

module _ (r : Ring) (ts : ℤ) (vec : List ℕ) (norm : ℕ) (payload : Option (List ℕ)) (scale : ℕ)
    (v : IsValid r) (room : r.head + 1 < 2 ^ 64) where
  abbrev after : Ring
  after = append r ts vec norm payload scale

  abbrev begin : ℕ
  begin = (snapshot r).0

  -- How many entries the call drops.
  abbrev lost : ℕ
  lost = r.head - begin + 1 - r.capacity

  after-IsValid : IsValid after
  after-IsValid = append-IsValid ts vec norm payload scale v room

  after_fields : (after.head ≡ r.head + 1) × (after.tail ≡ r.tail) × (after.capacity ≡ r.capacity)
  unfolding append
  after_fields = (omega (arith, room), refl, refl)

  begin_moves : (snapshot after).0 ≡ begin + lost
  begin_moves =
      snapshot_lem after-IsValid
      ∙ ground (arith, after_fields, snapshot_lem v, v.ordered, v.capacity_min)

  bounds : (begin ≤ r.head) × (r.head ≤ begin + r.capacity)
  bounds = (omega (arith, snapshot_bounds v), omega (arith, snapshot_bounds v))

  survivors :
      entries after (begin + lost) (r.head - begin - lost)
      ≡ entries r (begin + lost) (r.head - begin - lost)
  survivors = entries_cong after r (begin + lost) (r.head - begin - lost) (λ j low high.
      entry_at-append_old r ts vec norm payload scale j
        (λ e. slot-ne v j r.head (omega (arith, bounds)) (omega (arith, bounds)) (sym e)))

  pub contents-append_lem :
      vsz r ≤ length vec
      → HoldsPayload r payload
      → contents after ≡ push_bounded r.capacity (contents r) (stored r ts vec norm payload scale)
  unfolding contents push_bounded snapshot
  contents-append_lem hv hp =
      ap₂ (entries after) begin_moves count
      ∙ entries_snoc after (begin + lost) (r.head - begin - lost)
      ∙ ap₂ (λ xs e. xs ++ (e ∷ [])) survivors newest
      ∙ sym (
          ap₂ (λ k xs. drop k (contents r ++ (xs ∷ []))) dropped refl
          ∙ drop_front lost (contents r) (stored r ts vec norm payload scale ∷ [])
              (omega (arith, length-contents r, snapshot_bounds v))
          ∙ ap (λ xs. xs ++ (stored r ts vec norm payload scale ∷ []))
              (drop-entries r begin (r.head - begin) lost (omega (arith, v.capacity_min))))
    where
      count : (snapshot after).1 - (snapshot after).0 ≡ suc (r.head - begin - lost)
      count =
          omega (
            arith,
            begin_moves,
            bounds,
            snapshot_bounds after-IsValid,
            after_fields,
            v.capacity_min,
          )

      newest :
          entry_at after (begin + lost + (r.head - begin - lost))
          ≡ stored r ts vec norm payload scale
      newest =
          ap (entry_at after) (omega (arith, bounds, v.capacity_min))
          ∙ entry_at-append_new r ts vec norm payload scale hv hp

      dropped : length (contents r) + 1 - r.capacity ≡ lost
      dropped = omega (arith, length-contents r, snapshot_bounds v)

  pub length-contents-append :
      length (contents after) + (length (contents r) + 1 - r.capacity) ≡ length (contents r) + 1
  length-contents-append = omega (
    arith,
    length-contents after,
    length-contents r,
    begin_moves,
    after_fields,
    snapshot_bounds v,
    snapshot_bounds after-IsValid,
    v.capacity_min,
  )

  -- The counters grow by the number of entries dropped.
  pub overwritten-append_lem :
      r.overwritten_entries < r.head + 1
      → r.overwrite_events ≡ r.overwritten_entries
      → (after.overwritten_entries ≡ r.overwritten_entries + (length (contents r) + 1 - r.capacity))
        × (after.overwrite_events ≡ after.overwritten_entries)
  unfolding append
  overwritten-append_lem small same = ground (
    arith,
    length-contents r,
    snapshot_bounds v,
    snapshot_lem v,
    v.ordered,
    v.capacity_min,
    v.head_word,
  )

-- `Append` on a valid ring is `push_bounded` on what readers see: the new entry comes last, and the
-- oldest one goes exactly when `capacity` entries were visible. The caller's buffers hold one vector
-- and, if given, one payload; the 64-bit head has room.
pub contents-append :
    (r : Ring) (ts : ℤ) (vec : List ℕ) (norm : ℕ) (payload : Option (List ℕ)) (scale : ℕ)
    → IsValid r
    → r.head + 1 < 2 ^ 64
    → vsz r ≤ length vec
    → HoldsPayload r payload
    → contents (append r ts vec norm payload scale)
      ≡ push_bounded r.capacity (contents r) (stored r ts vec norm payload scale)
contents-append r ts vec norm payload scale v room hv hp =
    contents-append_lem r ts vec norm payload scale v room hv hp

module _ (r : Ring) (n : ℕ) (v : IsValid r) (h : n ≤ length (contents r)) where
  abbrev moved : Ring
  moved = advance_tail r ((snapshot r).0 + n)

  within : n ≤ (snapshot r).1 - (snapshot r).0
  within = omega (arith, length-contents r)

  moved_fields :
      (moved.head ≡ r.head) × (moved.tail ≡ (snapshot r).0 + n) × (moved.capacity ≡ r.capacity)
  unfolding advance_tail
  moved_fields = (refl, refl, refl)

  moved-IsValid : IsValid moved
  moved-IsValid =
      advance_tail-IsValid ((snapshot r).0 + n) v (omega (arith, within, snapshot_bounds v))

  begin_moved : (snapshot moved).0 ≡ (snapshot r).0 + n
  begin_moved =
      snapshot_lem moved-IsValid ∙ ground (arith, moved_fields, snapshot_bounds v, v.capacity_min)

  pub contents-advance_tail_lem : contents moved ≡ drop n (contents r)
  unfolding contents snapshot
  contents-advance_tail_lem =
      ap₂ (entries moved) begin_moved count
      ∙ entries_cong moved r ((snapshot r).0 + n) ((snapshot r).1 - (snapshot r).0 - n)
          (λ j low high. kept j)
      ∙ sym (drop-entries r (snapshot r).0 ((snapshot r).1 - (snapshot r).0) n within)
    where
      count : (snapshot moved).1 - (snapshot moved).0 ≡ (snapshot r).1 - (snapshot r).0 - n
      count =
          omega (arith, begin_moved, moved_fields, snapshot_bounds v, snapshot_bounds moved-IsValid)

      kept : (j : ℕ) → entry_at moved j ≡ entry_at r j
      kept j = entry_at-advance_tail r ((snapshot r).0 + n) j

-- `AdvanceTail` to a place in the snapshot drops exactly the entries before that place.
pub contents-advance_tail :
    (r : Ring) (n : ℕ)
    → IsValid r
    → n ≤ length (contents r)
    → contents (advance_tail r ((snapshot r).0 + n)) ≡ drop n (contents r)
contents-advance_tail r n v h = contents-advance_tail_lem r n v h
