-- ===== src/Tests/RingTests.antt =====
-- The ring at concrete inputs (compare tests/test_ring_buffer.cpp).
use chronos_vector.Base.{
  ◌+◌, ◌*◌, ◌≤◌, ◌<◌, ◌≡◌, refl, ◌⊎◌, true, some, none, [], ◌∷◌, length, arith, drop,
}
use chronos_vector.Base.Int.{pos}
use chronos_vector.Ring.{Ring, Allocator, make_ring, append, advance_tail, snapshot, slot}
use chronos_vector.Ring.{timestamp_at, entry_at}
use chronos_vector.Ring.Steps.{
  Arguments, Run, Step, idle, timed, counted, here, next, counts, times, put_timestamp,
  count_overwrite,
}
use chronos_vector.Ring.Steps.Frame.{Run-entries_stay, full_ring-overwritten}
use chronos_vector.Ring.Inv.{IsValid, make_ring-IsValid, append-IsValid, slots_sound}
use chronos_vector.Ring.Window.{contents, stored}
use chronos_vector.Ring.Refine.{push_bounded, contents-append, contents-advance_tail}
use chronos_vector.Ring.Account.{created, appended, evicted, History-balance}

abbrev generous : Allocator
generous = record { grants = λ k n. true; leftover = λ k i. 0 }

abbrev empty_ring : Ring
empty_ring = make_ring generous 64 1 1 1

abbrev one_entry : Ring
one_entry = append empty_ring (pos 100) (7 ∷ []) 3 (some (9 ∷ [])) 2

empty_ring-IsValid : IsValid empty_ring
empty_ring-IsValid = make_ring-IsValid generous 64 1 1 1 6 refl (omega arith) (omega arith)

one_entry-IsValid : IsValid one_entry
unfolding make_ring
one_entry-IsValid =
    append-IsValid (pos 100) (7 ∷ []) 3 (some (9 ∷ [])) 2 empty_ring-IsValid (omega arith)

contents-append_example :
    contents one_entry
    ≡ push_bounded 64
        (contents empty_ring)
        (stored empty_ring (pos 100) (7 ∷ []) 3 (some (9 ∷ [])) 2)
unfolding make_ring
contents-append_example =
    contents-append empty_ring (pos 100) (7 ∷ []) 3 (some (9 ∷ [])) 2 empty_ring-IsValid
      (omega arith) (omega arith) (omega arith)

one_visible : length (contents one_entry) ≡ 1
unfolding contents make_ring append snapshot
one_visible = refl

contents-advance_tail_example :
    contents (advance_tail one_entry ((snapshot one_entry).0 + 1)) ≡ drop 1 (contents one_entry)
contents-advance_tail_example =
    contents-advance_tail one_entry 1 one_entry-IsValid (omega (arith, one_visible))

slots_sound_example :
    (slot one_entry 60 < 64)
    × (slot one_entry 60 * 3 + 3 ≤ 64 * 3)
    × ((slot one_entry 60 * 3 + 3 ≤ slot one_entry 70 * 3)
        ⊎ (slot one_entry 70 * 3 + 3 ≤ slot one_entry 60 * 3))
unfolding make_ring append
slots_sound_example = slots_sound one_entry 60 70 3 one_entry-IsValid (omega arith) (omega arith)

History-balance_example :
    let r = advance_tail one_entry ((snapshot one_entry).0 + 1) in
    (r.overwritten_entries + 1 + length (contents r) ≡ 1)
    × (r.overwrite_events ≡ r.overwritten_entries)
    × IsValid r
History-balance_example =
    History-balance generous 64 1 1 1 6 refl (omega arith) (omega arith)
      (evicted 1 1 (omega (arith, one_visible)) refl
        (appended (pos 100) (7 ∷ []) 3 (some (9 ∷ [])) 2 created))
      (omega arith)

abbrev next_entry : Arguments
next_entry = record { ts = pos 200; vec = 8 ∷ []; norm = 4; payload = none; scale = 2 }

-- A producer in the middle of the next `Append`.
abbrev half_written : Ring
half_written = put_timestamp (count_overwrite one_entry) (pos 200)

half_way : Run one_entry idle half_written (timed next_entry)
half_way = next (next here (counts next_entry)) (times next_entry)

Run-entries_stay_example : entry_at half_written 0 ≡ entry_at one_entry 0
unfolding make_ring append count_overwrite put_timestamp
Run-entries_stay_example =
    Run-entries_stay one_entry half_written idle (timed next_entry) 0 one_entry-IsValid half_way
      (omega arith) (omega arith)

-- A ring with 64 entries.
abbrev full_ring : Ring
full_ring = record empty_ring { head = 64 }

full_ring-IsValid : IsValid full_ring
unfolding make_ring
full_ring-IsValid = record {
  power = (6, refl);
  capacity_min = omega arith;
  capacity_word = omega arith;
  mask_lem = refl;
  head_word = omega arith;
  ordered = omega arith;
}

full_ring-overwritten_example :
    ((snapshot full_ring).0 ≡ 0)
    × Step
        (count_overwrite full_ring)
        (counted next_entry)
        (put_timestamp (count_overwrite full_ring) (pos 200))
        (timed next_entry)
    × (timestamp_at (put_timestamp (count_overwrite full_ring) (pos 200)) 0 ≡ pos 200)
    × ((put_timestamp (count_overwrite full_ring) (pos 200)).head ≡ full_ring.head)
    × ((put_timestamp (count_overwrite full_ring) (pos 200)).tail ≡ full_ring.tail)
unfolding make_ring
full_ring-overwritten_example =
    full_ring-overwritten full_ring next_entry 0 full_ring-IsValid refl (omega arith)
