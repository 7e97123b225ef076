-- ===== src/Ring/Account.antt =====
-- The data-loss counters of include/chronosv/ring_buffer.h over a ring's whole life.
use chronos_vector.Base.{
  ℕ, suc, ◌+◌, ◌-◌, ◌^◌, ◌≤◌, ◌<◌, ◌≡◌, refl, sym, ap, ◌∙◌, List, length, length-drop, arith,
  Option,
}
use chronos_vector.Base.Int.{ℤ}
use chronos_vector.Ring.{Ring, Allocator, make_ring, append, snapshot, advance_tail}
use chronos_vector.Ring.Inv.{
  IsValid, make_ring-IsValid, append-IsValid, advance_tail-IsValid, snapshot_bounds,
}
use chronos_vector.Ring.Window.{contents, length-contents}
use chronos_vector.Ring.Refine.{
  overwritten-append_lem, length-contents-append, contents-advance_tail,
}

-- The histories of a ring, with the number of entries appended and the number that eviction took:
-- appends, and tail moves within the snapshot, in any order.
pub data History (start : Ring) : ℕ → ℕ → Ring → Type 0 where
  created : History start 0 0 start
  appended :
      {n k : ℕ} {r : Ring} (ts : ℤ) (vec : List ℕ) (norm : ℕ) (payload : Option (List ℕ))
      (scale : ℕ)
      → History start n k r
      → History start (suc n) k (append r ts vec norm payload scale)
  evicted :
      {n k : ℕ} {r : Ring} (m k' : ℕ)
      → m ≤ length (contents r)
      → k' ≡ k + m
      → History start n k r
      → History start n k' (advance_tail r ((snapshot r).0 + m))

pub record IsAccounted (n k : ℕ) (r : Ring) : Type 0 where
  pub valid : IsValid r
  pub all_appends : r.head ≡ n
  pub same_counters : r.overwrite_events ≡ r.overwritten_entries
  pub balance : r.overwritten_entries + k + length (contents r) ≡ n

fresh :
    (a : Allocator) (capacity dim size dtype e : ℕ)
    → capacity ≡ 2 ^ e
    → 64 ≤ capacity
    → capacity < 2 ^ 64
    → IsAccounted 0 0 (make_ring a capacity dim size dtype)
unfolding make_ring
fresh a capacity dim size dtype e p low high = record {
  valid = make_ring-IsValid a capacity dim size dtype e p low high;
  all_appends = refl;
  same_counters = refl;
  balance = omega (arith, length-contents ring, snapshot_bounds valid);
}
  where
    ring : Ring
    ring = make_ring a capacity dim size dtype

    valid : IsValid ring
    valid = make_ring-IsValid a capacity dim size dtype e p low high

append_fields :
    (r : Ring) (ts : ℤ) (vec : List ℕ) (norm : ℕ) (payload : Option (List ℕ)) (scale : ℕ)
    → r.head + 1 < 2 ^ 64
    → (append r ts vec norm payload scale).head ≡ r.head + 1
unfolding append
append_fields r ts vec norm payload scale room = omega arith

append-IsAccounted :
    {n k : ℕ} {r : Ring} (ts : ℤ) (vec : List ℕ) (norm : ℕ) (payload : Option (List ℕ)) (scale : ℕ)
    → IsAccounted n k r
    → n + 1 < 2 ^ 64
    → IsAccounted (suc n) k (append r ts vec norm payload scale)
append-IsAccounted {n} {k} {r} ts vec norm payload scale c room = record {
  valid = append-IsValid ts vec norm payload scale c.valid head_room;
  all_appends = omega (arith, append_fields r ts vec norm payload scale head_room, c.all_appends);
  same_counters = counters.1;
  balance = omega (
    arith,
    counters.0,
    length-contents-append r ts vec norm payload scale c.valid head_room,
    c.balance,
  );
}
  where
    head_room : r.head + 1 < 2 ^ 64
    head_room = omega (arith, c.all_appends, room)

    counters :
        ((append r ts vec norm payload scale).overwritten_entries
          ≡ r.overwritten_entries + (length (contents r) + 1 - r.capacity))
        × ((append r ts vec norm payload scale).overwrite_events
            ≡ (append r ts vec norm payload scale).overwritten_entries)
    counters =
        overwritten-append_lem r ts vec norm payload scale c.valid head_room
          (omega (arith, c.balance, c.all_appends)) c.same_counters

advance_tail_fields :
    (r : Ring) (t : ℕ)
    → ((advance_tail r t).head ≡ r.head)
      × ((advance_tail r t).overwritten_entries ≡ r.overwritten_entries)
      × ((advance_tail r t).overwrite_events ≡ r.overwrite_events)
unfolding advance_tail
advance_tail_fields r t = (refl, refl, refl)

advance_tail-IsAccounted :
    {n k : ℕ} {r : Ring} (m k' : ℕ)
    → m ≤ length (contents r)
    → k' ≡ k + m
    → IsAccounted n k r
    → IsAccounted n k' (advance_tail r ((snapshot r).0 + m))
advance_tail-IsAccounted {n} {k} {r} m k' h e c = record {
  valid =
      advance_tail-IsValid ((snapshot r).0 + m) c.valid
        (omega (arith, h, length-contents r, snapshot_bounds c.valid));
  all_appends = fields.0 ∙ c.all_appends;
  same_counters = fields.2 ∙ c.same_counters ∙ sym fields.1;
  balance = omega (
    arith,
    fields,
    c.balance,
    ap length (contents-advance_tail r m c.valid h),
    length-drop m (contents r),
  );
}
  where
    fields :
        ((advance_tail r ((snapshot r).0 + m)).head ≡ r.head)
        × ((advance_tail r ((snapshot r).0 + m)).overwritten_entries ≡ r.overwritten_entries)
        × ((advance_tail r ((snapshot r).0 + m)).overwrite_events ≡ r.overwrite_events)
    fields = advance_tail_fields r ((snapshot r).0 + m)

History-IsAccounted :
    {start : Ring} {n k : ℕ} {r : Ring}
    → IsAccounted 0 0 start
    → History start n k r
    → n < 2 ^ 64
    → IsAccounted n k r
History-IsAccounted c created h = c
History-IsAccounted c (appended ts vec norm payload scale past) h =
    append-IsAccounted ts vec norm payload scale (History-IsAccounted c past (omega arith))
      (omega arith)
History-IsAccounted c (evicted m k' fits e past) h =
    advance_tail-IsAccounted m k' fits e (History-IsAccounted c past h)

-- No entry is lost silently: in every history of a new ring with fewer than 2^64 appends, the appended
-- entries are the ones counted as overwritten, the ones eviction took and the ones still visible. The
-- two overwrite counters agree, and the ring stays valid.
pub History-balance :
    (a : Allocator) (capacity dim size dtype e : ℕ) {n k : ℕ} {r : Ring}
    → capacity ≡ 2 ^ e
    → 64 ≤ capacity
    → capacity < 2 ^ 64
    → History (make_ring a capacity dim size dtype) n k r
    → n < 2 ^ 64
    → (r.overwritten_entries + k + length (contents r) ≡ n)
      × (r.overwrite_events ≡ r.overwritten_entries)
      × IsValid r
History-balance a capacity dim size dtype e p low high past h =
    let c = History-IsAccounted (fresh a capacity dim size dtype e p low high) past h in
    (c.balance, c.same_counters, c.valid)
