-- ===== src/Examples/Tracker.antt =====
-- A tracker of three chunks on a device of 10000 bytes, on src/era.rs.
use ublkera.Base.{
  ℕ, ◌+◌, ◌*◌, ◌/◌, ◌<◌, ◌≤◌, ◌≡◌, ltb, ◌&&◌, refl, true, arith, some, [], ◌∷◌, get_or, ◌⊎◌,
}
use ublkera.Era.{EraState, new, is_power_below, div_ceil, mark_write, ranges_since, mark_all_dirty}
use ublkera.Era.Valid.{IsValid, new-IsValid}
use ublkera.Era.Mark.{era_at, mark_write-stamps}
use ublkera.Era.Ranges.{covers, ranges_since_lem}
use ublkera.Era.Cursor.{mark_all_dirty-ranges_since}

abbrev pub small : EraState
small = record {
  granularity = 4096;
  dev_size = 10000;
  generation = 7;
  current_era = 1;
  eras = 0 ∷ 0 ∷ 0 ∷ [];
}

made-small : new 10000 4096 7 ≡ some small
unfolding new is_power_below div_ceil
made-small = refl

small-fresh : IsValid small × (small.current_era ≡ 1) × ((j : ℕ) → get_or small.eras j 0 ≡ 0)
small-fresh = new-IsValid 10000 4096 7 (omega arith) made-small

pub small-IsValid : IsValid small
small-IsValid = small-fresh.0

ranges_since_lem_example :
    covers (ranges_since 0 small) 5000
    ≡ (ltb 5000 small.dev_size && ltb 0 (get_or small.eras (5000 / small.granularity) 0))
ranges_since_lem_example = ranges_since_lem 0 5000 small-IsValid

mark_all_dirty-ranges_since_example : covers (ranges_since 0 (mark_all_dirty small)) 9999 ≡ true
mark_all_dirty-ranges_since_example =
    mark_all_dirty-ranges_since 0 9999 small-IsValid (omega arith) (omega arith)

mark_write-stamps_example :
    (t : EraState) × (mark_write (1 ∷ []) 5000 100 small ≡ some t)
    × IsValid t
    × (small.current_era ≤ t.current_era)
    × (t.granularity ≡ small.granularity)
    × (t.dev_size ≡ small.dev_size)
    × ((b : ℕ) → 5000 ≤ b → b < 5000 + 100 → era_at t b ≡ t.current_era)
    × ((b : ℕ)
        → b < small.dev_size
        → (b / small.granularity * small.granularity + small.granularity ≤ 5000)
          ⊎ (5000 + 100 ≤ b / small.granularity * small.granularity)
        → era_at t b ≡ era_at small b)
mark_write-stamps_example =
    mark_write-stamps (1 ∷ []) 5000 100 small-IsValid (omega arith) (omega arith) (omega arith)
