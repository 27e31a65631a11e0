-- ===== src/Era/Cursor.antt =====
-- Cursors of src/era.rs: what `ranges_since` reports right after the operations that move eras.
use ublkera.Base.{
  ℕ, ◌+◌, ◌/◌, ◌^◌, ◌<◌, ◌≡◌, refl, true, false, List, [], ◌∷◌, length, arith, div-lt,
}
use ublkera.Era.{EraState, DirtyRange, checkpoint, mark_all_dirty, ranges_since}
use ublkera.Era.Stamp.{get_or-stamp_all}
use ublkera.Era.Valid.{IsValid, checkpoint-IsValid, mark_all_dirty-IsValid}
use ublkera.Era.Ranges.{covers, Separated, ranges_since_lem, ranges_since-Separated}

-- Ranges that hold no byte are none.
no_ranges :
    (rs : List DirtyRange) (end : ℕ) → Separated rs end → ((b : ℕ) → covers rs b ≡ false) → rs ≡ []
unfolding covers
no_ranges [] end s none_covered = refl
no_ranges (r ∷ []) end s none_covered = absurd (ground (arith, none_covered r.offset))
no_ranges (r ∷ q ∷ rs) end s none_covered = absurd (ground (arith, none_covered r.offset))

-- On a valid tracker whose era counter does not run out, right after a checkpoint nothing has
-- changed since the era that it closed.
pub checkpoint-ranges_since :
    {s : EraState}
    → IsValid s
    → s.current_era + 1 < 2 ^ 32
    → let (t, old, now) = checkpoint s in ranges_since old t ≡ []
unfolding checkpoint
checkpoint-ranges_since {s} v room =
    let w : IsValid (checkpoint s).0 = checkpoint-IsValid room v in
    no_ranges (ranges_since s.current_era (checkpoint s).0) s.dev_size
      (ranges_since-Separated s.current_era w)
      (λ b. ground (arith, ranges_since_lem s.current_era b w, v.bounded (b / s.granularity)))

-- On a valid tracker, after `mark_all_dirty` every cursor of an older era is told the whole
-- device.
pub mark_all_dirty-ranges_since :
    (since : ℕ) {s : EraState} (b : ℕ)
    → IsValid s
    → since < s.current_era
    → b < s.dev_size
    → covers (ranges_since since (mark_all_dirty s)) b ≡ true
unfolding mark_all_dirty
mark_all_dirty-ranges_since since {s} b v old inside =
    let w : IsValid (mark_all_dirty s) = mark_all_dirty-IsValid v in
    let chunk : b / s.granularity < length s.eras =
      div-lt s.granularity (length s.eras) b (omega (arith, v.gran)) (omega (arith, v.cover)) in
    ground (
      arith,
      ranges_since_lem since b w,
      get_or-stamp_all s.current_era s.eras (b / s.granularity) chunk,
    )
