-- ===== src/Era.antt =====
-- src/era.rs: the state of the change tracker and its operations on a quiescent device.
pub mod Stamp
pub mod Valid
pub mod Mark
pub mod Ranges
pub mod Race
pub mod Cursor
pub mod Calm
use ublkera.Base.{
  ℕ, zero, suc, ◌+◌, ◌*◌, ◌/◌, ◌%◌, ◌^◌, min, max, Bool, false, ◌&&◌, ◌||◌, not, Option, none, some,
  List, [], ◌∷◌, length, replicate, ltb, leb, ◌==◌, if◌then◌else◌, u32, u64, sub64,
}
use ublkera.Base.{◌-◌}

-- `EraState`; the atomics are plain numbers here, and `Era/Race` has their interleavings.
pub record EraState : Type 0 where
  pub granularity : ℕ
  pub dev_size : ℕ
  pub generation : ℕ
  pub current_era : ℕ
  pub eras : List ℕ

pub record DirtyRange : Type 0 where
  pub offset : ℕ
  pub len : ℕ

-- `u64::is_power_of_two`: one of the first `n` powers.
unfoldable pub is_power_below : ℕ → ℕ → Bool
is_power_below zero g = false
is_power_below (suc n) g = g == 2 ^ n || is_power_below n g

-- `u64::div_ceil`
unfoldable pub div_ceil : ℕ → ℕ → ℕ
div_ceil a b = if ltb 0 (a % b) then a / b + 1 else a / b

-- `EraState::new`, with the bytes of /dev/urandom as the number `gen`; `none` is the refusal.
unfoldable pub new : (dev_size granularity gen : ℕ) → Option EraState
unfolding is_power_below div_ceil
new dev_size granularity gen =
    if not (is_power_below 64 granularity) || ltb granularity 4096
    then none
    else some (record {
      granularity = granularity;
      dev_size = dev_size;
      generation = gen;
      current_era = 1;
      eras = replicate (div_ceil dev_size granularity) 0;
    })

unfoldable pub nr_chunks : EraState → ℕ
nr_chunks s = length s.eras

-- `fetch_max` on the chunks `first..=last`; `i` is the index of the list's head.
pub stamp : (era first last i : ℕ) → List ℕ → List ℕ
stamp era first last i [] = []
stamp era first last i (e ∷ es) =
    (if leb first i && leb i last then max e era else e) ∷ stamp era first last (i + 1) es

-- The era after `k` checkpoints by another thread.
pub advance : ℕ → ℕ → ℕ
advance k era = u32 (era + k)

-- The loop of `mark_write`. The list holds, for each round, how many checkpoints slip in between
-- its two loads of `current_era`; past its end none does.
pub mark_loop : (races : List ℕ) (first last : ℕ) → EraState → EraState
unfolding stamp advance
mark_loop [] first last s = record s { eras = stamp s.current_era first last 0 s.eras }
mark_loop (k ∷ races) first last s =
    let era = s.current_era in
    let s' = record s {
      eras = stamp era first last 0 s.eras;
      current_era = advance k s.current_era;
    } in
    let again = mark_loop races first last s' in if s'.current_era == era then s' else again

-- `mark_write`; `none` is the panic of a slice `first..=last` that ends before it starts.
pub mark_write : (races : List ℕ) (offset len : ℕ) → EraState → Option EraState
unfolding mark_loop
mark_write races offset len s =
    if len == 0
    then some s
    else let first = offset / s.granularity in
      if leb (length s.eras) first
      then some s
      else let last = min (sub64 (u64 (offset + len)) 1 / s.granularity) (length s.eras - 1) in
        if ltb (last + 1) first then none else some (mark_loop races first last s)

-- `checkpoint`: the state, the closed era and the new one.
unfoldable pub checkpoint : EraState → EraState × ℕ × ℕ
checkpoint s =
    let old = s.current_era in (record s { current_era = u32 (old + 1) }, old, u32 (old + 1))

-- Chunks with a stamp, for `written_chunks`.
pub count_written : List ℕ → ℕ
count_written [] = 0
count_written (e ∷ es) = (if ltb 0 e then 1 else 0) + count_written es

pub written_chunks : EraState → ℕ
unfolding count_written
written_chunks s = count_written s.eras

-- Grow the last range if the new one continues it, else push the new one.
unfoldable pub push_range : List DirtyRange → (offset len : ℕ) → List DirtyRange
push_range [] offset len = record { offset = offset; len = len } ∷ []
push_range (r ∷ []) offset len =
    if u64 (r.offset + r.len) == offset
    then record r { len = u64 (r.len + len) } ∷ []
    else r ∷ record { offset = offset; len = len } ∷ []
push_range (r ∷ q ∷ rs) offset len = r ∷ push_range (q ∷ rs) offset len

-- The loop of `ranges_since` from index `idx` on.
unfoldable pub ranges_loop :
    (granularity dev_size since idx : ℕ) → List ℕ → List DirtyRange → List DirtyRange
unfolding push_range
ranges_loop g d since idx [] ranges = ranges
ranges_loop g d since idx (e ∷ es) ranges =
    let offset = u64 (idx * g) in
    let len = min g (sub64 d offset) in
    ranges_loop g d since (idx + 1) es
      (if leb e since then ranges else push_range ranges offset len)

unfoldable pub ranges_since : ℕ → EraState → List DirtyRange
unfolding ranges_loop
ranges_since since s = ranges_loop s.granularity s.dev_size since 0 s.eras []

-- `mark_all_dirty`
pub stamp_all : ℕ → List ℕ → List ℕ
stamp_all era [] = []
stamp_all era (e ∷ es) = max e era ∷ stamp_all era es

unfoldable pub mark_all_dirty : EraState → EraState
unfolding stamp_all
mark_all_dirty s = record s { eras = stamp_all s.current_era s.eras }
