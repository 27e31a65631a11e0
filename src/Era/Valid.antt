-- ===== src/Era/Valid.antt =====
-- The invariant of `EraState` (src/era.rs): the chunks tile the device, and no stamp is ahead of
-- the current era. Every operation keeps it.
use native.Mathlib.Nat.{pow-le-pow_right}
use ublkera.Base.{
  ℕ, zero, suc, ◌+◌, ◌*◌, ◌^◌, ◌≤◌, ◌<◌, List, ◌≡◌, refl, length, get_or, ◌==◌, true, some,
  replicate, dec_le, ==_iff, length-replicate, arith, inl, inr, div-bounds, Bool-cases,
}
use ublkera.Era.{
  EraState, is_power_below, div_ceil, new, checkpoint, mark_all_dirty, stamp, stamp_all,
}
use ublkera.Era.Stamp.{length-stamp, get_or-stamp, get_or_past, length-stamp_all, get_or-stamp_all}

pub record IsValid (s : EraState) : Type 0 where
  pub power : is_power_below 64 s.granularity ≡ true
  pub gran : 4096 ≤ s.granularity
  pub small : s.dev_size < 2 ^ 64
  pub cover : s.dev_size ≤ length s.eras * s.granularity
  pub tight : length s.eras * s.granularity < s.dev_size + s.granularity
  pub era_fits : s.current_era < 2 ^ 32
  pub bounded : (j : ℕ) → get_or s.eras j 0 ≤ s.current_era

div_ceil-bounds : (d g : ℕ) → 0 < g → (d ≤ div_ceil d g * g) × (div_ceil d g * g < d + g)
unfolding div_ceil
div_ceil-bounds d g h = grind (arith, div-bounds g d h)

get_or-replicate : (n j : ℕ) → get_or {A = ℕ} (replicate n 0) j 0 ≡ 0
get_or-replicate zero j = refl
get_or-replicate (suc n) zero = refl
get_or-replicate (suc n) (suc j) = get_or-replicate n j

-- A state that `new` accepts is valid, starts at era 1 and has no chunk marked.
pub new-IsValid :
    (d g gen : ℕ) {s : EraState}
    → d < 2 ^ 64
    → new d g gen ≡ some s
    → IsValid s × (s.current_era ≡ 1) × ((j : ℕ) → get_or s.eras j 0 ≡ 0)
unfolding new
new-IsValid d g gen {s} hd e = (
  record {
    power = ground arith;
    gran = ground arith;
    small = ground arith;
    cover = ground (arith, div_ceil-bounds d g, length-replicate {0} {A = ℕ} (div_ceil d g) 0);
    tight = ground (arith, div_ceil-bounds d g, length-replicate {0} {A = ℕ} (div_ceil d g) 0);
    era_fits = ground arith;
    bounded = λ j. ground (arith, get_or-replicate (div_ceil d g) j);
  },
  ground arith,
  λ j. ground (arith, get_or-replicate (div_ceil d g) j),
)

-- The number of chunks is what tiles the device.
tiles_unique : (d g n m : ℕ) → d ≤ n * g → n * g < d + g → d ≤ m * g → m * g < d + g → n ≤ m
tiles_unique d g n m p q p' q' = elim (dec_le n m) [
  | yes h ↦ h
  | no h ↦ let far : m * g + g ≤ n * g = grind arith in absurd (omega arith)
]

pub div_ceil-eq : (d g n : ℕ) → 0 < g → d ≤ n * g → n * g < d + g → div_ceil d g ≡ n
div_ceil-eq d g n h p q =
    let (low, high) = div_ceil-bounds d g h in
    omega (
      arith,
      tiles_unique d g n (div_ceil d g) p q low high,
      tiles_unique d g (div_ceil d g) n low high p q,
    )

is_power_below-pow : (n g : ℕ) → is_power_below n g ≡ true → (k : ℕ) × (k < n) × (g ≡ 2 ^ k)
unfolding is_power_below
is_power_below-pow zero g h = cc
is_power_below-pow (suc n) g h = elim (Bool-cases (g == 2 ^ n)) [
  | inl here ↦ (n, omega arith, (==_iff g (2 ^ n)).0 here)
  | inr below ↦ let (k, lt, e) = is_power_below-pow n g (rw below at h) in (k, omega arith, e)
]

-- The granularity and the number of chunks are u64 values.
pub granularity-lt : {s : EraState} → IsValid s → s.granularity < 2 ^ 64
granularity-lt {s} v =
    let (k, lt, e) = is_power_below-pow 64 s.granularity v.power in
    let below : k ≤ 63 = omega arith in
    let top : 2 ^ k ≤ 2 ^ 63 = pow-le-pow_right {n = 2} (omega arith) below in omega arith

count-lt : (n g d : ℕ) → 0 < g → n * g < d + g → n ≤ d
count-lt zero g d p q = omega arith
count-lt (suc n) g d p q = let fits : n ≤ n * g = grind arith in omega arith

pub chunks-lt : {s : EraState} → IsValid s → length s.eras < 2 ^ 64
chunks-lt {s} v = omega (
  arith,
  count-lt (length s.eras) s.granularity s.dev_size (omega (arith, v.gran)) v.tight,
  v.small,
)

-- `new` gives any valid tracker's geometry back, with no chunk marked.
pub new-eq :
    (gen : ℕ) {s : EraState}
    → IsValid s
    → new s.dev_size s.granularity gen
      ≡ some (record {
        granularity = s.granularity;
        dev_size = s.dev_size;
        generation = gen;
        current_era = 1;
        eras = replicate (length s.eras) 0;
      })
unfolding new
new-eq gen {s} v = ground (arith, v.power, div_ceil-eq s.dev_size s.granularity (length s.eras))

-- A tracker that `new` makes has `div_ceil` chunks.
pub chunks-new : (d g gen : ℕ) {s : EraState} → new d g gen ≡ some s → length s.eras ≡ div_ceil d g
unfolding new
chunks-new d g gen e = ground (arith, length-replicate {0} {A = ℕ} (div_ceil d g) 0)

-- A checkpoint keeps the invariant as long as the era counter has not run out.
pub checkpoint-IsValid :
    {s : EraState} → s.current_era + 1 < 2 ^ 32 → IsValid s → IsValid (checkpoint s).0
unfolding checkpoint
checkpoint-IsValid {s} h v = record {
  power = v.power;
  gran = v.gran;
  small = v.small;
  cover = v.cover;
  tight = v.tight;
  era_fits = omega arith;
  bounded = λ j. omega (arith, v.bounded j);
}

get_or-stamp-le :
    (era first last : ℕ) (es : List ℕ)
    → ((j : ℕ) → get_or es j 0 ≤ era)
    → (j : ℕ) → get_or (stamp era first last 0 es) j 0 ≤ era
get_or-stamp-le era first last es h j = ground (
  arith,
  h j,
  get_or-stamp era first last 0 es j,
  get_or_past (stamp era first last 0 es) j,
  length-stamp era first last 0 es,
)

-- One round of stamping at the current era, after which the counter may have moved on.
pub stamp-IsValid :
    {s : EraState} (first last now : ℕ)
    → s.current_era ≤ now
    → now < 2 ^ 32
    → IsValid s
    → IsValid (record s { eras = stamp s.current_era first last 0 s.eras; current_era = now })
stamp-IsValid {s} first last now h fits v = record {
  power = v.power;
  gran = v.gran;
  small = v.small;
  cover = rw (length-stamp s.current_era first last 0 s.eras) v.cover;
  tight = rw (length-stamp s.current_era first last 0 s.eras) v.tight;
  era_fits = fits;
  bounded = λ j. omega (arith, get_or-stamp-le s.current_era first last s.eras v.bounded j);
}

-- `mark_all_dirty` keeps the invariant.
pub mark_all_dirty-IsValid : {s : EraState} → IsValid s → IsValid (mark_all_dirty s)
unfolding mark_all_dirty
mark_all_dirty-IsValid {s} v = record {
  power = v.power;
  gran = v.gran;
  small = v.small;
  cover = rw (length-stamp_all s.current_era s.eras) v.cover;
  tight = rw (length-stamp_all s.current_era s.eras) v.tight;
  era_fits = v.era_fits;
  bounded = λ j. ground (
    arith,
    v.bounded j,
    get_or-stamp_all s.current_era s.eras j,
    get_or_past (stamp_all s.current_era s.eras) j,
    length-stamp_all s.current_era s.eras,
  );
}
