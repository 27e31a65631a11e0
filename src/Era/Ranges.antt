-- ===== src/Era/Ranges.antt =====
-- `ranges_since` of src/era.rs: the reported byte ranges against the stamps, byte by byte.
use ublkera.Base.{
  ℕ, suc, ◌+◌, ◌-◌, ◌*◌, ◌/◌, ◌^◌, ◌≤◌, ◌<◌, min, List, [], ◌∷◌, ◌≡◌, ◌≢◌, length, get_or, ltb, leb,
  ◌==◌, ◌&&◌, ◌||◌, not, inl, inr, Bool, false, if◌then◌else◌, dec_lt, arith, div-eq, div-bounds,
  Bool-cases, ==_iff, u64, sub64,
}
use ublkera.Era.{EraState, DirtyRange, push_range, ranges_loop, ranges_since}
use ublkera.Era.Valid.{IsValid}

-- Byte `b` lies in `[offset, offset + len)`.
abbrev pub within : (offset len b : ℕ) → Bool
within offset len b = leb offset b && ltb b (offset + len)

-- Byte `b` lies in one of the ranges.
unfoldable pub covers : List DirtyRange → ℕ → Bool
covers [] b = false
covers (r ∷ rs) b = within r.offset r.len b || covers rs b

-- Ascending, none empty, with a gap before each next range, the last one ending at or before `end`:
-- sorted, disjoint and maximally merged.
abbrev pub Separated : List DirtyRange → ℕ → Type 0
Separated [] end = Unit
Separated (r ∷ []) end = (0 < r.len) × (r.offset + r.len ≤ end)
Separated (r ∷ q ∷ rs) end = (0 < r.len) × (r.offset + r.len < q.offset) × Separated (q ∷ rs) end

Separated-end : (rs : List DirtyRange) {a b : ℕ} → a ≤ b → Separated rs a → Separated rs b
Separated-end [] h s = tt
Separated-end (r ∷ []) h s = omega arith
Separated-end (r ∷ q ∷ rs) h s = (s.0, s.1, Separated-end (q ∷ rs) h s.2)

covers-push_range :
    (rs : List DirtyRange) (offset len b : ℕ)
    → offset + len < 2 ^ 64
    → Separated rs offset
    → covers (push_range rs offset len) b ≡ (covers rs b || within offset len b)
unfolding covers push_range
covers-push_range [] offset len b h s = ground arith
covers-push_range (r ∷ []) offset len b h s = ground arith
covers-push_range (r ∷ q ∷ rs) offset len b h s =
    ground (arith, covers-push_range (q ∷ rs) offset len b h s.2)

-- The head of the list keeps its offset.
Separated-push_range :
    (rs : List DirtyRange) (offset len : ℕ)
    → offset + len < 2 ^ 64
    → 0 < len
    → Separated rs offset
    → Separated (push_range rs offset len) (offset + len)
unfolding push_range
Separated-push_range [] offset len h p s = omega arith
Separated-push_range (r ∷ []) offset len h p s =
    elim (Bool-cases (u64 (r.offset + r.len) == offset)) [
      | inl meets ↦
          let e : u64 (r.offset + r.len) ≡ offset = (==_iff _ offset).0 meets in
          rw meets (omega arith)
      | inr apart ↦ let e : u64 (r.offset + r.len) ≢ offset = ground arith in rw apart (omega arith)
    ]
Separated-push_range (r ∷ q ∷ []) offset len h p s =
    elim (Bool-cases (u64 (q.offset + q.len) == offset)) [
      | inl meets ↦
          let e : u64 (q.offset + q.len) ≡ offset = (==_iff _ offset).0 meets in
          rw meets (omega arith)
      | inr apart ↦ let e : u64 (q.offset + q.len) ≢ offset = ground arith in rw apart (omega arith)
    ]
Separated-push_range (r ∷ q ∷ r' ∷ rs) offset len h p s =
    (s.0, s.1, Separated-push_range (q ∷ r' ∷ rs) offset len h p s.2)

-- Chunk `idx` as a byte range, without wrap-around.
abbrev chunk_len : (g d idx : ℕ) → ℕ
chunk_len g d idx = min g (d - idx * g)

no_wrap :
    (g d idx : ℕ)
    → d < 2 ^ 64
    → idx * g < d
    → (u64 (idx * g) ≡ idx * g) × (min g (sub64 d (u64 (idx * g))) ≡ chunk_len g d idx)
no_wrap g d idx h p = omega arith

-- What the loop reports from chunk `idx` on: the bytes of the chunks that are newer than `since`.
abbrev newer : (g d since idx : ℕ) → List ℕ → ℕ → Bool
newer g d since idx es b = leb (idx * g) b && ltb b d && ltb since (get_or es (b / g - idx) 0)

newer-nil : (g d since idx b : ℕ) → newer g d since idx [] b ≡ false
newer-nil g d since idx b = ground arith

-- The three places of a byte: before chunk `idx`, in it, or after it.
data Place (g idx b : ℕ) : Type 0 where
  before : b < idx * g → Place g idx b
  inside : idx * g ≤ b → b < idx * g + g → b / g - idx ≡ 0 → Place g idx b
  after : idx * g + g ≤ b → b / g - idx ≡ suc (b / g - (idx + 1)) → Place g idx b

after-div : (g idx b : ℕ) → 0 < g → idx * g + g ≤ b → b / g - idx ≡ suc (b / g - (idx + 1))
after-div g idx b p h = let far : idx < b / g = grind (arith, div-bounds g b) in omega arith

place : (g idx b : ℕ) → 0 < g → Place g idx b
place g idx b p = elim (dec_lt b (idx * g)) [
  | yes low ↦ before low
  | no low ↦ elim (dec_lt b (idx * g + g)) [
    | yes high ↦ inside (omega arith) high (omega (arith, div-eq g idx b (omega arith) high))
    | no high ↦ after (omega arith) (after-div g idx b p (omega arith))
  ]
]

newer-cons :
    (g d since idx e : ℕ) (es : List ℕ) (b : ℕ)
    → idx * g < d
    → Place g idx b
    → newer g d since idx (e ∷ es) b ≡ (
        (not (leb e since) && within (idx * g) (chunk_len g d idx) b)
        || newer g d since (idx + 1) es b)
newer-cons g d since idx e es b q (before low) = ground arith
newer-cons g d since idx e es b q (inside low high at) = rw at (ground arith)
newer-cons g d since idx e es b q (after low at) = rw at (ground arith)

-- The state of the loop at chunk `idx`: the chunks left tile the rest of the device, and what has
-- been reported ends at or before the chunk.
record Ready (g d idx : ℕ) (es : List ℕ) (ranges : List DirtyRange) : Type 0 where
  pos : 0 < g
  small : d < 2 ^ 64
  room : (idx + length es) * g < d + g
  apart : Separated ranges (min (idx * g) d)

Ready-below :
    {g d idx e : ℕ} {es : List ℕ} {ranges : List DirtyRange}
    → Ready g d idx (e ∷ es) ranges
    → idx * g < d
Ready-below {g} {d} {idx} {e} {es} r =
    let more : idx * g + g ≤ (idx + length (e ∷ es)) * g = grind arith in omega (arith, r.room)

-- The ranges after the loop body for chunk `idx`.
abbrev body : (g d since idx e : ℕ) → List DirtyRange → List DirtyRange
body g d since idx e ranges =
    if leb e since then ranges else push_range ranges (idx * g) (chunk_len g d idx)

body-Ready :
    (since : ℕ) {g d idx e : ℕ} {es : List ℕ} {ranges : List DirtyRange}
    → Ready g d idx (e ∷ es) ranges
    → Ready g d (idx + 1) es (body g d since idx e ranges)
body-Ready since {g} {d} {idx} {e} {es} {ranges} r =
    let low : idx * g < d = Ready-below r in
    record {
      pos = r.pos;
      small = r.small;
      room = omega (arith, r.room);
      apart = elim (Bool-cases (leb e since)) [
        | inl old ↦ rw old (Separated-end ranges (omega (arith, r.pos)) r.apart)
        | inr new ↦ rw new (
            Separated-end (push_range ranges (idx * g) (chunk_len g d idx)) (omega (arith, r.pos)) (
              Separated-push_range ranges (idx * g) (chunk_len g d idx) (omega (arith, r.small))
                (omega (arith, r.pos)) (Separated-end ranges (omega arith) r.apart)))
      ];
    }

covers-body :
    (since : ℕ) {g d idx e : ℕ} {es : List ℕ} {ranges : List DirtyRange} (b : ℕ)
    → Ready g d idx (e ∷ es) ranges
    → covers (body g d since idx e ranges) b
      ≡ (covers ranges b || (not (leb e since) && within (idx * g) (chunk_len g d idx) b))
covers-body since {g} {d} {idx} {e} {es} {ranges} b r = elim (Bool-cases (leb e since)) [
  | inl old ↦ rw old (ground arith)
  | inr new ↦
      let low : idx * g < d = Ready-below r in
      rw new (
        covers-push_range ranges (idx * g) (chunk_len g d idx) b (omega (arith, r.small))
          (Separated-end ranges (omega arith) r.apart))
]

-- The code's body is the one without wrap-around.
ranges_loop-cons :
    (g d since idx e : ℕ) (es : List ℕ) (ranges : List DirtyRange)
    → d < 2 ^ 64
    → idx * g < d
    → ranges_loop g d since idx (e ∷ es) ranges
      ≡ ranges_loop g d since (idx + 1) es (body g d since idx e ranges)
unfolding ranges_loop
ranges_loop-cons g d since idx e es ranges small low =
    let (start, size) = no_wrap g d idx small low in rw (size, start)

covers-ranges_loop :
    (g d since idx : ℕ) (es : List ℕ) (ranges : List DirtyRange) (b : ℕ)
    → Ready g d idx es ranges
    → covers (ranges_loop g d since idx es ranges) b ≡ (covers ranges b || newer g d since idx es b)
covers-ranges_loop g d since idx [] ranges b r =
    unfold ranges_loop in rw (newer-nil g d since idx b) (ground arith)
covers-ranges_loop g d since idx (e ∷ es) ranges b r =
    let low : idx * g < d = Ready-below r in
    rw (ranges_loop-cons g d since idx e es ranges r.small low) (
      ground (
        arith,
        covers-ranges_loop g d since (idx + 1) es (body g d since idx e ranges) b
            (body-Ready since r),
        covers-body since b r,
        newer-cons g d since idx e es b low (place g idx b r.pos),
      ))

Separated-ranges_loop :
    (g d since idx : ℕ) (es : List ℕ) (ranges : List DirtyRange)
    → Ready g d idx es ranges
    → Separated (ranges_loop g d since idx es ranges) d
Separated-ranges_loop g d since idx [] ranges r =
    unfold ranges_loop in Separated-end ranges (omega arith) r.apart
Separated-ranges_loop g d since idx (e ∷ es) ranges r =
    rw (ranges_loop-cons g d since idx e es ranges r.small (Ready-below r)) (
      Separated-ranges_loop g d since (idx + 1) es (body g d since idx e ranges)
        (body-Ready since r))

Ready-start : {s : EraState} → IsValid s → Ready s.granularity s.dev_size 0 s.eras []
Ready-start v = record {
  pos = omega (arith, v.gran);
  small = v.small;
  room = omega (arith, v.tight);
  apart = tt;
}

-- On a valid tracker `ranges_since` is sound and complete: a byte lies in a reported range exactly
-- when it lies on the device and its chunk carries an era newer than `since`.
pub ranges_since_lem :
    (since : ℕ) {s : EraState} (b : ℕ)
    → IsValid s
    → covers (ranges_since since s) b
      ≡ (ltb b s.dev_size && ltb since (get_or s.eras (b / s.granularity) 0))
unfolding ranges_since covers
ranges_since_lem since {s} b v =
    ground (arith, covers-ranges_loop s.granularity s.dev_size since 0 s.eras [] b (Ready-start v))

-- On a valid tracker the ranges ascend, are not empty, do not touch each other, and end on the
-- device.
pub ranges_since-Separated :
    (since : ℕ) {s : EraState} → IsValid s → Separated (ranges_since since s) s.dev_size
unfolding ranges_since
ranges_since-Separated since {s} v =
    Separated-ranges_loop s.granularity s.dev_size since 0 s.eras [] (Ready-start v)
