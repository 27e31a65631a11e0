-- ===== src/Era/Mark.antt =====
-- `mark_write` of src/era.rs: what it stamps, and with which era, when checkpoints race with it.
use ublkera.Base.{
  ℕ, ◌+◌, ◌-◌, ◌*◌, ◌/◌, ◌^◌, ◌≤◌, ◌<◌, min, List, [], ◌∷◌, ◌≡◌, refl, length, get_or, leb, ◌==◌,
  ◌⊎◌, inl, inr, some, ◌∙◌, arith, div_mono, div-lt, div-bounds, Bool-cases, ==_iff, u64, sub64,
}
use ublkera.Era.{EraState, stamp, advance, mark_loop, mark_write}
use ublkera.Era.Stamp.{length-stamp, get_or-stamp}
use ublkera.Era.Valid.{IsValid, stamp-IsValid}

-- The number of checkpoints that race with the call.
abbrev pub total : List ℕ → ℕ
total [] = 0
total (k ∷ races) = k + total races

-- The era of the chunk that holds byte `b`.
abbrev pub era_at : EraState → ℕ → ℕ
era_at s b = get_or s.eras (b / s.granularity) 0

-- What the loop over the chunks `first..=last` has done to `s` when it stops in `t`.
record Stamped (s : EraState) (first last races : ℕ) (t : EraState) : Type 0 where
  valid : IsValid t
  granularity_same : t.granularity ≡ s.granularity
  size_same : t.dev_size ≡ s.dev_size
  gen_same : t.generation ≡ s.generation
  length_same : length t.eras ≡ length s.eras
  era_up : s.current_era ≤ t.current_era
  era_bound : t.current_era ≤ s.current_era + races
  inside : (j : ℕ) → first ≤ j → j ≤ last → j < length s.eras → get_or t.eras j 0 ≡ t.current_era
  outside :
      (j : ℕ) → (j < first) ⊎ (last < j) → j < length s.eras → get_or t.eras j 0 ≡ get_or s.eras j 0

-- A round that no checkpoint disturbs.
quiet_round :
    {s : EraState} (first last races now : ℕ)
    → now ≡ s.current_era
    → IsValid s
    → Stamped s first last races
        (record s { eras = stamp s.current_era first last 0 s.eras; current_era = now })
quiet_round {s} first last races now e v = record {
  valid = stamp-IsValid first last now (omega arith) (omega (arith, v.era_fits)) v;
  granularity_same = refl;
  size_same = refl;
  gen_same = refl;
  length_same = length-stamp s.current_era first last 0 s.eras;
  era_up = omega arith;
  era_bound = omega arith;
  inside = λ j p q h. ground (arith, get_or-stamp s.current_era first last 0 s.eras j, v.bounded j);
  outside = λ j p h. ground (arith, get_or-stamp s.current_era first last 0 s.eras j);
}

-- The state in which a round with `k` checkpoints leaves the tracker.
abbrev raced : EraState → (first last k : ℕ) → EraState
raced s first last k = record s {
  eras = stamp s.current_era first last 0 s.eras;
  current_era = advance k s.current_era;
}

-- A disturbed round, followed by the rest of the loop.
raced_round :
    {s t : EraState} (first last k rest : ℕ)
    → IsValid s
    → s.current_era + k + rest < 2 ^ 32
    → Stamped (raced s first last k) first last rest t
    → Stamped s first last (k + rest) t
unfolding advance
raced_round {s} {t} first last k rest v fits st = record {
  valid = st.valid;
  granularity_same = st.granularity_same;
  size_same = st.size_same;
  gen_same = st.gen_same;
  length_same = st.length_same ∙ length-stamp s.current_era first last 0 s.eras;
  era_up = omega (arith, st.era_up);
  era_bound = omega (arith, st.era_bound);
  inside =
      λ j p q h. st.inside j p q (omega (arith, length-stamp s.current_era first last 0 s.eras));
  outside = λ j p h. ground (
    arith,
    st.outside j,
    get_or-stamp s.current_era first last 0 s.eras j,
    length-stamp s.current_era first last 0 s.eras,
  );
}

mark_loop-Stamped :
    (races : List ℕ) (first last : ℕ) {s : EraState}
    → IsValid s
    → s.current_era + total races < 2 ^ 32
    → Stamped s first last (total races) (mark_loop races first last s)
unfolding mark_loop
mark_loop-Stamped [] first last {s} v fits = quiet_round first last 0 s.current_era refl v
mark_loop-Stamped (k ∷ races) first last {s} v fits =
    let now : ℕ = advance k s.current_era in
    let up : now ≡ s.current_era + k = unfold advance in omega arith in
    elim (Bool-cases (now == s.current_era)) [
      | inl same ↦
          rw same
            (quiet_round first last (k + total races) now ((==_iff now s.current_era).0 same) v)
      | inr moved ↦ rw moved (
          raced_round first last k (total races) v (omega arith) (
            mark_loop-Stamped races first last
              (stamp-IsValid first last now (omega arith) (omega arith) v) (omega arith)))
    ]

-- The chunks from `first` to `last` are those that the bytes of the write fall in.
abbrev last_chunk : EraState → (offset len : ℕ) → ℕ
last_chunk s offset len = min (sub64 (u64 (offset + len)) 1 / s.granularity) (length s.eras - 1)

mark_write-eq :
    (races : List ℕ) (offset len : ℕ) {s : EraState}
    → IsValid s
    → 0 < len
    → offset + len ≤ s.dev_size
    → mark_write races offset len s
      ≡ some (mark_loop races (offset / s.granularity) (last_chunk s offset len) s)
unfolding mark_write
mark_write-eq races offset len {s} v pos fits = ground (
  arith,
  div-lt s.granularity (length s.eras) offset,
  div_mono s.granularity offset (offset + len - 1),
)

-- Which chunks a chunk-wise window leaves alone, in bytes.
chunk_before : (g b offset : ℕ) → 0 < g → b / g * g + g ≤ offset → b / g < offset / g
chunk_before g b offset p h = grind (arith, div-bounds)

chunk_after : (g b end : ℕ) → 0 < g → 0 < end → end ≤ b / g * g → (end - 1) / g < b / g
chunk_after g b end p q h = grind (arith, div-bounds)

-- A byte of the request lies in one of the chunks that are stamped.
le-last_chunk :
    (offset len b : ℕ) {s : EraState}
    → IsValid s
    → offset + len ≤ s.dev_size
    → b < offset + len
    → (b / s.granularity ≤ last_chunk s offset len) × (b / s.granularity < length s.eras)
le-last_chunk offset len b {s} v fits q =
    let below : b / s.granularity ≤ (offset + len - 1) / s.granularity =
      div_mono s.granularity b (offset + len - 1) (omega arith) (omega arith) in
    let inside : b / s.granularity < length s.eras =
      div-lt s.granularity (length s.eras) b (omega arith) (omega arith) in
    let plain : sub64 (u64 (offset + len)) 1 ≡ offset + len - 1 = omega arith in
    (rw plain (omega arith), inside)

-- On a valid tracker, after `mark_write` of a request of at least one byte inside the device
-- returns, every byte of the request carries the era that is current at that moment, whichever
-- checkpoints raced with the call, as long as the counter does not run out; a chunk that the
-- request does not meet keeps its stamp, the call does not panic, and the invariant holds.
pub mark_write-stamps :
    (races : List ℕ) (offset len : ℕ) {s : EraState}
    → IsValid s
    → 0 < len
    → offset + len ≤ s.dev_size
    → s.current_era + total races < 2 ^ 32
    → (t : EraState) × (mark_write races offset len s ≡ some t)
      × IsValid t
      × (s.current_era ≤ t.current_era)
      × (t.granularity ≡ s.granularity)
      × (t.dev_size ≡ s.dev_size)
      × ((b : ℕ) → offset ≤ b → b < offset + len → era_at t b ≡ t.current_era)
      × ((b : ℕ)
          → b < s.dev_size
          → (b / s.granularity * s.granularity + s.granularity ≤ offset)
            ⊎ (offset + len ≤ b / s.granularity * s.granularity)
          → era_at t b ≡ era_at s b)
mark_write-stamps races offset len {s} v pos fits room = (
  mark_loop races first last s,
  mark_write-eq races offset len v pos fits,
  st.valid,
  st.era_up,
  st.granularity_same,
  st.size_same,
  λ b p q. rw st.granularity_same (
      let (low, high) = le-last_chunk offset len b v fits q in
      st.inside (b / g) (div_mono g offset b (omega arith) p) low high),
  λ b p q. rw st.granularity_same (
      st.outside (b / g)
        (ground (arith, chunk_before g b offset, chunk_after g b (offset + len), q))
        (div-lt g (length s.eras) b (omega arith) (omega arith))),
)
  where
    g : ℕ
    g = s.granularity

    first : ℕ
    first = offset / s.granularity

    last : ℕ
    last = last_chunk s offset len

    st : Stamped s first last (total races) (mark_loop races first last s)
    st = mark_loop-Stamped races first last v room

-- Any request that does not wrap a u64, an empty one and one past the device's end included, is
-- taken without a panic and keeps the invariant, as long as the era counter does not run out.
pub mark_write-IsValid :
    (races : List ℕ) (offset len : ℕ) {s : EraState}
    → IsValid s
    → offset + len < 2 ^ 64
    → s.current_era + total races < 2 ^ 32
    → (t : EraState) × (mark_write races offset len s ≡ some t) × IsValid t
unfolding mark_write
mark_write-IsValid races offset len {s} v fits room = elim (Bool-cases (len == 0)) [
  | inl empty ↦ (s, rw empty, v)
  | inr more ↦ elim (Bool-cases (leb (length s.eras) (offset / s.granularity))) [
    | inl past ↦ (s, rw (more, past), v)
    | inr within ↦ (
      mark_loop races (offset / s.granularity) (last_chunk s offset len) s,
      ground (arith, div_mono s.granularity offset (offset + len - 1)),
      (mark_loop-Stamped races (offset / s.granularity) (last_chunk s offset len) v room).valid,
    )
  ]
]
