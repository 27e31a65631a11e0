-- ===== src/Fault/Seeded.antt =====
-- What a power loss of either mode leaves of the cache of ublkfault/src/model.rs.
use ublkera.Base.{
  ℕ, zero, suc, ◌+◌, ◌-◌, ◌/◌, ◌≤◌, ◌<◌, ◌≡◌, refl, ap, sym, ◌∙◌, Bool, true, false, some, List, [],
  ◌∷◌, length, take, drop, get_or, overwrite, leb, ltb, ◌==◌, if◌then◌else◌, u64, arith, Bool-cases,
  inl, inr, div-eq, min, ltb→lt, not_ltb→le, length-drop,
}
use native.Mathlib.Nat.{div-eq-sub-div}
use ublkera.Fault.{Model, Entry, CrashMode, drop_all, seeded, CrashReport, apply}
use ublkera.Fault.Rng.{below}
use ublkera.Fault.Bytes.{
  shadow, apply-eq, length-overwrite, get_or-overwrite, get_or-take, get_or-drop,
}
use ublkera.Fault.View.{view, AllFit, IsValid}
use ublkera.Fault.Crash.{tear, Survivors, crash_entry, crash_all, crash}

-- A byte on the disk after the entries, oldest first, of which only those blocks persist that are
-- `kept`: one test for each entry, on the index of the block in it.
abbrev pub survive : List (ℕ → Bool) → (lbs : ℕ) → List Entry → (b base : ℕ) → ℕ
survive [] lbs entries b base = base
survive (k ∷ kept) lbs [] b base = base
survive (k ∷ kept) lbs ((off, payload) ∷ entries) b base =
    survive kept lbs entries b (if k ((b - off) / lbs) then shadow off payload b base else base)

abbrev first_block : Bool → (ℕ → Bool) → ℕ → Bool
first_block coin k zero = coin
first_block coin k (suc i) = k i

length-take : (n : ℕ) (xs : List ℕ) → length (take n xs) ≡ min n (length xs)
length-take zero xs = omega arith
length-take (suc n) [] = omega arith
length-take (suc n) (x ∷ xs) = omega (arith, length-take n xs)

-- A write and the bytes of its first block, and of the others.
module _ (lbs off : ℕ) (payload : List ℕ) (b base : ℕ) where
  take-inside : b < off + lbs → shadow off (take lbs payload) b base ≡ shadow off payload b base
  take-inside h = ground (arith, h, length-take lbs payload, get_or-take lbs (b - off) payload)

  take-past : off + lbs ≤ b → shadow off (take lbs payload) b base ≡ base
  take-past h = ground (arith, h, length-take lbs payload)

  drop-inside : b < off + lbs → shadow (off + lbs) (drop lbs payload) b base ≡ base
  drop-inside h = ground (arith, h)

  drop-past :
      off + lbs ≤ b → shadow (off + lbs) (drop lbs payload) b base ≡ shadow off payload b base
  drop-past h = grind (arith, h, length-drop lbs payload, get_or-drop lbs (b - (off + lbs)) payload)

-- Whether the block of the byte persists is what counts.
inside_agree :
    (lbs off : ℕ) (payload : List ℕ) (coin other : Bool) (b base : ℕ)
    → b < off + lbs
    → (if other
        then shadow
            (off + lbs)
            (drop lbs payload)
            b
            (if coin then shadow off (take lbs payload) b base else base)
        else (if coin then shadow off (take lbs payload) b base else base))
      ≡ (if coin then shadow off payload b base else base)
inside_agree lbs off payload true true b base h =
    drop-inside lbs off payload b (shadow off (take lbs payload) b base) h
    ∙ take-inside lbs off payload b base h
inside_agree lbs off payload true false b base h = take-inside lbs off payload b base h
inside_agree lbs off payload false true b base h = drop-inside lbs off payload b base h
inside_agree lbs off payload false false b base h = refl

past_agree :
    (lbs off : ℕ) (payload : List ℕ) (coin other : Bool) (b base : ℕ)
    → off + lbs ≤ b
    → (if other
        then shadow
            (off + lbs)
            (drop lbs payload)
            b
            (if coin then shadow off (take lbs payload) b base else base)
        else (if coin then shadow off (take lbs payload) b base else base))
      ≡ (if other then shadow off payload b base else base)
past_agree lbs off payload true true b base h =
    drop-past lbs off payload b (shadow off (take lbs payload) b base) h
    ∙ ap (shadow off payload b) (take-past lbs off payload b base h)
past_agree lbs off payload true false b base h = take-past lbs off payload b base h
past_agree lbs off payload false true b base h = drop-past lbs off payload b base h
past_agree lbs off payload false false b base h = refl

blocks_agree :
    (lbs off : ℕ) (payload : List ℕ) (coin : Bool) (k : ℕ → Bool) (b base : ℕ)
    → 0 < lbs
    → (if k ((b - (off + lbs)) / lbs)
        then shadow
            (off + lbs)
            (drop lbs payload)
            b
            (if coin then shadow off (take lbs payload) b base else base)
        else (if coin then shadow off (take lbs payload) b base else base))
      ≡ (if first_block coin k ((b - off) / lbs) then shadow off payload b base else base)
blocks_agree lbs off payload coin k b base pos = elim (Bool-cases (ltb b (off + lbs))) [
  | inl inside ↦
      let lt : b < off + lbs = ltb→lt b (off + lbs) inside in
      let first : (b - off) / lbs ≡ 0 =
        div-eq lbs 0 (b - off) (omega arith) (omega (arith, lt, pos)) in
      inside_agree lbs off payload coin (k ((b - (off + lbs)) / lbs)) b base lt
      ∙ sym (ap (λ i. if first_block coin k i then shadow off payload b base else base) first)
  | inr after ↦
      let past : off + lbs ≤ b = not_ltb→le b (off + lbs) after in
      let less : b - off - lbs ≡ b - (off + lbs) = omega arith in
      let next : (b - off) / lbs ≡ suc ((b - (off + lbs)) / lbs) =
        div-eq-sub-div pos (omega (arith, past)) ∙ (ap (λ x. x / lbs + 1) less ∙ omega arith) in
      past_agree lbs off payload coin (k ((b - (off + lbs)) / lbs)) b base past
      ∙ sym (ap (λ i. if first_block coin k i then shadow off payload b base else base) next)
]

apply-block :
    (coin : Bool) (disk : List ℕ) (off : ℕ) (block : List ℕ)
    → off + length block ≤ length disk
    → (disk' : List ℕ) × ((if coin then apply disk off block else some disk) ≡ some disk')
      × (length disk' ≡ length disk)
      × ((b : ℕ)
          → get_or disk' b 0
            ≡ (if coin then shadow off block b (get_or disk b 0) else get_or disk b 0))
apply-block true disk off block fits = (
  overwrite off block disk,
  apply-eq disk off block fits,
  length-overwrite off block disk fits,
  λ b. get_or-overwrite off block disk b fits,
)
apply-block false disk off block fits = (disk, refl, refl, λ b. refl)

-- What one entry leaves: a test of its blocks.
abbrev Persists : (lbs : ℕ) → Entry → (disk disk' : List ℕ) → (ℕ → Bool) → Type 0
Persists lbs (off, payload) disk disk' k =
    (b : ℕ)
    → get_or disk' b 0
      ≡ (if k ((b - off) / lbs) then shadow off payload b (get_or disk b 0) else get_or disk b 0)

Persists-first :
    (lbs off : ℕ) (payload disk disk1 disk' : List ℕ) (coin : Bool) (k : ℕ → Bool)
    → 0 < lbs
    → ((b : ℕ)
        → get_or disk1 b 0
          ≡ (if coin then shadow off (take lbs payload) b (get_or disk b 0) else get_or disk b 0))
    → Persists lbs (off + lbs, drop lbs payload) disk1 disk' k
    → Persists lbs (off, payload) disk disk' (first_block coin k)
Persists-first lbs off payload disk disk1 disk' coin k pos one rest b =
    rest b
    ∙ (ap
          (λ base.
            if k ((b - (off + lbs)) / lbs)
            then shadow (off + lbs) (drop lbs payload) b base
            else base)
          (one b)
        ∙ blocks_agree lbs off payload coin k b (get_or disk b 0) pos)

tear-Persists :
    (fuel lbs off : ℕ) (payload : List ℕ) (rng : ℕ) (disk : List ℕ)
    → 0 < lbs
    → length payload ≤ fuel
    → (0 < length payload → off + length payload ≤ length disk)
    → (rng' : ℕ) × (disk' : List ℕ) × (k : ℕ → Bool) × (tear fuel lbs off payload rng disk
        ≡ some (rng', disk'))
      × (length disk' ≡ length disk)
      × Persists lbs (off, payload) disk disk' k
unfolding tear
tear-Persists zero lbs off payload rng disk pos bound fits =
    (rng, disk, (λ i. false), refl, refl, λ b. refl)
tear-Persists (suc fuel) lbs off [] rng disk pos bound fits =
    (rng, disk, (λ i. false), refl, refl, λ b. refl)
tear-Persists (suc fuel) lbs off (x ∷ xs) rng disk pos bound fits =
    let payload : List ℕ = x ∷ xs in
    let coin : Bool = (below 2 rng).1 == 0 in
    let inside : off + length payload ≤ length disk = fits (omega arith) in
    let front = length-take lbs payload in
    let back = length-drop lbs payload in
    let (disk1, kept, size, bytes) =
      apply-block coin disk off (take lbs payload) (omega (arith, front, inside)) in
    let (rng', disk', k, rest, size', bytes') =
      tear-Persists fuel lbs (off + lbs) (drop lbs payload) (below 2 rng).0 disk1 pos
        (omega (arith, back, bound, pos)) (λ more. omega (arith, more, back, inside, size)) in
    (
      rng',
      disk',
      first_block coin k,
      rw (tear, kept) rest,
      size' ∙ size,
      Persists-first lbs off payload disk disk1 disk' coin k pos bytes bytes',
    )

entry-Persists :
    (mode : CrashMode) (lbs off : ℕ) (payload : List ℕ) (s : Survivors)
    → 0 < lbs
    → off + length payload ≤ length s.disk
    → (t : Survivors) × (k : ℕ → Bool) × (crash_entry mode lbs (off, payload) s ≡ some t)
      × (length t.disk ≡ length s.disk)
      × Persists lbs (off, payload) s.disk t.disk k
unfolding crash_entry
entry-Persists drop_all lbs off payload s pos fits = (
  record s { report = record s.report { dropped = u64 (s.report.dropped + 1) } },
  λ i. false,
  refl,
  refl,
  λ b. refl,
)
entry-Persists seeded lbs off payload s pos fits =
    let rng : ℕ = (below 100 s.rng).0 in
    elim (Bool-cases (leb (below 100 s.rng).1 39)) [
      | inl whole ↦ (
        record {
          rng = rng;
          disk = overwrite off payload s.disk;
          report = record s.report { committed = u64 (s.report.committed + 1) };
        },
        λ i. true,
        rw (crash_entry, whole, apply-eq s.disk off payload fits) refl,
        length-overwrite off payload s.disk fits,
        λ b. get_or-overwrite off payload s.disk b fits,
      )
      | inr not_whole ↦ elim (Bool-cases (leb (below 100 s.rng).1 69)) [
        | inl lost ↦ (
          record {
            rng = rng;
            disk = s.disk;
            report = record s.report { dropped = u64 (s.report.dropped + 1) };
          },
          λ i. false,
          rw (crash_entry, not_whole, lost) refl,
          refl,
          λ b. refl,
        )
        | inr part ↦
            let (rng', disk', k, run, size, bytes) =
              tear-Persists (length payload) lbs off payload rng s.disk pos (omega arith)
                (λ more. fits) in
            (
              record {
                rng = rng';
                disk = disk';
                report = record s.report { torn = u64 (s.report.torn + 1) };
              },
              k,
              rw (crash_entry, not_whole, part, run) refl,
              size,
              bytes,
            )
      ]
    ]

crash_all-survive :
    (mode : CrashMode) (lbs : ℕ) (entries : List Entry) (s : Survivors)
    → 0 < lbs
    → AllFit (length s.disk) entries
    → (t : Survivors) × (kept : List (ℕ → Bool)) × (crash_all mode lbs entries s ≡ some t)
      × (length t.disk ≡ length s.disk)
      × ((b : ℕ) → get_or t.disk b 0 ≡ survive kept lbs entries b (get_or s.disk b 0))
unfolding crash_all
crash_all-survive mode lbs [] s pos fit = (s, [], refl, refl, λ b. refl)
crash_all-survive mode lbs ((off, payload) ∷ entries) s pos fit =
    let (t1, k, run, size, bytes) = entry-Persists mode lbs off payload s pos fit.0 in
    let (t, kept, rest, size', bytes') =
      crash_all-survive mode lbs entries t1 pos (rw size fit.1) in
    (
      t,
      k ∷ kept,
      rw (crash_all, run) rest,
      size' ∙ size,
      λ b. bytes' b ∙ ap (survive kept lbs entries b) (bytes b),
    )

-- A power loss of either mode on a valid model does not panic, leaves a valid model of the same size
-- with an empty cache, and invents nothing: there is a test for each cached write, on the index of a
-- logical block in it, so that the disk is what was committed with just those blocks of the cached
-- writes that pass their tests put over it, oldest first.
pub crash-survive :
    (mode : CrashMode) {m : Model}
    → IsValid m
    → (m' : Model) × (r : CrashReport) × (kept : List (ℕ → Bool)) × (crash mode m ≡ some (m', r))
      × IsValid m'
      × (length m'.committed ≡ length m.committed)
      × (m'.volatile ≡ [])
      × ((b : ℕ) → view m' b ≡ survive kept m.lbs m.volatile b (get_or m.committed b 0))
unfolding crash
crash-survive mode {m} v =
    let none_yet : CrashReport = record { committed = 0; dropped = 0; torn = 0 } in
    let (t, kept, run, size, bytes) =
      crash_all-survive mode m.lbs m.volatile
        (record { rng = m.rng; disk = m.committed; report = none_yet }) v.block v.fit in
    (
      record m {
        rng = t.rng;
        committed = t.disk;
        volatile = [];
        volatile_bytes = 0;
        stats = record m.stats { crashes = u64 (m.stats.crashes + 1) };
      },
      t.report,
      kept,
      rw (crash, run) refl,
      record {
        block = v.block;
        size_fits = omega (arith, size, v.size_fits);
        cap_fits = v.cap_fits;
        fit = tt;
        counted = refl;
        capped = omega arith;
      },
      size,
      refl,
      bytes,
    )
