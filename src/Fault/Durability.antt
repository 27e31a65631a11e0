-- ===== src/Fault/Durability.antt =====
-- What a power loss leaves of the disk in ublkfault/src/model.rs.
use ublkera.Base.{
  ◌∙◌, ◌-◌, ◌/◌, Bool, true, false, Option, none, length, if◌then◌else◌, ℕ, ◌+◌, ◌≡◌, refl, ap,
  some, List, [], ◌∷◌, get_or, u64, arith, inl, inr,
}
use ublkera.Fault.{Model, Entry, CrashMode, drop_all, CrashReport, write, flush}
use ublkera.Fault.View.{view, Misses, AllFit, shadow-missed, IsValid}
use ublkera.Fault.Contract.{write-Wrote}
use ublkera.Fault.Seeded.{survive, crash-survive}
use ublkera.Fault.Flushed.{flush-view}
use ublkera.Fault.Crash.{Survivors, crash_entry, crash_all, crash}

crash_all-drops :
    (lbs : ℕ) (entries : List Entry) (s : Survivors)
    → (t : Survivors) × (crash_all drop_all lbs entries s ≡ some t)
      × (t.disk ≡ s.disk)
      × (t.report.committed ≡ s.report.committed)
      × (t.report.torn ≡ s.report.torn)
unfolding crash_all crash_entry
crash_all-drops lbs [] s = (s, refl, refl, refl, refl)
crash_all-drops lbs (e ∷ entries) s =
    crash_all-drops lbs entries
      (record s { report = record s.report { dropped = u64 (s.report.dropped + 1) } })

-- A power loss that drops the cache does not panic, leaves the cache empty, and takes every byte
-- back to what the disk held below the cache; it reports no entry as kept or torn.
pub crash-drops :
    (m : Model)
    → (m' : Model) × (r : CrashReport) × (crash drop_all m ≡ some (m', r))
      × (m'.volatile ≡ [])
      × (m'.volatile_bytes ≡ 0)
      × ((b : ℕ) → view m' b ≡ get_or m.committed b 0)
      × (r.committed ≡ 0)
      × (r.torn ≡ 0)
unfolding crash
crash-drops m =
    let none_yet : CrashReport = record { committed = 0; dropped = 0; torn = 0 } in
    let (t, run, disk, kept, torn) =
      crash_all-drops m.lbs m.volatile
        (record { rng = m.rng; disk = m.committed; report = none_yet }) in
    (
      record m {
        rng = t.rng;
        committed = t.disk;
        volatile = [];
        volatile_bytes = 0;
        stats = record m.stats { crashes = u64 (m.stats.crashes + 1) };
      },
      t.report,
      rw (crash, run) refl,
      refl,
      refl,
      λ b. ap (λ d. get_or d b 0) disk,
      kept,
      torn,
    )

survive-missed :
    (kept : List (ℕ → Bool)) (lbs : ℕ) (entries : List Entry) (b base : ℕ)
    → Misses b entries
    → survive kept lbs entries b base ≡ base
survive-missed [] lbs entries b base h = refl
survive-missed (k ∷ kept) lbs [] b base h = refl
survive-missed (k ∷ kept) lbs ((off, payload) ∷ entries) b base h =
    ap (survive kept lbs entries b)
      (either (k ((b - off) / lbs)) (shadow-missed off payload b base h.0))
    ∙ survive-missed kept lbs entries b base h.1
  where
    either : (c : Bool) {x y : ℕ} → x ≡ y → (if c then x else y) ≡ y
    either true e = e
    either false e = refl

-- Writes one after the other, whatever they report.
unfoldable pub write_each : List Entry → Model → Option Model
unfolding write
write_each [] m = some m
write_each ((off, bytes) ∷ writes) m = elim (write off bytes m) [
  | none ↦ none
  | some (m', r) ↦ write_each writes m'
]

-- Writes elsewhere leave a byte that is durable as it is: on the disk, and in no cached write.
write_each-missed :
    (writes : List Entry) {m : Model}
    → IsValid m
    → AllFit (length m.committed) writes
    → (m' : Model) × (write_each writes m ≡ some m')
      × IsValid m'
      × ((b : ℕ)
          → Misses b m.volatile
          → Misses b writes
          → (get_or m'.committed b 0 ≡ get_or m.committed b 0) × Misses b m'.volatile)
unfolding write_each
write_each-missed [] {m} v fit = (m, refl, v, λ b h now. (refl, h))
write_each-missed ((off, bytes) ∷ writes) {m} v fit =
    let (m1, r, run, w) = write-Wrote off bytes v fit.0 in
    let (m2, rest, valid, kept) = write_each-missed writes w.valid (rw w.same_size fit.1) in
    (
      m2,
      rw (write_each, run) rest,
      valid,
      λ b before now.
          let (same, next) = w.missed b before (now.0, tt) in
          let (same', last) = kept b next now.1 in (same' ∙ same, last),
    )

-- What a flush has made durable survives a power loss, whatever is written elsewhere before it: on a
-- valid model with a flush that cannot lie, a flush, then any writes inside the device, with errors
-- injected or not, and then a crash of either mode do not panic, and every byte that none of those
-- writes covers is as readers saw it before the flush.
pub flush-crash :
    (mode : CrashMode) (writes : List Entry) {m : Model}
    → IsValid m
    → m.policy.flush_lie_pm ≡ 0
    → AllFit (length m.committed) writes
    → (m₁ : Model) × (m₂ : Model) × (m₃ : Model) × (r : CrashReport) × (flush m ≡ some m₁)
      × (write_each writes m₁ ≡ some m₂)
      × (crash mode m₂ ≡ some (m₃, r))
      × ((b : ℕ) → Misses b writes → view m₃ b ≡ view m b)
flush-crash mode writes {m} v honest fit =
    let (m₁, flushed, valid, same, ends, size, policy) = flush-view v in
    elim ends [
      | inr (lie, kept, disk) ↦ absurd (omega arith)
      | inl (empty, durable) ↦
          let (m₂, wrote, valid₂, kept) = write_each-missed writes valid (rw size fit) in
          let (m₃, r, tests, lost, valid₃, size₃, empty₃, bytes) = crash-survive mode valid₂ in
          (
            m₁,
            m₂,
            m₃,
            r,
            flushed,
            wrote,
            lost,
            λ b apart.
                let (disk, cache) = kept b (rw empty tt) apart in
                bytes b
                ∙ (survive-missed tests m₂.lbs m₂.volatile b (get_or m₂.committed b 0) cache
                    ∙ (disk ∙ durable b)),
          )
    ]
