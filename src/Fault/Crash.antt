-- ===== src/Fault/Crash.antt =====
-- `crash` of ublkfault/src/model.rs, and what survives it.
use ublkera.Base.{
  ℕ, zero, suc, ◌+◌, Option, some, List, [], ◌∷◌, length, take, drop, leb, ◌==◌, if◌then◌else◌, u64,
}
use ublkera.Fault.{Model, Entry, CrashMode, drop_all, seeded, CrashReport, apply, ◌>>=◌}
use ublkera.Fault.Rng.{below}

-- The loop over an entry's blocks in a seeded crash, with fuel for the bytes left.
unfoldable pub tear : (fuel lbs off : ℕ) → List ℕ → ℕ → List ℕ → Option (ℕ × List ℕ)
unfolding apply below
tear zero lbs off payload rng disk = some (rng, disk)
tear (suc fuel) lbs off [] rng disk = some (rng, disk)
tear (suc fuel) lbs off (b ∷ bs) rng disk =
    let (rng', coin) = below 2 rng in
    let block = take lbs (b ∷ bs) in
    let kept = if coin == 0 then apply disk off block else some disk in
    kept >>= λ disk'. tear fuel lbs (off + lbs) (drop lbs (b ∷ bs)) rng' disk'

-- What a crash has reached.
pub record Survivors : Type 0 where
  pub rng : ℕ
  pub disk : List ℕ
  pub report : CrashReport

-- One entry in a crash.
unfoldable pub crash_entry : CrashMode → (lbs : ℕ) → Entry → Survivors → Option Survivors
unfolding tear
crash_entry drop_all lbs e s =
    some (record s { report = record s.report { dropped = u64 (s.report.dropped + 1) } })
crash_entry seeded lbs (off, payload) s =
    let (rng, roll) = below 100 s.rng in
    if leb roll 39
    then (apply s.disk off payload >>= λ disk. some (record {
      rng = rng;
      disk = disk;
      report = record s.report { committed = u64 (s.report.committed + 1) };
    }))
    else if leb roll 69
    then some (record {
      rng = rng;
      disk = s.disk;
      report = record s.report { dropped = u64 (s.report.dropped + 1) };
    })
    else (tear (length payload) lbs off payload rng s.disk >>= λ r. some (record {
      rng = r.0;
      disk = r.1;
      report = record s.report { torn = u64 (s.report.torn + 1) };
    }))

unfoldable pub crash_all : CrashMode → ℕ → List Entry → Survivors → Option Survivors
unfolding crash_entry
crash_all mode lbs [] s = some s
crash_all mode lbs (e ∷ entries) s = crash_entry mode lbs e s >>= crash_all mode lbs entries

-- `crash`
unfoldable pub crash : CrashMode → Model → Option (Model × CrashReport)
unfolding crash_all
crash mode m =
    let none_yet : CrashReport = record { committed = 0; dropped = 0; torn = 0 } in
    crash_all mode m.lbs m.volatile (record { rng = m.rng; disk = m.committed; report = none_yet })
    >>= λ s. some (
      record m {
        rng = s.rng;
        committed = s.disk;
        volatile = [];
        volatile_bytes = 0;
        stats = record m.stats { crashes = u64 (m.stats.crashes + 1) };
      },
      s.report,
    )
