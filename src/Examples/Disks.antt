-- ===== src/Examples/Disks.antt =====
-- A small disk with a cached write, on ublkfault/src/model.rs.
use ublkera.Base.{
  replicate, ℕ, ◌+◌, ◌<◌, ◌≡◌, ◌⊎◌, Option, some, List, [], ◌∷◌, length, get_or, refl, arith,
}
use ublkera.Fault.{Model, read, write, flush}
use ublkera.Fault.View.{view, Misses, IsValid}
use ublkera.Fault.{CrashReport, seeded}
use ublkera.Fault.Crash.{crash}
use ublkera.Fault.Durability.{write_each, flush-crash}
use ublkera.Base.{Bool, List}
use ublkera.Fault.{seeded, CrashReport}
use ublkera.Fault.Crash.{crash}
use ublkera.Fault.Seeded.{survive, crash-survive}
use ublkera.Fault.Reads.{read-view}
use ublkera.Fault.Contract.{Wrote, write-Wrote}
use ublkera.Fault.Flushed.{flush-view}

abbrev pub disk : Model
disk = record {
  lbs = 2;
  cache_cap = 8;
  committed = 1 ∷ 2 ∷ 3 ∷ 4 ∷ 5 ∷ 6 ∷ [];
  volatile = (2, 7 ∷ 8 ∷ []) ∷ [];
  volatile_bytes = 2;
  rng = 42;
  policy = record { error_pm = 100; flush_lie_pm = 10; hang_pm = 0 };
  stats = record {
    reads = 0;
    writes = 1;
    flushes = 0;
    discards = 0;
    errors_injected = 0;
    flush_lies = 0;
    hangs = 0;
    crashes = 0;
    autonomous_writebacks = 0;
  };
}

pub disk-IsValid : IsValid disk
disk-IsValid = record {
  block = omega arith;
  size_fits = omega arith;
  cap_fits = omega arith;
  fit = (omega arith, tt);
  counted = refl;
  capped = omega arith;
}

read-view_example :
    (m' : Model) × (out : List ℕ) × (read 1 4 disk ≡ some (m', out))
    × (length out ≡ 4)
    × ((i : ℕ) → i < 4 → get_or out i 0 ≡ view disk (1 + i))
    × IsValid m'
    × ((b : ℕ) → view m' b ≡ view disk b)
    × (length m'.committed ≡ length disk.committed)
    × (m'.policy ≡ disk.policy)
    × (m' ≡ record disk { stats = record disk.stats { reads = 1 } })
read-view_example = read-view 1 4 disk-IsValid (omega arith)

flush-view_example :
    (m' : Model) × (flush disk ≡ some m')
    × IsValid m'
    × ((b : ℕ) → view m' b ≡ view disk b)
    × (((m'.volatile ≡ []) × ((b : ℕ) → get_or m'.committed b 0 ≡ view disk b))
        ⊎ ((0 < 10) × (m'.volatile ≡ disk.volatile) × (m'.committed ≡ disk.committed)))
    × (length m'.committed ≡ length disk.committed)
    × (m'.policy ≡ disk.policy)
flush-view_example = flush-view disk-IsValid

crash-survive_example :
    (m' : Model) × (r : CrashReport) × (kept : List (ℕ → Bool)) × (crash seeded disk ≡ some (m', r))
    × IsValid m'
    × (length m'.committed ≡ length disk.committed)
    × (m'.volatile ≡ [])
    × ((b : ℕ) → view m' b ≡ survive kept disk.lbs disk.volatile b (get_or disk.committed b 0))
crash-survive_example = crash-survive seeded disk-IsValid

write-Wrote_example :
    (m' : Model) × (r : Option ℕ) × (write 0 (9 ∷ 9 ∷ []) disk ≡ some (m', r))
    × Wrote disk 0 (9 ∷ 9 ∷ []) r m'
write-Wrote_example = write-Wrote 0 (9 ∷ 9 ∷ []) disk-IsValid (omega arith)

-- The same policy on two empty sectors.
abbrev pub large : Model
large = record disk { lbs = 512; committed = replicate 1024 0; volatile = []; volatile_bytes = 0 }

pub large-IsValid : IsValid large
large-IsValid = record {
  block = omega arith;
  size_fits = omega arith;
  cap_fits = omega arith;
  fit = tt;
  counted = refl;
  capped = omega arith;
}

-- The disk with a flush that tells the truth.
abbrev honest : Model
honest = record disk { policy = record disk.policy { flush_lie_pm = 0 } }

honest-IsValid : IsValid honest
honest-IsValid = record {
  block = omega arith;
  size_fits = omega arith;
  cap_fits = omega arith;
  fit = (omega arith, tt);
  counted = refl;
  capped = omega arith;
}

-- After the flush, "9 9" is written at 0.
flush-crash_example :
    (m₁ : Model) × (m₂ : Model) × (m₃ : Model) × (r : CrashReport) × (flush honest ≡ some m₁)
    × (write_each ((0, 9 ∷ 9 ∷ []) ∷ []) m₁ ≡ some m₂)
    × (crash seeded m₂ ≡ some (m₃, r))
    × ((b : ℕ) → Misses b ((0, 9 ∷ 9 ∷ []) ∷ []) → view m₃ b ≡ view honest b)
flush-crash_example =
    flush-crash seeded ((0, 9 ∷ 9 ∷ []) ∷ []) honest-IsValid refl (omega arith, tt)
