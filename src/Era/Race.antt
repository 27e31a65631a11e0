-- ===== src/Era/Race.antt =====
-- The interleavings of src/era.rs: any number of threads in `mark_write` and `checkpoint` on one
-- tracker, a shared access at a time. All accesses are read-modify-writes or loads of one word, and
-- a step is one of them.
pub mod Invariant
pub mod Safety
use ublkera.Base.{ℕ, ◌+◌, ◌^◌, ◌≤◌, ◌<◌, ◌≡◌, ◌≢◌, max, if◌then◌else◌, ◌==◌, u32}

-- The atomics of `EraState`: `current_era` and, by index, `eras`.
pub record Shared : Type 0 where
  pub current_era : ℕ
  pub eras : ℕ → ℕ

abbrev pub put {ℓ} : {A : Type ℓ} → (ℕ → A) → ℕ → A → ℕ → A
put f i a j = if i == j then a else f j

-- Where a thread stands, with its live locals. `stamping` is the `for` loop of a round that loaded
-- `era`, before chunk `next`; `returned` keeps the era that the last round saw twice, and `closed`
-- the era that `checkpoint` returns.
pub data Pc : Type 0 where
  idle : Pc
  loading : (first last : ℕ) → Pc
  stamping : (first last era next : ℕ) → Pc
  returned : (first last era : ℕ) → Pc
  closed : (old : ℕ) → Pc

-- One step of one thread. The counter of eras is taken not to run out.
pub data Move (m : Shared) : Pc → Shared → Pc → Type 0 where
  call : {first last : ℕ} → first ≤ last → Move m idle m (loading first last)
  load : {first last : ℕ} → Move m (loading first last) m (stamping first last m.current_era first)
  fetch_max :
      {first last era next : ℕ}
      → next ≤ last
      → Move m
          (stamping first last era next)
          (record m { eras = put m.eras next (max (m.eras next) era) })
          (stamping first last era (next + 1))
  unmoved :
      {first last era next : ℕ}
      → last < next
      → m.current_era ≡ era
      → Move m (stamping first last era next) m (returned first last era)
  moved :
      {first last era next : ℕ}
      → last < next
      → m.current_era ≢ era
      → Move m (stamping first last era next) m (loading first last)
  fetch_add :
      m.current_era + 1 < 2 ^ 32
      → Move m idle (record m { current_era = u32 (m.current_era + 1) }) (closed m.current_era)
  leave : {first last era : ℕ} → Move m (returned first last era) m idle
  done : {old : ℕ} → Move m (closed old) m idle

pub record System : Type 0 where
  pub mem : Shared
  pub pc : ℕ → Pc

pub data Step (s : System) : System → Type 0 where
  pick :
      (i : ℕ) {m : Shared} {p : Pc}
      → Move s.mem (s.pc i) m p
      → Step s (record { mem = m; pc = put s.pc i p })

-- A fresh tracker, with every thread idle.
abbrev pub init : System
init = record { mem = record { current_era = 1; eras = λ _. 0 }; pc = λ _. idle }

pub data Steps (s : System) : System → Type 0 where
  stay : Steps s s
  step : {t u : System} → Steps s t → Step t u → Steps s u
