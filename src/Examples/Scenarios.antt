-- ===== src/Examples/Scenarios.antt =====
-- Scenarios of ublkfault/src/scenario.rs on a plain disk.
use ublkera.Base.{
  ℕ, ◌+◌, ◌≡◌, refl, true, false, some, List, [], ◌∷◌, replicate, slice, overwrite, ok, arith,
  length-replicate,
}
use ublkera.Scenario.{Rig, write, expect, run_steps}
use ublkera.Scenario.Pattern.{fill_pattern}
use ublkera.Scenario.Disk.{Keeps}
use ublkera.Scenario.Expect.{run_steps-expect}
use ublkera.Scenario.Size.{parse_size, parse_u64, parse_from, digit, suffix, split_last}

-- A disk that is nothing but its bytes.
abbrev plain : Rig (List ℕ)
plain = record {
  write_all_at = λ off bytes s. (overwrite off bytes s, true);
  read_exact_at = λ off len s. (s, some (slice off (off + len) s));
  sync_all = λ s. (s, true);
  ctl = λ c s. (s, true);
  wait = λ ms s. s;
  sh = λ c s. (s, true);
}

abbrev disk_bytes : List ℕ → List ℕ
disk_bytes s = s

plain-Keeps : Keeps plain 1 (λ s. Unit) disk_bytes
plain-Keeps = record {
  written = λ off bytes s good start whole fits. (overwrite off bytes s, refl, refl, tt);
  reads = λ off len s good start whole fits. (s, refl, refl, tt);
  synced = λ s good. (s, refl, refl, tt);
}

abbrev name : List ℕ
name = 98 ∷ 97 ∷ 115 ∷ 101 ∷ []

run_steps-expect_example :
    (s : List ℕ) × (run_steps plain
        (write 4096 10000 name true false ∷ expect (4096 + 8192) 100 name ∷ [])
        (replicate 20480 0)
      ≡ ok s)
    × (s ≡ overwrite 4096 (fill_pattern name 4096 10000) (replicate 20480 0))
run_steps-expect_example =
    run_steps-expect plain 1 (λ s. Unit) disk_bytes plain-Keeps (4096, refl) 4096 10000 8192 100
      name true (replicate 20480 0) tt refl refl (10000, refl) (100, refl) (omega arith)
      (omega (arith, length-replicate {A = ℕ} 20480 0))

-- "4K", and a size past 2^64 that wraps to zero.
four_k : parse_size (52 ∷ 75 ∷ []) ≡ some 4096
unfolding parse_size parse_u64 parse_from digit suffix split_last
four_k = refl

wrapped :
    parse_size
      (49 ∷ 56 ∷ 48 ∷ 49 ∷ 52 ∷ 51 ∷ 57 ∷ 56 ∷ 53 ∷ 48 ∷ 57 ∷ 52 ∷ 56 ∷ 49 ∷ 57 ∷ 56 ∷ 52 ∷ 75 ∷ [])
    ≡ some 0
unfolding parse_size parse_u64 parse_from digit suffix split_last
wrapped = refl
