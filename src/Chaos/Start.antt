-- ===== src/Chaos/Start.antt =====
-- `setup` of src/bin/chaos.rs: what it picks when the command line leaves the sizes to it.
use ublkera.Base.{
  ℕ, zero, suc, ◌+◌, ◌*◌, ◌%◌, ◌^◌, ◌<◌, ◌≤◌, ◌≡◌, refl, true, List, [], ◌∷◌, get_or, ok, arith,
  eq→==,
}
use ublkera.Era.{is_power_below}
use ublkera.Meta.Save.{Disk}
use ublkera.Chaos.Rng.{below, below-lt}
use ublkera.Chaos.Run.{setup, pick_gran, pick_size, blank}
use ublkera.Chaos.Live.{Sized}

abbrev grains : List ℕ
grains = 4096 ∷ 16384 ∷ 65536 ∷ 262144 ∷ []

grains-fine :
    (i : ℕ) → i < 4 → (is_power_below 64 (get_or grains i 0) ≡ true) × (4096 ≤ get_or grains i 0)
unfolding is_power_below
grains-fine zero h = (refl, omega arith)
grains-fine (suc zero) h = (refl, omega arith)
grains-fine (suc (suc zero)) h = (refl, omega arith)
grains-fine (suc (suc (suc zero))) h = (refl, omega arith)
grains-fine (suc (suc (suc (suc i)))) h = absurd (omega arith)

-- When the command line gives neither size nor granularity, `setup` succeeds whatever the seed is,
-- with a blank harness whose size is a whole number of blocks and whose granularity is a power of
-- two of at least a block, which is what the daemon asks for.
pub setup-Sized :
    (backing meta : ℕ) (d : Disk) (rng : ℕ)
    → (size : ℕ) × (gran : ℕ) × (rng' : ℕ) × (setup
          (record { size = 0; granularity = 0 })
          backing
          meta
          d
          rng
        ≡ ok (blank backing meta size gran d, rng'))
      × Sized (record { backing = backing; meta = meta; size = size; gran = gran })
unfolding setup pick_gran pick_size
setup-Sized backing meta d rng =
    let i : ℕ = (below 4 rng).1 in
    let rng1 : ℕ = (below 4 rng).0 in
    let j : ℕ = (below 16 rng1).1 in
    let rng2 : ℕ = (below 16 rng1).0 in
    let (power, grain) = grains-fine i (below-lt 4 rng (omega arith)) in
    let less : j < 16 = below-lt 16 rng1 (omega arith) in
    let whole : (32 * 2 ^ 20 + 4096 * j) % 4096 ≡ 0 = omega arith in
    (
      32 * 2 ^ 20 + 4096 * j,
      get_or grains i 0,
      (below 3 rng2).0,
      rw (setup, pick_gran, pick_size, eq→== _ _ whole) refl,
      record {
        blocks = omega arith;
        whole = whole;
        small = omega (arith, less);
        power = power;
        grain = grain;
      },
    )
