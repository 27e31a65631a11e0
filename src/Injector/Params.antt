-- ===== src/Injector/Params.antt =====
-- What `serve` of ublkfault/src/main.rs tells the driver of its device.
use ublkera.Base.{
  ℕ, zero, suc, ◌+◌, ◌*◌, ◌/◌, ◌%◌, ◌^◌, ◌<◌, ◌≡◌, refl, ap, sym, ◌∙◌, true, false, ◌==◌, ltb, some,
  arith, Bool-cases, inl, inr, ==_iff, ltb→lt, not_ltb→le, ◌-◌, ◌≤◌,
}
use native.Mathlib.Nat.{pow-le-pow_right, div-add-mod}
use ublkera.Era.{is_power_below}
use ublkera.Fault.{Policy}
use ublkera.Target.Setup.{Params}
use ublkera.Injector.{Shared, serve}
use ublkera.Injector.Start.{serve-start_of}
use ublkera.Scenario.Disk.{Multiple}

-- `trailing_zeros`, of the lowest bits that the fuel counts.
unfoldable pub trailing_zeros : (fuel n : ℕ) → ℕ
trailing_zeros zero n = 0
trailing_zeros (suc fuel) n = elim (n % 2 == 1) [
  | true ↦ 0
  | false ↦ suc (trailing_zeros fuel (n / 2))
]

-- The parameters of `init` in `serve`.
unfoldable pub device_params : (size lbs max_io_buf_bytes : ℕ) → Params
unfolding trailing_zeros
device_params size lbs max_io_buf_bytes =
    let lbs_shift = trailing_zeros 32 lbs in
    record {
      with_discard = true;
      volatile_cache = true;
      logical_bs_shift = lbs_shift;
      physical_bs_shift = lbs_shift;
      io_opt_shift = 12;
      io_min_shift = lbs_shift;
      max_sectors = max_io_buf_bytes / 2 ^ 9;
      dev_sectors = size / 2 ^ 9;
      discard = record {
        discard_granularity = lbs;
        max_discard_sectors = 2 ^ 22;
        max_discard_segments = 1;
        max_write_zeroes_sectors = 2 ^ 22;
      };
    }

power-below : (n g : ℕ) → is_power_below n g ≡ true → (k : ℕ) × (k < n) × (g ≡ 2 ^ k)
unfolding is_power_below
power-below zero g h = cc
power-below (suc n) g h = elim (Bool-cases (g == 2 ^ n)) [
  | inl here ↦ (n, omega arith, (==_iff g (2 ^ n)).0 here)
  | inr there ↦
      let (k, below, is) = power-below n g (rw there at h) in (k, omega (arith, below), is)
]

even : (x : ℕ) → (2 * x % 2 == 1) ≡ false
even x = ground arith

trailing_zeros-pow : (k fuel : ℕ) → k < fuel → trailing_zeros fuel (2 ^ k) ≡ k
unfolding trailing_zeros
trailing_zeros-pow k zero h = absurd (omega (arith, h))
trailing_zeros-pow zero (suc fuel) h = refl
trailing_zeros-pow (suc k) (suc fuel) h =
    let odd : (2 ^ suc k % 2 == 1) ≡ false = ap (λ x. x % 2 == 1) twice ∙ even (2 ^ k) in
    let half : 2 ^ suc k / 2 ≡ 2 ^ k = omega (arith, twice) in
    rw (trailing_zeros, odd, half) (ap suc (trailing_zeros-pow k fuel (omega (arith, h))))
  where
    twice : 2 ^ suc k ≡ 2 * 2 ^ k
    twice = omega arith

nine : (j : ℕ) → 2 ^ (9 + j) ≡ 512 * 2 ^ j
nine zero = refl
nine (suc j) =
    let shifted : 9 + suc j ≡ suc (9 + j) = omega arith in
    let step : 2 ^ suc (9 + j) ≡ 2 * 2 ^ (9 + j) = omega arith in
    let last : 2 ^ suc j ≡ 2 * 2 ^ j = omega arith in
    ap (λ n. 2 ^ n) shifted ∙ omega (arith, step, last, nine j)

-- A power of two that is a sector or more is a number of sectors.
power-Multiple : (k : ℕ) → 512 ≤ 2 ^ k → Multiple 512 (2 ^ k)
power-Multiple k h = elim (Bool-cases (ltb k 9)) [
  | inl less ↦
      let small : 2 ^ k ≤ 2 ^ 8 =
        pow-le-pow_right {n = 2} (omega arith) {i = k} {j = 8} (omega (arith, ltb→lt k 9 less)) in
      absurd (omega (arith, small, h))
  | inr more ↦
      let split : 9 + (k - 9) ≡ k = omega (arith, not_ltb→le k 9 more) in
      (2 ^ (k - 9), ap (λ n. 2 ^ n) (sym split) ∙ nine (k - 9))
]

-- A block size that `serve` takes.
pub serve-Multiple :
    (size lbs seed cache : ℕ) (policy : Policy) {s : Shared}
    → serve size lbs seed cache policy ≡ some s
    → Multiple 512 lbs
serve-Multiple size lbs seed cache policy e =
    let (same, whole, block, power) = serve-start_of size lbs seed cache policy e in
    let (k, below, is) = power-below 32 lbs power in rw is (power-Multiple k (rw is at block))

-- The arguments that `serve` takes are what the driver is told: the block size is two to the shift
-- that is advertised, for both kinds of block and the least transfer, discards are of whole blocks,
-- and the sectors are the whole device.
pub serve-advertises :
    (size lbs seed cache max_io_buf_bytes : ℕ) (policy : Policy) {s : Shared}
    → serve size lbs seed cache policy ≡ some s
    → let p : Params = device_params size lbs max_io_buf_bytes in
      (2 ^ p.logical_bs_shift ≡ lbs)
      × (2 ^ p.physical_bs_shift ≡ lbs)
      × (2 ^ p.io_min_shift ≡ lbs)
      × (p.discard.discard_granularity ≡ lbs)
      × (p.dev_sectors * 512 ≡ size)
unfolding device_params
serve-advertises size lbs seed cache max_io_buf_bytes policy e =
    let (same, whole, block, power) = serve-start_of size lbs seed cache policy e in
    let (k, below, is) = power-below 32 lbs power in
    let shift : 2 ^ trailing_zeros 32 lbs ≡ lbs =
      ap (λ n. 2 ^ trailing_zeros 32 n) is
      ∙ (ap (λ n. 2 ^ n) (trailing_zeros-pow k 32 below) ∙ sym is) in
    let (j, sectors) = serve-Multiple size lbs seed cache policy e in
    let blocks : lbs * (size / lbs) ≡ size = omega (arith, div-add-mod size lbs, whole) in
    let assoc : 512 * j * (size / lbs) ≡ 512 * (j * (size / lbs)) = grind arith in
    let all : size ≡ 512 * (j * (size / lbs)) =
      sym blocks ∙ (ap (λ x. x * (size / lbs)) sectors ∙ assoc) in
    (shift, shift, shift, refl, omega (arith, all))
