-- ===== src/Scenario/Disk.antt =====
-- What scenarios of ublkfault/src/scenario.rs may assume of the disk that they run against.
use ublkera.Base.{
  ℕ, ◌+◌, ◌-◌, ◌*◌, ◌/◌, ◌%◌, ◌≤◌, ◌≡◌, ap₂, sym, ◌∙◌, min, true, some, List, length, slice,
  overwrite, arith, Bool-cases, inl, inr, ltb, ltb→lt, not_ltb→le,
}
use native.Mathlib.Nat.{mul-sub}
use ublkera.Scenario.{Rig, crash_now}

-- `n` is a multiple of `unit`.
abbrev pub Multiple : (unit n : ℕ) → Type 0
Multiple unit n = (k : ℕ) × (n ≡ unit * k)

pub Multiple-add : (unit m n : ℕ) → Multiple unit m → Multiple unit n → Multiple unit (m + n)
Multiple-add unit m n (j, p) (k, q) = (j + k, grind (arith, p, q))

pub Multiple-scale : (unit k n : ℕ) → Multiple unit n → Multiple unit (k * n)
Multiple-scale unit k n (j, p) = (k * j, grind (arith, p))

pub Multiple-sub : (unit m n : ℕ) → Multiple unit m → Multiple unit n → Multiple unit (m - n)
Multiple-sub unit m n (j, p) (k, q) = (j - k, ap₂ (λ x y. x - y) p q ∙ sym (mul-sub unit j k))

pub Multiple-min : (unit m n : ℕ) → Multiple unit m → Multiple unit n → Multiple unit (min m n)
Multiple-min unit m n (j, p) (k, q) = elim (Bool-cases (ltb m n)) [
  | inl less ↦ (j, omega (arith, p, ltb→lt m n less))
  | inr more ↦ (k, omega (arith, q, not_ltb→le m n more))
]

pub Multiple-eq : (unit m n : ℕ) → m ≡ n → Multiple unit m → Multiple unit n
Multiple-eq unit m n e (k, p) = (k, sym e ∙ p)

-- A multiple of 4096, where the unit divides 4096.
pub aligned-Multiple : (unit n : ℕ) → Multiple unit 4096 → n % 4096 ≡ 0 → Multiple unit n
aligned-Multiple unit n grain h =
    Multiple-eq unit (n / 4096 * 4096) n (omega (arith, h))
      (Multiple-scale unit (n / 4096) 4096 grain)

-- A disk that keeps what is written: in a good state `view` are its bytes, writes of whole units
-- inside of it overwrite them, reads and syncs succeed and leave them, and the state stays good.
pub record Keeps {S : Type 0} (rig : Rig S) (unit : ℕ) (Good : S → Type 0) (view : S → List ℕ)
    : Type 0 where
  pub written :
      (off : ℕ) (bytes : List ℕ) (s : S)
      → Good s
      → Multiple unit off
      → Multiple unit (length bytes)
      → off + length bytes ≤ length (view s)
      → (s' : S) × (rig.write_all_at off bytes s ≡ (s', true))
        × (view s' ≡ overwrite off bytes (view s))
        × Good s'
  pub reads :
      (off len : ℕ) (s : S)
      → Good s
      → Multiple unit off
      → Multiple unit len
      → off + len ≤ length (view s)
      → (s' : S) × (rig.read_exact_at off len s ≡ (s', some (slice off (off + len) (view s))))
        × (view s' ≡ view s)
        × Good s'
  pub synced :
      (s : S) → Good s → (s' : S) × (rig.sync_all s ≡ (s', true)) × (view s' ≡ view s) × Good s'

-- A disk on which a sync makes durable what was written: it settles the state, and a settled state
-- goes through a power loss as it is, in each of the modes that the disk knows.
pub record Survives {S : Type 0} (rig : Rig S) (Mode : List ℕ → Type 0) (Good Settled : S → Type 0)
    (view : S → List ℕ) : Type 0 where
  pub settles :
      (s : S)
      → Good s
      → (s' : S) × (rig.sync_all s ≡ (s', true)) × (view s' ≡ view s) × Good s' × Settled s'
  pub survives :
      (mode : List ℕ) (s : S)
      → Mode mode
      → Good s
      → Settled s
      → (s' : S) × (rig.ctl (crash_now mode) s ≡ (s', true)) × (view s' ≡ view s) × Good s'
