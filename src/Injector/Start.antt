-- ===== src/Injector/Start.antt =====
-- What `serve` of ublkfault/src/main.rs starts with.
use ublkera.Base.{
  ℕ, ◌%◌, ◌^◌, ◌<◌, ◌≤◌, true, ◌≡◌, refl, Bool, Bool-cases, inl, inr, sym, false, ◌||◌, not, ◌==◌,
  ltb, some, none, [], length, arith, length-replicate,
}
use ublkera.Era.{is_power_below}
use ublkera.Fault.{Policy, new}
use ublkera.Fault.View.{view, IsValid}
use ublkera.Fault.Bytes.{get_or-replicate}
use ublkera.Injector.{Shared, serve}

abbrev pub start_of : (size lbs seed cache : ℕ) → Policy → Shared
start_of size lbs seed cache policy = record {
  model = new size lbs cache seed policy;
  parked = [];
  thaw_result = none;
  event = false;
  replies = [];
}

new-IsValid :
    (size lbs seed cache : ℕ) (policy : Policy)
    → 0 < lbs
    → size < 2 ^ 63
    → cache < 2 ^ 63
    → IsValid (new size lbs cache seed policy)
unfolding new
new-IsValid size lbs seed cache policy block fits room = record {
  block = block;
  size_fits = omega (arith, length-replicate {0} {A = ℕ} size 0);
  cap_fits = room;
  fit = tt;
  counted = refl;
  capped = omega arith;
}

pub serve-start_of :
    (size lbs seed cache : ℕ) (policy : Policy) {s : Shared}
    → serve size lbs seed cache policy ≡ some s
    → (start_of size lbs seed cache policy ≡ s)
      × (size % lbs ≡ 0)
      × (512 ≤ lbs)
      × (is_power_below 32 lbs ≡ true)
unfolding serve
serve-start_of size lbs seed cache policy {s} e =
    let refused : Bool =
      size == 0 || lbs == 0 || ltb 0 (size % lbs) || not (is_power_below 32 lbs) || ltb lbs 512 in
    elim (Bool-cases refused) [
      | inl bad_args ↦ let bad = rw (serve, bad_args) at e in cc
      | inr good_args ↦
          let started : some (start_of size lbs seed cache policy) ≡ some s =
            rw (serve, good_args) at e in
          (cc, ground arith, ground arith, ground arith)
    ]

-- The arguments that `serve` takes, with a device and a cache below 2 ^ 63 bytes, give a valid
-- disk model of the size asked for, whose every byte reads as zero and with no request parked; the
-- block size divides the device.
pub serve-IsValid :
    (size lbs seed cache : ℕ) (policy : Policy) {s : Shared}
    → size < 2 ^ 63
    → cache < 2 ^ 63
    → serve size lbs seed cache policy ≡ some s
    → IsValid s.model
      × (length s.model.committed ≡ size)
      × (s.parked ≡ [])
      × (size % lbs ≡ 0)
      × ((b : ℕ) → view s.model b ≡ 0)
unfolding new
serve-IsValid size lbs seed cache policy fits room e =
    let (same, whole, block, power) = serve-start_of size lbs seed cache policy e in
    rw (sym same) (
      new-IsValid size lbs seed cache policy (omega (arith, block)) fits room,
      length-replicate {0} {A = ℕ} size 0,
      refl,
      whole,
      λ b. get_or-replicate size b,
    )

-- The policy is the one that was asked for.
pub serve-policy :
    (size lbs seed cache : ℕ) (policy : Policy) {s : Shared}
    → serve size lbs seed cache policy ≡ some s
    → s.model.policy ≡ policy
unfolding new
serve-policy size lbs seed cache policy e =
    let (same, whole, block, power) = serve-start_of size lbs seed cache policy e in
    rw (sym same) refl
