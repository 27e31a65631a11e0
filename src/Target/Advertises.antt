-- ===== src/Target/Advertises.antt =====
-- What `init_tgt` of src/target.rs tells the driver.
use mathlib.Core.Bool.{false≢true}
use ublkera.Base.{
  ℕ, zero, suc, ◌+◌, ◌*◌, ◌%◌, ◌^◌, ◌<◌, ◌≡◌, refl, ap, ◌∙◌, Bool, true, false, not, some, List, [],
  ◌∷◌, none, length, get_or, sym, ltb→lt, Bool-cases, Option-cases, inl, inr, if◌then◌else◌, arith,
}
use ublkera.Scenario.Size.{parse_u64}
use ublkera.Scenario.Text.{trim}
use ublkera.Target.Setup.{
  Backing, regular, other_kind, block_device, above_zero, allows, any_queue,
  backing_supports_discard, tgt_of, Params, UblkDev, set_at, discard_params, params_of, init_tgt,
  backing_fixed_fd,
}

set_at-reads :
    (i fd : ℕ) (xs : List ℕ)
    → i < length xs
    → (ys : List ℕ) × (set_at i fd xs ≡ some ys)
      × (get_or ys i 0 ≡ fd)
      × ((j : ℕ) → j < i → get_or ys j 0 ≡ get_or xs j 0)
unfolding set_at
set_at-reads i fd [] h = absurd (omega (arith, h))
set_at-reads zero fd (x ∷ xs) h = (fd ∷ xs, refl, refl, λ j lt. absurd (omega (arith, lt)))
set_at-reads (suc i) fd (x ∷ xs) h =
    let (ys, run, here, before) = set_at-reads i fd xs (omega (arith, h)) in
    (x ∷ ys, rw (set_at, run) refl, here, kept ys before)
  where
    kept :
        (ys : List ℕ)
        → ((j : ℕ) → j < i → get_or ys j 0 ≡ get_or xs j 0)
        → (j : ℕ) → j < suc i
        → get_or (x ∷ ys) j 0 ≡ get_or (x ∷ xs) j 0
    kept ys before zero lt = refl
    kept ys before (suc j) lt = before j (omega (arith, lt))

-- A limit in sysfs that is a number above zero, with space around it.
abbrev pub Positive : List ℕ → Type 0
Positive limit = (n : ℕ) × (parse_u64 (trim limit) ≡ some n) × (0 < n)

-- The backings that take discards: a regular file, whose blocks can be punched out, and a block
-- device whose own queue in sysfs, or, where it has none (a partition), the queue of the disk, has
-- a positive limit on the zeros that it writes.
pub data TakesDiscards (f : Backing) : Type 0 where
  by_file : f.kind ≡ some regular → TakesDiscards f
  by_own :
      {limit : List ℕ}
      → f.kind ≡ some block_device
      → f.sysfs ≡ true
      → f.own_queue ≡ some limit
      → Positive limit
      → TakesDiscards f
  by_parent :
      {limit : List ℕ}
      → f.kind ≡ some block_device
      → f.sysfs ≡ true
      → f.own_queue ≡ none
      → f.parent_queue ≡ some limit
      → Positive limit
      → TakesDiscards f

Positive-allows : (limit : List ℕ) → Positive limit → allows limit ≡ true
unfolding allows
Positive-allows limit (n, read, above) = rw (allows, read) (ground arith)

allows-Positive : (limit : List ℕ) → allows limit ≡ true → Positive limit
unfolding allows
allows-Positive limit h = elim (Option-cases (parse_u64 (trim limit))) [
  | inl unread ↦ absurd (false≢true (sym (ap above_zero unread) ∙ h))
  | inr (n, read) ↦ (n, read, ltb→lt 0 n (sym (ap above_zero read) ∙ h))
]

TakesDiscards-supported : {f : Backing} → TakesDiscards f → backing_supports_discard f ≡ true
unfolding backing_supports_discard any_queue
TakesDiscards-supported (by_file k) = rw (backing_supports_discard, k) refl
TakesDiscards-supported (by_own {limit} k up own pos) =
    rw (backing_supports_discard, k, up, own) (Positive-allows limit pos)
TakesDiscards-supported (by_parent {limit} k up own parent pos) =
    rw (backing_supports_discard, k, up, own, parent) (Positive-allows limit pos)

supported-TakesDiscards : (f : Backing) → backing_supports_discard f ≡ true → TakesDiscards f
unfolding backing_supports_discard any_queue
supported-TakesDiscards f h = elim (Option-cases f.kind) [
  | inl unknown ↦ absurd (false≢true (rw (backing_supports_discard, unknown) at h))
  | inr (regular, k) ↦ by_file k
  | inr (other_kind, k) ↦ absurd (false≢true (rw (backing_supports_discard, k) at h))
  | inr (block_device, k) ↦ elim (Bool-cases f.sysfs) [
    | inr down ↦ absurd (false≢true (rw (backing_supports_discard, k, down) at h))
    | inl up ↦ elim (Option-cases f.own_queue) [
      | inr (limit, own) ↦
          by_own k up own (allows-Positive limit (rw (backing_supports_discard, k, up, own) at h))
      | inl own ↦ elim (Option-cases f.parent_queue) [
        | inr (limit, parent) ↦
            by_parent k up own parent
              (allows-Positive limit (rw (backing_supports_discard, k, up, own, parent) at h))
        | inl parent ↦ absurd (false≢true (rw (backing_supports_discard, k, up, own, parent) at h))
      ]
    ]
  ]
]

-- What a device is told of its backing: where `make_sqe` finds it, its size, the block sizes as
-- powers of two, and discards of whole logical blocks just when the backing takes them.
pub record Advertises (f : Backing) (fd size logical cdev : ℕ) (dev : UblkDev) : Type 0 where
  pub at_fixed_fd : get_or dev.fds backing_fixed_fd 0 ≡ fd
  pub keeps_cdev : get_or dev.fds 0 0 ≡ cdev
  pub params : Params
  pub sets_params : dev.params ≡ some params
  pub all_sectors : params.dev_sectors * 512 ≡ size
  pub same_size : dev.dev_size ≡ size
  pub logical_is : params.logical_bs_shift ≡ logical
  pub discards : TakesDiscards f → params.with_discard ≡ true
  pub only_then : params.with_discard ≡ true → TakesDiscards f
  pub granularity :
      params.discard.discard_granularity ≡ (if params.with_discard then 2 ^ logical else 0)

granularity-of :
    (b : Bool) (logical : ℕ)
    → logical < 32
    → (discard_params b logical).discard_granularity ≡ (if b then 2 ^ logical else 0)
unfolding discard_params
granularity-of true logical h = ap (λ n. 2 ^ n) (omega (arith, h))
granularity-of false logical h = refl

-- A device with its control file registered first, set up by its supervisor for a backing whose
-- size is a multiple of 512 (which `add` checks) and whose block shift is below 32: `init_tgt` does
-- not panic; the backing file is registered where `make_sqe` takes it, the control file stays where
-- it was, the sectors are the whole size, and discards are advertised, of whole logical blocks, just
-- when the backing is a regular file, or a block device with a positive limit on written zeros in its
-- own queue in sysfs, or in the disk's where it has no queue of its own.
pub init_tgt-Advertises :
    (f : Backing) (fd size logical physical : ℕ) (buffered : Bool) (dev : UblkDev)
    → size % 512 ≡ 0
    → logical < 32
    → dev.nr_fds ≡ 1
    → 1 < length dev.fds
    → (dev' : UblkDev) × (init_tgt dev (tgt_of f fd buffered) size logical physical ≡ some dev')
      × Advertises f fd size logical (get_or dev.fds 0 0) dev'
unfolding init_tgt params_of tgt_of
init_tgt-Advertises f fd size logical physical buffered dev whole small next room =
    let (fds, run, here, before) = set_at-reads 1 fd dev.fds room in
    let registered : set_at dev.nr_fds fd dev.fds ≡ some fds =
      ap (λ i. set_at i fd dev.fds) next ∙ run in
    (
      record dev {
        fds = fds;
        nr_fds = dev.nr_fds + 1;
        dev_size = size;
        params = some (params_of (tgt_of f fd buffered) dev.max_io_buf_bytes size logical physical);
        o_direct = if not buffered then true else dev.o_direct;
      },
      rw (init_tgt, registered) refl,
      record {
        at_fixed_fd = here;
        keeps_cdev = before 0 (omega arith);
        params = params_of (tgt_of f fd buffered) dev.max_io_buf_bytes size logical physical;
        sets_params = refl;
        all_sectors = omega (arith, whole);
        same_size = refl;
        logical_is = refl;
        discards = TakesDiscards-supported;
        only_then = supported-TakesDiscards f;
        granularity = granularity-of (backing_supports_discard f) logical small;
      },
    )
