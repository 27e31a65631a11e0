-- ===== src/Target/Setup.antt =====
-- src/target.rs before the first IO: the size of a backing file or device, whether it takes discards,
-- and what the driver is told of the device. The answers of the system, and the integer logarithm of
-- the ilog crate, are parameters.
use ublkera.Base.{
  ℕ, zero, suc, ◌+◌, ◌/◌, ◌%◌, ◌^◌, Bool, true, false, not, Option, some, none, List, [], ◌∷◌, ltb,
  if◌then◌else◌, Result, ok, err, ◌>>=◌, context,
}
use ublkera.Scenario.Size.{parse_u64}
use ublkera.Scenario.Text.{trim}

pub data FileKind : Type 0 where
  regular block_device other_kind : FileKind

-- What the system answers of an open backing file: its metadata, the three ioctls of a block device,
-- whether its directory in sysfs resolves, and the file `write_zeroes_max_bytes` of its own queue and
-- of the queue one level above it. A `none` is an error.
pub record Backing : Type 0 where
  pub kind : Option FileKind
  pub len : ℕ
  pub blkgetsize64 : Option ℕ
  pub blksszget : Option ℕ
  pub blkpbszget : Option ℕ
  pub sysfs : Bool
  pub own_queue : Option (List ℕ)
  pub parent_queue : Option (List ℕ)

pub data SizeError : Type 0 where
  no_metadata ioctl_failed wrong_kind : SizeError

-- The log of an ioctl's answer, as a byte.
abbrev pub shift_of : (log2 : ℕ → ℕ) → ℕ → ℕ
shift_of log2 n = log2 n % 2 ^ 8

unfoldable pub size_of_kind : (log2 : ℕ → ℕ) → Backing → FileKind → Result SizeError (ℕ × ℕ × ℕ)
size_of_kind log2 f block_device = do
  cap ← context f.blkgetsize64 ioctl_failed
  ssz ← context f.blksszget ioctl_failed
  pbsz ← context f.blkpbszget ioctl_failed
  ok (cap, shift_of log2 ssz, shift_of log2 pbsz)
size_of_kind log2 f regular = ok (f.len, 9, 12)
size_of_kind log2 f other_kind = err wrong_kind

-- `backing_size`: bytes, and the shifts of the logical and the physical block.
unfoldable pub backing_size : (log2 : ℕ → ℕ) → Backing → Result SizeError (ℕ × ℕ × ℕ)
unfolding size_of_kind
backing_size log2 f = do kind ← context f.kind no_metadata; size_of_kind log2 f kind

-- What a limit that was read says.
abbrev pub above_zero : Option ℕ → Bool
above_zero none = false
above_zero (some v) = ltb 0 v

unfoldable pub allows : List ℕ → Bool
unfolding trim parse_u64
allows s = above_zero (parse_u64 (trim s))

-- The loop over the queue directories; the first file that opens decides.
unfoldable pub any_queue : List (Option (List ℕ)) → Bool
unfolding allows
any_queue [] = false
any_queue (none ∷ dirs) = any_queue dirs
any_queue (some s ∷ dirs) = allows s

-- `backing_supports_discard`
unfoldable pub backing_supports_discard : Backing → Bool
unfolding any_queue
backing_supports_discard f = elim f.kind [
  | none ↦ false
  | some regular ↦ true
  | some other_kind ↦ false
  | some block_device ↦ if f.sysfs then any_queue (f.own_queue ∷ f.parent_queue ∷ []) else false
]

-- `EraTgt`, with the descriptor of its file.
pub record EraTgt : Type 0 where
  pub back_fd : ℕ
  pub direct_io : Bool
  pub discard : Bool

-- The target that `supervise_device` makes for a backing.
unfoldable pub tgt_of : Backing → (fd : ℕ) → (buffered : Bool) → EraTgt
unfolding backing_supports_discard
tgt_of f fd buffered = record {
  back_fd = fd;
  direct_io = not buffered;
  discard = backing_supports_discard f;
}

-- `ublk_param_discard`
pub record DiscardParams : Type 0 where
  pub discard_granularity : ℕ
  pub max_discard_sectors : ℕ
  pub max_discard_segments : ℕ
  pub max_write_zeroes_sectors : ℕ

-- `ublk_params`, with the types as flags.
pub record Params : Type 0 where
  pub with_discard : Bool
  pub volatile_cache : Bool
  pub logical_bs_shift : ℕ
  pub physical_bs_shift : ℕ
  pub io_opt_shift : ℕ
  pub io_min_shift : ℕ
  pub max_sectors : ℕ
  pub dev_sectors : ℕ
  pub discard : DiscardParams

-- The part of `UblkDev` that `init_tgt` sets, and whether the backing file is opened for direct IO.
pub record UblkDev : Type 0 where
  pub fds : List ℕ
  pub nr_fds : ℕ
  pub max_io_buf_bytes : ℕ
  pub dev_size : ℕ
  pub params : Option Params
  pub o_direct : Bool

-- `fds[i] = fd`; `none` is a panic.
unfoldable pub set_at : ℕ → ℕ → List ℕ → Option (List ℕ)
set_at i fd [] = none
set_at zero fd (x ∷ xs) = some (fd ∷ xs)
set_at (suc i) fd (x ∷ xs) = elim (set_at i fd xs) [ none ↦ none | some ys ↦ some (x ∷ ys) ]

-- The discard part of the parameters; a shift of a u32 is taken modulo 32.
unfoldable pub discard_params : (discard : Bool) → (logical : ℕ) → DiscardParams
discard_params true logical = record {
  discard_granularity = 2 ^ (logical % 32);
  max_discard_sectors = 2 ^ 22;
  max_discard_segments = 1;
  max_write_zeroes_sectors = 0;
}
discard_params false logical = record {
  discard_granularity = 0;
  max_discard_sectors = 0;
  max_discard_segments = 0;
  max_write_zeroes_sectors = 0;
}

unfoldable pub params_of : EraTgt → (max_io_buf_bytes dev_size logical physical : ℕ) → Params
unfolding discard_params
params_of tgt max_io_buf_bytes dev_size logical physical = record {
  with_discard = tgt.discard;
  volatile_cache = true;
  logical_bs_shift = logical;
  physical_bs_shift = physical;
  io_opt_shift = 12;
  io_min_shift = 9;
  max_sectors = max_io_buf_bytes / 2 ^ 9;
  dev_sectors = dev_size / 2 ^ 9;
  discard = discard_params tgt.discard logical;
}

-- `init_tgt`; `none` is a panic.
unfoldable pub init_tgt : UblkDev → EraTgt → (dev_size logical physical : ℕ) → Option UblkDev
unfolding set_at params_of
init_tgt dev tgt dev_size logical physical = elim (set_at dev.nr_fds tgt.back_fd dev.fds) [
  | none ↦ none
  | some fds ↦ some (record dev {
    fds = fds;
    nr_fds = dev.nr_fds + 1;
    dev_size = dev_size;
    params = some (params_of tgt dev.max_io_buf_bytes dev_size logical physical);
    o_direct = if tgt.direct_io then true else dev.o_direct;
  })
]

-- `BACKING_FIXED_FD`: where `make_sqe` takes the backing file to be registered.
abbrev pub backing_fixed_fd : ℕ
backing_fixed_fd = 0 + 1
