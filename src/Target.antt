-- ===== src/Target.antt =====
-- src/target.rs: the IO of one tag, from the command of the ublk driver to the reply. The ring
-- and the driver are outside; a completion carries their result.
pub mod Stamping
pub mod Setup
pub mod Advertises
use ublkera.Base.{
  ℕ, ◌+◌, ◌*◌, ◌%◌, ◌^◌, Bool, true, false, Option, some, none, List, [], ◌∷◌, ◌==◌, if◌then◌else◌,
  u32, u64,
}
use ublkera.Era.{EraState, mark_write}

-- The operations of the driver's commands; `other_op` is any that `make_sqe` does not name.
pub data Op : Type 0 where
  read_op write_op flush_op discard_op other_op : Op

-- The IO descriptor of a tag.
pub record Iod : Type 0 where
  pub op : Op
  pub start_sector : ℕ
  pub nr_sectors : ℕ

-- A result: a byte count or a negated error number.
pub data IoResult : Type 0 where
  bytes_done : ℕ → IoResult
  errno : ℕ → IoResult

abbrev pub eagain : ℕ
eagain = 11

abbrev pub einval : ℕ
einval = 22

-- The backing-store operations that are submitted.
pub data Sqe : Type 0 where
  fsync : Sqe
  read_at write_at punch_hole : (off len : ℕ) → Sqe

-- `make_sqe`
pub make_sqe : Op → (off len : ℕ) → Option Sqe
make_sqe flush_op off len = some fsync
make_sqe read_op off len = some (read_at off (u32 len))
make_sqe write_op off len = some (write_at off (u32 len))
make_sqe discard_op off len = some (punch_hole off len)
make_sqe other_op off len = none

abbrev pub offset_of : Iod → ℕ
offset_of iod = u64 (iod.start_sector * 2 ^ 9)

abbrev pub bytes_of : Iod → ℕ
bytes_of iod = u64 (iod.nr_sectors * 2 ^ 9)

-- What the queue hands over, in the order in which it does: a backing IO, or a reply to the driver
-- and with it the tracker as it is when the driver learns of the reply.
pub data Event : Type 0 where
  submitted : Sqe → Event
  replied : IoResult → (seen : EraState) → Event

-- The shared tracker and the events of a tag, the last one first.
pub record Queue : Type 0 where
  pub era : EraState
  pub events : List Event

-- `complete_io_cmd_unified`: the driver learns of the reply now.
abbrev pub complete : IoResult → Queue → Queue
complete res q = record q { events = replied res q.era ∷ q.events }

-- `ublk_submit_sqe_sync`
abbrev pub submit : Sqe → Queue → Queue
submit sqe q = record q { events = submitted sqe ∷ q.events }

-- The start of the backing IO, or the refusal of an operation that is not supported.
pub start : Iod → Queue → Queue
unfolding make_sqe
start iod q = elim (make_sqe iod.op (offset_of iod) (bytes_of iod)) [
  | some sqe ↦ submit sqe q
  | none ↦ complete (errno einval) q
]

unfoldable pub is_again : IoResult → Bool
is_again (bytes_done n) = false
is_again (errno e) = e == eagain

abbrev pub with_era : Queue → Option EraState → Option Queue
with_era q none = none
with_era q (some era) = some (record q { era = era })

-- The stamping of an operation that changes data; `races` is as in `mark_write`, and `none` its
-- panic.
pub stamped : (races : List ℕ) → Op → (off bytes : ℕ) → Queue → Option Queue
stamped races write_op off bytes q = with_era q (mark_write races off bytes q.era)
stamped races discard_op off bytes q = with_era q (mark_write races off bytes q.era)
stamped races read_op off bytes q = some q
stamped races flush_op off bytes q = some q
stamped races other_op off bytes q = some q

-- The backend phase, once the backing IO is over: the stamp, then the reply.
pub finish : (races : List ℕ) → Iod → IoResult → Queue → Option Queue
unfolding stamped
finish races iod res q = elim (stamped races iod.op (offset_of iod) (bytes_of iod) q) [
  | none ↦ none
  | some q' ↦ some (complete res q')
]

-- `handle_io_cmd`; `is_tgt_io` is the phase.
pub handle_io_cmd : (races : List ℕ) → Iod → (is_tgt_io : Bool) → IoResult → Queue → Option Queue
unfolding start is_again finish
handle_io_cmd races iod false res q = some (start iod q)
handle_io_cmd races iod true res q =
    if is_again res then some (start iod q) else finish races iod res q

-- Whether a backing IO is in flight.
unfoldable pub in_flight : List Event → Bool
in_flight (submitted sqe ∷ events) = true
in_flight (replied res era ∷ events) = false
in_flight [] = false

-- The turns of one command: after its start, one for each completion, until there is a reply.
pub turns : (races : List ℕ) → Iod → List IoResult → Queue → Option Queue
unfolding handle_io_cmd in_flight
turns races iod [] q = some q
turns races iod (res ∷ results) q = elim (in_flight q.events) [
  | false ↦ some q
  | true ↦ elim (handle_io_cmd races iod true res q) [
    | none ↦ none
    | some next ↦ turns races iod results next
  ]
]
