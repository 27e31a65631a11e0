-- ===== src/Injector.antt =====
-- ublkfault/src/main.rs: the device layer over the disk model, which parks and thaws requests, and
-- its control requests. The rings and the sockets are outside.
pub mod Answers
pub mod Thawed
pub mod Start
pub mod Words
pub mod Control
pub mod Served
pub mod Disk
pub mod Serving
pub mod Kernel
pub mod Transfers
pub mod Pieces
pub mod Scenarios
pub mod Passes
pub mod Errors
pub mod Cli
pub mod Params
use ublkera.Base.{
  ◌||◌, not, ℕ, ◌+◌, ◌*◌, ◌%◌, ◌^◌, Bool, true, false, Option, some, none, List, [], ◌∷◌, ◌++◌,
  ◌==◌, leb, ltb, length, take, overwrite, if◌then◌else◌, u64, Result, ok, err, ensure, ◌>>=◌, ◌>>◌,
}
use ublkera.Fault
use ublkera.Era.{is_power_below}
use ublkera.Fault.{
  new, Model, Policy, Stats, CrashMode, drop_all, seeded, CrashReport, read, write, discard, flush,
}
use ublkera.Fault.Rng.{hit}
use ublkera.Fault.Crash.{crash}

pub data Op : Type 0 where
  read_op write_op flush_op discard_op write_zeroes_op other_op : Op

-- The request of a tag, with its buffer.
pub record Io : Type 0 where
  pub op : Op
  pub start_sector : ℕ
  pub nr_sectors : ℕ
  pub buf : List ℕ

abbrev pub off_of : Io → ℕ
off_of io = u64 (io.start_sector * 2 ^ 9)

abbrev pub len_of : Io → ℕ
len_of io = u64 (io.nr_sectors * 2 ^ 9)

-- A result, and what a completed request leaves in its buffer.
pub data Outcome : Type 0 where
  done : (bytes : ℕ) → (buf : List ℕ) → Outcome
  errno : ℕ → Outcome

abbrev pub eio : ℕ
eio = 5

abbrev pub einval : ℕ
einval = 22

abbrev pub after_read : (len : ℕ) → List ℕ → Option (Model × List ℕ) → Option (Model × Outcome)
after_read len buf none = none
after_read len buf (some (m, out)) = some (m, done len (overwrite 0 out buf))

abbrev pub after_write : List ℕ → Option (Model × Option ℕ) → Option (Model × Outcome)
after_write buf none = none
after_write buf (some (m, some n)) = some (m, done n buf)
after_write buf (some (m, none)) = some (m, errno eio)

abbrev pub after_other : List ℕ → Option Model → Option (Model × Outcome)
after_other buf none = none
after_other buf (some m) = some (m, done 0 buf)

-- The `match` of `perform`; `none` is a panic.
pub serve_op : Op → (off len : ℕ) → (buf : List ℕ) → Model → Option (Model × Outcome)
serve_op read_op off len buf m =
    if leb len (length buf) then after_read len buf (read off len m) else none
serve_op write_op off len buf m =
    if leb len (length buf) then after_write buf (write off (take len buf) m) else none
serve_op flush_op off len buf m = after_other buf (flush m)
serve_op discard_op off len buf m = after_other buf (discard off len m)
serve_op write_zeroes_op off len buf m = after_other buf (discard off len m)
serve_op other_op off len buf m = some (m, errno einval)

-- `perform`
pub perform : Io → Model → Option (Model × Outcome)
unfolding serve_op
perform io m = serve_op io.op (off_of io) (len_of io) io.buf m

-- `Shared`, with the replies so far; `thaw_result` is `none` to perform the parked requests, and
-- `event` tells that the eventfd is readable.
pub record Shared : Type 0 where
  pub model : Model
  pub parked : List ℕ
  pub thaw_result : Option ℕ
  pub event : Bool
  pub replies : List (ℕ × Outcome)

abbrev pub replied : ℕ → Shared → Option (Model × Outcome) → Option Shared
replied tag s none = none
replied tag s (some (m, r)) = some (record s { model = m; replies = s.replies ++ (tag, r) ∷ [] })

-- The handler of `queue_fn` for a new request.
pub on_request : (iods : ℕ → Io) → (tag : ℕ) → Shared → Option Shared
unfolding perform
on_request iods tag s =
    let m = s.model in
    let (rng, hang) = hit m.policy.hang_pm m.rng in
    if hang
    then some (record s {
      model = record m { rng = rng; stats = record m.stats { hangs = u64 (m.stats.hangs + 1) } };
      parked = s.parked ++ tag ∷ [];
    })
    else replied tag s (perform (iods tag) (record m { rng = rng }))

abbrev pub outcome : Option ℕ → Io → Model → Option (Model × Outcome)
outcome none io m = perform io m
outcome (some e) io m = some (m, errno e)

-- The loop over the parked tags.
pub thaw_each : (iods : ℕ → Io) → List ℕ → Shared → Option Shared
thaw_each iods [] s = some s
thaw_each iods (tag ∷ tags) s = elim (replied tag s (outcome s.thaw_result (iods tag) s.model)) [
  | none ↦ none
  | some s' ↦ thaw_each iods tags s'
]

-- The handler of `queue_fn` for the control event.
pub on_event : (iods : ℕ → Io) → Shared → Option Shared
unfolding thaw_each
on_event iods s = thaw_each iods s.parked (record s { parked = []; event = false })

-- The control requests; a number that is missing leaves its field alone.
pub data Command : Type 0 where
  show_status : Command
  set_policy : (error_pm flush_lie_pm hang_pm : Option ℕ) → Command
  crash_now : CrashMode → Command
  thaw : (result : Option ℕ) → Command

pub data Answer : Type 0 where
  status_is : Policy → Stats → (volatile_bytes parked : ℕ) → Answer
  policy_is : Policy → Answer
  crashed : CrashReport → Answer
  thawing : (parked : ℕ) → Answer
  too_large : Answer

-- One field of `set`: the value it gets, and whether the request goes on.
pub set_field : Option ℕ → ℕ → ℕ × Bool
set_field none old = (old, true)
set_field (some v) old = if ltb 1000 v then (old, false) else (v, true)

-- The loop of `set`; it stops at the first number that is too large, with the fields before it set.
pub set_fields : (error_pm flush_lie_pm hang_pm : Option ℕ) → Policy → Policy × Bool
unfolding set_field
set_fields e f h p =
    let (e', go) = set_field e p.error_pm in
    let p = record p { error_pm = e' } in
    if go
    then (let (f', go) = set_field f p.flush_lie_pm in
        let p = record p { flush_lie_pm = f' } in
        if go
        then (let (h', go) = set_field h p.hang_pm in (record p { hang_pm = h' }, go))
        else (p, false))
    else (p, false)

-- `handle_ctl`, for a line that parses; `none` is a panic of the disk model.
pub handle_ctl : Command → Shared → Option (Shared × Answer)
unfolding set_fields
handle_ctl show_status s =
    some (s, status_is s.model.policy s.model.stats s.model.volatile_bytes (length s.parked))
handle_ctl (set_policy e f h) s =
    let (p, good) = set_fields e f h s.model.policy in
    some
      (record s { model = record s.model { policy = p } }, if good then policy_is p else too_large)
handle_ctl (crash_now mode) s = elim (crash mode s.model) [
  | none ↦ none
  | some r ↦ some (record s { model = r.0 }, crashed r.1)
]
handle_ctl (thaw result) s =
    some (record s { thaw_result = result; event = true }, thawing (length s.parked))

-- The checks of `main` on `serve`, and the state that it starts with; `none` is a refusal, or for no
-- block size a panic.
unfoldable pub serve : (size lbs seed cache : ℕ) → Policy → Option Shared
serve size lbs seed cache policy =
    if size == 0 || lbs == 0 || ltb 0 (size % lbs) || not (is_power_below 32 lbs) || ltb lbs 512
    then none
    else some (record {
      model = new size lbs cache seed policy;
      parked = [];
      thaw_result = none;
      event = false;
      replies = [];
    })
