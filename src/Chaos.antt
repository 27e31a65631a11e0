-- ===== src/Chaos.antt =====
-- src/bin/chaos.rs: the harness, what it drives, and the steps that its operations are made of. The
-- counters, the journal and the waiting are left out.
pub mod Rng
pub mod Ops
pub mod Copy
pub mod Live
pub mod Sync
pub mod Backup
pub mod Writes
pub mod Restart
pub mod Crash
pub mod Loss
pub mod Flight
pub mod Run
pub mod Passes
pub mod Start
use ublkera.Base.{
  ℕ, zero, suc, ◌+◌, ◌-◌, ◌/◌, ◌^◌, min, Bool, true, false, Option, none, some, List, [], ◌∷◌,
  length, replicate, slice, overwrite, list_eq, leb, ltb, if◌then◌else◌, Result, ok, err, ◌>>=◌,
  ◌>>◌, ensure, context,
}
use ublkera.Era.{DirtyRange}
use ublkera.Manager.{DeviceManager, DeviceSpec, Refusal, Added}
use ublkera.Manager.Requests.{Closed}
use ublkera.Manager.Service.{Dumped, written}
use ublkera.Manager.Generation.{show_hex}
use ublkera.Ctl.{
  Request, add_device, del_device, Answer, added, removed, closed_one, dumped, Luck, perform,
}
use ublkera.Ctl.Session.{by_id, asks}
use Rng.{Write, draw}

-- `Harness`; `dev_id` also tells whether `dev` is open. The last three fields are what it drives:
-- whether the daemon runs, the daemon with the metadata files, and the bytes of the backing file.
pub record Harness : Type 0 where
  pub backing : ℕ
  pub meta : ℕ
  pub size : ℕ
  pub gran : ℕ
  pub dev_id : Option ℕ
  pub generation : List ℕ
  pub expected : List ℕ
  pub shadow : List ℕ
  pub cursor : Option (List ℕ × ℕ)
  pub alive : Bool
  pub daemon : DeviceManager
  pub image : List ℕ

-- What stops a run: an error of a call, or the message of an `ensure!` or of `diff`.
pub data Failure : Type 0 where
  refused : Refusal → Failure
  bad_size no_daemon not_attached bad_answer io_error buffer_panic queue_panic never_ends : Failure
  flagged_unclean not_flagged generation_changed generation_kept cursor_accepted differs : Failure

abbrev pub settle :
    Harness → DeviceManager × Result Refusal Answer → Harness × Result Failure Answer
settle h (s, ok a) = (record h { daemon = s }, ok a)
settle h (s, err e) = (record h { daemon = s }, err (refused e))

-- `ctl`
unfoldable pub ctl : Luck → Request → Harness → Harness × Result Failure Answer
ctl k r h = elim h.alive [ false ↦ (h, err no_daemon) | true ↦ settle h (perform k r h.daemon) ]

abbrev pub or_fail : Harness × Result Failure Answer → Result Failure (Harness × Answer)
or_fail (h, ok a) = ok (h, a)
or_fail (h, err e) = err e

-- `ctl(..)?`
unfoldable pub request : Luck → Request → Harness → Result Failure (Harness × Answer)
unfolding ctl
request k r h = or_fail (ctl k r h)

abbrev pub added_of : Answer → Option Added
added_of (added a) = some a
added_of a = none

abbrev pub closed_of : Answer → Option Closed
closed_of (closed_one c) = some c
closed_of a = none

abbrev pub dumped_of : Answer → Option Dumped
dumped_of (dumped d) = some d
dumped_of a = none

-- `start_daemon`: a registry with no device, on the files of the last one.
unfoldable pub start_daemon : Harness → Harness
start_daemon h = record h { alive = true; daemon = record h.daemon { devices = []; strays = [] } }

-- `kill_daemon`, with its wait for the block device to go.
unfoldable pub kill_daemon : Harness → Result Failure Harness
kill_daemon h = do ensure h.alive no_daemon; ok (record h { alive = false; dev_id = none })

-- `attach`
unfoldable pub attach : Luck → Harness → Result Failure (Harness × Added)
unfolding request
attach k h = do
  r ← request k (add_device (asks h.backing h.gran h.meta)) h
  a ← context (added_of r.1) bad_answer
  ok (record r.0 { dev_id = some a.dev_id; generation = show_hex a.generation }, a)

-- `detach`
unfoldable pub detach : Luck → Harness → Result Failure Harness
unfolding request
detach k h = do
  id ← context h.dev_id not_attached
  r ← request k (del_device (by_id id)) h
  ok (record r.0 { dev_id = none })

-- `write_all_at` on the device: the bytes reach the backing file, then the queue marks them.
unfoldable pub write_at : Write → Harness → Result Failure Harness
unfolding written
write_at w h = do
  id ← context h.dev_id not_attached
  ensure (leb (w.off + length w.bytes) (length h.image)) io_error
  s ← context (written [] id w.off (length w.bytes) h.daemon) queue_panic
  ok (record h { daemon = s; image = overwrite w.off w.bytes h.image })

-- `read_exact_at` on the device.
unfoldable pub read_at : (off len : ℕ) → Harness → Result Failure (List ℕ)
read_at off len h = do
  id ← context h.dev_id not_attached
  ensure (leb (off + len) (length h.image)) io_error
  ok (slice off (off + len) h.image)

-- The loops that read `len` bytes at `off` into a buffer, a piece of at most 1 MiB at a time; the
-- fuel counts the pieces.
unfoldable pub copy_loop : (fuel off len pos : ℕ) → Harness → List ℕ → Result Failure (List ℕ)
unfolding read_at
copy_loop zero off len pos h out = err never_ends
copy_loop (suc fuel) off len pos h out = elim (ltb pos len) [
  | false ↦ ok out
  | true ↦ do
    let n = min (len - pos) (2 ^ 20)
    piece ← read_at (off + pos) n h
    ensure (leb (off + pos + n) (length out)) buffer_panic
    copy_loop fuel off len (pos + n) h (overwrite (off + pos) piece out)
]

abbrev pub pieces : ℕ → ℕ
pieces len = suc (len / 2 ^ 20 + 1)

-- `read_device`
unfoldable pub read_device : Harness → Result Failure (List ℕ)
unfolding copy_loop
read_device h = copy_loop (pieces h.size) 0 h.size 0 h (replicate h.size 0)

-- The loop of the backup over the reported ranges.
unfoldable pub copy_ranges : List DirtyRange → Harness → Result Failure Harness
unfolding copy_loop
copy_ranges [] h = ok h
copy_ranges (r ∷ rs) h = do
  out ← copy_loop (pieces r.len) r.offset r.len 0 h h.shadow
  copy_ranges rs (record h { shadow = out })

-- `diff`
unfoldable pub diff : (actual model : List ℕ) → Result Failure (Unit {0})
diff actual model = ensure (list_eq actual model) differs

-- `verify`
unfoldable pub verify : Harness → Result Failure (Unit {0})
unfolding read_device diff
verify h = do actual ← read_device h; diff actual h.expected; diff actual h.shadow
