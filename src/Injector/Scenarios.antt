-- ===== src/Injector/Scenarios.antt =====
-- Scenarios of ublkfault/src/scenario.rs that run against a device of ublkfault/src/main.rs: the
-- disk that they may assume, and durability from end to end.
use ublkera.Base.{
  ℕ, ◌+◌, ◌*◌, ◌/◌, ◌≡◌, ◌⊎◌, inl, inr, refl, ap, ap₂, sym, ◌∙◌, Bool, true, false, Option, some,
  none, List, [], ◌∷◌, length, slice, overwrite, ok, arith, u64,
}
use ublkera.Fault.{Model, CrashMode, drop_all, seeded, CrashReport}
use ublkera.Fault.Crash.{crash, crash_all}
use ublkera.Scenario.{Control, crash_now, set_fields, thaw_with, Rig}
use ublkera.Scenario.Disk.{Keeps, Survives, Multiple}
use ublkera.Injector
use ublkera.Fault.{overlay_all}
use ublkera.Injector.{Command, Shared, crashed, handle_ctl}
use ublkera.Injector.Words.{
  cmd_word, set_word, crash_word, thaw_word, mode_word, drop_word, seeded_word, result_word,
}
use ublkera.Injector.Control.{
  Object, Response, text, number, put, handle_line, is_ok, read_command, read_cmd, read_mode, field,
  perform_command,
}
use ublkera.Injector.Disk.{contents, length-contents, Calm, Leaves}
use ublkera.Injector.Kernel.{Kernel, IsKernel, total}
use ublkera.Injector.Transfers.{issue-flush}
use ublkera.Injector.Pieces.{write_pieces-Leaves, read_pieces-Leaves}

-- The members of a set request, one pair after the other.
unfoldable pub put_pairs : List (List ℕ × ℕ) → Object → Object
unfolding put
put_pairs [] o = o
put_pairs ((k, n) ∷ pairs) o = put_pairs pairs (put k (number n) o)

-- The request that `exec` sends for a step.
unfoldable pub control_object : Control → Object
unfolding put_pairs
control_object (crash_now mode) = (cmd_word, text crash_word) ∷ (mode_word, text mode) ∷ []
control_object (set_fields pairs) = put_pairs pairs ((cmd_word, text set_word) ∷ [])
control_object (thaw_with result) = (cmd_word, text thaw_word) ∷ (result_word, text result) ∷ []

abbrev pub checked : Shared → Option (Shared × Response) → Shared × Bool
checked s none = (s, false)
checked s (some (s', r)) = (s', is_ok r)

-- `ctl` with the server behind the socket; a panic of the server leaves no response.
unfoldable pub ctl : Control → Shared → Shared × Bool
unfolding control_object handle_line is_ok
ctl c s = checked s (handle_line (some (control_object c)) s)

-- What the steps act on when they run against the device itself.
abbrev pub fault_rig : Kernel → Rig Shared
fault_rig k = record {
  write_all_at = k.write_all_at;
  read_exact_at = k.read_exact_at;
  sync_all = k.sync_all;
  ctl = ctl;
  wait = k.wait;
  sh = k.sh;
}

abbrev pub device_bytes : Shared → List ℕ
device_bytes s = contents s.model

abbrev pub IsCalm : Shared → Type 0
IsCalm s = Calm s.model

abbrev pub Settled : Shared → Type 0
Settled s = s.model.volatile ≡ []

-- The modes of a crash.
abbrev pub Mode : List ℕ → Type 0
Mode mode = (mode ≡ drop_word) ⊎ (mode ≡ seeded_word)

pub in_sectors : (lbs n : ℕ) → Multiple 512 lbs → Multiple lbs n → n / 512 * 512 ≡ n
in_sectors lbs n (j, p) (k, q) =
    let assoc : 512 * j * k ≡ 512 * (j * k) = grind arith in
    let whole : n ≡ 512 * (j * k) = q ∙ (ap (λ x. x * k) p ∙ assoc) in omega (arith, whole)

fault_rig-synced :
    (lbs : ℕ) (k : Kernel) (s : Shared)
    → IsKernel lbs k
    → Calm s.model
    → (s' : Shared) × (k.sync_all s ≡ (s', true))
      × (device_bytes s' ≡ device_bytes s)
      × IsCalm s'
      × Settled s'
fault_rig-synced lbs k s is c =
    let (s', issued, leaves, empty) = issue-flush s c in
    (s', is.syncs s s' [] issued, leaves.shows, leaves.calm, empty)

-- A device of ublkfault that injects no fault keeps what is written in whole logical blocks, on
-- every kernel that cuts transfers into requests as documented.
pub fault_rig-Keeps :
    (lbs : ℕ) (k : Kernel)
    → Multiple 512 lbs
    → IsKernel lbs k
    → Keeps (fault_rig k) lbs IsCalm device_bytes
fault_rig-Keeps lbs k sectors is = record {
  written = λ off bytes s c at_block whole fits.
      (let len = length-contents s.model c.valid in
        let start = in_sectors lbs off sectors at_block in
        let size = in_sectors lbs (length bytes) sectors whole in
        let sum = is.split_total (length bytes / 512) in
        let (s', run, leaves) =
          write_pieces-Leaves (k.split (length bytes / 512)) (off / 512) bytes s c
            (omega (arith, size, sum)) (omega (arith, start, fits, len)) in
        (
          s',
          is.writes off bytes s s' at_block whole run,
          leaves.shows ∙ ap (λ o. overwrite o bytes (contents s.model)) start,
          leaves.calm,
        ));
  reads = λ off len s c at_block whole fits.
      (let size = length-contents s.model c.valid in
        let start = in_sectors lbs off sectors at_block in
        let sum = is.split_total (len / 512) in
        let end : off / 512 * 512 + total (k.split (len / 512)) * 512 ≡ off + len =
          omega (arith, start, sum, in_sectors lbs len sectors whole) in
        let (s', run, leaves) =
          read_pieces-Leaves (k.split (len / 512)) (off / 512) s c
            (omega (arith, end, fits, size)) in
        (
          s',
          is.reads off len (slice off (off + len) (contents s.model)) s s' at_block whole
              (run ∙ ap₂ (λ x y. some (s', slice x y (contents s.model))) start end),
          leaves.shows,
          leaves.calm,
        ));
  synced = λ s c.
      (let (s', run, same, calm, settled) = fault_rig-synced lbs k s is c in (s', run, same, calm));
}

crash-empty :
    (mode : CrashMode) (m : Model)
    → Calm m
    → m.volatile ≡ []
    → (m' : Model) × (r : CrashReport) × (crash mode m ≡ some (m', r)) × Leaves m (contents m) m'
unfolding crash crash_all
crash-empty mode m c empty =
    let m' : Model = record m {
      volatile = [];
      volatile_bytes = 0;
      stats = record m.stats { crashes = u64 (m.stats.crashes + 1) };
    } in
    (
      m',
      record { committed = 0; dropped = 0; torn = 0 },
      rw (crash, empty) refl,
      record {
        calm = record {
          valid = record {
            block = c.valid.block;
            size_fits = c.valid.size_fits;
            cap_fits = c.valid.cap_fits;
            fit = tt;
            counted = refl;
            capped = omega arith;
          };
          no_error = c.no_error;
          no_lie = c.no_lie;
          no_hang = c.no_hang;
        };
        same_size = refl;
        shows = sym (ap (overlay_all m.committed 0) empty);
      },
    )

abbrev crash_as : CrashMode → Command
crash_as = ublkera.Injector.crash_now

-- A crash step arrives at the server as the crash that it names.
read_command-crash :
    (mode : List ℕ)
    → Mode mode
    → (kind : CrashMode) × (read_command (some (control_object (crash_now mode)))
        ≡ ok (crash_as kind))
unfolding read_command read_cmd read_mode field control_object
read_command-crash mode (inl named) = (drop_all, rw named refl)
read_command-crash mode (inr named) = (seeded, rw named refl)

-- On such a device a sync makes durable what was written: after it, a crash in either mode leaves
-- every byte as it was.
pub fault_rig-Survives :
    (lbs : ℕ) (k : Kernel)
    → IsKernel lbs k
    → Survives (fault_rig k) Mode IsCalm Settled device_bytes
unfolding ctl handle_line is_ok handle_ctl
fault_rig-Survives lbs k is = record {
  settles = λ s c. fault_rig-synced lbs k s is c;
  survives = λ mode s known c settled.
      (let (kind, read) = read_command-crash mode known in
        let (m', r, run, leaves) = crash-empty kind s.model c settled in
        (
          record s { model = m' },
          ap (λ x. checked s (perform_command x s)) read ∙ rw (handle_ctl, run) refl,
          leaves.shows,
          leaves.calm,
        ));
}
