-- ===== src/Scenario.antt =====
-- ublkfault/src/scenario.rs: the steps of a scenario and what runs them. The disk under test, the
-- control socket, the shell and the clock are an interface.
pub mod Pattern
pub mod Disk
pub mod Slices
pub mod Expect
pub mod Durable
pub mod Size
pub mod Text
pub mod Line
use ublkera.Base.{
  ℕ, zero, suc, ◌+◌, ◌-◌, ◌/◌, ◌%◌, ◌^◌, min, Bool, true, false, not, Option, none, some, List, [],
  ◌∷◌, length, slice, list_eq, ltb, ◌==◌, if◌then◌else◌, Result, ok, err, ◌>>=◌, ◌>>◌, ensure,
  context,
}
use Pattern.{fill_pattern}

-- `Step`; texts are lists of their bytes.
pub data Step : Type 0 where
  write : (off len : ℕ) → (pattern : List ℕ) → (fsync expect_error : Bool) → Step
  expect : (off len : ℕ) → (pattern : List ℕ) → Step
  flush : Step
  crash : (mode : List ℕ) → Step
  set : List (List ℕ × ℕ) → Step
  thaw : (answer : List ℕ) → Step
  sleep : (ms : ℕ) → Step
  shell : (command : List ℕ) → (expect_ok : Bool) → Step

-- A request on the control socket of the fault device.
pub data Control : Type 0 where
  crash_now : (mode : List ℕ) → Control
  set_fields : List (List ℕ × ℕ) → Control
  thaw_with : (answer : List ℕ) → Control

-- What the steps act on, with the state `S`. A `false` is an error.
pub record Rig (S : Type 0) : Type 0 where
  pub write_all_at : (off : ℕ) → List ℕ → S → S × Bool
  pub read_exact_at : (off len : ℕ) → S → S × Option (List ℕ)
  pub sync_all : S → S × Bool
  pub ctl : Control → S → S × Bool
  pub wait : ℕ → S → S
  pub sh : List ℕ → S → S × Bool

pub data Failure : Type 0 where
  unaligned write_failed write_succeeded fsync_failed read_failed mismatch flush_failed : Failure
  ctl_failed wrong_exit never_ends : Failure

abbrev pub succeed : {S : Type 0} → Failure → S × Bool → Result Failure S
succeed e (s, true) = ok s
succeed e (s, false) = err e

-- What a write step makes of the outcome of its write.
unfoldable pub judge_write :
    {S : Type 0} → Rig S → (fsync expect_error : Bool) → S × Bool → Result Failure S
judge_write rig fsync false (s, true) =
    if fsync then succeed fsync_failed (rig.sync_all s) else ok s
judge_write rig fsync false (s, false) = err write_failed
judge_write rig fsync true (s, false) = ok s
judge_write rig fsync true (s, true) = err write_succeeded

abbrev pub read_some : {S : Type 0} → S × Option (List ℕ) → Result Failure (S × List ℕ)
read_some (s, none) = err read_failed
read_some (s, some bytes) = ok (s, bytes)

-- The loop that compares the device with `want`, a piece of at most 1 MiB at a time; the fuel
-- counts the pieces.
unfoldable pub compare_loop :
    {S : Type 0} → Rig S → (fuel off pos : ℕ) → List ℕ → S → Result Failure S
compare_loop rig zero off pos want s = err never_ends
compare_loop rig (suc fuel) off pos want s = elim (ltb pos (length want)) [
  | false ↦ ok s
  | true ↦ do
    let n = min (length want - pos) (2 ^ 20)
    r ← read_some (rig.read_exact_at (off + pos) n s)
    ensure (list_eq r.1 (slice pos (pos + n) want)) mismatch
    compare_loop rig fuel off (pos + n) want r.0
]

-- `exec`
unfoldable pub exec : {S : Type 0} → Rig S → Step → S → Result Failure S
unfolding judge_write compare_loop fill_pattern
exec rig (write off len pattern fsync expect_error) s = do
  ensure (off % 4096 == 0) unaligned
  judge_write rig fsync expect_error (rig.write_all_at off (fill_pattern pattern off len) s)
exec rig (expect off len pattern) s = do
  ensure (off % 4096 == 0) unaligned
  compare_loop rig (suc (len / 2 ^ 20 + 1)) off 0 (fill_pattern pattern off len) s
exec rig flush s = succeed flush_failed (rig.sync_all s)
exec rig (crash mode) s = succeed ctl_failed (rig.ctl (crash_now mode) s)
exec rig (set pairs) s = succeed ctl_failed (rig.ctl (set_fields pairs) s)
exec rig (thaw answer) s = succeed ctl_failed (rig.ctl (thaw_with answer) s)
exec rig (sleep ms) s = ok (rig.wait ms s)
exec rig (shell command expect_ok) s =
    let (s', success) = rig.sh command s in
    if (if expect_ok then success else not success) then ok s' else err wrong_exit

-- The loop of `run_file` over the steps of the lines.
unfoldable pub run_steps : {S : Type 0} → Rig S → List Step → S → Result Failure S
unfolding exec
run_steps rig [] s = ok s
run_steps rig (step ∷ steps) s = do s' ← exec rig step s; run_steps rig steps s'
