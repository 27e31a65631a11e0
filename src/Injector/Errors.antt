-- ===== src/Injector/Errors.antt =====
-- Injected errors on their way from ublkfault/src/model.rs to a scenario of ublkfault/src/scenario.rs.
use ublkera.Base.{
  ℕ, ◌+◌, ◌*◌, ◌/◌, ◌%◌, ◌≤◌, ◌<◌, ◌≡◌, refl, ap, ap₂, sym, ◌∙◌, Bool, true, false, some, none,
  List, [], ◌∷◌, ◌++◌, length, take, leb, ok, arith, Option-cases, inl, inr, length-take_of_le,
  eq→==, u64,
}
use ublkera.Fault.{Model}
use ublkera.Fault.Rng.{hit}
use ublkera.Fault.View.{IsValid}
use ublkera.Fault.Contract.{write-Wrote, hit-always, same-IsValid}
use ublkera.Scenario.{write, set, set_fields, judge_write, exec, run_steps}
use ublkera.Scenario.Disk.{Multiple, aligned-Multiple}
use ublkera.Scenario.Pattern.{fill_pattern, length-fill_pattern}
use ublkera.Injector.{
  Io, write_op, errno, eio, serve_op, perform, Shared, on_request, replied, handle_ctl, set_field,
}
use ublkera.Injector.Control.{handle_line, is_ok, read_command, read_cmd, field, put}
use ublkera.Injector.Words.{error_word}
use ublkera.Injector.Disk.{take-all, le→leb}
use ublkera.Injector.Serving.{no_hit}
use ublkera.Injector.Kernel.{
  Kernel, IsKernel, issue, write_io, write_pieces, total, await, drop-replies, with_state, finished,
}
use ublkera.Injector.Scenarios.{fault_rig, ctl, control_object, put_pairs, in_sectors}
use ublkera.Injector.Transfers.{u64-sectors}

-- A device that fails every write and hangs on nothing.
pub record Failing (m : Model) : Type 0 where
  pub valid : IsValid m
  pub errors : 1000 ≤ m.policy.error_pm
  pub no_hang : m.policy.hang_pm ≡ 0

-- A write of which a request fails is reported as failed.
pub record Reports (k : Kernel) : Type 0 where
  pub fails :
      (off : ℕ) (bytes : List ℕ) (s : Shared)
      → write_pieces (k.split (length bytes / 512)) (off / 512) bytes s ≡ none
      → (s' : Shared) × (k.write_all_at off bytes s ≡ (s', false))

serve_op-fails :
    (off : ℕ) (bytes : List ℕ) (m : Model)
    → Failing m
    → off + length bytes ≤ length m.committed
    → (m' : Model) × (serve_op write_op off (length bytes) bytes m ≡ some (m', errno eio))
unfolding serve_op
serve_op-fails off bytes m f fits =
    let room : leb (length bytes) (length bytes) ≡ true =
      le→leb (length bytes) (length bytes) (omega arith) in
    let (m', r, run, w) = write-Wrote off bytes f.valid fits in
    let hits : (hit m.policy.error_pm m.rng).1 ≡ true =
      hit-always m.policy.error_pm m.rng f.errors in
    elim (Option-cases r) [
      | inl failed ↦ (m', rw (serve_op, room, take-all bytes, run, failed) refl)
      | inr (n, written) ↦ let misses = w.drawn n written in cc
    ]

issue-fails :
    (sector n : ℕ) (bytes : List ℕ) (s : Shared)
    → Failing s.model
    → length bytes ≡ n * 512
    → sector * 512 + n * 512 ≤ length s.model.committed
    → issue (n * 512) (write_io sector n bytes) s ≡ none
unfolding issue on_request perform
issue-fails sector n bytes s f size fits =
    let io : Io = write_io sector n bytes in
    let rng : ℕ = (hit s.model.policy.hang_pm s.model.rng).0 in
    let m : Model = record s.model { rng = rng } in
    let fine : (hit s.model.policy.hang_pm s.model.rng).1 ≡ false =
      no_hit s.model.policy.hang_pm s.model.rng f.no_hang in
    let failing : Failing m = record {
      valid = same-IsValid rng s.model.stats f.valid;
      errors = f.errors;
      no_hang = f.no_hang;
    } in
    let (m', served) = serve_op-fails (sector * 512) bytes m failing (omega (arith, size, fits)) in
    let off : u64 (sector * 512) ≡ sector * 512 =
      u64-sectors sector (length s.model.committed) (omega (arith, fits)) f.valid.size_fits in
    let len : u64 (n * 512) ≡ length bytes =
      u64-sectors n (length s.model.committed) (omega (arith, fits)) f.valid.size_fits ∙ sym size in
    let done_ : perform io m ≡ some (m', errno eio) =
      ap₂ (λ x y. serve_op write_op x y bytes m) off len ∙ served in
    let started : on_request (λ tag. io) 0 s ≡ replied 0 s (perform io m) =
      rw (on_request, fine) refl in
    ap (await (n * 512) (length s.replies)) (started ∙ ap (replied 0 s) done_)
    ∙ ap
        (λ l.
          with_state (record s { model = m'; replies = s.replies ++ (0, errno eio) ∷ [] })
            (finished (n * 512) l))
        (drop-replies s.replies (0, errno eio))

write_pieces-fails :
    (ns : List ℕ) (sector : ℕ) (bytes : List ℕ) (s : Shared)
    → Failing s.model
    → 0 < total ns
    → length bytes ≡ total ns * 512
    → sector * 512 + length bytes ≤ length s.model.committed
    → write_pieces ns sector bytes s ≡ none
unfolding write_pieces
write_pieces-fails [] sector bytes s f some_bytes size fits = absurd (omega (arith, some_bytes))
write_pieces-fails (n ∷ ns) sector bytes s f some_bytes size fits =
    let part : n * 512 ≤ length bytes = omega (arith, size) in
    let failed =
      issue-fails sector n (take (n * 512) bytes) s f (length-take_of_le (n * 512) bytes part)
        (omega (arith, fits, part)) in
    rw (write_pieces, failed) refl

-- The state after the set step.
abbrev all_fail : Shared → Shared
all_fail s = record s {
  model = record s.model { policy = record s.model.policy { error_pm = 1000 } };
}

ctl-set : (s : Shared) → ctl (set_fields ((error_word, 1000) ∷ [])) s ≡ (all_fail s, true)
unfolding ctl control_object put_pairs put handle_line read_command read_cmd field handle_ctl
    ublkera.Injector.set_fields set_field is_ok
ctl-set s = refl

all_fail-Failing :
    (s : Shared) → IsValid s.model → s.model.policy.hang_pm ≡ 0 → Failing (all_fail s).model
all_fail-Failing s v quiet = record {
  valid = record {
    block = v.block;
    size_fits = v.size_fits;
    cap_fits = v.cap_fits;
    fit = v.fit;
    counted = v.counted;
    capped = v.capped;
  };
  errors = omega arith;
  no_hang = quiet;
}

-- On a valid device that does not hang, with a kernel that cuts transfers into requests and reports
-- a failed one, a scenario that sets the error probability to 1000 per mill and then expects a write
-- to fail passes, whatever it writes: some whole logical blocks inside the device, at a multiple of
-- 4096 bytes.
pub run_steps-fails :
    (lbs : ℕ) (k : Kernel) (off len : ℕ) (pattern : List ℕ) (fsync : Bool) (s : Shared)
    → Multiple 512 lbs
    → Multiple lbs 4096
    → IsKernel lbs k
    → Reports k
    → IsValid s.model
    → s.model.policy.hang_pm ≡ 0
    → off % 4096 ≡ 0
    → Multiple lbs len
    → 0 < len
    → off + len ≤ length s.model.committed
    → (s' : Shared) × (run_steps
          (fault_rig k)
          (set ((error_word, 1000) ∷ []) ∷ write off len pattern fsync true ∷ [])
          s
        ≡ ok s')
unfolding run_steps exec judge_write
run_steps-fails lbs k off len pattern fsync s sectors grain is reports v quiet whole units more
      fits =
    let s1 : Shared = all_fail s in
    let bytes : List ℕ = fill_pattern pattern off len in
    let size = length-fill_pattern pattern off len in
    let start = in_sectors lbs off sectors (aligned-Multiple lbs off grain whole) in
    let span = in_sectors lbs len sectors units in
    let sum = is.split_total (length bytes / 512) in
    let failed : write_pieces (k.split (length bytes / 512)) (off / 512) bytes s1 ≡ none =
      write_pieces-fails (k.split (length bytes / 512)) (off / 512) bytes s1
        (all_fail-Failing s v quiet) (omega (arith, sum, size, span, more))
        (omega (arith, sum, size, span)) (omega (arith, start, size, fits)) in
    let (s2, answered) = reports.fails off bytes s1 failed in
    (s2, rw (run_steps, exec, ctl-set s, eq→== (off % 4096) 0 whole, answered) refl)
