-- ===== src/Scenario/Line/Files.antt =====
-- `run_file` of ublkfault/src/scenario.rs on a file with one line for each step, and comments.
use ublkera.Base.{
  ℕ, suc, ◌+◌, ◌<◌, ◌≡◌, refl, ap, ◌∙◌, Bool, true, some, List, [], ◌∷◌, ◌++◌, length, take, Result,
  ok, err, arith, Bool-cases, inl, inr, Result-cases,
}
use ublkera.Scenario.{Step, Rig, Failure, exec, run_steps}
use ublkera.Scenario.Text.{is_hash, before, trim}
use ublkera.Scenario.Text.Lines.{unlines, AllPlain, lines-unlines}
use ublkera.Scenario.Line.{FileError, failed_step, parse_line, read_line, run_lines, run_file}
use ublkera.Scenario.Line.Printer.{show_step, IsPrintable}
use ublkera.Scenario.Line.RoundTrip.{parse_line-show_step}

before-append :
    (p : ℕ → Bool) (c : ℕ) (xs ys : List ℕ) → p c ≡ true → before p (xs ++ c ∷ ys) ≡ before p xs
unfolding before
before-append p c [] ys h = rw h refl
before-append p c (x ∷ xs) ys h = elim (Bool-cases (p x)) [
  | inl stop ↦ rw (before, stop) refl
  | inr more ↦ rw (before, more) (ap (λ l. x ∷ l) (before-append p c xs ys h))
]

-- A comment changes nothing.
pub parse_line-comment :
    (line comment : List ℕ) → parse_line (line ++ b'#' ∷ comment) ≡ parse_line line
unfolding parse_line
parse_line-comment line comment =
    ap (λ x. read_line (trim x)) (before-append is_hash b'#' line comment refl)

abbrev pub show_steps : List Step → List (List ℕ)
show_steps [] = []
show_steps (step ∷ steps) = show_step step ∷ show_steps steps

abbrev pub AllPrintable : List Step → Type 0
AllPrintable [] = Unit
AllPrintable (step ∷ steps) = IsPrintable step × AllPrintable steps

-- What a file of these steps comes to: where a run of them succeeds, the same state and the number
-- of the steps; where it fails, the same failure at the line of the step that fails. The steps
-- before that line all run, and with that step they fail.
abbrev pub FileResult :
    {S : Type 0}
    → Rig S
    → (lno ran : ℕ) → List Step
    → S
    → Result FileError (S × ℕ)
    → Result Failure S
    → Type 0
FileResult rig lno ran steps s r (ok t) = r ≡ ok (t, ran + length steps)
FileResult {S} rig lno ran steps s r (err e) =
    (k : ℕ) × (t : S) × (k < length steps)
    × (run_steps rig (take k steps) s ≡ ok t)
    × (run_steps rig (take (suc k) steps) s ≡ err e)
    × (r ≡ err (failed_step (lno + k) e))

FileResult-cons :
    {S : Type 0} (rig : Rig S) (lno ran : ℕ) (step : Step) (steps : List Step) (s s' : S)
    (r : Result FileError (S × ℕ)) (run : Result Failure S)
    → exec rig step s ≡ ok s'
    → FileResult rig (suc lno) (suc ran) steps s' r run
    → FileResult rig lno ran (step ∷ steps) s r run
unfolding run_steps
FileResult-cons rig lno ran step steps s s' r (ok t) done h = h ∙ ap (λ n. ok (t, n)) (omega arith)
FileResult-cons rig lno ran step steps s s' r (err e) done (k, t, below, fine, fails, h) = (
  suc k,
  t,
  omega (arith, below),
  rw (run_steps, done) fine,
  rw (run_steps, done) fails,
  h ∙ ap (λ n. err (failed_step n e)) (omega arith),
)

run_lines-show_steps :
    {S : Type 0} (rig : Rig S) (lno ran : ℕ) (steps : List Step) (s : S)
    → AllPrintable steps
    → FileResult rig lno ran steps s
        (run_lines rig lno ran (show_steps steps) s)
        (run_steps rig steps s)
unfolding run_lines run_steps
run_lines-show_steps rig lno ran [] s h = ap (λ n. ok (s, n)) (omega arith)
run_lines-show_steps rig lno ran (step ∷ steps) s h =
    let parsed : parse_line (show_step step) ≡ ok (some step) = parse_line-show_step step h.0 in
    elim (Result-cases (exec rig step s)) [
      | inl (s', done) ↦
          rw (run_lines, run_steps, parsed, done)
            (FileResult-cons rig lno ran step steps s s'
              (run_lines rig (suc lno) (suc ran) (show_steps steps) s') (run_steps rig steps s')
              done (run_lines-show_steps rig (suc lno) (suc ran) steps s' h.1))
      | inr (e, failed) ↦
          rw (run_lines, run_steps, parsed, failed)
            (
              0,
              s,
              omega arith,
              refl,
              rw (run_steps, failed) refl,
              ap (λ n. err (failed_step n e)) (omega arith),
            )
    ]

-- A scenario file with a line for each of some printable steps, in which no command holds a line
-- break, does what a run of the steps does: where that succeeds, so does the file, in the same
-- state and with the count of the steps; where it fails, the file fails alike, at the number,
-- counted from 1, of the line of the first step that fails.
pub run_file-show_steps :
    {S : Type 0} (rig : Rig S) (steps : List Step) (s : S)
    → AllPrintable steps
    → AllPlain (show_steps steps)
    → FileResult rig 1 0 steps s
        (run_file rig (unlines (show_steps steps)) s)
        (run_steps rig steps s)
unfolding run_file
run_file-show_steps rig steps s h plain =
    rw (lines-unlines (show_steps steps) plain) (run_lines-show_steps rig 1 0 steps s h)
