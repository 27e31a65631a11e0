-- ===== src/Injector/Passes.antt =====
-- A scenario file of ublkfault/src/scenario.rs for the durability of a write, from its text to the
-- device of ublkfault/src/main.rs that it runs against.
use ublkera.Base.{
  ℕ, ◌+◌, ◌%◌, ◌^◌, ◌≤◌, ◌<◌, ◌≡◌, inl, inr, refl, ap, ◌∙◌, true, false, some, List, [], ◌∷◌, ◌++◌,
  overwrite, ok, arith,
}
use ublkera.Fault.{Policy}
use ublkera.Scenario.{Step, write, expect, crash, run_steps}
use ublkera.Scenario.Disk.{Multiple}
use ublkera.Scenario.Durable.{run_steps-durable}
use ublkera.Scenario.Pattern.{fill_pattern}
use ublkera.Scenario.Text.{is_newline, is_space, none_of}
use ublkera.Scenario.Text.Words.{breaks, IsWord, AllWords, none_of-join}
use ublkera.Scenario.Text.Lines.{unlines, is_return, AllPlain}
use ublkera.Scenario.Line.{run_file}
use ublkera.Scenario.Line.Verbs.{off_word, len_word, pattern_word, mode_word}
use ublkera.Scenario.Line.Printer.{show_step, words_of, verb_of, IsName}
use ublkera.Scenario.Line.Pieces.{IsWord-assign, size-IsWord}
use ublkera.Scenario.Line.Files.{show_steps, AllPrintable, FileResult, run_file-show_steps}
use ublkera.Injector.{Shared, serve}
use ublkera.Injector.Disk.{length-contents, Calm}
use ublkera.Injector.Start.{serve-IsValid, serve-policy}
use ublkera.Injector.Params.{serve-Multiple}
use ublkera.Injector.Kernel.{Kernel, IsKernel}
use ublkera.Injector.Scenarios.{
  fault_rig, device_bytes, IsCalm, Settled, Mode, fault_rig-Keeps, fault_rig-Survives,
}

not_newline : (c : ℕ) → breaks c ≡ false → is_newline c ≡ false
unfolding breaks is_space
not_newline c h = ground arith

not_return : (c : ℕ) → breaks c ≡ false → is_return c ≡ false
unfolding breaks is_space
not_return c h = ground arith

-- A line of words holds no line break.
IsPlain : Step → Type 0
IsPlain step =
    (none_of is_newline (show_step step) ≡ true) × (none_of is_return (show_step step) ≡ true)

words-IsPlain : (step : Step) → IsWord (verb_of step) → AllWords (words_of step) → IsPlain step
unfolding IsPlain
words-IsPlain step h t = (
  none_of-join is_newline (verb_of step) (words_of step) not_newline refl h t,
  none_of-join is_return (verb_of step) (words_of step) not_return refl h t,
)

Mode-IsName : (mode : List ℕ) → Mode mode → IsName mode
unfolding breaks is_space
Mode-IsName mode (inl named) = rw named refl
Mode-IsName mode (inr named) = rw named refl

-- The steps of the scenario.
abbrev pub durability : (off total skip len : ℕ) → (pattern mode : List ℕ) → List Step
durability off total skip len pattern mode =
    write off total pattern true false ∷ crash mode ∷ expect (off + skip) len pattern ∷ []

durability-AllPlain :
    (off total skip len : ℕ) (pattern mode : List ℕ)
    → IsName pattern
    → IsName mode
    → AllPlain (show_steps (durability off total skip len pattern mode))
unfolding IsPlain breaks is_space
durability-AllPlain off total skip len pattern mode name name' =
    let named : IsWord (pattern_word ++ b'=' ∷ pattern) =
      IsWord-assign pattern_word pattern refl name in
    let first =
      words-IsPlain (write off total pattern true false) (refl, refl)
        (
          size-IsWord off_word off refl,
          (size-IsWord len_word total refl, (named, ((refl, refl), tt))),
        ) in
    let second =
      words-IsPlain (crash mode) (refl, refl) (IsWord-assign mode_word mode refl name', tt) in
    let third =
      words-IsPlain (expect (off + skip) len pattern) (refl, refl)
        (size-IsWord off_word (off + skip) refl, (size-IsWord len_word len refl, (named, tt))) in
    (first.0, first.1, (second.0, second.1, (third.0, third.1, tt)))

-- A device as `serve` starts it, with a policy that injects nothing, and a kernel that cuts
-- transfers into requests as documented: the scenario file that writes a pattern with fsync at a
-- whole block of 4096 bytes, loses the power in either mode and expects the pattern on any part of
-- what was written that starts at a whole block passes all its three steps, and the device then
-- holds what was written. The lengths are whole logical blocks, of which 4096 bytes are a multiple.
pub run_file-durable :
    (size lbs seed cache : ℕ) (policy : Policy) (k : Kernel) (off total skip len : ℕ)
    (pattern mode : List ℕ) (s : Shared)
    → serve size lbs seed cache policy ≡ some s
    → policy ≡ record { error_pm = 0; flush_lie_pm = 0; hang_pm = 0 }
    → size < 2 ^ 63
    → cache < 2 ^ 63
    → IsKernel lbs k
    → Multiple lbs 4096
    → IsName pattern
    → Mode mode
    → off % 4096 ≡ 0
    → skip % 4096 ≡ 0
    → Multiple lbs total
    → Multiple lbs len
    → skip + len ≤ total
    → off + total ≤ size
    → (s' : Shared) × (run_file
          (fault_rig k)
          (unlines (show_steps (durability off total skip len pattern mode)))
          s
        ≡ ok (s', 3))
      × (device_bytes s' ≡ overwrite off (fill_pattern pattern off total) (device_bytes s))
run_file-durable size lbs seed cache policy k off total skip len pattern mode s started calm fits
      room is grain name known whole whole' units units' part inside =
    let sectors = serve-Multiple size lbs seed cache policy started in
    let (valid, length_is, _, _, _) = serve-IsValid size lbs seed cache policy fits room started in
    let quiet = serve-policy size lbs seed cache policy started ∙ calm in
    let good : Calm s.model = record {
      valid = valid;
      no_error = ap (λ p. p.error_pm) quiet;
      no_lie = ap (λ p. p.flush_lie_pm) quiet;
      no_hang = ap (λ p. p.hang_pm) quiet;
    } in
    let steps : List Step = durability off total skip len pattern mode in
    let (s', run, holds) =
      run_steps-durable (fault_rig k) lbs Mode IsCalm Settled device_bytes
        (fault_rig-Keeps lbs k sectors is) (fault_rig-Survives lbs k is) grain off total skip len
        pattern mode s good known whole whole' units units' part
        (omega (arith, inside, length_is, length-contents s.model valid)) in
    let name' : IsName mode = Mode-IsName mode known in
    let printable : AllPrintable steps = (
      (omega (arith, fits, inside), omega (arith, fits, inside), name),
      (name', ((omega (arith, fits, inside, part), omega (arith, fits, inside, part), name), tt)),
    ) in
    let file : FileResult (fault_rig k) 1 0 steps s
        (run_file (fault_rig k) (unlines (show_steps steps)) s) (run_steps (fault_rig k) steps s) =
      run_file-show_steps (fault_rig k) steps s printable
        (durability-AllPlain off total skip len pattern mode name name') in
    (s', rw run at file, holds)
