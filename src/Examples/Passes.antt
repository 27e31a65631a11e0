-- ===== src/Examples/Passes.antt =====
-- Scenario files of ublkfault/src/scenario.rs on a small device of ublkfault/src/main.rs.
use ublkera.Base.{
  ℕ, ◌*◌, ◌^◌, u64, ◌/◌, ◌≡◌, refl, ap, inl, Bool, true, false, Option, some, none, List, [], ◌∷◌,
  ◌++◌, length, overwrite, ok, err, arith,
}
use ublkera.Era.{is_power_below}
use ublkera.Fault.{Policy, new}
use ublkera.Scenario.{write, Step, set, sleep, shell, run_steps}
use ublkera.Scenario.Disk.{Keeps, Survives}
use ublkera.Scenario.Pattern.{fill_pattern}
use ublkera.Scenario.Size.{parse_size}
use ublkera.Scenario.Text.{is_space, trim_start, trim_end}
use ublkera.Scenario.Text.Words.{breaks}
use ublkera.Scenario.Text.Lines.{unlines}
use ublkera.Scenario.Line.{
  no_pairs, missing_key, missing_command, get, text_lt, pair_lt, place, sort, parse_line, run_file,
}
use ublkera.Scenario.Line.Decimal.{show_dec, show_onto}
use ublkera.Scenario.Line.Verbs.{set_word, write_word, off_word, run_word}
use ublkera.Scenario.Line.Printer.{show_step, IsPrintable}
use ublkera.Scenario.Line.RoundTrip.{parse_line-show_step}
use ublkera.Scenario.Line.Files.{show_steps, FileResult, run_file-show_steps}
use ublkera.Injector.{Shared, serve}
use ublkera.Injector.Words.{drop_word, error_word, hang_word}
use ublkera.Injector.Kernel.{Kernel, IsKernel, write_pieces, read_pieces, issue, flush_io}
use ublkera.Injector.Scenarios.{
  fault_rig, device_bytes, IsCalm, Settled, Mode, fault_rig-Keeps, fault_rig-Survives,
}
use ublkera.Injector.Cli.{size_arg, mib_upper, size_arg-suffix}
use ublkera.Injector.Params.{device_params, serve-advertises}
use ublkera.Target.Setup.{Params}
use ublkera.Fault.View.{IsValid}
use ublkera.Injector.Start.{serve-IsValid}
use ublkera.Injector.Errors.{Reports, run_steps-fails}
use ublkera.Injector.Passes.{durability, run_file-durable}

-- A kernel with one request for each transfer.
abbrev landed : Shared → Option Shared → Shared × Bool
landed s none = (s, false)
landed s (some s') = (s', true)

abbrev fetched : Shared → Option (Shared × List ℕ) → Shared × Option (List ℕ)
fetched s none = (s, none)
fetched s (some (s', bytes)) = (s', some bytes)

abbrev flushed : Shared → Option (Shared × List ℕ) → Shared × Bool
flushed s none = (s, false)
flushed s (some (s', bytes)) = (s', true)

abbrev one_request : Kernel
one_request = record {
  split = λ n. n ∷ [];
  write_all_at =
      λ off bytes s. landed s (write_pieces (length bytes / 512 ∷ []) (off / 512) bytes s);
  read_exact_at = λ off len s. fetched s (read_pieces (len / 512 ∷ []) (off / 512) s);
  sync_all = λ s. flushed s (issue 0 flush_io s);
  wait = λ ms s. s;
  sh = λ command s. (s, true);
}

one_request-IsKernel : IsKernel 512 one_request
one_request-IsKernel = record {
  split_total = λ n. omega arith;
  writes = λ off bytes s s' start whole run. ap (landed s) run;
  reads = λ off len bytes s s' start whole run. ap (fetched s) run;
  syncs = λ s s' buf run. ap (flushed s) run;
}

fault_rig-Keeps_example : Keeps (fault_rig one_request) 512 IsCalm device_bytes
fault_rig-Keeps_example = fault_rig-Keeps 512 one_request (1, refl) one_request-IsKernel

fault_rig-Survives_example : Survives (fault_rig one_request) Mode IsCalm Settled device_bytes
fault_rig-Survives_example = fault_rig-Survives 512 one_request one_request-IsKernel

abbrev quiet : Policy
quiet = record { error_pm = 0; flush_lie_pm = 0; hang_pm = 0 }

abbrev base : List ℕ
base = b'b' ∷ b'a' ∷ b's' ∷ b'e' ∷ []

abbrev started : Shared
started = record {
  model = new 16384 512 4096 7 quiet;
  parked = [];
  thaw_result = none;
  event = false;
  replies = [];
}

starts : serve 16384 512 7 4096 quiet ≡ some started
unfolding serve is_power_below
starts = refl

run_file-durable_example :
    (s : Shared) × (run_file
        (fault_rig one_request)
        (unlines (show_steps (durability 4096 8192 4096 1024 base drop_word)))
        started
      ≡ ok (s, 3))
    × (device_bytes s ≡ overwrite 4096 (fill_pattern base 4096 8192) (device_bytes started))
unfolding breaks is_space
run_file-durable_example =
    run_file-durable 16384 512 7 4096 quiet one_request 4096 8192 4096 1024 base drop_word started
      starts refl (omega arith) (omega arith) one_request-IsKernel (8, refl) refl (inl refl) refl
      refl (16, refl) (2, refl) (omega arith) (omega arith)

one_request-Reports : Reports one_request
one_request-Reports = record { fails = λ off bytes s failed. (s, ap (landed s) failed) }

started-IsValid : IsValid started.model
started-IsValid = (serve-IsValid 16384 512 7 4096 quiet (omega arith) (omega arith) starts).0

started-size : length started.model.committed ≡ 16384
started-size = (serve-IsValid 16384 512 7 4096 quiet (omega arith) (omega arith) starts).1

run_steps-fails_example :
    (s : Shared) × (run_steps
        (fault_rig one_request)
        (set ((error_word, 1000) ∷ []) ∷ write 8192 2048 base true true ∷ [])
        started
      ≡ ok s)
unfolding new
run_steps-fails_example =
    run_steps-fails 512 one_request 8192 2048 base true started (1, refl) (8, refl)
      one_request-IsKernel one_request-Reports started-IsValid refl refl (4, refl) (omega arith)
      (omega (arith, started-size))

-- "set error_pm=1000 hang_pm=5"
abbrev policy_step : Step
policy_step = set ((error_word, 1000) ∷ (hang_word, 5) ∷ [])

policy_step-IsPrintable : IsPrintable policy_step
unfolding breaks is_space get sort place pair_lt text_lt
policy_step-IsPrintable = (refl, (refl, omega arith, refl, (refl, omega arith, refl, tt)), refl)

parse_line-show_step_example : parse_line (show_step policy_step) ≡ ok (some policy_step)
parse_line-show_step_example = parse_line-show_step policy_step policy_step-IsPrintable

-- A sleep, and a shell command that fails.
abbrev two_steps : List Step
two_steps = sleep 30 ∷ shell (b'l' ∷ b's' ∷ b' ' ∷ b'/' ∷ []) false ∷ []

run_file-show_steps_example :
    FileResult
      (fault_rig one_request)
      1
      0
      two_steps
      started
      (run_file (fault_rig one_request) (unlines (show_steps two_steps)) started)
      (run_steps (fault_rig one_request) two_steps started)
unfolding is_space trim_start trim_end show_dec show_onto
run_file-show_steps_example =
    run_file-show_steps (fault_rig one_request) two_steps started
      (omega arith, ((refl, refl, refl, refl), tt)) (refl, refl, (refl, refl, tt))

-- "write off=4K ", without its other arguments.
missing_len :
    parse_line (write_word ++ b' ' ∷ off_word ++ b'=' ∷ b'4' ∷ b'K' ∷ b' ' ∷ [])
    ≡ err (missing_key (b'l' ∷ b'e' ∷ b'n' ∷ []))
unfolding parse_line parse_size
missing_len = refl

-- "set" and "run", with nothing after them.
no_pairs_given : parse_line set_word ≡ err no_pairs
unfolding parse_line
no_pairs_given = refl

no_command_given : parse_line (run_word ++ b' ' ∷ []) ≡ err missing_command
unfolding parse_line
no_command_given = refl

-- " # run"
only_comment : parse_line (b' ' ∷ b'#' ∷ b' ' ∷ run_word) ≡ ok none
unfolding parse_line
only_comment = refl

-- "64M"
size_arg-suffix_example : size_arg (show_dec 64 ++ b'M' ∷ []) ≡ some (u64 (64 * (1024 * 1024)))
size_arg-suffix_example = size_arg-suffix 64 (omega arith) mib_upper

serve-advertises_example :
    let p : Params = device_params 16384 512 524288 in
    (2 ^ p.logical_bs_shift ≡ 512)
    × (2 ^ p.physical_bs_shift ≡ 512)
    × (2 ^ p.io_min_shift ≡ 512)
    × (p.discard.discard_granularity ≡ 512)
    × (p.dev_sectors * 512 ≡ 16384)
serve-advertises_example = serve-advertises 16384 512 7 4096 524288 quiet starts
