-- ===== src/Scenario/Line.antt =====
-- `parse_line` and `run_file` of ublkfault/src/scenario.rs: the text of a scenario and its steps.
pub mod Verbs
pub mod Decimal
pub mod Printer
pub mod Pieces
pub mod RoundTrip
pub mod Files
use ublkera.Base.{
  ℕ, suc, ◌+◌, Bool, true, false, not, Option, some, none, List, [], ◌∷◌, ◌++◌, ◌||◌, ◌&&◌, ltb,
  ◌==◌, list_eq, if◌then◌else◌, Result, ok, err, ◌>>=◌, ◌>>◌, ensure, context,
}
use ublkera.Scenario.{
  Step, write, expect, flush, crash, set, thaw, sleep, shell, Rig, Failure, exec,
}
use ublkera.Scenario.Size.{parse_size, parse_u64}
use ublkera.Scenario.Text.{
  is_space, is_hash, is_equals, is_empty, before, split_once, trim, split_whitespace, lines,
}
use Verbs.{
  write_word, write_fails_word, expect_word, flush_word, crash_word, set_word, thaw_word,
  sleep_word, run_word, fail_word, off_word, len_word, pattern_word, fsync_word, mode_word,
  result_word, ms_word,
}

pub data LineError : Type 0 where
  missing_command no_pairs : LineError
  missing_key bad_size bad_number unknown_verb : List ℕ → LineError

-- The `HashMap` of the arguments, in the order in which the keys came first.
abbrev pub Args : Type 0
Args = List (List ℕ × List ℕ)

-- `HashMap::insert`
unfoldable pub insert : (k v : List ℕ) → Args → Args
insert k v [] = (k, v) ∷ []
insert k v ((j, w) ∷ args) = if list_eq j k then (j, v) ∷ args else (j, w) ∷ insert k v args

-- `HashMap::get`
unfoldable pub get : List ℕ → Args → Option (List ℕ)
get k [] = none
get k ((j, w) ∷ args) = if list_eq j k then some w else get k args

-- `Vec::contains`
unfoldable pub contains : List ℕ → List (List ℕ) → Bool
contains w [] = false
contains w (v ∷ vs) = list_eq v w || contains w vs

-- The loop over the words after the verb.
unfoldable pub read_args : Args → (flags : List (List ℕ)) → List (List ℕ) → Args × List (List ℕ)
unfolding split_once insert
read_args args flags [] = (args, flags)
read_args args flags (tok ∷ toks) = elim (split_once is_equals tok) [
  | some (k, v) ↦ read_args (insert k v args) flags toks
  | none ↦ read_args args (flags ++ tok ∷ []) toks
]

-- `need`
unfoldable pub need : List ℕ → Args → Result LineError (List ℕ)
unfolding get
need k args = context (get k args) (missing_key k)

unfoldable pub need_size : List ℕ → Args → Result LineError ℕ
unfolding need
need_size k args = do text ← need k args; context (parse_size text) (bad_size text)

unfoldable pub number : List ℕ → Result LineError ℕ
number text = context (parse_u64 text) (bad_number text)

-- The loop of `set` over the arguments.
unfoldable pub read_pairs : Args → Result LineError (List (List ℕ × ℕ))
unfolding number
read_pairs [] = ok []
read_pairs ((k, v) ∷ args) = do n ← number v; pairs ← read_pairs args; ok ((k, n) ∷ pairs)

-- `<` on texts.
unfoldable pub text_lt : List ℕ → List ℕ → Bool
text_lt xs [] = false
text_lt [] (y ∷ ys) = true
text_lt (x ∷ xs) (y ∷ ys) = ltb x y || (x == y && text_lt xs ys)

-- `<` on pairs.
unfoldable pub pair_lt : List ℕ × ℕ → List ℕ × ℕ → Bool
unfolding text_lt
pair_lt (j, m) (k, n) = text_lt j k || (list_eq j k && ltb m n)

unfoldable pub place : List ℕ × ℕ → List (List ℕ × ℕ) → List (List ℕ × ℕ)
unfolding pair_lt
place p [] = p ∷ []
place p (q ∷ qs) = if pair_lt q p then q ∷ place p qs else p ∷ q ∷ qs

-- `pairs.sort()`
unfoldable pub sort : List (List ℕ × ℕ) → List (List ℕ × ℕ)
unfolding place
sort [] = []
sort (p ∷ ps) = place p (sort ps)

-- The `match` on the verb.
unfoldable pub step_of : (verb : List ℕ) → Args → (flags : List (List ℕ)) → Result LineError Step
unfolding need need_size number read_pairs sort contains
step_of verb args flags =
    if list_eq verb write_word || list_eq verb write_fails_word
    then (do
      off ← need_size off_word args
      len ← need_size len_word args
      pattern ← need pattern_word args
      ok (write off len pattern (contains fsync_word flags) (list_eq verb write_fails_word)))
    else if list_eq verb expect_word
    then (do
      off ← need_size off_word args
      len ← need_size len_word args
      pattern ← need pattern_word args
      ok (expect off len pattern))
    else if list_eq verb flush_word
    then ok flush
    else if list_eq verb crash_word
    then (do mode ← need mode_word args; ok (crash mode))
    else if list_eq verb set_word
    then (do pairs ← read_pairs args; ensure (not (is_empty pairs)) no_pairs; ok (set (sort pairs)))
    else if list_eq verb thaw_word
    then (do answer ← need result_word args; ok (thaw answer))
    else if list_eq verb sleep_word
    then (do text ← need ms_word args; ms ← number text; ok (sleep ms))
    else err (unknown_verb verb)

-- The verb, and the text after it.
unfoldable pub split_verb : List ℕ → List ℕ × List ℕ
unfolding split_once
split_verb line = elim (split_once is_space line) [ none ↦ (line, []) | some r ↦ r ]

-- A line that is not blank, from its verb and the trimmed text after it.
unfoldable pub read_verb : (verb rest : List ℕ) → Result LineError (Option Step)
unfolding read_args step_of split_whitespace
read_verb verb rest =
    if list_eq verb run_word || list_eq verb fail_word
    then (do
      ensure (not (is_empty rest)) missing_command
      ok (some (shell rest (list_eq verb run_word))))
    else (do
      step ←
          step_of verb (read_args [] [] (split_whitespace rest)).0
            (read_args [] [] (split_whitespace rest)).1
      ok (some step))

unfoldable pub read_line : List ℕ → Result LineError (Option Step)
unfolding split_verb read_verb trim
read_line line =
    if is_empty line then ok none else read_verb (split_verb line).0 (trim (split_verb line).1)

-- `parse_line`
unfoldable pub parse_line : List ℕ → Result LineError (Option Step)
unfolding before trim read_line
parse_line line = read_line (trim (before is_hash line))

-- Where a scenario fails: the number of the line, and what is wrong there.
pub data FileError : Type 0 where
  bad_line : (lno : ℕ) → LineError → FileError
  failed_step : (lno : ℕ) → Failure → FileError

abbrev pub or_bad_line {ℓ} : {A : Type ℓ} → (lno : ℕ) → Result LineError A → Result FileError A
or_bad_line lno (ok a) = ok a
or_bad_line lno (err e) = err (bad_line lno e)

abbrev pub or_failed_step {ℓ} : {A : Type ℓ} → (lno : ℕ) → Result Failure A → Result FileError A
or_failed_step lno (ok a) = ok a
or_failed_step lno (err e) = err (failed_step lno e)

-- The loop of `run_file` over the lines from number `lno` on, with the steps that have run.
unfoldable pub run_lines :
    {S : Type 0} → Rig S → (lno steps : ℕ) → List (List ℕ) → S → Result FileError (S × ℕ)
run_lines rig lno steps [] s = ok (s, steps)
run_lines rig lno steps (line ∷ rest) s = elim (or_bad_line lno (parse_line line)) [
  | err e ↦ err e
  | ok none ↦ run_lines rig (suc lno) steps rest s
  | ok (some step) ↦ elim (or_failed_step lno (exec rig step s)) [
    | err e ↦ err e
    | ok s' ↦ run_lines rig (suc lno) (suc steps) rest s'
  ]
]

-- `run_file`, on the text of the file.
unfoldable pub run_file : {S : Type 0} → Rig S → List ℕ → S → Result FileError (S × ℕ)
unfolding run_lines lines
run_file rig text s = run_lines rig 1 0 (lines text) s
