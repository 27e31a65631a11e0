-- ===== src/Scenario/Line/RoundTrip.antt =====
-- `parse_line` of ublkfault/src/scenario.rs reads back every step that is printed as a line.
use mathlib.Core.List.{append-nil, append_assoc}
use ublkera.Base.{
  ℕ, Bool, true, false, some, none, List, [], ◌∷◌, ◌++◌, ◌||◌, ◌≡◌, ◌<◌, ◌^◌, refl, ap, sym, ◌∙◌,
  list_eq, ok, arith,
}
use ublkera.Scenario.{Step, write, expect, flush, crash, set, thaw, sleep, shell}
use ublkera.Scenario.Text.{is_space, is_equals, is_empty, split_once, none_of}
use ublkera.Scenario.Text.Words.{breaks, IsWord, AllWords, join, split_once-append}
use ublkera.Scenario.Line.{
  Args, insert, get, read_args, need, number, read_pairs, sort, step_of, read_verb, parse_line,
}
use ublkera.Scenario.Line.Verbs.{
  write_word, write_fails_word, expect_word, crash_word, set_word, thaw_word, sleep_word, run_word,
  fail_word, off_word, len_word, pattern_word, mode_word, result_word, ms_word,
}
use ublkera.Scenario.Line.Decimal.{show_dec, show_dec-breaks, parse_u64-show_dec}
use ublkera.Scenario.Line.Printer.{
  assign, flagged, shown_pairs, pair_words, words_of, show_step, key_breaks, ArePairs, IsPrintable,
}
use ublkera.Scenario.Line.Pieces.{
  parse_line-rest, parse_line-words, parse_line-flush, IsWord-assign, AllWords-flagged, size-IsWord,
  placed, step_of-write, step_of-expect,
}

-- The pairs of a set step.
key_breaks-breaks : (k : List ℕ) → none_of key_breaks k ≡ true → none_of breaks k ≡ true
key_breaks-breaks [] h = refl
key_breaks-breaks (c ∷ cs) h = ground (arith, key_breaks-breaks cs)

key_breaks-equals : (k : List ℕ) → none_of key_breaks k ≡ true → none_of is_equals k ≡ true
key_breaks-equals [] h = refl
key_breaks-equals (c ∷ cs) h = ground (arith, key_breaks-equals cs)

AllWords-pair_words :
    (seen : Args) (pairs : List (List ℕ × ℕ))
    → ArePairs seen pairs
    → AllWords (pair_words (shown_pairs pairs))
AllWords-pair_words seen [] h = tt
AllWords-pair_words seen ((k, n) ∷ pairs) h = (
  IsWord-assign k (show_dec n) (key_breaks-breaks k h.0) (show_dec-breaks n),
  AllWords-pair_words (seen ++ (k, show_dec n) ∷ []) pairs h.3,
)

insert-fresh :
    (k v : List ℕ) (args : Args) → get k args ≡ none → insert k v args ≡ args ++ (k, v) ∷ []
unfolding insert get
insert-fresh k v [] h = refl
insert-fresh k v ((j, w) ∷ args) h = ground (arith, insert-fresh k v args)

read_args-pairs :
    (seen : Args) (pairs : List (List ℕ × ℕ))
    → ArePairs seen pairs
    → read_args seen [] (pair_words (shown_pairs pairs)) ≡ (seen ++ shown_pairs pairs, [])
unfolding read_args
read_args-pairs seen [] h = ap (λ (x : Args). (x, [])) (sym (append-nil seen))
read_args-pairs seen ((k, n) ∷ pairs) h =
    rw
      (
        read_args,
        split_once-append is_equals b'=' k (show_dec n) (key_breaks-equals k h.0) refl,
        insert-fresh k (show_dec n) seen h.2,
      )
      (read_args-pairs (seen ++ (k, show_dec n) ∷ []) pairs h.3
        ∙ ap (λ (x : Args). (x, [])) (append_assoc seen ((k, show_dec n) ∷ []) (shown_pairs pairs)))

read_pairs-shown :
    (seen : Args) (pairs : List (List ℕ × ℕ))
    → ArePairs seen pairs
    → read_pairs (shown_pairs pairs) ≡ ok pairs
unfolding read_pairs number
read_pairs-shown seen [] h = refl
read_pairs-shown seen ((k, n) ∷ pairs) h =
    rw
      (
        read_pairs,
        number,
        parse_u64-show_dec n h.1,
        read_pairs-shown (seen ++ (k, show_dec n) ∷ []) pairs h.3,
      )
      refl

step_of-set :
    (args : Args) (flags : List (List ℕ)) (pairs : List (List ℕ × ℕ))
    → read_pairs args ≡ ok pairs
    → is_empty pairs ≡ false
    → step_of set_word args flags ≡ ok (set (sort pairs))
unfolding step_of
step_of-set args flags pairs read more = rw (step_of, read, more) refl

set_IsWord : IsWord set_word
unfolding breaks is_space
set_IsWord = (refl, refl)

parse_line-set :
    (pairs : List (List ℕ × ℕ))
    → IsPrintable (set pairs)
    → parse_line (show_step (set pairs)) ≡ ok (some (set pairs))
parse_line-set [] h = cc
parse_line-set ((k, n) ∷ pairs) (more, good, sorted) =
    let words = AllWords-pair_words [] ((k, n) ∷ pairs) good in
    let args : read_args [] [] (pair_words (shown_pairs ((k, n) ∷ pairs)))
        ≡ (shown_pairs ((k, n) ∷ pairs), []) =
      read_args-pairs [] ((k, n) ∷ pairs) good in
    parse_line-words set_word (assign k (show_dec n)) (pair_words (shown_pairs pairs)) set_IsWord
      words.0 words.1 refl
      (rw args (
        step_of-set (shown_pairs ((k, n) ∷ pairs)) [] ((k, n) ∷ pairs)
          (read_pairs-shown [] ((k, n) ∷ pairs) good) more
        ∙ ap (λ x. ok (set x)) sorted))

step_of-sleep :
    (ms : ℕ) → ms < 2 ^ 64 → step_of sleep_word ((ms_word, show_dec ms) ∷ []) [] ≡ ok (sleep ms)
unfolding step_of need get number
step_of-sleep ms h = rw (step_of, number, parse_u64-show_dec ms h) refl

read_args-placed :
    (off len : ℕ) (pattern : List ℕ) (fsync expect_error : Bool)
    → read_args [] [] (words_of (write off len pattern fsync expect_error))
      ≡ (placed off len pattern, flagged fsync)
unfolding read_args split_once insert
read_args-placed off len pattern true expect_error = refl
read_args-placed off len pattern false expect_error = refl

parse_line-write :
    (v : List ℕ) (off len : ℕ) (pattern : List ℕ) (fsync expect_error : Bool)
    → IsPrintable (write off len pattern fsync expect_error)
    → IsWord v
    → (list_eq v run_word || list_eq v fail_word) ≡ false
    → (list_eq v write_word || list_eq v write_fails_word) ≡ true
    → parse_line (join v (words_of (write off len pattern fsync expect_error)))
      ≡ ok (some (write off len pattern fsync (list_eq v write_fails_word)))
unfolding breaks is_space
parse_line-write v off len pattern fsync expect_error (h, k, name) word command verb =
    parse_line-words v (assign off_word (show_dec off))
      (assign len_word (show_dec len) ∷ assign pattern_word pattern ∷ flagged fsync) word
      (size-IsWord off_word off refl)
      (
        size-IsWord len_word len refl,
        (IsWord-assign pattern_word pattern refl name, AllWords-flagged fsync),
      )
      command
      (rw (read_args-placed off len pattern fsync expect_error)
        (step_of-write v off len pattern fsync h k verb))

-- Every step that the format can express (numbers that fit, names without blanks or comments, a
-- command without comments or blanks at its ends, sorted pairs with different keys) is read back by
-- `parse_line` from the line that it is printed as.
pub parse_line-show_step :
    (step : Step) → IsPrintable step → parse_line (show_step step) ≡ ok (some step)
unfolding breaks is_space read_args split_once insert step_of need get read_verb
parse_line-show_step (write off len pattern fsync true) h =
    parse_line-write write_fails_word off len pattern fsync true h (refl, refl) refl refl
parse_line-show_step (write off len pattern fsync false) h =
    parse_line-write write_word off len pattern fsync false h (refl, refl) refl refl
parse_line-show_step (expect off len pattern) (h, k, name) =
    parse_line-words expect_word (assign off_word (show_dec off))
      (assign len_word (show_dec len) ∷ assign pattern_word pattern ∷ []) (refl, refl)
      (size-IsWord off_word off refl)
      (size-IsWord len_word len refl, (IsWord-assign pattern_word pattern refl name, tt)) refl
      (step_of-expect off len pattern h k)
parse_line-show_step flush h = parse_line-flush
parse_line-show_step (crash mode) h =
    parse_line-words crash_word (assign mode_word mode) [] (refl, refl)
      (IsWord-assign mode_word mode refl h) tt refl refl
parse_line-show_step (set pairs) h = parse_line-set pairs h
parse_line-show_step (thaw answer) h =
    parse_line-words thaw_word (assign result_word answer) [] (refl, refl)
      (IsWord-assign result_word answer refl h) tt refl refl
parse_line-show_step (sleep ms) h =
    parse_line-words sleep_word (assign ms_word (show_dec ms)) [] (refl, refl)
      (size-IsWord ms_word ms refl) tt refl (step_of-sleep ms h)
parse_line-show_step (shell command true) (more, plain, left, right) =
    parse_line-rest run_word command (refl, refl) more plain left right ∙ rw (read_verb, more) refl
parse_line-show_step (shell command false) (more, plain, left, right) =
    parse_line-rest fail_word command (refl, refl) more plain left right ∙ rw (read_verb, more) refl
