-- ===== src/Scenario/Line/Pieces.antt =====
-- `parse_line` of ublkfault/src/scenario.rs on a line of words, piece by piece.
use ublkera.Base.{
  ℕ, Bool, true, false, some, List, [], ◌∷◌, ◌++◌, ◌||◌, ◌≡◌, ◌<◌, ◌^◌, refl, ap, ◌∙◌, list_eq, ok,
}
use ublkera.Scenario.{Step, write, expect, flush}
use ublkera.Scenario.Text.{
  is_space, is_hash, is_empty, before, split_once, trim, trim_start, trim_end, none_of,
}
use ublkera.Scenario.Text.Words.{
  breaks, IsWord, AllWords, join, trim_end-join, trim_start-join, join-is_empty, none_of-join,
  not_hash, split_whitespace-join, before-none_of, split_once-append, none_of-append,
  none_of-breaks_space, none_of-breaks_hash, append-is_empty, trim_end-append, trim_start-word,
}
use ublkera.Scenario.Line.{
  Args, get, read_args, need, need_size, step_of, split_verb, read_verb, read_line, parse_line,
  contains,
}
use ublkera.Scenario.Line.Verbs.{
  write_word, write_fails_word, expect_word, flush_word, run_word, fail_word, off_word, len_word,
  pattern_word,
}
use ublkera.Scenario.Line.Decimal.{show_dec, show_dec-breaks, parse_size-show_dec}
use ublkera.Scenario.Line.Printer.{assign, flagged}

-- What `parse_line` does with a line: each piece of it, one after the other.
pub parse_line-rest :
    (v rest : List ℕ)
    → IsWord v
    → is_empty rest ≡ false
    → none_of is_hash rest ≡ true
    → trim_start rest ≡ rest
    → trim_end rest ≡ rest
    → parse_line (v ++ b' ' ∷ rest) ≡ read_verb v rest
unfolding parse_line read_line split_verb trim split_once
parse_line-rest v rest h more plain left right =
    let line : List ℕ = v ++ b' ' ∷ rest in
    let blank : none_of is_space v ≡ true = none_of-breaks_space v h.1 in
    let uncut : before is_hash line ≡ line =
      before-none_of is_hash line
        (none_of-append is_hash v (b' ' ∷ rest) (none_of-breaks_hash v h.1) plain) in
    let front : trim_start line ≡ line = trim_start-word v (b' ' ∷ rest) h.0 blank in
    let back : trim_end line ≡ line =
      trim_end-append v (b' ' ∷ rest) refl (trim_end-append (b' ' ∷ []) rest more right) in
    let split : split_once is_space line ≡ some (v, rest) =
      split_once-append is_space b' ' v rest blank refl in
    let some_text : is_empty line ≡ false = append-is_empty v (b' ' ∷ rest) h.0 in
    ap (λ x. read_line (trim_end (trim_start x))) uncut
    ∙ (ap (λ x. read_line (trim_end x)) front
        ∙ (ap read_line back
            ∙ rw (read_line, some_text, split_verb, split)
                (ap (λ x. read_verb v (trim_end x)) left ∙ ap (read_verb v) right)))

pub parse_line-words :
    (v w : List ℕ) (ws : List (List ℕ)) {step : Step}
    → IsWord v
    → IsWord w
    → AllWords ws
    → (list_eq v run_word || list_eq v fail_word) ≡ false
    → step_of v (read_args [] [] (w ∷ ws)).0 (read_args [] [] (w ∷ ws)).1 ≡ ok step
    → parse_line (join v (w ∷ ws)) ≡ ok (some step)
unfolding read_verb
parse_line-words v w ws h k t verb read =
    parse_line-rest v (join w ws) h (join-is_empty w ws k)
      (none_of-join is_hash w ws not_hash refl k t) (trim_start-join w ws k)
      (trim_end-join w ws k t)
    ∙ rw (read_verb, verb, split_whitespace-join w ws k t, read) refl

pub parse_line-flush : parse_line flush_word ≡ ok (some flush)
unfolding parse_line read_line split_verb trim split_once read_verb read_args step_of
parse_line-flush = refl

pub IsWord-assign :
    (k v : List ℕ) → none_of breaks k ≡ true → none_of breaks v ≡ true → IsWord (assign k v)
unfolding breaks is_space
IsWord-assign [] v h t = (refl, t)
IsWord-assign (c ∷ cs) v h t = (refl, none_of-append breaks (c ∷ cs) (b'=' ∷ v) h t)

pub AllWords-flagged : (fsync : Bool) → AllWords (flagged fsync)
unfolding breaks is_space
AllWords-flagged true = ((refl, refl), tt)
AllWords-flagged false = tt

pub size-IsWord : (k : List ℕ) (n : ℕ) → none_of breaks k ≡ true → IsWord (assign k (show_dec n))
size-IsWord k n h = IsWord-assign k (show_dec n) h (show_dec-breaks n)

-- The three arguments of a write and of an expect step.
abbrev pub placed : (off len : ℕ) (pattern : List ℕ) → Args
placed off len pattern =
    (off_word, show_dec off) ∷ (len_word, show_dec len) ∷ (pattern_word, pattern) ∷ []

pub step_of-write :
    (v : List ℕ) (off len : ℕ) (pattern : List ℕ) (fsync : Bool)
    → off < 2 ^ 64
    → len < 2 ^ 64
    → (list_eq v write_word || list_eq v write_fails_word) ≡ true
    → step_of v (placed off len pattern) (flagged fsync)
      ≡ ok (write off len pattern fsync (list_eq v write_fails_word))
unfolding step_of need_size need get contains
step_of-write v off len pattern true h k verb =
    rw (step_of, verb, need_size, parse_size-show_dec off h, parse_size-show_dec len k) refl
step_of-write v off len pattern false h k verb =
    rw (step_of, verb, need_size, parse_size-show_dec off h, parse_size-show_dec len k) refl

pub step_of-expect :
    (off len : ℕ) (pattern : List ℕ)
    → off < 2 ^ 64
    → len < 2 ^ 64
    → step_of expect_word (placed off len pattern) [] ≡ ok (expect off len pattern)
unfolding step_of need_size need get
step_of-expect off len pattern h k =
    rw (step_of, need_size, parse_size-show_dec off h, parse_size-show_dec len k) refl
