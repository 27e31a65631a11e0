-- ===== src/Scenario/Line/Printer.antt =====
-- Steps of a scenario printed as lines, and the steps that the format of
-- ublkfault/src/scenario.rs can express.
use ublkera.Base.{ℕ, Bool, true, false, none, List, [], ◌∷◌, ◌++◌, ◌||◌, ◌≡◌, ◌<◌, ◌^◌}
use ublkera.Scenario.{Step, write, expect, flush, crash, set, thaw, sleep, shell}
use ublkera.Scenario.Text.{is_hash, is_equals, is_empty, trim_start, trim_end, none_of}
use ublkera.Scenario.Text.Words.{breaks, join}
use ublkera.Scenario.Line.{Args, get, sort}
use ublkera.Scenario.Line.Verbs.{
  write_word, write_fails_word, expect_word, flush_word, crash_word, set_word, thaw_word,
  sleep_word, run_word, fail_word, off_word, len_word, pattern_word, fsync_word, mode_word,
  result_word, ms_word,
}
use ublkera.Scenario.Line.Decimal.{show_dec}

-- `key=value`
abbrev pub assign : (k v : List ℕ) → List ℕ
assign k v = k ++ b'=' ∷ v

abbrev pub flagged : Bool → List (List ℕ)
flagged true = fsync_word ∷ []
flagged false = []

-- The arguments of a set step, and their words.
abbrev pub shown_pairs : List (List ℕ × ℕ) → Args
shown_pairs [] = []
shown_pairs ((k, n) ∷ pairs) = (k, show_dec n) ∷ shown_pairs pairs

abbrev pub pair_words : Args → List (List ℕ)
pair_words [] = []
pair_words ((k, v) ∷ args) = assign k v ∷ pair_words args

abbrev pub verb_of : Step → List ℕ
verb_of (write off len pattern fsync true) = write_fails_word
verb_of (write off len pattern fsync false) = write_word
verb_of (expect off len pattern) = expect_word
verb_of flush = flush_word
verb_of (crash mode) = crash_word
verb_of (set pairs) = set_word
verb_of (thaw answer) = thaw_word
verb_of (sleep ms) = sleep_word
verb_of (shell command true) = run_word
verb_of (shell command false) = fail_word

abbrev pub words_of : Step → List (List ℕ)
words_of (write off len pattern fsync expect_error) =
    assign off_word (show_dec off)
    ∷ assign len_word (show_dec len)
    ∷ assign pattern_word pattern
    ∷ flagged fsync
words_of (expect off len pattern) =
    assign off_word (show_dec off)
    ∷ assign len_word (show_dec len)
    ∷ assign pattern_word pattern
    ∷ []
words_of flush = []
words_of (crash mode) = assign mode_word mode ∷ []
words_of (set pairs) = pair_words (shown_pairs pairs)
words_of (thaw answer) = assign result_word answer ∷ []
words_of (sleep ms) = assign ms_word (show_dec ms) ∷ []
words_of (shell command expect_ok) = command ∷ []

-- A step as a line.
abbrev pub show_step : Step → List ℕ
show_step step = join (verb_of step) (words_of step)

-- A name that may stand after `=`.
abbrev pub IsName : List ℕ → Type 0
IsName name = none_of breaks name ≡ true

abbrev pub key_breaks : ℕ → Bool
key_breaks c = breaks c || is_equals c

-- The pairs have keys without blanks, comments and equals signs, and numbers that fit, and no key
-- is there twice or among those of `seen`.
abbrev pub ArePairs : (seen : Args) → List (List ℕ × ℕ) → Type 0
ArePairs seen [] = Unit
ArePairs seen ((k, n) ∷ pairs) =
    (none_of key_breaks k ≡ true)
    × (n < 2 ^ 64)
    × (get k seen ≡ none)
    × ArePairs (seen ++ (k, show_dec n) ∷ []) pairs

-- The steps that the format can express.
abbrev pub IsPrintable : Step → Type 0
IsPrintable (write off len pattern fsync expect_error) =
    (off < 2 ^ 64) × (len < 2 ^ 64) × IsName pattern
IsPrintable (expect off len pattern) = (off < 2 ^ 64) × (len < 2 ^ 64) × IsName pattern
IsPrintable flush = Unit
IsPrintable (crash mode) = IsName mode
IsPrintable (set pairs) = (is_empty pairs ≡ false) × ArePairs [] pairs × (sort pairs ≡ pairs)
IsPrintable (thaw answer) = IsName answer
IsPrintable (sleep ms) = ms < 2 ^ 64
IsPrintable (shell command expect_ok) =
    (is_empty command ≡ false)
    × (none_of is_hash command ≡ true)
    × (trim_start command ≡ command)
    × (trim_end command ≡ command)
