-- ===== src/Scenario/Line/Verbs.antt =====
-- The words of the scenario format of ublkfault/src/scenario.rs.
use ublkera.Base.{ℕ, List, [], ◌∷◌}

abbrev pub write_word : List ℕ
write_word = b'w' ∷ b'r' ∷ b'i' ∷ b't' ∷ b'e' ∷ []

abbrev pub write_fails_word : List ℕ
write_fails_word = b'w' ∷ b'r' ∷ b'i' ∷ b't' ∷ b'e' ∷ b'-' ∷ b'f' ∷ b'a' ∷ b'i' ∷ b'l' ∷ b's' ∷ []

abbrev pub expect_word : List ℕ
expect_word = b'e' ∷ b'x' ∷ b'p' ∷ b'e' ∷ b'c' ∷ b't' ∷ []

abbrev pub flush_word : List ℕ
flush_word = b'f' ∷ b'l' ∷ b'u' ∷ b's' ∷ b'h' ∷ []

abbrev pub crash_word : List ℕ
crash_word = b'c' ∷ b'r' ∷ b'a' ∷ b's' ∷ b'h' ∷ []

abbrev pub set_word : List ℕ
set_word = b's' ∷ b'e' ∷ b't' ∷ []

abbrev pub thaw_word : List ℕ
thaw_word = b't' ∷ b'h' ∷ b'a' ∷ b'w' ∷ []

abbrev pub sleep_word : List ℕ
sleep_word = b's' ∷ b'l' ∷ b'e' ∷ b'e' ∷ b'p' ∷ []

abbrev pub run_word : List ℕ
run_word = b'r' ∷ b'u' ∷ b'n' ∷ []

abbrev pub fail_word : List ℕ
fail_word = b'f' ∷ b'a' ∷ b'i' ∷ b'l' ∷ []

abbrev pub off_word : List ℕ
off_word = b'o' ∷ b'f' ∷ b'f' ∷ []

abbrev pub len_word : List ℕ
len_word = b'l' ∷ b'e' ∷ b'n' ∷ []

abbrev pub pattern_word : List ℕ
pattern_word = b'p' ∷ b'a' ∷ b't' ∷ b't' ∷ b'e' ∷ b'r' ∷ b'n' ∷ []

abbrev pub fsync_word : List ℕ
fsync_word = b'f' ∷ b's' ∷ b'y' ∷ b'n' ∷ b'c' ∷ []

abbrev pub mode_word : List ℕ
mode_word = b'm' ∷ b'o' ∷ b'd' ∷ b'e' ∷ []

abbrev pub result_word : List ℕ
result_word = b'r' ∷ b'e' ∷ b's' ∷ b'u' ∷ b'l' ∷ b't' ∷ []

abbrev pub ms_word : List ℕ
ms_word = b'm' ∷ b's' ∷ []
