-- ===== src/Injector/Words.antt =====
-- The words of the control requests of ublkfault/src/main.rs.
use ublkera.Base.{ℕ, List, [], ◌∷◌}

abbrev pub cmd_word : List ℕ
cmd_word = b'c' ∷ b'm' ∷ b'd' ∷ []

abbrev pub status_word : List ℕ
status_word = b's' ∷ b't' ∷ b'a' ∷ b't' ∷ b'u' ∷ b's' ∷ []

abbrev pub set_word : List ℕ
set_word = b's' ∷ b'e' ∷ b't' ∷ []

abbrev pub crash_word : List ℕ
crash_word = b'c' ∷ b'r' ∷ b'a' ∷ b's' ∷ b'h' ∷ []

abbrev pub thaw_word : List ℕ
thaw_word = b't' ∷ b'h' ∷ b'a' ∷ b'w' ∷ []

abbrev pub error_word : List ℕ
error_word = b'e' ∷ b'r' ∷ b'r' ∷ b'o' ∷ b'r' ∷ b'_' ∷ b'p' ∷ b'm' ∷ []

abbrev pub lie_word : List ℕ
lie_word = b'f' ∷ b'l' ∷ b'u' ∷ b's' ∷ b'h' ∷ b'_' ∷ b'l' ∷ b'i' ∷ b'e' ∷ b'_' ∷ b'p' ∷ b'm' ∷ []

abbrev pub hang_word : List ℕ
hang_word = b'h' ∷ b'a' ∷ b'n' ∷ b'g' ∷ b'_' ∷ b'p' ∷ b'm' ∷ []

abbrev pub mode_word : List ℕ
mode_word = b'm' ∷ b'o' ∷ b'd' ∷ b'e' ∷ []

abbrev pub drop_word : List ℕ
drop_word = b'd' ∷ b'r' ∷ b'o' ∷ b'p' ∷ []

abbrev pub seeded_word : List ℕ
seeded_word = b's' ∷ b'e' ∷ b'e' ∷ b'd' ∷ b'e' ∷ b'd' ∷ []

abbrev pub result_word : List ℕ
result_word = b'r' ∷ b'e' ∷ b's' ∷ b'u' ∷ b'l' ∷ b't' ∷ []

abbrev pub ok_word : List ℕ
ok_word = b'o' ∷ b'k' ∷ []

abbrev pub eio_word : List ℕ
eio_word = b'e' ∷ b'i' ∷ b'o' ∷ []
