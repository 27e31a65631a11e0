-- ===== src/Scenario/Text.antt =====
-- The `str` methods that ublkfault/src/scenario.rs reads its lines with, on ASCII texts.
pub mod Words
pub mod Lines
use ublkera.Base.{
  ℕ, Bool, true, false, not, Option, some, none, List, [], ◌∷◌, ◌++◌, ◌||◌, ◌&&◌, leb, ◌==◌,
}

-- `char::is_whitespace`
unfoldable pub is_space : ℕ → Bool
is_space c = leb 9 c && leb c 13 || c == b' '

abbrev pub is_hash : ℕ → Bool
is_hash c = c == b'#'

abbrev pub is_equals : ℕ → Bool
is_equals c = c == b'='

abbrev pub is_newline : ℕ → Bool
is_newline c = c == b'\n'

-- `is_empty`
abbrev pub is_empty {ℓ} : {A : Type ℓ} → List A → Bool
is_empty [] = true
is_empty (x ∷ xs) = false

-- `split(c).next()`
unfoldable pub before : (ℕ → Bool) → List ℕ → List ℕ
before p [] = []
before p (c ∷ cs) = elim (p c) [ true ↦ [] | false ↦ c ∷ before p cs ]

-- `split_once`
unfoldable pub split_once : (ℕ → Bool) → List ℕ → Option (List ℕ × List ℕ)
split_once p [] = none
split_once p (c ∷ cs) = elim (p c) [
  | true ↦ some ([], cs)
  | false ↦ elim (split_once p cs) [ none ↦ none | some (front, back) ↦ some (c ∷ front, back) ]
]

unfoldable pub trim_start : List ℕ → List ℕ
unfolding is_space
trim_start [] = []
trim_start (c ∷ cs) = elim (is_space c) [ true ↦ trim_start cs | false ↦ c ∷ cs ]

-- A byte before a text that is trimmed at its end.
abbrev pub trimmed : ℕ → List ℕ → List ℕ
trimmed c [] = elim (is_space c) [ true ↦ [] | false ↦ c ∷ [] ]
trimmed c (d ∷ cs) = c ∷ d ∷ cs

unfoldable pub trim_end : List ℕ → List ℕ
unfolding is_space
trim_end [] = []
trim_end (c ∷ cs) = trimmed c (trim_end cs)

-- `trim`
unfoldable pub trim : List ℕ → List ℕ
unfolding trim_start trim_end
trim s = trim_end (trim_start s)

-- A word, unless it is empty, before others.
abbrev pub push_word : List ℕ → List (List ℕ) → List (List ℕ)
push_word [] words = words
push_word (c ∷ cs) words = (c ∷ cs) ∷ words

-- `split_whitespace`, with the bytes of the word that is being read.
unfoldable pub split_from : List ℕ → List ℕ → List (List ℕ)
unfolding is_space
split_from word [] = push_word word []
split_from word (c ∷ cs) = elim (is_space c) [
  | true ↦ push_word word (split_from [] cs)
  | false ↦ split_from (word ++ c ∷ []) cs
]

unfoldable pub split_whitespace : List ℕ → List (List ℕ)
unfolding split_from
split_whitespace s = split_from [] s

abbrev pub push_byte : ℕ → List (List ℕ) → List (List ℕ)
push_byte c [] = (c ∷ []) ∷ []
push_byte c (line ∷ lines) = (c ∷ line) ∷ lines

abbrev pub starts_newline : List ℕ → Bool
starts_newline [] = false
starts_newline (c ∷ cs) = is_newline c

-- `lines`: a line ends with a newline, or a carriage return and a newline, or with the text.
unfoldable pub lines : List ℕ → List (List ℕ)
lines [] = []
lines (c ∷ cs) =
    let rest = lines cs in
    elim (is_newline c) [
      | true ↦ [] ∷ rest
      | false ↦ elim (c == b'\r' && starts_newline cs) [ true ↦ rest | false ↦ push_byte c rest ]
    ]

-- No byte of a text is one of these.
abbrev pub none_of : (ℕ → Bool) → List ℕ → Bool
none_of p [] = true
none_of p (c ∷ cs) = not (p c) && none_of p cs
