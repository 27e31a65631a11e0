-- ===== src/Scenario/Size.antt =====
-- `parse_size` of ublkfault/src/scenario.rs: a decimal number with a suffix.
use ublkera.Base.{
  ℕ, ◌+◌, ◌-◌, ◌*◌, ◌^◌, ◌&&◌, ◌||◌, Option, some, none, List, [], ◌∷◌, ltb, leb, ◌==◌,
  if◌then◌else◌, u64,
}

-- A decimal digit.
unfoldable pub digit : ℕ → Option ℕ
digit c = if leb 48 c && leb c 57 then some (c - 48) else none

-- `str::parse::<u64>`, from some digits on: `none` past 2^64.
unfoldable pub parse_from : List ℕ → ℕ → Option ℕ
unfolding digit
parse_from [] n = some n
parse_from (c ∷ cs) n = elim (digit c) [
  | none ↦ none
  | some d ↦
      let rest = parse_from cs (n * 10 + d) in if ltb (n * 10 + d) (2 ^ 64) then rest else none
]

-- `str::parse::<u64>`: a plus sign may lead, and a digit must follow.
unfoldable pub parse_u64 : List ℕ → Option ℕ
unfolding parse_from
parse_u64 [] = none
parse_u64 (c ∷ []) = if c == 43 then none else parse_from (c ∷ []) 0
parse_u64 (c ∷ d ∷ cs) = if c == 43 then parse_from (d ∷ cs) 0 else parse_from (c ∷ d ∷ cs) 0

-- The multiplier of a last letter, if it is a suffix.
unfoldable pub suffix : ℕ → Option ℕ
suffix c =
    if c == 75 || c == 107
    then some (2 ^ 10)
    else if c == 77 || c == 109
    then some (2 ^ 20)
    else if c == 71 || c == 103
    then some (2 ^ 30)
    else none

-- A text without its last letter, and that letter.
unfoldable pub split_last : List ℕ → Option (List ℕ × ℕ)
split_last [] = none
split_last (c ∷ cs) = elim (split_last cs) [
  | none ↦ some ([], c)
  | some (front, last) ↦ some (c ∷ front, last)
]

abbrev pub scaled : ℕ → Option ℕ → Option ℕ
scaled m none = none
scaled m (some n) = some (u64 (n * m))

-- `parse_size`; the product wraps.
unfoldable pub parse_size : List ℕ → Option ℕ
unfolding parse_u64 suffix split_last
parse_size s = elim (split_last s) [
  | none ↦ scaled 1 (parse_u64 s)
  | some (front, last) ↦ elim (suffix last) [
    | none ↦ scaled 1 (parse_u64 s)
    | some m ↦ scaled m (parse_u64 front)
  ]
]
