-- ===== src/Scenario/Line/Decimal.antt =====
-- Decimal numbers, printed and read by `parse_u64` and `parse_size` of ublkfault/src/scenario.rs.
use ublkera.Base.{
  ℕ, zero, suc, ◌+◌, ◌*◌, ◌/◌, ◌%◌, ◌^◌, ◌≤◌, ◌<◌, ◌≡◌, refl, ap, ◌∙◌, Bool, true, false, not, ◌&&◌,
  some, none, List, [], ◌∷◌, leb, ltb, arith, Bool-cases, inl, inr, lt→ltb,
}
use ublkera.Scenario.Size.{digit, parse_from, parse_u64, suffix, split_last, parse_size}
use ublkera.Scenario.Text.{is_space, is_empty, none_of}
use ublkera.Scenario.Text.Words.{breaks}

-- The digits of a number before a text; the fuel bounds their count.
unfoldable pub show_onto : (fuel n : ℕ) → List ℕ → List ℕ
show_onto zero n acc = acc
show_onto (suc fuel) n acc = elim (ltb n 10) [
  | true ↦ (48 + n % 10) ∷ acc
  | false ↦ show_onto fuel (n / 10) ((48 + n % 10) ∷ acc)
]

-- A u64 has at most 20 digits.
unfoldable pub show_dec : ℕ → List ℕ
unfolding show_onto
show_dec n = show_onto 20 n []

digit-add : (v : ℕ) → v < 10 → digit (48 + v) ≡ some v
unfolding digit
digit-add v h = ground arith

parse_from-cons :
    (v m : ℕ) (cs : List ℕ)
    → v < 10
    → m * 10 + v < 2 ^ 64
    → parse_from ((48 + v) ∷ cs) m ≡ parse_from cs (m * 10 + v)
unfolding parse_from
parse_from-cons v m cs h small =
    rw (parse_from, digit-add v h, lt→ltb (m * 10 + v) (2 ^ 64) small) refl

parse_from-show_onto :
    (fuel n : ℕ) (acc : List ℕ)
    → n < 10 ^ fuel
    → n < 2 ^ 64
    → 0 < fuel
    → parse_from (show_onto fuel n acc) 0 ≡ parse_from acc n
unfolding show_onto
parse_from-show_onto zero n acc bound small pos = absurd (omega arith)
parse_from-show_onto (suc fuel) n acc bound small pos = elim (Bool-cases (ltb n 10)) [
  | inl last ↦
      let tiny : n < 10 = ground arith in
      rw (show_onto, last)
        (parse_from-cons (n % 10) 0 acc (omega arith) (omega arith)
          ∙ ap (parse_from acc) (omega (arith, tiny)))
  | inr more ↦
      let big : 10 ≤ n = ground arith in
      let bound' : n / 10 < 10 ^ fuel = omega (arith, bound) in
      rw (show_onto, more)
        (parse_from-show_onto fuel (n / 10) ((48 + n % 10) ∷ acc) bound' (omega (arith, small))
            (positive fuel (n / 10) bound' (omega (arith, big)))
          ∙ (parse_from-cons (n % 10) (n / 10) acc (omega arith) (omega (arith, small))
              ∙ ap (parse_from acc) (omega arith)))
]
  where
    positive : (fuel n : ℕ) → n < 10 ^ fuel → 0 < n → 0 < fuel
    positive zero n h k = absurd (omega (arith, h, k))
    positive (suc fuel) n h k = omega arith

-- Digits, and nothing else.
abbrev pub not_digit : ℕ → Bool
not_digit c = not (leb 48 c && leb c 57)

show_onto-none_of :
    (p : ℕ → Bool) (fuel n : ℕ) (acc : List ℕ)
    → ((v : ℕ) → v < 10 → p (48 + v) ≡ false)
    → none_of p acc ≡ true
    → none_of p (show_onto fuel n acc) ≡ true
unfolding show_onto
show_onto-none_of p zero n acc h k = k
show_onto-none_of p (suc fuel) n acc h k =
    let more : none_of p ((48 + n % 10) ∷ acc) ≡ true = rw (h (n % 10) (omega arith), k) refl in
    elim (Bool-cases (ltb n 10)) [
      | inl last ↦ rw (show_onto, last) more
      | inr next ↦
          rw (show_onto, next) (show_onto-none_of p fuel (n / 10) ((48 + n % 10) ∷ acc) h more)
    ]

show_onto-is_empty :
    (fuel n : ℕ) (acc : List ℕ) → is_empty acc ≡ false → is_empty (show_onto fuel n acc) ≡ false
unfolding show_onto
show_onto-is_empty zero n acc h = h
show_onto-is_empty (suc fuel) n acc h = elim (Bool-cases (ltb n 10)) [
  | inl last ↦ rw (show_onto, last) refl
  | inr next ↦ rw (show_onto, next) (show_onto-is_empty fuel (n / 10) ((48 + n % 10) ∷ acc) refl)
]

pub show_dec-is_empty : (n : ℕ) → is_empty (show_dec n) ≡ false
unfolding show_dec show_onto
show_dec-is_empty n = elim (Bool-cases (ltb n 10)) [
  | inl last ↦ rw (show_dec, show_onto, last) refl
  | inr next ↦
      rw (show_dec, show_onto, next) (show_onto-is_empty 19 (n / 10) ((48 + n % 10) ∷ []) refl)
]

pub show_dec-none_of :
    (p : ℕ → Bool) (n : ℕ) → ((v : ℕ) → v < 10 → p (48 + v) ≡ false) → none_of p (show_dec n) ≡ true
unfolding show_dec
show_dec-none_of p n h = show_onto-none_of p 20 n [] h refl

-- A printed number is no end of a word.
pub show_dec-breaks : (n : ℕ) → none_of breaks (show_dec n) ≡ true
unfolding breaks is_space
show_dec-breaks n = show_dec-none_of breaks n (λ v h. ground arith)

parse_u64-digits :
    (cs : List ℕ)
    → is_empty cs ≡ false
    → none_of not_digit cs ≡ true
    → parse_u64 cs ≡ parse_from cs 0
unfolding parse_u64
parse_u64-digits [] more h = cc
parse_u64-digits (c ∷ []) more h = ground arith
parse_u64-digits (c ∷ d ∷ cs) more h = ground arith

-- A number that fits is read back from its digits.
pub parse_u64-show_dec : (n : ℕ) → n < 2 ^ 64 → parse_u64 (show_dec n) ≡ some n
unfolding show_dec parse_from
parse_u64-show_dec n h =
    parse_u64-digits (show_dec n) (show_dec-is_empty n)
      (show_dec-none_of not_digit n (λ v k. ground arith))
    ∙ parse_from-show_onto 20 n [] (omega (arith, h)) h (omega arith)

suffix-digit : (c : ℕ) → not_digit c ≡ false → suffix c ≡ none
unfolding suffix
suffix-digit c h = ground arith

split_last-none_of :
    (p : ℕ → Bool) (cs : List ℕ)
    → is_empty cs ≡ false
    → none_of p cs ≡ true
    → (front : List ℕ) × (last : ℕ) × (split_last cs ≡ some (front, last)) × (p last ≡ false)
unfolding split_last
split_last-none_of p [] more h = cc
split_last-none_of p (c ∷ []) more h = ([], c, refl, ground arith)
split_last-none_of p (c ∷ d ∷ cs) more h =
    let (front, last, run, fine) = split_last-none_of p (d ∷ cs) refl (ground arith) in
    (c ∷ front, last, rw (split_last, run) refl, fine)

pub parse_size-show_dec : (n : ℕ) → n < 2 ^ 64 → parse_size (show_dec n) ≡ some n
unfolding parse_size
parse_size-show_dec n h =
    let (front, last, run, fine) =
      split_last-none_of not_digit (show_dec n) (show_dec-is_empty n)
        (show_dec-none_of not_digit n (λ v k. ground arith)) in
    rw (parse_size, run, suffix-digit last fine, parse_u64-show_dec n h)
      (ap some (omega (arith, h)))
