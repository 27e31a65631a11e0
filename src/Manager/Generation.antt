-- ===== src/Manager/Generation.antt =====
-- The generation of a cursor in src/manager.rs: `u64::from_str_radix(g, 16)` on the bytes of the
-- text, and the format `{:016x}` that prints one.
use ublkera.Base.{
  div-eq, ℕ, zero, suc, ◌+◌, ◌-◌, ◌*◌, ◌/◌, ◌%◌, ◌^◌, ◌≤◌, ◌<◌, ◌≡◌, Option, some, none, List, [],
  ◌∷◌, ltb, leb, ◌==◌, ◌&&◌, if◌then◌else◌, arith, ap, ◌∙◌, sym, lt→ltb, div-bounds,
}

-- The value of a hexadecimal digit.
unfoldable pub digit : ℕ → Option ℕ
digit c =
    if leb 48 c && leb c 57
    then some (c - 48)
    else if leb 97 c && leb c 102
    then some (c - 87)
    else if leb 65 c && leb c 70
    then some (c - 55)
    else none

-- The value with one more digit; `none` past a u64.
unfoldable pub push_digit : Option ℕ → ℕ → Option ℕ
push_digit none acc = none
push_digit (some d) acc = if ltb (acc * 16 + d) (2 ^ 64) then some (acc * 16 + d) else none

abbrev pub or_none : Option ℕ → (ℕ → Option ℕ) → Option ℕ
or_none none f = none
or_none (some a) f = f a

unfoldable pub parse_digits : List ℕ → ℕ → Option ℕ
unfolding digit push_digit
parse_digits [] acc = some acc
parse_digits (c ∷ cs) acc = or_none (push_digit (digit c) acc) (parse_digits cs)

-- `u64::from_str_radix(g, 16)`: a plus sign may lead, and a digit must follow.
unfoldable pub parse_hex : List ℕ → Option ℕ
unfolding parse_digits
parse_hex [] = none
parse_hex (c ∷ []) = if c == 43 then none else parse_digits (c ∷ []) 0
parse_hex (c ∷ d ∷ cs) = if c == 43 then parse_digits (d ∷ cs) 0 else parse_digits (c ∷ d ∷ cs) 0

pub hex_digit : ℕ → ℕ
hex_digit v = if ltb v 10 then v + 48 else v + 87

-- The last `n` digits of a number.
pub hex_digits : ℕ → ℕ → List ℕ
unfolding hex_digit
hex_digits zero g = []
hex_digits (suc n) g = hex_digit (g / 16 ^ n % 16) ∷ hex_digits n g

-- `{:016x}`
pub show_hex : ℕ → List ℕ
unfolding hex_digits
show_hex g = hex_digits 16 g

digit-hex_digit : (v : ℕ) → v < 16 → digit (hex_digit v) ≡ some v
unfolding digit hex_digit
digit-hex_digit v h = ground arith

pow_16-pos : (n : ℕ) → 0 < 16 ^ n
pow_16-pos zero = omega arith
pow_16-pos (suc n) = omega (arith, pow_16-pos n)

scale : (p acc d r : ℕ) → (acc * 16 + d) * p + r ≡ acc * (16 * p) + (d * p + r)
scale p acc d r = grind arith

mod_split : (p g : ℕ) → 0 < p → g % (16 * p) ≡ g / p % 16 * p + g % p
mod_split p g h =
    let q : ℕ = g / p in
    let tens : ℕ = q / 16 in
    let parts : g ≡ q * p + g % p = grind (arith, div-bounds p g h) in
    let low : g % p < p = grind (arith, div-bounds p g h) in
    let again : q ≡ tens * 16 + q % 16 = omega arith in
    let nibble : q % 16 * p + p ≤ 16 * p = grind arith in
    let whole : q * p ≡ tens * (16 * p) + q % 16 * p =
      ap (λ x. x * p) again ∙ omega (arith, scale p tens (q % 16) 0) in
    let top : g / (16 * p) ≡ tens = div-eq (16 * p) tens g (omega arith) (omega arith) in
    let rest : g ≡ g / (16 * p) * (16 * p) + g % (16 * p) = grind (arith, div-bounds (16 * p) g) in
    let same : g ≡ tens * (16 * p) + g % (16 * p) = grind arith in omega arith

small_of : (p x r : ℕ) → 0 < p → x * p + r < 2 ^ 64 → x < 2 ^ 64
small_of p x r pos h = grind arith

parse_digits-hex_digits :
    (n g acc : ℕ)
    → acc * 16 ^ n + g % 16 ^ n < 2 ^ 64
    → parse_digits (hex_digits n g) acc ≡ some (acc * 16 ^ n + g % 16 ^ n)
unfolding parse_digits hex_digits push_digit
parse_digits-hex_digits zero g acc h = ap some (omega arith)
parse_digits-hex_digits (suc n) g acc h =
    let p : ℕ = 16 ^ n in
    let d : ℕ = g / p % 16 in
    let pos : 0 < p = pow_16-pos n in
    let pow : 16 * p ≡ 16 ^ suc n = omega arith in
    let value : (acc * 16 + d) * p + g % p ≡ acc * 16 ^ suc n + g % 16 ^ suc n =
      (scale p acc d (g % p)
        ∙ ap (λ x. acc * (16 * p) + x) (sym (mod_split p g pos))
        ∙ ap (λ z. acc * z + g % z) pow) in
    let small : acc * 16 + d < 2 ^ 64 =
      small_of p (acc * 16 + d) (g % p) pos (omega (arith, value)) in
    rw (digit-hex_digit d (omega arith), lt→ltb _ _ small)
      (parse_digits-hex_digits n g (acc * 16 + d) (omega (arith, value)) ∙ ap some value)

parse_hex-digits :
    (v : ℕ) (d : ℕ) (cs : List ℕ)
    → v < 16
    → parse_hex (hex_digit v ∷ d ∷ cs) ≡ parse_digits (hex_digit v ∷ d ∷ cs) 0
unfolding parse_hex hex_digit
parse_hex-digits v d cs h = ground arith

parse_hex-hex_digits :
    (n g : ℕ) → parse_hex (hex_digits (suc (suc n)) g) ≡ parse_digits (hex_digits (suc (suc n)) g) 0
unfolding hex_digits
parse_hex-hex_digits n g =
    parse_hex-digits (g / 16 ^ suc n % 16) (hex_digit (g / 16 ^ n % 16)) (hex_digits n g)
      (omega arith)

-- The generation that a report prints, if it is a u64, reads back as the same number.
pub parse_hex-show_hex : (g : ℕ) → g < 2 ^ 64 → parse_hex (show_hex g) ≡ some g
unfolding show_hex
parse_hex-show_hex g h =
    parse_hex-hex_digits 14 g
    ∙ (parse_digits-hex_digits 16 g 0 (omega arith) ∙ ap some (omega arith))
