-- ===== src/Crc/Detect.antt =====
-- What the checksum of src/era.rs detects.
use Prim.Native.Nat.{bit_xor}
use ublkera.Base.{
  ℕ, zero, suc, ◌/◌, ◌%◌, ◌^◌, ◌<◌, ◌≡◌, ◌≢◌, refl, sym, ap, ◌∙◌, List, [], ◌∷◌, ◌++◌, ◌==◌, Bool,
  true, ◌&&◌, not, get_or, length, arith, xor-lt, xor-shift, xor-mod, xor_comm, xor-zero,
  xor-injective,
}
use ublkera.Crc.{table, crc_byte, crc_part, crc_parts, crc32}

-- The bytes of a list are bytes.
abbrev pub IsBytes : List ℕ → Type 0
IsBytes [] = Unit
IsBytes (b ∷ bs) = (b < 256) × IsBytes bs

pub IsBytes-append : (xs ys : List ℕ) → IsBytes xs → IsBytes ys → IsBytes (xs ++ ys)
IsBytes-append [] ys hx hy = hy
IsBytes-append (x ∷ xs) ys hx hy = (hx.0, IsBytes-append xs ys hx.1 hy)

fresh_in : ℕ → List ℕ → Bool
fresh_in x [] = true
fresh_in x (y ∷ ys) = not (x / 2 ^ 24 == y / 2 ^ 24) && fresh_in x ys

-- The top bytes of a list of words are all different.
tops_differ : List ℕ → Bool
unfolding fresh_in
tops_differ [] = true
tops_differ (x ∷ xs) = fresh_in x xs && tops_differ xs

table-tops_differ : tops_differ table ≡ true
unfolding tops_differ table
table-tops_differ = refl

words : List ℕ → Bool
words [] = true
words (x ∷ xs) = x / 2 ^ 32 == 0 && words xs

table-words : words table ≡ true
unfolding words table
table-words = refl

length-table : length table ≡ 256
unfolding table
length-table = refl

fresh_in-ne :
    (x : ℕ) (ys : List ℕ) (j : ℕ)
    → fresh_in x ys ≡ true
    → j < length ys
    → x / 2 ^ 24 ≢ get_or ys j 0 / 2 ^ 24
unfolding fresh_in
fresh_in-ne x [] j h q = absurd (omega arith)
fresh_in-ne x (y ∷ ys) zero h q = ground arith
fresh_in-ne x (y ∷ ys) (suc j) h q = fresh_in-ne x ys j (ground arith) (omega arith)

-- In such a list the top byte tells the index.
tops_differ-injective :
    (xs : List ℕ) (i j : ℕ)
    → tops_differ xs ≡ true
    → i < length xs
    → j < length xs
    → get_or xs i 0 / 2 ^ 24 ≡ get_or xs j 0 / 2 ^ 24
    → i ≡ j
unfolding tops_differ
tops_differ-injective [] i j h p q e = absurd (omega arith)
tops_differ-injective (x ∷ xs) zero zero h p q e = refl
tops_differ-injective (x ∷ xs) zero (suc j) h p q e =
    absurd (fresh_in-ne x xs j (ground arith) (omega arith) e)
tops_differ-injective (x ∷ xs) (suc i) zero h p q e =
    absurd (fresh_in-ne x xs i (ground arith) (omega arith) (sym e))
tops_differ-injective (x ∷ xs) (suc i) (suc j) h p q e =
    ap suc (tops_differ-injective xs i j (ground arith) (omega arith) (omega arith) e)

words-lt : (xs : List ℕ) (i : ℕ) → words xs ≡ true → get_or xs i 0 < 2 ^ 32
unfolding words
words-lt [] i h = omega arith
words-lt (x ∷ xs) zero h = ground arith
words-lt (x ∷ xs) (suc i) h = words-lt xs i (ground arith)

abbrev index : (crc b : ℕ) → ℕ
index crc b = bit_xor crc b % 2 ^ 8

pub crc_byte-lt : (crc b : ℕ) → crc < 2 ^ 32 → crc_byte crc b < 2 ^ 32
unfolding crc_byte
crc_byte-lt crc b h =
    xor-lt 32 (get_or table (index crc b) 0) (crc / 2 ^ 8)
      (words-lt table (index crc b) table-words) (omega arith)

-- The top byte of the next value is that of the entry which was taken.
crc_byte-top :
    (crc b : ℕ) → crc < 2 ^ 32 → crc_byte crc b / 2 ^ 24 ≡ get_or table (index crc b) 0 / 2 ^ 24
unfolding crc_byte
crc_byte-top crc b h =
    let gone : crc / 2 ^ 8 / 2 ^ 24 ≡ 0 = omega arith in
    rw (xor-shift 24 (get_or table (index crc b) 0) (crc / 2 ^ 8), gone)
      (xor-zero (get_or table (index crc b) 0 / 2 ^ 24))

-- Two steps that meet took the same entry, from values that agree above the low byte.
crc_byte-meet :
    (x y b c : ℕ)
    → x < 2 ^ 32
    → y < 2 ^ 32
    → crc_byte x b ≡ crc_byte y c
    → (index x b ≡ index y c) × (x / 2 ^ 8 ≡ y / 2 ^ 8)
crc_byte-meet x y b c hx hy e = (same, rest)
  where
    tops : get_or table (index x b) 0 / 2 ^ 24 ≡ get_or table (index y c) 0 / 2 ^ 24
    tops = sym (crc_byte-top x b hx) ∙ ap (λ v. v / 2 ^ 24) e ∙ crc_byte-top y c hy

    same : index x b ≡ index y c
    same =
        tops_differ-injective table (index x b) (index y c) table-tops_differ
          (rw length-table (omega arith)) (rw length-table (omega arith)) tops

    rest : x / 2 ^ 8 ≡ y / 2 ^ 8
    rest =
        xor-injective (get_or table (index x b) 0) (x / 2 ^ 8) (y / 2 ^ 8)
          (unfold crc_byte in rw (← same) at e)

index-eq : (x b : ℕ) → b < 256 → index x b ≡ bit_xor (x % 2 ^ 8) b
index-eq x b h = let low : b % 2 ^ 8 ≡ b = omega arith in rw (xor-mod 8 x b, low)

-- On one byte the step is one to one in the checksum so far.
pub crc_byte-injective :
    (x y b : ℕ) → x < 2 ^ 32 → y < 2 ^ 32 → b < 256 → crc_byte x b ≡ crc_byte y b → x ≡ y
crc_byte-injective x y b hx hy hb e =
    let (same, rest) = crc_byte-meet x y b b hx hy e in
    let low : bit_xor b (x % 2 ^ 8) ≡ bit_xor b (y % 2 ^ 8) =
      xor_comm b (x % 2 ^ 8)
      ∙ sym (index-eq x b hb)
      ∙ same
      ∙ index-eq y b hb
      ∙ xor_comm (y % 2 ^ 8) b in
    omega (arith, rest, xor-injective b (x % 2 ^ 8) (y % 2 ^ 8) low)

-- From one checksum the step is one to one in the byte.
pub crc_byte-byte :
    (x b c : ℕ) → x < 2 ^ 32 → b < 256 → c < 256 → crc_byte x b ≡ crc_byte x c → b ≡ c
crc_byte-byte x b c hx hb hc e =
    let (same, rest) = crc_byte-meet x x b c hx hx e in
    xor-injective (x % 2 ^ 8) b c (sym (index-eq x b hb) ∙ same ∙ index-eq x c hc)

pub crc_part-lt : (bs : List ℕ) (crc : ℕ) → crc < 2 ^ 32 → crc_part crc bs < 2 ^ 32
unfolding crc_part
crc_part-lt [] crc h = h
crc_part-lt (b ∷ bs) crc h = crc_part-lt bs (crc_byte crc b) (crc_byte-lt crc b h)

crc_part-injective :
    (bs : List ℕ) (x y : ℕ)
    → IsBytes bs
    → x < 2 ^ 32
    → y < 2 ^ 32
    → crc_part x bs ≡ crc_part y bs
    → x ≡ y
unfolding crc_part
crc_part-injective [] x y h hx hy e = e
crc_part-injective (b ∷ bs) x y h hx hy e = crc_byte-injective x y b hx hy h.0 (
    crc_part-injective bs (crc_byte x b) (crc_byte y b) h.1 (crc_byte-lt x b hx)
      (crc_byte-lt y b hy) e)

pub crc_part-append :
    (xs ys : List ℕ) (crc : ℕ) → crc_part crc (xs ++ ys) ≡ crc_part (crc_part crc xs) ys
unfolding crc_part
crc_part-append [] ys crc = refl
crc_part-append (x ∷ xs) ys crc = crc_part-append xs ys (crc_byte crc x)

-- The checksum of two parts is that of their concatenation.
pub crc32-append : (xs ys : List ℕ) → crc32 (xs ∷ ys ∷ []) ≡ crc32 ((xs ++ ys) ∷ [])
unfolding crc32 crc_parts
crc32-append xs ys = ap (bit_xor 0xffff_ffff) (sym (crc_part-append xs ys 0xffff_ffff))

-- A checksum is a u32.
pub crc32-lt : (xs : List ℕ) → crc32 (xs ∷ []) < 2 ^ 32
unfolding crc32 crc_parts
crc32-lt xs =
    xor-lt 32 0xffff_ffff (crc_part 0xffff_ffff xs) (omega arith)
      (crc_part-lt xs 0xffff_ffff (omega arith))

-- The lists differ in exactly one place.
pub data OneOff : List ℕ → List ℕ → Type 0 where
  here : {b c : ℕ} {xs : List ℕ} → b ≢ c → OneOff (b ∷ xs) (c ∷ xs)
  there : {b : ℕ} {xs ys : List ℕ} → OneOff xs ys → OneOff (b ∷ xs) (b ∷ ys)

crc_part-ne :
    {xs ys : List ℕ} (crc : ℕ)
    → OneOff xs ys
    → IsBytes xs
    → IsBytes ys
    → crc < 2 ^ 32
    → crc_part crc xs ≢ crc_part crc ys
unfolding crc_part
crc_part-ne crc (here {b = b} {c = c} {xs = xs} ne) hx hy small e = ne (
    crc_byte-byte crc b c small hx.0 hy.0 (
      crc_part-injective xs (crc_byte crc b) (crc_byte crc c) hx.1 (crc_byte-lt crc b small)
        (crc_byte-lt crc c small) e))
crc_part-ne crc (there {b = b} off) hx hy small e =
    crc_part-ne (crc_byte crc b) off hx.1 hy.1 (crc_byte-lt crc b small) e

-- A change of one byte, anywhere, changes the checksum.
pub crc32-ne :
    {xs ys : List ℕ} → OneOff xs ys → IsBytes xs → IsBytes ys → crc32 (xs ∷ []) ≢ crc32 (ys ∷ [])
unfolding crc32 crc_parts
crc32-ne {xs} {ys} off hx hy e =
    crc_part-ne 0xffff_ffff off hx hy (omega arith)
      (xor-injective 0xffff_ffff (crc_part 0xffff_ffff xs) (crc_part 0xffff_ffff ys) e)
