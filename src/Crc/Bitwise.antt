-- ===== src/Crc/Bitwise.antt =====
-- The table-driven loop of src/era.rs against the bit-by-bit definition of the CRC.
use Prim.Native.Nat.{bit_xor}
use native.Mathlib.Nat.{pow-succ'}
use ublkera.Base.{
  ℕ, zero, suc, ◌+◌, ◌*◌, ◌/◌, ◌%◌, ◌^◌, ◌<◌, ◌≡◌, refl, sym, ap, ap₂, ◌∙◌, List, [], ◌∷◌, get_or,
  arith, xor_step, xor_comm, xor_assoc, xor_cancel, xor-div2, xor-shift, xor-zero, zero-xor,
}
use mathlib.Core.Path.{◌≡⟨◌⟩◌, ◌∎}
use ublkera.Crc.Detect.{IsBytes}
use ublkera.Crc.{crc_bit, crc_bits, build, table, crc_byte, crc_part}

-- The definition without a table: each byte is mixed in whole, then eight rounds follow.
pub crc_reference : ℕ → List ℕ → ℕ
crc_reference crc [] = crc
crc_reference crc (b ∷ bs) = crc_reference (crc_bits 8 (bit_xor crc b)) bs

abbrev poly : ℕ
poly = 0xedb8_8320

xor_swap : (a b c : ℕ) → bit_xor a (bit_xor b c) ≡ bit_xor b (bit_xor a c)
xor_swap a b c = sym (xor_assoc a b c) ∙ ap (λ v. bit_xor v c) (xor_comm a b) ∙ xor_assoc b a c

-- A round is linear.
crc_bit-xor : (a b : ℕ) → crc_bit (bit_xor a b) ≡ bit_xor (crc_bit a) (crc_bit b)
unfolding crc_bit
crc_bit-xor a b = ground (
  arith,
  xor_step a b,
  xor-div2 a b,
  xor_assoc poly (a / 2) (b / 2),
  xor_swap poly (a / 2) (b / 2),
  xor_assoc poly (a / 2) (bit_xor poly (b / 2)),
  xor_swap (a / 2) poly (b / 2),
  xor_cancel poly (bit_xor (a / 2) (b / 2)),
)

crc_bits-xor : (n a b : ℕ) → crc_bits n (bit_xor a b) ≡ bit_xor (crc_bits n a) (crc_bits n b)
unfolding crc_bits
crc_bits-xor zero a b = refl
crc_bits-xor (suc n) a b = rw (crc_bit-xor a b) (crc_bits-xor n (crc_bit a) (crc_bit b))

-- Rounds only shift zeros out.
crc_bits-zeros : (n y : ℕ) → crc_bits n (y * 2 ^ n) ≡ y
unfolding crc_bits crc_bit
crc_bits-zeros zero y = omega arith
crc_bits-zeros (suc n) y =
    let split : y * 2 ^ suc n ≡ 2 * (y * 2 ^ n) = rw (pow-succ' 2 n) (omega arith) in
    rw split (ground (arith, crc_bits-zeros n y))

xor_fields : (k q r : ℕ) → r < 2 ^ k → bit_xor r (q * 2 ^ k) ≡ q * 2 ^ k + r
xor_fields zero q r h =
    let none_left : r ≡ 0 = omega arith in rw none_left (omega (arith, zero-xor (q * 2 ^ 0)))
xor_fields (suc k) q r h =
    let split : q * 2 ^ suc k ≡ 2 * (q * 2 ^ k) = rw (pow-succ' 2 k) (omega arith) in
    let half : q * 2 ^ suc k / 2 ≡ q * 2 ^ k = omega (arith, split) in
    let rest : bit_xor (r / 2) (q * 2 ^ suc k / 2) ≡ q * 2 ^ k + r / 2 =
      rw half (xor_fields k q (r / 2) (omega (arith, pow-succ' 2 k))) in
    omega (arith, xor_step r (q * 2 ^ suc k), rest, split)

get_or-build : (n i j : ℕ) → j < n → get_or (build n i) j 0 ≡ crc_bits 8 (i + j)
unfolding build
get_or-build zero i j h = absurd (omega arith)
get_or-build (suc n) i zero h = ap (crc_bits 8) (omega arith)
get_or-build (suc n) i (suc j) h =
    get_or-build n (i + 1) j (omega arith) ∙ ap (crc_bits 8) (omega arith)

get_or-table : (j : ℕ) → j < 256 → get_or table j 0 ≡ crc_bits 8 j
unfolding table
get_or-table j h = get_or-build 256 0 j h ∙ ap (crc_bits 8) (omega arith)

-- Eight rounds are one lookup by the low byte.
crc_bits-eight : (x : ℕ) → crc_bits 8 x ≡ bit_xor (get_or table (x % 2 ^ 8) 0) (x / 2 ^ 8)
crc_bits-eight x =
    crc_bits 8 x
    ≡⟨ ap (crc_bits 8) (omega (arith, xor_fields 8 (x / 2 ^ 8) (x % 2 ^ 8) (omega arith))) ⟩
      crc_bits 8 (bit_xor (x % 2 ^ 8) (x / 2 ^ 8 * 2 ^ 8))
    ≡⟨ crc_bits-xor 8 (x % 2 ^ 8) (x / 2 ^ 8 * 2 ^ 8) ⟩
      bit_xor (crc_bits 8 (x % 2 ^ 8)) (crc_bits 8 (x / 2 ^ 8 * 2 ^ 8))
    ≡⟨ ap₂ bit_xor (sym (get_or-table (x % 2 ^ 8) (omega arith))) (crc_bits-zeros 8 (x / 2 ^ 8)) ⟩
      bit_xor (get_or table (x % 2 ^ 8) 0) (x / 2 ^ 8) ∎

crc_byte-eq : (crc b : ℕ) → b < 256 → crc_byte crc b ≡ crc_bits 8 (bit_xor crc b)
unfolding crc_byte
crc_byte-eq crc b h =
    let gone : b / 2 ^ 8 ≡ 0 = omega arith in
    let shifted : bit_xor crc b / 2 ^ 8 ≡ crc / 2 ^ 8 =
      rw (xor-shift 8 crc b, gone) (xor-zero (crc / 2 ^ 8)) in
    rw (crc_bits-eight (bit_xor crc b), shifted)

-- The table-driven loop computes the bit-by-bit definition, on any bytes.
pub crc_part-reference :
    (bs : List ℕ) (crc : ℕ) → IsBytes bs → crc_part crc bs ≡ crc_reference crc bs
unfolding crc_part crc_reference
crc_part-reference [] crc h = refl
crc_part-reference (b ∷ bs) crc h =
    rw (crc_byte-eq crc b h.0) (crc_part-reference bs (crc_bits 8 (bit_xor crc b)) h.1)
