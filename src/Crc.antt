-- ===== src/Crc.antt =====
-- `crc32` of src/era.rs: the table and the loop over the parts. `x & 0xFF` is `x % 2 ^ 8`,
-- `x >> k` is `x / 2 ^ k`, and `!x` is an exclusive or with 32 ones.
pub mod Detect
pub mod Bitwise
use Prim.Native.Nat.{bit_xor}
use ublkera.Base.{ℕ, zero, suc, ◌+◌, ◌/◌, ◌%◌, ◌^◌, List, [], ◌∷◌, ◌==◌, if◌then◌else◌, get_or}

-- One round of the inner loop for a table entry.
unfoldable pub crc_bit : ℕ → ℕ
crc_bit c = if c % 2 == 0 then c / 2 else bit_xor 0xedb8_8320 (c / 2)

unfoldable pub crc_bits : ℕ → ℕ → ℕ
unfolding crc_bit
crc_bits zero c = c
crc_bits (suc n) c = crc_bits n (crc_bit c)

-- The entries from index `i` on, with `n` to go.
unfoldable pub build : (n i : ℕ) → List ℕ
unfolding crc_bits
build zero i = []
build (suc n) i = crc_bits 8 i ∷ build n (i + 1)

unfoldable pub table : List ℕ
unfolding build
table = build 256 0

-- One byte of the checksum loop.
unfoldable pub crc_byte : (crc b : ℕ) → ℕ
unfolding table
crc_byte crc b = bit_xor (get_or table (bit_xor crc b % 2 ^ 8) 0) (crc / 2 ^ 8)

unfoldable pub crc_part : ℕ → List ℕ → ℕ
unfolding crc_byte
crc_part crc [] = crc
crc_part crc (b ∷ bs) = crc_part (crc_byte crc b) bs

unfoldable pub crc_parts : ℕ → List (List ℕ) → ℕ
unfolding crc_part
crc_parts crc [] = crc
crc_parts crc (part ∷ parts) = crc_parts (crc_part crc part) parts

unfoldable pub crc32 : List (List ℕ) → ℕ
unfolding crc_parts
crc32 parts = bit_xor 0xffff_ffff (crc_parts 0xffff_ffff parts)
