-- ===== src/Base/Words.antt =====
-- Rust's u32 and u64 as native numbers with their wrap-around (release profile), and the
-- little-endian conversions `to_le_bytes` and `from_le_bytes`.
use Prim.Native.Nat.{ℕ, ◌+◌, ◌-◌, ◌*◌, ◌/◌, ◌%◌, ◌^◌, ◌<◌}
use mathlib.Core.Path.{◌≡◌}
use mathlib.Core.List.{List, [], ◌∷◌}
use native.Mathlib.Omega.{arith}

abbrev pub u32 : ℕ → ℕ
u32 n = n % 2 ^ 32

abbrev pub u64 : ℕ → ℕ
u64 n = n % 2 ^ 64

-- u64 subtraction; the modulus is added first since `-` stops at 0.
abbrev pub sub64 : ℕ → ℕ → ℕ
sub64 a b = (a + 2 ^ 64 - b) % 2 ^ 64

unfoldable pub to_le32 : ℕ → List ℕ
to_le32 n = n % 256 ∷ n / 2 ^ 8 % 256 ∷ n / 2 ^ 16 % 256 ∷ n / 2 ^ 24 % 256 ∷ []

unfoldable pub to_le64 : ℕ → List ℕ
to_le64 n =
    n % 256
    ∷ n / 2 ^ 8 % 256
    ∷ n / 2 ^ 16 % 256
    ∷ n / 2 ^ 24 % 256
    ∷ n / 2 ^ 32 % 256
    ∷ n / 2 ^ 40 % 256
    ∷ n / 2 ^ 48 % 256
    ∷ n / 2 ^ 56 % 256
    ∷ []

-- The number that a little-endian slice of bytes stands for.
unfoldable pub from_le : List ℕ → ℕ
from_le [] = 0
from_le (b ∷ bs) = b + 256 * from_le bs

pub from_le-to_le32 : (n : ℕ) → n < 2 ^ 32 → from_le (to_le32 n) ≡ n
unfolding from_le to_le32
from_le-to_le32 n h = omega arith

pub from_le-to_le64 : (n : ℕ) → n < 2 ^ 64 → from_le (to_le64 n) ≡ n
unfolding from_le to_le64
from_le-to_le64 n h = omega arith
