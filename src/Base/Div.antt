-- ===== src/Base/Div.antt =====
-- Division by a variable: which multiple of the divisor a number lies under.
use Prim.Native.Nat.{ℕ, ◌+◌, ◌*◌, ◌/◌, ◌≤◌, ◌<◌}
use mathlib.Core.Path.{◌≡◌}
use native.Mathlib.Omega.{arith}

pub div_mono : (g a b : ℕ) → 0 < g → a ≤ b → a / g ≤ b / g
div_mono g a b p h = grind arith

pub div-lt : (g n b : ℕ) → 0 < g → b < n * g → b / g < n
div-lt g n b p h = grind arith

pub div-eq : (g n b : ℕ) → n * g ≤ b → b < n * g + g → b / g ≡ n
div-eq g n b p h = grind arith

pub div-bounds : (g b : ℕ) → 0 < g → (b / g * g ≤ b) × (b < b / g * g + g)
div-bounds g b p = grind arith
