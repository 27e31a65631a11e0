-- ===== src/Base/Xor.antt =====
-- Exclusive or at every width: `bit_xor` digit by digit, and the laws that follow.
use Prim.Native.Nat.{
  ℕ, zero, suc, ◌+◌, ◌*◌, ◌/◌, ◌%◌, ◌^◌, ◌≤◌, ◌<◌, bit_xor, digits, differ, bit_xor-bitwise,
}
use mathlib.Core.Path.{◌≡◌, refl, sym, ◌∙◌, ap}
use native.Mathlib.Nat.{pow-succ', div-div-eq-div-mul, one-le-pow, div-eq_of_lt, div-one, mod-one}
use ublkera.Base.Div.{div-bounds}
use native.Mathlib.Omega.{arith}

abbrev xor_digits : ℕ → ℕ → ℕ → ℕ
xor_digits n a b = digits (λ b. b) differ n a b

-- The fuel of the recursion does not matter once it reaches the first number.
xor_digits_fuel : (n m a b : ℕ) → a ≤ n → a ≤ m → xor_digits n a b ≡ xor_digits m a b
xor_digits_fuel zero zero a b p q = refl
xor_digits_fuel zero (suc m) zero b p q = refl
xor_digits_fuel zero (suc m) (suc a) b p q = absurd (omega arith)
xor_digits_fuel (suc n) zero zero b p q = refl
xor_digits_fuel (suc n) zero (suc a) b p q = absurd (omega arith)
xor_digits_fuel (suc n) (suc m) zero b p q = refl
xor_digits_fuel (suc n) (suc m) (suc a) b p q =
    omega (arith, xor_digits_fuel n m (suc a / 2) (b / 2) (omega arith) (omega arith))

pub zero-xor : (b : ℕ) → bit_xor 0 b ≡ b
zero-xor b = bit_xor-bitwise 0 b

differ-eq : (x y : ℕ) → x < 2 → y < 2 → differ x y ≡ (x + y) % 2
differ-eq zero y p q = omega arith
differ-eq (suc zero) zero p q = omega arith
differ-eq (suc zero) (suc zero) p q = omega arith
differ-eq (suc zero) (suc (suc y)) p q = absurd (omega arith)
differ-eq (suc (suc x)) y p q = absurd (omega arith)

-- The lowest digit, and the rest.
pub xor_step : (a b : ℕ) → bit_xor a b ≡ bit_xor (a / 2) (b / 2) * 2 + (a + b) % 2
xor_step zero b = omega (arith, zero-xor b, zero-xor (b / 2))
xor_step (suc a) b = omega (
  arith,
  bit_xor-bitwise (suc a) b,
  bit_xor-bitwise (suc a / 2) (b / 2),
  xor_digits_fuel a (suc a / 2) (suc a / 2) (b / 2) (omega arith) (omega arith),
  differ-eq (suc a % 2) (b % 2) (omega arith) (omega arith),
)

xor_comm_below : (n a b : ℕ) → a ≤ n → b ≤ n → bit_xor a b ≡ bit_xor b a
xor_comm_below zero zero zero p q = refl
xor_comm_below zero zero (suc b) p q = absurd (omega arith)
xor_comm_below zero (suc a) b p q = absurd (omega arith)
xor_comm_below (suc n) a b p q = omega (
  arith,
  xor_step a b,
  xor_step b a,
  xor_comm_below n (a / 2) (b / 2) (omega arith) (omega arith),
)

pub xor_comm : (a b : ℕ) → bit_xor a b ≡ bit_xor b a
xor_comm a b = xor_comm_below (a + b) a b (omega arith) (omega arith)

pub xor-zero : (a : ℕ) → bit_xor a 0 ≡ a
xor-zero a = xor_comm a 0 ∙ zero-xor a

pub xor-div2 : (a b : ℕ) → bit_xor a b / 2 ≡ bit_xor (a / 2) (b / 2)
xor-div2 a b = omega (arith, xor_step a b)

xor_assoc_below :
    (n a b c : ℕ) → a ≤ n → b ≤ n → c ≤ n → bit_xor (bit_xor a b) c ≡ bit_xor a (bit_xor b c)
xor_assoc_below zero zero zero zero p q r = refl
xor_assoc_below zero zero zero (suc c) p q r = absurd (omega arith)
xor_assoc_below zero zero (suc b) c p q r = absurd (omega arith)
xor_assoc_below zero (suc a) b c p q r = absurd (omega arith)
xor_assoc_below (suc n) a b c p q r =
    let ih : bit_xor (bit_xor a b / 2) (c / 2) ≡ bit_xor (a / 2) (bit_xor b c / 2) =
      rw (xor-div2 a b, xor-div2 b c)
        (xor_assoc_below n (a / 2) (b / 2) (c / 2) (omega arith) (omega arith) (omega arith)) in
    omega
      (arith, ih, xor_step (bit_xor a b) c, xor_step a (bit_xor b c), xor_step a b, xor_step b c)

pub xor_assoc : (a b c : ℕ) → bit_xor (bit_xor a b) c ≡ bit_xor a (bit_xor b c)
xor_assoc a b c = xor_assoc_below (a + b + c) a b c (omega arith) (omega arith) (omega arith)

xor_self_below : (n a : ℕ) → a ≤ n → bit_xor a a ≡ 0
xor_self_below zero zero p = refl
xor_self_below zero (suc a) p = absurd (omega arith)
xor_self_below (suc n) a p = omega (arith, xor_step a a, xor_self_below n (a / 2) (omega arith))

pub xor_self : (a : ℕ) → bit_xor a a ≡ 0
xor_self a = xor_self_below a a (omega arith)

pub xor_cancel : (a b : ℕ) → bit_xor a (bit_xor a b) ≡ b
xor_cancel a b = sym (xor_assoc a a b) ∙ ap (λ x. bit_xor x b) (xor_self a) ∙ zero-xor b

pub xor-injective : (a b c : ℕ) → bit_xor a b ≡ bit_xor a c → b ≡ c
xor-injective a b c e = sym (xor_cancel a b) ∙ ap (bit_xor a) e ∙ xor_cancel a c

div_pow-suc : (k a : ℕ) → a / 2 ^ suc k ≡ a / 2 / 2 ^ k
div_pow-suc k a = rw (pow-succ' 2 k) (sym (div-div-eq-div-mul a 2 (2 ^ k)))

-- A shift to the right goes under the operation.
pub xor-shift : (k a b : ℕ) → bit_xor a b / 2 ^ k ≡ bit_xor (a / 2 ^ k) (b / 2 ^ k)
xor-shift zero a b = rw (div-one (bit_xor a b), div-one a, div-one b)
xor-shift (suc k) a b =
    rw (div_pow-suc k (bit_xor a b), div_pow-suc k a, div_pow-suc k b, xor-div2 a b)
      (xor-shift k (a / 2) (b / 2))

pub xor-lt : (k a b : ℕ) → a < 2 ^ k → b < 2 ^ k → bit_xor a b < 2 ^ k
xor-lt k a b p q =
    let pos : 0 < 2 ^ k = one-le-pow k 2 (omega arith) in
    let high : bit_xor a b / 2 ^ k ≡ 0 = rw (xor-shift k a b, div-eq_of_lt p, div-eq_of_lt q) in
    grind (arith, div-bounds)

-- So does a mask of low bits.
mod_pow-suc : (k a : ℕ) → a % 2 ^ suc k ≡ a / 2 % 2 ^ k * 2 + a % 2
mod_pow-suc k a =
    let pos : 0 < 2 ^ k = one-le-pow k 2 (omega arith) in rw (pow-succ' 2 k) (grind arith)

pub xor-mod : (k a b : ℕ) → bit_xor a b % 2 ^ k ≡ bit_xor (a % 2 ^ k) (b % 2 ^ k)
xor-mod zero a b = rw (mod-one (bit_xor a b), mod-one a, mod-one b)
xor-mod (suc k) a b =
    let half_a : a % 2 ^ suc k / 2 ≡ a / 2 % 2 ^ k = omega (arith, mod_pow-suc k a) in
    let half_b : b % 2 ^ suc k / 2 ≡ b / 2 % 2 ^ k = omega (arith, mod_pow-suc k b) in
    let halves : bit_xor a b / 2 % 2 ^ k ≡ bit_xor (a % 2 ^ suc k / 2) (b % 2 ^ suc k / 2) =
      rw (half_a, half_b, xor-div2 a b) (xor-mod k (a / 2) (b / 2)) in
    omega (
      arith,
      halves,
      mod_pow-suc k (bit_xor a b),
      mod_pow-suc k a,
      mod_pow-suc k b,
      xor_step a b,
      xor_step (a % 2 ^ suc k) (b % 2 ^ suc k),
    )
