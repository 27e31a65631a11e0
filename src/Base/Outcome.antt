-- ===== src/Base/Outcome.antt =====
-- Rust's `Result` and `?`, the slices of a byte buffer, and `==` on byte slices.
use Prim.Native.Nat.{ℕ, ◌+◌, ◌-◌}
use mathlib.Core.Path.{◌≡◌, refl}
use mathlib.Core.Logic.{◌⊎◌, inl, inr}
use mathlib.Core.Bool.{Bool, true, false, ◌&&◌}
use mathlib.Core.Option.{Option, none, some}
use mathlib.Core.List.{List, [], ◌∷◌, ◌++◌}
use ublkera.Base.Tests.{◌==◌}
use ublkera.Base.Lists.{take, drop, length}

pub data Result {ℓ} (E : Type 0) (A : Type ℓ) : Type ℓ where
  ok : A → Result E A
  err : E → Result E A

infixl 5 ◌>>=◌ ◌>>◌
abbrev pub ◌>>=◌ {ℓ κ} :
    {E : Type 0} {A : Type ℓ} {B : Type κ} → Result E A → (A → Result E B) → Result E B
ok a >>= f = f a
err e >>= f = err e

abbrev pub ◌>>◌ {ℓ} : {E : Type 0} {B : Type ℓ} → Result E (Unit {0}) → Result E B → Result E B
m >> k = m >>= λ _. k

-- `bail!` unless the test holds.
abbrev pub ensure : {E : Type 0} → Bool → E → Result E (Unit {0})
ensure true e = ok tt
ensure false e = err e

-- `.context(e)?` on an option.
abbrev pub context {ℓ} : {E : Type 0} {A : Type ℓ} → Option A → E → Result E A
context none e = err e
context (some a) e = ok a

abbrev pub list_eq : List ℕ → List ℕ → Bool
list_eq [] [] = true
list_eq [] (y ∷ ys) = false
list_eq (x ∷ xs) [] = false
list_eq (x ∷ xs) (y ∷ ys) = x == y && list_eq xs ys

module _ {ℓ} {A : Type ℓ} where
  -- `xs[lo..hi]`
  abbrev pub slice : (lo hi : ℕ) → List A → List A
  slice lo hi xs = take (hi - lo) (drop lo xs)

  -- `xs[lo..lo + ys.len()].copy_from_slice(&ys)`
  abbrev pub overwrite : ℕ → List A → List A → List A
  overwrite lo ys xs = take lo xs ++ ys ++ drop (lo + length ys) xs

-- What a successful chain says of its first step.
pub ensure-ok {ℓ} :
    {E : Type 0} {B : Type ℓ} (b : Bool) (e : E) (k : Result E B) {r : B}
    → (ensure b e >> k) ≡ ok r
    → (b ≡ true) × (k ≡ ok r)
ensure-ok true e k h = (refl, h)
ensure-ok false e k h = cc

pub context-ok {ℓ κ} :
    {E : Type 0} {A : Type ℓ} {B : Type κ} (o : Option A) (e : E) (k : A → Result E B) {r : B}
    → (context o e >>= k) ≡ ok r
    → (a : A) × (o ≡ some a) × (k a ≡ ok r)
context-ok none e k h = cc
context-ok (some a) e k h = (a, refl, h)

pub bind-ok {ℓ κ} :
    {E : Type 0} {A : Type ℓ} {B : Type κ} (m : Result E A) (k : A → Result E B) {r : B}
    → (m >>= k) ≡ ok r
    → (a : A) × (m ≡ ok a) × (k a ≡ ok r)
bind-ok (ok a) k h = (a, refl, h)
bind-ok (err e) k h = cc

pub Result-cases {ℓ} :
    {E : Type 0} {A : Type ℓ} (m : Result E A) → ((a : A) × (m ≡ ok a)) ⊎ ((e : E) × (m ≡ err e))
Result-cases (ok a) = inl (a, refl)
Result-cases (err e) = inr (e, refl)

pub ok-injective {ℓ} : {E : Type 0} {A : Type ℓ} {a b : A} → Path (Result E A) (ok a) (ok b) → a ≡ b
ok-injective e = cc

pub err-injective {ℓ} :
    {E : Type 0} {A : Type ℓ} {x y : E} → Path (Result E A) (err x) (err y) → x ≡ y
err-injective e = cc

pub ensure-true : {E : Type 0} (b : Bool) (e : E) {u : Unit {0}} → ensure b e ≡ ok u → b ≡ true
ensure-true true e h = refl
ensure-true false e h = cc
