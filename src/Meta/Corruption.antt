-- ===== src/Meta/Corruption.antt =====
-- What `load` of src/era.rs refuses: wrong lengths and damaged bytes.
use ublkera.Base.{
  ℕ, zero, suc, ◌+◌, ◌*◌, ◌≤◌, ◌≡◌, ◌≢◌, ◌⊎◌, inl, inr, refl, ap, ap₂, ◌∙◌, sym, Bool, List, [],
  ◌∷◌, ◌++◌, length, take, drop, from_le, ok, replicate, arith, length-drop, leb→le,
}
use mathlib.Core.List.{append-nil, append_assoc}
use ublkera.Crc.{crc32}
use ublkera.Era.Valid.{chunks-new}
use ublkera.Crc.Detect.{IsBytes, IsBytes-append, OneOff, here, there, crc32-append, crc32-ne}
use ublkera.Era.{EraState, div_ceil}
use ublkera.Meta.{decode, blanked, hdr_len}
use ublkera.Meta.Inversion.{Accepts, Accepts-decode}

module _ {xs ys : List ℕ} where
  OneOff-append_left : (pre : List ℕ) → OneOff xs ys → OneOff (pre ++ xs) (pre ++ ys)
  OneOff-append_left [] off = off
  OneOff-append_left (p ∷ pre) off = there (OneOff-append_left pre off)

OneOff-append_right :
    {xs ys : List ℕ} (post : List ℕ) → OneOff xs ys → OneOff (xs ++ post) (ys ++ post)
OneOff-append_right post (here ne) = here ne
OneOff-append_right post (there off) = there (OneOff-append_right post off)

-- A cut leaves the difference on one side of it.
OneOff-split :
    (n : ℕ) {xs ys : List ℕ}
    → OneOff xs ys
    → ((take n xs ≡ take n ys) × OneOff (drop n xs) (drop n ys))
      ⊎ (OneOff (take n xs) (take n ys) × (drop n xs ≡ drop n ys))
OneOff-split zero off = inl (refl, off)
OneOff-split (suc n) (here ne) = inr (here ne, refl)
OneOff-split (suc n) (there {b = b} off) = elim (OneOff-split n off) [
  | inl (e, rest) ↦ inl (ap (λ l. b ∷ l) e, rest)
  | inr (front, e) ↦ inr (there front, e)
]

from_le-ne : {xs ys : List ℕ} → OneOff xs ys → IsBytes xs → IsBytes ys → from_le xs ≢ from_le ys
unfolding from_le
from_le-ne (here ne) hx hy e = ne (omega arith)
from_le-ne (there off) hx hy e = from_le-ne off hx.1 hy.1 (omega arith)

IsBytes-take : (n : ℕ) (xs : List ℕ) → IsBytes xs → IsBytes (take n xs)
IsBytes-take zero xs h = tt
IsBytes-take (suc n) [] h = tt
IsBytes-take (suc n) (x ∷ xs) h = (h.0, IsBytes-take n xs h.1)

IsBytes-drop : (n : ℕ) (xs : List ℕ) → IsBytes xs → IsBytes (drop n xs)
IsBytes-drop zero xs h = h
IsBytes-drop (suc n) [] h = tt
IsBytes-drop (suc n) (x ∷ xs) h = IsBytes-drop n xs h.1

take-take : (n m : ℕ) (xs : List ℕ) → n ≤ m → take n (take m xs) ≡ take n xs
take-take zero m xs h = refl
take-take (suc n) zero xs h = absurd (omega arith)
take-take (suc n) (suc m) [] h = refl
take-take (suc n) (suc m) (x ∷ xs) h = ap (λ l. x ∷ l) (take-take n m xs (omega arith))

drop-take : (n : ℕ) (xs : List ℕ) → drop n (take n xs) ≡ []
drop-take zero xs = refl
drop-take (suc n) [] = refl
drop-take (suc n) (x ∷ xs) = drop-take n xs

drop-drop : (n m k : ℕ) (xs : List ℕ) → k ≡ m + n → drop k xs ≡ drop n (drop m xs)
drop-drop n zero k xs e = let same : k ≡ n = omega arith in rw same
drop-drop zero (suc m) zero xs e = absurd (omega arith)
drop-drop (suc n) (suc m) zero xs e = absurd (omega arith)
drop-drop zero (suc m) (suc k) [] e = refl
drop-drop (suc n) (suc m) (suc k) [] e = refl
drop-drop n (suc m) (suc k) (x ∷ xs) e = drop-drop n m k xs (omega arith)

-- What `load` sums up of a file: all of it, with the checksum field zeroed.
abbrev summed : List ℕ → List ℕ
summed raw = take 52 raw ++ (replicate 4 0 ++ drop 4 (drop 52 raw))

summed-eq : (raw : List ℕ) → blanked raw ++ drop hdr_len raw ≡ summed raw
summed-eq raw =
    rw (drop-take 56 raw, append-nil, take-take 52 56 raw (omega arith), drop-drop 4 52 56 raw refl)
      (append_assoc (take 52 raw) (replicate 4 0) (drop 4 (drop 52 raw)))

-- The checksum that a file carries, and the one that it should.
abbrev carried : List ℕ → ℕ
carried raw = from_le (take 4 (drop 52 raw))

Accepts-intact :
    {raw : List ℕ} {d g gen : ℕ} {t : EraState}
    → Accepts raw d g gen t
    → carried raw ≡ crc32 (summed raw ∷ [])
Accepts-intact {raw} a =
    a.intact
    ∙ crc32-append (blanked raw) (drop hdr_len raw)
    ∙ ap (λ (buf : List ℕ). crc32 (buf ∷ [])) (summed-eq raw)

IsBytes-summed : (raw : List ℕ) → IsBytes raw → IsBytes (summed raw)
IsBytes-summed raw h =
    IsBytes-append (take 52 raw) (replicate 4 0 ++ drop 4 (drop 52 raw)) (IsBytes-take 52 raw h) (
      IsBytes-append (replicate 4 0) (drop 4 (drop 52 raw)) (omega arith)
        (IsBytes-drop 4 (drop 52 raw) (IsBytes-drop 52 raw h)))

-- Two files that differ in one byte cannot both carry their checksum.
not_both_intact :
    {xs ys : List ℕ}
    → OneOff xs ys
    → IsBytes xs
    → IsBytes ys
    → carried xs ≡ crc32 (summed xs ∷ [])
    → carried ys ≢ crc32 (summed ys ∷ [])
not_both_intact {xs} {ys} off hx hy ex ey = elim (OneOff-split 52 off) [
  | inr (front, e) ↦
      crc32-ne (rw e (OneOff-append_right (replicate 4 0 ++ drop 4 (drop 52 ys)) front))
        (IsBytes-summed xs hx) (IsBytes-summed ys hy)
        (sym ex ∙ ap (λ (l : List ℕ). from_le (take 4 l)) e ∙ ey)
  | inl (e, rest) ↦ elim (OneOff-split 4 rest) [
    | inr (field, same) ↦
        from_le-ne field (IsBytes-take 4 (drop 52 xs) (IsBytes-drop 52 xs hx))
          (IsBytes-take 4 (drop 52 ys) (IsBytes-drop 52 ys hy))
          (ex ∙ ap₂ (λ (a b : List ℕ). crc32 ((a ++ (replicate 4 0 ++ b)) ∷ [])) e same ∙ sym ey)
    | inl (same, tail) ↦
        crc32-ne (rw e (OneOff-append_left (take 52 ys) (OneOff-append_left (replicate 4 0) tail)))
          (IsBytes-summed xs hx) (IsBytes-summed ys hy) (sym ex ∙ ap from_le same ∙ ey)
  ]
]

-- No damage to one byte of a file that `load` accepts, be it in the header, in the checksum itself
-- or in the eras, gives a file that `load` accepts, for any device size and granularity.
pub decode-detects :
    (d g gen d' g' gen' : ℕ) {raw bad : List ℕ} {r r' : EraState × Bool}
    → IsBytes raw
    → IsBytes bad
    → OneOff raw bad
    → decode raw d g gen ≡ ok r
    → decode bad d' g' gen' ≢ ok r'
decode-detects d g gen d' g' gen' hx hy off e e' =
    let (t, a, s, c) = Accepts-decode e in
    let (t', a', s', c') = Accepts-decode e' in
    not_both_intact off hx hy (Accepts-intact a) (Accepts-intact a')

-- `load` accepts only files of one length, which the device size and the granularity fix: none that
-- is cut short, and none with bytes behind its end.
pub decode-length :
    (d g gen : ℕ) (raw : List ℕ) {r : EraState × Bool}
    → decode raw d g gen ≡ ok r
    → length raw ≡ hdr_len + div_ceil d g * 4
decode-length d g gen raw e =
    let (t, a, s, c) = Accepts-decode e in
    omega (
      arith,
      a.same_body,
      length-drop hdr_len raw,
      chunks-new d g gen a.made,
      leb→le hdr_len (length raw) a.long,
    )
