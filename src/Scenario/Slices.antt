-- ===== src/Scenario/Slices.antt =====
-- Slices of a disk and of what is written to it, for ublkfault/src/scenario.rs.
use ublkera.Base.{
  ℕ, ◌+◌, ◌≤◌, ◌≡◌, refl, ap, sym, ◌∙◌, true, List, [], ◌∷◌, length, get_or, slice, overwrite,
  list_eq, arith, eq→==,
}
use ublkera.Fault.Bytes.{get_or-ext, get_or-slice, length-slice, get_or-overwrite, length-overwrite}

pub same_bytes : (xs : List ℕ) → list_eq xs xs ≡ true
same_bytes [] = refl
same_bytes (x ∷ xs) = rw (eq→== x x refl, same_bytes xs) refl

pub slice-slice :
    (skip len lo hi : ℕ) (xs : List ℕ)
    → hi ≤ len
    → skip + len ≤ length xs
    → slice (skip + lo) (skip + hi) xs ≡ slice lo hi (slice skip (skip + len) xs)
slice-slice skip len lo hi xs below fits =
    let part : List ℕ = slice skip (skip + len) xs in
    let size = length-slice skip (skip + len) xs fits in
    let left = length-slice (skip + lo) (skip + hi) xs (omega (arith, below, fits)) in
    let right = length-slice lo hi part (omega (arith, size, below)) in
    get_or-ext (slice (skip + lo) (skip + hi) xs) (slice lo hi part) (omega (arith, left, right))
      (λ b lt.
        get_or-slice (skip + lo) (skip + hi) b xs (omega (arith, lt, left))
        ∙ (ap (λ i. get_or xs i 0) (omega arith)
            ∙ (sym (get_or-slice skip (skip + len) (lo + b) xs (omega (arith, lt, left, below)))
                ∙ sym (get_or-slice lo hi b part (omega (arith, lt, left))))))

pub slice-overwrite :
    (off lo hi : ℕ) (bytes xs : List ℕ)
    → lo ≤ hi
    → hi ≤ length bytes
    → off + length bytes ≤ length xs
    → slice (off + lo) (off + hi) (overwrite off bytes xs) ≡ slice lo hi bytes
slice-overwrite off lo hi bytes xs order inside fits =
    let all : List ℕ = overwrite off bytes xs in
    let len = length-overwrite off bytes xs fits in
    let left = length-slice (off + lo) (off + hi) all (omega (arith, len, inside, fits)) in
    let right = length-slice lo hi bytes inside in
    get_or-ext (slice (off + lo) (off + hi) all) (slice lo hi bytes) (omega (arith, left, right))
      (λ b lt.
        get_or-slice (off + lo) (off + hi) b all (omega (arith, lt, left))
        ∙ (get_or-overwrite off bytes xs (off + lo + b) fits
            ∙ (ground (arith, lt, left, inside)
                ∙ sym (get_or-slice lo hi b bytes (omega (arith, lt, left))))))
