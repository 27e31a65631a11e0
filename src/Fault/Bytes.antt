-- ===== src/Fault/Bytes.antt =====
-- Bytes by index: reading out of slices, overwritten buffers and the disk.
use ublkera.Base.{
  ℕ, zero, suc, ◌+◌, ◌-◌, ◌≤◌, ◌<◌, ◌≡◌, refl, ap, ap₂, ◌∙◌, min, max, Bool, some, List, [], ◌∷◌,
  ◌++◌, length, take, drop, replicate, get_or, slice, overwrite, leb, ltb, ◌&&◌, if◌then◌else◌,
  arith, length-append, length-take_of_le, length-drop, u64, ◌^◌, Bool-cases, inl, inr,
}
use native.Mathlib.Nat.{suc-add}
use ublkera.Fault.{paste, apply, overlay}

pub get_or-drop : (n i : ℕ) (xs : List ℕ) → get_or (drop n xs) i 0 ≡ get_or xs (n + i) 0
get_or-drop zero i xs = ap (λ k. get_or xs k 0) (omega arith)
get_or-drop (suc n) i [] = refl
get_or-drop (suc n) i (x ∷ xs) = rw (suc-add n i) (get_or-drop n i xs)

pub get_or-take : (n i : ℕ) (xs : List ℕ) → i < n → get_or (take n xs) i 0 ≡ get_or xs i 0
get_or-take zero i xs h = absurd (omega arith)
get_or-take (suc n) i [] h = refl
get_or-take (suc n) zero (x ∷ xs) h = refl
get_or-take (suc n) (suc i) (x ∷ xs) h = get_or-take n i xs (omega arith)

pub get_or-append :
    (xs ys : List ℕ) (i : ℕ)
    → get_or (xs ++ ys) i 0
      ≡ (if ltb i (length xs) then get_or xs i 0 else get_or ys (i - length xs) 0)
get_or-append [] ys i = ground arith
get_or-append (x ∷ xs) ys zero = ground arith
get_or-append (x ∷ xs) ys (suc i) = ground (arith, get_or-append xs ys i)

pub get_or-append_left :
    (xs ys : List ℕ) (i : ℕ) → i < length xs → get_or (xs ++ ys) i 0 ≡ get_or xs i 0
get_or-append_left xs ys i h = ground (arith, get_or-append xs ys i)

pub get_or-append_right :
    (xs ys : List ℕ) (i : ℕ) → length xs ≤ i → get_or (xs ++ ys) i 0 ≡ get_or ys (i - length xs) 0
get_or-append_right xs ys i h = ground (arith, get_or-append xs ys i)

pub get_or-replicate : (n i : ℕ) → get_or {A = ℕ} (replicate n 0) i 0 ≡ 0
get_or-replicate zero i = refl
get_or-replicate (suc n) zero = refl
get_or-replicate (suc n) (suc i) = get_or-replicate n i

-- Lists with the same bytes are equal.
pub get_or-ext :
    (xs ys : List ℕ)
    → length xs ≡ length ys
    → ((b : ℕ) → b < length xs → get_or xs b 0 ≡ get_or ys b 0)
    → xs ≡ ys
get_or-ext [] [] len same = refl
get_or-ext [] (y ∷ ys) len same = absurd (omega (arith, len))
get_or-ext (x ∷ xs) [] len same = absurd (omega (arith, len))
get_or-ext (x ∷ xs) (y ∷ ys) len same =
    ap₂ (λ a t. a ∷ t) (same 0 (omega arith))
      (get_or-ext xs ys (omega (arith, len)) (λ b h. same (suc b) (omega arith)))

-- Index `i` falls on a write of `ys` at `off`.
abbrev pub hits : (off : ℕ) → List ℕ → ℕ → Bool
hits off ys i = leb off i && ltb i (off + length ys)

abbrev pub shadow : (off : ℕ) → List ℕ → ℕ → ℕ → ℕ
shadow off ys i base = if hits off ys i then get_or ys (i - off) 0 else base

pub length-overwrite :
    (off : ℕ) (ys xs : List ℕ)
    → off + length ys ≤ length xs
    → length (overwrite off ys xs) ≡ length xs
length-overwrite off ys xs h = omega (
  arith,
  length-append (take off xs ++ ys) (drop (off + length ys) xs),
  length-append (take off xs) ys,
  length-take_of_le off xs (omega arith),
  length-drop (off + length ys) xs,
)

pub get_or-overwrite :
    (off : ℕ) (ys xs : List ℕ) (i : ℕ)
    → off + length ys ≤ length xs
    → get_or (overwrite off ys xs) i 0 ≡ shadow off ys i (get_or xs i 0)
get_or-overwrite off ys xs i h = ground (
  arith,
  get_or-append (take off xs ++ ys) (drop (off + length ys) xs) i,
  get_or-append (take off xs) ys i,
  get_or-take off i xs,
  get_or-drop (off + length ys) (i - (off + length ys)) xs,
  length-append (take off xs) ys,
  length-take_of_le off xs,
)

pub get_or-slice :
    (lo hi i : ℕ) (xs : List ℕ) → i < hi - lo → get_or (slice lo hi xs) i 0 ≡ get_or xs (lo + i) 0
get_or-slice lo hi i xs h = get_or-take (hi - lo) i (drop lo xs) h ∙ get_or-drop lo i xs

pub length-slice : (lo hi : ℕ) (xs : List ℕ) → hi ≤ length xs → length (slice lo hi xs) ≡ hi - lo
length-slice lo hi xs h =
    length-take_of_le (hi - lo) (drop lo xs) (omega (arith, length-drop lo xs))

-- `apply` in range: no panic, the same size, and the written bytes in place.
pub apply-eq :
    (disk : List ℕ) (off : ℕ) (ys : List ℕ)
    → off + length ys ≤ length disk
    → apply disk off ys ≡ some (overwrite off ys disk)
unfolding apply
apply-eq disk off ys h = ground arith

module _ (woff doff start end : ℕ) (ys out : List ℕ) (low : woff ≤ start) (left : doff ≤ start)
    (high : end ≤ woff + length out) (right : end ≤ doff + length ys) where
  abbrev piece : List ℕ
  piece = slice (start - doff) (end - doff) ys

  length-piece : length piece ≡ end - doff - (start - doff)
  length-piece = length-slice (start - doff) (end - doff) ys (omega arith)

  length-paste : length (paste woff doff start end ys out) ≡ length out
  unfolding paste
  length-paste = elim (Bool-cases (leb end start)) [
    | inl empty ↦ rw empty
    | inr more ↦
        let lt : start < end = ground arith in
        rw more (length-overwrite (start - woff) piece out (omega (arith, length-piece)))
  ]

  get_or-paste :
      (i : ℕ)
      → get_or (paste woff doff start end ys out) i 0 ≡ (
          if leb start (woff + i) && ltb (woff + i) end
          then get_or ys (woff + i - doff) 0
          else get_or out i 0)
  unfolding paste
  get_or-paste i = elim (Bool-cases (leb end start)) [
    | inl empty ↦ rw empty (ground arith)
    | inr more ↦
        let lt : start < end = ground arith in
        rw (more, get_or-overwrite (start - woff) piece out i (omega (arith, length-piece)))
          (ground
            (arith, length-piece, get_or-slice (start - doff) (end - doff) (i - (start - woff)) ys))
  ]

-- `overlay` keeps the window's size and shows the bytes of the entry that fall in it.
module _ (out : List ℕ) (woff doff : ℕ) (ys : List ℕ) (fits : woff + length out < 2 ^ 64)
    (fits' : doff + length ys < 2 ^ 64) where
  pub length-overlay : length (overlay out woff doff ys) ≡ length out
  unfolding overlay
  length-overlay =
      length-paste woff doff (max woff doff)
        (min (u64 (woff + length out)) (u64 (doff + length ys))) ys out (omega arith) (omega arith)
        (omega arith) (omega arith)

  pub get_or-overlay :
      (i : ℕ)
      → i < length out
      → get_or (overlay out woff doff ys) i 0 ≡ shadow doff ys (woff + i) (get_or out i 0)
  unfolding overlay
  get_or-overlay i h =
      get_or-paste woff doff (max woff doff)
        (min (u64 (woff + length out)) (u64 (doff + length ys))) ys out (omega arith) (omega arith)
        (omega arith) (omega arith) i
      ∙ ground arith
