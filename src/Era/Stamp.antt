-- ===== src/Era/Stamp.antt =====
-- The stamping loops of src/era.rs, chunk by chunk.
use ublkera.Base.{
  ℕ, zero, suc, ◌+◌, ◌≤◌, ◌<◌, max, List, [], ◌∷◌, ◌≡◌, refl, ap, length, get_or, leb, ◌&&◌,
  if◌then◌else◌, arith,
}
use ublkera.Era.{stamp, stamp_all}

pub length-stamp :
    (era first last i : ℕ) (es : List ℕ) → length (stamp era first last i es) ≡ length es
unfolding stamp
length-stamp era first last i [] = refl
length-stamp era first last i (e ∷ es) = ap suc (length-stamp era first last (i + 1) es)

-- The chunks in the window take the era unless theirs is newer; the others keep theirs.
pub get_or-stamp :
    (era first last i : ℕ) (es : List ℕ) (j : ℕ)
    → j < length es
    → get_or (stamp era first last i es) j 0
      ≡ (if leb first (i + j) && leb (i + j) last then max (get_or es j 0) era else get_or es j 0)
unfolding stamp
get_or-stamp era first last i [] j h = absurd (omega arith)
get_or-stamp era first last i (e ∷ es) zero h = ground arith
get_or-stamp era first last i (e ∷ es) (suc j) h =
    ground (arith, get_or-stamp era first last (i + 1) es j)

pub get_or_past : (es : List ℕ) (j : ℕ) → length es ≤ j → get_or es j 0 ≡ 0
get_or_past [] j h = refl
get_or_past (e ∷ es) zero h = absurd (omega arith)
get_or_past (e ∷ es) (suc j) h = get_or_past es j (omega arith)

pub length-stamp_all : (era : ℕ) (es : List ℕ) → length (stamp_all era es) ≡ length es
unfolding stamp_all
length-stamp_all era [] = refl
length-stamp_all era (e ∷ es) = ap suc (length-stamp_all era es)

pub get_or-stamp_all :
    (era : ℕ) (es : List ℕ) (j : ℕ)
    → j < length es
    → get_or (stamp_all era es) j 0 ≡ max (get_or es j 0) era
unfolding stamp_all
get_or-stamp_all era [] j h = absurd (omega arith)
get_or-stamp_all era (e ∷ es) zero h = refl
get_or-stamp_all era (e ∷ es) (suc j) h = get_or-stamp_all era es j (omega arith)
