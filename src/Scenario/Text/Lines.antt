-- ===== src/Scenario/Text/Lines.antt =====
-- Lines that each end with a newline are read back one by one.
use ublkera.Base.{ℕ, Bool, true, false, List, [], ◌∷◌, ◌++◌, ◌==◌, ◌≡◌, refl, ap, ◌∙◌, arith}
use ublkera.Scenario.Text.{is_newline, lines, push_byte, none_of}

abbrev pub is_return : ℕ → Bool
is_return c = c == b'\r'

-- Lines that are written one below the other.
abbrev pub unlines : List (List ℕ) → List ℕ
unlines [] = []
unlines (line ∷ rest) = line ++ b'\n' ∷ unlines rest

abbrev pub AllPlain : List (List ℕ) → Type 0
AllPlain [] = Unit
AllPlain (line ∷ rest) =
    (none_of is_newline line ≡ true) × (none_of is_return line ≡ true) × AllPlain rest

lines-append :
    (line rest : List ℕ)
    → none_of is_newline line ≡ true
    → none_of is_return line ≡ true
    → lines (line ++ b'\n' ∷ rest) ≡ line ∷ lines rest
unfolding lines
lines-append [] rest h k = refl
lines-append (c ∷ cs) rest h k =
    let plain : is_newline c ≡ false = ground arith in
    let whole : is_return c ≡ false = ground arith in
    rw (lines, plain, whole) (ap (push_byte c) (lines-append cs rest (ground arith) (ground arith)))

pub lines-unlines : (texts : List (List ℕ)) → AllPlain texts → lines (unlines texts) ≡ texts
unfolding lines
lines-unlines [] h = refl
lines-unlines (line ∷ rest) h =
    lines-append line (unlines rest) h.0 h.1 ∙ ap (λ x. line ∷ x) (lines-unlines rest h.2)
