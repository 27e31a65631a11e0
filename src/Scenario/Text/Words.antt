-- ===== src/Scenario/Text/Words.antt =====
-- Words that are joined by blanks are read back one by one.
use ublkera.Base.{
  ℕ, Bool, true, false, some, none, List, [], ◌∷◌, ◌++◌, ◌||◌, ◌≡◌, refl, ap, sym, ◌∙◌, arith,
}
use mathlib.Core.List.{append-nil, append_assoc}
use ublkera.Scenario.Text.{
  is_space, is_hash, is_empty, before, split_once, trim_start, trim_end, trimmed, split_from,
  split_whitespace, none_of, push_word,
}

-- What ends a word: a blank, or a comment.
unfoldable pub breaks : ℕ → Bool
unfolding is_space
breaks c = is_space c || is_hash c

-- A word of a line.
abbrev pub IsWord : List ℕ → Type 0
IsWord w = (is_empty w ≡ false) × (none_of breaks w ≡ true)

abbrev pub AllWords : List (List ℕ) → Type 0
AllWords [] = Unit
AllWords (w ∷ ws) = IsWord w × AllWords ws

-- A line of words, with one blank between two of them.
abbrev pub join : List ℕ → List (List ℕ) → List ℕ
join w [] = w
join w (v ∷ vs) = w ++ b' ' ∷ join v vs

pub none_of-append :
    (p : ℕ → Bool) (xs ys : List ℕ)
    → none_of p xs ≡ true
    → none_of p ys ≡ true
    → none_of p (xs ++ ys) ≡ true
none_of-append p [] ys h k = k
none_of-append p (x ∷ xs) ys h k = ground (arith, none_of-append p xs ys)

pub not_space : (c : ℕ) → breaks c ≡ false → is_space c ≡ false
unfolding breaks
not_space c h = ground arith

pub not_hash : (c : ℕ) → breaks c ≡ false → is_hash c ≡ false
unfolding breaks
not_hash c h = ground arith

pub none_of-weaken :
    (p q : ℕ → Bool) (w : List ℕ)
    → ((c : ℕ) → q c ≡ false → p c ≡ false)
    → none_of q w ≡ true
    → none_of p w ≡ true
none_of-weaken p q [] h k = refl
none_of-weaken p q (c ∷ cs) h k = ground (arith, h c, none_of-weaken p q cs h)

pub none_of-breaks_space : (w : List ℕ) → none_of breaks w ≡ true → none_of is_space w ≡ true
none_of-breaks_space w h = none_of-weaken is_space breaks w not_space h

pub none_of-breaks_hash : (w : List ℕ) → none_of breaks w ≡ true → none_of is_hash w ≡ true
none_of-breaks_hash w h = none_of-weaken is_hash breaks w not_hash h

-- What is read from a text with none of the bytes looked for.
pub before-none_of : (p : ℕ → Bool) (s : List ℕ) → none_of p s ≡ true → before p s ≡ s
unfolding before
before-none_of p [] h = refl
before-none_of p (c ∷ cs) h = ground (arith, before-none_of p cs)

pub split_once-none_of : (p : ℕ → Bool) (s : List ℕ) → none_of p s ≡ true → split_once p s ≡ none
unfolding split_once
split_once-none_of p [] h = refl
split_once-none_of p (c ∷ cs) h = ground (arith, split_once-none_of p cs)

pub split_once-append :
    (p : ℕ → Bool) (c : ℕ) (w rest : List ℕ)
    → none_of p w ≡ true
    → p c ≡ true
    → split_once p (w ++ c ∷ rest) ≡ some (w, rest)
unfolding split_once
split_once-append p c [] rest h k = rw k
split_once-append p c (x ∷ xs) rest h k = ground (arith, split_once-append p c xs rest)

-- Trimming.
pub trim_end-append :
    (xs ys : List ℕ) → is_empty ys ≡ false → trim_end ys ≡ ys → trim_end (xs ++ ys) ≡ xs ++ ys
unfolding trim_end
trim_end-append [] ys more h = h
trim_end-append (x ∷ []) [] more h = cc
trim_end-append (x ∷ []) (y ∷ ys) more h = ap (trimmed x) h
trim_end-append (x ∷ z ∷ xs) ys more h = ap (trimmed x) (trim_end-append (z ∷ xs) ys more h)

pub trim_end-word : (w : List ℕ) → none_of is_space w ≡ true → trim_end w ≡ w
unfolding trim_end
trim_end-word [] h = refl
trim_end-word (c ∷ []) h = ground arith
trim_end-word (c ∷ d ∷ cs) h = ap (trimmed c) (trim_end-word (d ∷ cs) (ground arith))

pub trim_start-word :
    (w rest : List ℕ)
    → is_empty w ≡ false
    → none_of is_space w ≡ true
    → trim_start (w ++ rest) ≡ w ++ rest
unfolding trim_start
trim_start-word [] rest more h = cc
trim_start-word (c ∷ cs) rest more h = ground arith

pub append-is_empty : (w rest : List ℕ) → is_empty w ≡ false → is_empty (w ++ rest) ≡ false
append-is_empty [] rest h = cc
append-is_empty (c ∷ cs) rest h = refl

pub join-is_empty : (w : List ℕ) (ws : List (List ℕ)) → IsWord w → is_empty (join w ws) ≡ false
join-is_empty w [] h = h.0
join-is_empty w (v ∷ vs) h = append-is_empty w (b' ' ∷ join v vs) h.0

abbrev spaced : List ℕ → List ℕ
spaced s = b' ' ∷ s

pub trim_end-join :
    (w : List ℕ) (ws : List (List ℕ)) → IsWord w → AllWords ws → trim_end (join w ws) ≡ join w ws
trim_end-join w [] h t = trim_end-word w (none_of-breaks_space w h.1)
trim_end-join w (v ∷ vs) h t =
    trim_end-append w (spaced (join v vs)) refl (
      trim_end-append (b' ' ∷ []) (join v vs) (join-is_empty v vs t.0) (trim_end-join v vs t.0 t.1))

pub trim_start-join :
    (w : List ℕ) (ws : List (List ℕ)) → IsWord w → trim_start (join w ws) ≡ join w ws
trim_start-join w [] h =
    sym (ap trim_start (append-nil w))
    ∙ (trim_start-word w [] h.0 (none_of-breaks_space w h.1) ∙ append-nil w)
trim_start-join w (v ∷ vs) h = trim_start-word w (b' ' ∷ join v vs) h.0 (none_of-breaks_space w h.1)

pub none_of-join :
    (p : ℕ → Bool) (w : List ℕ) (ws : List (List ℕ))
    → ((c : ℕ) → breaks c ≡ false → p c ≡ false)
    → p b' ' ≡ false
    → IsWord w
    → AllWords ws
    → none_of p (join w ws) ≡ true
none_of-join p w [] h blank k t = none_of-weaken p breaks w h k.1
none_of-join p w (v ∷ vs) h blank k t =
    none_of-append p w (b' ' ∷ join v vs) (none_of-weaken p breaks w h k.1)
      (rw (blank, none_of-join p v vs h blank t.0 t.1) refl)

-- The words of a line.
split_from-append :
    (word w rest : List ℕ)
    → none_of is_space w ≡ true
    → split_from word (w ++ b' ' ∷ rest) ≡ push_word (word ++ w) (split_from [] rest)
unfolding split_from
split_from-append word [] rest h =
    ap (λ x. push_word x (split_from [] rest)) (sym (append-nil word))
split_from-append word (c ∷ cs) rest h =
    let fine : is_space c ≡ false = ground arith in
    rw (split_from, fine)
      (split_from-append (word ++ c ∷ []) cs rest (ground arith)
        ∙ ap (λ x. push_word x (split_from [] rest)) (append_assoc word (c ∷ []) cs))

split_from-word :
    (word w : List ℕ) → none_of is_space w ≡ true → split_from word w ≡ push_word (word ++ w) []
unfolding split_from
split_from-word word [] h = ap (λ x. push_word x []) (sym (append-nil word))
split_from-word word (c ∷ cs) h =
    let fine : is_space c ≡ false = ground arith in
    rw (split_from, fine)
      (split_from-word (word ++ c ∷ []) cs (ground arith)
        ∙ ap (λ x. push_word x []) (append_assoc word (c ∷ []) cs))

push_word-cons : (w : List ℕ) (ws : List (List ℕ)) → is_empty w ≡ false → push_word w ws ≡ w ∷ ws
push_word-cons [] ws h = cc
push_word-cons (c ∷ cs) ws h = refl

pub split_whitespace-join :
    (w : List ℕ) (ws : List (List ℕ))
    → IsWord w
    → AllWords ws
    → split_whitespace (join w ws) ≡ w ∷ ws
unfolding split_whitespace
split_whitespace-join w [] h t =
    split_from-word [] w (none_of-breaks_space w h.1) ∙ push_word-cons w [] h.0
split_whitespace-join w (v ∷ vs) h t =
    split_from-append [] w (join v vs) (none_of-breaks_space w h.1)
    ∙ (push_word-cons w (split_from [] (join v vs)) h.0
        ∙ ap (λ x. w ∷ x) (split_whitespace-join v vs t.0 t.1))
