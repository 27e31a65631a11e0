-- ===== src/Injector/Disk.antt =====
-- The requests of ublkfault/src/main.rs on a disk model that injects no fault: what they leave of
-- its bytes.
use ublkera.Base.{
  ℕ, zero, suc, ◌+◌, ◌≤◌, ◌<◌, ◌≡◌, refl, ap, ap₂, sym, ◌∙◌, true, List, [], ◌∷◌, ◌++◌, length,
  take, drop, get_or, overwrite, leb, arith,
}
use mathlib.Core.List.{append-nil}
use ublkera.Fault.{Model, overlay_all}
use ublkera.Fault.View.{view, seen, IsValid}
use ublkera.Fault.Bytes.{shadow, get_or-ext, get_or-overwrite, length-overwrite}
use ublkera.Fault.Reads.{overlay_all-seen}

-- The bytes that readers see.
abbrev pub contents : Model → List ℕ
contents m = overlay_all m.committed 0 m.volatile

-- A valid model whose policy injects nothing.
pub record Calm (m : Model) : Type 0 where
  pub valid : IsValid m
  pub no_error : m.policy.error_pm ≡ 0
  pub no_lie : m.policy.flush_lie_pm ≡ 0
  pub no_hang : m.policy.hang_pm ≡ 0

pub length-contents : (m : Model) → IsValid m → length (contents m) ≡ length m.committed
length-contents m v =
    (overlay_all-seen m.committed 0 (length m.committed) m.volatile v.fit v.size_fits
      (omega arith)).0

pub get_or-contents :
    (m : Model) (b : ℕ) → IsValid m → b < length m.committed → get_or (contents m) b 0 ≡ view m b
get_or-contents m b v h =
    let home : 0 + b ≡ b = omega arith in
    (overlay_all-seen m.committed 0 (length m.committed) m.volatile v.fit v.size_fits
        (omega arith)).1
      b h
    ∙ ap (λ i. seen m.volatile i (get_or m.committed b 0)) home

-- A model shows these bytes.
pub contents-eq :
    (m : Model) (xs : List ℕ)
    → IsValid m
    → length m.committed ≡ length xs
    → ((b : ℕ) → b < length xs → view m b ≡ get_or xs b 0)
    → contents m ≡ xs
contents-eq m xs v size same =
    let len = length-contents m v in
    get_or-ext (contents m) xs (len ∙ size)
      (λ b h. get_or-contents m b v (omega (arith, h, len)) ∙ same b (omega (arith, h, len, size)))

-- The same bytes, whatever the generator and the counters.
pub contents-kept :
    (m m' : Model)
    → IsValid m
    → IsValid m'
    → length m'.committed ≡ length m.committed
    → ((b : ℕ) → view m' b ≡ view m b)
    → contents m' ≡ contents m
contents-kept m m' v v' size same =
    let len = length-contents m v in
    contents-eq m' (contents m) v' (size ∙ sym len)
      (λ b h. same b ∙ sym (get_or-contents m b v (omega (arith, h, len))))

pub le→leb : (a b : ℕ) → a ≤ b → leb a b ≡ true
le→leb a b h = ground arith

pub take-all : (xs : List ℕ) → take (length xs) xs ≡ xs
take-all [] = refl
take-all (x ∷ xs) = ap (λ l. x ∷ l) (take-all xs)

drop-all : (n : ℕ) (xs : List ℕ) → length xs ≤ n → drop n xs ≡ []
drop-all zero [] h = refl
drop-all (suc n) [] h = refl
drop-all zero (x ∷ xs) h = absurd (omega (arith, h))
drop-all (suc n) (x ∷ xs) h = drop-all n xs (omega (arith, h))

-- A buffer that is filled to its end.
pub overwrite-all : (ys xs : List ℕ) → length xs ≤ length ys → overwrite 0 ys xs ≡ ys
overwrite-all ys xs h =
    ap (λ l. ys ++ l) (drop-all (0 + length ys) xs (omega (arith, h))) ∙ append-nil ys

pub kept-Calm : (m m' : Model) → Calm m → IsValid m' → m'.policy ≡ m.policy → Calm m'
kept-Calm m m' c v same = record {
  valid = v;
  no_error = ap (λ p. p.error_pm) same ∙ c.no_error;
  no_lie = ap (λ p. p.flush_lie_pm) same ∙ c.no_lie;
  no_hang = ap (λ p. p.hang_pm) same ∙ c.no_hang;
}

-- What a request that is served leaves: a calm model of the same size, with these bytes.
pub record Leaves (m : Model) (bytes : List ℕ) (m' : Model) : Type 0 where
  pub calm : Calm m'
  pub same_size : length m'.committed ≡ length m.committed
  pub shows : contents m' ≡ bytes

pub contents-Wrote :
    (off : ℕ) (bytes reached : List ℕ) (m m' : Model)
    → IsValid m
    → IsValid m'
    → length m'.committed ≡ length m.committed
    → off + length bytes ≤ length m.committed
    → ((b : ℕ) → view m' b ≡ shadow off reached b (view m b))
    → reached ≡ bytes
    → contents m' ≡ overwrite off bytes (contents m)
contents-Wrote off bytes reached m m' v v' size fits shows all =
    let len = length-contents m v in
    let inside : off + length bytes ≤ length (contents m) = omega (arith, len, fits) in
    let over = length-overwrite off bytes (contents m) inside in
    contents-eq m' (overwrite off bytes (contents m)) v' (size ∙ sym (over ∙ len)) (λ b h.
      shows b
      ∙ (ap₂ (λ r x. shadow off r b x) all
            (sym (get_or-contents m b v (omega (arith, h, len, over))))
          ∙ sym (get_or-overwrite off bytes (contents m) b inside)))
