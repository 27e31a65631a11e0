-- ===== src/Chaos/Flight/Adopt.antt =====
-- The ranges of interrupted writes in src/bin/chaos.rs: adopting what the device has in them makes
-- `expected` the device again, whichever bytes landed.
use ublkera.Base.{
  ℕ, suc, ◌+◌, ◌-◌, ◌≤◌, ◌≡◌, refl, ap, sym, ◌∙◌, Bool, false, ◌&&◌, ◌||◌, some, List, [], ◌∷◌,
  length, get_or, slice, overwrite, leb, ltb, if◌then◌else◌, arith, Bool-cases, inl, inr, ok,
}
use ublkera.Fault.Bytes.{get_or-overwrite, length-overwrite, length-slice, get_or-slice}
use ublkera.Chaos.{Harness}
use ublkera.Chaos.Copy.{read_at-eq}
use ublkera.Fault.Bytes.{get_or-ext}
use ublkera.Chaos.Flight.{Torn, blend, tear, adopt}

-- Byte `b` lies in the range of one of them.
abbrev meets : List Torn → ℕ → Bool
meets [] b = false
meets (t ∷ ts) b = (leb t.write.off b && ltb b (t.write.off + length t.write.bytes)) || meets ts b

abbrev pub Inside : ℕ → List Torn → Type 0
Inside n [] = Unit
Inside n (t ∷ ts) = (t.write.off + length t.write.bytes ≤ n) × Inside n ts

length-blend : (mask : List Bool) (new old : List ℕ) → length (blend mask new old) ≡ length old
unfolding blend
length-blend [] new old = refl
length-blend (m ∷ mask) [] old = refl
length-blend (m ∷ mask) (b ∷ new) [] = refl
length-blend (m ∷ mask) (b ∷ new) (a ∷ old) = ap suc (length-blend mask new old)

-- What a write that was torn leaves in its range.
abbrev remains : Torn → List ℕ → List ℕ
remains t image =
    blend t.mask t.write.bytes (slice t.write.off (t.write.off + length t.write.bytes) image)

length-remains :
    (t : Torn) (image : List ℕ)
    → t.write.off + length t.write.bytes ≤ length image
    → length (remains t image) ≡ length t.write.bytes
length-remains t image fits =
    let w = t.write in
    omega (
      arith,
      length-blend t.mask w.bytes (slice w.off (w.off + length w.bytes) image),
      length-slice w.off (w.off + length w.bytes) image fits,
    )

pub length-tear :
    (ts : List Torn) (image : List ℕ)
    → Inside (length image) ts
    → length (tear ts image) ≡ length image
unfolding tear
length-tear [] image h = refl
length-tear (t ∷ ts) image (fits, h) =
    let piece = length-remains t image fits in
    let len : length (overwrite t.write.off (remains t image) image) ≡ length image =
      length-overwrite t.write.off (remains t image) image (omega (arith, piece, fits)) in
    length-tear ts (overwrite t.write.off (remains t image) image) (rw len h) ∙ len

-- Bytes outside of the ranges stay.
tear-outside :
    (ts : List Torn) (image : List ℕ) (b : ℕ)
    → Inside (length image) ts
    → meets ts b ≡ false
    → get_or (tear ts image) b 0 ≡ get_or image b 0
unfolding tear
tear-outside [] image b h out = refl
tear-outside (t ∷ ts) image b (fits, h) out =
    let piece = length-remains t image fits in
    let len : length (overwrite t.write.off (remains t image) image) ≡ length image =
      length-overwrite t.write.off (remains t image) image (omega (arith, piece, fits)) in
    tear-outside ts (overwrite t.write.off (remains t image) image) b (rw len h)
      (ground (arith, out))
    ∙ ground (
      arith,
      piece,
      out,
      get_or-overwrite t.write.off (remains t image) image b (omega (arith, piece, fits)),
    )

adopt-adopts :
    (ts : List Torn) (h : Harness) {id : ℕ}
    → h.dev_id ≡ some id
    → Inside (length h.image) ts
    → length h.expected ≡ length h.image
    → (out : List ℕ) × (adopt ts h ≡ ok (record h { expected = out }))
      × (length out ≡ length h.image)
      × ((b : ℕ)
          → get_or out b 0 ≡ (if meets ts b then get_or h.image b 0 else get_or h.expected b 0))
unfolding adopt
adopt-adopts [] h attached inside size = (h.expected, refl, size, λ b. refl)
adopt-adopts (t ∷ ts) h attached (fits, inside) size =
    let off : ℕ = t.write.off in
    let len : ℕ = length t.write.bytes in
    let bytes : List ℕ = slice off (off + len) h.image in
    let piece = length-slice off (off + len) h.image fits in
    let first : List ℕ = overwrite off bytes h.expected in
    let size1 : length first ≡ length h.image =
      length-overwrite off bytes h.expected (omega (arith, piece, size, fits)) ∙ size in
    let (out, run, len', got) =
      adopt-adopts ts (record h { expected = first }) attached inside size1 in
    (
      out,
      rw (adopt, read_at-eq h attached off len fits) run,
      len',
      λ b.
          got b
          ∙ ground (
            arith,
            piece,
            get_or-overwrite off bytes h.expected b (omega (arith, piece, size, fits)),
            get_or-slice off (off + len) (b - off) h.image,
          ),
    )

-- Adopting makes `expected` the device, when it was the device before the writes were torn.
pub adopt-tear :
    (ts : List Torn) (h : Harness) (image : List ℕ) {id : ℕ}
    → h.dev_id ≡ some id
    → Inside (length image) ts
    → h.image ≡ tear ts image
    → h.expected ≡ image
    → adopt ts h ≡ ok (record h { expected = tear ts image })
adopt-tear ts h image attached inside torn before =
    let same : length h.image ≡ length image = ap length torn ∙ length-tear ts image inside in
    let (out, run, len, got) =
      adopt-adopts ts h attached (rw same inside) (ap length before ∙ sym same) in
    let done : out ≡ tear ts image = get_or-ext out (tear ts image) (len ∙ ap length torn) (λ b lt.
      elim (Bool-cases (meets ts b)) [
        | inl hit ↦ got b ∙ rw hit (ap (λ x. get_or x b 0) torn)
        | inr miss ↦
            got b
            ∙ rw miss (ap (λ x. get_or x b 0) before ∙ sym (tear-outside ts image b inside miss))
      ]) in
    run ∙ ap (λ x. ok (record h { expected = x })) done
