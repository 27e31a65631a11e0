-- ===== src/Chaos/Copy.antt =====
-- The copies of src/bin/chaos.rs: what the loops over pieces read out of the device.
use ublkera.Base.{
  ℕ, zero, suc, ◌+◌, ◌-◌, ◌*◌, ◌/◌, ◌^◌, ◌≤◌, ◌<◌, ◌≡◌, refl, ap, sym, ◌∙◌, min, true, false, ◌&&◌,
  some, List, [], ◌∷◌, length, replicate, get_or, slice, overwrite, list_eq, leb, ltb,
  if◌then◌else◌, arith, Bool-cases, inl, inr, ok, length-replicate, eq→==,
}
use ublkera.Era.{DirtyRange}
use ublkera.Era.Ranges.{covers, Separated}
use ublkera.Fault.Bytes.{get_or-ext, get_or-overwrite, length-overwrite, get_or-slice, length-slice}
use ublkera.Chaos.{Harness, read_at, copy_loop, pieces, read_device, copy_ranges, diff}

pub le→leb : (a b : ℕ) → a ≤ b → leb a b ≡ true
le→leb a b h = ground arith

pub list_eq_refl : (xs : List ℕ) → list_eq xs xs ≡ true
list_eq_refl [] = refl
list_eq_refl (x ∷ xs) = rw (eq→== x x refl, list_eq_refl xs) refl

pub list_eq→≡ : (xs ys : List ℕ) → list_eq xs ys ≡ true → xs ≡ ys
list_eq→≡ [] [] h = refl
list_eq→≡ [] (y ∷ ys) h = cc
list_eq→≡ (x ∷ xs) [] h = cc
list_eq→≡ (x ∷ xs) (y ∷ ys) h = ground (arith, list_eq→≡ xs ys)

pub diff_refl : (xs : List ℕ) → diff xs xs ≡ ok tt
unfolding diff
diff_refl xs = rw (diff, list_eq_refl xs) refl

module _ (h : Harness) {id : ℕ} (attached : h.dev_id ≡ some id) where
  pub read_at-eq :
      (off len : ℕ)
      → off + len ≤ length h.image
      → read_at off len h ≡ ok (slice off (off + len) h.image)
  unfolding read_at
  read_at-eq off len fits = rw (attached, le→leb _ _ fits) refl

  -- One piece, and what is left of the buffer.
  piece_at :
      (off n b : ℕ) (out : List ℕ)
      → off + n ≤ length h.image
      → off + n ≤ length out
      → (length (overwrite off (slice off (off + n) h.image) out) ≡ length out)
        × (get_or (overwrite off (slice off (off + n) h.image) out) b 0
            ≡ (if leb off b && ltb b (off + n) then get_or h.image b 0 else get_or out b 0))
  piece_at off n b out fits room =
      let piece : List ℕ = slice off (off + n) h.image in
      let len = length-slice off (off + n) h.image fits in
      (
        length-overwrite off piece out (omega (arith, len)),
        get_or-overwrite off piece out b (omega (arith, len))
            ∙ ground (arith, len, get_or-slice off (off + n) (b - off) h.image),
      )

  module _ (off len : ℕ) (fits : off + len ≤ length h.image) where
    -- With fuel for the pieces that are left, the loop ends, and the buffer has the bytes of the
    -- device from `pos` on.
    copy_loop-from :
        (fuel pos : ℕ) (out : List ℕ)
        → len ≤ pos + fuel * 2 ^ 20
        → off + len ≤ length out
        → (out' : List ℕ) × (copy_loop (suc fuel) off len pos h out ≡ ok out')
          × (length out' ≡ length out)
          × ((b : ℕ)
              → get_or out' b 0 ≡ (
                  if leb (off + pos) b && ltb b (off + len)
                  then get_or h.image b 0
                  else get_or out b 0))
    unfolding copy_loop
    copy_loop-from zero pos out left room =
        let done : ltb pos len ≡ false = ground arith in
        (out, rw (copy_loop, done) refl, refl, λ b. ground arith)
    copy_loop-from (suc fuel) pos out left room = elim (Bool-cases (ltb pos len)) [
      | inr done ↦ (out, rw (copy_loop, done) refl, refl, λ b. ground arith)
      | inl more ↦
          let lt : pos < len = ground arith in
          let n : ℕ = min (len - pos) (2 ^ 20) in
          let out1 : List ℕ =
            overwrite (off + pos) (slice (off + pos) (off + pos + n) h.image) out in
          let inside : off + pos + n ≤ length h.image = omega arith in
          let place : off + pos + n ≤ length out = omega arith in
          let len1 = (piece_at (off + pos) n 0 out inside place).0 in
          let (out', run, len', bytes) =
            copy_loop-from fuel (pos + n) out1 (omega arith) (omega (arith, len1)) in
          (
            out',
            rw (copy_loop, more, read_at-eq (off + pos) n inside, le→leb _ _ place) run,
            len' ∙ len1,
            λ b. bytes b ∙ ground (arith, (piece_at (off + pos) n b out inside place).1),
          )
    ]

    pub copy_loop-copies :
        (out : List ℕ)
        → off + len ≤ length out
        → (out' : List ℕ) × (copy_loop (pieces len) off len 0 h out ≡ ok out')
          × (length out' ≡ length out)
          × ((b : ℕ)
              → get_or out' b 0
                ≡ (if leb off b && ltb b (off + len) then get_or h.image b 0 else get_or out b 0))
    copy_loop-copies out room =
        let (out', run, len', bytes) = copy_loop-from (len / 2 ^ 20 + 1) 0 out (omega arith) room in
        (out', run, len', λ b. bytes b ∙ ground arith)

-- With a device attached whose backing file has the size of the run, the loop of `read_device` ends
-- within its fuel, with the bytes of the file.
pub read_device-reads :
    (h : Harness) {id : ℕ}
    → h.dev_id ≡ some id
    → length h.image ≡ h.size
    → read_device h ≡ ok h.image
unfolding read_device
read_device-reads h attached sized =
    let blank = length-replicate {A = ℕ} h.size 0 in
    let (out, run, len, bytes) =
      copy_loop-copies h attached 0 h.size (omega (arith, sized)) (replicate h.size 0)
        (omega (arith, blank)) in
    run
    ∙ ap ok (
        get_or-ext out h.image (len ∙ (blank ∙ sym sized))
          (λ b lt. bytes b ∙ ground (arith, len, blank)))

Separated-tail :
    (r : DirtyRange) (rs : List DirtyRange) (end : ℕ) → Separated (r ∷ rs) end → Separated rs end
Separated-tail r [] end s = tt
Separated-tail r (q ∷ rs) end s = s.2

-- Ranges that are apart and end by `end` lie before it.
Separated-within :
    (r : DirtyRange) (rs : List DirtyRange) {end : ℕ}
    → Separated (r ∷ rs) end
    → r.offset + r.len ≤ end
Separated-within r [] s = s.1
Separated-within r (q ∷ rs) s = omega (arith, s.1, Separated-within q rs s.2)

-- The backup's loop over ranges takes the bytes of the device in them, and leaves the others.
pub copy_ranges-copies :
    (rs : List DirtyRange) (h : Harness) {id end : ℕ}
    → h.dev_id ≡ some id
    → Separated rs end
    → end ≤ length h.image
    → end ≤ length h.shadow
    → (out : List ℕ) × (copy_ranges rs h ≡ ok (record h { shadow = out }))
      × (length out ≡ length h.shadow)
      × ((b : ℕ)
          → get_or out b 0 ≡ (if covers rs b then get_or h.image b 0 else get_or h.shadow b 0))
unfolding copy_ranges covers
copy_ranges-copies [] h attached apart fits room = (h.shadow, refl, refl, λ b. refl)
copy_ranges-copies (r ∷ rs) h {end = end} attached apart fits room =
    let last = Separated-within r rs apart in
    let (one, run, len, bytes) =
      copy_loop-copies h attached r.offset r.len (omega (arith, last)) h.shadow
        (omega (arith, last)) in
    let (out, rest, len', bytes') =
      copy_ranges-copies rs (record h { shadow = one }) attached (Separated-tail r rs end apart)
        fits (omega (arith, len)) in
    (out, rw (copy_ranges, run) rest, len' ∙ len, λ b. bytes' b ∙ ground (arith, bytes b))
