-- ===== src/Fault/Reads.antt =====
-- What a read of ublkfault/src/model.rs shows.
use ublkera.Base.{
  ℕ, ◌+◌, ◌%◌, ◌^◌, ◌≤◌, ◌<◌, ◌≡◌, refl, ap, ◌∙◌, some, List, [], ◌∷◌, length, get_or, slice, arith,
  u64,
}
use ublkera.Fault.{Model, Entry, overlay, overlay_all, read}
use ublkera.Fault.Bytes.{get_or-slice, length-slice, length-overlay, get_or-overlay}
use ublkera.Fault.View.{seen, view, AllFit, IsValid}

pub overlay_all-seen :
    (out : List ℕ) (woff size : ℕ) (entries : List Entry)
    → AllFit size entries
    → size < 2 ^ 63
    → woff + length out ≤ size
    → (length (overlay_all out woff entries) ≡ length out)
      × ((i : ℕ)
          → i < length out
          → get_or (overlay_all out woff entries) i 0 ≡ seen entries (woff + i) (get_or out i 0))
unfolding overlay_all
overlay_all-seen out woff size [] f small h = (refl, λ i p. refl)
overlay_all-seen out woff size ((doff, payload) ∷ entries) f small h =
    let fits : doff + length payload ≤ size = f.0 in
    let len : length (overlay out woff doff payload) ≡ length out =
      length-overlay out woff doff payload (omega arith) (omega arith) in
    let (same, bytes) =
      overlay_all-seen (overlay out woff doff payload) woff size entries f.1 small
        (omega (arith, len)) in
    (
      same ∙ len,
      λ i p.
          bytes i (omega (arith, len))
          ∙ ap (seen entries (woff + i))
              (get_or-overlay out woff doff payload (omega arith) (omega arith) i p),
    )

-- On a valid model, a read inside the device does not panic, returns the bytes of the view, and
-- changes nothing but its counter, which goes up by one modulo 2 ^ 64; so no byte of the view
-- changes, and the model stays valid, with its size and its policy.
pub read-view :
    (off len : ℕ) {m : Model}
    → IsValid m
    → off + len ≤ length m.committed
    → (m' : Model) × (out : List ℕ) × (read off len m ≡ some (m', out))
      × (length out ≡ len)
      × ((i : ℕ) → i < len → get_or out i 0 ≡ view m (off + i))
      × IsValid m'
      × ((b : ℕ) → view m' b ≡ view m b)
      × (length m'.committed ≡ length m.committed)
      × (m'.policy ≡ m.policy)
      × (m' ≡ record m { stats = record m.stats { reads = (m.stats.reads + 1) % 2 ^ 64 } })
unfolding read
read-view off len {m} v h =
    let window : List ℕ = slice off (off + len) m.committed in
    let size : length window ≡ len = length-slice off (off + len) m.committed h ∙ omega arith in
    let (same, bytes) =
      overlay_all-seen window off (length m.committed) m.volatile v.fit v.size_fits
        (omega (arith, size)) in
    (
      record m { stats = record m.stats { reads = u64 (m.stats.reads + 1) } },
      overlay_all window off m.volatile,
      ground arith,
      same ∙ size,
      λ i p.
          bytes i (omega (arith, size))
          ∙ ap (seen m.volatile (off + i))
              (get_or-slice off (off + len) i m.committed (omega arith)),
      record {
        block = v.block;
        size_fits = v.size_fits;
        cap_fits = v.cap_fits;
        fit = v.fit;
        counted = v.counted;
        capped = v.capped;
      },
      λ b. refl,
      refl,
      refl,
      refl,
    )
