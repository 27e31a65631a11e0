-- ===== src/Injector/Pieces.antt =====
-- Transfers to a device of ublkfault/src/main.rs that the kernel cuts into several requests.
use mathlib.Core.List.{append-nil}
use ublkera.Base.{
  ℕ, ◌+◌, ◌-◌, ◌*◌, ◌≤◌, ◌≡◌, refl, ap, ap₂, sym, ◌∙◌, some, List, [], ◌∷◌, ◌++◌, length, take,
  drop, slice, overwrite, arith, length-take_of_le, length-drop, take-append-drop,
}
use ublkera.Injector.{Shared}
use ublkera.Injector.Disk.{contents, length-contents, Calm}
use ublkera.Injector.Kernel.{write_pieces, read_pieces, total, more_bytes}
use ublkera.Injector.Transfers.{LeavesShared, issue-write, issue-read, overwrite-parts, slice-parts}

overwrite-nil : (off : ℕ) (xs : List ℕ) → overwrite off [] xs ≡ xs
overwrite-nil off xs =
    ap (λ i. (take off xs ++ []) ++ drop i xs) (omega arith)
    ∙ (ap (λ l. l ++ drop off xs) (append-nil (take off xs)) ∙ take-append-drop off xs)

nil_of_length : (xs : List ℕ) → length xs ≡ 0 → xs ≡ []
nil_of_length [] h = refl
nil_of_length (x ∷ xs) h = absurd (omega (arith, h))

pub write_pieces-Leaves :
    (ns : List ℕ) (sector : ℕ) (bytes : List ℕ) (s : Shared)
    → Calm s.model
    → length bytes ≡ total ns * 512
    → sector * 512 + length bytes ≤ length s.model.committed
    → (s' : Shared) × (write_pieces ns sector bytes s ≡ some s')
      × LeavesShared s (overwrite (sector * 512) bytes (contents s.model)) s'
unfolding write_pieces
write_pieces-Leaves [] sector bytes s c size fits = (
  s,
  refl,
  record {
    calm = c;
    same_size = refl;
    shows = sym (
        ap (λ l. overwrite (sector * 512) l (contents s.model))
          (nil_of_length bytes (omega (arith, size)))
        ∙ overwrite-nil (sector * 512) (contents s.model));
  },
)
write_pieces-Leaves (n ∷ ns) sector bytes s c size fits =
    let part : n * 512 ≤ length bytes = omega (arith, size) in
    let front : length (take (n * 512) bytes) ≡ n * 512 = length-take_of_le (n * 512) bytes part in
    let back = length-drop (n * 512) bytes in
    let (s1, issued, leaves) =
      issue-write sector n (take (n * 512) bytes) s c front (omega (arith, fits, part)) in
    let (s2, run, leaves2) =
      write_pieces-Leaves ns (sector + n) (drop (n * 512) bytes) s1 leaves.calm
        (omega (arith, back, size)) (omega (arith, back, part, fits, leaves.same_size)) in
    let home : (sector + n) * 512 ≡ sector * 512 + n * 512 = omega arith in
    let room : sector * 512 + length bytes ≤ length (contents s.model) =
      omega (arith, fits, length-contents s.model c.valid) in
    (
      s2,
      rw (write_pieces, issued) run,
      record {
        calm = leaves2.calm;
        same_size = leaves2.same_size ∙ leaves.same_size;
        shows =
            leaves2.shows
            ∙ (ap₂ (λ o l. overwrite o (drop (n * 512) bytes) l) home leaves.shows
                ∙ overwrite-parts (sector * 512) (n * 512) bytes (contents s.model) part room);
      },
    )

slice-nil : (lo hi : ℕ) (xs : List ℕ) → lo ≡ hi → slice lo hi xs ≡ []
slice-nil lo hi xs same =
    let none_left : hi - lo ≡ 0 = omega (arith, same) in ap (λ k. take k (drop lo xs)) none_left

pub read_pieces-Leaves :
    (ns : List ℕ) (sector : ℕ) (s : Shared)
    → Calm s.model
    → sector * 512 + total ns * 512 ≤ length s.model.committed
    → (s' : Shared) × (read_pieces ns sector s
        ≡ some (s', slice (sector * 512) (sector * 512 + total ns * 512) (contents s.model)))
      × LeavesShared s (contents s.model) s'
unfolding read_pieces
read_pieces-Leaves [] sector s c fits = (
  s,
  ap (λ l. some (s, l))
      (sym (slice-nil (sector * 512) (sector * 512 + 0 * 512) (contents s.model) (omega arith))),
  record { calm = c; same_size = refl; shows = refl },
)
read_pieces-Leaves (n ∷ ns) sector s c fits =
    let (s1, issued, leaves) = issue-read sector n s c (omega (arith, fits)) in
    let (s2, run, leaves2) =
      read_pieces-Leaves ns (sector + n) s1 leaves.calm (omega (arith, fits, leaves.same_size)) in
    let all : List ℕ = contents s.model in
    let mid : ℕ = sector * 512 + n * 512 in
    let hi : ℕ = sector * 512 + (n + total ns) * 512 in
    let home : (sector + n) * 512 ≡ mid = omega arith in
    let end : (sector + n) * 512 + total ns * 512 ≡ hi = omega arith in
    let rest : slice ((sector + n) * 512) ((sector + n) * 512 + total ns * 512) (contents s1.model)
        ≡ slice mid hi all =
      ap (slice ((sector + n) * 512) ((sector + n) * 512 + total ns * 512)) leaves.shows
      ∙ ap₂ (λ x y. slice x y all) home end in
    let whole : slice (sector * 512) mid all ++ slice mid hi all ≡ slice (sector * 512) hi all =
      slice-parts (sector * 512) mid hi all (omega arith) (omega arith)
        (omega (arith, fits, length-contents s.model c.valid)) in
    (
      s2,
      rw (read_pieces, issued)
          (ap (more_bytes (slice (sector * 512) mid all)) run
            ∙ ap (λ l. some (s2, l)) (ap (λ l. slice (sector * 512) mid all ++ l) rest ∙ whole)),
      record {
        calm = leaves2.calm;
        same_size = leaves2.same_size ∙ leaves.same_size;
        shows = leaves2.shows ∙ leaves.shows;
      },
    )
