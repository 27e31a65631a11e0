-- ===== src/Chaos/Writes.antt =====
-- The writes of src/bin/chaos.rs: each marks the tracker of the device, so that the backup stays
-- behind the cursor, and reaches the backing file as it reaches `expected`.
use ublkera.Base.{
  ℕ, zero, suc, ◌+◌, ◌/◌, ◌<◌, ◌≤◌, ◌≡◌, refl, ap, sym, ◌∙◌, Option, List, [], length, overwrite,
  ok, arith, inl, inr, Bool-cases,
}
use ublkera.Era.{EraState}
use ublkera.Era.Mark.{era_at, mark_write-stamps}
use ublkera.Era.Calm.{Grown, mark_write-Grown}
use ublkera.Fault.Bytes.{hits, get_or-overwrite, length-overwrite}
use ublkera.Meta.Save.{Disk}
use ublkera.Manager.Generation.{show_hex}
use ublkera.Ctl.Session.{written-alone}
use ublkera.Chaos.{Harness, write_at}
use ublkera.Chaos.Rng.{Write, draw, draw-within, below}
use ublkera.Chaos.Ops.{write_one, burst, op_write_burst}
use ublkera.Chaos.Copy.{le→leb}
use ublkera.Chaos.Live.{Config, live, Behind, Sound, Live, Sized}

-- A write that the device has room for.
pub record Fits (c : Config) (w : Write) : Type 0 where
  pub bytes : 0 < length w.bytes
  pub room : w.off + length w.bytes ≤ c.size

abbrev pub after : Write → List ℕ → List ℕ
after w image = overwrite w.off w.bytes image

-- The marks of a write keep the backup behind the cursor.
Behind-write :
    (c : Config) {st t : EraState} (image shadow : List ℕ) {e : ℕ} (w : Write)
    → w.off + length w.bytes ≤ length image
    → Grown st t
    → t.granularity ≡ st.granularity
    → e < t.current_era
    → ((b : ℕ) → w.off ≤ b → b < w.off + length w.bytes → era_at t b ≡ t.current_era)
    → Behind c st image shadow e
    → Behind c t (after w image) shadow e
Behind-write c {st = st} {t = t} image shadow w fits grown gran old marked behind b lt =
    let put = get_or-overwrite w.off w.bytes image b fits in
    elim (Bool-cases (hits w.off w.bytes b)) [
      | inl hit ↦ inr (ground (arith, marked b, hit, old))
      | inr miss ↦ elim (behind b lt) [
        | inl same ↦ inl (ground (arith, put, same, miss))
        | inr newer ↦
            let up : era_at st b ≤ era_at t b = rw gran (grown.newer (b / st.granularity)) in
            inr (omega (arith, newer, up))
      ]
    ]

module _ {c : Config} {n : ℕ} {gens : List ℕ} (id : ℕ) (st : EraState)
    (strays : List (Option ℕ × EraState)) (d : Disk) (image shadow : List ℕ)
    (cursor : Option (ℕ × ℕ)) (w : Write) where
  pub write_at-live :
      (expected : List ℕ)
      → Fits c w
      → Sound c n gens st d image shadow cursor
      → (t : EraState) × (write_at w (live c id st strays d image expected shadow cursor)
          ≡ ok (live c id t strays d (after w image) expected shadow cursor))
        × Sound c n gens t d (after w image) shadow cursor
        × (t.generation ≡ st.generation)
  unfolding write_at
  write_at-live expected f s =
      let inside : w.off + length w.bytes ≤ length image = omega (arith, f.room, s.image_size) in
      let (t, run, valid, up, gran, size, marked, others) =
        mark_write-stamps [] w.off (length w.bytes) s.tracks.valid f.bytes
          (omega (arith, f.room, s.tracks.sized)) (omega (arith, s.room)) in
      let grown : Grown st t = mark_write-Grown w.off (length w.bytes) st run in
      (
        t,
        rw
            (
              write_at,
              le→leb _ _ inside,
              written-alone id c.backing c.meta st strays d [] w.off (length w.bytes) run,
            )
            (ap
              (λ g. ok (record (live c id t strays d (after w image) expected shadow cursor) {
                generation = show_hex g;
              }))
              (sym grown.generation)),
        record {
          tracks = record {
            valid = valid;
            gran = gran ∙ s.tracks.gran;
            sized = size ∙ s.tracks.sized;
            gen = omega (arith, s.tracks.gen, grown.generation);
            started = omega (arith, s.tracks.started, up);
          };
          stored = record {
            saved = s.stored.saved;
            tracks = s.stored.tracks;
            generation = s.stored.generation ∙ sym grown.generation;
            current_era = s.stored.current_era ∙ sym grown.current_era;
            there = s.stored.there;
            takes = s.stored.takes;
          };
          image_size = length-overwrite w.off w.bytes image inside ∙ s.image_size;
          shadow_size = s.shadow_size;
          synced = λ g e at same.
              let (old, behind) = s.synced g e at (same ∙ grown.generation) in
              let old1 : e < t.current_era = omega (arith, old, up) in
              (old1, Behind-write c image shadow w inside grown gran old1 marked behind);
          seen = λ x fresh same. s.seen x fresh (same ∙ grown.generation);
          known = s.known;
          room = omega (arith, s.room, grown.current_era);
        },
        grown.generation,
      )

  pub write_one-live :
      Fits c w
      → Sound c n gens st d image shadow cursor
      → (t : EraState) × (write_one w (live c id st strays d image image shadow cursor)
          ≡ ok (live c id t strays d (after w image) (after w image) shadow cursor))
        × Sound c n gens t d (after w image) shadow cursor
  unfolding write_one
  write_one-live f s =
      let (t, run, s1, same) = write_at-live image f s in (t, rw (write_one, run) refl, s1)

-- A write that is drawn for the whole device fits.
draw-Fits : {c : Config} (rng : ℕ) → Sized c → Fits c (draw 0 c.size rng).1
draw-Fits {c} rng z =
    let (some_bytes, low, high) = draw-within 0 c.size rng z.blocks in
    record { bytes = some_bytes; room = omega (arith, high) }

burst-Live :
    {c : Config} {n : ℕ} {gens : List ℕ} (count rng : ℕ) {h : Harness}
    → Sized c
    → Live c n gens h
    → (h' : Harness) × (rng' : ℕ) × (burst count rng h ≡ ok (h', rng')) × Live c n gens h'
unfolding burst
burst-Live zero rng {h = h} z l = (h, rng, refl, l)
burst-Live {c = c} {n = n} {gens = gens} (suc count) rng {h = h} z l =
    let w : Write = (draw 0 c.size rng).1 in
    let (t, run, s) =
      write_one-live l.id l.st l.strays l.disk l.image l.shadow l.cursor w (draw-Fits rng z)
        l.sound in
    let next : Live c n gens
        (live c l.id t l.strays l.disk (after w l.image) (after w l.image) l.shadow l.cursor) =
      record {
        id = l.id;
        st = t;
        strays = l.strays;
        disk = l.disk;
        image = after w l.image;
        shadow = l.shadow;
        cursor = l.cursor;
        shape = refl;
        sound = s;
      } in
    let (h', rng', rest, l') = burst-Live count (draw 0 c.size rng).0 z next in
    (h', rng', ap (burst (suc count) rng) l.shape ∙ rw (burst, run) rest, l')

-- A burst of random writes succeeds and leaves the harness live.
pub op_write_burst-Live :
    {c : Config} {n : ℕ} {gens : List ℕ} (rng : ℕ) {h : Harness}
    → Sized c
    → Live c n gens h
    → (h' : Harness) × (rng' : ℕ) × (op_write_burst rng h ≡ ok (h', rng')) × Live c n gens h'
unfolding op_write_burst
op_write_burst-Live rng z l = burst-Live (1 + (below 24 rng).1) (below 24 rng).0 z l
