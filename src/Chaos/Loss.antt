-- ===== src/Chaos/Loss.antt =====
-- A loss of the metadata in src/bin/chaos.rs: a new history begins, and the old cursor is refused.
use ublkera.Base.{
  ℕ, ◌^◌, ◌<◌, ◌≡◌, ◌≢◌, refl, ap, sym, ◌∙◌, true, false, Option, none, some, List, ◌∷◌, list_eq,
  replicate, ltb, ◌≤◌, ok, arith, inl, inr, Bool-cases,
}
use ublkera.Era.{EraState, new, is_power_below, div_ceil}
use ublkera.Era.Valid.{new-IsValid}
use ublkera.Meta.Save.{Disk, store}
use ublkera.Manager.{obtain, from_file}
use ublkera.Manager.Generation.{show_hex, parse_hex, parse_hex-show_hex}
use ublkera.Ctl.{Luck}
use ublkera.Ctl.Session.{asks, Saved-Takes, Takes, perform-dump}
use ublkera.Chaos.{Harness, ctl}
use ublkera.Chaos.Ops.{remove_meta, reject_cursor, op_lose_meta}
use ublkera.Chaos.Copy.{list_eq→≡}
use ublkera.Chaos.Sync.{dump-foreign}
use ublkera.Chaos.Restart.{attach-idle, detach-live}
use ublkera.Chaos.Live.{Config, live, Tracks, Unseen, Sound, Live, Suits, Sized}

other_text : (a b : ℕ) → a < 2 ^ 64 → b < 2 ^ 64 → a ≢ b → list_eq (show_hex a) (show_hex b) ≡ false
other_text a b fa fb ne = elim (Bool-cases (list_eq (show_hex a) (show_hex b))) [
  | inl same ↦
      let read = ap parse_hex (list_eq→≡ (show_hex a) (show_hex b) same) in
      let pa = parse_hex-show_hex a fa in
      let pb = parse_hex-show_hex b fb in let e : a ≡ b = cc in absurd (ne e)
  | inr differ ↦ differ
]

new-made :
    (d g gen : ℕ)
    → is_power_below 64 g ≡ true
    → 4096 ≤ g
    → (t : EraState) × (new d g gen ≡ some t)
      × (t.granularity ≡ g)
      × (t.dev_size ≡ d)
      × (t.generation ≡ gen)
unfolding new
new-made d g gen power big =
    let fine : ltb g 4096 ≡ false = ground arith in
    (
      record {
        granularity = g;
        dev_size = d;
        generation = gen;
        current_era = 1;
        eras = replicate (div_ceil d g) 0;
      },
      rw (new, power, fine) refl,
      refl,
      refl,
      refl,
    )

-- With no metadata file, an attach starts a history with what /dev/urandom gives.
pub obtain-lost :
    {c : Config} (gen : ℕ) (d : Disk)
    → Sized c
    → gen < 2 ^ 64
    → d.file c.meta ≡ none
    → (t : EraState) × (obtain d (asks c.backing c.gran c.meta) c.size gen ≡ ok (t, false))
      × Tracks c t
      × (t.generation ≡ gen)
      × (t.current_era ≡ 1)
unfolding obtain from_file
obtain-lost {c} gen d z fits lost =
    let (t, made, grain, size, drawn) = new-made c.size c.gran gen z.power z.grain in
    let (valid, era, blank) = new-IsValid c.size c.gran gen z.small made in
    (
      t,
      rw (obtain, lost, from_file, made) refl,
      record {
        valid = valid;
        gran = grain;
        sized = size;
        gen = omega (arith, drawn, fits);
        started = omega (arith, era);
      },
      drawn,
      era,
    )

module _ {c : Config} {n : ℕ} {gens : List ℕ} (k : Luck) (id : ℕ) (st : EraState)
    (strays : List (Option ℕ × EraState)) (d : Disk) (image shadow : List ℕ) where
  reject_cursor-live :
      (cursor : Option (ℕ × ℕ))
      → Sound c n gens st d image shadow cursor
      → ((g e : ℕ) → cursor ≡ some (g, e) → g ≢ st.generation)
      → reject_cursor k (live c id st strays d image image shadow cursor)
        ≡ ok (live c id st strays d image image shadow cursor)
  unfolding reject_cursor ctl
  reject_cursor-live none s foreign = refl
  reject_cursor-live (some (g, e)) s foreign =
      rw
        (
          reject_cursor,
          ctl,
          perform-dump k id c.backing c.meta st strays d e g,
          dump-foreign k id st strays d image shadow (some (g, e)) s g e (s.known g e refl).0
              (foreign g e refl),
        )
        refl

-- From a live harness, when what /dev/urandom gives is none of the earlier generations, a loss of
-- the metadata passes the assertions: no flag, a new generation, and the old cursor refused.
pub op_lose_meta-Live :
    {c : Config} {n : ℕ} {gens : List ℕ} (k : Luck) {h : Harness}
    → Suits c k
    → Sized c
    → Unseen k.gen gens
    → Live c n gens h
    → (h' : Harness) × (op_lose_meta k h ≡ ok h') × Live c n (k.gen ∷ gens) h'
unfolding op_lose_meta remove_meta
op_lose_meta-Live {c} {n} {gens} k {h = h} u z fresh l =
    let s = l.sound in
    let (d1, off, saved) =
      detach-live k u z l.strays l.disk l.image l.image l.shadow l.cursor l.id l.st
        s.stored.takes in
    let kept : Takes c.meta d1 = Saved-Takes saved s.stored.takes in
    let d2 : Disk = store d1 c.meta none in
    let takes : Takes c.meta d2 = record { faultless = kept.faultless; apart = kept.apart } in
    let (t, got, tracks, gen, era) = obtain-lost k.gen d2 z u.gen (ground arith) in
    let (d3, on, marked) =
      attach-idle k u z l.strays d2 l.image l.image l.shadow l.cursor (show_hex l.st.generation) t
        false got takes in
    let foreign : (g e : ℕ) → l.cursor ≡ some (g, e) → g ≢ t.generation =
      λ g e at same. (s.known g e at).1 k.gen fresh (sym gen ∙ sym same) in
    let sound : Sound c n (k.gen ∷ gens) t d3 l.image l.shadow l.cursor = record {
      tracks = tracks;
      stored = record {
        saved = t;
        tracks = tracks;
        generation = refl;
        current_era = refl;
        there = marked.file;
        takes = Saved-Takes marked takes;
      };
      image_size = s.image_size;
      shadow_size = s.shadow_size;
      synced = λ g e at same. absurd (foreign g e at same);
      seen = λ x unseen same. unseen.0 (same ∙ gen);
      known = λ g e at. ((s.known g e at).0, λ x unseen. (s.known g e at).1 x unseen.1);
      room = omega (arith, s.room, s.tracks.started, era);
    } in
    let differ =
      other_text t.generation l.st.generation tracks.gen s.tracks.gen
        (λ same. s.seen k.gen fresh (sym gen ∙ same)) in
    (
      live c u.id t l.strays d3 l.image l.image l.shadow l.cursor,
      ap (op_lose_meta k) l.shape
          ∙ rw (op_lose_meta, off, remove_meta, saved.file, on, differ)
              (reject_cursor-live k u.id t l.strays d3 l.image l.shadow l.cursor sound foreign),
      record {
        id = u.id;
        st = t;
        strays = l.strays;
        disk = d3;
        image = l.image;
        shadow = l.shadow;
        cursor = l.cursor;
        shape = refl;
        sound = sound;
      },
    )
