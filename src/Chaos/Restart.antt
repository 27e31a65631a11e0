-- ===== src/Chaos/Restart.antt =====
-- The attaches and detaches of src/bin/chaos.rs, and the clean re-attach.
use ublkera.Base.{
  ℕ, ◌≡◌, refl, ap, sym, ◌∙◌, Bool, true, false, Option, some, List, length, list_eq, ok, arith,
}
use ublkera.Era.{EraState}
use ublkera.Meta.{encode}
use ublkera.Meta.Save.{Disk}
use ublkera.Manager.{Added, obtain, recover}
use ublkera.Manager.Attach.{obtain-encode}
use ublkera.Manager.Generation.{show_hex}
use ublkera.Ctl.{Luck}
use ublkera.Ctl.Session.{asks, Saved, Saved-Takes, Takes, perform-add, perform-del}
use ublkera.Chaos.{Harness, ctl, request, attach, detach}
use ublkera.Chaos.Ops.{op_reattach}
use ublkera.Chaos.Copy.{list_eq_refl}
use ublkera.Chaos.Live.{Config, live, idle, Tracks, Synced, Sound, Live, Suits, Sized}

abbrev reply : (id size : ℕ) → EraState → Bool → Added
reply id size t unclean = record {
  dev_id = id;
  dev_size = size;
  generation = t.generation;
  current_era = t.current_era;
  recovered_unclean = unclean;
}

pub same_text : (a b : ℕ) → a ≡ b → list_eq (show_hex a) (show_hex b) ≡ true
same_text a b e = ap (λ x. list_eq (show_hex x) (show_hex b)) e ∙ list_eq_refl (show_hex b)

module _ {c : Config} (k : Luck) (u : Suits c k) (z : Sized c) (strays : List (Option ℕ × EraState))
    (d : Disk) (image expected shadow : List ℕ) (cursor : Option (ℕ × ℕ)) where
  pub attach-idle :
      (gen : List ℕ) (t : EraState) (unclean : Bool)
      → obtain d (asks c.backing c.gran c.meta) c.size k.gen ≡ ok (t, unclean)
      → Takes c.meta d
      → (d' : Disk) × (attach k (idle c gen strays d image expected shadow cursor)
          ≡ ok (live c u.id t strays d' image expected shadow cursor, reply u.id c.size t unclean))
        × Saved c.meta t false d d'
  unfolding attach request ctl
  attach-idle gen t unclean got takes =
      let (d', run, saved) =
        perform-add k u.id c.backing c.gran c.meta c.size t unclean strays d u.sized
          (omega (arith, z.blocks)) (omega (arith, z.whole)) got u.starts takes in
      (d', rw (attach, request, ctl, run) refl, saved)

  pub detach-live :
      (id : ℕ) (st : EraState)
      → Takes c.meta d
      → (d' : Disk) × (detach k (live c id st strays d image expected shadow cursor)
          ≡ ok (idle c (show_hex st.generation) strays d' image expected shadow cursor))
        × Saved c.meta st true d d'
  unfolding detach request ctl
  detach-live id st takes =
      let (d', run, saved) = perform-del k id c.backing c.meta st strays d (u.deletes id) takes in
      (d', rw (detach, request, ctl, run) refl, saved)

-- The metadata file of a tracker for the device, at the next attach.
pub obtain-tracked :
    {c : Config} {st : EraState} (gen : ℕ) (clean : Bool) (d : Disk)
    → Tracks c st
    → d.file c.meta ≡ some (encode st clean)
    → obtain d (asks c.backing c.gran c.meta) c.size gen ≡ ok (recover (st, clean))
obtain-tracked {c} gen clean d t there =
    ap (λ x. obtain d (asks c.backing c.gran c.meta) x gen) (sym t.sized)
    ∙ obtain-encode gen clean d (asks c.backing c.gran c.meta) t.valid t.gen refl (sym t.gran) there

-- A tracker of the same history goes live under a fresh marker.
pub resumed :
    {c : Config} {n : ℕ} {gens : List ℕ} {st t : EraState} {d d1 d' : Disk}
    {image image' shadow : List ℕ} {cursor : Option (ℕ × ℕ)}
    → Sound c n gens st d image shadow cursor
    → Tracks c t
    → t.generation ≡ st.generation
    → t.current_era ≡ st.current_era
    → Takes c.meta d1
    → Saved c.meta t false d1 d'
    → length image' ≡ c.size
    → Synced c t image' shadow cursor
    → Sound c n gens t d' image' shadow cursor
resumed {st = st} {t = t} s tracks gen era takes saved size synced = record {
  tracks = tracks;
  stored = record {
    saved = t;
    tracks = tracks;
    generation = refl;
    current_era = refl;
    there = saved.file;
    takes = Saved-Takes saved takes;
  };
  image_size = size;
  shadow_size = s.shadow_size;
  synced = synced;
  seen = λ x fresh same. s.seen x fresh (same ∙ gen);
  known = s.known;
  room = omega (arith, s.room, era);
}

-- A clean detach and the attach after it: nothing is flagged, and the history goes on.
pub op_reattach-Live :
    {c : Config} {n : ℕ} {gens : List ℕ} (k : Luck) {h : Harness}
    → Suits c k
    → Sized c
    → Live c n gens h
    → (h' : Harness) × (op_reattach k h ≡ ok h') × Live c n gens h'
unfolding op_reattach recover
op_reattach-Live {c} k {h = h} u z l =
    let s = l.sound in
    let (d1, off, saved) =
      detach-live k u z l.strays l.disk l.image l.image l.shadow l.cursor l.id l.st
        s.stored.takes in
    let takes : Takes c.meta d1 = Saved-Takes saved s.stored.takes in
    let (d2, on, marked) =
      attach-idle k u z l.strays d1 l.image l.image l.shadow l.cursor (show_hex l.st.generation)
        l.st false (obtain-tracked k.gen true d1 s.tracks saved.file) takes in
    (
      live c u.id l.st l.strays d2 l.image l.image l.shadow l.cursor,
      ap (op_reattach k) l.shape
          ∙ rw (op_reattach, off, on, same_text l.st.generation l.st.generation refl) refl,
      record {
        id = u.id;
        st = l.st;
        strays = l.strays;
        disk = d2;
        image = l.image;
        shadow = l.shadow;
        cursor = l.cursor;
        shape = refl;
        sound = resumed s s.tracks refl refl takes marked s.image_size s.synced;
      },
    )
