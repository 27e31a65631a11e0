-- ===== src/Chaos/Crash.antt =====
-- The crashes of src/bin/chaos.rs: a device whose daemon was killed comes back flagged, with its
-- history, and with every byte newer than the cursor.
use ublkera.Base.{
  ℕ, ◌/◌, ◌<◌, ◌≡◌, refl, ap, ◌∙◌, true, false, Option, List, [], ◌∷◌, length, ok, arith, inr,
  div-lt,
}
use ublkera.Era.{EraState, mark_all_dirty}
use ublkera.Era.Valid.{mark_all_dirty-IsValid}
use ublkera.Era.Stamp.{get_or-stamp_all}
use ublkera.Meta.Save.{Disk}
use ublkera.Manager.{Managed, recover}
use ublkera.Manager.Generation.{show_hex}
use ublkera.Ctl.{Luck}
use ublkera.Ctl.Session.{managed, daemon}
use ublkera.Chaos.{Harness, kill_daemon, start_daemon}
use ublkera.Chaos.Ops.{recover_from, op_crash}
use ublkera.Chaos.Live.{Config, live, idle, Tracks, Behind, Sound, Live, Suits, Sized}
use ublkera.Chaos.Restart.{same_text, attach-idle, obtain-tracked, resumed}

-- A harness whose daemon was killed.
abbrev pub dead :
    (c : Config) (gen : List ℕ) (devs : List Managed) (strays : List (Option ℕ × EraState))
    (d : Disk) (image expected shadow : List ℕ) (cursor : Option (ℕ × ℕ))
    → Harness
dead c gen devs strays d image expected shadow cursor =
    record (idle c gen strays d image expected shadow cursor) {
      alive = false;
      daemon = daemon devs strays d;
    }

mark_all_dirty-Tracks : {c : Config} {st : EraState} → Tracks c st → Tracks c (mark_all_dirty st)
unfolding mark_all_dirty
mark_all_dirty-Tracks t = record {
  valid = mark_all_dirty-IsValid t.valid;
  gran = t.gran;
  sized = t.sized;
  gen = t.gen;
  started = t.started;
}

-- After an unclean load every byte counts as newer than any cursor that is over.
Behind-all :
    {c : Config} {st : EraState} (image shadow : List ℕ) (e : ℕ)
    → Tracks c st
    → e < st.current_era
    → Behind c (mark_all_dirty st) image shadow e
unfolding mark_all_dirty
Behind-all {c} {st} image shadow e t old b lt =
    let v = t.valid in
    let chunk : b / st.granularity < length st.eras =
      div-lt st.granularity (length st.eras) b (omega (arith, v.gran))
        (omega (arith, v.cover, t.sized, lt)) in
    inr (ground (arith, old, get_or-stamp_all st.current_era st.eras (b / st.granularity) chunk))

-- The restart after a kill, whatever the backing file then holds: the recovery is flagged, the
-- history goes on, and the backup is behind its cursor.
pub recover_from-live :
    {c : Config} {n : ℕ} {gens : List ℕ} (k : Luck) {st : EraState} (devs : List Managed)
    (strays : List (Option ℕ × EraState)) (d : Disk) (image image' expected shadow : List ℕ)
    (cursor : Option (ℕ × ℕ))
    → Suits c k
    → Sized c
    → Sound c n gens st d image shadow cursor
    → length image' ≡ c.size
    → (id : ℕ) × (t : EraState) × (d' : Disk) × (recover_from k
          (show_hex st.generation)
          (dead c (show_hex st.generation) devs strays d image' expected shadow cursor)
        ≡ ok (live c id t [] d' image' expected shadow cursor))
      × Sound c n gens t d' image' shadow cursor
unfolding recover_from start_daemon recover mark_all_dirty
recover_from-live k {st = st} devs strays d image image' expected shadow cursor u z s size =
    let old = s.stored in
    let t : EraState = mark_all_dirty old.saved in
    let (d', on, marked) =
      attach-idle k u z [] d image' expected shadow cursor (show_hex st.generation) t true
        (obtain-tracked k.gen false d old.tracks old.there) old.takes in
    (
      u.id,
      t,
      d',
      rw
          (
            recover_from,
            start_daemon,
            on,
            same_text old.saved.generation st.generation old.generation,
          )
          refl,
      resumed s (mark_all_dirty-Tracks old.tracks) old.generation old.current_era old.takes marked
          size
          (λ g e at same.
            let (over, behind) = s.synced g e at (same ∙ old.generation) in
            let over1 : e < old.saved.current_era = omega (arith, over, old.current_era) in
            (over1, Behind-all image' shadow e old.tracks over1)),
    )

-- A kill and the restart after it: the recovery is flagged, and the history goes on.
pub op_crash-Live :
    {c : Config} {n : ℕ} {gens : List ℕ} (k : Luck) {h : Harness}
    → Suits c k
    → Sized c
    → Live c n gens h
    → (h' : Harness) × (op_crash k h ≡ ok h') × Live c n gens h'
unfolding op_crash kill_daemon
op_crash-Live {c} k {h = h} u z l =
    let (id, t, d', run, s) =
      recover_from-live k (managed l.id c.backing c.meta l.st ∷ []) l.strays l.disk l.image l.image
        l.image l.shadow l.cursor u z l.sound l.sound.image_size in
    (
      live c id t [] d' l.image l.image l.shadow l.cursor,
      ap (op_crash k) l.shape ∙ rw (op_crash, kill_daemon, run) refl,
      record {
        id = id;
        st = t;
        strays = [];
        disk = d';
        image = l.image;
        shadow = l.shadow;
        cursor = l.cursor;
        shape = refl;
        sound = s;
      },
    )
