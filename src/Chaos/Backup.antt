-- ===== src/Chaos/Backup.antt =====
-- The checkpoints and the backups of src/bin/chaos.rs keep a live harness, and a backup passes its
-- assertions.
use ublkera.Base.{
  ℕ, suc, ◌+◌, ◌^◌, ◌<◌, ◌≡◌, refl, ap, sym, ◌∙◌, Option, some, List, u32, ok, arith, inl,
}
use ublkera.Era.{EraState, checkpoint}
use ublkera.Era.Valid.{checkpoint-IsValid}
use ublkera.Meta.Save.{Disk}
use ublkera.Ctl.{Luck}
use ublkera.Ctl.Session.{Saved-Takes, perform-checkpoint}
use ublkera.Chaos.{Harness, ctl, request, verify}
use ublkera.Chaos.Ops.{op_checkpoint, op_backup_verify}
use ublkera.Chaos.Copy.{diff_refl}
use ublkera.Chaos.Sync.{read_live, backup-live}
use ublkera.Chaos.Live.{Config, live, Tracks, Sound, Live}

checkpoint-Tracks :
    {c : Config} (st : EraState)
    → st.current_era + 1 < 2 ^ 32
    → Tracks c st
    → Tracks c (checkpoint st).0
unfolding checkpoint
checkpoint-Tracks st room t = record {
  valid = checkpoint-IsValid room t.valid;
  gran = t.gran;
  sized = t.sized;
  gen = t.gen;
  started = omega (arith, room);
}

module _ {c : Config} {n : ℕ} {gens : List ℕ} (k : Luck) (id : ℕ) (st : EraState)
    (strays : List (Option ℕ × EraState)) (d : Disk) (image shadow : List ℕ)
    (cursor : Option (ℕ × ℕ)) where
  -- A checkpoint closes the era of the device, and the harness stays sound.
  pub op_checkpoint-live :
      Sound c (suc n) gens st d image shadow cursor
      → (d' : Disk) × (op_checkpoint k (live c id st strays d image image shadow cursor)
          ≡ ok (live c id (checkpoint st).0 strays d' image image shadow cursor, st.current_era))
        × Sound c n gens (checkpoint st).0 d' image shadow cursor
  unfolding op_checkpoint request ctl checkpoint
  op_checkpoint-live s =
      let next : st.current_era + 1 < 2 ^ 32 = omega (arith, s.room) in
      let tracks : Tracks c (checkpoint st).0 = checkpoint-Tracks st next s.tracks in
      let (d', run, saved) = perform-checkpoint k id c.backing c.meta st strays d s.stored.takes in
      (
        d',
        rw (op_checkpoint, request, ctl, run) refl,
        record {
          tracks = tracks;
          stored = record {
            saved = (checkpoint st).0;
            tracks = tracks;
            generation = refl;
            current_era = refl;
            there = saved.file;
            takes = Saved-Takes saved s.stored.takes;
          };
          image_size = s.image_size;
          shadow_size = s.shadow_size;
          synced = λ g e at same.
              let (old, behind) = s.synced g e at same in (omega (arith, old, next), behind);
          seen = s.seen;
          known = s.known;
          room = omega (arith, s.room);
        },
      )

module _ {c : Config} {n : ℕ} {gens : List ℕ} (k : Luck) (id : ℕ) (st : EraState)
    (strays : List (Option ℕ × EraState)) (d : Disk) (image shadow : List ℕ) where
  -- The whole operation succeeds: neither assertion fails, and the backup is the device.
  pub op_backup_verify-live :
      (cursor : Option (ℕ × ℕ))
      → Sound c (suc n) gens st d image shadow cursor
      → (t : EraState) × (d' : Disk) × (op_backup_verify k
            (live c id st strays d image image shadow cursor)
          ≡ ok (live c id t strays d' image image image (some (t.generation, u32 st.current_era))))
        × Sound c n gens t d' image image (some (t.generation, u32 st.current_era))
  unfolding op_backup_verify verify checkpoint
  op_backup_verify-live cursor s =
      let (d', run, s1) = op_checkpoint-live k id st strays d image shadow cursor s in
      let copied = backup-live k id (checkpoint st).0 strays d' image shadow cursor s1 in
      let kept : Option (ℕ × ℕ) = some (st.generation, u32 st.current_era) in
      let s2 : Sound c n gens (checkpoint st).0 d' image image kept = record {
        tracks = s1.tracks;
        stored = s1.stored;
        image_size = s1.image_size;
        shadow_size = s1.image_size;
        synced = λ g e at same.
            let era : u32 st.current_era ≡ e = cc in (omega (arith, s.room, era), λ b lt. inl refl);
        seen = s1.seen;
        known = λ g e at.
            let same : st.generation ≡ g = cc in (rw (sym same) s.tracks.gen, rw (sym same) s.seen);
        room = s1.room;
      } in
      (
        (checkpoint st).0,
        d',
        rw
            (
              op_backup_verify,
              run,
              copied,
              verify,
              read_live k id (checkpoint st).0 strays d' image image kept s2,
              diff_refl image,
            )
            refl,
        s2,
      )

-- A checkpoint keeps the harness live; it takes one of the eras there is room for.
pub op_checkpoint-Live :
    {c : Config} {n : ℕ} {gens : List ℕ} (k : Luck) {h : Harness}
    → Live c (suc n) gens h
    → (h' : Harness) × (closed : ℕ) × (op_checkpoint k h ≡ ok (h', closed)) × Live c n gens h'
op_checkpoint-Live {c} k l =
    let t : EraState = (checkpoint l.st).0 in
    let (d', run, s) =
      op_checkpoint-live k l.id l.st l.strays l.disk l.image l.shadow l.cursor l.sound in
    (
      live c l.id t l.strays d' l.image l.image l.shadow l.cursor,
      l.st.current_era,
      ap (op_checkpoint k) l.shape ∙ run,
      record {
        id = l.id;
        st = t;
        strays = l.strays;
        disk = d';
        image = l.image;
        shadow = l.shadow;
        cursor = l.cursor;
        shape = refl;
        sound = s;
      },
    )

-- From a live harness whose era counter has room, `op_backup_verify` succeeds whatever its cursor
-- is: neither of its two assertions fails, it leaves the harness live, and the backup equal to the
-- bytes of the backing file and to everything written.
pub op_backup_verify-Live :
    {c : Config} {n : ℕ} {gens : List ℕ} (k : Luck) {h : Harness}
    → Live c (suc n) gens h
    → (h' : Harness) × (op_backup_verify k h ≡ ok h')
      × Live c n gens h'
      × (h'.shadow ≡ h'.image)
      × (h'.expected ≡ h'.image)
op_backup_verify-Live {c} k l =
    let (t, d', run, s) =
      op_backup_verify-live k l.id l.st l.strays l.disk l.image l.shadow l.cursor l.sound in
    let kept : Option (ℕ × ℕ) = some (t.generation, u32 l.st.current_era) in
    (
      live c l.id t l.strays d' l.image l.image l.image kept,
      ap (op_backup_verify k) l.shape ∙ run,
      record {
        id = l.id;
        st = t;
        strays = l.strays;
        disk = d';
        image = l.image;
        shadow = l.image;
        cursor = kept;
        shape = refl;
        sound = s;
      },
      refl,
      refl,
    )
