-- ===== src/Chaos/Sync.antt =====
-- The backup of src/bin/chaos.rs on a live harness: whatever the cursor is, the dump and the copies
-- leave the backup equal to the device.
use ublkera.Base.{
  ℕ, ◌^◌, ◌<◌, ◌≡◌, ◌≢◌, refl, ap, ◌∙◌, false, Option, none, some, List, ok, err, ◌==◌, arith,
  ℕ_discrete, eq→==, lt→ltb,
}
use ublkera.Era.{EraState, ranges_since}
use ublkera.Era.Ranges.{ranges_since-Separated, ranges_since_lem}
use ublkera.Meta.Save.{Disk}
use ublkera.Manager.{generation_mismatch}
use ublkera.Manager.Generation.{show_hex, parse_hex-show_hex}
use ublkera.Manager.Service.{dump_state, check_generation, sum_len}
use ublkera.Ctl.{Luck}
use ublkera.Ctl.Session.{perform-dump}
use ublkera.Chaos.{ctl, read_device, copy_ranges}
use ublkera.Chaos.Ops.{full_copy, copy_dumped, backup}
use ublkera.Chaos.Copy.{read_device-reads, copy_ranges-copies}
use ublkera.Fault.Bytes.{get_or-ext}
use ublkera.Chaos.Live.{Config, live, Behind, Sound}

module _ {c : Config} {n : ℕ} {gens : List ℕ} (k : Luck) (id : ℕ) (st : EraState)
    (strays : List (Option ℕ × EraState)) (d : Disk) (image shadow : List ℕ)
    (cursor : Option (ℕ × ℕ)) where
  module _ (s : Sound c n gens st d image shadow cursor) where
    pub read_live : read_device (live c id st strays d image image shadow cursor) ≡ ok image
    read_live =
        read_device-reads (live c id st strays d image image shadow cursor) refl s.image_size

    full_copy-live :
        full_copy (live c id st strays d image image shadow cursor)
        ≡ ok (live c id st strays d image image image cursor)
    unfolding full_copy
    full_copy-live = rw (full_copy, read_live) refl

    -- A dump for a generation that is not the device's is refused.
    pub dump-foreign :
        (g e : ℕ)
        → g < 2 ^ 64
        → g ≢ st.generation
        → dump_state id e (some (show_hex g)) st ≡ err generation_mismatch
    unfolding dump_state check_generation
    dump-foreign g e fits foreign =
        let other : (g == st.generation) ≡ false = ground (arith, foreign) in
        rw (dump_state, check_generation, parse_hex-show_hex g fits, other) refl

    -- A dump since an era of this history that is over.
    dump-own :
        (g e : ℕ)
        → g < 2 ^ 64
        → g ≡ st.generation
        → e < st.current_era
        → dump_state id e (some (show_hex g)) st
          ≡ ok (record {
            dev_id = id;
            generation = st.generation;
            current_era = st.current_era;
            since = e;
            granularity = st.granularity;
            dirty_bytes = sum_len (ranges_since e st);
            ranges = ranges_since e st;
          })
    unfolding dump_state check_generation
    dump-own g e fits same old =
        rw
          (
            dump_state,
            check_generation,
            parse_hex-show_hex g fits,
            eq→== g st.generation same,
            lt→ltb e st.current_era old,
          )
          refl

    -- The copies of what changed since a cursor of this history make the backup the device.
    copies-live :
        (e : ℕ)
        → Behind c st image shadow e
        → copy_ranges (ranges_since e st) (live c id st strays d image image shadow cursor)
          ≡ ok (live c id st strays d image image image cursor)
    copies-live e behind =
        let (out, run, len, bytes) =
          copy_ranges-copies (ranges_since e st) (live c id st strays d image image shadow cursor)
            refl (ranges_since-Separated e s.tracks.valid)
            (omega (arith, s.image_size, s.tracks.sized))
            (omega (arith, s.shadow_size, s.tracks.sized)) in
        let same : out ≡ image =
          get_or-ext out image (omega (arith, len, s.image_size, s.shadow_size)) (λ b lt.
            bytes b
            ∙ ground (
              arith,
              ranges_since_lem e b s.tracks.valid,
              s.tracks.sized,
              s.shadow_size,
              len,
              behind b (omega (arith, len, s.shadow_size)),
            )) in
        run ∙ ap (λ x. ok (live c id st strays d image image x cursor)) same

module _ {c : Config} {n : ℕ} {gens : List ℕ} (k : Luck) (id : ℕ) (st : EraState)
    (strays : List (Option ℕ × EraState)) (d : Disk) (image shadow : List ℕ) where
  -- Whatever the cursor is, the backup ends as the device.
  pub backup-live :
      (cursor : Option (ℕ × ℕ))
      → Sound c n gens st d image shadow cursor
      → backup k id (live c id st strays d image image shadow cursor)
        ≡ ok (live c id st strays d image image image cursor)
  unfolding backup ctl copy_dumped
  backup-live none s = full_copy-live k id st strays d image shadow none s
  backup-live (some (g, e)) s = elim (ℕ_discrete g st.generation) [
    | yes same ↦
        let (old, behind) = s.synced g e refl same in
        rw
          (
            backup,
            ctl,
            perform-dump k id c.backing c.meta st strays d e g,
            dump-own k id st strays d image shadow (some (g, e)) s g e (s.known g e refl).0 same
                old,
          )
          (copies-live k id st strays d image shadow (some (g, e)) s e behind)
    | no foreign ↦
        rw
          (
            backup,
            ctl,
            perform-dump k id c.backing c.meta st strays d e g,
            dump-foreign k id st strays d image shadow (some (g, e)) s g e (s.known g e refl).0
                foreign,
          )
          (full_copy-live k id st strays d image shadow (some (g, e)) s)
  ]
