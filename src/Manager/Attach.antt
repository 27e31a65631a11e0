-- ===== src/Manager/Attach.antt =====
-- What `add` and `del` of src/manager.rs make of the metadata file: the marker of an attached
-- device, and how the next attach reads it.
use ublkera.Base.{
  ℕ, ◌^◌, ◌<◌, ◌≡◌, ◌≢◌, inl, inr, refl, ap, sym, ◌∙◌, Bool, true, false, some, ok, bind-ok,
  ok-injective, Result-cases, arith,
}
use ublkera.Era.{EraState, mark_all_dirty, ranges_since}
use ublkera.Era.Valid.{IsValid}
use ublkera.Era.Ranges.{covers}
use ublkera.Era.Cursor.{mark_all_dirty-ranges_since}
use ublkera.Meta.{encode}
use ublkera.Meta.RoundTrip.{decode-encode}
use ublkera.Meta.Save.{act_all, act, save_ops, Disk, save}
use ublkera.Manager.{
  untouched, DeviceSpec, Managed, DeviceManager, World, Startup, up, not_created, not_run, died,
  timed_out, Added, recover, refuse_load, from_file, obtain, save_to, launch, prepare, add, admit,
  reap,
}
use ublkera.Manager.Requests.{lookup}

-- The metadata file that a tracker is attached with.
pub obtain-encode :
    (gen : ℕ) (clean : Bool) (d : Disk) (spec : DeviceSpec) {path : ℕ} {st : EraState}
    → IsValid st
    → st.generation < 2 ^ 64
    → spec.meta ≡ some path
    → spec.granularity ≡ st.granularity
    → d.file path ≡ some (encode st clean)
    → obtain d spec st.dev_size gen ≡ ok (recover (st, clean))
unfolding obtain from_file refuse_load
obtain-encode gen clean d spec {path} {st} v g at same there =
    rw (at, there, same, decode-encode gen {s = st} clean v g)

-- An attach whose metadata file is that of a valid tracker of the same size and granularity, saved
-- while its device was attached, as after a crash, keeps the history of the file and reports every
-- byte of the device to every cursor of an older era.
pub obtain-unclean :
    (gen : ℕ) (d : Disk) (spec : DeviceSpec) {path : ℕ} {st : EraState}
    → IsValid st
    → st.generation < 2 ^ 64
    → spec.meta ≡ some path
    → spec.granularity ≡ st.granularity
    → d.file path ≡ some (encode st false)
    → (t : EraState) × (obtain d spec st.dev_size gen ≡ ok (t, true))
      × (t.generation ≡ st.generation)
      × (t.current_era ≡ st.current_era)
      × ((since b : ℕ)
          → since < st.current_era
          → b < st.dev_size
          → covers (ranges_since since t) b ≡ true)
unfolding recover mark_all_dirty
obtain-unclean gen d spec {st = st} v g at same there = (
  mark_all_dirty st,
  obtain-encode gen false d spec v g at same there,
  refl,
  refl,
  λ since b old inside. mark_all_dirty-ranges_since since b v old inside,
)

save_to-file :
    (path : ℕ) (st : EraState) (clean : Bool) (d : Disk) {d' : Disk}
    → d.tmp_of path ≢ path
    → save_to (some path) st clean d ≡ ok d'
    → d'.file path ≡ some (encode st clean)
unfolding save_to save act_all act save_ops
save_to-file path st clean d ne e = ground arith

-- What a successful preparation says of the file.
prepare-marks :
    (w : World) (spec : DeviceSpec) (gen : ℕ) (s : DeviceManager) {path size : ℕ} {d : Disk}
    {st : EraState} {unclean : Bool}
    → spec.meta ≡ some path
    → s.disk.tmp_of path ≢ path
    → prepare w spec gen s ≡ ok (d, size, st, unclean)
    → d.file path ≡ some (encode st false)
unfolding prepare
prepare-marks w spec gen s {path = path} {d = d} {st = st} at ne e =
    let (n, admitted, e1) = bind-ok (untouched s.disk (admit w spec s.devices)) _ e in
    let (r, obtained, e2) = bind-ok (untouched s.disk (obtain s.disk spec n gen)) _ e1 in
    let (t, saved, e3) = bind-ok (save_to spec.meta r.0 false s.disk) _ e2 in
    let q = ok-injective e3 in
    let same_disk : t ≡ d = ap (λ x. x.0) q in
    let same_state : r.0 ≡ st = ap (λ x. x.2) q in
    save_to-file path st false s.disk ne (
      ap (λ x. save_to x st false s.disk) (sym at)
      ∙ (ap (λ x. save_to spec.meta x false s.disk) (sym same_state) ∙ (saved ∙ ap ok same_disk)))

launch-up :
    (start : Startup) (spec : DeviceSpec) (size : ℕ) (st : EraState) (unclean : Bool)
    (s : DeviceManager) {s' : DeviceManager} {a : Added}
    → launch start spec size st unclean s ≡ (s', ok a)
    → (s'.disk ≡ s.disk)
      × (lookup a.dev_id s'.devices
          ≡ some (record {
            dev_id = a.dev_id;
            backing = spec.backing;
            meta = spec.meta;
            state = st;
            finished = false;
          }))
unfolding launch lookup
launch-up (up id) spec size st unclean s e = ground arith
launch-up not_created spec size st unclean s e = cc
launch-up not_run spec size st unclean s e = cc
launch-up died spec size st unclean s e = cc
launch-up timed_out spec size st unclean s e = cc

-- A device with a metadata file that `add` reports as attached is in the registry under its id,
-- with its backing and a running supervisor, and the file is the marker of an attached device: its
-- very state, saved as unclean. The path and its temporary one are to have different names.
pub add-marks :
    (w : World) (start : Startup) (gen : ℕ) (spec : DeviceSpec) (s : DeviceManager) {path : ℕ}
    {s' : DeviceManager} {a : Added}
    → spec.meta ≡ some path
    → s.disk.tmp_of path ≢ path
    → add w start gen spec s ≡ (s', ok a)
    → (m : Managed) × (lookup a.dev_id s'.devices ≡ some m)
      × (m.backing ≡ spec.backing)
      × (m.finished ≡ false)
      × (s'.disk.file path ≡ some (encode m.state false))
unfolding add reap
add-marks w start gen spec s {s' = s'} {a = a} at ne e =
    elim (Result-cases (prepare w spec gen (reap s))) [
      | inl (r, ready) ↦
          let (d, size, st, unclean) = r in
          let marked = prepare-marks w spec gen (reap s) at ne ready in
          let (kept, there) =
            launch-up start spec size st unclean (record (reap s) { disk = d }) {s' = s'} {a = a}
              (rw (add, ready) at e) in
          (_, there, refl, refl, rw kept marked)
      | inr (x, failed) ↦ let bad = rw (add, failed) at e in cc
    ]
