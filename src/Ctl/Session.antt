-- ===== src/Ctl/Session.antt =====
-- A client that talks to a daemon with one device: what each request of src/ctl.rs answers, and
-- what it leaves in the registry and in the metadata file.
use ublkera.Base.{
  ℕ, ◌%◌, ◌<◌, ◌≡◌, ◌≢◌, refl, sym, ap, ◌∙◌, Bool, true, false, Option, some, none, List, [], ◌∷◌,
  ◌==◌, ok, arith, eq→==, lt→ltb,
}
use ublkera.Era.{EraState, checkpoint, mark_write}
use ublkera.Meta.{encode}
use ublkera.Meta.Save.{act, act_all, save_ops, Disk, save}
use ublkera.Manager.{
  Managed, DeviceManager, DeviceSpec, up, deleted, reap, running, save_to, final_save, remove,
  prepare, admit, obtain, add, launch, id_free, any_backing,
}
use ublkera.Manager.Requests.{
  Target, resolve, lookup, set_state, checkpoint_one, save_open, del, delete,
}
use ublkera.Manager.Service
use ublkera.Manager.Service.{Dumped, dump_state, written}
use ublkera.Manager.Generation.{show_hex}
use ublkera.Ctl.{
  add_device, del_device, checkpoint_of, dump_of, shutdown, going_down, added, removed, closed_one,
  dumped, Luck, perform, answer, resolved,
}

abbrev pub by_id : ℕ → Target
by_id id = record { dev_id = some id; backing = none }

-- A device with metadata, under a supervisor that runs.
abbrev pub managed : (id backing path : ℕ) → EraState → Managed
managed id backing path st = record {
  dev_id = id;
  backing = backing;
  meta = some path;
  state = st;
  finished = false;
}

-- A daemon with the devices `devs`.
abbrev pub daemon : List Managed → List (Option ℕ × EraState) → Disk → DeviceManager
daemon devs strays d = record { devices = devs; strays = strays; disk = d }

-- A save has put `st` in the file, and the disk takes further saves as before.
pub record Saved (path : ℕ) (st : EraState) (clean : Bool) (d d' : Disk) : Type 0 where
  pub file : d'.file path ≡ some (encode st clean)
  pub fault : d'.fault ≡ d.fault
  pub tmp_of : d'.tmp_of ≡ d.tmp_of

-- A disk that takes saves under `path`.
pub record Takes (path : ℕ) (d : Disk) : Type 0 where
  pub faultless : d.fault path ≡ none
  pub apart : d.tmp_of path ≢ path

pub Saved-Takes :
    {path : ℕ} {st : EraState} {clean : Bool} {d d' : Disk}
    → Saved path st clean d d'
    → Takes path d
    → Takes path d'
Saved-Takes {path} s t = record {
  faultless = ap (λ f. f path) s.fault ∙ t.faultless;
  apart = λ e. t.apart (sym (ap (λ f. f path) s.tmp_of) ∙ e);
}

ne→== : (a b : ℕ) → a ≢ b → (a == b) ≡ false
ne→== a b h = ground arith

save_to-Saved :
    (path : ℕ) (st : EraState) (clean : Bool) (d : Disk)
    → Takes path d
    → (d' : Disk) × (save_to (some path) st clean d ≡ ok d') × Saved path st clean d d'
unfolding save_to save act_all act save_ops
save_to-Saved path st clean d t =
    let other : (d.tmp_of path == path) ≡ false = ne→== (d.tmp_of path) path t.apart in
    (
      act_all (save_ops d path st clean) d,
      rw (save_to, save, t.faultless) refl,
      record { file = ground arith; fault = rw other refl; tmp_of = rw other refl },
    )

final_save-Saved :
    (path : ℕ) (st : EraState) (d : Disk)
    → Takes path d
    → Saved path st true d (final_save (some path) st d)
unfolding final_save
final_save-Saved path st d t =
    let (d', run, s) = save_to-Saved path st true d t in rw (final_save, run) s

-- The registry that holds nothing but the device.
found :
    (id backing path : ℕ) (st : EraState)
    → lookup id (managed id backing path st ∷ []) ≡ some (managed id backing path st)
unfolding lookup
found id backing path st = rw (lookup, eq→== id id refl) refl

set_state-alone :
    (id backing path : ℕ) (st t : EraState)
    → set_state id t (managed id backing path st ∷ []) ≡ managed id backing path t ∷ []
unfolding set_state
set_state-alone id backing path st t = rw (set_state, eq→== id id refl) refl

remove-alone :
    (id backing path : ℕ) (st : EraState) → remove id (managed id backing path st ∷ []) ≡ []
unfolding remove
remove-alone id backing path st = rw (remove, eq→== id id refl) refl

-- A write on the device marks its tracker.
pub written-alone :
    (id backing path : ℕ) (st : EraState) (strays : List (Option ℕ × EraState)) (d : Disk)
    (races : List ℕ) (off len : ℕ) {t : EraState}
    → mark_write races off len st ≡ some t
    → written races id off len (daemon (managed id backing path st ∷ []) strays d)
      ≡ some (daemon (managed id backing path t ∷ []) strays d)
unfolding written
written-alone id backing path st strays d races off len {t = t} marked =
    rw (written, found id backing path st, marked, set_state-alone id backing path st t) refl

module _ (k : Luck) (id backing path : ℕ) (st : EraState) (strays : List (Option ℕ × EraState))
    (d : Disk) where
  -- A checkpoint closes the era of the device and saves the tracker with the next one, unclean.
  pub perform-checkpoint :
      Takes path d
      → (d' : Disk) × (perform k
            (checkpoint_of (by_id id))
            (daemon (managed id backing path st ∷ []) strays d)
          ≡ (
            daemon (managed id backing path (checkpoint st).0 ∷ []) strays d',
            ok (
                closed_one (record {
                  dev_id = id;
                  backing = backing;
                  closed_era = (checkpoint st).1;
                  current_era = (checkpoint st).2;
                  meta_saved = some true;
                })),
          ))
        × Saved path (checkpoint st).0 false d d'
  unfolding perform resolved resolve Service.checkpoint reap running lookup checkpoint_one save_open
      set_state
  perform-checkpoint t =
      let (d', run, s) = save_to-Saved path (checkpoint st).0 false d t in
      (
        d',
        rw
            (
              Service.checkpoint,
              found id backing path st,
              save_open,
              run,
              set_state-alone id backing path st (checkpoint st).0,
            )
            refl,
        s,
      )

  -- A dump with a generation of 64 bits, as it is printed, and an era.
  pub perform-dump :
      (since gen : ℕ)
      → perform k
          (dump_of (by_id id) since (some (show_hex gen)))
          (daemon (managed id backing path st ∷ []) strays d)
        ≡ answer dumped (
          daemon (managed id backing path st ∷ []) strays d,
          dump_state id since (some (show_hex gen)) st,
        )
  unfolding perform resolved resolve Service.dump reap running
  perform-dump since gen = rw (Service.dump, found id backing path st) refl

  -- A detach ends with no device, and the tracker in the file, clean.
  pub perform-del :
      k.fate id ≡ deleted
      → Takes path d
      → (d' : Disk) × (perform k
            (del_device (by_id id))
            (daemon (managed id backing path st ∷ []) strays d)
          ≡ (daemon [] strays d', ok (removed backing)))
        × Saved path st true d d'
  unfolding perform resolved resolve del delete reap running
  perform-del gone t = (
    final_save (some path) st d,
    rw (del, found id backing path st, gone, remove-alone id backing path st) refl,
    final_save-Saved path st d t,
  )

-- A shutdown is only answered; the daemon detaches its devices after the answer.
pub perform-shutdown : (k : Luck) (s : DeviceManager) → perform k shutdown s ≡ (s, ok going_down)
unfolding perform
perform-shutdown k s = refl

-- The spec of a client that names the backing, the granularity and the metadata file.
abbrev pub asks : (backing granularity path : ℕ) → DeviceSpec
asks backing granularity path = record {
  backing = backing;
  granularity = granularity;
  meta = some path;
  dev_id = none;
}

module _ (k : Luck) (id backing g path size : ℕ) (t : EraState) (unclean : Bool)
    (strays : List (Option ℕ × EraState)) (d : Disk) (sized : k.world.size_of backing ≡ some size)
    (pos : 0 < size) (sectors : size % 512 ≡ 0)
    (got : obtain d (asks backing g path) size k.gen ≡ ok (t, unclean)) where
  admit-asks : admit k.world (asks backing g path) [] ≡ ok size
  unfolding admit id_free any_backing
  admit-asks = rw (admit, sized, lt→ltb 0 size pos, eq→== (size % 512) 0 sectors) refl

  prepare-asks :
      {d' : Disk}
      → save_to (some path) t false d ≡ ok d'
      → prepare k.world (asks backing g path) k.gen (daemon [] strays d) ≡ ok (d', size, t, unclean)
  unfolding prepare
  prepare-asks saved = rw (prepare, admit-asks, got, saved) refl

  -- An attach to a daemon with no device: what `obtain` makes of the metadata file goes live, and the
  -- file is the marker of an attached device.
  pub perform-add :
      k.startup ≡ up id
      → Takes path d
      → (d' : Disk) × (perform k (add_device (asks backing g path)) (daemon [] strays d) ≡ (
        daemon (managed id backing path t ∷ []) strays d',
        ok (
            added (record {
              dev_id = id;
              dev_size = size;
              generation = t.generation;
              current_era = t.current_era;
              recovered_unclean = unclean;
            })),
      ))
        × Saved path t false d d'
  unfolding perform add reap running launch remove
  perform-add starts takes =
      let (d', saved, s) = save_to-Saved path t false d takes in
      (d', rw (add, prepare-asks saved, starts) refl, s)
