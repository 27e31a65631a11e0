-- ===== src/Manager.antt =====
-- src/manager.rs: the registry of tracked devices. Backings and metadata files go by numbers of
-- their paths.
pub mod Generation
pub mod Attach
pub mod Requests
pub mod Detach
pub mod Cursor
pub mod Registry
pub mod Service
use ublkera.Base.{
  ◌*◌, ℕ, ◌+◌, ◌%◌, ◌^◌, Bool, true, false, not, ◌&&◌, ◌||◌, Option, some, none, List, [], ◌∷◌,
  ◌++◌, ltb, leb, ◌==◌, if◌then◌else◌, u64, Result, ok, err, ◌>>=◌, ◌>>◌, ensure, context,
}
use ublkera.Era.{
  EraState, DirtyRange, new, nr_chunks, written_chunks, ranges_since, mark_all_dirty, mark_write,
}
use ublkera.Meta.{decode, LoadError}
use ublkera.Meta.Save.{Disk, save}
use Generation.{parse_hex}

-- `DeviceSpec`; `dev_id` is `none` for a negative one.
pub record DeviceSpec : Type 0 where
  pub backing : ℕ
  pub granularity : ℕ
  pub meta : Option ℕ
  pub dev_id : Option ℕ

-- A spec with the defaults of its fields, as a request that leaves them out is read.
pub default_spec : (backing : ℕ) → DeviceSpec
default_spec backing = record {
  backing = backing;
  granularity = 64 * 1024;
  meta = none;
  dev_id = none;
}

-- `Managed`, with the state that the registry, the supervisor and the queues share. `finished` is
-- `is_finished` of the supervisor.
pub record Managed : Type 0 where
  pub dev_id : ℕ
  pub backing : ℕ
  pub meta : Option ℕ
  pub state : EraState
  pub finished : Bool

-- The registry; the supervisors that run on though the registry does not name them, by their
-- metadata path and state; and the files.
pub record DeviceManager : Type 0 where
  pub devices : List Managed
  pub strays : List (Option ℕ × EraState)
  pub disk : Disk

-- What the system around the daemon answers: the size of a backing that opens, whether a device
-- node exists, and `canonicalize`.
pub record World : Type 0 where
  pub size_of : ℕ → Option ℕ
  pub node_exists : ℕ → Bool
  pub canonical : ℕ → Option ℕ

-- How `supervise_device` fares until it has reported: the device is up, its control device could not
-- be created, its target did not run, the thread panicked, or no report came in time. And how a
-- deletion fares.
pub data Startup : Type 0 where
  up : (dev_id : ℕ) → Startup
  not_created not_run died timed_out : Startup

pub data Deletion : Type 0 where
  deleted not_deleted panicked : Deletion

pub data Refusal : Type 0 where
  id_in_use not_opened already_attached marker_failed start_failed startup_panic startup_timeout :
      Refusal
  bad_size : ℕ → Refusal
  bad_metadata : LoadError → Refusal
  bad_granularity : Refusal
  two_targets no_target not_tracked not_managed : Refusal
  delete_failed supervisor_panic : Refusal
  bad_generation generation_mismatch stale_cursor : Refusal

-- The answer of `add`.
pub record Added : Type 0 where
  pub dev_id : ℕ
  pub dev_size : ℕ
  pub generation : ℕ
  pub current_era : ℕ
  pub recovered_unclean : Bool

unfoldable pub running : List Managed → List Managed
running [] = []
running (m ∷ devs) = if m.finished then running devs else m ∷ running devs

-- `reap`
unfoldable pub reap : DeviceManager → DeviceManager
unfolding running
reap s = record s { devices = running s.devices }

unfoldable pub any_backing : ℕ → List Managed → Bool
any_backing b [] = false
any_backing b (m ∷ devs) = m.backing == b || any_backing b devs

unfoldable pub id_free : World → Option ℕ → Bool
id_free w none = true
id_free w (some id) = not (w.node_exists id)

-- The tests of `add` before any metadata is read; the result is the size of the device.
unfoldable pub admit : World → DeviceSpec → List Managed → Result Refusal ℕ
unfolding id_free any_backing
admit w spec devs = do
  ensure (id_free w spec.dev_id) id_in_use
  size ← context (w.size_of spec.backing) not_opened
  ensure (ltb 0 size && size % 512 == 0) (bad_size size)
  ensure (not (any_backing spec.backing devs)) already_attached
  ok size

pub refuse_load : {A : Type 0} → Result LoadError A → Result Refusal A
refuse_load (ok a) = ok a
refuse_load (err e) = err (bad_metadata e)

-- A loaded state and whether it was clean, turned into the state and `recovered_unclean`.
unfoldable pub recover : EraState × Bool → EraState × Bool
recover (s, true) = (s, false)
recover (s, false) = (mark_all_dirty s, true)

abbrev pub fresh : EraState → EraState × Bool
fresh s = (s, false)

unfoldable pub from_file :
    Option (List ℕ) → (size granularity gen : ℕ) → Result Refusal (EraState × Bool)
unfolding recover refuse_load
from_file none size g gen = do s ← context (new size g gen) bad_granularity; ok (fresh s)
from_file (some raw) size g gen = do r ← refuse_load (decode raw size g gen); ok (recover r)

abbrev pub contents : Disk → Option ℕ → Option (List ℕ)
contents d none = none
contents d (some path) = d.file path

-- The state of a device before it goes live, with `recovered_unclean`.
unfoldable pub obtain : Disk → DeviceSpec → (size gen : ℕ) → Result Refusal (EraState × Bool)
unfolding from_file
obtain d spec size gen = from_file (contents d spec.meta) size spec.granularity gen

-- A save whose error leaves its disk behind.
unfoldable pub save_to : Option ℕ → EraState → Bool → Disk → Result (Disk × Refusal) Disk
unfolding save
save_to none s clean d = ok d
save_to (some path) s clean d = elim (save d path s clean) [
  | ok d' ↦ ok d'
  | err d' ↦ err (d', marker_failed)
]

-- The end of `supervise_device`: the final save, whose failure is only logged.
unfoldable pub final_save : Option ℕ → EraState → Disk → Disk
unfolding save_to
final_save meta st d = elim (save_to meta st true d) [ ok d' ↦ d' | err x ↦ x.0 ]

-- `HashMap::remove` and `insert`
unfoldable pub remove : ℕ → List Managed → List Managed
remove id [] = []
remove id (m ∷ devs) = if m.dev_id == id then remove id devs else m ∷ remove id devs

abbrev pub insert : Managed → List Managed → List Managed
insert m devs = m ∷ remove m.dev_id devs

-- The end of `add`, from the supervisor's report on.
unfoldable pub launch :
    Startup
    → DeviceSpec
    → (size : ℕ) → EraState
    → Bool
    → DeviceManager
    → DeviceManager × Result Refusal Added
unfolding remove final_save
launch (up id) spec size st unclean s =
    let m : Managed = record {
      dev_id = id;
      backing = spec.backing;
      meta = spec.meta;
      state = st;
      finished = false;
    } in
    (
      record s { devices = insert m s.devices },
      ok (record {
        dev_id = id;
        dev_size = size;
        generation = st.generation;
        current_era = st.current_era;
        recovered_unclean = unclean;
      }),
    )
launch not_created spec size st unclean s = (s, err start_failed)
launch not_run spec size st unclean s =
    (record s { disk = final_save spec.meta st s.disk }, err start_failed)
launch died spec size st unclean s = (s, err startup_panic)
launch timed_out spec size st unclean s =
    (record s { strays = (spec.meta, st) ∷ s.strays }, err startup_timeout)

-- A refusal before the disk is touched.
abbrev pub untouched : {A : Type 0} → Disk → Result Refusal A → Result (Disk × Refusal) A
untouched d (ok a) = ok a
untouched d (err e) = err (d, e)

-- `add` between the reaping and the supervisor: the disk with the attach marker, the size, the state
-- and `recovered_unclean`; or a refusal, and the disk that it leaves.
unfoldable pub prepare :
    World
    → DeviceSpec
    → (gen : ℕ) → DeviceManager
    → Result (Disk × Refusal) (Disk × ℕ × EraState × Bool)
unfolding admit obtain save_to
prepare w spec gen s = do
  size ← untouched s.disk (admit w spec s.devices)
  r ← untouched s.disk (obtain s.disk spec size gen)
  d ← save_to spec.meta r.0 false s.disk
  ok (d, size, r.0, r.1)

-- `add`
unfoldable pub add :
    World → Startup → (gen : ℕ) → DeviceSpec → DeviceManager → DeviceManager × Result Refusal Added
unfolding reap prepare launch
add w start gen spec s = elim (prepare w spec gen (reap s)) [
  | err x ↦ (record (reap s) { disk = x.0 }, err x.1)
  | ok (d, size, st, unclean) ↦ launch start spec size st unclean (record (reap s) { disk = d })
]
