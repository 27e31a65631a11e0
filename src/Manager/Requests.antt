-- ===== src/Manager/Requests.antt =====
-- src/manager.rs on the devices that are attached, and the requests of src/ctl.rs.
use ublkera.Base.{
  ℕ, Bool, true, false, ◌||◌, Option, some, none, List, [], ◌∷◌, leb, ◌==◌, if◌then◌else◌, Result,
  ok, err, ◌>>=◌, context,
}
use ublkera.Era.{EraState, nr_chunks, written_chunks, checkpoint}
use ublkera.Meta.Save.{Disk}
use ublkera.Manager.{
  Managed, DeviceManager, World, Deletion, deleted, not_deleted, panicked, Refusal, two_targets,
  no_target, not_tracked, not_managed, delete_failed, supervisor_panic, reap, save_to, final_save,
  remove,
}

-- `Target`
pub record Target : Type 0 where
  pub dev_id : Option ℕ
  pub backing : Option ℕ

-- Whether two paths canonicalize, and to the same path.
unfoldable pub same_place : Option ℕ → Option ℕ → Bool
same_place none b = false
same_place (some a) none = false
same_place (some a) (some b) = a == b

-- The search of `resolve`.
unfoldable pub find_backing : World → ℕ → List Managed → Option ℕ
unfolding same_place
find_backing w b [] = none
find_backing w b (m ∷ devs) =
    if m.backing == b || same_place (w.canonical b) (w.canonical m.backing)
    then some m.dev_id
    else find_backing w b devs

-- `resolve`
unfoldable pub resolve : World → Target → DeviceManager → DeviceManager × Result Refusal ℕ
unfolding reap find_backing
resolve w t s = elim t.dev_id [
  | some id ↦ elim t.backing [ none ↦ (s, ok id) | some b ↦ (s, err two_targets) ]
  | none ↦ elim t.backing [
    | none ↦ (s, err no_target)
    | some b ↦ (reap s, context (find_backing w b (reap s).devices) not_tracked)
  ]
]

-- `lookup`
unfoldable pub lookup : ℕ → List Managed → Option Managed
lookup id [] = none
lookup id (m ∷ devs) = if m.dev_id == id then some m else lookup id devs

-- The end of `del`, for a device that has left the registry.
unfoldable pub delete : Deletion → Managed → DeviceManager → DeviceManager × Result Refusal ℕ
unfolding final_save
delete deleted m s = (record s { disk = final_save m.meta m.state s.disk }, ok m.backing)
delete not_deleted m s = (record s { strays = (m.meta, m.state) ∷ s.strays }, err delete_failed)
delete panicked m s = (s, err supervisor_panic)

-- `del`, with the backing as its answer.
unfoldable pub del : Deletion → ℕ → DeviceManager → DeviceManager × Result Refusal ℕ
unfolding delete lookup remove
del fate id s = elim (lookup id (reap s).devices) [
  | none ↦ (reap s, err not_managed)
  | some m ↦ delete fate m (record (reap s) { devices = remove id (reap s).devices })
]

-- What `device_status` tells of a device.
pub record DeviceStatus : Type 0 where
  pub dev_id : ℕ
  pub backing : ℕ
  pub dev_size : ℕ
  pub granularity : ℕ
  pub generation : ℕ
  pub current_era : ℕ
  pub nr_chunks : ℕ
  pub written_chunks : ℕ
  pub meta_path : Option ℕ

-- `device_status`
pub device_status : Managed → DeviceStatus
device_status m = record {
  dev_id = m.dev_id;
  backing = m.backing;
  dev_size = m.state.dev_size;
  granularity = m.state.granularity;
  generation = m.state.generation;
  current_era = m.state.current_era;
  nr_chunks = nr_chunks m.state;
  written_chunks = written_chunks m.state;
  meta_path = m.meta;
}

-- `sort_by_key` on the ids, which is stable.
pub sort_in : DeviceStatus → List DeviceStatus → List DeviceStatus
sort_in v [] = v ∷ []
sort_in v (u ∷ us) = if leb v.dev_id u.dev_id then v ∷ u ∷ us else u ∷ sort_in v us

pub sorted_statuses : List Managed → List DeviceStatus
unfolding sort_in device_status
sorted_statuses [] = []
sorted_statuses (m ∷ devs) = sort_in (device_status m) (sorted_statuses devs)

-- `list`
unfoldable pub list : DeviceManager → DeviceManager × List DeviceStatus
unfolding sorted_statuses
list s = (reap s, sorted_statuses (reap s).devices)

-- `status`
unfoldable pub status : ℕ → DeviceManager → DeviceManager × Result Refusal DeviceStatus
unfolding lookup
status id s =
    (reap s, (context (lookup id (reap s).devices) not_managed >>= λ m. ok (device_status m)))

-- The answer of `checkpoint_one`; `meta_saved` is there for a device with metadata.
pub record Closed : Type 0 where
  pub dev_id : ℕ
  pub backing : ℕ
  pub closed_era : ℕ
  pub current_era : ℕ
  pub meta_saved : Option Bool

-- The save of `checkpoint_one`: the disk, and whether it went well.
unfoldable pub save_open : Option ℕ → EraState → Disk → Disk × Option Bool
unfolding save_to
save_open none st d = (d, none)
save_open (some path) st d = elim (save_to (some path) st false d) [
  | ok d' ↦ (d', some true)
  | err x ↦ (x.0, some false)
]

-- `checkpoint_one`: the state of the device and the disk after it, and the answer.
unfoldable pub checkpoint_one : Managed → Disk → EraState × Disk × Closed
unfolding save_open
checkpoint_one m d =
    let (st, closed, current) = checkpoint m.state in
    let (d', saved) = save_open m.meta st d in
    (
      st,
      d',
      record {
        dev_id = m.dev_id;
        backing = m.backing;
        closed_era = closed;
        current_era = current;
        meta_saved = saved;
      },
    )

-- The registry after the shared state of one device has changed, and after its supervisor has ended.
unfoldable pub set_state : ℕ → EraState → List Managed → List Managed
set_state id st [] = []
set_state id st (m ∷ devs) =
    (if m.dev_id == id then record m { state = st } else m) ∷ set_state id st devs

unfoldable pub set_finished : ℕ → List Managed → List Managed
set_finished id [] = []
set_finished id (m ∷ devs) =
    (if m.dev_id == id then record m { finished = true } else m) ∷ set_finished id devs
