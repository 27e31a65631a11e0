-- ===== src/Manager/Service.antt =====
-- The requests of src/manager.rs that checkpoint, dump and shut down.
use ublkera.Base.{
  ℕ, ◌+◌, Option, some, none, List, [], ◌∷◌, map, ltb, ◌==◌, u64, Result, ok, err, ◌>>=◌, ◌>>◌,
  ensure, context,
}
use ublkera.Era.{EraState, DirtyRange, ranges_since, mark_write}
use ublkera.Meta.Save.{Disk}
use ublkera.Manager.{
  Managed, DeviceManager, Deletion, Refusal, not_managed, bad_generation, generation_mismatch,
  stale_cursor, reap, final_save,
}
use ublkera.Manager.Requests.{lookup, set_state, set_finished, checkpoint_one, Closed, del}
use ublkera.Manager.Generation.{parse_hex}

-- `checkpoint`
unfoldable pub checkpoint : ℕ → DeviceManager → DeviceManager × Result Refusal Closed
unfolding reap lookup checkpoint_one set_state
checkpoint id s = elim (lookup id (reap s).devices) [
  | none ↦ (reap s, err not_managed)
  | some m ↦
      let (st, d, closed) = checkpoint_one m s.disk in
      (record s { devices = set_state id st (reap s).devices; disk = d }, ok closed)
]

-- The loop of `checkpoint_all`: the devices, the disk and the answers.
unfoldable pub checkpoint_each : List Managed → Disk → List Managed × Disk × List Closed
unfolding checkpoint_one
checkpoint_each [] d = ([], d, [])
checkpoint_each (m ∷ devs) d =
    let (st, d', closed) = checkpoint_one m d in
    let (devs', d'', rest) = checkpoint_each devs d' in
    (record m { state = st } ∷ devs', d'', closed ∷ rest)

-- `checkpoint_all`
unfoldable pub checkpoint_all : DeviceManager → DeviceManager × List Closed
unfolding checkpoint_each
checkpoint_all s =
    let (devs, d, answers) = checkpoint_each (reap s).devices s.disk in
    (record s { devices = devs; disk = d }, answers)

-- The answer of `dump`.
pub record Dumped : Type 0 where
  pub dev_id : ℕ
  pub generation : ℕ
  pub current_era : ℕ
  pub since : ℕ
  pub granularity : ℕ
  pub dirty_bytes : ℕ
  pub ranges : List DirtyRange

unfoldable pub sum_len : List DirtyRange → ℕ
sum_len [] = 0
sum_len (r ∷ rs) = u64 (r.len + sum_len rs)

-- The test of the cursor's generation, if it has one.
unfoldable pub check_generation : Option (List ℕ) → EraState → Result Refusal (Unit {0})
unfolding parse_hex
check_generation none st = ok tt
check_generation (some g) st = do
  expect ← context (parse_hex g) bad_generation
  ensure (expect == st.generation) generation_mismatch

-- `dump` of a device's state.
unfoldable pub dump_state : (id since : ℕ) → Option (List ℕ) → EraState → Result Refusal Dumped
unfolding check_generation sum_len
dump_state id since generation st = do
  check_generation generation st
  ensure (ltb since st.current_era) stale_cursor
  ok (record {
    dev_id = id;
    generation = st.generation;
    current_era = st.current_era;
    since = since;
    granularity = st.granularity;
    dirty_bytes = sum_len (ranges_since since st);
    ranges = ranges_since since st;
  })

-- `dump`
unfoldable pub dump :
    (id since : ℕ) → Option (List ℕ) → DeviceManager → DeviceManager × Result Refusal Dumped
unfolding dump_state
dump id since generation s = (
  reap s,
  (context (lookup id (reap s).devices) not_managed >>= λ m.
      dump_state id since generation m.state),
)

-- The loop of `shutdown_all`; each `del` that fails is logged and passed over.
unfoldable pub del_each : (ℕ → Deletion) → List ℕ → DeviceManager → DeviceManager
unfolding del
del_each fate [] s = s
del_each fate (id ∷ ids) s = del_each fate ids (del (fate id) id s).0

-- `shutdown_all`
unfoldable pub shutdown_all : (ℕ → Deletion) → DeviceManager → DeviceManager
unfolding del_each
shutdown_all fate s = del_each fate (map (λ m. m.dev_id) s.devices) s

-- A request of the consumer that the device's queue has completed, `mark_write` of src/target.rs.
unfoldable pub written : (races : List ℕ) (id off len : ℕ) → DeviceManager → Option DeviceManager
unfolding set_state lookup
written races id off len s = elim (lookup id s.devices) [
  | none ↦ some s
  | some m ↦ elim (mark_write races off len m.state) [
    | none ↦ none
    | some st ↦ some (record s { devices = set_state id st s.devices })
  ]
]

-- The supervisor of a device that was deleted from outside: its final save, and its end.
pub gone : ℕ → DeviceManager → DeviceManager
unfolding final_save lookup set_finished
gone id s = elim (lookup id s.devices) [
  | none ↦ s
  | some m ↦ record s {
    devices = set_finished id s.devices;
    disk = final_save m.meta m.state s.disk;
  }
]
