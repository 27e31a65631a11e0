-- ===== src/Manager/Registry.antt =====
-- The registry of src/manager.rs through the requests of src/ctl.rs: no id and no backing is there
-- twice.
use ublkera.Base.{
  err, Result, ap, ok-injective, ℕ, ◌≡◌, refl, Bool, true, false, none, List, [], ◌∷◌, ◌==◌, ok,
  arith, Bool-cases, Result-cases, inl, inr, Option-cases, not, bind-ok, ensure-ok, context-ok,
}
use ublkera.Era.{EraState}
use ublkera.Meta.Save.{Disk}
use ublkera.Manager.{
  untouched, Refusal, DeviceSpec, Managed, DeviceManager, World, Startup, up, not_created, not_run,
  died, timed_out, Deletion, deleted, not_deleted, panicked, running, reap, any_backing, remove,
  admit, prepare, launch, add,
}
use ublkera.Manager.Requests.{lookup, set_state, del, delete}

-- No id and no backing is there twice.
abbrev pub Distinct : List Managed → Type 0
Distinct [] = Unit
Distinct (m ∷ devs) =
    (lookup m.dev_id devs ≡ none) × (any_backing m.backing devs ≡ false) × Distinct devs

lookup-running :
    (id : ℕ) (devs : List Managed) → lookup id devs ≡ none → lookup id (running devs) ≡ none
unfolding lookup running
lookup-running id [] h = refl
lookup-running id (m ∷ devs) h = ground (arith, lookup-running id devs)

any_backing-running :
    (b : ℕ) (devs : List Managed)
    → any_backing b devs ≡ false
    → any_backing b (running devs) ≡ false
unfolding any_backing running
any_backing-running b [] h = refl
any_backing-running b (m ∷ devs) h = ground (arith, any_backing-running b devs)

pub running-Distinct : (devs : List Managed) → Distinct devs → Distinct (running devs)
unfolding running
running-Distinct [] d = tt
running-Distinct (m ∷ devs) (a, b, c) = elim (Bool-cases m.finished) [
  | inl over ↦ rw over (running-Distinct devs c)
  | inr on ↦ rw on (
    lookup-running m.dev_id devs a,
    any_backing-running m.backing devs b,
    running-Distinct devs c,
  )
]

lookup-remove_other :
    (id i : ℕ) (devs : List Managed) → lookup i devs ≡ none → lookup i (remove id devs) ≡ none
unfolding lookup remove
lookup-remove_other id i [] h = refl
lookup-remove_other id i (m ∷ devs) h = ground (arith, lookup-remove_other id i devs)

any_backing-remove :
    (id b : ℕ) (devs : List Managed)
    → any_backing b devs ≡ false
    → any_backing b (remove id devs) ≡ false
unfolding any_backing remove
any_backing-remove id b [] h = refl
any_backing-remove id b (m ∷ devs) h = ground (arith, any_backing-remove id b devs)

remove-Distinct : (id : ℕ) (devs : List Managed) → Distinct devs → Distinct (remove id devs)
unfolding remove
remove-Distinct id [] d = tt
remove-Distinct id (m ∷ devs) (a, b, c) = elim (Bool-cases (m.dev_id == id)) [
  | inl same ↦ rw same (remove-Distinct id devs c)
  | inr other ↦ rw other (
    lookup-remove_other id m.dev_id devs a,
    any_backing-remove id m.backing devs b,
    remove-Distinct id devs c,
  )
]

lookup-set_state :
    (id i : ℕ) (st : EraState) (devs : List Managed)
    → lookup i devs ≡ none
    → lookup i (set_state id st devs) ≡ none
unfolding lookup set_state
lookup-set_state id i st [] h = refl
lookup-set_state id i st (m ∷ devs) h = ground (arith, lookup-set_state id i st devs)

any_backing-set_state :
    (id b : ℕ) (st : EraState) (devs : List Managed)
    → any_backing b devs ≡ false
    → any_backing b (set_state id st devs) ≡ false
unfolding any_backing set_state
any_backing-set_state id b st [] h = refl
any_backing-set_state id b st (m ∷ devs) h = ground (arith, any_backing-set_state id b st devs)

pub set_state-Distinct :
    (id : ℕ) (st : EraState) (devs : List Managed) → Distinct devs → Distinct (set_state id st devs)
unfolding set_state
set_state-Distinct id st [] d = tt
set_state-Distinct id st (m ∷ devs) (a, b, c) = elim (Bool-cases (m.dev_id == id)) [
  | inl same ↦ rw same (
    lookup-set_state id m.dev_id st devs a,
    any_backing-set_state id m.backing st devs b,
    set_state-Distinct id st devs c,
  )
  | inr other ↦ rw other (
    lookup-set_state id m.dev_id st devs a,
    any_backing-set_state id m.backing st devs b,
    set_state-Distinct id st devs c,
  )
]

pub reap-Distinct : (s : DeviceManager) → Distinct s.devices → Distinct (reap s).devices
unfolding reap
reap-Distinct s d = running-Distinct s.devices d

lookup-remove_same : (id : ℕ) (devs : List Managed) → lookup id (remove id devs) ≡ none
unfolding lookup remove
lookup-remove_same id [] = refl
lookup-remove_same id (m ∷ devs) = ground (arith, lookup-remove_same id devs)

launch-Distinct :
    (start : Startup) (spec : DeviceSpec) (size : ℕ) (st : EraState) (unclean : Bool)
    (s : DeviceManager)
    → any_backing spec.backing s.devices ≡ false
    → Distinct s.devices
    → Distinct (launch start spec size st unclean s).0.devices
unfolding launch
launch-Distinct (up id) spec size st unclean s h d = (
  lookup-remove_same id s.devices,
  any_backing-remove id spec.backing s.devices h,
  remove-Distinct id s.devices d,
)
launch-Distinct not_created spec size st unclean s h d = d
launch-Distinct not_run spec size st unclean s h d = d
launch-Distinct died spec size st unclean s h d = d
launch-Distinct timed_out spec size st unclean s h d = d

not-false : (b : Bool) → not b ≡ true → b ≡ false
not-false true h = cc
not-false false h = refl

untouched-ok :
    {A : Type 0} (d : Disk) (r : Result Refusal A) {a : A} → untouched d r ≡ ok a → r ≡ ok a
untouched-ok d (ok a) h = ap ok (ok-injective h)
untouched-ok d (err e) h = cc

prepare-free :
    (w : World) (spec : DeviceSpec) (gen : ℕ) (s : DeviceManager) {r : Disk × ℕ × EraState × Bool}
    → prepare w spec gen s ≡ ok r
    → any_backing spec.backing s.devices ≡ false
unfolding prepare admit
prepare-free w spec gen s e =
    let (n, passed, e1) = bind-ok (untouched s.disk (admit w spec s.devices)) _ e in
    let admitted = untouched-ok s.disk (admit w spec s.devices) passed in
    let (free, e2) = ensure-ok _ _ _ admitted in
    let (size, opened, e3) = context-ok (w.size_of spec.backing) _ _ e2 in
    let (fits, e4) = ensure-ok _ _ _ e3 in
    let (fresh, e5) = ensure-ok _ _ _ e4 in not-false (any_backing spec.backing s.devices) fresh

pub add-Distinct :
    (w : World) (start : Startup) (gen : ℕ) (spec : DeviceSpec) (s : DeviceManager)
    → Distinct s.devices
    → Distinct (add w start gen spec s).0.devices
unfolding add
add-Distinct w start gen spec s d = elim (Result-cases (prepare w spec gen (reap s))) [
  | inl (r, ready) ↦
      let (disk, size, st, unclean) = r in
      rw (add, ready)
        (launch-Distinct start spec size st unclean (record (reap s) { disk = disk })
          (prepare-free w spec gen (reap s) ready) (reap-Distinct s d))
  | inr (x, failed) ↦ rw (add, failed) (reap-Distinct s d)
]

delete-devices :
    (fate : Deletion) (m : Managed) (s : DeviceManager) → (delete fate m s).0.devices ≡ s.devices
unfolding delete
delete-devices deleted m s = refl
delete-devices not_deleted m s = refl
delete-devices panicked m s = refl

pub del-Distinct :
    (fate : Deletion) (id : ℕ) (s : DeviceManager)
    → Distinct s.devices
    → Distinct (del fate id s).0.devices
unfolding del
del-Distinct fate id s d = elim (Option-cases (lookup id (reap s).devices)) [
  | inl missing ↦ rw (del, missing) (reap-Distinct s d)
  | inr (m, here) ↦
      rw
        (
          del,
          here,
          delete-devices fate m (record (reap s) { devices = remove id (reap s).devices }),
        )
        (remove-Distinct id (reap s).devices (reap-Distinct s d))
]
