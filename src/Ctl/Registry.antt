-- ===== src/Ctl/Registry.antt =====
-- The registry of src/manager.rs through any requests of src/ctl.rs.
use ublkera.Base.{
  ℕ, ◌≡◌, refl, false, none, List, [], ◌∷◌, Result, ok, err, arith, Bool-cases, Option-cases,
  Result-cases, inl, inr, map,
}
use ublkera.Meta.Save.{Disk}
use ublkera.Manager.{Managed, DeviceManager, World, reap, any_backing, add, Refusal, Deletion}
use ublkera.Manager.Requests.{Target, lookup, checkpoint_one, resolve, del, list, status}
use ublkera.Manager.Service.{
  checkpoint, checkpoint_each, checkpoint_all, Dumped, dump, del_each, shutdown_all,
}
use ublkera.Manager.Registry.{
  Distinct, reap-Distinct, add-Distinct, del-Distinct, set_state-Distinct,
}
use ublkera.Ctl.{
  Request, add_device, del_device, status_of, checkpoint_of, list_devices, checkpoint_devices,
  shutdown, dump_of, Answer, Luck, answer, resolved, perform, handle, serve, is_shutdown,
}

checkpoint-Distinct :
    (id : ℕ) (s : DeviceManager) → Distinct s.devices → Distinct (checkpoint id s).0.devices
unfolding checkpoint
checkpoint-Distinct id s d = elim (Option-cases (lookup id (reap s).devices)) [
  | inl missing ↦ rw (checkpoint, missing) (reap-Distinct s d)
  | inr (m, here) ↦
      rw (checkpoint, here)
        (set_state-Distinct id (checkpoint_one m s.disk).0 (reap s).devices (reap-Distinct s d))
]

lookup-checkpoint_each :
    (i : ℕ) (devs : List Managed) (d : Disk)
    → lookup i devs ≡ none
    → lookup i (checkpoint_each devs d).0 ≡ none
unfolding checkpoint_each lookup
lookup-checkpoint_each i [] d h = refl
lookup-checkpoint_each i (m ∷ devs) d h =
    ground (arith, lookup-checkpoint_each i devs (checkpoint_one m d).1)

any_backing-checkpoint_each :
    (b : ℕ) (devs : List Managed) (d : Disk)
    → any_backing b devs ≡ false
    → any_backing b (checkpoint_each devs d).0 ≡ false
unfolding checkpoint_each any_backing
any_backing-checkpoint_each b [] d h = refl
any_backing-checkpoint_each b (m ∷ devs) d h =
    ground (arith, any_backing-checkpoint_each b devs (checkpoint_one m d).1)

checkpoint_each-Distinct :
    (devs : List Managed) (d : Disk) → Distinct devs → Distinct (checkpoint_each devs d).0
unfolding checkpoint_each
checkpoint_each-Distinct [] d h = tt
checkpoint_each-Distinct (m ∷ devs) d (a, b, c) = (
  lookup-checkpoint_each m.dev_id devs (checkpoint_one m d).1 a,
  any_backing-checkpoint_each m.backing devs (checkpoint_one m d).1 b,
  checkpoint_each-Distinct devs (checkpoint_one m d).1 c,
)

resolve-Distinct :
    (w : World) (t : Target) (s : DeviceManager)
    → Distinct s.devices
    → Distinct (resolve w t s).0.devices
unfolding resolve
resolve-Distinct w t s d = elim (Option-cases t.dev_id) [
  | inl no_id ↦ elim (Option-cases t.backing) [
    | inl no_path ↦ rw (resolve, no_id, no_path) d
    | inr (b, path) ↦ rw (resolve, no_id, path) (reap-Distinct s d)
  ]
  | inr (id, given) ↦ elim (Option-cases t.backing) [
    | inl no_path ↦ rw (resolve, given, no_path) d
    | inr (b, path) ↦ rw (resolve, given, path) d
  ]
]

resolved-Distinct :
    {A : Type 0} (w : World) (t : Target) (f : ℕ → DeviceManager → DeviceManager × Result Refusal A)
    (s : DeviceManager)
    → ((id : ℕ) (u : DeviceManager) → Distinct u.devices → Distinct (f id u).0.devices)
    → Distinct s.devices
    → Distinct (resolved w t f s).0.devices
unfolding resolved
resolved-Distinct w t f s keeps d = elim (Result-cases (resolve w t s).1) [
  | inl (id, found) ↦ rw (resolved, found) (keeps id (resolve w t s).0 (resolve-Distinct w t s d))
  | inr (x, failed) ↦ rw (resolved, failed) (resolve-Distinct w t s d)
]

answer-Distinct :
    {A : Type 0} (f : A → Answer) (r : DeviceManager × Result Refusal A)
    → Distinct r.0.devices
    → Distinct (answer f r).0.devices
answer-Distinct f (s, ok a) d = d
answer-Distinct f (s, err e) d = d

-- No request, whatever the devices and the world answer to it, puts an id or a backing into the
-- registry twice.
pub perform-Distinct :
    (k : Luck) (r : Request) (s : DeviceManager)
    → Distinct s.devices
    → Distinct (perform k r s).0.devices
unfolding perform status list checkpoint_all checkpoint_each dump
perform-Distinct k (add_device spec) s d =
    answer-Distinct _ (add k.world k.startup k.gen spec s)
      (add-Distinct k.world k.startup k.gen spec s d)
perform-Distinct k (del_device t) s d =
    let f : ℕ → DeviceManager → DeviceManager × Result Refusal ℕ = λ id. del (k.fate id) id in
    answer-Distinct _ (resolved k.world t f s)
      (resolved-Distinct k.world t f s (λ id u h. del-Distinct (k.fate id) id u h) d)
perform-Distinct k list_devices s d = reap-Distinct s d
perform-Distinct k (status_of t) s d =
    answer-Distinct _ (resolved k.world t status s)
      (resolved-Distinct k.world t status s (λ id u h. reap-Distinct u h) d)
perform-Distinct k (checkpoint_of t) s d =
    answer-Distinct _ (resolved k.world t checkpoint s)
      (resolved-Distinct k.world t checkpoint s checkpoint-Distinct d)
perform-Distinct k checkpoint_devices s d =
    checkpoint_each-Distinct (reap s).devices s.disk (reap-Distinct s d)
perform-Distinct k (dump_of t since g) s d =
    let f : ℕ → DeviceManager → DeviceManager × Result Refusal Dumped = λ id. dump id since g in
    answer-Distinct _ (resolved k.world t f s)
      (resolved-Distinct k.world t f s (λ id u h. reap-Distinct u h) d)
perform-Distinct k shutdown s d = d

del_each-Distinct :
    (fate : ℕ → Deletion) (ids : List ℕ) (s : DeviceManager)
    → Distinct s.devices
    → Distinct (del_each fate ids s).devices
unfolding del_each
del_each-Distinct fate [] s d = d
del_each-Distinct fate (id ∷ ids) s d =
    del_each-Distinct fate ids (del (fate id) id s).0 (del-Distinct (fate id) id s d)

-- In no sequence of requests that the daemon serves, whatever the devices and the world answer to
-- each of them, does an id or a backing come into the registry twice: not after any number of
-- requests, and not after the detaching of a shutdown.
pub serve-Distinct :
    (rs : List (Luck × Request)) (s : DeviceManager)
    → Distinct s.devices
    → Distinct (serve rs s).devices
unfolding serve handle shutdown_all
serve-Distinct [] s d = d
serve-Distinct ((k, r) ∷ rs) s d =
    let next = perform-Distinct k r s d in
    elim (Bool-cases (is_shutdown r)) [
      | inl down ↦ rw down (
          del_each-Distinct k.fate (map (λ (m : Managed). m.dev_id) (perform k r s).0.devices)
            (perform k r s).0 next)
      | inr on ↦ rw on (serve-Distinct rs (perform k r s).0 next)
    ]
