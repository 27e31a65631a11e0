-- ===== src/Ctl.antt =====
-- src/ctl.rs: the requests of the control socket and the method that answers each. The JSON text
-- around them is not modelled.
pub mod Registry
pub mod Session
use ublkera.Base.{ℕ, Bool, true, false, Option, List, [], ◌∷◌, if◌then◌else◌, Result, ok, err}
use ublkera.Manager.{DeviceSpec, DeviceManager, World, Startup, Deletion, Refusal, Added, add}
use ublkera.Manager.Requests.{Target, resolve, del, DeviceStatus, list, status, Closed}
use ublkera.Manager.Service.{checkpoint, checkpoint_all, Dumped, dump, shutdown_all}

-- `Request`
pub data Request : Type 0 where
  add_device : DeviceSpec → Request
  del_device status_of checkpoint_of : Target → Request
  list_devices checkpoint_devices shutdown : Request
  dump_of : Target → (since : ℕ) → Option (List ℕ) → Request

pub data Answer : Type 0 where
  added : Added → Answer
  removed : (backing : ℕ) → Answer
  listed : List DeviceStatus → Answer
  status_is : DeviceStatus → Answer
  closed_one : Closed → Answer
  closed_all : List Closed → Answer
  dumped : Dumped → Answer
  going_down : Answer

-- What the outside answers while a request runs.
pub record Luck : Type 0 where
  pub world : World
  pub startup : Startup
  pub fate : ℕ → Deletion
  pub gen : ℕ

abbrev pub answer {ℓ} :
    {A : Type ℓ}
    → (A → Answer)
    → DeviceManager × Result Refusal A
    → DeviceManager × Result Refusal Answer
answer f (s, ok a) = (s, ok (f a))
answer f (s, err e) = (s, err e)

-- `resolve(..).and_then(..)`
pub resolved :
    {A : Type 0}
    → World
    → Target
    → (ℕ → DeviceManager → DeviceManager × Result Refusal A)
    → DeviceManager
    → DeviceManager × Result Refusal A
resolved w t f s = let (s', r) = resolve w t s in elim r [ ok id ↦ f id s' | err e ↦ (s', err e) ]

-- The request of `handle`.
pub perform : Luck → Request → DeviceManager → DeviceManager × Result Refusal Answer
unfolding resolved
perform k (add_device spec) s = answer added (add k.world k.startup k.gen spec s)
perform k (del_device t) s = answer removed (resolved k.world t (λ id. del (k.fate id) id) s)
perform k list_devices s = let (s', l) = list s in (s', ok (listed l))
perform k (status_of t) s = answer status_is (resolved k.world t status s)
perform k (checkpoint_of t) s = answer closed_one (resolved k.world t checkpoint s)
perform k checkpoint_devices s = let (s', l) = checkpoint_all s in (s', ok (closed_all l))
perform k (dump_of t since g) s = answer dumped (resolved k.world t (λ id. dump id since g) s)
perform k shutdown s = (s, ok going_down)

pub is_shutdown : Request → Bool
is_shutdown shutdown = true
is_shutdown r = false

-- `handle`, for a line that parses: the answer, and whether the daemon is to shut down.
pub handle : Luck → Request → DeviceManager → DeviceManager × Result Refusal Answer × Bool
unfolding perform is_shutdown
handle k r s = let (s', a) = perform k r s in (s', a, is_shutdown r)

-- `serve`: one request after the other, each with what the outside answers while it runs, until a
-- shutdown, after which every device is detached. At the end of the list the daemon still runs.
pub serve : List (Luck × Request) → DeviceManager → DeviceManager
unfolding handle
serve [] s = s
serve ((k, r) ∷ rs) s =
    let (s', a, down) = handle k r s in
    let rest = serve rs s' in if down then shutdown_all k.fate s' else rest
