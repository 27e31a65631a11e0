-- ===== src/Cli.antt =====
-- src/main.rs: the commands, the requests that they send, and the target of those for one device.
-- `canonicalize` is a parameter; the options that only reach libublk are left out.
use mathlib.Core.Option.{some-injective}
use mathlib.Core.Bool.{false≢true}
use ublkera.Manager.Registry.{Distinct, running-Distinct}
use ublkera.Base.{
  ◌∙◌, sym, ap, arith, eq→==, ℕ, Bool, true, false, Option, some, none, List, [], ◌∷◌, ◌≡◌, refl,
  ◌==◌, ok, Bool-cases, inl, inr,
}
use ublkera.Scenario
use ublkera.Scenario.Size
use ublkera.Scenario.Text.{trim}
use ublkera.Manager.{Managed, DeviceManager, World, reap, running, any_backing}
use ublkera.Manager.Requests.{lookup, Target, resolve, find_backing, same_place}
use ublkera.Ctl.{
  Request, add_device, del_device, list_devices, status_of, checkpoint_of, checkpoint_devices,
  dump_of, shutdown, Luck, serve,
}
use ublkera.Meta.Save.{Disk}

-- The number and the backing that address a device.
pub record Args : Type 0 where
  pub number : Option ℕ
  pub backing : Option ℕ

-- `Cmd`, without the daemon.
pub data Cmd : Type 0 where
  add : (backing granularity : ℕ) → (meta number : Option ℕ) → Cmd
  del status : Args → Cmd
  list stop : Cmd
  checkpoint : Args → (all : Bool) → Cmd
  dump : Args → (since : ℕ) → (generation : Option (List ℕ)) → Cmd

-- `canonical_path`
unfoldable pub canonical_path : (ℕ → Option ℕ) → ℕ → ℕ
canonical_path canonical p = elim (canonical p) [ none ↦ p | some c ↦ c ]

abbrev pub map_path : (ℕ → Option ℕ) → Option ℕ → Option ℕ
map_path canonical none = none
map_path canonical (some b) = some (canonical_path canonical b)

-- `parse_size`, by which the buffer size and the granularity are read.
unfoldable pub parse_size : List ℕ → Option ℕ
unfolding Scenario.Size.parse_size trim
parse_size s = Scenario.Size.parse_size (trim s)

-- `target_req`
unfoldable pub target_req : (ℕ → Option ℕ) → Args → Target
unfolding canonical_path
target_req canonical a = record { dev_id = a.number; backing = map_path canonical a.backing }

-- The request that `main` sends.
unfoldable pub request_of : (ℕ → Option ℕ) → Cmd → Request
unfolding target_req canonical_path
request_of canonical (add backing granularity meta number) = add_device (record {
  backing = canonical_path canonical backing;
  granularity = granularity;
  meta = meta;
  dev_id = number;
})
request_of canonical (del a) = del_device (target_req canonical a)
request_of canonical (status a) = status_of (target_req canonical a)
request_of canonical list = list_devices
request_of canonical stop = shutdown
request_of canonical (checkpoint a true) = checkpoint_devices
request_of canonical (checkpoint a false) = checkpoint_of (target_req canonical a)
request_of canonical (dump a since generation) = dump_of (target_req canonical a) since generation

-- `run_daemon` once its socket is bound: a manager with no device serves the requests.
pub run_daemon : List (Luck × Request) → Disk → DeviceManager
run_daemon requests d = serve requests (record { devices = []; strays = []; disk = d })

-- Devices that were added by the canonical paths of their files, as the command line sends them.
abbrev pub AllCanonical : World → List Managed → Type 0
AllCanonical w [] = Unit
AllCanonical w (m ∷ devs) = (w.canonical m.backing ≡ some m.backing) × AllCanonical w devs

any_backing-lookup :
    (id : ℕ) (devs : List Managed) {m : Managed}
    → lookup id devs ≡ some m
    → any_backing m.backing devs ≡ true
unfolding lookup any_backing
any_backing-lookup id [] h = cc
any_backing-lookup id (n ∷ devs) {m} h = elim (Bool-cases (n.dev_id == id)) [
  | inl here ↦
      let same : some n ≡ some m = rw here at h in
      ap (λ x. any_backing x.backing (n ∷ devs)) (sym (some-injective n m same)) ∙ ground arith
  | inr there ↦ ground (arith, any_backing-lookup id devs (rw there at h))
]

-- Behind a device of another file, the search goes on.
find_backing-other :
    (w : World) (b : ℕ) (n : Managed) (devs : List Managed)
    → w.canonical b ≡ some b
    → w.canonical n.backing ≡ some n.backing
    → (n.backing == b) ≡ false
    → find_backing w b (n ∷ devs) ≡ find_backing w b devs
unfolding find_backing same_place
find_backing-other w b n devs at_b at_n other = rw (find_backing, at_b, at_n) (ground arith)

find_backing-lookup :
    (w : World) (id : ℕ) (devs : List Managed) {m : Managed}
    → Distinct devs
    → AllCanonical w devs
    → lookup id devs ≡ some m
    → w.canonical m.backing ≡ some m.backing
    → find_backing w m.backing devs ≡ some id
unfolding find_backing lookup
find_backing-lookup w id [] d a h at_m = cc
find_backing-lookup w id (n ∷ devs) {m} d a h at_m = elim (Bool-cases (n.dev_id == id)) [
  | inl here ↦
      let same : some n ≡ some m = rw here at h in
      let hit : (n.backing == m.backing) ≡ true =
        ap (λ x. n.backing == x.backing) (sym (some-injective n m same))
        ∙ eq→== n.backing n.backing refl in
      rw (find_backing, hit) (ap some (ground (arith, here)))
  | inr there ↦
      let later : lookup id devs ≡ some m = rw there at h in
      find_backing-other w m.backing n devs at_m a.0
        (apart n.backing m.backing devs d.1 (any_backing-lookup id devs later))
      ∙ find_backing-lookup w id devs d.2 a.1 later at_m
]
  where
    eq : (x y : ℕ) → (x == y) ≡ true → x ≡ y
    eq x y h = ground arith

    apart :
        (x y : ℕ) (devs : List Managed)
        → any_backing x devs ≡ false
        → any_backing y devs ≡ true
        → (x == y) ≡ false
    apart x y devs missing there = elim (Bool-cases (x == y)) [
      | inr other ↦ other
      | inl same ↦
          absurd (false≢true (sym missing ∙ (ap (λ z. any_backing z devs) (eq x y same) ∙ there)))
    ]

-- A device that was added by one path is found by any other path of the same file: where a device
-- runs under the canonical path of `p`, no id and no backing is registered twice, and the devices
-- have canonical paths, the target that the command line makes of a `q` with the same canonical path
-- resolves to that device.
pub resolve-target_req :
    (w : World) (p q c id : ℕ) (s : DeviceManager) {m : Managed}
    → w.canonical p ≡ some c
    → w.canonical q ≡ some c
    → lookup id (running s.devices) ≡ some m
    → m.backing ≡ canonical_path w.canonical p
    → Distinct s.devices
    → AllCanonical w (running s.devices)
    → w.canonical c ≡ some c
    → resolve w (target_req w.canonical (record { number = none; backing = some q })) s
      ≡ (reap s, ok id)
unfolding resolve target_req canonical_path reap
resolve-target_req w p q c id s {m} at_p at_q there added d a idem =
    let at_c : m.backing ≡ c = added ∙ rw (canonical_path, at_p) refl in
    let found : find_backing w c (running s.devices) ≡ some id =
      ap (λ x. find_backing w x (running s.devices)) (sym at_c)
      ∙ find_backing-lookup w id (running s.devices) (running-Distinct s.devices d) a there
          (ap w.canonical at_c ∙ (idem ∙ ap some (sym at_c))) in
    rw (resolve, target_req, canonical_path, at_q, found) refl
