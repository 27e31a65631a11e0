-- ===== src/Manager/Detach.antt =====
-- What `del` and `checkpoint` of src/manager.rs leave in the metadata file, and what the next attach
-- makes of it.
use ublkera.Base.{
  ℕ, ◌^◌, ◌<◌, ◌≡◌, ◌≢◌, refl, true, false, some, none, List, [], ◌∷◌, ◌==◌, ok, arith, Bool-cases,
  inl, inr,
}
use ublkera.Era.{EraState}
use ublkera.Era.Valid.{IsValid}
use ublkera.Meta.{encode}
use ublkera.Meta.Save.{act_all, act, save_ops, Disk, save}
use ublkera.Manager.{
  DeviceSpec, Managed, DeviceManager, deleted, recover, obtain, reap, final_save, remove, save_to,
}
use ublkera.Manager.Requests.{lookup, del, delete}
use ublkera.Manager.Attach.{obtain-encode}

final_save-file :
    (path : ℕ) (st : EraState) (d : Disk)
    → d.fault path ≡ none
    → d.tmp_of path ≢ path
    → (final_save (some path) st d).file path ≡ some (encode st true)
unfolding final_save save_to save act_all act save_ops
final_save-file path st d w ne = ground arith

lookup-remove : (id : ℕ) (devs : List Managed) → lookup id (remove id devs) ≡ none
unfolding lookup remove
lookup-remove id [] = refl
lookup-remove id (m ∷ devs) = elim (Bool-cases (m.dev_id == id)) [
  | inl same ↦ rw same (lookup-remove id devs)
  | inr other ↦ rw (other, other) (lookup-remove id devs)
]

-- A device with a valid tracker and a metadata file that can be written, under a name that is not
-- its temporary one, leaves the registry when `del` deletes it, and the next attach of its
-- backing, with the same file and granularity, finds its tracker unchanged and needs no recovery.
pub del-obtain :
    (id gen : ℕ) (s : DeviceManager) (spec : DeviceSpec) {path : ℕ} {m : Managed}
    → lookup id (reap s).devices ≡ some m
    → m.meta ≡ some path
    → spec.meta ≡ some path
    → spec.granularity ≡ m.state.granularity
    → s.disk.fault path ≡ none
    → s.disk.tmp_of path ≢ path
    → IsValid m.state
    → m.state.generation < 2 ^ 64
    → let (s', r) = del deleted id s in
      (r ≡ ok m.backing)
      × (lookup id s'.devices ≡ none)
      × (obtain s'.disk spec m.state.dev_size gen ≡ ok (m.state, false))
unfolding del delete reap recover
del-obtain id gen s spec {path} {m} here meta at same w ne v g =
    let file = final_save-file path m.state s.disk w ne in
    rw (del, here)
      (
        refl,
        lookup-remove id (reap s).devices,
        obtain-encode gen true (final_save m.meta m.state s.disk) spec v g at same (rw meta file),
      )
