-- ===== src/Meta/Save.antt =====
-- `save` of src/era.rs on a disk, and a crash in the middle of it.
use ublkera.Base.{
  err-injective, Option-cases, zero, suc, ◌++◌, [], ◌∷◌, ◌∙◌, true, false, ℕ, ◌≡◌, ◌≢◌, ◌⊎◌, inl,
  inr, refl, Bool, List, Option, some, none, take, ◌==◌, if◌then◌else◌, Result, ok, err, arith,
}
use ublkera.Era.{EraState}
use ublkera.Meta.{encode}

-- An error of a save: the number of its operations that go well before the one that fails, and the
-- bytes that reach the file if that is the write.
pub record Fault : Type 0 where
  pub after : ℕ
  pub bytes : ℕ

-- Files by the number of their path; `tmp_of` is `with_extension("tmp")`, and `fault` says under
-- which paths a save meets an error.
pub record Disk : Type 0 where
  pub file : ℕ → Option (List ℕ)
  pub fault : ℕ → Option Fault
  pub tmp_of : ℕ → ℕ

abbrev pub store : Disk → ℕ → Option (List ℕ) → Disk
store d p c = record d { file = λ q. if p == q then c else d.file q }

-- Renaming a file to itself does nothing.
abbrev pub rename : Disk → (from to : ℕ) → Disk
rename d from to = if from == to then d else store (store d to (d.file from)) from none

-- The operations on files that a save is made of.
pub data FileOp : Type 0 where
  create : (path : ℕ) → FileOp
  write_all : (path : ℕ) → List ℕ → FileOp
  sync_all : (path : ℕ) → FileOp
  move : (from to : ℕ) → FileOp

abbrev pub content : Option (List ℕ) → List ℕ
content none = []
content (some bytes) = bytes

-- What an operation does to the files as a reader sees them.
unfoldable pub act : FileOp → Disk → Disk
act (create p) d = store d p (some [])
act (write_all p bytes) d = store d p (some (content (d.file p) ++ bytes))
act (sync_all p) d = d
act (move from to) d = rename d from to

-- The files whose content is not known to be on the medium: those written since their last sync. A
-- file that is renamed takes this along.
abbrev pub set_loose : (ℕ → Bool) → ℕ → Bool → ℕ → Bool
set_loose loose p b q = if p == q then b else loose q

unfoldable pub act_loose : FileOp → (ℕ → Bool) → ℕ → Bool
act_loose (create p) loose = set_loose loose p true
act_loose (write_all p bytes) loose = set_loose loose p true
act_loose (sync_all p) loose = set_loose loose p false
act_loose (move from to) loose = set_loose (set_loose loose to (loose from)) from false

unfoldable pub act_all : List FileOp → Disk → Disk
unfolding act
act_all [] d = d
act_all (op ∷ ops) d = act_all ops (act op d)

unfoldable pub all_loose : List FileOp → (ℕ → Bool) → ℕ → Bool
unfolding act_loose
all_loose [] loose = loose
all_loose (op ∷ ops) loose = all_loose ops (act_loose op loose)

-- The operations of `save`, in their order.
unfoldable pub save_ops : Disk → ℕ → EraState → Bool → List FileOp
save_ops d path s clean =
    let tmp = d.tmp_of path in
    create tmp ∷ write_all tmp (encode s clean) ∷ sync_all tmp ∷ move tmp path ∷ []

-- The operations up to the one that fails, and what that one does.
unfoldable pub failed_ops : ℕ → (bytes : ℕ) → List FileOp → List FileOp
failed_ops n k [] = []
failed_ops zero k (write_all p bytes ∷ ops) = write_all p (take k bytes) ∷ []
failed_ops zero k (create p ∷ ops) = []
failed_ops zero k (sync_all p ∷ ops) = []
failed_ops zero k (move from to ∷ ops) = []
failed_ops (suc n) k (op ∷ ops) = op ∷ failed_ops n k ops

-- `save`: the disk that it leaves, with or without an error.
unfoldable pub save : Disk → ℕ → EraState → Bool → Result Disk Disk
unfolding act_all save_ops failed_ops
save d path s clean = elim (d.fault path) [
  | none ↦ ok (act_all (save_ops d path s clean) d)
  | some x ↦ err (act_all (failed_ops x.after x.bytes (save_ops d path s clean)) d)
]

-- What a power loss may leave of the files: those that are not loose as they are, and anything of the
-- others, any part of what was written included.
pub record Lost (d : Disk) (loose : ℕ → Bool) (e : Disk) : Type 0 where
  pub safe : (q : ℕ) → loose q ≡ false → e.file q ≡ d.file q

-- The disks that a save may leave that does not reach its end: the power is lost, or the process is
-- killed, or an operation fails, after any number of its operations or in the middle of the next. The
-- rename takes effect at once or not at all; one that was not on the medium yet is a stop before it.
pub data Crashed (d : Disk) (loose : ℕ → Bool) (path : ℕ) (s : EraState) (clean : Bool)
    : Disk → Type 0 where
  stopped :
      (n : ℕ) {e : Disk}
      → Lost
          (act_all (take n (save_ops d path s clean)) d)
          (all_loose (take n (save_ops d path s clean)) loose)
          e
      → Crashed d loose path s clean e

-- The loose files after each of the operations.
module _ (d : Disk) (loose : ℕ → Bool) (path : ℕ) (s : EraState) (clean : Bool) where
  -- A file that the save has nothing to do with.
  save_ops-other :
      (n q : ℕ)
      → q ≢ path
      → q ≢ d.tmp_of path
      → ((act_all (take n (save_ops d path s clean)) d).file q ≡ d.file q)
        × (all_loose (take n (save_ops d path s clean)) loose q ≡ loose q)
  unfolding act_all act act_loose all_loose save_ops
  save_ops-other zero q a b = (refl, refl)
  save_ops-other (suc zero) q a b = (ground arith, ground arith)
  save_ops-other (suc (suc zero)) q a b = (ground arith, ground arith)
  save_ops-other (suc (suc (suc zero))) q a b = (ground arith, ground arith)
  save_ops-other (suc (suc (suc (suc zero)))) q a b = (ground arith, ground arith)
  save_ops-other (suc (suc (suc (suc (suc n))))) q a b = (ground arith, ground arith)

  -- The metadata file is never loose; before the rename it is the old one, after it the new one.
  save_ops-path :
      (n : ℕ)
      → d.tmp_of path ≢ path
      → loose path ≡ false
      → (all_loose (take n (save_ops d path s clean)) loose path ≡ false)
        × (((act_all (take n (save_ops d path s clean)) d).file path ≡ d.file path)
            ⊎ ((act_all (take n (save_ops d path s clean)) d).file path ≡ some (encode s clean)))
  unfolding act_all act act_loose all_loose save_ops
  save_ops-path zero ne h = (h, inl refl)
  save_ops-path (suc zero) ne h = (ground arith, inl (ground arith))
  save_ops-path (suc (suc zero)) ne h = (ground arith, inl (ground arith))
  save_ops-path (suc (suc (suc zero))) ne h = (ground arith, inl (ground arith))
  save_ops-path (suc (suc (suc (suc zero)))) ne h = (ground arith, inr (ground arith))
  save_ops-path (suc (suc (suc (suc (suc n))))) ne h = (ground arith, inr (ground arith))

  -- What an error leaves is a disk of a save that stops there.
  failed-Lost :
      (n k : ℕ)
      → Lost
          (act_all (take n (save_ops d path s clean)) d)
          (all_loose (take n (save_ops d path s clean)) loose)
          (act_all (failed_ops n k (save_ops d path s clean)) d)
  unfolding act_all act act_loose all_loose save_ops failed_ops
  failed-Lost zero k = record { safe = λ q firm. refl }
  failed-Lost (suc zero) k = record { safe = λ q firm. ground arith }
  failed-Lost (suc (suc zero)) k = record { safe = λ q firm. refl }
  failed-Lost (suc (suc (suc zero))) k = record { safe = λ q firm. refl }
  failed-Lost (suc (suc (suc (suc zero)))) k = record { safe = λ q firm. refl }
  failed-Lost (suc (suc (suc (suc (suc n))))) k = record { safe = λ q firm. refl }

  -- A save that fails leaves one of the disks that `Crashed` has.
  pub save-Crashed : {e : Disk} → save d path s clean ≡ err e → Crashed d loose path s clean e
  unfolding save
  save-Crashed {e} h = elim (Option-cases (d.fault path)) [
    | inl sound ↦ let bad = rw (save, sound) at h in cc
    | inr (x, met) ↦
        let same : act_all (failed_ops x.after x.bytes (save_ops d path s clean)) d ≡ e =
          err-injective (rw (save, met) at h) in
        stopped x.after (rw same at (failed-Lost x.after x.bytes))
  ]

-- A power loss, a kill or an error at any point of a save leaves the metadata file either as it was
-- or complete, and every other file that was on the medium but the temporary one as it was, as long
-- as the temporary file has another name and the old metadata file was on the medium.
pub Crashed-atomic :
    {d : Disk} {loose : ℕ → Bool} {path : ℕ} {s : EraState} {clean : Bool} {e : Disk}
    → d.tmp_of path ≢ path
    → loose path ≡ false
    → Crashed d loose path s clean e
    → ((e.file path ≡ d.file path) ⊎ (e.file path ≡ some (encode s clean)))
      × ((q : ℕ) → q ≢ path → q ≢ d.tmp_of path → loose q ≡ false → e.file q ≡ d.file q)
Crashed-atomic {d} {loose} {path} {s} {clean} {e} ne synced (stopped n lost) =
    let (firm, either) = save_ops-path d loose path s clean n ne synced in
    let same = lost.safe path firm in
    (
      elim either [ inl old ↦ inl (same ∙ old) | inr new ↦ inr (same ∙ new) ],
      λ q a b kept.
          let (file, still) = save_ops-other d loose path s clean n q a b in
          lost.safe q (still ∙ kept) ∙ file,
    )

-- A save that succeeds leaves the complete file, and no temporary one.
pub save_lem :
    (d : Disk) (path : ℕ) (s : EraState) (clean : Bool) {e : Disk}
    → d.tmp_of path ≢ path
    → save d path s clean ≡ ok e
    → (e.file path ≡ some (encode s clean))
      × (e.file (d.tmp_of path) ≡ none)
      × ((q : ℕ) → q ≢ path → q ≢ d.tmp_of path → e.file q ≡ d.file q)
unfolding save act_all act save_ops
save_lem d path s clean ne h = (ground arith, ground arith, λ q a b. ground arith)
