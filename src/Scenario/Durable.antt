-- ===== src/Scenario/Durable.antt =====
-- Durability as scenarios of ublkfault/src/scenario.rs check it: what a write with fsync put on the
-- disk is there after a power loss.
use ublkera.Base.{
  ℕ, ◌+◌, ◌%◌, ◌≤◌, ◌≡◌, refl, ap, ◌∙◌, true, false, List, [], ◌∷◌, length, overwrite, ok, eq→==,
}
use ublkera.Scenario.{
  write, expect, crash, Rig, judge_write, exec, run_steps, succeed, fsync_failed, ctl_failed,
}
use ublkera.Scenario.Disk.{Keeps, Survives, Multiple}
use ublkera.Scenario.Expect.{write_all_at-puts, expect-finds}
use ublkera.Scenario.Pattern.{fill_pattern}

module _ {S : Type 0} (rig : Rig S) (unit : ℕ) (Mode : List ℕ → Type 0) (Good Settled : S → Type 0)
    (view : S → List ℕ) (k : Keeps rig unit Good view) (v : Survives rig Mode Good Settled view)
    (grain : Multiple unit 4096) where
  -- A write step with fsync leaves a settled state.
  write-settles :
      (off len : ℕ) (pattern : List ℕ) (s : S)
      → Good s
      → off % 4096 ≡ 0
      → Multiple unit len
      → off + len ≤ length (view s)
      → (s' : S) × (exec rig (write off len pattern true false) s ≡ ok s')
        × (view s' ≡ overwrite off (fill_pattern pattern off len) (view s))
        × Good s'
        × Settled s'
  unfolding exec judge_write
  write-settles off len pattern s good whole units fits =
      let (s1, put, now, good1) =
        write_all_at-puts rig unit Good view k grain off len pattern s good whole units fits in
      let (s2, synced, kept, good2, settled) = v.settles s1 good1 in
      (
        s2,
        rw (exec, eq→== (off % 4096) 0 whole)
            (ap (judge_write rig true false) put ∙ ap (succeed fsync_failed) synced),
        kept ∙ now,
        good2,
        settled,
      )

  crash-keeps :
      (mode : List ℕ) (s : S)
      → Mode mode
      → Good s
      → Settled s
      → (s' : S) × (exec rig (crash mode) s ≡ ok s') × (view s' ≡ view s) × Good s'
  unfolding exec
  crash-keeps mode s known good settled =
      let (s', lost, kept, good') = v.survives mode s known good settled in
      (s', ap (succeed ctl_failed) lost, kept, good')

-- On a disk that keeps what is written and on which a sync makes it durable, a write step with
-- fsync, a power loss in a mode that the disk knows and an expect step on any part of the written
-- range that starts at a whole block of 4096 bytes all succeed, one after the other, and the disk
-- holds what was written; both lengths are whole units.
pub run_steps-durable :
    {S : Type 0} (rig : Rig S) (unit : ℕ) (Mode : List ℕ → Type 0) (Good Settled : S → Type 0)
    (view : S → List ℕ)
    → Keeps rig unit Good view
    → Survives rig Mode Good Settled view
    → Multiple unit 4096
    → (off total skip len : ℕ) (pattern mode : List ℕ) (s : S) → Good s
    → Mode mode
    → off % 4096 ≡ 0
    → skip % 4096 ≡ 0
    → Multiple unit total
    → Multiple unit len
    → skip + len ≤ total
    → off + total ≤ length (view s)
    → (s' : S) × (run_steps rig
          (write off total pattern true false ∷ crash mode ∷ expect (off + skip) len pattern ∷ [])
          s
        ≡ ok s')
      × (view s' ≡ overwrite off (fill_pattern pattern off total) (view s))
unfolding run_steps
run_steps-durable rig unit Mode Good Settled view k v grain off total skip len pattern mode s good
      known whole whole' units units' part fits =
    let (s1, wrote, now, good1, settled) =
      write-settles rig unit Mode Good Settled view k v grain off total pattern s good whole units
        fits in
    let (s2, lost, same, good2) =
      crash-keeps rig unit Mode Good Settled view k v grain mode s1 known good1 settled in
    let (s3, read, kept, good3) =
      expect-finds rig unit Good view k grain off total skip len pattern (view s) s2 good2 whole
        whole' units' part fits (same ∙ now) in
    (s3, rw (run_steps, wrote, lost, read) refl, kept ∙ (same ∙ now))
