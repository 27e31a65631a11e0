-- ===== src/Chaos/Ops.antt =====
-- src/bin/chaos.rs: the operations that the harness picks from, each with the assertions that it
-- ends with.
use ublkera.Base.{
  ℕ, zero, suc, ◌+◌, not, none, some, List, list_eq, overwrite, u32, Result, ok, err, ◌>>=◌, ◌>>◌,
  ensure, context,
}
use ublkera.Ctl.{Answer, checkpoint_of, dump_of, Luck}
use ublkera.Ctl.Session.{by_id}
use ublkera.Meta.Save.{store}
use ublkera.Chaos.{
  Harness, Failure, not_attached, bad_answer, io_error, flagged_unclean, not_flagged,
  generation_changed, generation_kept, cursor_accepted, ctl, request, closed_of, dumped_of,
  start_daemon, kill_daemon, attach, detach, write_at, read_device, copy_ranges, verify,
}
use ublkera.Chaos.Rng.{Write, draw, below}

-- A write of a burst, which the harness keeps in `expected`.
unfoldable pub write_one : Write → Harness → Result Failure Harness
unfolding write_at
write_one w h = do
  h' ← write_at w h
  ok (record h' { expected = overwrite w.off w.bytes h'.expected })

-- The loop of `op_write_burst`.
unfoldable pub burst : (count rng : ℕ) → Harness → Result Failure (Harness × ℕ)
unfolding write_one draw
burst zero rng h = ok (h, rng)
burst (suc n) rng h = do h' ← write_one (draw 0 h.size rng).1 h; burst n (draw 0 h.size rng).0 h'

-- `op_write_burst`
unfoldable pub op_write_burst : ℕ → Harness → Result Failure (Harness × ℕ)
unfolding burst below
op_write_burst rng h = let (rng', more) = below 24 rng in burst (1 + more) rng' h

-- `op_checkpoint`, with the closed era.
unfoldable pub op_checkpoint : Luck → Harness → Result Failure (Harness × ℕ)
unfolding request
op_checkpoint k h = do
  id ← context h.dev_id not_attached
  r ← request k (checkpoint_of (by_id id)) h
  c ← context (closed_of r.1) bad_answer
  ok (r.0, c.closed_era)

-- A backup of the whole device.
unfoldable pub full_copy : Harness → Result Failure Harness
unfolding read_device
full_copy h = do bytes ← read_device h; ok (record h { shadow = bytes })

-- What the backup does with the answer to its dump.
unfoldable pub copy_dumped : Harness × Result Failure Answer → Result Failure Harness
unfolding copy_ranges full_copy
copy_dumped (h, err e) = full_copy h
copy_dumped (h, ok v) = do d ← context (dumped_of v) bad_answer; copy_ranges d.ranges h

-- The consumer's backup: what changed since its cursor, or everything if it has none or the dump
-- refuses it.
unfoldable pub backup : Luck → (id : ℕ) → Harness → Result Failure Harness
unfolding ctl copy_dumped full_copy
backup k id h = elim h.cursor [
  | none ↦ full_copy h
  | some (gen, era) ↦ copy_dumped (ctl k (dump_of (by_id id) era (some gen)) h)
]

-- `op_backup_verify`
unfoldable pub op_backup_verify : Luck → Harness → Result Failure Harness
unfolding op_checkpoint backup verify
op_backup_verify k h = do
  id ← context h.dev_id not_attached
  c ← op_checkpoint k h
  b ← backup k id c.0
  let h' = record b { cursor = some (b.generation, u32 c.1) }
  verify h'
  ok h'

-- `op_reattach`
unfoldable pub op_reattach : Luck → Harness → Result Failure Harness
unfolding attach detach
op_reattach k h = do
  h1 ← detach k h
  r ← attach k h1
  ensure (not r.1.recovered_unclean) flagged_unclean
  ensure (list_eq r.0.generation h.generation) generation_changed
  ok r.0

-- The restart after a kill, with the two assertions on the recovery.
unfoldable pub recover_from : Luck → (old_gen : List ℕ) → Harness → Result Failure Harness
unfolding attach start_daemon
recover_from k old_gen h = do
  r ← attach k (start_daemon h)
  ensure r.1.recovered_unclean not_flagged
  ensure (list_eq r.0.generation old_gen) generation_changed
  ok r.0

-- `op_crash`
unfoldable pub op_crash : Luck → Harness → Result Failure Harness
unfolding kill_daemon recover_from
op_crash k h = do h1 ← kill_daemon h; recover_from k h.generation h1

-- `remove_file` of the metadata.
unfoldable pub remove_meta : Harness → Result Failure Harness
remove_meta h = do
  raw ← context (h.daemon.disk.file h.meta) io_error
  ok (record h { daemon = record h.daemon { disk = store h.daemon.disk h.meta none } })

abbrev pub expect_refusal : Harness × Result Failure Answer → Result Failure Harness
expect_refusal (h, ok v) = err cursor_accepted
expect_refusal (h, err e) = ok h

-- The old cursor after a loss of the metadata: its dump is to fail.
unfoldable pub reject_cursor : Luck → Harness → Result Failure Harness
unfolding ctl
reject_cursor k h = elim h.cursor [
  | none ↦ ok h
  | some (gen, era) ↦ do
    id ← context h.dev_id not_attached
    expect_refusal (ctl k (dump_of (by_id id) era (some gen)) h)
]

-- `op_lose_meta`
unfoldable pub op_lose_meta : Luck → Harness → Result Failure Harness
unfolding attach detach remove_meta reject_cursor
op_lose_meta k h = do
  h1 ← detach k h
  h2 ← remove_meta h1
  r ← attach k h2
  ensure (not r.1.recovered_unclean) flagged_unclean
  ensure (not (list_eq r.0.generation h.generation)) generation_kept
  reject_cursor k r.0
