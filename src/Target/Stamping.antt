-- ===== src/Target/Stamping.antt =====
-- The order that src/target.rs keeps: an operation that changes data is stamped before its reply.
use ublkera.Base.{
  ℕ, zero, suc, ◌+◌, ◌*◌, ◌^◌, ◌<◌, ◌≤◌, ◌≡◌, ◌⊎◌, inl, inr, refl, Bool, true, false, some, List,
  [], ◌∷◌, ◌++◌, u32, arith, Bool-cases, ◌∙◌, ap, Option-cases, replicate,
}
use ublkera.Era.{EraState, mark_write}
use ublkera.Era.Valid.{IsValid}
use ublkera.Era.Mark.{era_at, total, mark_write-stamps}
use ublkera.Target.{
  write_at, punch_hole, Op, read_op, write_op, flush_op, discard_op, other_op, Iod, IoResult, errno,
  eagain, make_sqe, Sqe, offset_of, bytes_of, Event, submitted, replied, Queue, submit, complete,
  start, is_again, stamped, finish, in_flight, handle_io_cmd, turns,
}

abbrev pub Changes : Op → Type 0
Changes op = (op ≡ write_op) ⊎ (op ≡ discard_op)

stamped-mark_write :
    (races : List ℕ) (op : Op) (off len : ℕ) (q : Queue) {t : EraState}
    → Changes op
    → mark_write races off len q.era ≡ some t
    → stamped races op off len q ≡ some (record q { era = t })
unfolding stamped
stamped-mark_write races op off len q (inl e) marked = rw (e, marked) refl
stamped-mark_write races op off len q (inr e) marked = rw (e, marked) refl

start-submits :
    (iod : Iod) → Changes iod.op → (sqe : Sqe) × ((q : Queue) → start iod q ≡ submit sqe q)
unfolding start make_sqe
start-submits iod (inl e) = (write_at (offset_of iod) (u32 (bytes_of iod)), λ q. rw (start, e) refl)
start-submits iod (inr e) = (punch_hole (offset_of iod) (bytes_of iod), λ q. rw (start, e) refl)

-- A backing IO that is started again and again, one submission for each.
abbrev pub resubmitted : ℕ → Sqe → List Event → List Event
resubmitted zero sqe events = events
resubmitted (suc n) sqe events = resubmitted n sqe (submitted sqe ∷ events)

turns-retries :
    (races : List ℕ) (retries : ℕ) (iod : Iod) (res : IoResult) (s : EraState) (events : List Event)
    {sqe : Sqe} {t : EraState}
    → ((q : Queue) → start iod q ≡ submit sqe q)
    → is_again res ≡ false
    → ((q : Queue)
        → q.era ≡ s
        → stamped races iod.op (offset_of iod) (bytes_of iod) q ≡ some (record q { era = t }))
    → turns races iod
        (replicate retries (errno eagain) ++ res ∷ [])
        (record { era = s; events = submitted sqe ∷ events })
      ≡ some (record {
        era = t;
        events = replied res t ∷ resubmitted retries sqe (submitted sqe ∷ events);
      })
unfolding turns handle_io_cmd is_again in_flight finish
turns-retries races zero iod res s events {sqe} begun last marked =
    rw
      (
        turns,
        handle_io_cmd,
        last,
        finish,
        marked (record { era = s; events = submitted sqe ∷ events }) refl,
      )
      refl
turns-retries races (suc n) iod res s events {sqe} begun last marked =
    rw (turns, handle_io_cmd, begun (record { era = s; events = submitted sqe ∷ events }))
      (turns-retries races n iod res s (submitted sqe ∷ events) begun last marked)

-- On a valid tracker, a write or discard of at least one sector inside the device, whose backing
-- IO is asked to try again any number of times and then ends, well or with an error, is answered
-- once, with that result; when the driver learns of the answer, the tracker is the stamped one, in
-- which every byte of the operation carries the current era, as long as the era counter does not run
-- out. Before the answer, the backing IO is submitted once and once more for each retry.
pub turns-stamps :
    (races : List ℕ) (retries : ℕ) (iod : Iod) (res : IoResult) (s : EraState) (events : List Event)
    → Changes iod.op
    → is_again res ≡ false
    → IsValid s
    → 0 < iod.nr_sectors
    → iod.start_sector * 512 + iod.nr_sectors * 512 ≤ s.dev_size
    → s.current_era + total races < 2 ^ 32
    → (t : EraState) × (sqe : Sqe) × (turns races iod
          (replicate retries (errno eagain) ++ res ∷ [])
          (start iod (record { era = s; events = events }))
        ≡ some (record { era = t; events = replied res t ∷ resubmitted (suc retries) sqe events }))
      × IsValid t
      × ((b : ℕ)
          → iod.start_sector * 512 ≤ b
          → b < iod.start_sector * 512 + iod.nr_sectors * 512
          → era_at t b ≡ t.current_era)
unfolding turns handle_io_cmd
turns-stamps races retries iod res s events op last v some_bytes fits room =
    let off : ℕ = offset_of iod in
    let len : ℕ = bytes_of iod in
    let exact : (off ≡ iod.start_sector * 512) × (len ≡ iod.nr_sectors * 512) =
      (omega (arith, v.small), omega (arith, v.small)) in
    let (sqe, begun) = start-submits iod op in
    let (t, run, valid, up, gran, size, inside, outside) =
      mark_write-stamps races off len v (omega (arith, exact.1)) (omega (arith, exact.0, exact.1))
        room in
    (
      t,
      sqe,
      rw (begun (record { era = s; events = events })) (
          turns-retries races retries iod res s events begun last (λ q at.
            stamped-mark_write races iod.op off len q op (ap (mark_write races off len) at ∙ run))),
      valid,
      λ b p q. inside b (omega (arith, exact.0)) (omega (arith, exact.0, exact.1)),
    )

stamped-nothing :
    (races : List ℕ) (op : Op) (off len : ℕ) (q : Queue)
    → (op ≡ read_op) ⊎ ((op ≡ flush_op) ⊎ (op ≡ other_op))
    → stamped races op off len q ≡ some q
unfolding stamped
stamped-nothing races op off len q (inl e) = rw e refl
stamped-nothing races op off len q (inr (inl e)) = rw e refl
stamped-nothing races op off len q (inr (inr e)) = rw e refl

start-era : (iod : Iod) (q : Queue) → (start iod q).era ≡ q.era
unfolding start
start-era iod q = elim (Option-cases (make_sqe iod.op (offset_of iod) (bytes_of iod))) [
  | inl none_such ↦ rw (start, none_such) refl
  | inr (sqe, made) ↦ rw (start, made) refl
]

-- Reads, flushes and refused operations leave the tracker as it is, at every turn.
pub handle_io_cmd-keeps :
    (races : List ℕ) (iod : Iod) (phase : Bool) (res : IoResult) (q : Queue)
    → (iod.op ≡ read_op) ⊎ ((iod.op ≡ flush_op) ⊎ (iod.op ≡ other_op))
    → (q' : Queue) × (handle_io_cmd races iod phase res q ≡ some q') × (q'.era ≡ q.era)
unfolding handle_io_cmd finish
handle_io_cmd-keeps races iod false res q op = (start iod q, refl, start-era iod q)
handle_io_cmd-keeps races iod true res q op = elim (Bool-cases (is_again res)) [
  | inl again ↦ (start iod q, rw (handle_io_cmd, again) refl, start-era iod q)
  | inr over ↦ (
    complete res q,
    rw
        (
          handle_io_cmd,
          over,
          finish,
          stamped-nothing races iod.op (offset_of iod) (bytes_of iod) q op,
        )
        refl,
    refl,
  )
]
