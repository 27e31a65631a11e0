-- ===== src/Chaos/Flight.antt =====
-- src/bin/chaos.rs, `op_crash_inflight`: a kill while writer threads have writes in flight. Which
-- thread's write completes next, and which bytes of an interrupted write land, are arguments.
pub mod Replay
pub mod Adopt
pub mod Land
pub mod Survival
use ublkera.Base.{
  ℕ, zero, suc, ◌+◌, ◌*◌, ◌/◌, Bool, true, false, Option, none, some, List, [], ◌∷◌, ◌++◌, length,
  slice, overwrite, ◌==◌, if◌then◌else◌, Result, ok, err, ◌>>=◌, ◌>>◌, ensure, context,
}
use ublkera.Ctl.{Luck}
use ublkera.Chaos.{
  Harness, Failure, not_attached, kill_daemon, write_at, read_at, read_device, diff,
}
use ublkera.Chaos.Rng.{Write, draw, next, below}
use ublkera.Chaos.Ops.{op_crash, recover_from}

-- A writer thread: where its slice starts, its generator, and the writes that it saw complete.
pub record Writer : Type 0 where
  pub base : ℕ
  pub rng : ℕ
  pub done : List Write

-- The threads from number `t` on, each with a seed of its own.
unfoldable pub spawn : (count t area rng : ℕ) → List Writer × ℕ
spawn zero t area rng = ([], rng)
spawn (suc n) t area rng =
    let (rng', seed) = next rng in
    let (ws, rest) = spawn n (t + 1) area rng' in
    (record { base = t * area; rng = seed; done = [] } ∷ ws, rest)

-- The write that a thread is at.
abbrev pub current : ℕ → Writer → Write
current area w = (draw w.base area w.rng).1

-- Thread `i` completes its write, and logs it.
unfoldable pub land : (area i : ℕ) → List Writer → Harness → Result Failure (List Writer × Harness)
unfolding write_at draw
land area i [] h = ok ([], h)
land area zero (w ∷ ws) h = do
  h' ← write_at (current area w) h
  ok (record w { rng = (draw w.base area w.rng).0; done = w.done ++ current area w ∷ [] } ∷ ws, h')
land area (suc i) (w ∷ ws) h = do r ← land area i ws h; ok (w ∷ r.0, r.1)

-- The writes that complete before the kill, by their threads' numbers.
unfoldable pub fly :
    (area : ℕ) → List ℕ → List Writer → Harness → Result Failure (List Writer × Harness)
unfolding land
fly area [] ws h = ok (ws, h)
fly area (i ∷ schedule) ws h = do r ← land area i ws h; fly area schedule r.0 r.1

-- A write that the kill interrupted, with a mark for each byte that lands all the same.
pub record Torn : Type 0 where
  pub write : Write
  pub mask : List Bool

-- The interrupted writes; a thread with `none` had none in flight.
unfoldable pub interrupted : (area : ℕ) → List (Option (List Bool)) → List Writer → List Torn
unfolding draw
interrupted area [] ws = []
interrupted area (m ∷ masks) [] = []
interrupted area (none ∷ masks) (w ∷ ws) = interrupted area masks ws
interrupted area (some m ∷ masks) (w ∷ ws) =
    record { write = current area w; mask = m } ∷ interrupted area masks ws

-- The marked bytes of the new ones, the others of the old ones.
pub blend : List Bool → (new old : List ℕ) → List ℕ
blend [] new old = old
blend (m ∷ mask) [] old = old
blend (m ∷ mask) (b ∷ new) [] = []
blend (m ∷ mask) (b ∷ new) (a ∷ old) = (if m then b else a) ∷ blend mask new old

-- What the interrupted writes leave in the backing file.
unfoldable pub tear : List Torn → List ℕ → List ℕ
unfolding blend
tear [] image = image
tear (t ∷ ts) image =
    let w = t.write in
    let old = slice w.off (w.off + length w.bytes) image in
    tear ts (overwrite w.off (blend t.mask w.bytes old) image)

unfoldable pub replay : List Write → List ℕ → List ℕ
replay [] bytes = bytes
replay (w ∷ ws) bytes = replay ws (overwrite w.off w.bytes bytes)

-- The completed writes in `expected`, one thread's log after the other.
unfoldable pub replay_all : List Writer → List ℕ → List ℕ
unfolding replay
replay_all [] bytes = bytes
replay_all (w ∷ ws) bytes = replay_all ws (replay w.done bytes)

-- The loop that adopts what the device has in the ranges of the interrupted writes.
unfoldable pub adopt : List Torn → Harness → Result Failure Harness
unfolding read_at
adopt [] h = ok h
adopt (t ∷ ts) h = do
  bytes ← read_at t.write.off (length t.write.bytes) h
  adopt ts (record h { expected = overwrite t.write.off bytes h.expected })

abbrev pub writers : ℕ
writers = 4

-- What the timing decides: the writes that complete, in their order, and what the kill tears.
pub record Timing : Type 0 where
  pub schedule : List ℕ
  pub masks : List (Option (List Bool))

-- The part from the kill on.
unfoldable pub after_flight :
    Luck → Timing → (area : ℕ) → (old_gen : List ℕ) → List Writer → Harness → Result Failure Harness
unfolding kill_daemon recover_from adopt read_device diff interrupted tear replay_all
after_flight k time area old_gen ws h = do
  h1 ← kill_daemon h
  let lost = interrupted area time.masks ws
  h2 ←
      recover_from k old_gen
        (record h1 { expected = replay_all ws h1.expected; image = tear lost h1.image })
  h3 ← adopt lost h2
  actual ← read_device h3
  diff actual h3.expected
  ok h3

-- The slice of the device that each thread has to itself.
abbrev pub area_of : Harness → ℕ
area_of h = h.size / writers / 4096 * 4096

-- `op_crash_inflight`
unfoldable pub op_crash_inflight : Luck → Timing → ℕ → Harness → Result Failure (Harness × ℕ)
unfolding op_crash spawn below fly after_flight
op_crash_inflight k time rng h = elim (area_of h == 0) [
  | true ↦ do h' ← op_crash k h; ok (h', rng)
  | false ↦ do
    id ← context h.dev_id not_attached
    r ← fly (area_of h) time.schedule (spawn writers 0 (area_of h) rng).0 h
    h' ← after_flight k time (area_of h) h.generation r.0 r.1
    ok (h', (below 250 (spawn writers 0 (area_of h) rng).1).0)
]
