-- ===== src/Chaos/Flight/Survival.antt =====
-- `op_crash_inflight` of src/bin/chaos.rs: the completed writes survive the kill, and the harness is
-- live again, whatever the timing was.
use ublkera.Base.{
  ℕ, zero, suc, ◌+◌, ◌*◌, ◌/◌, ◌≤◌, ◌≡◌, refl, ap, sym, ◌∙◌, Bool, false, Option, none, some, List,
  [], ◌∷◌, length, ok, ◌==◌, arith, Bool-cases, inl, inr,
}
use ublkera.Era.{EraState}
use ublkera.Meta.Save.{Disk}
use ublkera.Manager.Generation.{show_hex}
use ublkera.Ctl.{Luck}
use ublkera.Ctl.Session.{managed}
use ublkera.Chaos.{Harness, kill_daemon}
use ublkera.Chaos.Rng.{next, below}
use ublkera.Chaos.Ops.{recover_from, op_crash}
use ublkera.Chaos.Copy.{diff_refl}
use ublkera.Chaos.Live.{Config, live, Sound, Live, Suits, Sized}
use ublkera.Chaos.Sync.{read_live}
use ublkera.Chaos.Crash.{dead, recover_from-live, op_crash-Live}
use ublkera.Chaos.Flight.{
  Writer, Torn, Timing, spawn, interrupted, tear, replay, replay_all, after_flight,
  op_crash_inflight, writers,
}
use ublkera.Chaos.Flight.Replay.{Apart}
use ublkera.Chaos.Flight.Adopt.{Inside, length-tear, adopt-tear}
use ublkera.Chaos.Flight.Land.{current-within, fly-live}

spawn-Apart : (count t area rng : ℕ) → Apart area t (spawn count t area rng).0
unfolding spawn
spawn-Apart zero t area rng = tt
spawn-Apart (suc n) t area rng = (refl, tt, spawn-Apart n (t + 1) area (next rng).0)

length-spawn : (count t area rng : ℕ) → length (spawn count t area rng).0 ≡ count
unfolding spawn
length-spawn zero t area rng = refl
length-spawn (suc n) t area rng = ap suc (length-spawn n (t + 1) area (next rng).0)

-- Threads that have logged nothing leave `expected` as it is.
replay_all-spawn :
    (count t area rng : ℕ) (xs : List ℕ) → replay_all (spawn count t area rng).0 xs ≡ xs
unfolding spawn replay_all replay
replay_all-spawn zero t area rng xs = refl
replay_all-spawn (suc n) t area rng xs = replay_all-spawn n (t + 1) area (next rng).0 xs

interrupted-Inside :
    (area t size : ℕ) (masks : List (Option (List Bool))) (ws : List Writer)
    → 4096 ≤ area
    → Apart area t ws
    → (t + length ws) * area ≤ size
    → Inside size (interrupted area masks ws)
unfolding interrupted
interrupted-Inside area t size [] ws big apart fits = tt
interrupted-Inside area t size (m ∷ masks) [] big apart fits = tt
interrupted-Inside area t size (none ∷ masks) (w ∷ ws) big (at, own, rest) fits =
    let same : (t + 1 + length ws) * area ≡ (t + suc (length ws)) * area = grind arith in
    interrupted-Inside area (t + 1) size masks ws big rest (omega (arith, same, fits))
interrupted-Inside area t size (some m ∷ masks) (w ∷ ws) big (at, own, rest) fits =
    let (some_bytes, low, high) = current-within area w big in
    let top : (t + 1) * area ≤ (t + suc (length ws)) * area = grind arith in
    let step : (t + 1) * area ≡ t * area + area = grind arith in
    let same : (t + 1 + length ws) * area ≡ (t + suc (length ws)) * area = grind arith in
    (
      omega (arith, high, at, step, top, fits),
      interrupted-Inside area (t + 1) size masks ws big rest (omega (arith, same, fits)),
    )

module _ {c : Config} {n : ℕ} {gens : List ℕ} (k : Luck) (time : Timing) (area : ℕ)
    (strays : List (Option ℕ × EraState)) (d : Disk) (old shadow image : List ℕ)
    (cursor : Option (ℕ × ℕ)) where
  -- The kill, the recovery and the assertions on it.
  after_flight-live :
      (ws : List Writer) (id gen : ℕ) (st : EraState)
      → Suits c k
      → Sized c
      → 4096 ≤ area
      → Apart area 0 ws
      → length ws * area ≤ c.size
      → Sound c n gens st d image shadow cursor
      → st.generation ≡ gen
      → replay_all ws old ≡ image
      → (h' : Harness) × (after_flight k time area
            (show_hex gen)
            ws
            (live c id st strays d image old shadow cursor)
          ≡ ok h')
        × Live c n gens h'
  unfolding after_flight kill_daemon
  after_flight-live ws id gen st u z big apart fits s same logged =
      let lost : List Torn = interrupted area time.masks ws in
      let inside : Inside (length image) lost =
        interrupted-Inside area 0 (length image) time.masks ws big apart
          (omega (arith, fits, s.image_size)) in
      let torn : List ℕ = tear lost image in
      let size : length torn ≡ c.size = length-tear lost image inside ∙ s.image_size in
      let (id', t, d', run, s') =
        recover_from-live k (managed id c.backing c.meta st ∷ []) strays d image torn image shadow
          cursor u z s size in
      let run1 : recover_from k (show_hex gen) (
            dead c (show_hex st.generation) (managed id c.backing c.meta st ∷ []) strays d torn
              image shadow cursor)
          ≡ ok (live c id' t [] d' torn image shadow cursor) =
        ap
          (λ g. recover_from k (show_hex g) (
            dead c (show_hex st.generation) (managed id c.backing c.meta st ∷ []) strays d torn
              image shadow cursor))
          (sym same)
        ∙ run in
      (
        live c id' t [] d' torn torn shadow cursor,
        rw
            (
              after_flight,
              kill_daemon,
              logged,
              run1,
              adopt-tear lost (live c id' t [] d' torn image shadow cursor) image refl inside refl
                  refl,
              read_live k id' t [] d' torn shadow cursor s',
              diff_refl torn,
            )
            refl,
        record {
          id = id';
          st = t;
          strays = [];
          disk = d';
          image = torn;
          shadow = shadow;
          cursor = cursor;
          shape = refl;
          sound = s';
        },
      )

area-fits : (size : ℕ) → 4 * (size / 4 / 4096 * 4096) ≤ size
area-fits size = omega arith

area-big : (size : ℕ) → (size / 4 / 4096 * 4096 == 0) ≡ false → 4096 ≤ size / 4 / 4096 * 4096
area-big size h = ground arith

-- From a live harness of a size and granularity that the harness and the daemon take, when the
-- backing file has its size and the device comes up again, a kill while writes are in flight passes
-- every assertion of the operation,
-- whichever writes of the threads complete first, in whatever order, and whichever bytes of the
-- interrupted ones land: the recovery is flagged, the generation is the same, the completed writes
-- are on the device, and the harness is live again.
pub op_crash_inflight-Live :
    {c : Config} {n : ℕ} {gens : List ℕ} (k : Luck) (time : Timing) (rng : ℕ) {h : Harness}
    → Suits c k
    → Sized c
    → Live c n gens h
    → (h' : Harness) × (rng' : ℕ) × (op_crash_inflight k time rng h ≡ ok (h', rng'))
      × Live c n gens h'
unfolding op_crash_inflight
op_crash_inflight-Live {c} {n} {gens} k time rng {h = h} u z l =
    let area : ℕ = c.size / writers / 4096 * 4096 in
    let ws : List Writer = (spawn writers 0 area rng).0 in
    elim (Bool-cases (area == 0)) [
      | inl small ↦
          let (h', run, l') = op_crash-Live k u z l in
          let run1 = ap (λ x. op_crash k x) (sym l.shape) ∙ run in
          (
            h',
            rng,
            ap (op_crash_inflight k time rng) l.shape ∙ rw (op_crash_inflight, small, run1) refl,
            l',
          )
      | inr large ↦
          let big : 4096 ≤ area = area-big c.size large in
          let count = length-spawn writers 0 area rng in
          let fits : (0 + length ws) * area ≤ c.size = rw count (area-fits c.size) in
          let (ws', st', image', run, f) =
            fly-live c n gens area l.id l.strays l.disk l.image l.shadow l.cursor time.schedule 0 ws
              l.st l.image big (spawn-Apart writers 0 area rng) fits l.sound in
          let (h', run', l') =
            after_flight-live k time area l.strays l.disk l.image l.shadow image' l.cursor ws' l.id
              l.st.generation st' u z big f.apart (rw f.count fits) f.sound f.generation
              (f.replayed l.image l.sound.image_size
                (replay_all-spawn writers 0 area rng l.image)) in
          (
            h',
            (below 250 (spawn writers 0 area rng).1).0,
            ap (op_crash_inflight k time rng) l.shape
                ∙ rw (op_crash_inflight, large, run, run') refl,
            l',
          )
    ]
