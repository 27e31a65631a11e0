-- ===== src/Chaos/Passes.antt =====
-- `run` of src/bin/chaos.rs against the modelled daemon: every operation of an episode keeps the
-- harness live, so that no assertion fails from the start to the wind-down.
use ublkera.Base.{
  ℕ, suc, ◌+◌, ◌^◌, ◌<◌, ◌≡◌, refl, ap, sym, ◌∙◌, true, false, none, List, [], ◌∷◌, length,
  replicate, ok, arith, length-replicate,
}
use ublkera.Meta.Save.{Disk}
use ublkera.Manager.{recover}
use ublkera.Manager.Generation.{show_hex}
use ublkera.Ctl.{Luck}
use ublkera.Ctl.Session.{Saved-Takes, Takes, perform-shutdown}
use ublkera.Chaos.{Harness, start_daemon, request, ctl}
use ublkera.Chaos.Rng.{below}
use ublkera.Chaos.Run.{
  Op, write_burst, backup_verify, checkpoint, reattach, crash, crash_inflight, lose_meta, Turn,
  step, choose, rounds, wind_down, run, blank,
}
use ublkera.Chaos.Ops.{op_backup_verify}
use ublkera.Chaos.Copy.{list_eq_refl}
use ublkera.Chaos.Live.{Config, live, idle, Live, Live-weaken, Suits, Sized, Unseen}
use ublkera.Chaos.Backup.{op_checkpoint-Live, op_backup_verify-Live}
use ublkera.Chaos.Writes.{op_write_burst-Live}
use ublkera.Chaos.Restart.{attach-idle, detach-live, obtain-tracked, op_reattach-Live}
use ublkera.Chaos.Crash.{op_crash-Live}
use ublkera.Chaos.Loss.{obtain-lost, op_lose_meta-Live}
use ublkera.Chaos.Flight.Survival.{op_crash_inflight-Live}

-- From a live harness with room for a checkpoint, of a size and granularity that the harness and
-- the daemon take, when the backing file has its size, the daemon gets its device up and down and the
-- generation that is drawn is new, each operation of the harness succeeds, every assertion in it
-- included, and leaves the harness live.
pub step-Live :
    {c : Config} {n : ℕ} {gens : List ℕ} (op : Op) (t : Turn) (rng : ℕ) {h : Harness}
    → Suits c t.luck
    → Sized c
    → Unseen t.luck.gen gens
    → Live c (suc n) gens h
    → (h' : Harness) × (rng' : ℕ) × (step op t rng h ≡ ok (h', rng'))
      × Live c n (t.luck.gen ∷ gens) h'
unfolding step
step-Live write_burst t rng u z fresh l =
    let (h', rng', run, l') = op_write_burst-Live rng z l in
    (h', rng', run, Live-weaken (omega arith) (λ x new. new.1) l')
step-Live backup_verify t rng u z fresh l =
    let (h', run, l', copied, kept) = op_backup_verify-Live t.luck l in
    (h', rng, rw run refl, Live-weaken (omega arith) (λ x new. new.1) l')
step-Live checkpoint t rng u z fresh l =
    let (h', closed, run, l') = op_checkpoint-Live t.luck l in
    (h', rng, rw run refl, Live-weaken (omega arith) (λ x new. new.1) l')
step-Live reattach t rng u z fresh l =
    let (h', run, l') = op_reattach-Live t.luck u z l in
    (h', rng, rw run refl, Live-weaken (omega arith) (λ x new. new.1) l')
step-Live crash t rng u z fresh l =
    let (h', run, l') = op_crash-Live t.luck u z l in
    (h', rng, rw run refl, Live-weaken (omega arith) (λ x new. new.1) l')
step-Live crash_inflight t rng u z fresh l =
    let (h', rng', run, l') = op_crash_inflight-Live t.luck t.time rng u z l in
    (h', rng', run, Live-weaken (omega arith) (λ x new. new.1) l')
step-Live lose_meta t rng u z fresh l =
    let (h', run, l') = op_lose_meta-Live t.luck u z fresh l in
    (h', rng, rw run refl, Live-weaken (omega arith) (λ x new. new) l')

-- Each turn's outside suits the run, and draws a generation of its own.
abbrev pub Turns : Config → List ℕ → List Turn → Type 0
Turns c gens [] = Unit
Turns c gens (t ∷ ts) = Suits c t.luck × Unseen t.luck.gen gens × Turns c (t.luck.gen ∷ gens) ts

-- The checkpoints that a list of turns takes at most, with the one of the wind-down.
abbrev pub budget : List Turn → ℕ
budget [] = 1
budget (t ∷ ts) = suc (budget ts)

rounds-Live :
    {c : Config} (ts : List Turn) (gens : List ℕ) (rng : ℕ) {h : Harness}
    → Turns c gens ts
    → Sized c
    → Live c (budget ts) gens h
    → (h' : Harness) × (rng' : ℕ) × (gens' : List ℕ) × (rounds ts rng h ≡ ok (h', rng'))
      × Live c 1 gens' h'
unfolding rounds
rounds-Live [] gens rng {h = h} suits z l = (h, rng, gens, refl, l)
rounds-Live (t ∷ ts) gens rng (u, fresh, suits) z l =
    let (h1, rng1, run, l1) =
      step-Live (choose (below 100 rng).1) t (below 100 rng).0 u z fresh l in
    let (h2, rng2, gens2, rest, l2) = rounds-Live ts (t.luck.gen ∷ gens) rng1 suits z l1 in
    (h2, rng2, gens2, rw (rounds, run) rest, l2)

-- The end of a run, from any live harness.
wind_down-passes :
    {c : Config} {gens : List ℕ} (k : Luck) {h : Harness}
    → Suits c k
    → Sized c
    → Live c 1 gens h
    → (h' : Harness) × (wind_down k h ≡ ok h') × (h'.expected ≡ h'.image) × (h'.shadow ≡ h'.image)
unfolding wind_down request ctl recover
wind_down-passes {c} k {h = h} u z live_before =
    let (h1, backed, l, copied, written) = op_backup_verify-Live k live_before in
    let s = l.sound in
    let copy : l.shadow ≡ l.image =
      ap (λ x. x.shadow) (sym l.shape) ∙ (copied ∙ ap (λ x. x.image) l.shape) in
    let (d1, off, saved) =
      detach-live k u z l.strays l.disk l.image l.image l.shadow l.cursor l.id l.st
        s.stored.takes in
    let takes1 : Takes c.meta d1 = Saved-Takes saved s.stored.takes in
    let (d2, on, marked) =
      attach-idle k u z l.strays d1 l.image l.image l.shadow l.cursor (show_hex l.st.generation)
        l.st false (obtain-tracked k.gen true d1 s.tracks saved.file) takes1 in
    let (d3, off2, saved2) =
      detach-live k u z l.strays d2 l.image l.image l.shadow l.cursor u.id l.st
        (Saved-Takes marked takes1) in
    let shaped : op_backup_verify k h ≡ ok _ = backed ∙ ap ok l.shape in
    (
      record (idle c (show_hex l.st.generation) l.strays d3 l.image l.image l.shadow l.cursor) {
        alive = false;
      },
      rw
          (
            wind_down,
            shaped,
            off,
            list_eq_refl l.image,
            on,
            off2,
            request,
            ctl,
            perform-shutdown k _,
          )
          refl,
      refl,
      copy,
    )

-- A whole episode of the chaos test passes: from a fresh directory, over a number of random
-- operations to the final backup, detach and re-attach, no assertion of the harness fails, and at the
-- end the backup and everything written are the bytes of the backing file. The conditions: the size
-- and granularity are ones that the harness and the daemon take, the backing file has its size, the
-- metadata path can be written and is not its own temporary path, devices go up and down, every
-- generation drawn differs from the earlier ones, and there are fewer than 2^32 - 2 operations.
pub run-passes :
    (c : Config) (first : Luck) (turns : List Turn) (last : Luck) (rng : ℕ) (d : Disk)
    → Sized c
    → Suits c first
    → Turns c (first.gen ∷ []) turns
    → Suits c last
    → Takes c.meta d
    → d.file c.meta ≡ none
    → 1 + budget turns < 2 ^ 32
    → (h : Harness) × (run first turns last rng (blank c.backing c.meta c.size c.gran d) ≡ ok h)
      × (h.expected ≡ h.image)
      × (h.shadow ≡ h.image)
unfolding run start_daemon
run-passes c first turns last rng d z u suits v takes lost room =
    let zeros : List ℕ = replicate c.size 0 in
    let size : length zeros ≡ c.size = length-replicate c.size 0 in
    let (t, got, tracks, drawn, era) = obtain-lost first.gen d z u.gen lost in
    let (d1, on, marked) = attach-idle first u z [] d zeros zeros zeros none [] t false got takes in
    let l : Live c (budget turns) (first.gen ∷ []) (live c u.id t [] d1 zeros zeros zeros none) =
      record {
        id = u.id;
        st = t;
        strays = [];
        disk = d1;
        image = zeros;
        shadow = zeros;
        cursor = none;
        shape = refl;
        sound = record {
          tracks = tracks;
          stored = record {
            saved = t;
            tracks = tracks;
            generation = refl;
            current_era = refl;
            there = marked.file;
            takes = Saved-Takes marked takes;
          };
          image_size = size;
          shadow_size = size;
          synced = λ g e at. cc;
          seen = λ x fresh same. fresh.0 (same ∙ drawn);
          known = λ g e at. cc;
          room = omega (arith, room, era);
        };
      } in
    let (h1, rng1, gens1, went, l1) = rounds-Live turns (first.gen ∷ []) rng suits z l in
    let (h2, ended, written, copied) = wind_down-passes last v z l1 in
    (h2, rw (run, start_daemon, on, went) ended, written, copied)
