-- ===== src/Examples/Episodes.antt =====
-- Episodes of the chaos test of src/bin/chaos.rs on a small device.
use ublkera.Base.{
  ℕ, ◌+◌, ◌^◌, ◌<◌, ◌≡◌, refl, true, false, Option, none, some, List, [], ◌∷◌, replicate, ok, arith,
  length-replicate,
}
use ublkera.Era.{EraState, new, is_power_below, div_ceil}
use ublkera.Era.Valid.{new-IsValid}
use ublkera.Meta.{encode}
use ublkera.Meta.Save.{Disk}
use ublkera.Manager.{up, deleted}
use ublkera.Ctl.{Luck}
use ublkera.Ctl.Session.{Takes}
use ublkera.Chaos.{Harness, read_device}
use ublkera.Chaos.Ops.{op_backup_verify}
use ublkera.Chaos.Copy.{read_device-reads}
use ublkera.Chaos.Live.{Config, live, Tracks, Sized, Suits, Live}
use ublkera.Chaos.Backup.{op_backup_verify-Live}
use ublkera.Chaos.Flight.{Timing, op_crash_inflight}
use ublkera.Chaos.Flight.Survival.{op_crash_inflight-Live}
use ublkera.Chaos.Run.{Turn, lose_meta, step, run, blank, setup}
use ublkera.Chaos.Passes.{step-Live, run-passes}
use ublkera.Chaos.Start.{setup-Sized}

abbrev config : Config
config = record { backing = 1; meta = 8; size = 20480; gran = 8192 }

eight_k : is_power_below 64 8192 ≡ true
unfolding is_power_below
eight_k = refl

config-Sized : Sized config
config-Sized = record {
  blocks = omega arith;
  whole = refl;
  small = omega arith;
  power = eight_k;
  grain = omega arith;
}

-- An outside that grants everything, and draws `gen`.
abbrev luck : ℕ → Luck
luck gen = record {
  world = record { size_of = λ b. some 20480; node_exists = λ i. false; canonical = λ b. some b };
  startup = up 3;
  fate = λ i. deleted;
  gen = gen;
}

luck-Suits : (gen : ℕ) → gen < 2 ^ 64 → Suits config (luck gen)
luck-Suits gen fits = record {
  id = 3;
  starts = refl;
  deletes = λ i. refl;
  sized = refl;
  gen = fits;
}

abbrev tracker : EraState
tracker = record {
  granularity = 8192;
  dev_size = 20480;
  generation = 7;
  current_era = 1;
  eras = 0 ∷ 0 ∷ 0 ∷ [];
}

made : new 20480 8192 7 ≡ some tracker
unfolding new is_power_below div_ceil
made = refl

tracker-Tracks : Tracks config tracker
tracker-Tracks = record {
  valid = (new-IsValid 20480 8192 7 (omega arith) made).0;
  gran = refl;
  sized = refl;
  gen = omega arith;
  started = omega arith;
}

abbrev disk : Option (List ℕ) → Disk
disk raw = record { file = λ p. raw; tmp_of = λ p. p + 1; fault = λ p. none }

disk-Takes : (raw : Option (List ℕ)) → Takes 8 (disk raw)
disk-Takes raw = record { faultless = refl; apart = λ e. omega (arith, e) }

abbrev zeros : List ℕ
zeros = replicate 20480 0

abbrev attached : Harness
attached = live config 3 tracker [] (disk (some (encode tracker false))) zeros zeros zeros none

attached-Live : Live config 2 (7 ∷ []) attached
attached-Live = record {
  id = 3;
  st = tracker;
  strays = [];
  disk = disk (some (encode tracker false));
  image = zeros;
  shadow = zeros;
  cursor = none;
  shape = refl;
  sound = record {
    tracks = tracker-Tracks;
    stored = record {
      saved = tracker;
      tracks = tracker-Tracks;
      generation = refl;
      current_era = refl;
      there = refl;
      takes = disk-Takes (some (encode tracker false));
    };
    image_size = length-replicate {A = ℕ} 20480 0;
    shadow_size = length-replicate {A = ℕ} 20480 0;
    synced = λ g e at. cc;
    seen = λ x fresh. fresh.0;
    known = λ g e at. cc;
    room = omega arith;
  };
}

op_backup_verify-Live_example :
    (h : Harness) × (op_backup_verify (luck 9) attached ≡ ok h)
    × Live config 1 (7 ∷ []) h
    × (h.shadow ≡ h.image)
    × (h.expected ≡ h.image)
op_backup_verify-Live_example = op_backup_verify-Live (luck 9) attached-Live

-- Three writes complete, one of the first thread is torn after its first byte.
abbrev timing : Timing
timing = record { schedule = 2 ∷ 0 ∷ 2 ∷ []; masks = some (true ∷ []) ∷ none ∷ [] }

op_crash_inflight-Live_example :
    (h : Harness) × (rng : ℕ) × (op_crash_inflight (luck 9) timing 1 attached ≡ ok (h, rng))
    × Live config 2 (7 ∷ []) h
op_crash_inflight-Live_example =
    op_crash_inflight-Live (luck 9) timing 1 (luck-Suits 9 (omega arith)) config-Sized attached-Live

abbrev turn : ℕ → Turn
turn gen = record { luck = luck gen; time = timing }

step-Live_example :
    (h : Harness) × (rng : ℕ) × (step lose_meta (turn 9) 1 attached ≡ ok (h, rng))
    × Live config 1 (9 ∷ 7 ∷ []) h
step-Live_example =
    step-Live lose_meta (turn 9) 1 (luck-Suits 9 (omega arith)) config-Sized
      (λ e. omega (arith, e), tt) attached-Live

run-passes_example :
    (h : Harness) × (run
        (luck 7)
        (turn 8 ∷ turn 9 ∷ [])
        (luck 10)
        1
        (blank 1 8 20480 8192 (disk none))
      ≡ ok h)
    × (h.expected ≡ h.image)
    × (h.shadow ≡ h.image)
run-passes_example =
    run-passes config (luck 7) (turn 8 ∷ turn 9 ∷ []) (luck 10) 1 (disk none) config-Sized
      (luck-Suits 7 (omega arith))
      (
        luck-Suits 8 (omega arith),
        (λ e. omega (arith, e), tt),
        (luck-Suits 9 (omega arith), (λ e. omega (arith, e), (λ e. omega (arith, e), tt)), tt),
      )
      (luck-Suits 10 (omega arith)) (disk-Takes none) refl (omega arith)

read_device-reads_example : read_device attached ≡ ok attached.image
read_device-reads_example = read_device-reads attached refl (length-replicate {A = ℕ} 20480 0)

setup-Sized_example :
    (size : ℕ) × (gran : ℕ) × (rng : ℕ) × (setup
        (record { size = 0; granularity = 0 })
        1
        8
        (disk none)
        1
      ≡ ok (blank 1 8 size gran (disk none), rng))
    × Sized (record { backing = 1; meta = 8; size = size; gran = gran })
setup-Sized_example = setup-Sized 1 8 (disk none) 1
