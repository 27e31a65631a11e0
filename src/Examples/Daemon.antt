-- ===== src/Examples/Daemon.antt =====
-- The daemon of src/manager.rs with one small device.
use ublkera.Base.{
  ℕ, ◌+◌, ◌/◌, ◌<◌, ◌≡◌, refl, ltb, ◌&&◌, get_or, true, false, some, none, [], ◌∷◌, ◌==◌,
  if◌then◌else◌, ok, arith,
}
use ublkera.Era.{EraState, ranges_since, ranges_loop, push_range, new, is_power_below, div_ceil}
use ublkera.Era.Ranges.{covers}
use ublkera.Meta.{encode}
use ublkera.Meta.Save.{act_all, act, save_ops, Disk, save}
use ublkera.Manager.{
  DeviceSpec, Managed, DeviceManager, World, up, deleted, obtain, Added, add, admit, prepare,
  launch, reap, running, id_free, any_backing, from_file, save_to, remove,
}
use ublkera.Manager.Requests.{lookup, del}
use ublkera.Manager.Generation.{parse_hex, show_hex, parse_digits, digit, push_digit}
use ublkera.Manager.Service.{dump_state, check_generation, sum_len, Dumped}
use ublkera.Manager.Attach.{obtain-unclean, add-marks}
use ublkera.Manager.Detach.{del-obtain}
use ublkera.Manager.Cursor.{dump_state-covers, dump_state-guards}
use ublkera.Cli.{AllCanonical, canonical_path, target_req, resolve-target_req}
use ublkera.Manager.Requests.{resolve}
use ublkera.Manager.Registry.{Distinct}
use ublkera.Ctl.{Luck, add_device, checkpoint_devices, serve}
use ublkera.Ctl.Registry.{serve-Distinct}
use ublkera.Examples.Tracker.{small, small-IsValid}

-- Backing 1, with the metadata file 5, whose temporary name is 6.
abbrev spec : DeviceSpec
spec = record { backing = 1; granularity = 4096; meta = some 5; dev_id = none }

abbrev crashed_disk : Disk
crashed_disk = record {
  file = λ p. if p == 5 then some (encode small false) else none;
  fault = λ _. none;
  tmp_of = λ p. p + 1;
}

obtain-unclean_example :
    (t : EraState) × (obtain crashed_disk spec small.dev_size 99 ≡ ok (t, true))
    × (t.generation ≡ 7)
    × (t.current_era ≡ 1)
    × ((since b : ℕ)
        → since < small.current_era
        → b < small.dev_size
        → covers (ranges_since since t) b ≡ true)
obtain-unclean_example =
    obtain-unclean 99 crashed_disk spec small-IsValid (omega arith) refl refl refl

abbrev attached : Managed
attached = record { dev_id = 0; backing = 1; meta = some 5; state = small; finished = false }

abbrev daemon : DeviceManager
daemon = record { devices = attached ∷ []; strays = []; disk = crashed_disk }

still_there : lookup 0 (reap daemon).devices ≡ some attached
unfolding lookup reap running
still_there = refl

del-obtain_example :
    let (s', r) = del deleted 0 daemon in
    (r ≡ ok 1) × (lookup 0 s'.devices ≡ none) × (obtain s'.disk spec 10000 99 ≡ ok (small, false))
del-obtain_example =
    del-obtain 0 99 daemon spec still_there refl refl refl refl (λ e. omega (arith, e))
      small-IsValid (omega arith)

dump_state-covers_example :
    (r : Dumped) × (dump_state 0 0 (some (show_hex 7)) small ≡ ok r)
    × (r.current_era ≡ 1)
    × ((b : ℕ)
        → covers r.ranges b
          ≡ (ltb b small.dev_size && ltb 0 (get_or small.eras (b / small.granularity) 0)))
dump_state-covers_example = dump_state-covers 0 0 small-IsValid (omega arith) (omega arith)

-- A text that reads as the generation with a leading zero less.
short_dump :
    dump_state 0 0 (some (48 ∷ 55 ∷ [])) small
    ≡ ok (record {
      dev_id = 0;
      generation = 7;
      current_era = 1;
      since = 0;
      granularity = 4096;
      dirty_bytes = 0;
      ranges = [];
    })
unfolding dump_state check_generation parse_hex parse_digits digit push_digit sum_len ranges_since
    ranges_loop push_range
short_dump = refl

dump_state-guards_example : (0 < 1) × (parse_hex (48 ∷ 55 ∷ []) ≡ some 7)
dump_state-guards_example = dump_state-guards 0 0 (48 ∷ 55 ∷ []) small short_dump

abbrev world : World
world = record { size_of = λ b. some 8192; node_exists = λ _. false; canonical = λ b. some b }

abbrev luck : Luck
luck = record { world = world; startup = up 4; fate = λ _. deleted; gen = 99 }

daemon-Distinct : Distinct daemon.devices
unfolding lookup any_backing
daemon-Distinct = (refl, refl, tt)

abbrev second : DeviceSpec
second = record { backing = 2; granularity = 4096; meta = some 8; dev_id = none }

-- Two backings, which get the ids 4 and 5, and a backing that is already attached.
serve-Distinct_example :
    Distinct
      (serve
        ((luck, add_device second)
          ∷ (
            record luck { startup = up 5; gen = 100 },
            add_device (record second { backing = 3; meta = none }),
          )
          ∷ (luck, add_device second)
          ∷ (luck, checkpoint_devices)
          ∷ [])
        daemon).devices
serve-Distinct_example =
    serve-Distinct
      ((luck, add_device second)
        ∷ (
          record luck { startup = up 5; gen = 100 },
          add_device (record second { backing = 3; meta = none }),
        )
        ∷ (luck, add_device second)
        ∷ (luck, checkpoint_devices)
        ∷ [])
      daemon daemon-Distinct

abbrev second_state : EraState
second_state = record {
  granularity = 4096;
  dev_size = 8192;
  generation = 99;
  current_era = 1;
  eras = 0 ∷ 0 ∷ [];
}

abbrev with_second : DeviceManager
with_second = record {
  devices =
      record { dev_id = 4; backing = 2; meta = some 8; state = second_state; finished = false }
      ∷ attached
      ∷ [];
  strays = [];
  disk = act_all (save_ops crashed_disk 8 second_state false) crashed_disk;
}

abbrev second_added : Added
second_added = record {
  dev_id = 4;
  dev_size = 8192;
  generation = 99;
  current_era = 1;
  recovered_unclean = false;
}

add-second : add world (up 4) 99 second daemon ≡ (with_second, ok second_added)
unfolding add reap running prepare admit id_free any_backing obtain from_file new is_power_below
    div_ceil save_to save act_all act save_ops launch remove
add-second = refl

add-marks_example :
    (m : Managed) × (lookup 4 with_second.devices ≡ some m)
    × (m.backing ≡ 2)
    × (m.finished ≡ false)
    × (with_second.disk.file 8 ≡ some (encode m.state false))
add-marks_example = add-marks world (up 4) 99 second daemon refl (λ e. omega (arith, e)) add-second

-- Every path leads to the file 1.
abbrev links : World
links = record { size_of = λ b. some 8192; node_exists = λ _. false; canonical = λ b. some 1 }

still_running : lookup 0 (running daemon.devices) ≡ some attached
unfolding lookup running
still_running = refl

attached_path : 1 ≡ canonical_path links.canonical 4
unfolding canonical_path
attached_path = refl

daemon-AllCanonical : AllCanonical links (running daemon.devices)
unfolding running
daemon-AllCanonical = (refl, tt)

resolve-target_req_example :
    resolve links (target_req links.canonical (record { number = none; backing = some 6 })) daemon
    ≡ (reap daemon, ok 0)
resolve-target_req_example =
    resolve-target_req links 4 6 1 0 daemon refl refl still_running attached_path daemon-Distinct
      daemon-AllCanonical refl
