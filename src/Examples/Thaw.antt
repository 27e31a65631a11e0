-- ===== src/Examples/Thaw.antt =====
-- A parked request and a read on the small disk, on ublkfault/src/main.rs.
use ublkera.Base.{◌≡◌, true, false, some, none, [], ◌∷◌, replicate, arith}
use ublkera.Fault.{Model}
use ublkera.Fault.View.{IsValid}
use ublkera.Injector.{Io, write_op, Outcome, Shared, on_event, handle_ctl, thaw, thawing}
use ublkera.Base.{refl, ℕ, List}
use ublkera.Base.{Option, Bool}
use ublkera.Injector.Words.{seeded_word}
use ublkera.Injector.Control.{Object, Response, crash_cmd, serve_lines}
use ublkera.Injector.Served.{Keeps, Conversation, serve_lines-Keeps}
use ublkera.Injector.Thawed.{Fits, Serves, on_event-Serves}
use ublkera.Injector.Control.{client_object, set_cmd}
use ublkera.Era.{is_power_below}
use ublkera.Fault.{Policy, new}
use ublkera.Injector.{serve}
use ublkera.Examples.Disks.{disk, large, large-IsValid}

abbrev write_one : Io
write_one = record { op = write_op; start_sector = 1; nr_sectors = 1; buf = replicate 512 9 }

abbrev hung : Shared
hung = record { model = disk; parked = 3 ∷ 1 ∷ []; thaw_result = none; event = false; replies = [] }

abbrev no_faults : Policy
no_faults = record { error_pm = 0; flush_lie_pm = 0; hang_pm = 0 }

abbrev started : Shared
started = record {
  model = new 1024 512 64 1 no_faults;
  parked = [];
  thaw_result = none;
  event = false;
  replies = [];
}

served : serve 1024 512 1 64 no_faults ≡ some started
unfolding serve is_power_below new
served = refl

-- Two writes of one sector that hang.
abbrev waiting : Shared
waiting = record {
  model = large;
  parked = 3 ∷ 1 ∷ [];
  thaw_result = none;
  event = false;
  replies = [];
}

write_one-Fits : Fits 1024 write_one
write_one-Fits = record { inside = omega arith; room = omega arith }

on_event-Serves_example :
    (s' : Shared) × (m : Model) × (replies : List (ℕ × Outcome)) × (handle_ctl (thaw none) waiting
      ≡ some (s', thawing 2))
    × (on_event (λ _. write_one) s'
        ≡ some (record waiting {
          model = m;
          parked = [];
          thaw_result = none;
          event = false;
          replies = replies;
        }))
    × Serves (λ _. write_one) large (3 ∷ 1 ∷ []) replies m
    × IsValid m
on_event-Serves_example =
    on_event-Serves (λ _. write_one) waiting large-IsValid (write_one-Fits, (write_one-Fits, tt))

-- A line that does not parse, a crash, and a set that is too large, after which nobody reads.
abbrev three_lines : List (Option Object × Bool)
three_lines =
    (none, true)
    ∷ (some (client_object (crash_cmd seeded_word)), true)
    ∷ (some (client_object (set_cmd (some 1001) none none)), false)
    ∷ []

serve_lines-Keeps_example :
    (s' : Shared) × (replies : List Response) × (serve_lines three_lines waiting []
      ≡ some (s', replies))
    × Conversation waiting three_lines s' replies
    × Keeps waiting s'
serve_lines-Keeps_example = serve_lines-Keeps three_lines waiting [] large-IsValid
