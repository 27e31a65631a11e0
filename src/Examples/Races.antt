-- ===== src/Examples/Races.antt =====
-- One write to chunk 3 by thread 0, and checkpoints by thread 1 around it, on src/era.rs.
use ublkera.Base.{◌<◌, ◌≡◌, refl, true, false, arith, max}
use ublkera.Era.Race.{
  Shared, put, Pc, returned, closed, stamping, Move, call, load, fetch_max, unmoved, fetch_add,
  System, pick, init, Steps, stay, step,
}
use ublkera.Era.Race.Safety.{
  Reachable, after, Dump, start, read, mark_write-current, no_lost_write, dump-reports,
}

-- A tracker after one checkpoint by thread 1 and the single round of a write to chunk 3.
abbrev closing : System
closing = record { mem = record { current_era = 2; eras = λ _. 0 }; pc = put init.pc 1 (closed 1) }

abbrev marked : Shared
marked = record { current_era = 2; eras = put (λ _. 0) 3 (max 0 2) }

abbrev marking : System
marking = record {
  mem = marked;
  pc = put (put (put closing.pc 0 (Pc.loading 3 3)) 0 (stamping 3 3 2 3)) 0 (stamping 3 3 2 4);
}

closing-Reachable : Reachable closing
closing-Reachable = step stay (pick 1 (fetch_add (omega arith)))

marking-Reachable : Reachable marking
marking-Reachable =
    step
      (step (step closing-Reachable (pick 0 (call {first = 3} {last = 3} (omega arith))))
        (pick 0 load))
      (pick 0 (fetch_max (omega arith)))

returning : Move marked (marking.pc 0) marked (returned 3 3 2)
returning = unmoved (omega arith) refl

mark_write-current_example : marked.eras 3 ≡ 2
mark_write-current_example =
    mark_write-current marking-Reachable 0 returning 3 (omega arith) (omega arith)

-- Another checkpoint follows the write.
abbrev later : System
later = record {
  mem = record { current_era = 3; eras = marked.eras };
  pc = put (put marking.pc 0 (returned 3 3 2)) 2 (closed 2);
}

closing-later : Steps (after marking 0 marked (returned 3 3 2)) later
closing-later = step stay (pick 2 (fetch_add (omega arith)))

no_lost_write_example : 1 < later.mem.eras 3
no_lost_write_example =
    no_lost_write marking-Reachable 0 returning closing-later 1 3 (omega arith) (omega arith)
      (omega arith)

abbrev four_chunks :
    Dump 1
      (after marking 0 marked (returned 3 3 2))
      4
      later
      (put (put (put (put (λ _. false) 0 false) 1 false) 2 false) 3 true)
four_chunks = read (read (read (read start stay) stay) stay) closing-later

dump-reports_example : put (put (put (put (λ _. false) 0 false) 1 false) 2 false) 3 true 3 ≡ true
dump-reports_example =
    dump-reports marking-Reachable 0 returning 1 3 (omega arith) (omega arith) (omega arith)
      four_chunks (omega arith)

fresh-Reachable : Reachable init
fresh-Reachable = stay
