-- ===== src/Era/Race/Safety.antt =====
-- What the races of src/era.rs cannot do: lose a write that has returned, or close an era twice.
use ublkera.Base.{
  ℕ, zero, suc, ◌≤◌, ◌<◌, ◌≡◌, ◌==◌, arith, refl, Bool, true, false, ltb, inl, inr, Bool-cases,
  ==_iff, lt→ltb,
}
use ublkera.Era.Race.{
  Shared, put, Pc, returned, closed, Move, call, load, fetch_max, unmoved, moved, fetch_add, leave,
  done, System, pick, init, Steps, stay, step,
}
use ublkera.Era.Race.Invariant.{Inv, Inv-init, Grows, Move-Grows, Move-Knows, Move-closed, Move-Inv}

abbrev pub Reachable : System → Type 0
Reachable s = Steps init s

pub Reachable-Inv : {s : System} → Reachable s → Inv s.mem s.pc
Reachable-Inv stay = Inv-init
Reachable-Inv (step r (pick i mv)) = Move-Inv (Reachable-Inv r) i mv

-- No step takes an era back: neither the counter nor a chunk's stamp.
pub Steps-Grows : {s t : System} → Steps s t → Grows s.mem t.mem
Steps-Grows stay = record { era = omega arith; chunk = λ c. omega arith }
Steps-Grows (step r (pick i mv)) =
    let g = Steps-Grows r in
    let h = Move-Grows mv in
    record { era = omega (arith, g.era, h.era); chunk = λ c. omega (arith, g.chunk c, h.chunk c) }

-- The state in which thread `i` leaves the system.
abbrev pub after : System → ℕ → Shared → Pc → System
after s i m p = record { mem = m; pc = put s.pc i p }

return-current :
    {m m' : Shared} {p p' : Pc} {first last era : ℕ}
    → Move m p m' p'
    → p' ≡ returned first last era
    → m'.current_era ≡ era
return-current (call h) e = cc
return-current load e = cc
return-current (fetch_max h) e = cc
return-current (unmoved h q) e = ground arith
return-current (moved h q) e = cc
return-current (fetch_add h) e = cc
return-current leave e = cc
return-current done e = cc

-- At the step by which `mark_write` returns, each chunk of its range carries exactly the era that
-- is current, whatever the other threads did meanwhile.
pub mark_write-current :
    {s : System} {m : Shared} {first last era : ℕ}
    → Reachable s
    → (i : ℕ) → Move s.mem (s.pc i) m (returned first last era)
    → (c : ℕ) → first ≤ c
    → c ≤ last
    → m.eras c ≡ m.current_era
mark_write-current r i mv c p q =
    let inv = Reachable-Inv r in
    let new = Move-Inv inv i mv in
    let known = Move-Knows mv (inv.knows i) in
    omega (arith, new.bounded c, known.1 c p q, return-current mv refl)

-- No write is lost in a run from a fresh tracker whose era counter does not run out: once
-- `mark_write` has returned, every later state shows its chunks newer than any era that was closed
-- by then, so newer than every cursor taken before the return.
pub no_lost_write :
    {s u : System} {m : Shared} {first last era : ℕ}
    → Reachable s
    → (i : ℕ) (mv : Move s.mem (s.pc i) m (returned first last era))
    → Steps (after s i m (returned first last era)) u
    → (since c : ℕ) → since < m.current_era
    → first ≤ c
    → c ≤ last
    → since < u.mem.eras c
no_lost_write r i mv later since c h p q =
    omega (arith, mark_write-current r i mv c p q, (Steps-Grows later).chunk c)

-- The loop of `ranges_since` beside the other threads: chunk by chunk, with any steps before each
-- load. `seen` tells the chunks that are reported.
pub data Dump (since : ℕ) (s : System) : ℕ → System → (ℕ → Bool) → Type 0 where
  start : Dump since s zero s (λ c. false)
  read :
      {n : ℕ} {t u : System} {seen : ℕ → Bool}
      → Dump since s n t seen
      → Steps t u
      → Dump since s (suc n) u (put seen n (ltb since (u.mem.eras n)))

Steps-append : {s t u : System} → Steps s t → Steps t u → Steps s u
Steps-append r stay = r
Steps-append r (step q st) = step (Steps-append r q) st

Dump-Steps :
    {since : ℕ} {s : System} {n : ℕ} {t : System} {seen : ℕ → Bool}
    → Dump since s n t seen
    → Steps s t
Dump-Steps start = stay
Dump-Steps (read d more) = Steps-append (Dump-Steps d) more

-- A chunk that is newer than the cursor in every state from the start on is reported.
Dump-sees :
    {since : ℕ} {s : System} {n : ℕ} {t : System} {seen : ℕ → Bool} (c : ℕ)
    → ((u : System) → Steps s u → since < u.mem.eras c)
    → Dump since s n t seen
    → c < n
    → seen c ≡ true
Dump-sees c newer start lt = absurd (omega arith)
Dump-sees c newer (read {n = k} {u = u} d more) lt = elim (Bool-cases (k == c)) [
  | inl same ↦
      let e : k ≡ c = (==_iff k c).0 same in
      rw same (lt→ltb _ _ (rw e (newer u (Steps-append (Dump-Steps d) more))))
  | inr other ↦ rw other (Dump-sees c newer d (ground arith))
]

-- A dump that starts after `mark_write` has returned, with a cursor closed before the return,
-- reports every chunk of the write that it reads, though other threads go on under it.
pub dump-reports :
    {s t : System} {m : Shared} {first last era n : ℕ} {seen : ℕ → Bool}
    → Reachable s
    → (i : ℕ) (mv : Move s.mem (s.pc i) m (returned first last era)) → (since c : ℕ)
    → since < m.current_era
    → first ≤ c
    → c ≤ last
    → Dump since (after s i m (returned first last era)) n t seen
    → c < n
    → seen c ≡ true
dump-reports r i mv since c h p q d lt =
    Dump-sees c (λ u more. no_lost_write r i mv more since c h p q) d lt

-- Conversely a dump reports no chunk that is not newer than its cursor when the dump ends.
pub dump_sound :
    {since : ℕ} {s : System} {n : ℕ} {t : System} {seen : ℕ → Bool}
    → Dump since s n t seen
    → (c : ℕ) → seen c ≡ true
    → since < t.mem.eras c
dump_sound start c h = cc
dump_sound (read {n = k} {seen = seen} d more) c h =
    ground (arith, λ (e : seen c ≡ true). dump_sound d c e, (Steps-Grows more).chunk c)

-- Of two checkpoints the later closes the later era: no era is closed twice.
pub checkpoint-lt :
    {s t : System} {m m' : Shared} {old old' : ℕ}
    → Reachable s
    → (i : ℕ) (mv : Move s.mem (s.pc i) m (closed old)) → Steps (after s i m (closed old)) t
    → (j : ℕ) (mv' : Move t.mem (t.pc j) m' (closed old')) → old < old'
checkpoint-lt {old = old} {old' = old'} r i mv later j mv' = omega (
  arith,
  Move-Knows mv ((Reachable-Inv r).knows i),
  (Steps-Grows later).era,
  Move-closed old' mv' refl,
)
