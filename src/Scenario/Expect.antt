-- ===== src/Scenario/Expect.antt =====
-- The contract that scenarios check, ublkfault/src/scenario.rs on a disk that keeps what is written.
use ublkera.Base.{
  ℕ, zero, suc, ◌+◌, ◌-◌, ◌*◌, ◌/◌, ◌%◌, ◌^◌, ◌≤◌, ◌<◌, ◌≡◌, refl, ap, sym, ◌∙◌, min, Bool, true,
  false, List, [], ◌∷◌, length, slice, overwrite, list_eq, ltb, ok, arith, Bool-cases, inl, inr,
  eq→==, ltb→lt, not_lt→ltb, ap₂,
}
use ublkera.Fault.Bytes.{length-overwrite}
use ublkera.Scenario.{write, expect, Rig, judge_write, compare_loop, exec, run_steps}
use ublkera.Scenario.Disk.{
  Keeps, Multiple, Multiple-add, Multiple-scale, Multiple-sub, Multiple-min, Multiple-eq,
  aligned-Multiple,
}
use ublkera.Scenario.Pattern.{fill_pattern, length-fill_pattern, fill_pattern-slice}
use ublkera.Scenario.Slices.{same_bytes, slice-slice, slice-overwrite}

module _ {S : Type 0} (rig : Rig S) (unit : ℕ) (Good : S → Type 0) (view : S → List ℕ)
    (k : Keeps rig unit Good view) (piece : Multiple unit (2 ^ 20)) where
  -- The comparison succeeds where the device has what is wanted.
  compare_loop-same :
      (fuel off pos : ℕ) (want : List ℕ) (s : S)
      → Good s
      → Multiple unit (off + pos)
      → Multiple unit (length want - pos)
      → length want ≤ pos + fuel * 2 ^ 20
      → off + length want ≤ length (view s)
      → ((lo hi : ℕ)
          → lo ≤ hi
          → hi ≤ length want
          → slice (off + lo) (off + hi) (view s) ≡ slice lo hi want)
      → (s' : S) × (compare_loop rig (suc fuel) off pos want s ≡ ok s')
        × (view s' ≡ view s)
        × Good s'
  unfolding compare_loop
  compare_loop-same zero off pos want s good start rest left fits same =
      let done : ltb pos (length want) ≡ false =
        not_lt→ltb pos (length want) (omega (arith, left)) in
      (s, rw (compare_loop, done) refl, refl, good)
  compare_loop-same (suc fuel) off pos want s good start rest left fits same =
      elim (Bool-cases (ltb pos (length want))) [
        | inr done ↦ (s, rw (compare_loop, done) refl, refl, good)
        | inl more ↦
            let lt : pos < length want = ltb→lt pos (length want) more in
            let n : ℕ = min (length want - pos) (2 ^ 20) in
            let units : Multiple unit n =
              Multiple-min unit (length want - pos) (2 ^ 20) rest piece in
            let (s1, got, kept, good1) =
              k.reads (off + pos) n s good start units (omega (arith, fits, lt)) in
            let assoc : off + pos + n ≡ off + (pos + n) = omega arith in
            let equal : slice (off + pos) (off + pos + n) (view s) ≡ slice pos (pos + n) want =
              ap (λ x. slice (off + pos) x (view s)) assoc
              ∙ same pos (pos + n) (omega arith) (omega (arith, lt)) in
            let agree : list_eq (slice (off + pos) (off + pos + n) (view s))
                  (slice pos (pos + n) want)
                ≡ true =
              ap (λ x. list_eq x (slice pos (pos + n) want)) equal
              ∙ same_bytes (slice pos (pos + n) want) in
            let start' : Multiple unit (off + (pos + n)) =
              rw (sym assoc) (Multiple-add unit (off + pos) n start units) in
            let rest' : Multiple unit (length want - (pos + n)) =
              Multiple-eq unit (length want - pos - n) (length want - (pos + n)) (omega arith)
                (Multiple-sub unit (length want - pos) n rest units) in
            let (s2, run, kept2, good2) =
              compare_loop-same fuel off (pos + n) want s1 good1 start' rest'
                (omega (arith, left, lt)) (rw kept fits) (λ lo hi p q. rw kept (same lo hi p q)) in
            (s2, rw (compare_loop, more, got, agree) run, kept2 ∙ kept, good2)
      ]

module _ {S : Type 0} (rig : Rig S) (unit : ℕ) (Good : S → Type 0) (view : S → List ℕ)
    (k : Keeps rig unit Good view) (grain : Multiple unit 4096) where
  -- A write leaves the pattern on the disk.
  pub write_all_at-puts :
      (off len : ℕ) (pattern : List ℕ) (s : S)
      → Good s
      → off % 4096 ≡ 0
      → Multiple unit len
      → off + len ≤ length (view s)
      → (s' : S) × (rig.write_all_at off (fill_pattern pattern off len) s ≡ (s', true))
        × (view s' ≡ overwrite off (fill_pattern pattern off len) (view s))
        × Good s'
  write_all_at-puts off len pattern s good whole units fits =
      let size = length-fill_pattern pattern off len in
      k.written off (fill_pattern pattern off len) s good (aligned-Multiple unit off grain whole)
        (rw size units) (omega (arith, size, fits))

  judged :
      (fsync : Bool) (s : S)
      → Good s
      → (s' : S) × (judge_write rig fsync false (s, true) ≡ ok s') × (view s' ≡ view s) × Good s'
  unfolding judge_write
  judged false s good = (s, refl, refl, good)
  judged true s good =
      let (s', done, kept, good') = k.synced s good in (s', rw done refl, kept, good')

  -- A write step leaves the pattern on the disk.
  write-puts :
      (off len : ℕ) (pattern : List ℕ) (fsync : Bool) (s : S)
      → Good s
      → off % 4096 ≡ 0
      → Multiple unit len
      → off + len ≤ length (view s)
      → (s' : S) × (exec rig (write off len pattern fsync false) s ≡ ok s')
        × (view s' ≡ overwrite off (fill_pattern pattern off len) (view s))
        × Good s'
  unfolding exec
  write-puts off len pattern fsync s good whole units fits =
      let (s1, put, now, good1) = write_all_at-puts off len pattern s good whole units fits in
      let (s2, done, kept, good2) = judged fsync s1 good1 in
      (
        s2,
        rw (exec, eq→== (off % 4096) 0 whole) (ap (judge_write rig fsync false) put ∙ done),
        kept ∙ now,
        good2,
      )

  -- An expect step finds the pattern in the written range.
  pub expect-finds :
      (off total skip len : ℕ) (pattern : List ℕ) (old : List ℕ) (s1 : S)
      → Good s1
      → off % 4096 ≡ 0
      → skip % 4096 ≡ 0
      → Multiple unit len
      → skip + len ≤ total
      → off + total ≤ length old
      → view s1 ≡ overwrite off (fill_pattern pattern off total) old
      → (s' : S) × (exec rig (expect (off + skip) len pattern) s1 ≡ ok s')
        × (view s' ≡ view s1)
        × Good s'
  unfolding exec
  expect-finds off total skip len pattern old s1 good whole whole' units part fits now =
      let all : List ℕ = fill_pattern pattern off total in
      let want : List ℕ = fill_pattern pattern (off + skip) len in
      let size = length-fill_pattern pattern off total in
      let wanted = length-fill_pattern pattern (off + skip) len in
      let inside : off + length all ≤ length old = omega (arith, size, fits) in
      let same : (lo hi : ℕ)
          → lo ≤ hi
          → hi ≤ length want
          → slice (off + skip + lo) (off + skip + hi) (view s1) ≡ slice lo hi want =
        λ lo hi order below. rw now (
          ap₂ (λ x y. slice x y (overwrite off all old)) (omega arith) (omega arith)
          ∙ (slice-overwrite off (skip + lo) (skip + hi) all old (omega (arith, order))
                (omega (arith, below, wanted, size, part)) inside
              ∙ (slice-slice skip len lo hi all (omega (arith, below, wanted))
                    (omega (arith, size, part))
                  ∙ ap (slice lo hi)
                      (sym (fill_pattern-slice pattern off total skip len whole whole' part))))) in
      let end : off + skip + length want ≤ length (view s1) =
        rw now (omega (arith, length-overwrite off all old inside, wanted, part, fits)) in
      let home : (off + skip) % 4096 ≡ 0 = omega (arith, whole, whole') in
      let start : Multiple unit (off + skip + 0) =
        Multiple-eq unit (off + skip) (off + skip + 0) (omega arith)
          (aligned-Multiple unit (off + skip) grain home) in
      let rest : Multiple unit (length want - 0) =
        Multiple-eq unit len (length want - 0) (omega (arith, wanted)) units in
      let (s2, read, kept, good2) =
        compare_loop-same rig unit Good view k (Multiple-scale unit 256 4096 grain)
          (len / 2 ^ 20 + 1) (off + skip) 0 want s1 good start rest (omega (arith, wanted)) end
          same in
      (s2, rw (exec, eq→== ((off + skip) % 4096) 0 home, read) refl, kept, good2)

-- On a disk that keeps what is written in whole units, of which 4096 bytes are a multiple, a write
-- step at a whole block of 4096 bytes succeeds, fsync or not, and after it the expect step for the
-- pattern on any part of the written range that starts at a whole block succeeds too, so that a run
-- of both steps passes; both lengths are whole units.
pub run_steps-expect :
    {S : Type 0} (rig : Rig S) (unit : ℕ) (Good : S → Type 0) (view : S → List ℕ)
    → Keeps rig unit Good view
    → Multiple unit 4096
    → (off total skip len : ℕ) (pattern : List ℕ) (fsync : Bool) (s : S) → Good s
    → off % 4096 ≡ 0
    → skip % 4096 ≡ 0
    → Multiple unit total
    → Multiple unit len
    → skip + len ≤ total
    → off + total ≤ length (view s)
    → (s' : S) × (run_steps rig
          (write off total pattern fsync false ∷ expect (off + skip) len pattern ∷ [])
          s
        ≡ ok s')
      × (view s' ≡ overwrite off (fill_pattern pattern off total) (view s))
unfolding run_steps
run_steps-expect rig unit Good view k grain off total skip len pattern fsync s good whole whole'
      units units' part fits =
    let (s1, wrote, now, good1) =
      write-puts rig unit Good view k grain off total pattern fsync s good whole units fits in
    let (s2, read, kept, good2) =
      expect-finds rig unit Good view k grain off total skip len pattern (view s) s1 good1 whole
        whole' units' part fits now in
    (s2, rw (run_steps, wrote, read) refl, kept ∙ now)
