-- ===== src/Era/Calm.antt =====
-- `mark_write` of src/era.rs while no checkpoint races with it: what it leaves as it is.
use ublkera.Base.{
  ℕ, ◌+◌, ◌-◌, ◌/◌, ◌≤◌, ◌≡◌, refl, sym, List, [], ◌∷◌, zero, suc, some, length, get_or, leb, ltb,
  ◌==◌, min, arith, Bool-cases, inl, inr, u64, sub64,
}
use ublkera.Era.{EraState, stamp, mark_loop, mark_write}

-- The history, its eras and the device are the same, and no chunk gets older.
pub record Grown (s t : EraState) : Type 0 where
  pub generation : t.generation ≡ s.generation
  pub current_era : t.current_era ≡ s.current_era
  pub newer : (j : ℕ) → get_or s.eras j 0 ≤ get_or t.eras j 0

Grown-refl : (s : EraState) → Grown s s
Grown-refl s = record { generation = refl; current_era = refl; newer = λ j. omega arith }

stamp-le :
    (era first last i : ℕ) (es : List ℕ) (j : ℕ)
    → get_or es j 0 ≤ get_or (stamp era first last i es) j 0
unfolding stamp
stamp-le era first last i [] j = omega arith
stamp-le era first last i (e ∷ es) zero = ground arith
stamp-le era first last i (e ∷ es) (suc j) = stamp-le era first last (i + 1) es j

same-Grown : {s t u : EraState} → Grown s t → some t ≡ some u → Grown s u
same-Grown {t = t} {u = u} g e = let same : t ≡ u = cc in rw (sym same) g

pub mark_write-Grown :
    (off len : ℕ) (s : EraState) {t : EraState} → mark_write [] off len s ≡ some t → Grown s t
unfolding mark_write mark_loop
mark_write-Grown off len s e =
    let first : ℕ = off / s.granularity in
    let last : ℕ = min (sub64 (u64 (off + len)) 1 / s.granularity) (length s.eras - 1) in
    elim (Bool-cases (len == 0)) [
      | inl empty ↦ same-Grown (Grown-refl s) (rw (mark_write, empty) at e)
      | inr some_bytes ↦ elim (Bool-cases (leb (length s.eras) first)) [
        | inl past ↦ same-Grown (Grown-refl s) (rw (mark_write, some_bytes, past) at e)
        | inr here ↦ elim (Bool-cases (ltb (last + 1) first)) [
          | inl panic ↦ let bad = rw (mark_write, some_bytes, here, panic) at e in cc
          | inr fine ↦
              same-Grown
                (record {
                  generation = refl;
                  current_era = refl;
                  newer = stamp-le s.current_era first last 0 s.eras;
                })
                (rw (mark_write, some_bytes, here, fine) at e)
        ]
      ]
    ]
