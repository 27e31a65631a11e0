-- ===== src/Era/Race/Invariant.antt =====
-- What every step of the interleaved tracker keeps.
use ublkera.Base.{ℕ, ◌^◌, ◌≤◌, ◌<◌, ◌≡◌, ◌==◌, arith, Bool-cases, inl, inr}
use ublkera.Era.Race.{
  Shared, put, Pc, idle, loading, stamping, returned, closed, Move, call, load, fetch_max, unmoved,
  moved, fetch_add, leave, done, init,
}

-- What a thread's locals say of the shared words.
abbrev pub Knows : Shared → Pc → Type 0
Knows m idle = Unit
Knows m (loading first last) = Unit
Knows m (stamping first last era next) =
    (era ≤ m.current_era) × ((c : ℕ) → first ≤ c → c < next → era ≤ m.eras c)
Knows m (returned first last era) =
    (era ≤ m.current_era) × ((c : ℕ) → first ≤ c → c ≤ last → era ≤ m.eras c)
Knows m (closed old) = old < m.current_era

pub record Inv (m : Shared) (pc : ℕ → Pc) : Type 0 where
  pub fits : m.current_era < 2 ^ 32
  pub bounded : (c : ℕ) → m.eras c ≤ m.current_era
  pub knows : (i : ℕ) → Knows m (pc i)
  pub distinct : (i j old : ℕ) → pc i ≡ closed old → pc j ≡ closed old → i ≡ j

pub Inv-init : Inv init.mem init.pc
Inv-init = record {
  fits = omega arith;
  bounded = λ c. omega arith;
  knows = λ i. tt;
  distinct = λ i j old p q. cc;
}

-- The words only grow.
pub record Grows (m m' : Shared) : Type 0 where
  pub era : m.current_era ≤ m'.current_era
  pub chunk : (c : ℕ) → m.eras c ≤ m'.eras c

pub Move-Grows : {m m' : Shared} {p p' : Pc} → Move m p m' p' → Grows m m'
Move-Grows (call h) = record { era = omega arith; chunk = λ c. omega arith }
Move-Grows load = record { era = omega arith; chunk = λ c. omega arith }
Move-Grows (fetch_max h) = record { era = omega arith; chunk = λ c. ground arith }
Move-Grows (unmoved h e) = record { era = omega arith; chunk = λ c. omega arith }
Move-Grows (moved h e) = record { era = omega arith; chunk = λ c. omega arith }
Move-Grows (fetch_add h) = record { era = omega arith; chunk = λ c. omega arith }
Move-Grows leave = record { era = omega arith; chunk = λ c. omega arith }
Move-Grows done = record { era = omega arith; chunk = λ c. omega arith }

-- What another thread knows survives a move.
Knows-Grows : {m m' : Shared} (p : Pc) → Grows m m' → Knows m p → Knows m' p
Knows-Grows idle g k = tt
Knows-Grows (loading first last) g k = tt
Knows-Grows (stamping first last era next) g k =
    (omega (arith, g.era), λ c p q. omega (arith, k.1 c p q, g.chunk c))
Knows-Grows (returned first last era) g k =
    (omega (arith, g.era), λ c p q. omega (arith, k.1 c p q, g.chunk c))
Knows-Grows (closed old) g k = omega (arith, g.era)

-- What the mover knows after its move.
pub Move-Knows : {m m' : Shared} {p p' : Pc} → Move m p m' p' → Knows m p → Knows m' p'
Move-Knows (call h) k = tt
Move-Knows load k = (omega arith, λ c p q. absurd (omega arith))
Move-Knows (fetch_max {next = n} h) k = (k.0, λ c p q. ground (arith, k.1 c))
Move-Knows (unmoved h e) k = (k.0, λ c p q. k.1 c p (omega arith))
Move-Knows (moved h e) k = tt
Move-Knows (fetch_add h) k = omega arith
Move-Knows leave k = tt
Move-Knows done k = tt

Move-bounded :
    {m m' : Shared} {p p' : Pc}
    → Move m p m' p'
    → m.current_era < 2 ^ 32
    → ((c : ℕ) → m.eras c ≤ m.current_era)
    → Knows m p
    → (m'.current_era < 2 ^ 32) × ((c : ℕ) → m'.eras c ≤ m'.current_era)
Move-bounded (call h) f b k = (f, b)
Move-bounded load f b k = (f, b)
Move-bounded (fetch_max {next = n} h) f b k = (f, λ c. ground (arith, b c, b n))
Move-bounded (unmoved h e) f b k = (f, b)
Move-bounded (moved h e) f b k = (f, b)
Move-bounded (fetch_add h) f b k = (omega arith, λ c. omega (arith, b c))
Move-bounded leave f b k = (f, b)
Move-bounded done f b k = (f, b)

-- The era that a checkpoint closes is closed by no thread before it.
pub Move-closed :
    {m m' : Shared} {p p' : Pc} (old : ℕ) → Move m p m' p' → p' ≡ closed old → old ≡ m.current_era
Move-closed old (call h) e = cc
Move-closed old load e = cc
Move-closed old (fetch_max h) e = cc
Move-closed old (unmoved h q) e = cc
Move-closed old (moved h q) e = cc
Move-closed old (fetch_add h) e = ground arith
Move-closed old leave e = cc
Move-closed old done e = cc

closed-lt : (m : Shared) {p : Pc} (old : ℕ) → p ≡ closed old → Knows m p → old < m.current_era
closed-lt m old e k = rw e at k

module _ {m m' : Shared} {p' : Pc} {pc : ℕ → Pc} (inv : Inv m pc) (i : ℕ)
    (mv : Move m (pc i) m' p') where
  Move-all-Knows : (j : ℕ) → Knows m' (put pc i p' j)
  Move-all-Knows j = elim (Bool-cases (i == j)) [
    | inl same ↦ rw same (Move-Knows mv (inv.knows i))
    | inr other ↦ rw other (Knows-Grows (pc j) (Move-Grows mv) (inv.knows j))
  ]

  Move-distinct : (a b old : ℕ) → put pc i p' a ≡ closed old → put pc i p' b ≡ closed old → a ≡ b
  Move-distinct a b old ea eb = ground (
    arith,
    Move-closed old mv,
    inv.distinct a b old,
    λ (e : pc a ≡ closed old). closed-lt m old e (inv.knows a),
    λ (e : pc b ≡ closed old). closed-lt m old e (inv.knows b),
  )

  pub Move-Inv : Inv m' (put pc i p')
  Move-Inv =
      let (fits, bounded) = Move-bounded mv inv.fits inv.bounded (inv.knows i) in
      record { fits = fits; bounded = bounded; knows = Move-all-Knows; distinct = Move-distinct }
