-- ===== src/Fault/Contract.antt =====
-- The disk contract of ublkfault/src/model.rs: what each request shows to later reads.
use ublkera.Base.{
  get_or, ℕ, ◌+◌, ◌-◌, ◌*◌, ◌/◌, ◌≤◌, ◌<◌, ◌≡◌, ◌⊎◌, refl, ◌∙◌, true, false, Option, none, some,
  List, [], ◌∷◌, length, take, replicate, leb, ltb, ◌&&◌, inl, inr, Bool-cases, if◌then◌else◌,
  arith, length-replicate, length-take_of_le, u64, div-bounds,
}
use ublkera.Fault.{Model, Stats, write, discard}
use ublkera.Fault.Rng.{hit, below}
use ublkera.Fault.Bytes.{shadow, get_or-replicate}
use ublkera.Fault.View.{view, Misses, IsValid, push_volatile-IsPushed}

-- A probability of 1000 per mill always hits.
pub hit-always : (pm s : ℕ) → 1000 ≤ pm → (hit pm s).1 ≡ true
unfolding hit below
hit-always pm s h = ground arith

-- A zero probability never hits.
pub hit-pos : (pm s : ℕ) → (hit pm s).1 ≡ true → 0 < pm
unfolding hit
hit-pos pm s h = ground arith

shadow-zeros :
    (off len b base : ℕ)
    → shadow off (replicate len 0) b base ≡ (if leb off b && ltb b (off + len) then 0 else base)
shadow-zeros off len b base = rw (length-replicate {A = ℕ} len 0, get_or-replicate len (b - off))

-- On a valid model, a discard inside the device does not panic, reads as zeros at once, and as
-- before elsewhere; the model stays valid, with its size.
pub discard-view :
    (off len : ℕ) {m : Model}
    → IsValid m
    → off + len ≤ length m.committed
    → (m' : Model) × (discard off len m ≡ some m')
      × IsValid m'
      × ((b : ℕ) → view m' b ≡ (if leb off b && ltb b (off + len) then 0 else view m b))
      × (length m'.committed ≡ length m.committed)
unfolding discard
discard-view off len {m} v h =
    let (m', run, q) =
      push_volatile-IsPushed off (replicate len 0)
        {m = record m { stats = record m.stats { discards = u64 (m.stats.discards + 1) } }}
        (record {
          block = v.block;
          size_fits = v.size_fits;
          cap_fits = v.cap_fits;
          fit = v.fit;
          counted = v.counted;
          capped = v.capped;
        })
        (omega (arith, length-replicate {0} {A = ℕ} len 0)) in
    (m', run, q.valid, λ b. q.shows b ∙ shadow-zeros off len b (view m b), q.same_size)

kept-le : (lbs n k : ℕ) → 0 < lbs → k < n / lbs + 1 → k * lbs ≤ n
kept-le lbs n k pos h = grind (arith, div-bounds lbs n pos)

below-lt : (n s : ℕ) → (below (n + 1) s).1 < n + 1
unfolding below
below-lt n s = omega arith

-- The bytes of a write that reach the cache: all of them, or with an injected error some number of
-- whole blocks. A byte outside the write is not touched: neither on the disk nor in the cache.
pub record Wrote (m : Model) (off : ℕ) (bytes : List ℕ) (r : Option ℕ) (m' : Model) : Type 0 where
  pub valid : IsValid m'
  pub same_size : length m'.committed ≡ length m.committed
  pub same_policy : m'.policy ≡ m.policy
  pub drawn : (n : ℕ) → r ≡ some n → (hit m.policy.error_pm m.rng).1 ≡ false
  pub reached : List ℕ
  pub shows : (b : ℕ) → view m' b ≡ shadow off reached b (view m b)
  pub missed :
      (b : ℕ)
      → Misses b m.volatile
      → Misses b ((off, bytes) ∷ [])
      → (get_or m'.committed b 0 ≡ get_or m.committed b 0) × Misses b m'.volatile
  pub result :
      ((r ≡ some (length bytes)) × (reached ≡ bytes))
      ⊎ ((r ≡ none)
          × (0 < m.policy.error_pm)
          × ((k : ℕ) × (reached ≡ take (k * m.lbs) bytes) × (k * m.lbs ≤ length bytes)))

-- The counters and the generator are no part of the invariant.
pub same-IsValid :
    {m : Model} (rng : ℕ) (stats : Stats)
    → IsValid m
    → IsValid (record m { rng = rng; stats = stats })
same-IsValid rng stats v = record {
  block = v.block;
  size_fits = v.size_fits;
  cap_fits = v.cap_fits;
  fit = v.fit;
  counted = v.counted;
  capped = v.capped;
}

Misses-take :
    (off n : ℕ) (bytes : List ℕ) (b : ℕ)
    → n ≤ length bytes
    → (b < off) ⊎ (off + length bytes ≤ b)
    → (b < off) ⊎ (off + length (take n bytes) ≤ b)
Misses-take off n bytes b h (inl below) = inl below
Misses-take off n bytes b h (inr above) = inr (omega (arith, above, length-take_of_le n bytes h))

-- On a valid model, a write inside the device does not panic, and what it reports is what later
-- reads show: success shows all its bytes, an error only a prefix of whole blocks, and an error
-- has a probability above zero; the model stays valid, with its size and its policy.
pub write-Wrote :
    (off : ℕ) (bytes : List ℕ) {m : Model}
    → IsValid m
    → off + length bytes ≤ length m.committed
    → (m' : Model) × (r : Option ℕ) × (write off bytes m ≡ some (m', r)) × Wrote m off bytes r m'
unfolding write
write-Wrote off bytes {m} v h =
    let pm : ℕ = m.policy.error_pm in
    let rng : ℕ = (hit pm m.rng).0 in
    let counted : Stats = record m.stats { writes = u64 (m.stats.writes + 1) } in
    let blocks : ℕ = length bytes / m.lbs in
    let rng' : ℕ = (below (blocks + 1) rng).0 in
    let k : ℕ = (below (blocks + 1) rng).1 in
    let injected : Stats = record counted { errors_injected = u64 (m.stats.errors_injected + 1) } in
    let whole : k * m.lbs ≤ length bytes =
      kept-le m.lbs (length bytes) k v.block (below-lt blocks rng) in
    elim (Bool-cases (hit pm m.rng).1) [
      | inr fine ↦
          let (m', run, q) = push_volatile-IsPushed off bytes (same-IsValid rng counted v) h in
          (
            m',
            some (length bytes),
            rw (fine, run),
            record {
              valid = q.valid;
              same_size = q.same_size;
              same_policy = q.same_policy;
              drawn = λ n e. fine;
              reached = bytes;
              shows = q.shows;
              missed = q.missed;
              result = inl (refl, refl);
            },
          )
      | inl bad ↦ elim (Bool-cases (ltb 0 (k * m.lbs))) [
        | inl more ↦
            let (m', run, q) =
              push_volatile-IsPushed off (take (k * m.lbs) bytes) (same-IsValid rng' injected v)
                (omega (arith, length-take_of_le (k * m.lbs) bytes whole)) in
            (
              m',
              none,
              rw (bad, more, run),
              record {
                valid = q.valid;
                same_size = q.same_size;
                same_policy = q.same_policy;
                drawn = λ n e. cc;
                reached = take (k * m.lbs) bytes;
                shows = q.shows;
                missed = λ b before now.
                    q.missed b before (Misses-take off (k * m.lbs) bytes b whole now.0, tt);
                result = inr (refl, hit-pos pm m.rng bad, (k, refl, whole));
              },
            )
        | inr nothing ↦
            let empty : k * m.lbs ≡ 0 = ground arith in
            (
              record m { rng = rng'; stats = injected },
              none,
              rw (bad, nothing),
              record {
                valid = same-IsValid rng' injected v;
                same_size = refl;
                same_policy = refl;
                drawn = λ n e. cc;
                reached = take (k * m.lbs) bytes;
                shows = λ b. rw empty (ground arith);
                missed = λ b before now. (refl, before);
                result = inr (refl, hit-pos pm m.rng bad, (k, refl, whole));
              },
            )
      ]
    ]
