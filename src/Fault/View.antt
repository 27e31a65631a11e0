-- ===== src/Fault/View.antt =====
-- What reads of the model in ublkfault/src/model.rs show, byte by byte, and the invariant of its
-- cache. Every operation is total on a valid model.
use ublkera.Base.{
  ℕ, ◌+◌, ◌^◌, ◌≤◌, ◌<◌, ◌≡◌, ◌⊎◌, refl, ap, ◌∙◌, true, some, List, [], ◌∷◌, ◌++◌, length, get_or,
  overwrite, ltb, inl, inr, Bool-cases, arith, u64, sub64,
}
use ublkera.Fault.{Model, Entry, Drained, drain, push_volatile}
use ublkera.Fault.Bytes.{shadow, length-overwrite, get_or-overwrite, apply-eq}

-- The byte at `b` through the cached entries, oldest first, over the byte `base` below them.
abbrev pub seen : List Entry → ℕ → ℕ → ℕ
seen [] b base = base
seen ((off, payload) ∷ entries) b base = seen entries b (shadow off payload b base)

abbrev pub view : Model → ℕ → ℕ
view m b = seen m.volatile b (get_or m.committed b 0)

abbrev pub AllFit : ℕ → List Entry → Type 0
AllFit size [] = Unit
AllFit size ((off, payload) ∷ entries) = (off + length payload ≤ size) × AllFit size entries

-- The byte at `b` is in none of the entries.
abbrev pub Misses : ℕ → List Entry → Type 0
Misses b [] = Unit
Misses b ((off, payload) ∷ entries) = ((b < off) ⊎ (off + length payload ≤ b)) × Misses b entries

abbrev pub total_bytes : List Entry → ℕ
total_bytes [] = 0
total_bytes ((off, payload) ∷ entries) = length payload + total_bytes entries

pub record IsValid (m : Model) : Type 0 where
  pub block : 0 < m.lbs
  pub size_fits : length m.committed < 2 ^ 63
  pub cap_fits : m.cache_cap < 2 ^ 63
  pub fit : AllFit (length m.committed) m.volatile
  pub counted : m.volatile_bytes ≡ total_bytes m.volatile
  pub capped : m.volatile_bytes ≤ m.cache_cap

seen-append :
    (xs : List Entry) (off : ℕ) (payload : List ℕ) (b base : ℕ)
    → seen (xs ++ (off, payload) ∷ []) b base ≡ shadow off payload b (seen xs b base)
seen-append [] off payload b base = refl
seen-append ((o, p) ∷ xs) off payload b base = seen-append xs off payload b (shadow o p b base)

AllFit-append :
    (size : ℕ) (xs : List Entry) (off : ℕ) (payload : List ℕ)
    → AllFit size xs
    → off + length payload ≤ size
    → AllFit size (xs ++ (off, payload) ∷ [])
AllFit-append size [] off payload f h = (h, tt)
AllFit-append size ((o, p) ∷ xs) off payload f h = (f.0, AllFit-append size xs off payload f.1 h)

total_bytes-append :
    (xs : List Entry) (off : ℕ) (payload : List ℕ)
    → total_bytes (xs ++ (off, payload) ∷ []) ≡ total_bytes xs + length payload
total_bytes-append [] off payload = omega arith
total_bytes-append ((o, p) ∷ xs) off payload = omega (arith, total_bytes-append xs off payload)

Misses-append :
    (b : ℕ) (xs : List Entry) (e : Entry)
    → Misses b xs
    → Misses b (e ∷ [])
    → Misses b (xs ++ e ∷ [])
Misses-append b [] e m h = h
Misses-append b (x ∷ xs) e m h = (m.0, Misses-append b xs e m.1 h)

pub shadow-missed :
    (off : ℕ) (payload : List ℕ) (b base : ℕ)
    → (b < off) ⊎ (off + length payload ≤ b)
    → shadow off payload b base ≡ base
shadow-missed off payload b base (inl h) = ground (arith, h)
shadow-missed off payload b base (inr h) = ground (arith, h)

-- What the writeback loop leaves behind.
record IsDrained (limit : ℕ) (disk : List ℕ) (entries : List Entry) (d : Drained) : Type 0 where
  same_size : length d.disk ≡ length disk
  fit : AllFit (length disk) d.left
  counted : d.bytes ≡ total_bytes d.left
  capped : d.bytes ≤ limit
  same_view : (b : ℕ) → seen d.left b (get_or d.disk b 0) ≡ seen entries b (get_or disk b 0)
  missed : (b : ℕ) → Misses b entries → (get_or d.disk b 0 ≡ get_or disk b 0) × Misses b d.left

drain-over :
    (limit bytes count : ℕ) (disk : List ℕ) (off : ℕ) (payload : List ℕ) (entries : List Entry)
    → off + length payload ≤ length disk
    → ltb limit bytes ≡ true
    → drain limit bytes count disk ((off, payload) ∷ entries)
      ≡ drain limit
          (sub64 bytes (length payload))
          (u64 (count + 1))
          (overwrite off payload disk)
          entries
unfolding drain
drain-over limit bytes count disk off payload entries h over =
    rw (over, drain) (rw (apply-eq disk off payload h))

drain-IsDrained :
    (limit bytes count : ℕ) (disk : List ℕ) (entries : List Entry)
    → AllFit (length disk) entries
    → bytes ≡ total_bytes entries
    → bytes < 2 ^ 64
    → (d : Drained) × (drain limit bytes count disk entries ≡ some d)
      × IsDrained limit disk entries d
unfolding drain
drain-IsDrained limit bytes count disk [] f e small = (
  record { disk = disk; left = []; bytes = bytes; count = count },
  ground arith,
  record {
    same_size = refl;
    fit = tt;
    counted = e;
    capped = omega arith;
    same_view = λ b. refl;
    missed = λ b h. (refl, tt);
  },
)
drain-IsDrained limit bytes count disk ((off, payload) ∷ entries) f e small =
    elim (Bool-cases (ltb limit bytes)) [
      | inr under ↦ (
        record { disk = disk; left = (off, payload) ∷ entries; bytes = bytes; count = count },
        rw (under, drain),
        record {
          same_size = refl;
          fit = f;
          counted = e;
          capped = ground arith;
          same_view = λ b. refl;
          missed = λ b h. (refl, h);
        },
      )
      | inl over ↦
          let size : length (overwrite off payload disk) ≡ length disk =
            length-overwrite off payload disk f.0 in
          let (d, run, rest) =
            drain-IsDrained limit (sub64 bytes (length payload)) (u64 (count + 1))
              (overwrite off payload disk) entries (rw size f.1) (omega arith) (omega arith) in
          (
            d,
            drain-over limit bytes count disk off payload entries f.0 over ∙ run,
            record {
              same_size = rest.same_size ∙ size;
              fit = rw size at rest.fit;
              counted = rest.counted;
              capped = rest.capped;
              same_view = λ b.
                  rest.same_view b ∙ ap (seen entries b) (get_or-overwrite off payload disk b f.0);
              missed = λ b h.
                  let (same, left) = rest.missed b h.1 in
                  (
                    same
                        ∙ (get_or-overwrite off payload disk b f.0
                            ∙ shadow-missed off payload b (get_or disk b 0) h.0),
                    left,
                  );
            },
          )
    ]

-- A write, a discard or the part of a failed write that reached the cache: it shows at once, the
-- cache stays under its cap, and nothing else changes to a reader.
pub record IsPushed (m : Model) (off : ℕ) (payload : List ℕ) (m' : Model) : Type 0 where
  pub valid : IsValid m'
  pub same_size : length m'.committed ≡ length m.committed
  pub same_policy : m'.policy ≡ m.policy
  pub shows : (b : ℕ) → view m' b ≡ shadow off payload b (view m b)
  pub missed :
      (b : ℕ)
      → Misses b m.volatile
      → Misses b ((off, payload) ∷ [])
      → (get_or m'.committed b 0 ≡ get_or m.committed b 0) × Misses b m'.volatile

pub push_volatile-IsPushed :
    (off : ℕ) (payload : List ℕ) {m : Model}
    → IsValid m
    → off + length payload ≤ length m.committed
    → (m' : Model) × (push_volatile off payload m ≡ some m') × IsPushed m off payload m'
unfolding push_volatile
push_volatile-IsPushed off payload {m} v h =
    let (d, run, q) =
      drain-IsDrained m.cache_cap (u64 (m.volatile_bytes + length payload))
        m.stats.autonomous_writebacks m.committed (m.volatile ++ (off, payload) ∷ [])
        (AllFit-append (length m.committed) m.volatile off payload v.fit h)
        (omega (
          arith,
          total_bytes-append m.volatile off payload,
          v.counted,
          v.capped,
          v.cap_fits,
          v.size_fits,
        ))
        (omega arith) in
    (
      record m {
        committed = d.disk;
        volatile = d.left;
        volatile_bytes = d.bytes;
        stats = record m.stats { autonomous_writebacks = d.count };
      },
      rw run,
      record {
        valid = record {
          block = v.block;
          size_fits = omega (arith, q.same_size, v.size_fits);
          cap_fits = v.cap_fits;
          fit = rw q.same_size q.fit;
          counted = q.counted;
          capped = q.capped;
        };
        same_size = q.same_size;
        same_policy = refl;
        shows = λ b. q.same_view b ∙ seen-append m.volatile off payload b (get_or m.committed b 0);
        missed = λ b before now. q.missed b (Misses-append b m.volatile (off, payload) before now);
      },
    )
