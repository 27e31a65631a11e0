-- ===== src/Fault/Flushed.antt =====
-- What a flush of ublkfault/src/model.rs makes durable.
use ublkera.Base.{
  ℕ, ◌+◌, ◌<◌, ◌≡◌, ◌⊎◌, refl, ap, ◌∙◌, some, List, [], ◌∷◌, length, get_or, overwrite, inl, inr,
  Bool-cases, arith, u64,
}
use ublkera.Fault.{Model, Entry, apply_all, flush}
use ublkera.Fault.Rng.{hit}
use ublkera.Fault.Bytes.{length-overwrite, get_or-overwrite, apply-eq}
use ublkera.Fault.View.{seen, view, AllFit, IsValid}
use ublkera.Fault.Contract.{hit-pos}

apply_all-seen :
    (disk : List ℕ) (entries : List Entry)
    → AllFit (length disk) entries
    → (disk' : List ℕ) × (apply_all disk entries ≡ some disk')
      × (length disk' ≡ length disk)
      × ((b : ℕ) → get_or disk' b 0 ≡ seen entries b (get_or disk b 0))
unfolding apply_all
apply_all-seen disk [] f = (disk, refl, refl, λ b. refl)
apply_all-seen disk ((off, payload) ∷ entries) f =
    let size : length (overwrite off payload disk) ≡ length disk =
      length-overwrite off payload disk f.0 in
    let (disk', run, same, bytes) =
      apply_all-seen (overwrite off payload disk) entries (rw size f.1) in
    (
      disk',
      rw (apply-eq disk off payload f.0) run,
      same ∙ size,
      λ b. bytes b ∙ ap (seen entries b) (get_or-overwrite off payload disk b f.0),
    )

-- On a valid model, a flush does not panic and shows nothing to readers, and then the disk holds
-- every byte of the view and the cache is empty; only with a lie probability above zero may it
-- leave both as they were. The model stays valid, with its size and its policy.
pub flush-view :
    {m : Model}
    → IsValid m
    → (m' : Model) × (flush m ≡ some m')
      × IsValid m'
      × ((b : ℕ) → view m' b ≡ view m b)
      × (((m'.volatile ≡ []) × ((b : ℕ) → get_or m'.committed b 0 ≡ view m b))
          ⊎ ((0 < m.policy.flush_lie_pm)
              × (m'.volatile ≡ m.volatile)
              × (m'.committed ≡ m.committed)))
      × (length m'.committed ≡ length m.committed)
      × (m'.policy ≡ m.policy)
unfolding flush
flush-view {m} v = elim (Bool-cases (hit m.policy.flush_lie_pm m.rng).1) [
  | inl lie ↦ (
    record m {
      rng = (hit m.policy.flush_lie_pm m.rng).0;
      stats = record m.stats {
        flushes = u64 (m.stats.flushes + 1);
        flush_lies = u64 (m.stats.flush_lies + 1);
      };
    },
    rw lie,
    record {
      block = v.block;
      size_fits = v.size_fits;
      cap_fits = v.cap_fits;
      fit = v.fit;
      counted = v.counted;
      capped = v.capped;
    },
    λ b. refl,
    inr (hit-pos m.policy.flush_lie_pm m.rng lie, refl, refl),
    refl,
    refl,
  )
  | inr honest ↦
      let (disk, run, size, bytes) = apply_all-seen m.committed m.volatile v.fit in
      (
        record m {
          rng = (hit m.policy.flush_lie_pm m.rng).0;
          stats = record m.stats { flushes = u64 (m.stats.flushes + 1) };
          committed = disk;
          volatile = [];
          volatile_bytes = 0;
        },
        rw (honest, run),
        record {
          block = v.block;
          size_fits = omega (arith, size, v.size_fits);
          cap_fits = v.cap_fits;
          fit = tt;
          counted = refl;
          capped = omega arith;
        },
        bytes,
        inl (refl, bytes),
        size,
        refl,
      )
]
