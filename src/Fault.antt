-- ===== src/Fault.antt =====
-- ublkfault/src/model.rs: the disk with a volatile cache. An operation returns `none` where the
-- source panics on a slice out of range.
pub mod Rng
pub mod Bytes
pub mod Contract
pub mod Reads
pub mod Flushed
pub mod View
pub mod Crash
pub mod Seeded
pub mod Durability
use ublkera.Base.{
  ℕ, zero, suc, ◌+◌, ◌-◌, ◌*◌, ◌/◌, ◌%◌, ◌^◌, min, max, Bool, true, false, Option, none, some, List,
  [], ◌∷◌, ◌++◌, length, take, drop, replicate, ltb, leb, ◌==◌, if◌then◌else◌, u64, sub64, slice,
  overwrite,
}
use Rng.{below, hit}

-- `Policy`
pub record Policy : Type 0 where
  pub error_pm : ℕ
  pub flush_lie_pm : ℕ
  pub hang_pm : ℕ

-- `Stats`
pub record Stats : Type 0 where
  pub reads : ℕ
  pub writes : ℕ
  pub flushes : ℕ
  pub discards : ℕ
  pub errors_injected : ℕ
  pub flush_lies : ℕ
  pub hangs : ℕ
  pub crashes : ℕ
  pub autonomous_writebacks : ℕ

-- `CrashReport`
pub record CrashReport : Type 0 where
  pub committed : ℕ
  pub dropped : ℕ
  pub torn : ℕ

-- A cached write: its offset and its bytes.
abbrev pub Entry : Type 0
Entry = ℕ × List ℕ

-- `Model`
pub record Model : Type 0 where
  pub lbs : ℕ
  pub cache_cap : ℕ
  pub committed : List ℕ
  pub volatile : List Entry
  pub volatile_bytes : ℕ
  pub rng : ℕ
  pub policy : Policy
  pub stats : Stats

pub data CrashMode : Type 0 where
  drop_all seeded : CrashMode

abbrev no_stats : Stats
no_stats = record {
  reads = 0;
  writes = 0;
  flushes = 0;
  discards = 0;
  errors_injected = 0;
  flush_lies = 0;
  hangs = 0;
  crashes = 0;
  autonomous_writebacks = 0;
}

-- `Model::new`
unfoldable pub new : (size lbs cache_cap seed : ℕ) → Policy → Model
new size lbs cache_cap seed policy = record {
  lbs = lbs;
  cache_cap = cache_cap;
  committed = replicate size 0;
  volatile = [];
  volatile_bytes = 0;
  rng = seed;
  policy = policy;
  stats = no_stats;
}

infixl 5 ◌>>=◌
abbrev pub ◌>>=◌ {ℓ κ} : {A : Type ℓ} {B : Type κ} → Option A → (A → Option B) → Option B
none >>= f = none
some a >>= f = f a

-- `apply`
pub apply : List ℕ → ℕ → List ℕ → Option (List ℕ)
apply committed off bytes =
    if leb (off + length bytes) (length committed)
    then some (overwrite off bytes committed)
    else none

-- Bytes `start..end` of the device, from an entry at `doff` into the window from `woff` on.
pub paste : (woff doff start end : ℕ) → List ℕ → List ℕ → List ℕ
paste woff doff start end bytes out =
    if leb end start
    then out
    else overwrite (start - woff) (slice (start - doff) (end - doff) bytes) out

-- `overlay`: the part of an entry at `doff` that falls in the window from `woff` on.
pub overlay : (out : List ℕ) (woff doff : ℕ) (bytes : List ℕ) → List ℕ
unfolding paste
overlay out woff doff bytes =
    let wend = u64 (woff + length out) in
    let dend = u64 (doff + length bytes) in
    paste woff doff (max woff doff) (min wend dend) bytes out

pub overlay_all : List ℕ → ℕ → List Entry → List ℕ
unfolding overlay
overlay_all out woff [] = out
overlay_all out woff ((doff, bytes) ∷ volatile) =
    overlay_all (overlay out woff doff bytes) woff volatile

-- `read` of `len` bytes.
pub read : (off len : ℕ) → Model → Option (Model × List ℕ)
unfolding overlay_all
read off len m =
    let m' = record m { stats = record m.stats { reads = u64 (m.stats.reads + 1) } } in
    if leb (off + len) (length m.committed)
    then some (m', overlay_all (slice off (off + len) m.committed) off m.volatile)
    else none

-- The state of the writeback loop: committed bytes, cached bytes, the cache and the count.
pub record Drained : Type 0 where
  pub disk : List ℕ
  pub left : List Entry
  pub bytes : ℕ
  pub count : ℕ

-- The loop of `push_volatile`: the oldest entries go to the disk while the cache is over its cap.
pub drain : (limit bytes count : ℕ) → List ℕ → List Entry → Option Drained
unfolding apply
drain limit bytes count disk [] =
    if ltb limit bytes
    then none
    else some (record { disk = disk; left = []; bytes = bytes; count = count })
drain limit bytes count disk ((off, payload) ∷ volatile) = elim (ltb limit bytes) [
  | true ↦ do
    disk' ← apply disk off payload
    drain limit (sub64 bytes (length payload)) (u64 (count + 1)) disk' volatile
  | false ↦
      some (record { disk = disk; left = (off, payload) ∷ volatile; bytes = bytes; count = count })
]

-- `push_volatile`
pub push_volatile : ℕ → List ℕ → Model → Option Model
unfolding drain
push_volatile off bytes m = do
  d ←
      drain m.cache_cap (u64 (m.volatile_bytes + length bytes)) m.stats.autonomous_writebacks
        m.committed (m.volatile ++ (off, bytes) ∷ [])
  some (record m {
    committed = d.disk;
    volatile = d.left;
    volatile_bytes = d.bytes;
    stats = record m.stats { autonomous_writebacks = d.count };
  })

-- `write`: the state and, for an injected error, `none` in place of the byte count.
pub write : ℕ → List ℕ → Model → Option (Model × Option ℕ)
unfolding push_volatile hit below
write off bytes m =
    let counted = record m { stats = record m.stats { writes = u64 (m.stats.writes + 1) } } in
    let (rng, error) = hit m.policy.error_pm m.rng in
    if error
    then (let blocks = length bytes / m.lbs in
        let (rng', kept) = below (blocks + 1) rng in
        let keep = kept * m.lbs in
        let failed = record counted {
          rng = rng';
          stats = record counted.stats { errors_injected = u64 (m.stats.errors_injected + 1) };
        } in
        if ltb 0 keep
        then (push_volatile off (take keep bytes) failed >>= λ m'. some (m', none))
        else some (failed, none))
    else (push_volatile off bytes (record counted { rng = rng }) >>= λ m'.
        some (m', some (length bytes)))

-- `discard`
pub discard : (off len : ℕ) → Model → Option Model
unfolding push_volatile
discard off len m =
    push_volatile off (replicate len 0)
      (record m { stats = record m.stats { discards = u64 (m.stats.discards + 1) } })

-- The loop of `flush` over the entries, oldest first.
pub apply_all : List ℕ → List Entry → Option (List ℕ)
unfolding apply
apply_all disk [] = some disk
apply_all disk ((off, payload) ∷ entries) = do
  disk' ← apply disk off payload
  apply_all disk' entries

-- `flush`; a lie commits nothing.
pub flush : Model → Option Model
unfolding apply_all hit
flush m =
    let counted = record m { stats = record m.stats { flushes = u64 (m.stats.flushes + 1) } } in
    let (rng, lie) = hit m.policy.flush_lie_pm m.rng in
    if lie
    then some (record counted {
      rng = rng;
      stats = record counted.stats { flush_lies = u64 (m.stats.flush_lies + 1) };
    })
    else (apply_all m.committed m.volatile >>= λ disk.
        some (record counted { rng = rng; committed = disk; volatile = []; volatile_bytes = 0 }))
