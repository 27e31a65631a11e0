-- ===== src/Chaos/Rng.antt =====
-- `Rng` of src/bin/chaos.rs: splitmix64, and the random writes that are drawn from it.
use Prim.Native.Nat.{bit_xor}
use ublkera.Base.{
  ℕ, zero, suc, ◌+◌, ◌-◌, ◌*◌, ◌/◌, ◌%◌, ◌^◌, ◌≤◌, ◌<◌, ◌≡◌, refl, min, List, [], ◌++◌, length,
  take, length-take_of_le, to_le64, u64, arith,
}

-- `next`: the new state and the number.
pub next : ℕ → ℕ × ℕ
next s =
    let s' = u64 (s + 0x9e37_79b9_7f4a_7c15) in
    let a = u64 (bit_xor s' (s' / 2 ^ 30) * 0xbf58_476d_1ce4_e5b9) in
    let b = u64 (bit_xor a (a / 2 ^ 27) * 0x94d0_49bb_1331_11eb) in (s', bit_xor b (b / 2 ^ 31))

-- `below`, for a bound that is not zero.
unfoldable pub below : ℕ → ℕ → ℕ × ℕ
unfolding next
below n s = let (s', x) = next s in (s', x % n)

-- The `n` chunks of eight bytes of `fill`.
fill_chunks : ℕ → ℕ → ℕ × List ℕ
unfolding next to_le64
fill_chunks zero s = (s, [])
fill_chunks (suc n) s =
    let (s', x) = next s in let (s'', bytes) = fill_chunks n s' in (s'', to_le64 x ++ bytes)

-- `fill` of a buffer of `len` bytes.
pub fill : ℕ → ℕ → ℕ × List ℕ
unfolding fill_chunks
fill len s = let (s', bytes) = fill_chunks ((len + 7) / 8) s in (s', take len bytes)

abbrev max_write : ℕ
max_write = 256 * 1024

-- A write of the harness: where, and which bytes.
pub record Write : Type 0 where
  pub off : ℕ
  pub bytes : List ℕ

-- A random write of whole blocks between `base` and `base + span`.
unfoldable pub draw : (base span : ℕ) → ℕ → ℕ × Write
unfolding below fill
draw base span s0 =
    let (s1, block) = below (span / 4096) s0 in
    let off = base + 4096 * block in
    let (s2, more) = below (min max_write (base + span - off) / 4096) s1 in
    let (s3, bytes) = fill (4096 * (1 + more)) s2 in (s3, record { off = off; bytes = bytes })

length-fill_chunks : (n s : ℕ) → length (fill_chunks n s).1 ≡ 8 * n
unfolding fill_chunks to_le64
length-fill_chunks zero s = refl
length-fill_chunks (suc n) s = omega (arith, length-fill_chunks n (next s).0)

pub length-fill : (len s : ℕ) → length (fill len s).1 ≡ len
unfolding fill
length-fill len s =
    length-take_of_le len (fill_chunks ((len + 7) / 8) s).1
      (omega (arith, length-fill_chunks ((len + 7) / 8) s))

mod-lt : (a n : ℕ) → 0 < n → a % n < n
mod-lt a n h = grind arith

pub below-lt : (n s : ℕ) → 0 < n → (below n s).1 < n
unfolding below
below-lt n s h = mod-lt (next s).1 n h

-- A random write is not empty, and lies in the area that it is drawn for, of at least a block.
pub draw-within :
    (base span s : ℕ)
    → 4096 ≤ span
    → let (s', w) = draw base span s in
      (0 < length w.bytes) × (base ≤ w.off) × (w.off + length w.bytes ≤ base + span)
unfolding draw
draw-within base span s h =
    let (s1, block) = below (span / 4096) s in
    let off : ℕ = base + 4096 * (below (span / 4096) s).1 in
    let room : ℕ = min max_write (base + span - off) / 4096 in
    let s1 : ℕ = (below (span / 4096) s).0 in
    let s2 : ℕ = (below room s1).0 in
    let len : length (fill (4096 * (1 + (below room s1).1)) s2).1 ≡ 4096 * (1 + (below room s1).1) =
      length-fill (4096 * (1 + (below room s1).1)) s2 in
    let first = below-lt (span / 4096) s (omega arith) in
    let second = below-lt room s1 (omega arith) in (omega arith, omega arith, omega arith)
