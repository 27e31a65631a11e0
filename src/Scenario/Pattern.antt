-- ===== src/Scenario/Pattern.antt =====
-- `fill_pattern` of ublkfault/src/scenario.rs: pattern bytes that hang on the device offset.
use Prim.Native.Nat.{bit_xor}
use ublkera.Base.{
  get_or, slice, ltb, ltb→lt, not_ltb→le, ℕ, zero, suc, ◌+◌, ◌-◌, ◌*◌, ◌/◌, ◌%◌, ◌≤◌, ◌<◌, ◌≡◌,
  refl, ap, ap₂, sym, ◌∙◌, List, [], ◌∷◌, ◌++◌, length, take, replicate, list_eq, to_le64, u64,
  if◌then◌else◌, arith, Bool-cases, inl, inr, length-append, length-take_of_le, length-replicate,
}
use ublkera.Fault.Rng.{next}
use ublkera.Fault.Bytes.{
  get_or-ext, get_or-append_left, get_or-append_right, get_or-take, get_or-slice, get_or-replicate,
  length-slice,
}

-- The name "zero".
abbrev pub zero_name : List ℕ
zero_name = 122 ∷ 101 ∷ 114 ∷ 111 ∷ []

-- The hash of a name: FNV-1a.
pub hash_from : ℕ → List ℕ → ℕ
hash_from h [] = h
hash_from h (b ∷ name) = hash_from (u64 (bit_xor h b * 0x1000_0000_01b3)) name

-- The chunks of eight bytes in a block.
pub chunks : ℕ → ℕ → List ℕ
unfolding to_le64
chunks zero s = []
chunks (suc n) s = let (s', x) = next s in to_le64 x ++ chunks n s'

-- A whole block of 4096 bytes; a shorter last one is the start of it.
unfoldable pub block : (hash index : ℕ) → List ℕ
unfolding chunks
block hash index = chunks 512 (bit_xor hash index)

-- The blocks of the buffer, from block `index` of the device on.
unfoldable pub blocks : (count hash index : ℕ) → List ℕ
unfolding block
blocks zero hash index = []
blocks (suc n) hash index = block hash index ++ blocks n hash (index + 1)

-- `fill_pattern` of a buffer of `len` bytes.
unfoldable pub fill_pattern : List ℕ → (dev_off len : ℕ) → List ℕ
unfolding blocks hash_from
fill_pattern name dev_off len =
    if list_eq name zero_name
    then replicate len 0
    else take len
        (blocks ((len + 4095) / 4096) (hash_from 0xcbf2_9ce4_8422_2325 name) (dev_off / 4096))

length-chunks : (n s : ℕ) → length (chunks n s) ≡ 8 * n
unfolding chunks to_le64
length-chunks zero s = refl
length-chunks (suc n) s = omega (arith, length-chunks n (next s).0)

length-block : (hash index : ℕ) → length (block hash index) ≡ 4096
unfolding block
length-block hash index = length-chunks 512 (bit_xor hash index)

pub length-blocks : (n hash index : ℕ) → length (blocks n hash index) ≡ 4096 * n
unfolding blocks
length-blocks zero hash index = refl
length-blocks (suc n) hash index = omega (
  arith,
  length-append (block hash index) (blocks n hash (index + 1)),
  length-block hash index,
  length-blocks n hash (index + 1),
)

first_block :
    (n hash index i : ℕ)
    → i < 4096
    → get_or (block hash index ++ blocks n hash (index + 1)) i 0
      ≡ get_or (block hash (index + i / 4096)) (i % 4096) 0
first_block n hash index i low =
    get_or-append_left (block hash index) (blocks n hash (index + 1)) i
      (omega (arith, low, length-block hash index))
    ∙ ap₂ (λ k j. get_or (block hash k) j 0) (omega (arith, low)) (omega (arith, low))

later_block :
    (n hash index i : ℕ)
    → 4096 ≤ i
    → get_or (block hash index ++ blocks n hash (index + 1)) i 0
      ≡ get_or (blocks n hash (index + 1)) (i - 4096) 0
later_block n hash index i high =
    get_or-append_right (block hash index) (blocks n hash (index + 1)) i
      (omega (arith, high, length-block hash index))
    ∙ ap (λ l. get_or (blocks n hash (index + 1)) (i - l) 0) (length-block hash index)

-- Byte `i` of the blocks.
get_or-blocks :
    (n hash index i : ℕ)
    → i < 4096 * n
    → get_or (blocks n hash index) i 0 ≡ get_or (block hash (index + i / 4096)) (i % 4096) 0
unfolding blocks
get_or-blocks zero hash index i h = absurd (omega arith)
get_or-blocks (suc n) hash index i h = elim (Bool-cases (ltb i 4096)) [
  | inl here ↦ first_block n hash index i (ltb→lt i 4096 here)
  | inr later ↦
      let high : 4096 ≤ i = not_ltb→le i 4096 later in
      let q : index + 1 + (i - 4096) / 4096 ≡ index + i / 4096 = omega (arith, high) in
      let r : (i - 4096) % 4096 ≡ i % 4096 = omega (arith, high) in
      later_block n hash index i high
      ∙ (get_or-blocks n hash (index + 1) (i - 4096) (omega (arith, h, high))
          ∙ ap₂ (λ k j. get_or (block hash k) j 0) q r)
]

-- The byte that a pattern has at a device offset.
pub pattern_byte : List ℕ → ℕ → ℕ
pattern_byte name x =
    if list_eq name zero_name
    then 0
    else get_or (block (hash_from 0xcbf2_9ce4_8422_2325 name) (x / 4096)) (x % 4096) 0

pub length-fill_pattern : (name : List ℕ) (off len : ℕ) → length (fill_pattern name off len) ≡ len
unfolding fill_pattern
length-fill_pattern name off len = elim (Bool-cases (list_eq name zero_name)) [
  | inl zeros ↦ rw (fill_pattern, zeros) (length-replicate len 0)
  | inr other ↦
      let hash : ℕ = hash_from 0xcbf2_9ce4_8422_2325 name in
      rw (fill_pattern, other)
        (length-take_of_le len (blocks ((len + 4095) / 4096) hash (off / 4096))
          (omega (arith, length-blocks ((len + 4095) / 4096) hash (off / 4096))))
]

pub get_or-fill_pattern :
    (name : List ℕ) (off len i : ℕ)
    → off % 4096 ≡ 0
    → i < len
    → get_or (fill_pattern name off len) i 0 ≡ pattern_byte name (off + i)
unfolding fill_pattern pattern_byte
get_or-fill_pattern name off len i whole h = elim (Bool-cases (list_eq name zero_name)) [
  | inl zeros ↦ rw (fill_pattern, pattern_byte, zeros) (get_or-replicate len i)
  | inr other ↦
      let hash : ℕ = hash_from 0xcbf2_9ce4_8422_2325 name in
      let n : ℕ = (len + 4095) / 4096 in
      let q : off / 4096 + i / 4096 ≡ (off + i) / 4096 = omega (arith, whole) in
      let r : i % 4096 ≡ (off + i) % 4096 = omega (arith, whole) in
      rw (fill_pattern, pattern_byte, other)
        (get_or-take len i (blocks n hash (off / 4096)) h
          ∙ (get_or-blocks n hash (off / 4096) i (omega arith)
              ∙ (ap (λ k. get_or (block hash k) (i % 4096) 0) q
                  ∙ ap (λ k. get_or (block hash ((off + i) / 4096)) k 0) r)))
]

-- Pattern bytes hang on the device offset: the pattern of a part that starts at a whole block of
-- the device, and `skip` bytes into a larger part that also does, is that part of the larger
-- pattern, whatever the name.
pub fill_pattern-slice :
    (name : List ℕ) (off total skip len : ℕ)
    → off % 4096 ≡ 0
    → skip % 4096 ≡ 0
    → skip + len ≤ total
    → fill_pattern name (off + skip) len ≡ slice skip (skip + len) (fill_pattern name off total)
fill_pattern-slice name off total skip len whole whole' fits =
    let larger : List ℕ = fill_pattern name off total in
    let size = length-fill_pattern name off total in
    let part = length-fill_pattern name (off + skip) len in
    get_or-ext (fill_pattern name (off + skip) len) (slice skip (skip + len) larger)
      (omega (arith, part, length-slice skip (skip + len) larger (omega (arith, size))))
      (λ b lt.
        get_or-fill_pattern name (off + skip) len b (omega (arith, whole, whole'))
          (omega (arith, lt, part))
        ∙ (ap (pattern_byte name) (omega arith)
            ∙ (sym (
                  get_or-fill_pattern name off total (skip + b) whole
                    (omega (arith, lt, part, fits)))
                ∙ sym (get_or-slice skip (skip + len) b larger (omega (arith, lt, part))))))
