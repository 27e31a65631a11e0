-- ===== src/Fault/Rng.antt =====
-- `Rng` of ublkfault/src/model.rs: splitmix64.
use Prim.Native.Nat.{bit_xor}
use ublkera.Base.{ℕ, ◌+◌, ◌*◌, ◌/◌, ◌%◌, ◌^◌, Bool, false, ltb, if◌then◌else◌, u64}

-- `next`: the new state and the number.
pub next : ℕ → ℕ × ℕ
next s =
    let s' = u64 (s + 0x9e37_79b9_7f4a_7c15) in
    let a = u64 (bit_xor s' (s' / 2 ^ 30) * 0xbf58_476d_1ce4_e5b9) in
    let b = u64 (bit_xor a (a / 2 ^ 27) * 0x94d0_49bb_1331_11eb) in (s', bit_xor b (b / 2 ^ 31))

-- `below`, for a bound that is not zero.
unfoldable pub below : ℕ → ℕ → ℕ × ℕ
unfolding next
below n s = let (s', x) = next s in (s', x % n)

-- `hit`: a probability of zero draws no number.
unfoldable pub hit : ℕ → ℕ → ℕ × Bool
unfolding below
hit pm s = if ltb 0 pm then (let (s', x) = below 1000 s in (s', ltb x pm)) else (s, false)
