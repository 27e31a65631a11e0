-- ===== src/Chaos/Flight/Replay.antt =====
-- The bytes around a kill in flight: replaying the threads' logs one after the other gives what the
-- interleaved writes left, and adopting the torn ranges gives what the device has.
use ublkera.Base.{
  ℕ, suc, ◌+◌, ◌*◌, ◌≤◌, ◌≡◌, refl, ap, ◌∙◌, List, [], ◌∷◌, ◌++◌, length, overwrite, arith,
}
use ublkera.Fault.Bytes.{get_or-overwrite, length-overwrite}
use ublkera.Chaos.Rng.{Write}
use ublkera.Fault.Bytes.{get_or-ext}
use ublkera.Chaos.Flight.{Writer, replay, replay_all}

abbrev pub put : Write → List ℕ → List ℕ
put w xs = overwrite w.off w.bytes xs

-- The writes lie between `lo` and `hi`.
abbrev pub Within : (lo hi : ℕ) → List Write → Type 0
Within lo hi [] = Unit
Within lo hi (w ∷ ws) = (lo ≤ w.off) × (w.off + length w.bytes ≤ hi) × Within lo hi ws

pub Within-snoc :
    (lo hi : ℕ) (ws : List Write) (w : Write)
    → lo ≤ w.off
    → w.off + length w.bytes ≤ hi
    → Within lo hi ws
    → Within lo hi (ws ++ w ∷ [])
Within-snoc lo hi [] w p q h = (p, q, tt)
Within-snoc lo hi (v ∷ ws) w p q h = (h.0, h.1, Within-snoc lo hi ws w p q h.2)

-- Writes that do not meet commute.
put_comm :
    (v w : Write) (xs : List ℕ)
    → w.off + length w.bytes ≤ v.off
    → v.off + length v.bytes ≤ length xs
    → put v (put w xs) ≡ put w (put v xs)
put_comm v w xs apart fits =
    let lw = length-overwrite w.off w.bytes xs (omega arith) in
    let lv = length-overwrite v.off v.bytes xs fits in
    let lvw = length-overwrite v.off v.bytes (put w xs) (omega (arith, lw)) in
    let lwv = length-overwrite w.off w.bytes (put v xs) (omega (arith, lv)) in
    get_or-ext (put v (put w xs)) (put w (put v xs)) (omega (arith, lw, lv, lvw, lwv)) (λ b lt.
      ground (
        arith,
        get_or-overwrite v.off v.bytes (put w xs) b (omega (arith, lw)),
        get_or-overwrite w.off w.bytes xs b (omega arith),
        get_or-overwrite w.off w.bytes (put v xs) b (omega (arith, lv)),
        get_or-overwrite v.off v.bytes xs b fits,
      ))

pub length-replay :
    (lo hi : ℕ) (ws : List Write) (xs : List ℕ)
    → Within lo hi ws
    → hi ≤ length xs
    → length (replay ws xs) ≡ length xs
unfolding replay
length-replay lo hi [] xs h fits = refl
length-replay lo hi (w ∷ ws) xs h fits =
    let len = length-overwrite w.off w.bytes xs (omega (arith, h.1)) in
    length-replay lo hi ws (put w xs) h.2 (omega (arith, len)) ∙ len

pub replay-snoc :
    (ws : List Write) (w : Write) (xs : List ℕ) → replay (ws ++ w ∷ []) xs ≡ put w (replay ws xs)
unfolding replay
replay-snoc [] w xs = refl
replay-snoc (v ∷ ws) w xs = replay-snoc ws w (put v xs)

-- A write below the log's area can come after it.
replay-put :
    (lo hi : ℕ) (ws : List Write) (w : Write) (xs : List ℕ)
    → Within lo hi ws
    → w.off + length w.bytes ≤ lo
    → hi ≤ length xs
    → replay ws (put w xs) ≡ put w (replay ws xs)
unfolding replay
replay-put lo hi [] w xs h below fits = refl
replay-put lo hi (v ∷ ws) w xs h below fits =
    let len = length-overwrite v.off v.bytes xs (omega (arith, h.1)) in
    ap (replay ws) (put_comm v w xs (omega (arith, h.0)) (omega (arith, h.1)))
    ∙ replay-put lo hi ws w (put v xs) h.2 below (omega (arith, len))

-- The threads from number `t` on have a slice each, and keep to it.
abbrev pub Apart : (area t : ℕ) → List Writer → Type 0
Apart area t [] = Unit
Apart area t (w ∷ ws) =
    (w.base ≡ t * area) × Within (t * area) (t * area + area) w.done × Apart area (t + 1) ws

pub replay_all-put :
    (area t : ℕ) (ws : List Writer) (w : Write) (xs : List ℕ)
    → Apart area t ws
    → w.off + length w.bytes ≤ t * area
    → (t + length ws) * area ≤ length xs
    → replay_all ws (put w xs) ≡ put w (replay_all ws xs)
unfolding replay_all
replay_all-put area t [] w xs h below fits = refl
replay_all-put area t (v ∷ ws) w xs h below fits =
    let (at, own, rest) = h in
    let step : (t + 1) * area ≡ t * area + area = grind arith in
    let top : (t + 1) * area ≤ (t + suc (length ws)) * area = grind arith in
    let len =
      length-replay (t * area) (t * area + area) v.done xs own (omega (arith, step, top, fits)) in
    let same : (t + 1 + length ws) * area ≡ (t + suc (length ws)) * area = grind arith in
    ap (replay_all ws) (
      replay-put (t * area) (t * area + area) v.done w xs own below
        (omega (arith, step, top, fits)))
    ∙ replay_all-put area (t + 1) ws w (replay v.done xs) rest (omega (arith, step))
        (omega (arith, len, same, fits))
