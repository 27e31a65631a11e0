-- ===== src/Chaos/Flight/Land.antt =====
-- The writer threads of `op_crash_inflight` in src/bin/chaos.rs, and the whole operation.
use ublkera.Base.{
  ℕ, zero, suc, ◌+◌, ◌*◌, ◌≤◌, ◌<◌, ◌≡◌, refl, ap, ◌∙◌, Option, List, [], ◌∷◌, ◌++◌, length, ok,
  arith,
}
use ublkera.Era.{EraState}
use ublkera.Meta.Save.{Disk}
use ublkera.Chaos.Rng.{draw, draw-within}
use ublkera.Chaos.Live.{Config, live, Sound}
use ublkera.Chaos.Writes.{write_at-live}
use ublkera.Chaos.Flight.{Writer, current, land, fly, replay, replay_all}
use ublkera.Chaos.Flight.Replay.{
  put, Within-snoc, length-replay, replay-snoc, Apart, replay_all-put,
}

-- A thread's write is not empty, and lies in its slice.
pub current-within :
    (area : ℕ) (w : Writer)
    → 4096 ≤ area
    → (0 < length (current area w).bytes)
      × (w.base ≤ (current area w).off)
      × ((current area w).off + length (current area w).bytes ≤ w.base + area)
current-within area w h = draw-within w.base area w.rng h

module _ (c : Config) (n : ℕ) (gens : List ℕ) (area id : ℕ) (strays : List (Option ℕ × EraState))
    (d : Disk) (old shadow : List ℕ) (cursor : Option (ℕ × ℕ)) where
  -- What a run of completed writes leaves: the threads in their slices, a sound harness of the same
  -- history, and the logs replayed as the image.
  pub record Landed (t : ℕ) (ws ws' : List Writer) (st st' : EraState) (image image' : List ℕ)
      : Type 0 where
    pub apart : Apart area t ws'
    pub count : length ws' ≡ length ws
    pub sound : Sound c n gens st' d image' shadow cursor
    pub generation : st'.generation ≡ st.generation
    pub replayed :
        (xs : List ℕ) → length xs ≡ c.size → replay_all ws xs ≡ image → replay_all ws' xs ≡ image'

  land-live :
      (i t : ℕ) (ws : List Writer) (st : EraState) (image : List ℕ)
      → 4096 ≤ area
      → Apart area t ws
      → (t + length ws) * area ≤ c.size
      → Sound c n gens st d image shadow cursor
      → (ws' : List Writer) × (st' : EraState) × (image' : List ℕ) × (land area i ws
            (live c id st strays d image old shadow cursor)
          ≡ ok (ws', live c id st' strays d image' old shadow cursor))
        × Landed t ws ws' st st' image image'
  unfolding land replay_all
  land-live i t [] st image big apart fits s = (
    [],
    st,
    image,
    refl,
    record { apart = tt; count = refl; sound = s; generation = refl; replayed = λ xs size e. e },
  )
  land-live zero t (w ∷ ws) st image big apart fits s =
      let (at, own, rest) = apart in
      let (some_bytes, low, high) = current-within area w big in
      let top : (t + 1) * area ≤ (t + suc (length ws)) * area = grind arith in
      let step : (t + 1) * area ≡ t * area + area = grind arith in
      let same : (t + 1 + length ws) * area ≡ (t + suc (length ws)) * area = grind arith in
      let (st', run, s', gen) =
        write_at-live id st strays d image shadow cursor (current area w) old
          (record { bytes = some_bytes; room = omega (arith, high, at, top, step, fits) }) s in
      (
        record w { rng = (draw w.base area w.rng).0; done = w.done ++ current area w ∷ [] } ∷ ws,
        st',
        put (current area w) image,
        rw (land, run) refl,
        record {
          apart = (
            at,
            Within-snoc (t * area) (t * area + area) w.done (current area w)
                (omega (arith, low, at)) (omega (arith, high, at)) own,
            rest,
          );
          count = refl;
          sound = s';
          generation = gen;
          replayed = λ xs size e.
              let len =
                length-replay (t * area) (t * area + area) w.done xs own
                  (omega (arith, size, top, step, fits)) in
              ap (replay_all ws) (replay-snoc w.done (current area w) xs)
              ∙ (replay_all-put area (t + 1) ws (current area w) (replay w.done xs) rest
                    (omega (arith, high, at, step)) (omega (arith, len, size, same, fits))
                  ∙ ap (put (current area w)) e);
        },
      )
  land-live (suc i) t (w ∷ ws) st image big apart fits s =
      let (at, own, rest) = apart in
      let top : (t + 1) * area ≤ (t + suc (length ws)) * area = grind arith in
      let step : (t + 1) * area ≡ t * area + area = grind arith in
      let same : (t + 1 + length ws) * area ≡ (t + suc (length ws)) * area = grind arith in
      let (ws', st', image', run, l) =
        land-live i (t + 1) ws st image big rest (omega (arith, same, fits)) s in
      (
        w ∷ ws',
        st',
        image',
        rw (land, run) refl,
        record {
          apart = (at, own, l.apart);
          count = ap suc l.count;
          sound = l.sound;
          generation = l.generation;
          replayed = λ xs size e.
              l.replayed (replay w.done xs)
                (length-replay (t * area) (t * area + area) w.done xs own
                    (omega (arith, size, top, step, fits))
                  ∙ size)
                e;
        },
      )

  pub fly-live :
      (schedule : List ℕ) (t : ℕ) (ws : List Writer) (st : EraState) (image : List ℕ)
      → 4096 ≤ area
      → Apart area t ws
      → (t + length ws) * area ≤ c.size
      → Sound c n gens st d image shadow cursor
      → (ws' : List Writer) × (st' : EraState) × (image' : List ℕ) × (fly area schedule ws
            (live c id st strays d image old shadow cursor)
          ≡ ok (ws', live c id st' strays d image' old shadow cursor))
        × Landed t ws ws' st st' image image'
  unfolding fly
  fly-live [] t ws st image big apart fits s = (
    ws,
    st,
    image,
    refl,
    record { apart = apart; count = refl; sound = s; generation = refl; replayed = λ xs size e. e },
  )
  fly-live (i ∷ schedule) t ws st image big apart fits s =
      let (ws1, st1, image1, run, l) = land-live i t ws st image big apart fits s in
      let (ws2, st2, image2, run', l') =
        fly-live schedule t ws1 st1 image1 big l.apart (rw l.count fits) l.sound in
      (
        ws2,
        st2,
        image2,
        rw (fly, run) run',
        record {
          apart = l'.apart;
          count = l'.count ∙ l.count;
          sound = l'.sound;
          generation = l'.generation ∙ l.generation;
          replayed = λ xs size e. l'.replayed xs size (l.replayed xs size e);
        },
      )
