-- ===== src/Manager/Cursor.antt =====
-- The guards of `dump` in src/manager.rs: which cursors it takes, and what it then reports.
use ublkera.Base.{
  ℕ, ◌/◌, ◌^◌, ◌<◌, ◌≡◌, refl, ap, ◌∙◌, some, List, ◌==◌, ltb, ◌&&◌, get_or, ok, ==_iff, eq→==,
  lt→ltb, ensure-ok, ensure-true, ltb→lt, context-ok, bind-ok,
}
use ublkera.Era.{EraState, ranges_since}
use ublkera.Era.Valid.{IsValid}
use ublkera.Era.Ranges.{covers, ranges_since_lem}
use ublkera.Manager.Generation.{parse_hex, show_hex, parse_hex-show_hex}
use ublkera.Manager.Service.{dump_state, check_generation, sum_len, Dumped}

-- On a valid tracker, a `dump` with the generation as `status` prints it and an era that is over
-- succeeds, and reports exactly the bytes of the device whose chunk has a newer stamp.
pub dump_state-covers :
    (id since : ℕ) {st : EraState}
    → IsValid st
    → st.generation < 2 ^ 64
    → since < st.current_era
    → (r : Dumped) × (dump_state id since (some (show_hex st.generation)) st ≡ ok r)
      × (r.current_era ≡ st.current_era)
      × ((b : ℕ)
          → covers r.ranges b
            ≡ (ltb b st.dev_size && ltb since (get_or st.eras (b / st.granularity) 0)))
unfolding dump_state check_generation
dump_state-covers id since {st} v g old = (
  record {
    dev_id = id;
    generation = st.generation;
    current_era = st.current_era;
    since = since;
    granularity = st.granularity;
    dirty_bytes = sum_len (ranges_since since st);
    ranges = ranges_since since st;
  },
  rw (parse_hex-show_hex st.generation g, eq→== st.generation st.generation refl, lt→ltb _ _ old),
  refl,
  λ b. ranges_since_lem since b v,
)

-- A stale or foreign cursor is refused: a `dump` with a generation succeeds only with an era that
-- is over and a text that reads as the generation of the device.
pub dump_state-guards :
    (id since : ℕ) (text : List ℕ) (st : EraState) {r : Dumped}
    → dump_state id since (some text) st ≡ ok r
    → (since < st.current_era) × (parse_hex text ≡ some st.generation)
unfolding dump_state check_generation
dump_state-guards id since text st e =
    let (u, checked, rest) = bind-ok (check_generation (some text) st) _ e in
    let (fresh, made) = ensure-ok (ltb since st.current_era) _ _ rest in
    let (n, reads, same) = context-ok (parse_hex text) _ _ checked in
    (
      ltb→lt _ _ fresh,
      reads ∙ ap some ((==_iff n st.generation).0 (ensure-true (n == st.generation) _ same)),
    )
