-- ===== src/Injector/Thawed.antt =====
-- A thaw of ublkfault/src/main.rs that lets the parked requests go on.
use mathlib.Core.List.{append-nil, append_assoc}
use ublkera.Base.{
  ℕ, ◌+◌, ◌≤◌, ◌≡◌, refl, ap, sym, ◌∙◌, true, false, none, some, List, [], ◌∷◌, ◌++◌, length,
}
use ublkera.Fault.{Model}
use ublkera.Fault.View.{IsValid}
use ublkera.Injector.{
  Io, off_of, len_of, Outcome, perform, Shared, outcome, replied, thaw_each, on_event, handle_ctl,
  thaw, thawing,
}
use ublkera.Injector.Answers.{perform-IsValid}

-- The request of a tag lies on a device of this size and fits its buffer.
pub record Fits (size : ℕ) (io : Io) : Type 0 where
  pub inside : off_of io + len_of io ≤ size
  pub room : len_of io ≤ length io.buf

abbrev pub AllFits : (size : ℕ) → (iods : ℕ → Io) → List ℕ → Type 0
AllFits size iods [] = Unit
AllFits size iods (tag ∷ tags) = Fits size (iods tag) × AllFits size iods tags

-- The requests of the tags served in order, from one model to another, with these replies.
pub data Serves (iods : ℕ → Io) : Model → List ℕ → List (ℕ × Outcome) → Model → Type 0 where
  none_left : {m : Model} → Serves iods m [] [] m
  one :
      {m m₁ m₂ : Model} {tag : ℕ} {r : Outcome} {tags : List ℕ} {replies : List (ℕ × Outcome)}
      → perform (iods tag) m ≡ some (m₁, r)
      → Serves iods m₁ tags replies m₂
      → Serves iods m (tag ∷ tags) ((tag, r) ∷ replies) m₂

thaw_each-Serves :
    (iods : ℕ → Io) (tags : List ℕ) (s : Shared)
    → s.thaw_result ≡ none
    → IsValid s.model
    → AllFits (length s.model.committed) iods tags
    → (m : Model) × (replies : List (ℕ × Outcome)) × (thaw_each iods tags s
        ≡ some (record s { model = m; replies = s.replies ++ replies }))
      × Serves iods s.model tags replies m
      × IsValid m
unfolding thaw_each
thaw_each-Serves iods [] s go v fit = (
  s.model,
  [],
  ap (λ (l : List (ℕ × Outcome)). some (record s { replies = l })) (sym (append-nil s.replies)),
  none_left,
  v,
)
thaw_each-Serves iods (tag ∷ tags) s go v fit =
    let (m, r, run, valid, refusal, size) =
      perform-IsValid (iods tag) v (fit.0.inside) (fit.0.room) in
    let s1 : Shared = record s { model = m; replies = s.replies ++ (tag, r) ∷ [] } in
    let (m2, replies, rest, serves, valid2) =
      thaw_each-Serves iods tags s1 go valid (rw size fit.1) in
    let first : replied tag s (outcome s.thaw_result (iods tag) s.model) ≡ some s1 =
      ap (λ o. replied tag s (outcome o (iods tag) s.model)) go ∙ ap (replied tag s) run in
    (
      m2,
      (tag, r) ∷ replies,
      rw (thaw_each, first)
          (rest
            ∙ ap (λ (l : List (ℕ × Outcome)). some (record s { model = m2; replies = l }))
                (append_assoc s.replies ((tag, r) ∷ []) replies)),
      one run serves,
      valid2,
    )

-- After a control request to thaw that lets the requests go on, the event that it raises performs
-- every parked request, when each lies on the device and fits its buffer: without a panic, in the
-- order in which they were parked, each on the disk that those before it left, and each answered
-- with its own result under its tag; none is left parked, and the disk model stays valid.
pub on_event-Serves :
    (iods : ℕ → Io) (s : Shared)
    → IsValid s.model
    → AllFits (length s.model.committed) iods s.parked
    → (s' : Shared) × (m : Model) × (replies : List (ℕ × Outcome)) × (handle_ctl (thaw none) s
        ≡ some (s', thawing (length s.parked)))
      × (on_event iods s'
          ≡ some (record s {
            model = m;
            parked = [];
            thaw_result = none;
            event = false;
            replies = s.replies ++ replies;
          }))
      × Serves iods s.model s.parked replies m
      × IsValid m
unfolding on_event handle_ctl
on_event-Serves iods s v fit =
    let (m, replies, run, serves, valid) =
      thaw_each-Serves iods s.parked (record s { parked = []; thaw_result = none; event = false })
        refl v fit in
    (record s { thaw_result = none; event = true }, m, replies, refl, run, serves, valid)
