-- ===== src/Injector/Served.antt =====
-- The control server of ublkfault/src/main.rs over a whole connection.
use mathlib.Core.List.{append-nil, append_assoc}
use ublkera.Base.{
  ◌≡◌, refl, ap, sym, ◌∙◌, Bool, true, false, Option, some, List, [], ◌∷◌, ◌++◌, length, ok, err,
  Result-cases, inl, inr, if◌then◌else◌,
}
use ublkera.Fault.{Model, Policy}
use ublkera.Fault.View.{IsValid}
use ublkera.Fault.Seeded.{crash-survive}
use ublkera.Injector.{
  Shared, Command, show_status, set_policy, crash_now, crashed, status_is, thaw, thawing, Answer,
  handle_ctl, set_fields, policy_is, too_large,
}
use ublkera.Injector.Control.{
  Object, Response, answered, refused, CtlError, read_command, perform_command, answer, handle_line,
  serve_lines,
}

-- What a request leaves: a valid disk of the same size, and the parked requests.
pub record Keeps (s s' : Shared) : Type 0 where
  pub valid : IsValid s'.model
  pub same_size : length s'.model.committed ≡ length s.model.committed
  pub same_parked : s'.parked ≡ s.parked

policy-IsValid : {m : Model} (p : Policy) → IsValid m → IsValid (record m { policy = p })
policy-IsValid p v = record {
  block = v.block;
  size_fits = v.size_fits;
  cap_fits = v.cap_fits;
  fit = v.fit;
  counted = v.counted;
  capped = v.capped;
}

handle_ctl-Keeps :
    (c : Command) (s : Shared)
    → IsValid s.model
    → (s' : Shared) × (a : Answer) × (handle_ctl c s ≡ some (s', a)) × Keeps s s'
unfolding handle_ctl
handle_ctl-Keeps show_status s v = (
  s,
  status_is s.model.policy s.model.stats s.model.volatile_bytes (length s.parked),
  refl,
  record { valid = v; same_size = refl; same_parked = refl },
)
handle_ctl-Keeps (set_policy e f h) s v =
    let p : Policy = (set_fields e f h s.model.policy).0 in
    (
      record s { model = record s.model { policy = p } },
      if (set_fields e f h s.model.policy).1 then policy_is p else too_large,
      refl,
      record { valid = policy-IsValid p v; same_size = refl; same_parked = refl },
    )
handle_ctl-Keeps (crash_now mode) s v =
    let (m, r, kept, run, valid, size, empty, bytes) = crash-survive mode v in
    (
      record s { model = m },
      crashed r,
      rw (handle_ctl, run) refl,
      record { valid = valid; same_size = size; same_parked = refl },
    )
handle_ctl-Keeps (thaw result) s v = (
  record s { thaw_result = result; event = true },
  thawing (length s.parked),
  refl,
  record { valid = v; same_size = refl; same_parked = refl },
)

-- The answer to a line: that of its command, or the reason why there is none, and then nothing
-- changes.
pub data Answers (s : Shared) (line : Option Object) : Shared → Response → Type 0 where
  understood :
      {c : Command} {s' : Shared} {a : Answer}
      → read_command line ≡ ok c
      → handle_ctl c s ≡ some (s', a)
      → Answers s line s' (answered a)
  not_understood : {e : CtlError} → read_command line ≡ err e → Answers s line s (refused e)

-- A connection: each line is answered in turn, from the state that the one before it left, and the
-- answers that can be sent are sent, up to the first that cannot.
pub data Conversation : Shared → List (Option Object × Bool) → Shared → List Response → Type 0 where
  over : {s : Shared} → Conversation s [] s []
  hung_up :
      {s s' : Shared} {line : Option Object} {r : Response} {rest : List (Option Object × Bool)}
      → Answers s line s' r
      → Conversation s ((line, false) ∷ rest) s' []
  sent :
      {s s' t : Shared} {line : Option Object} {r : Response} {rest : List (Option Object × Bool)}
      {replies : List Response}
      → Answers s line s' r
      → Conversation s' rest t replies
      → Conversation s ((line, true) ∷ rest) t (r ∷ replies)

-- Every line is answered without a panic; one that is not understood changes nothing.
pub handle_line-Keeps :
    (line : Option Object) (s : Shared)
    → IsValid s.model
    → (s' : Shared) × (r : Response) × (handle_line line s ≡ some (s', r))
      × Keeps s s'
      × Answers s line s' r
unfolding handle_line
handle_line-Keeps line s v = elim (Result-cases (read_command line)) [
  | inl (c, read) ↦
      let (s', a, run, keeps) = handle_ctl-Keeps c s v in
      (
        s',
        answered a,
        ap (λ x. perform_command x s) read ∙ ap answer run,
        keeps,
        understood read run,
      )
  | inr (e, bad) ↦ (
    s,
    refused e,
    ap (λ x. perform_command x s) bad,
    record { valid = v; same_size = refl; same_parked = refl },
    not_understood bad,
  )
]

-- Whatever lines a client sends on a connection, understood or not, and wherever it stops reading,
-- the server does not panic. It answers every line in turn, with the answer of the line's command or
-- the reason why it is none, and sends each answer behind what it had sent, up to the first that
-- cannot be sent, where it stops. The disk model stays valid and of the same size, and the parked
-- requests stay parked.
pub serve_lines-Keeps :
    (lines : List (Option Object × Bool)) (s : Shared) (before : List Response)
    → IsValid s.model
    → (s' : Shared) × (replies : List Response) × (serve_lines lines s before
        ≡ some (s', before ++ replies))
      × Conversation s lines s' replies
      × Keeps s s'
unfolding serve_lines
serve_lines-Keeps [] s before v = (
  s,
  [],
  ap (λ l. some (s, l)) (sym (append-nil before)),
  over,
  record { valid = v; same_size = refl; same_parked = refl },
)
serve_lines-Keeps ((line, false) ∷ rest) s before v =
    let (s', r, run, keeps, reply) = handle_line-Keeps line s v in
    (
      s',
      [],
      rw (serve_lines, run) (ap (λ l. some (s', l)) (sym (append-nil before))),
      hung_up reply,
      keeps,
    )
serve_lines-Keeps ((line, true) ∷ rest) s before v =
    let (s', r, run, keeps, reply) = handle_line-Keeps line s v in
    let (s2, replies, more, told, keeps2) =
      serve_lines-Keeps rest s' (before ++ r ∷ []) keeps.valid in
    (
      s2,
      r ∷ replies,
      rw (serve_lines, run) (more ∙ ap (λ l. some (s2, l)) (append_assoc before (r ∷ []) replies)),
      sent reply told,
      record {
        valid = keeps2.valid;
        same_size = keeps2.same_size ∙ keeps.same_size;
        same_parked = keeps2.same_parked ∙ keeps.same_parked;
      },
    )
