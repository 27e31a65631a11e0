-- ===== src/Injector/Answers.antt =====
-- The answers of ublkfault/src/main.rs: requests on the device are served without a panic, and a
-- thaw answers every parked request, in order.
use mathlib.Core.List.{append-nil, append_assoc}
use ublkera.Base.{
  ℕ, ◌+◌, ◌≤◌, ◌≡◌, refl, ap, ◌∙◌, sym, true, false, some, List, [], ◌∷◌, ◌++◌, map, leb, length,
  take, overwrite, arith, length-take_of_le, Option-cases, inl, inr,
}
use ublkera.Fault.{Model}
use ublkera.Fault.View.{IsValid}
use ublkera.Fault.Reads.{read-view}
use ublkera.Fault.Contract.{write-Wrote, discard-view}
use ublkera.Fault.Flushed.{flush-view}
use ublkera.Injector.{
  Op, read_op, write_op, flush_op, discard_op, write_zeroes_op, other_op, Io, off_of, len_of,
  Outcome, done, errno, eio, einval, perform, serve_op, Shared, thaw_each, on_event, handle_ctl,
  thaw, thawing,
}

le→leb : (a b : ℕ) → a ≤ b → leb a b ≡ true
le→leb a b h = ground arith

-- What serving a request comes to.
abbrev Serves : Op → (off len : ℕ) → List ℕ → Model → Type 0
Serves op off len buf m =
    (m' : Model) × (r : Outcome) × (serve_op op off len buf m ≡ some (m', r))
    × IsValid m'
    × (r ≡ errno einval → op ≡ other_op)
    × (length m'.committed ≡ length m.committed)

serve_op-IsValid :
    (op : Op) (off len : ℕ) (buf : List ℕ) {m : Model}
    → IsValid m
    → off + len ≤ length m.committed
    → len ≤ length buf
    → Serves op off len buf m
unfolding serve_op
serve_op-IsValid read_op off len buf v inside room =
    let (m', out, run, size, bytes, valid, same, kept, policy, counter) =
      read-view off len v inside in
    (
      m',
      done len (overwrite 0 out buf),
      rw (le→leb len (length buf) room, run) refl,
      valid,
      λ e. cc,
      kept,
    )
serve_op-IsValid write_op off len buf v inside room =
    let (m', r, run, w) =
      write-Wrote off (take len buf) v (omega (arith, length-take_of_le len buf room)) in
    elim (Option-cases r) [
      | inl failed ↦ (
        m',
        errno eio,
        rw (le→leb len (length buf) room, run, failed) refl,
        w.valid,
        λ e. cc,
        w.same_size,
      )
      | inr (n, written) ↦ (
        m',
        done n buf,
        rw (le→leb len (length buf) room, run, written) refl,
        w.valid,
        λ e. cc,
        w.same_size,
      )
    ]
serve_op-IsValid flush_op off len buf v inside room =
    let (m', run, valid, same, ends, kept, _) = flush-view v in
    (m', done 0 buf, rw run refl, valid, λ e. cc, kept)
serve_op-IsValid discard_op off len buf v inside room =
    let (m', run, valid, shows, kept) = discard-view off len v inside in
    (m', done 0 buf, rw run refl, valid, λ e. cc, kept)
serve_op-IsValid write_zeroes_op off len buf v inside room =
    let (m', run, valid, shows, kept) = discard-view off len v inside in
    (m', done 0 buf, rw run refl, valid, λ e. cc, kept)
serve_op-IsValid other_op off len buf {m} v inside room =
    (m, errno einval, refl, v, λ e. refl, refl)

-- Whatever a request that lies on the device and fits its buffer asks for, on a valid disk model
-- it is served without a panic and the model stays valid, with its size; only an operation that is
-- not supported is refused as such.
pub perform-IsValid :
    (io : Io) {m : Model}
    → IsValid m
    → off_of io + len_of io ≤ length m.committed
    → len_of io ≤ length io.buf
    → (m' : Model) × (r : Outcome) × (perform io m ≡ some (m', r))
      × IsValid m'
      × (r ≡ errno einval → io.op ≡ other_op)
      × (length m'.committed ≡ length m.committed)
unfolding perform
perform-IsValid io v inside room =
    serve_op-IsValid io.op (off_of io) (len_of io) io.buf v inside room

thaw_each-fails :
    (iods : ℕ → Io) (e : ℕ) (tags : List ℕ) (s : Shared)
    → thaw_each iods tags (record s { thaw_result = some e })
      ≡ some (record s {
        thaw_result = some e;
        replies = s.replies ++ map (λ tag. (tag, errno e)) tags;
      })
unfolding thaw_each
thaw_each-fails iods e [] s =
    ap (λ (l : List (ℕ × Outcome)). some (record s { thaw_result = some e; replies = l }))
      (sym (append-nil s.replies))
thaw_each-fails iods e (tag ∷ tags) s =
    let one : List (ℕ × Outcome) = (tag, errno e) ∷ [] in
    let rest : List (ℕ × Outcome) = map (λ t. (t, errno e)) tags in
    thaw_each-fails iods e tags (record s { replies = s.replies ++ one })
    ∙ ap (λ (l : List (ℕ × Outcome)). some (record s { thaw_result = some e; replies = l }))
        (append_assoc s.replies one rest)

-- After a control request to thaw with an error, the event that it raises answers every parked
-- request with that error, in the order in which they were parked, and leaves none parked and the
-- disk model as it was.
pub on_event-fails :
    (iods : ℕ → Io) (e : ℕ) (s : Shared)
    → (s' : Shared) × (handle_ctl (thaw (some e)) s ≡ some (s', thawing (length s.parked)))
      × (s'.event ≡ true)
      × (on_event iods s'
          ≡ some (record s {
            parked = [];
            thaw_result = some e;
            event = false;
            replies = s.replies ++ map (λ tag. (tag, errno e)) s.parked;
          }))
unfolding on_event handle_ctl
on_event-fails iods e s = (
  record s { thaw_result = some e; event = true },
  refl,
  refl,
  thaw_each-fails iods e s.parked (record s { parked = []; event = false }),
)
