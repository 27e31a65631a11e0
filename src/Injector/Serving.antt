-- ===== src/Injector/Serving.antt =====
-- The requests of ublkfault/src/main.rs on a calm disk model, one by one.
use ublkera.Base.{
  ℕ, ◌+◌, ◌-◌, ◌≤◌, ◌≡◌, refl, ap, sym, ◌∙◌, true, false, some, List, [], length, slice, overwrite,
  leb, arith, Bool-cases, inl, inr,
}
use ublkera.Fault.{Model}
use ublkera.Fault.Rng.{hit}
use ublkera.Fault.Bytes.{get_or-ext, get_or-slice, length-slice}
use ublkera.Fault.Contract.{hit-pos, same-IsValid, write-Wrote}
use ublkera.Fault.Reads.{read-view}
use ublkera.Fault.Flushed.{flush-view}
use ublkera.Injector.{
  Io, read_op, write_op, flush_op, done, serve_op, perform, Shared, on_request, replied,
}
use ublkera.Injector.Disk.{
  contents, Calm, length-contents, get_or-contents, contents-kept, overwrite-all, le→leb, take-all,
  kept-Calm, Leaves, contents-Wrote,
}

pub serve_op-write :
    (off : ℕ) (bytes : List ℕ) (m : Model)
    → Calm m
    → off + length bytes ≤ length m.committed
    → (m' : Model) × (serve_op write_op off (length bytes) bytes m
        ≡ some (m', done (length bytes) bytes))
      × Leaves m (overwrite off bytes (contents m)) m'
unfolding serve_op
serve_op-write off bytes m c fits =
    let room : leb (length bytes) (length bytes) ≡ true =
      le→leb (length bytes) (length bytes) (omega arith) in
    let (m', r, run, w) = write-Wrote off bytes c.valid fits in
    elim w.result [
      | inr (failed, chance, part) ↦ absurd (omega (arith, chance, c.no_error))
      | inl (written, reached) ↦ (
        m',
        rw (serve_op, room, take-all bytes, run, written) refl,
        record {
          calm = kept-Calm m m' c w.valid w.same_policy;
          same_size = w.same_size;
          shows =
              contents-Wrote off bytes w.reached m m' c.valid w.valid w.same_size fits w.shows
                reached;
        },
      )
    ]

pub serve_op-read :
    (off len : ℕ) (buf : List ℕ) (m : Model)
    → Calm m
    → length buf ≡ len
    → off + len ≤ length m.committed
    → (m' : Model) × (serve_op read_op off len buf m
        ≡ some (m', done len (slice off (off + len) (contents m))))
      × Leaves m (contents m) m'
unfolding serve_op
serve_op-read off len buf m c room fits =
    let ready : leb len (length buf) ≡ true = le→leb len (length buf) (omega (arith, room)) in
    let (m', out, run, size, bytes, valid, same, kept, policy, counter) =
      read-view off len c.valid fits in
    let all = length-contents m c.valid in
    let part : length (slice off (off + len) (contents m)) ≡ off + len - off =
      length-slice off (off + len) (contents m) (omega (arith, all, fits)) in
    let got : out ≡ slice off (off + len) (contents m) =
      get_or-ext out (slice off (off + len) (contents m)) (omega (arith, size, part)) (λ b h.
        bytes b (omega (arith, h, size))
        ∙ (sym (get_or-contents m (off + b) c.valid (omega (arith, h, size, fits)))
            ∙ sym (get_or-slice off (off + len) b (contents m) (omega (arith, h, size))))) in
    let whole : overwrite 0 out buf ≡ slice off (off + len) (contents m) =
      overwrite-all out buf (omega (arith, room, size)) ∙ got in
    (
      m',
      rw (serve_op, ready, run) (ap (λ l. some (m', done len l)) whole),
      record {
        calm = kept-Calm m m' c valid policy;
        same_size = kept;
        shows = contents-kept m m' c.valid valid kept same;
      },
    )

pub serve_op-flush :
    (off len : ℕ) (buf : List ℕ) (m : Model)
    → Calm m
    → (m' : Model) × (serve_op flush_op off len buf m ≡ some (m', done 0 buf))
      × Leaves m (contents m) m'
      × (m'.volatile ≡ [])
unfolding serve_op
serve_op-flush off len buf m c =
    let (m', run, valid, same, ends, kept, policy) = flush-view c.valid in
    elim ends [
      | inr (lie, old, disk) ↦ absurd (omega (arith, lie, c.no_lie))
      | inl (empty, durable) ↦ (
        m',
        rw (serve_op, run) refl,
        record {
          calm = kept-Calm m m' c valid policy;
          same_size = kept;
          shows = contents-kept m m' c.valid valid kept same;
        },
        empty,
      )
    ]

pub no_hit : (pm s : ℕ) → pm ≡ 0 → (hit pm s).1 ≡ false
no_hit pm s e = elim (Bool-cases (hit pm s).1) [
  | inl hits ↦ absurd (omega (arith, e, hit-pos pm s hits))
  | inr fine ↦ fine
]

-- A request on a calm model is not parked.
pub on_request-performs :
    (iods : ℕ → Io) (tag : ℕ) (s : Shared)
    → Calm s.model
    → (m : Model) × (on_request iods tag s ≡ replied tag s (perform (iods tag) m))
      × Calm m
      × (contents m ≡ contents s.model)
      × (length m.committed ≡ length s.model.committed)
unfolding on_request
on_request-performs iods tag s c =
    let fine : (hit s.model.policy.hang_pm s.model.rng).1 ≡ false =
      no_hit s.model.policy.hang_pm s.model.rng c.no_hang in
    (
      record s.model { rng = (hit s.model.policy.hang_pm s.model.rng).0 },
      rw (on_request, fine) refl,
      record {
        valid = same-IsValid (hit s.model.policy.hang_pm s.model.rng).0 s.model.stats c.valid;
        no_error = c.no_error;
        no_lie = c.no_lie;
        no_hang = c.no_hang;
      },
      refl,
      refl,
    )
