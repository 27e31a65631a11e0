-- ===== src/Injector/Transfers.antt =====
-- Transfers to a device of ublkfault/src/main.rs that injects no fault, request by request.
use ublkera.Base.{
  ℕ, ◌+◌, ◌-◌, ◌*◌, ◌^◌, ◌≤◌, ◌<◌, ◌≡◌, ap, ap₂, sym, ◌∙◌, some, List, [], ◌∷◌, ◌++◌, length, take,
  drop, replicate, get_or, slice, overwrite, arith, length-take_of_le, length-drop, length-append,
  length-replicate, u64, ltb, ltb→lt, not_ltb→le, Bool-cases, inl, inr, if◌then◌else◌,
}
use ublkera.Fault.{Model}
use ublkera.Fault.Bytes.{
  shadow, get_or-ext, get_or-overwrite, length-overwrite, get_or-slice, length-slice, get_or-take,
  get_or-drop, get_or-append,
}
use ublkera.Injector.{read_op, write_op, done, serve_op, perform, Shared}
use ublkera.Injector.Disk.{contents, Calm, Leaves}
use ublkera.Injector.Serving.{serve_op-write, serve_op-read, serve_op-flush, on_request-performs}
use ublkera.Injector.Kernel.{issue, issue-replied, write_io, read_io, flush_io}

-- A device that served something, seen from where it started.
abbrev pub LeavesShared : Shared → List ℕ → Shared → Type 0
LeavesShared s bytes s' = Leaves s.model bytes s'.model

after_hit :
    {m m₁ m' : Model} {bytes bytes' : List ℕ}
    → length m₁.committed ≡ length m.committed
    → bytes' ≡ bytes
    → Leaves m₁ bytes' m'
    → Leaves m bytes m'
after_hit size same l = record {
  calm = l.calm;
  same_size = l.same_size ∙ size;
  shows = l.shows ∙ same;
}

pub u64-sectors : (n size : ℕ) → n * 512 ≤ size → size < 2 ^ 63 → u64 (n * 512) ≡ n * 512
u64-sectors n size h k = omega (arith, h, k)

pub issue-write :
    (sector n : ℕ) (bytes : List ℕ) (s : Shared)
    → Calm s.model
    → length bytes ≡ n * 512
    → sector * 512 + n * 512 ≤ length s.model.committed
    → (s' : Shared) × (issue (n * 512) (write_io sector n bytes) s ≡ some (s', bytes))
      × LeavesShared s (overwrite (sector * 512) bytes (contents s.model)) s'
unfolding perform
issue-write sector n bytes s c size fits =
    let (m, started, calm, same, kept) =
      on_request-performs (λ tag. write_io sector n bytes) 0 s c in
    let (m', served, leaves) =
      serve_op-write (sector * 512) bytes m calm (omega (arith, size, fits, kept)) in
    let off : u64 (sector * 512) ≡ sector * 512 =
      u64-sectors sector (length s.model.committed) (omega (arith, fits)) c.valid.size_fits in
    let len : u64 (n * 512) ≡ length bytes =
      u64-sectors n (length s.model.committed) (omega (arith, fits)) c.valid.size_fits ∙ sym size in
    (
      record s { model = m'; replies = s.replies ++ (0, done (n * 512) bytes) ∷ [] },
      issue-replied (n * 512) (write_io sector n bytes) bytes s m m' started (
          ap₂ (λ x y. serve_op write_op x y bytes m) off len
          ∙ (served ∙ ap (λ k. some (m', done k bytes)) size)),
      after_hit kept (ap (overwrite (sector * 512) bytes) same) leaves,
    )

pub issue-read :
    (sector n : ℕ) (s : Shared)
    → Calm s.model
    → sector * 512 + n * 512 ≤ length s.model.committed
    → (s' : Shared) × (issue (n * 512) (read_io sector n) s
        ≡ some (s', slice (sector * 512) (sector * 512 + n * 512) (contents s.model)))
      × LeavesShared s (contents s.model) s'
unfolding perform
issue-read sector n s c fits =
    let (m, started, calm, same, kept) = on_request-performs (λ tag. read_io sector n) 0 s c in
    let buf : List ℕ = replicate (n * 512) 0 in
    let (m', served, leaves) =
      serve_op-read (sector * 512) (n * 512) buf m calm (length-replicate {A = ℕ} (n * 512) 0)
        (omega (arith, fits, kept)) in
    let off : u64 (sector * 512) ≡ sector * 512 =
      u64-sectors sector (length s.model.committed) (omega (arith, fits)) c.valid.size_fits in
    let len : u64 (n * 512) ≡ n * 512 =
      u64-sectors n (length s.model.committed) (omega (arith, fits)) c.valid.size_fits in
    let got : List ℕ = slice (sector * 512) (sector * 512 + n * 512) (contents s.model) in
    (
      record s { model = m'; replies = s.replies ++ (0, done (n * 512) got) ∷ [] },
      issue-replied (n * 512) (read_io sector n) got s m m' started (
          ap₂ (λ x y. serve_op read_op x y buf m) off len
          ∙ (served
              ∙ ap
                  (λ l. some (m', done (n * 512) (slice (sector * 512) (sector * 512 + n * 512) l)))
                  same)),
      after_hit kept same leaves,
    )

pub issue-flush :
    (s : Shared)
    → Calm s.model
    → (s' : Shared) × (issue 0 flush_io s ≡ some (s', []))
      × LeavesShared s (contents s.model) s'
      × (s'.model.volatile ≡ [])
unfolding perform
issue-flush s c =
    let (m, started, calm, same, kept) = on_request-performs (λ tag. flush_io) 0 s c in
    let (m', served, leaves, empty) = serve_op-flush 0 0 [] m calm in
    (
      record s { model = m'; replies = s.replies ++ (0, done 0 []) ∷ [] },
      issue-replied 0 flush_io [] s m m' started served,
      after_hit kept same leaves,
      empty,
    )

shadow-parts :
    (off n : ℕ) (bytes : List ℕ) (b base : ℕ)
    → n ≤ length bytes
    → shadow (off + n) (drop n bytes) b (shadow off (take n bytes) b base) ≡ shadow off bytes b base
shadow-parts off n bytes b base part = grind (
  arith,
  length-take_of_le n bytes part,
  length-drop n bytes,
  get_or-take n (b - off) bytes,
  get_or-drop n (b - (off + n)) bytes,
)

-- Two parts of a write are the whole write.
pub overwrite-parts :
    (off n : ℕ) (bytes xs : List ℕ)
    → n ≤ length bytes
    → off + length bytes ≤ length xs
    → overwrite (off + n) (drop n bytes) (overwrite off (take n bytes) xs) ≡ overwrite off bytes xs
overwrite-parts off n bytes xs part fits =
    let front = length-take_of_le n bytes part in
    let back = length-drop n bytes in
    let once : off + length (take n bytes) ≤ length xs = omega (arith, front, part, fits) in
    let size = length-overwrite off (take n bytes) xs once in
    let twice : off + n + length (drop n bytes) ≤ length (overwrite off (take n bytes) xs) =
      omega (arith, back, size, part, fits) in
    let left = length-overwrite (off + n) (drop n bytes) (overwrite off (take n bytes) xs) twice in
    let right = length-overwrite off bytes xs fits in
    get_or-ext (overwrite (off + n) (drop n bytes) (overwrite off (take n bytes) xs))
      (overwrite off bytes xs) (omega (arith, left, right, size))
      (λ b h.
        get_or-overwrite (off + n) (drop n bytes) (overwrite off (take n bytes) xs) b twice
        ∙ (ap (shadow (off + n) (drop n bytes) b) (get_or-overwrite off (take n bytes) xs b once)
            ∙ (shadow-parts off n bytes b (get_or xs b 0) part
                ∙ sym (get_or-overwrite off bytes xs b fits))))

parts-at :
    (lo mid hi : ℕ) (xs : List ℕ) (b : ℕ)
    → b < hi - lo
    → length (slice lo mid xs) ≡ mid - lo
    → lo ≤ mid
    → (if ltb b (length (slice lo mid xs))
        then get_or (slice lo mid xs) b 0
        else get_or (slice mid hi xs) (b - length (slice lo mid xs)) 0)
      ≡ get_or xs (lo + b) 0
parts-at lo mid hi xs b h front p = elim (Bool-cases (ltb b (length (slice lo mid xs)))) [
  | inl first ↦
      rw first
        (get_or-slice lo mid b xs (omega (arith, front, ltb→lt b (length (slice lo mid xs)) first)))
  | inr second ↦
      let over : length (slice lo mid xs) ≤ b = not_ltb→le b (length (slice lo mid xs)) second in
      let home : mid + (b - length (slice lo mid xs)) ≡ lo + b = omega (arith, front, over, p) in
      rw second (
        get_or-slice mid hi (b - length (slice lo mid xs)) xs (omega (arith, front, over, p, h))
        ∙ ap (λ i. get_or xs i 0) home)
]

-- Two slices that meet are one.
pub slice-parts :
    (lo mid hi : ℕ) (xs : List ℕ)
    → lo ≤ mid
    → mid ≤ hi
    → hi ≤ length xs
    → slice lo mid xs ++ slice mid hi xs ≡ slice lo hi xs
slice-parts lo mid hi xs p q fits =
    let front = length-slice lo mid xs (omega (arith, q, fits)) in
    let back = length-slice mid hi xs fits in
    let all = length-slice lo hi xs fits in
    let both = length-append (slice lo mid xs) (slice mid hi xs) in
    get_or-ext (slice lo mid xs ++ slice mid hi xs) (slice lo hi xs)
      (omega (arith, front, back, all, both, p, q))
      (λ b h.
        get_or-append (slice lo mid xs) (slice mid hi xs) b
        ∙ (parts-at lo mid hi xs b (omega (arith, h, both, front, back, p, q)) front p
            ∙ sym (get_or-slice lo hi b xs (omega (arith, h, both, front, back, p, q)))))
