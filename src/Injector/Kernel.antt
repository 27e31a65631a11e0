-- ===== src/Injector/Kernel.antt =====
-- What stands between a file of the device and ublkfault/src/main.rs: the kernel, which cuts each
-- transfer into requests. It is a parameter, and `IsKernel` says what is documented of it.
use ublkera.Base.{
  ℕ, ◌+◌, ◌*◌, ◌/◌, ◌≡◌, refl, ap, ◌∙◌, Bool, true, Option, some, none, List, [], ◌∷◌, ◌++◌, length,
  take, drop, replicate, ◌==◌, if◌then◌else◌, eq→==,
}
use ublkera.Scenario.Disk.{Multiple}
use ublkera.Fault.{Model}
use ublkera.Injector.{
  Io, read_op, write_op, flush_op, Outcome, done, perform, Shared, on_request, replied,
}

-- The buffer of the one new reply, if it is for all of the bytes.
abbrev pub finished : (len : ℕ) → List (ℕ × Outcome) → Option (List ℕ)
finished len ((tag, done n buf) ∷ []) = if n == len then some buf else none
finished len replies = none

abbrev pub with_state : Shared → Option (List ℕ) → Option (Shared × List ℕ)
with_state s none = none
with_state s (some buf) = some (s, buf)

abbrev pub await : (len old : ℕ) → Option Shared → Option (Shared × List ℕ)
await len old none = none
await len old (some s) = with_state s (finished len (drop old s.replies))

-- A request of the kernel that the device completes: the state, and the buffer.
unfoldable pub issue : (len : ℕ) → Io → Shared → Option (Shared × List ℕ)
issue len io s = await len (length s.replies) (on_request (λ tag. io) 0 s)

abbrev pub write_io : (sector n : ℕ) → List ℕ → Io
write_io sector n bytes = record {
  op = write_op;
  start_sector = sector;
  nr_sectors = n;
  buf = bytes;
}

abbrev pub read_io : (sector n : ℕ) → Io
read_io sector n = record {
  op = read_op;
  start_sector = sector;
  nr_sectors = n;
  buf = replicate (n * 512) 0;
}

abbrev pub flush_io : Io
flush_io = record { op = flush_op; start_sector = 0; nr_sectors = 0; buf = [] }

-- A write in requests of so many sectors, one after the other.
unfoldable pub write_pieces : List ℕ → (sector : ℕ) → List ℕ → Shared → Option Shared
write_pieces [] sector bytes s = some s
write_pieces (n ∷ ns) sector bytes s =
    elim (issue (n * 512) (write_io sector n (take (n * 512) bytes)) s) [
      | none ↦ none
      | some r ↦ write_pieces ns (sector + n) (drop (n * 512) bytes) r.0
    ]

abbrev pub more_bytes : List ℕ → Option (Shared × List ℕ) → Option (Shared × List ℕ)
more_bytes bytes none = none
more_bytes bytes (some (s, rest)) = some (s, bytes ++ rest)

unfoldable pub read_pieces : List ℕ → (sector : ℕ) → Shared → Option (Shared × List ℕ)
read_pieces [] sector s = some (s, [])
read_pieces (n ∷ ns) sector s = elim (issue (n * 512) (read_io sector n) s) [
  | none ↦ none
  | some r ↦ more_bytes r.1 (read_pieces ns (sector + n) r.0)
]

abbrev pub total : List ℕ → ℕ
total [] = 0
total (n ∷ ns) = n + total ns

-- What the steps of a scenario call on the device file, and the clock and the shell.
pub record Kernel : Type 0 where
  pub split : (sectors : ℕ) → List ℕ
  pub write_all_at : (off : ℕ) → List ℕ → Shared → Shared × Bool
  pub read_exact_at : (off len : ℕ) → Shared → Shared × Option (List ℕ)
  pub sync_all : Shared → Shared × Bool
  pub wait : ℕ → Shared → Shared
  pub sh : List ℕ → Shared → Shared × Bool

-- A transfer of whole logical blocks is cut into requests that together cover it, and succeeds when
-- each of them does; a sync is a flush.
pub record IsKernel (lbs : ℕ) (k : Kernel) : Type 0 where
  pub split_total : (n : ℕ) → total (k.split n) ≡ n
  pub writes :
      (off : ℕ) (bytes : List ℕ) (s s' : Shared)
      → Multiple lbs off
      → Multiple lbs (length bytes)
      → write_pieces (k.split (length bytes / 512)) (off / 512) bytes s ≡ some s'
      → k.write_all_at off bytes s ≡ (s', true)
  pub reads :
      (off len : ℕ) (bytes : List ℕ) (s s' : Shared)
      → Multiple lbs off
      → Multiple lbs len
      → read_pieces (k.split (len / 512)) (off / 512) s ≡ some (s', bytes)
      → k.read_exact_at off len s ≡ (s', some bytes)
  pub syncs :
      (s s' : Shared) (buf : List ℕ)
      → issue 0 flush_io s ≡ some (s', buf)
      → k.sync_all s ≡ (s', true)

pub drop-replies :
    (xs : List (ℕ × Outcome)) (r : ℕ × Outcome) → drop (length xs) (xs ++ r ∷ []) ≡ r ∷ []
drop-replies [] r = refl
drop-replies (x ∷ xs) r = drop-replies xs r

-- A request that a calm device serves.
pub issue-replied :
    (len : ℕ) (io : Io) (buf : List ℕ) (s : Shared) (m m' : Model)
    → on_request (λ tag. io) 0 s ≡ replied 0 s (perform io m)
    → perform io m ≡ some (m', done len buf)
    → issue len io s
      ≡ some (record s { model = m'; replies = s.replies ++ (0, done len buf) ∷ [] }, buf)
unfolding issue
issue-replied len io buf s m m' started served =
    let s' : Shared = record s { model = m'; replies = s.replies ++ (0, done len buf) ∷ [] } in
    ap (await len (length s.replies)) (started ∙ ap (replied 0 s) served)
    ∙ (ap (λ l. with_state s' (finished len l)) (drop-replies s.replies (0, done len buf))
        ∙ ap (λ (b : Bool). with_state s' (if b then some buf else none)) (eq→== len len refl))
