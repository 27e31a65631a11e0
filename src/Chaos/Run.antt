-- ===== src/Chaos/Run.antt =====
-- src/bin/chaos.rs: `setup`, the choice of the operations, and `run`.
use ublkera.Base.{
  ℕ, ◌+◌, ◌*◌, ◌%◌, ◌^◌, false, not, none, List, [], ◌∷◌, replicate, get_or, list_eq, leb, ◌==◌,
  if◌then◌else◌, Result, ok, ◌>>=◌, ◌>>◌, ensure,
}
use ublkera.Meta.Save.{Disk}
use ublkera.Ctl.{Luck, shutdown}
use ublkera.Ctl.Session.{daemon}
use ublkera.Chaos.{
  Harness, Failure, bad_size, differs, flagged_unclean, request, start_daemon, attach, detach,
}
use ublkera.Chaos.Rng.{below}
use ublkera.Chaos.Ops.{
  op_write_burst, op_checkpoint, op_backup_verify, op_reattach, op_crash, op_lose_meta,
}
use ublkera.Chaos.Flight.{Timing, op_crash_inflight}

-- The numbers of the command line; zero asks for a random one.
pub record Cli : Type 0 where
  pub size : ℕ
  pub granularity : ℕ

-- The granularity of `setup`.
unfoldable pub pick_gran : Cli → ℕ → ℕ × ℕ
unfolding below
pick_gran cli rng =
    if cli.granularity == 0
    then (let (rng', i) = below 4 rng in (get_or (4096 ∷ 16384 ∷ 65536 ∷ 262144 ∷ []) i 0, rng'))
    else (cli.granularity, rng)

-- The size of `setup`.
unfoldable pub pick_size : Cli → ℕ → ℕ × ℕ
unfolding below
pick_size cli rng =
    if cli.size == 0
    then (let (rng', i) = below 16 rng in (32 * 2 ^ 20 + 4096 * i, rng'))
    else (cli.size, rng)

-- A harness that has not started its daemon: everything is zero.
abbrev pub blank : (backing meta size gran : ℕ) → Disk → Harness
blank backing meta size gran d = record {
  backing = backing;
  meta = meta;
  size = size;
  gran = gran;
  dev_id = none;
  generation = [];
  expected = replicate size 0;
  shadow = replicate size 0;
  cursor = none;
  alive = false;
  daemon = daemon [] [] d;
  image = replicate size 0;
}

-- `setup`, with the paths and the files of the directory; the last number drawn is for the queues.
unfoldable pub setup : Cli → (backing meta : ℕ) → Disk → ℕ → Result Failure (Harness × ℕ)
unfolding pick_gran pick_size below
setup cli backing meta d rng =
    let (gran, rng1) = pick_gran cli rng in
    let (size, rng2) = pick_size cli rng1 in
    ensure (size % 4096 == 0) bad_size >> ok (blank backing meta size gran d, (below 3 rng2).0)

pub data Op : Type 0 where
  write_burst backup_verify checkpoint reattach crash crash_inflight lose_meta : Op

-- The operation that a number below 100 stands for.
unfoldable pub choose : ℕ → Op
choose x =
    if leb x 44
    then write_burst
    else if leb x 59
    then backup_verify
    else if leb x 69
    then checkpoint
    else if leb x 79
    then reattach
    else if leb x 87
    then crash
    else if leb x 95
    then crash_inflight
    else lose_meta

-- What the outside answers while an operation runs, and when.
pub record Turn : Type 0 where
  pub luck : Luck
  pub time : Timing

abbrev pub and_rng : ℕ → Result Failure Harness → Result Failure (Harness × ℕ)
and_rng rng r = r >>= λ h. ok (h, rng)

unfoldable pub step : Op → Turn → ℕ → Harness → Result Failure (Harness × ℕ)
unfolding op_write_burst op_checkpoint op_backup_verify op_reattach op_crash op_crash_inflight
    op_lose_meta
step write_burst t rng h = op_write_burst rng h
step backup_verify t rng h = and_rng rng (op_backup_verify t.luck h)
step checkpoint t rng h = op_checkpoint t.luck h >>= λ r. ok (r.0, rng)
step reattach t rng h = and_rng rng (op_reattach t.luck h)
step crash t rng h = and_rng rng (op_crash t.luck h)
step crash_inflight t rng h = op_crash_inflight t.luck t.time rng h
step lose_meta t rng h = and_rng rng (op_lose_meta t.luck h)

-- The loop of `run`, a turn for each operation.
unfoldable pub rounds : List Turn → ℕ → Harness → Result Failure (Harness × ℕ)
unfolding step choose below
rounds [] rng h = ok (h, rng)
rounds (t ∷ ts) rng h = do
  r ← step (choose (below 100 rng).1) t (below 100 rng).0 h
  rounds ts r.1 r.0

-- The end of `run`.
unfoldable pub wind_down : Luck → Harness → Result Failure Harness
unfolding op_backup_verify detach attach request
wind_down k h = do
  h1 ← op_backup_verify k h
  h2 ← detach k h1
  ensure (list_eq h2.image h2.expected) differs
  a ← attach k h2
  ensure (not a.1.recovered_unclean) flagged_unclean
  h3 ← detach k a.0
  r ← request k shutdown h3
  ok (record r.0 { alive = false })

-- `run`
unfoldable pub run :
    (first : Luck) → List Turn → (last : Luck) → ℕ → Harness → Result Failure Harness
unfolding attach start_daemon rounds wind_down
run first turns last rng h = do
  a ← attach first (start_daemon h)
  r ← rounds turns rng a.0
  wind_down last r.0
