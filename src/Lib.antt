-- ===== src/Lib.antt =====
-- ublkera tracks the changed blocks of a ublk device for incremental backups, ublkfault is the disk
-- with injected faults that it is tested on, and chaos is the random end-to-end test of the daemon.
--
-- * Era models the tracker of `src/era.rs`: `EraState` with one stamp per chunk, `new`,
--   `mark_write`, `checkpoint`, `written_chunks`, `ranges_since` and `mark_all_dirty`. The atomics
--   are numbers. `mark_write` takes a list that tells, for each round of its loop, how many
--   checkpoints slip in, so its recursion ends with the list. The eight random bytes of
--   `EraState::new` are an argument, and the device that gives them is taken to be readable.
-- * Era/Race models the same operations as threads that share the atomics, one access per step. The
--   accesses of one word are totally ordered, and the steps interleave as one sequence.
-- * Crc models `crc32`, and Meta the bytes of `save`, the tests of `load`, and the files around
--   `save`, by the numbers of their paths. `with_extension` is a function of the disk. `save` is its
--   four file operations, and which files are on the medium is kept beside what readers see, so that
--   a power loss may take what was not synced. A rename takes effect at once or not at all. The disk
--   says under which paths a save meets an error, in which operation, and what it had written.
-- * Manager models `src/manager.rs`: the registry, the attach and detach of devices with the
--   metadata files, checkpoints and dumps. How libublk and the file system answer is an argument of
--   the operations. The registry lists devices in some order, as a hash map does. The texts of
--   errors are not modelled, and a path is a number.
-- * Ctl models the requests of `src/ctl.rs`, each with the method of the manager that answers it,
--   and the loop that serves them one at a time, each with what the outside answers while it runs.
-- * Target models the turns of one IO in `handle_io_cmd` of `src/target.rs`, with a log of what is
--   handed to the ring and the driver and of the tracker at each reply, and Target/Setup what
--   comes before them: `backing_size`, `backing_supports_discard` and `init_tgt`. The answers of the
--   system on the backing and the logarithm of the ilog crate are arguments.
-- * Fault models the disk of `ublkfault/src/model.rs`: its generator, the volatile cache, reads,
--   writes, flushes, discards and crashes. An operation gives `none` where a slice index panics.
-- * Injector models the device layer over it in `ublkfault/src/main.rs`, for one queue: requests, the
--   ones that are parked and thawed, and the control requests. Injector/Control has these requests as
--   JSON objects, from the command that sends one to the server that reads it, Injector/Params what
--   the driver is told of the device, and Injector/Cli the sizes and the scenario files of the command
--   line. Injector/Kernel says what is assumed of the kernel between a file of the device and the
--   device, and Injector/Scenarios, Injector/Passes and Injector/Errors run scenarios against the device.
-- * Cli models the commands of `src/main.rs` and the requests that they become. The options that only
--   reach libublk are left out, and `canonicalize` is an argument.
-- * Chaos models the test of `src/bin/chaos.rs` on top of Ctl: the generator, the harness with what
--   it drives (the daemon with its files, and the backing file), and the operations. Chaos/Flight has
--   the kill with writes in flight: which thread's write completes next and which bytes of a torn
--   write land are arguments. Chaos/Run has `setup`, the choice of the operations and `run`. Chaos/Live
--   says what the harness has to do with the daemon between operations. A write on the device is one
--   request to the daemon, and no checkpoint of another client races with it.
-- * Scenario models the steps of `ublkfault/src/scenario.rs` over an interface of the disk under test,
--   the control socket, the shell and the clock, with the patterns and the sizes. Scenario/Text has
--   the methods of `str` that it uses, on ASCII texts, and Scenario/Line `parse_line` and `run_file`,
--   with a printer of steps in Scenario/Line/Printer. The `HashMap` of the arguments lists them in the
--   order in which they came, and the pairs of `set` are sorted after it. Scenario/Disk says what a
--   scenario may assume of its disk.
-- * Examples has runs on concrete inputs, and Base the shared types, lemmas and bytes of integers.
--
-- Machine integers keep their wrap-around. The loop of a torn entry has the entry's length as fuel,
-- and each round takes at least one byte off it. The loops that copy or compare a range in pieces of
-- 1 MiB have two more than its whole pieces. Not modelled are the io_uring and ublk plumbing, the
-- sockets, how JSON is printed and parsed, what clap makes of the arguments, texts beyond ASCII, and
-- the counters, journal and waiting of chaos, which only serve its reports. A printed number has 20
-- digits at most, which is enough for 64 bits.
pub mod Base
pub mod Crc
pub mod Era
pub mod Meta
pub mod Fault
pub mod Injector
pub mod Manager
pub mod Chaos
pub mod Ctl
pub mod Cli
pub mod Target
pub mod Scenario
pub mod Examples
