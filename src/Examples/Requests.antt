-- ===== src/Examples/Requests.antt =====
-- Writes and reads through the queue of src/target.rs.
use ublkera.Base.{
  ℕ, ◌+◌, ◌*◌, ◌<◌, ◌≤◌, ◌≡◌, refl, inl, true, false, some, [], ◌∷◌, ◌++◌, replicate, arith,
}
use ublkera.Era.{EraState}
use ublkera.Era.Valid.{IsValid}
use ublkera.Era.Mark.{era_at}
use ublkera.Target.{
  Iod, write_op, read_op, bytes_done, errno, eagain, Sqe, replied, start, is_again, turns,
}
use ublkera.Base.{none, ok}
use ublkera.Target.Setup.{
  Backing, block_device, backing_size, backing_supports_discard, UblkDev, tgt_of, init_tgt,
}
use ublkera.Target.Advertises.{Advertises, init_tgt-Advertises}
use ublkera.Target.Stamping.{resubmitted, turns-stamps}
use ublkera.Examples.Tracker.{small, small-IsValid}

abbrev write_two : Iod
write_two = record { op = write_op; start_sector = 7; nr_sectors = 2 }

final : is_again (bytes_done 1024) ≡ false
unfolding is_again
final = refl

turns-stamps_example :
    (t : EraState) × (sqe : Sqe) × (turns
        (1 ∷ [])
        write_two
        (replicate 2 (errno eagain) ++ bytes_done 1024 ∷ [])
        (start write_two (record { era = small; events = [] }))
      ≡ some (record { era = t; events = replied (bytes_done 1024) t ∷ resubmitted 3 sqe [] }))
    × IsValid t
    × ((b : ℕ) → 7 * 512 ≤ b → b < 7 * 512 + 2 * 512 → era_at t b ≡ t.current_era)
turns-stamps_example =
    turns-stamps (1 ∷ []) 2 write_two (bytes_done 1024) small [] (inl refl) final small-IsValid
      (omega arith) (omega arith) (omega arith)

abbrev read_two : Iod
read_two = record { op = read_op; start_sector = 7; nr_sectors = 2 }

-- A disk with blocks of 4096 bytes whose queue takes "65536" bytes of zeros in a request.
abbrev disk_backing : Backing
disk_backing = record {
  kind = some block_device;
  len = 0;
  blkgetsize64 = some 1048576;
  blksszget = some 4096;
  blkpbszget = some 4096;
  sysfs = true;
  own_queue = none;
  parent_queue = some (b'6' ∷ b'5' ∷ b'5' ∷ b'3' ∷ b'6' ∷ b'\n' ∷ []);
}

disk_backing-discards : backing_supports_discard disk_backing ≡ true
unfolding backing_supports_discard
disk_backing-discards = refl

disk_backing-size : backing_size (λ n. 12) disk_backing ≡ ok (1048576, 12, 12)
unfolding backing_size
disk_backing-size = refl

abbrev fresh_dev : UblkDev
fresh_dev = record {
  fds = 5 ∷ 0 ∷ 0 ∷ [];
  nr_fds = 1;
  max_io_buf_bytes = 524288;
  dev_size = 0;
  params = none;
  o_direct = false;
}

init_tgt-Advertises_example :
    (dev : UblkDev) × (init_tgt fresh_dev (tgt_of disk_backing 9 false) 1048576 12 12 ≡ some dev)
    × Advertises disk_backing 9 1048576 12 5 dev
init_tgt-Advertises_example =
    init_tgt-Advertises disk_backing 9 1048576 12 12 false fresh_dev refl (omega arith) refl
      (omega arith)
