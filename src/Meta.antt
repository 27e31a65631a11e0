-- ===== src/Meta.antt =====
-- The metadata file of src/era.rs: the bytes that `save` writes and what `load` makes of them.
pub mod Inversion
pub mod RoundTrip
pub mod Corruption
pub mod Save
use ublkera.Base.{
  ℕ, zero, suc, ◌+◌, ◌*◌, ◌-◌, Bool, true, false, not, List, [], ◌∷◌, ◌++◌, length, leb, ◌==◌,
  if◌then◌else◌, take, drop, to_le32, to_le64, from_le, Result, ok, err, ◌>>=◌, ◌>>◌, ensure,
  context, list_eq, slice, overwrite, replicate, arith,
}
use ublkera.Crc.{crc32}
use ublkera.Era.{EraState, new, nr_chunks}

-- "UBLKERA1"
abbrev pub magic : List ℕ
magic = 0x55 ∷ 0x42 ∷ 0x4c ∷ 0x4b ∷ 0x45 ∷ 0x52 ∷ 0x41 ∷ 0x31 ∷ []

abbrev pub version : ℕ
version = 4

abbrev pub hdr_len : ℕ
hdr_len = 56

abbrev pub crc_off : ℕ
crc_off = 52

-- The per-chunk eras, four bytes each.
unfoldable pub words : List ℕ → List ℕ
unfolding to_le32
words [] = []
words (e ∷ es) = to_le32 e ++ words es

abbrev pub flag : Bool → ℕ
flag true = 1
flag false = 0

-- The buffer of `save` before its checksum is filled in.
unfoldable pub unsigned : EraState → Bool → List ℕ
unfolding words to_le32 to_le64 nr_chunks
unsigned s clean =
    magic
    ++ (to_le32 version
        ++ (to_le64 s.granularity
            ++ (to_le64 s.dev_size
                ++ (to_le32 s.current_era
                    ++ (to_le64 (nr_chunks s)
                        ++ (to_le32 (flag clean)
                            ++ (to_le64 s.generation ++ (to_le32 0 ++ words s.eras))))))))

-- The bytes that `save` writes.
unfoldable pub encode : EraState → Bool → List ℕ
unfolding unsigned
encode s clean = let buf = unsigned s clean in overwrite crc_off (to_le32 (crc32 (buf ∷ []))) buf

pub data LoadError : Type 0 where
  truncated not_metadata checksum_mismatch refused : LoadError
  unsupported_version : ℕ → LoadError
  granularity_mismatch size_mismatch : ℕ → LoadError
  chunk_count_mismatch body_length_mismatch : LoadError

-- The loop that reads the eras, with `n` to go.
pub read_words : ℕ → List ℕ → List ℕ
unfolding from_le
read_words zero body = []
read_words (suc n) body = from_le (take 4 body) ∷ read_words n (drop 4 body)

-- The header with its checksum field zeroed.
abbrev pub blanked : List ℕ → List ℕ
blanked raw = overwrite crc_off (replicate 4 0) (take hdr_len raw)

-- `load` after the file has been read; `gen` is the random number that `new` draws.
pub decode : (raw : List ℕ) (dev_size granularity gen : ℕ) → Result LoadError (EraState × Bool)
unfolding from_le read_words
decode raw dev_size granularity gen = do
  ensure (leb hdr_len (length raw)) truncated
  ensure (list_eq (slice 0 8 raw) magic) not_metadata
  let v = from_le (slice 8 12 raw)
  ensure (v == version) (unsupported_version v)
  let stored = from_le (slice crc_off (crc_off + 4) raw)
  ensure (stored == crc32 (blanked raw ∷ drop hdr_len raw ∷ [])) checksum_mismatch
  let m_gran = from_le (slice 12 20 raw)
  let m_size = from_le (slice 20 28 raw)
  let m_era = from_le (slice 28 32 raw)
  let m_chunks = from_le (slice 32 40 raw)
  let m_clean = not (from_le (slice 40 44 raw) == 0)
  let m_gen = from_le (slice 44 52 raw)
  ensure (m_gran == granularity) (granularity_mismatch m_gran)
  ensure (m_size == dev_size) (size_mismatch m_size)
  state ← context (new dev_size granularity gen) refused
  ensure (m_chunks == nr_chunks state) chunk_count_mismatch
  let body = drop hdr_len raw
  ensure (length body == length state.eras * 4) body_length_mismatch
  ok (
    record state {
      generation = m_gen;
      eras = read_words (length state.eras) body;
      current_era = m_era;
    },
    m_clean,
  )
