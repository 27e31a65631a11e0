-- ===== src/Meta/Inversion.antt =====
-- Which files `load` of src/era.rs accepts, and with what result.
use ublkera.Base.{
  ℕ, ◌+◌, ◌*◌, ◌≡◌, Bool, true, not, List, [], ◌∷◌, length, leb, ◌==◌, drop, from_le, some, ok,
  list_eq, slice, ensure-ok, context-ok, ==_iff,
}
use ublkera.Crc.{crc32}
use ublkera.Era.{EraState, new, nr_chunks}
use ublkera.Meta.{
  read_words, decode, truncated, not_metadata, checksum_mismatch, refused, chunk_count_mismatch,
  body_length_mismatch, magic, version, blanked, hdr_len, crc_off,
}

-- All the tests of `load`, with the fresh tracker `t` that it makes on the way.
pub record Accepts (raw : List ℕ) (d g gen : ℕ) (t : EraState) : Type 0 where
  pub long : leb hdr_len (length raw) ≡ true
  pub is_meta : list_eq (slice 0 8 raw) magic ≡ true
  pub same_version : from_le (slice 8 12 raw) ≡ version
  pub intact :
      from_le (slice crc_off (crc_off + 4) raw) ≡ crc32 (blanked raw ∷ drop hdr_len raw ∷ [])
  pub same_gran : from_le (slice 12 20 raw) ≡ g
  pub same_size : from_le (slice 20 28 raw) ≡ d
  pub made : new d g gen ≡ some t
  pub same_chunks : from_le (slice 32 40 raw) ≡ nr_chunks t
  pub same_body : length (drop hdr_len raw) ≡ length t.eras * 4

-- The tracker that the file stands for.
abbrev pub loaded : List ℕ → EraState → EraState
loaded raw t = record t {
  generation = from_le (slice 44 52 raw);
  eras = read_words (length t.eras) (drop hdr_len raw);
  current_era = from_le (slice 28 32 raw);
}

abbrev pub was_clean : List ℕ → Bool
was_clean raw = not (from_le (slice 40 44 raw) == 0)

eq_test : {a b : ℕ} → a ≡ b → (a == b) ≡ true
eq_test {a} {b} e = (==_iff a b).1 e

pub decode-Accepts :
    {raw : List ℕ} {d g gen : ℕ} {t : EraState}
    → Accepts raw d g gen t
    → decode raw d g gen ≡ ok (loaded raw t, was_clean raw)
unfolding decode
decode-Accepts a = rw (
  a.long,
  a.is_meta,
  eq_test a.same_version,
  eq_test a.intact,
  eq_test a.same_gran,
  eq_test a.same_size,
  a.made,
  eq_test a.same_chunks,
  eq_test a.same_body,
)

pub Accepts-decode :
    {raw : List ℕ} {d g gen : ℕ} {s : EraState} {clean : Bool}
    → decode raw d g gen ≡ ok (s, clean)
    → (t : EraState) × Accepts raw d g gen t × (s ≡ loaded raw t) × (clean ≡ was_clean raw)
unfolding decode
Accepts-decode {raw} {d} {g} {gen} h =
    let (h1, k1) = ensure-ok (leb hdr_len (length raw)) truncated _ h in
    let (h2, k2) = ensure-ok (list_eq (slice 0 8 raw) magic) not_metadata _ k1 in
    let (h3, k3) = ensure-ok (from_le (slice 8 12 raw) == version) _ _ k2 in
    let (h4, k4) =
      ensure-ok
        (from_le (slice crc_off (crc_off + 4) raw) == crc32 (blanked raw ∷ drop hdr_len raw ∷ []))
        checksum_mismatch _ k3 in
    let (h5, k5) = ensure-ok (from_le (slice 12 20 raw) == g) _ _ k4 in
    let (h6, k6) = ensure-ok (from_le (slice 20 28 raw) == d) _ _ k5 in
    let (t, h7, k7) = context-ok (new d g gen) refused _ k6 in
    let (h8, k8) = ensure-ok (from_le (slice 32 40 raw) == nr_chunks t) chunk_count_mismatch _ k7 in
    let (h9, k9) =
      ensure-ok (length (drop hdr_len raw) == length t.eras * 4) body_length_mismatch _ k8 in
    (
      t,
      record {
        long = h1;
        is_meta = h2;
        same_version = (==_iff _ _).0 h3;
        intact = (==_iff _ _).0 h4;
        same_gran = (==_iff _ _).0 h5;
        same_size = (==_iff _ _).0 h6;
        made = h7;
        same_chunks = (==_iff _ _).0 h8;
        same_body = (==_iff _ _).0 h9;
      },
      cc,
      cc,
    )
