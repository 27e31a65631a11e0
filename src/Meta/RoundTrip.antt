-- ===== src/Meta/RoundTrip.antt =====
-- `load` after `save` of src/era.rs gives the tracker back.
use ublkera.Base.{
  ℕ, suc, ◌+◌, ◌*◌, ◌^◌, ◌≤◌, ◌<◌, ◌≡◌, refl, ap, ap₂, ◌∙◌, sym, Bool, true, false, not, List, [],
  ◌∷◌, ◌++◌, length, get_or, ◌==◌, drop, to_le32, to_le64, from_le, from_le-to_le32,
  from_le-to_le64, ok, slice, replicate, length-replicate, arith,
}
use ublkera.Crc.{crc32}
use ublkera.Crc.Detect.{crc32-append, crc32-lt}
use ublkera.Era.{EraState, nr_chunks}
use ublkera.Era.Valid.{IsValid, new-eq, granularity-lt, chunks-lt}
use ublkera.Meta.Inversion.{Accepts, loaded, decode-Accepts}
use ublkera.Meta.{
  words, flag, unsigned, encode, read_words, decode, magic, version, blanked, hdr_len,
}

-- The eras fit their four bytes.
abbrev pub Fit : List ℕ → Type 0
Fit [] = Unit
Fit (e ∷ es) = (e < 2 ^ 32) × Fit es

read_words-words : (es : List ℕ) → Fit es → read_words (length es) (words es) ≡ es
unfolding read_words words to_le32
read_words-words [] h = refl
read_words-words (e ∷ es) h =
    ap₂ ◌∷◌ (unfold to_le32 in from_le-to_le32 e h.0) (read_words-words es h.1)

length-words : (es : List ℕ) → length (words es) ≡ length es * 4
unfolding words to_le32
length-words [] = refl
length-words (e ∷ es) = omega (arith, length-words es)

blanked-encode :
    (s : EraState) (clean : Bool) → blanked (encode s clean) ++ words s.eras ≡ unsigned s clean
unfolding encode unsigned words to_le32 to_le64
blanked-encode s clean = refl

Fit-of_bounded : (es : List ℕ) {m : ℕ} → m < 2 ^ 32 → ((j : ℕ) → get_or es j 0 ≤ m) → Fit es
Fit-of_bounded [] h b = tt
Fit-of_bounded (e ∷ es) h b = (omega (arith, b 0), Fit-of_bounded es h (λ j. b (suc j)))

-- The tracker that `new` makes on the way of `load`.
abbrev blank : EraState → ℕ → EraState
blank s gen = record s { generation = gen; current_era = 1; eras = replicate (length s.eras) 0 }

-- Where `save` puts what `load` reads.
record Layout (s : EraState) (clean : Bool) (raw : List ℕ) : Type 0 where
  magic_at : slice 0 8 raw ≡ magic
  version_at : slice 8 12 raw ≡ to_le32 version
  gran_at : slice 12 20 raw ≡ to_le64 s.granularity
  size_at : slice 20 28 raw ≡ to_le64 s.dev_size
  era_at : slice 28 32 raw ≡ to_le32 s.current_era
  chunks_at : slice 32 40 raw ≡ to_le64 (length s.eras)
  clean_at : slice 40 44 raw ≡ to_le32 (flag clean)
  gen_at : slice 44 52 raw ≡ to_le64 s.generation
  crc_at : slice 52 56 raw ≡ to_le32 (crc32 (unsigned s clean ∷ []))
  body_at : drop 56 raw ≡ words s.eras

encode-Layout : (s : EraState) (clean : Bool) → Layout s clean (encode s clean)
unfolding encode unsigned words to_le32 to_le64 nr_chunks
encode-Layout s clean = record {
  magic_at = refl;
  version_at = refl;
  gran_at = refl;
  size_at = refl;
  era_at = refl;
  chunks_at = refl;
  clean_at = refl;
  gen_at = refl;
  crc_at = refl;
  body_at = refl;
}

pub length-encode :
    (s : EraState) (clean : Bool) → length (encode s clean) ≡ hdr_len + length s.eras * 4
unfolding encode unsigned to_le32 to_le64
length-encode s clean = omega (arith, length-words s.eras)

-- The parts that `load` sums up are the buffer that `save` summed up.
crc_same :
    (s : EraState) (clean : Bool)
    → crc32 (blanked (encode s clean) ∷ drop hdr_len (encode s clean) ∷ [])
      ≡ crc32 (unsigned s clean ∷ [])
crc_same s clean =
    crc32-append (blanked (encode s clean)) (drop hdr_len (encode s clean))
    ∙ ap (λ part. crc32 ((blanked (encode s clean) ++ part) ∷ [])) (encode-Layout s clean).body_at
    ∙ ap (λ buf. crc32 (buf ∷ [])) (blanked-encode s clean)

encode-Accepts :
    (gen : ℕ) {s : EraState} (clean : Bool)
    → IsValid s
    → Accepts (encode s clean) s.dev_size s.granularity gen (blank s gen)
unfolding nr_chunks
encode-Accepts gen {s} clean v = record {
  long = ground (arith, length-encode s clean);
  is_meta = rw at.magic_at;
  same_version = rw at.version_at (from_le-to_le32 version (omega arith));
  intact = rw at.crc_at (from_le-to_le32 _ (crc32-lt (unsigned s clean)) ∙ sym (crc_same s clean));
  same_gran = rw at.gran_at (from_le-to_le64 s.granularity (granularity-lt v));
  same_size = rw at.size_at (from_le-to_le64 s.dev_size v.small);
  made = new-eq gen v;
  same_chunks =
      rw (at.chunks_at, length-replicate {A = ℕ} (length s.eras) 0)
        (from_le-to_le64 (length s.eras) (chunks-lt v));
  same_body = rw (at.body_at, length-replicate {A = ℕ} (length s.eras) 0) (length-words s.eras);
}
  where
    at : Layout s clean (encode s clean)
    at = encode-Layout s clean

flag-clean : (clean : Bool) → not (from_le (to_le32 (flag clean)) == 0) ≡ clean
unfolding from_le to_le32
flag-clean true = refl
flag-clean false = refl

loaded-eq :
    (gen : ℕ) {s : EraState} (clean : Bool)
    → IsValid s
    → s.generation < 2 ^ 64
    → loaded (encode s clean) (blank s gen) ≡ s
loaded-eq gen {s} clean v g = rw (
  at.gen_at,
  at.era_at,
  at.body_at,
  from_le-to_le64 s.generation g,
  from_le-to_le32 s.current_era v.era_fits,
  length-replicate {A = ℕ} (length s.eras) 0,
  read_words-words s.eras (Fit-of_bounded s.eras v.era_fits v.bounded),
)
  where
    at : Layout s clean (encode s clean)
    at = encode-Layout s clean

-- `load` of a file that `save` has written from a valid tracker whose generation is a u64, for the
-- same device size and granularity, gives back the tracker, whatever random number is drawn on the
-- way, and the flag that `save` was given.
pub decode-encode :
    (gen : ℕ) {s : EraState} (clean : Bool)
    → IsValid s
    → s.generation < 2 ^ 64
    → decode (encode s clean) s.dev_size s.granularity gen ≡ ok (s, clean)
decode-encode gen {s} clean v g = rw (
  decode-Accepts (encode-Accepts gen clean v),
  loaded-eq gen clean v g,
  (encode-Layout s clean).clean_at,
  flag-clean clean,
)
