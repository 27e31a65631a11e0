-- ===== src/Examples/Files.antt =====
-- The metadata file of a small tracker, on src/era.rs.
use ublkera.Base.{
  false, ℕ, ◌+◌, ◌≡◌, ◌≢◌, refl, true, arith, some, none, List, [], ◌∷◌, ◌++◌, ok, to_le32, to_le64,
  take, ltb, ◌&&◌, Bool, sym, ◌⊎◌,
}
use ublkera.Crc.{crc_bit, crc_bits, build, table, crc_byte, crc_parts, crc_part, crc32}
use ublkera.Crc.Detect.{IsBytes, OneOff, here, there}
use ublkera.Crc.Bitwise.{crc_reference, crc_part-reference}
use ublkera.Meta.{encode, decode, unsigned, words}
use ublkera.Era.{nr_chunks}
use ublkera.Meta.Corruption.{decode-detects}
use ublkera.Meta.RoundTrip.{decode-encode}
use ublkera.Meta.Save.{
  Disk, Crashed, stopped, act_all, act, all_loose, act_loose, save_ops, save, store, Crashed-atomic,
}
use ublkera.Examples.Tracker.{small, small-IsValid}

decode-encode_example : decode (encode small true) 10000 4096 99 ≡ ok (small, true)
decode-encode_example = decode-encode 99 true small-IsValid (omega arith)

crc_part-reference_example : crc_part 5 (65 ∷ 66 ∷ []) ≡ crc_reference 5 (65 ∷ 66 ∷ [])
crc_part-reference_example = crc_part-reference (65 ∷ 66 ∷ []) 5 (omega arith, (omega arith, tt))

-- A disk on which the path after `p` is its temporary one.
abbrev empty_disk : Disk
empty_disk = record { file = λ _. none; fault = λ _. none; tmp_of = λ p. p + 1 }

abbrev file : List ℕ
file =
    85 ∷ 66 ∷ 76 ∷ 75 ∷ 69 ∷ 82 ∷ 65 ∷ 49 ∷ 4 ∷ 0 ∷ 0 ∷ 0 ∷ 0 ∷ 16 ∷ 0 ∷ 0 ∷ 0 ∷ 0 ∷ 0 ∷ 0 ∷ 16 ∷ 39
    ∷ 0 ∷ 0 ∷ 0 ∷ 0 ∷ 0 ∷ 0 ∷ 1 ∷ 0 ∷ 0 ∷ 0 ∷ 3 ∷ 0 ∷ 0 ∷ 0 ∷ 0 ∷ 0 ∷ 0 ∷ 0 ∷ 1 ∷ 0 ∷ 0 ∷ 0 ∷ 7 ∷ 0
    ∷ 0 ∷ 0 ∷ 0 ∷ 0 ∷ 0 ∷ 0 ∷ 195 ∷ 155 ∷ 230 ∷ 191 ∷ 0 ∷ 0 ∷ 0 ∷ 0 ∷ 0 ∷ 0 ∷ 0 ∷ 0 ∷ 0 ∷ 0 ∷ 0 ∷ 0
    ∷ []

abbrev damaged : List ℕ
damaged =
    85 ∷ 66 ∷ 76 ∷ 75 ∷ 69 ∷ 82 ∷ 65 ∷ 49 ∷ 4 ∷ 0 ∷ 0 ∷ 0 ∷ 0 ∷ 16 ∷ 0 ∷ 0 ∷ 0 ∷ 0 ∷ 0 ∷ 0 ∷ 16 ∷ 39
    ∷ 0 ∷ 0 ∷ 0 ∷ 0 ∷ 0 ∷ 0 ∷ 1 ∷ 0 ∷ 0 ∷ 0 ∷ 3 ∷ 0 ∷ 0 ∷ 0 ∷ 0 ∷ 0 ∷ 0 ∷ 0 ∷ 1 ∷ 0 ∷ 0 ∷ 0 ∷ 7 ∷ 0
    ∷ 0 ∷ 0 ∷ 0 ∷ 0 ∷ 0 ∷ 0 ∷ 195 ∷ 155 ∷ 230 ∷ 191 ∷ 0 ∷ 0 ∷ 0 ∷ 0 ∷ 0 ∷ 0 ∷ 0 ∷ 0 ∷ 0 ∷ 0 ∷ 1 ∷ 0
    ∷ []

file-encode : encode small true ≡ file
unfolding encode unsigned words to_le32 to_le64 nr_chunks crc32 crc_parts crc_part crc_byte table
    build crc_bits crc_bit
file-encode = refl

file-decode : decode file 10000 4096 99 ≡ ok (small, true)
file-decode = rw (sym file-encode) (decode-encode 99 true small-IsValid (omega arith))

all_bytes : List ℕ → Bool
all_bytes [] = true
all_bytes (b ∷ bs) = ltb b 256 && all_bytes bs

all_bytes-IsBytes : (bs : List ℕ) → all_bytes bs ≡ true → IsBytes bs
unfolding all_bytes
all_bytes-IsBytes [] h = tt
all_bytes-IsBytes (b ∷ bs) h = (ground arith, all_bytes-IsBytes bs (ground (arith, h)))

file-IsBytes : IsBytes file
unfolding all_bytes
file-IsBytes = all_bytes-IsBytes file refl

damaged-IsBytes : IsBytes damaged
unfolding all_bytes
damaged-IsBytes = all_bytes-IsBytes damaged refl

OneOff-behind :
    (front : List ℕ) {xs ys : List ℕ} → OneOff xs ys → OneOff (front ++ xs) (front ++ ys)
OneOff-behind [] h = h
OneOff-behind (b ∷ front) h = there (OneOff-behind front h)

file-OneOff : OneOff file damaged
file-OneOff = OneOff-behind (take 66 file) (here (λ e. omega (arith, e)))

decode-detects_example : decode damaged 10000 4096 99 ≢ ok (small, true)
decode-detects_example =
    decode-detects 10000 4096 99 10000 4096 99 file-IsBytes damaged-IsBytes file-OneOff file-decode

-- The power is lost when the temporary file is being written; twenty bytes of it are there.
torn : Disk
torn = store empty_disk 6 (some (take 20 (encode small true)))

torn-Crashed : Crashed empty_disk (λ q. false) 5 small true torn
unfolding torn act_all act all_loose act_loose save_ops
torn-Crashed = stopped 2 (record { safe = λ q firm. ground arith })

Crashed-atomic_example :
    ((torn.file 5 ≡ none) ⊎ (torn.file 5 ≡ some (encode small true)))
    × ((q : ℕ) → q ≢ 5 → q ≢ 6 → false ≡ false → torn.file q ≡ none)
Crashed-atomic_example =
    Crashed-atomic {d = empty_disk} {loose = λ q. false} {path = 5} {s = small} {clean = true}
      (λ e. omega (arith, e)) refl torn-Crashed

abbrev saved : Disk
saved = act_all (save_ops empty_disk 5 small true) empty_disk

save-saved : save empty_disk 5 small true ≡ ok saved
unfolding save
save-saved = refl
