-- ===== src/Injector/Cli.antt =====
-- The command line of ublkfault/src/main.rs: its sizes, and the scenario files that it runs.
use ublkera.Base.{
  ℕ, ◌*◌, ◌^◌, ◌<◌, ◌≡◌, refl, ap, ◌∙◌, true, false, Option, some, List, [], ◌∷◌, ◌++◌, Result, ok,
  err, arith, u64,
}
use ublkera.Scenario.{Rig}
use ublkera.Scenario.Size.{parse_size, suffix, split_last}
use ublkera.Scenario.Text.{is_space, trim, trim_start, trim_end, none_of}
use ublkera.Scenario.Text.Words.{trim_start-word, trim_end-word, none_of-append}
use ublkera.Scenario.Line.{FileError, run_file}
use ublkera.Scenario.Line.Decimal.{
  show_dec, show_dec-is_empty, show_dec-none_of, parse_u64-show_dec,
}

-- `parse_size` of the command line, which trims first.
unfoldable pub size_arg : List ℕ → Option ℕ
unfolding parse_size trim
size_arg s = parse_size (trim s)

-- The loop over the files of `scenario`, from their texts; the first that fails ends it.
unfoldable pub run_files : {S : Type 0} → Rig S → List (List ℕ) → S → Result FileError S
unfolding run_file
run_files rig [] s = ok s
run_files rig (file ∷ files) s = elim (run_file rig file s) [
  | err e ↦ err e
  | ok r ↦ run_files rig files r.0
]

split_last-append : (xs : List ℕ) (c : ℕ) → split_last (xs ++ c ∷ []) ≡ some (xs, c)
unfolding split_last
split_last-append [] c = refl
split_last-append (x ∷ xs) c = rw (split_last, split_last-append xs c) refl

suffix-space : (c m : ℕ) → suffix c ≡ some m → is_space c ≡ false
unfolding suffix is_space
suffix-space c m h = ground arith

-- The letters for KiB, MiB and GiB, of either case.
pub data IsUnit : (c m : ℕ) → Type 0 where
  kib : IsUnit b'k' 1024
  kib_upper : IsUnit b'K' 1024
  mib : IsUnit b'm' (1024 * 1024)
  mib_upper : IsUnit b'M' (1024 * 1024)
  gib : IsUnit b'g' (1024 * 1024 * 1024)
  gib_upper : IsUnit b'G' (1024 * 1024 * 1024)

suffix-unit : {c m : ℕ} → IsUnit c m → suffix c ≡ some m
unfolding suffix
suffix-unit kib = refl
suffix-unit kib_upper = refl
suffix-unit mib = refl
suffix-unit mib_upper = refl
suffix-unit gib = refl
suffix-unit gib_upper = refl

-- Every number that fits in 64 bits, with any of the letters K, M and G of either case behind it, is
-- read as that many KiB, MiB or GiB, taken modulo 2 ^ 64.
pub size_arg-suffix :
    (n : ℕ) {c m : ℕ}
    → n < 2 ^ 64
    → IsUnit c m
    → size_arg (show_dec n ++ c ∷ []) ≡ some (u64 (n * m))
unfolding size_arg parse_size trim is_space
size_arg-suffix n {c} {m} h letter =
    let unit : suffix c ≡ some m = suffix-unit letter in
    let digits : none_of is_space (show_dec n) ≡ true =
      show_dec-none_of is_space n (λ v k. ground arith) in
    let plain : none_of is_space (show_dec n ++ c ∷ []) ≡ true =
      none_of-append is_space (show_dec n) (c ∷ []) digits (rw (suffix-space c m unit) refl) in
    let left : trim_start (show_dec n ++ c ∷ []) ≡ show_dec n ++ c ∷ [] =
      trim_start-word (show_dec n) (c ∷ []) (show_dec-is_empty n) digits in
    let right : trim_end (show_dec n ++ c ∷ []) ≡ show_dec n ++ c ∷ [] =
      trim_end-word (show_dec n ++ c ∷ []) plain in
    ap (λ x. parse_size (trim_end x)) left
    ∙ (ap parse_size right
        ∙ rw (parse_size, split_last-append (show_dec n) c, unit, parse_u64-show_dec n h) refl)
