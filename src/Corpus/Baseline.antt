-- ===== src/Corpus/Baseline.antt =====
-- `baseline_measurements` of compose/corpus_baseline.py, on a receipt whose fields have been read.
pub mod Coverage
use doris_ducklake.Prelude.{
  Bool, List, Option, Result, Text, [], every, has_no_items, keep, length, map, member, none, not,
  ok, require, some, some_of, starts_with, text, text_eq, true, ℕ, ◌&&◌, ◌++◌, ◌+◌, ◌==◌, ◌>>=◌,
  ◌>>◌, ◌∷◌,
}

-- An outcome of a record of a corpus file. `sql` and `reason` may be absent.
pub record Outcome : Type 0 where
  pub line : ℕ
  pub kind : Text
  pub reason : Option Text
  pub sql : Option Text

pub record FileEntry : Type 0 where
  pub path : Text
  pub sha256 : Text
  pub outcomes : List Outcome
  pub file_skip_reason : Option Text

-- baseline.json
pub record BaselineReceipt : Type 0 where
  pub schema : Text
  pub doris_mirrors : ℕ
  pub axis : Text
  pub runtime : Text
  pub files : List FileEntry
  pub missing_files : List Text
  pub selected : List Text
  pub ran_files : ℕ
  pub failed : ℕ
  pub passed : ℕ
  pub skipped_records : ℕ

pub record Measurements : Type 0 where
  pub selected : ℕ
  pub present : ℕ
  pub missing : List Text
  pub ran_files : ℕ
  pub failed_records : ℕ
  pub passed_records : ℕ
  pub skipped_records : ℕ
  pub incomplete_files : List Text

abbrev pub baseline_schema : Text
baseline_schema = text "doris-oracle-baseline-v1"

abbrev pub path_of : FileEntry → Text
path_of file = file.path

abbrev pub or_empty : Option Text → Text
or_empty none = []
or_empty (some t) = t

abbrev pub is_failure : Outcome → Bool
is_failure outcome = text_eq outcome.kind (text "Fail")

abbrev pub has_outcomes : FileEntry → Bool
has_outcomes file = not (has_no_items file.outcomes)

-- `sum(… for file in files for outcome in file["outcomes"])`
unfoldable pub count_failures : List FileEntry → ℕ
count_failures [] = 0
count_failures (file ∷ files) = length (keep is_failure file.outcomes) + count_failures files

-- `.startswith((…, …))`
abbrev pub incomplete_reasons : List Text
incomplete_reasons = text "TIMEOUT:" ∷ text "BLOCKED:" ∷ text "CRASH:" ∷ text "RESOURCE LIMIT:" ∷ []

abbrev pub is_incomplete : FileEntry → Bool
is_incomplete file = some_of (starts_with (or_empty file.file_skip_reason)) incomplete_reasons

-- `len(set(names)) == len(names)`
unfoldable pub have_no_repeats : List Text → Bool
unfolding member
have_no_repeats [] = true
have_no_repeats (t ∷ ts) = not (member t ts) && have_no_repeats ts

-- `set(xs) == set(ys)`
unfoldable pub same_set : List Text → List Text → Bool
unfolding member
same_set xs ys = every (λ x. member x ys) xs && every (λ y. member y xs) ys

unfoldable pub is_covered : List Text → List Text → Bool
is_covered accounted selected = have_no_repeats accounted && same_set accounted selected

unfoldable pub is_oracle_only : BaselineReceipt → Bool
is_oracle_only receipt = text_eq receipt.schema baseline_schema && (receipt.doris_mirrors == 0)

abbrev pub accounted_of : BaselineReceipt → List Text
accounted_of receipt = map path_of receipt.files ++ receipt.missing_files

unfoldable pub measurements_of : BaselineReceipt → Measurements
measurements_of receipt = record {
  selected = length receipt.selected;
  present = length receipt.files;
  missing = receipt.missing_files;
  ran_files = receipt.ran_files;
  failed_records = count_failures receipt.files;
  passed_records = receipt.passed;
  skipped_records = receipt.skipped_records;
  incomplete_files = map path_of (keep is_incomplete receipt.files);
}

unfoldable pub baseline_measurements : BaselineReceipt → Result Measurements
baseline_measurements receipt = do
  require (is_oracle_only receipt) "Not an oracle-only baseline"
  require (some_of has_outcomes receipt.files)
      "No executed oracle records; missing/skipped files are not a baseline"
  require (is_covered (accounted_of receipt) receipt.selected)
      "Incomplete or duplicate baseline coverage"
  require (count_failures receipt.files == receipt.failed) "Baseline record failures were lost"
  ok (measurements_of receipt)
