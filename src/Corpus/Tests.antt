-- ===== src/Corpus/Tests.antt =====
-- A baseline of two paths and a triage of two failures.
use doris_ducklake.Prelude.{
  All, Dict, List, Result, Text, [], is_digit, is_space, join, lookup, lstrip, map, member, none,
  ok, refl, some, starts_with, strip, text, text_eq, ℕ, ◌∷◌, ◌≡◌,
}
use doris_ducklake.Corpus.Baseline.{
  BaselineReceipt, FileEntry, Measurements, Outcome, baseline_measurements, baseline_schema,
  count_failures, have_no_repeats, is_covered, is_oracle_only, measurements_of, same_set,
}
use doris_ducklake.Corpus.Baseline.Coverage.{IsBaseline, baseline_measurements-IsBaseline}
use doris_ducklake.Corpus.Triage.{
  Campaign, Failure, Joined, classify, classify_baseline, closes_name, compare_sources,
  drop_dollars, is_complete, is_name_char, is_name_start, is_of_run, join_row, load_baseline,
  native_or_replay_baseline, outcomes, outcomes_at, replace_text, sql_key, state, triage,
}
use doris_ducklake.Corpus.Triage.Joining.{
  Campaigned, Mirror, ProducerArguments, join_retained, load_producers, one_missing,
}
use doris_ducklake.Corpus.Triage.Retained.{
  IsJoined, IsLoaded, failure_of, load_baseline-IsLoaded, triage-IsJoined,
}

abbrev failed_outcome : Outcome
failed_outcome = record {
  line = 7;
  kind = text "Fail";
  reason = some (text "r");
  sql = some (text "SELECT 1");
}

abbrev passed_outcome : Outcome
passed_outcome = record { line = 9; kind = text "Pass"; reason = none; sql = none }

abbrev a_file : FileEntry
a_file = record {
  path = text "a.test";
  sha256 = text "d1";
  outcomes = failed_outcome ∷ passed_outcome ∷ [];
  file_skip_reason = none;
}

abbrev a_receipt : BaselineReceipt
a_receipt = record {
  schema = baseline_schema;
  doris_mirrors = 0;
  axis = text "embedded";
  runtime = text "jvm";
  files = a_file ∷ [];
  missing_files = text "b.test" ∷ [];
  selected = text "b.test" ∷ text "a.test" ∷ [];
  ran_files = 1;
  failed = 1;
  passed = 1;
  skipped_records = 0;
}

abbrev a_measurement : Measurements
a_measurement = record {
  selected = 2;
  present = 1;
  missing = text "b.test" ∷ [];
  ran_files = 1;
  failed_records = 1;
  passed_records = 1;
  skipped_records = 0;
  incomplete_files = [];
}

a_baseline : baseline_measurements a_receipt ≡ ok a_measurement
unfolding baseline_measurements measurements_of is_oracle_only text text_eq is_covered
    have_no_repeats same_set count_failures member starts_with
a_baseline = refl

baseline_measurements-IsBaseline_example : IsBaseline a_receipt a_measurement
baseline_measurements-IsBaseline_example =
    baseline_measurements-IsBaseline a_receipt a_measurement a_baseline

abbrev a_campaign : Campaign
a_campaign = record { status = some (text "diagnostic-complete"); corpus_commit = text "c1" }

abbrev mirror_hashes : Dict Text
mirror_hashes = (text "a.test", text "d1") ∷ []

a_load :
    load_baseline a_receipt a_campaign (text "embedded") (text "c1") (some mirror_hashes)
    ≡ ok a_receipt
unfolding load_baseline is_complete is_of_run compare_sources lookup baseline_measurements
    measurements_of is_oracle_only text text_eq is_covered have_no_repeats same_set count_failures
    member starts_with
a_load = refl

load_baseline-IsLoaded_example :
    (a_receipt ≡ a_receipt) × IsLoaded a_receipt (text "embedded") mirror_hashes
load_baseline-IsLoaded_example =
    load_baseline-IsLoaded a_receipt a_receipt a_campaign (text "embedded") (text "c1")
      mirror_hashes a_load

abbrev a_failure : Failure
a_failure = record {
  file = text "a.test";
  line = text "7";
  stage = text "native";
  reason = text "r";
}

abbrev reads_seven : Text → Result ℕ
reads_seven t = ok 7

abbrev a_joined : Joined
a_joined = record {
  failure = a_failure;
  embedded = text "Fail";
  postgres = text "Fail";
  classification = native_or_replay_baseline;
  embedded_reason = text "r";
  postgres_reason = text "r";
  producers = none;
}

a_triage : triage reads_seven (a_failure ∷ []) a_receipt a_receipt none ≡ ok (a_joined ∷ [])
unfolding triage join_row outcomes outcomes_at state classify classify_baseline text text_eq join
a_triage = refl

triage-IsJoined_example :
    (map (failure_of reads_seven a_receipt a_receipt none) (a_joined ∷ []) ≡ a_failure ∷ [])
    × All (IsJoined reads_seven a_receipt a_receipt none) (a_joined ∷ [])
triage-IsJoined_example =
    triage-IsJoined reads_seven a_receipt a_receipt none (a_failure ∷ []) (a_joined ∷ []) a_triage

-- The two spellings of a placeholder have one key.
one_key :
    (sql_key (some (text "COPY t TO '__TEST_DIR__/${NAME}' "))
      ≡ text "COPY t TO '{TEST_DIR}/{NAME}'")
unfolding sql_key strip lstrip is_space drop_dollars replace_text is_name_start is_name_char
    closes_name is_digit starts_with text
one_key = refl

abbrev a_mirror : Mirror
a_mirror = record { failed = 1; corpus_commit = text "c1"; corpus_sha256 = mirror_hashes }

abbrev on_backend : Text → Campaigned
on_backend axis = record { receipt = record a_receipt { axis = axis }; campaign = a_campaign }

abbrev no_producers : ProducerArguments
no_producers = record { embedded = none; postgres = none; commit = none }

abbrev retained : Result (List Joined)
retained =
    join_retained reads_seven (a_failure ∷ []) a_mirror (on_backend (text "embedded"))
      (on_backend (text "postgres")) no_producers

-- One backend of the producer alone is refused.
refuses_one :
    load_producers (record {
      embedded = some (on_backend (text "embedded"));
      postgres = none;
      commit = some (text "c2");
    })
    ≡ one_missing
refuses_one = refl
