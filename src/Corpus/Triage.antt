-- ===== src/Corpus/Triage.antt =====
-- compose/corpus_baseline_triage.py: the failures of the mirror runs, joined to the outcomes of
-- the oracle-only runs.
pub mod Retained
pub mod Joining
use doris_ducklake.Prelude.{
  Bool, Dict, Guard, List, Option, Result, Text, [], every, false, has_no_items, has_text,
  if◌then◌else◌, is_digit, join, keep, keys, leb, length, lookup, map, member, none, not, ok,
  or_key_error, require, some, starts_with, strip, suc, text, text_eq, zero, ℕ, ◌&&◌, ◌++◌, ◌-◌,
  ◌==◌, ◌>>=◌, ◌>>◌, ◌||◌, ◌∷◌,
}
use doris_ducklake.Corpus.Baseline.{
  BaselineReceipt, FileEntry, Measurements, Outcome, baseline_measurements, or_empty,
}

-- A row of failure-index.csv. `line` is read by `int` when the row is joined.
pub record Failure : Type 0 where
  pub file : Text
  pub line : Text
  pub stage : Text
  pub reason : Text

unfoldable pub outcomes_at : ℕ → List Outcome → List Outcome
outcomes_at line items = keep (λ (o : Outcome). o.line == line) items

unfoldable pub outcomes : List FileEntry → Text → ℕ → List Outcome
outcomes [] file line = []
outcomes (entry ∷ entries) file line =
    let rest = outcomes entries file line in
    if text_eq entry.path file then outcomes_at line entry.outcomes ++ rest else rest

-- The kind that all items have, if they have one.
unfoldable pub state : List Outcome → Text
state [] = text "unobserved"
state (item ∷ items) =
    if every (λ (o : Outcome). text_eq o.kind item.kind) items then item.kind else text "mixed"

-- The texts that `classify` returns, and how each is spelled.
pub data Classification : Type 0 where
  doris_value_divergence : Classification
  adapter_connection_configuration : Classification
  replay_format_inspection : Classification
  doris_safety_refusal : Classification
  doris_nested_read_refusal : Classification
  doris_encrypted_read_error : Classification
  doris_virtual_column_error : Classification
  doris_other_mirror_error : Classification
  native_or_replay_baseline : Classification
  metadata_backend_axis : Classification
  live_only_or_nondeterministic : Classification
  unresolved_baseline_evidence : Classification

abbrev pub classification_text : Classification → Text
classification_text doris_value_divergence = text "doris-value-divergence"
classification_text adapter_connection_configuration = text "adapter-connection-configuration"
classification_text replay_format_inspection = text "replay-format-inspection"
classification_text doris_safety_refusal = text "doris-safety-refusal"
classification_text doris_nested_read_refusal = text "doris-nested-read-refusal"
classification_text doris_encrypted_read_error = text "doris-encrypted-read-error"
classification_text doris_virtual_column_error = text "doris-virtual-column-error"
classification_text doris_other_mirror_error = text "doris-other-mirror-error"
classification_text native_or_replay_baseline = text "native-or-replay-baseline"
classification_text metadata_backend_axis = text "metadata-backend-axis"
classification_text live_only_or_nondeterministic = text "live-only-or-nondeterministic"
classification_text unresolved_baseline_evidence = text "unresolved-baseline-evidence"

unfoldable pub classify_mirror_error : Text → Text → Classification
classify_mirror_error file reason =
    if has_text (text "Historical reads with delete files") reason
      || has_text (text "temporal domain") reason
    then doris_safety_refusal
    else if has_text (text "nested legacy-file mappings") reason
        || has_text (text "historical nested file") reason
    then doris_nested_read_refusal
    else if starts_with file (text "encryption/") && has_text (text "Parquet footer") reason
    then doris_encrypted_read_error
    else if has_text (text "Unknown column 'snapshot_id'") reason
    then doris_virtual_column_error
    else doris_other_mirror_error

unfoldable pub classify_baseline : Text → Text → Classification
classify_baseline embedded postgres =
    if text_eq postgres (text "Fail") && text_eq embedded (text "Fail")
    then native_or_replay_baseline
    else if text_eq postgres (text "Fail") && text_eq embedded (text "Pass")
    then metadata_backend_axis
    else if text_eq postgres embedded && text_eq embedded (text "Pass")
    then live_only_or_nondeterministic
    else unresolved_baseline_evidence

unfoldable pub classify : Failure → Text → Text → Classification
classify row embedded postgres =
    if text_eq row.stage (text "doris-mirror-divergence")
    then doris_value_divergence
    else if text_eq row.stage (text "doris-adapter-connect")
    then adapter_connection_configuration
    else if text_eq row.stage (text "format-inspection")
    then replay_format_inspection
    else if text_eq row.stage (text "doris-mirror-error")
    then classify_mirror_error row.file row.reason
    else classify_baseline embedded postgres

-- `[A-Za-z_]` and `[A-Za-z0-9_]`
unfoldable pub is_name_start : ℕ → Bool
is_name_start c = (leb b'A' c && leb c b'Z') || (leb b'a' c && leb c b'z') || (c == b'_')

unfoldable pub is_name_char : ℕ → Bool
is_name_char c = is_name_start c || is_digit c

-- The rest of a name, and the brace that closes it.
unfoldable pub closes_name : Text → Bool
closes_name [] = false
closes_name (c ∷ cs) = (c == b'}') || (is_name_char c && closes_name cs)

abbrev pub is_placeholder : Text → Bool
is_placeholder (brace ∷ c ∷ cs) = (brace == b'{') && is_name_start c && closes_name cs
is_placeholder _ = false

-- `re.sub(r"\$\{(…)\}", r"{\1}", s)`: what follows a dropped `$` holds no other `$` up to its brace.
unfoldable pub drop_dollars : Text → Text
drop_dollars [] = []
drop_dollars (c ∷ cs) =
    let rest = drop_dollars cs in if (c == b'$') && is_placeholder cs then rest else c ∷ rest

-- `s.replace(old, new)`: after a match the characters of `old` are skipped.
unfoldable pub replace_text : Text → Text → ℕ → Text → Text
replace_text old new skip [] = []
replace_text old new (suc skip) (c ∷ cs) = replace_text old new skip cs
replace_text old new zero (c ∷ cs) =
    let skipped = replace_text old new (length old - 1) cs in
    let kept = replace_text old new 0 cs in
    if starts_with (c ∷ cs) old then new ++ skipped else c ∷ kept

unfoldable pub sql_key : Option Text → Text
sql_key sql =
    strip (drop_dollars (replace_text (text "__TEST_DIR__") (text "{TEST_DIR}") 0 (or_empty sql)))

-- `item.get("sql")`, as a condition.
abbrev pub has_sql : Outcome → Bool
has_sql item = not (has_no_items (or_empty item.sql))

abbrev pub key_of : Outcome → Text
key_of item = sql_key item.sql

-- Outcomes of the file whose statement has this key.
unfoldable pub matches_of : List FileEntry → Text → Text → List Outcome
matches_of [] file key = []
matches_of (entry ∷ entries) file key =
    let rest = matches_of entries file key in
    if text_eq entry.path file
    then keep (λ item. has_sql item && text_eq (key_of item) key) entry.outcomes ++ rest
    else rest

abbrev pub single_state : List Outcome → Text
single_state (item ∷ []) = state (item ∷ [])
single_state _ = text "unmapped"

-- `len(sqls) != 1`, and then the state of the one match.
abbrev pub counterpart_of : List Text → List FileEntry → Text → Text
counterpart_of [] files file = text "unmapped"
counterpart_of (key ∷ keys) files file =
    if every (text_eq key) keys then single_state (matches_of files file key) else text "unmapped"

unfoldable pub counterpart : List Outcome → BaselineReceipt → Text → Text
counterpart original producer file =
    if member file producer.missing_files
    then text "file-absent"
    else counterpart_of (map key_of (keep has_sql original)) producer.files file

pub record Joined : Type 0 where
  pub failure : Failure
  pub embedded : Text
  pub postgres : Text
  pub classification : Classification
  pub embedded_reason : Text
  pub postgres_reason : Text
  pub producers : Option (Text × Text)

abbrev pub reasons_of : List Outcome → Text
reasons_of items = join b'\n' (map (λ (o : Outcome). or_empty o.reason) items)

abbrev pub Producers : Type 0
Producers = Option (BaselineReceipt × BaselineReceipt)

abbrev pub producers_of : Producers → List Outcome → List Outcome → Text → Option (Text × Text)
producers_of none native pg file = none
producers_of (some (embedded, postgres)) native pg file =
    some (counterpart native embedded file, counterpart pg postgres file)

-- `int(row["line"])` is `read_line`.
module _ (read_line : Text → Result ℕ) where
  unfoldable pub join_row : BaselineReceipt → BaselineReceipt → Producers → Failure → Result Joined
  join_row embedded postgres producers row = do
    line ← read_line row.line
    let native = outcomes embedded.files row.file line
    let pg = outcomes postgres.files row.file line
    ok (record {
      failure = row;
      embedded = state native;
      postgres = state pg;
      classification = classify row (state native) (state pg);
      embedded_reason = reasons_of native;
      postgres_reason = reasons_of pg;
      producers = producers_of producers native pg row.file;
    })

  unfoldable pub triage :
      List Failure → BaselineReceipt → BaselineReceipt → Producers → Result (List Joined)
  triage [] embedded postgres producers = ok []
  triage (row ∷ rows) embedded postgres producers = do
    joined ← join_row embedded postgres producers row
    rest ← triage rows embedded postgres producers
    ok (joined ∷ rest)

-- What `load_baseline` reads of campaign.json.
pub record Campaign : Type 0 where
  pub status : Option Text
  pub corpus_commit : Text

unfoldable pub is_complete : Campaign → Measurements → Bool
is_complete campaign m =
    (elim campaign.status [ none ↦ false | some s ↦ text_eq s (text "diagnostic-complete") ])
    && has_no_items m.incomplete_files

unfoldable pub is_of_run : Campaign → BaselineReceipt → Text → Text → Bool
is_of_run campaign receipt axis commit =
    text_eq campaign.corpus_commit commit && text_eq receipt.axis axis

-- `any(source_hashes[file["path"]] != file["sha256"] …)`, up to the first that differs.
unfoldable pub compare_sources : Dict Text → List FileEntry → Guard
compare_sources hashes [] = ok tt
compare_sources hashes (file ∷ files) = do
  known ← or_key_error (lookup file.path hashes)
  require (text_eq known file.sha256) "Baseline corpus bytes differ from retained mirror evidence"
  compare_sources hashes files

abbrev pub compare_all : Option (Dict Text) → List FileEntry → Guard
compare_all none files = ok tt
compare_all (some hashes) files = compare_sources hashes files

unfoldable pub load_baseline :
    BaselineReceipt → Campaign → Text → Text → Option (Dict Text) → Result BaselineReceipt
load_baseline receipt campaign axis commit hashes = do
  m ← baseline_measurements receipt
  require (is_complete campaign m) "Incomplete diagnostic campaign"
  require (is_of_run campaign receipt axis commit) "Wrong corpus/backend baseline"
  compare_all hashes receipt.files
  ok receipt
