-- ===== src/Smoke/Tests.antt =====
-- Runs of the smoke ledger on concrete inputs.
use doris_ducklake.Smoke.Lake.{
  Environ, connect_smoke, doris_literal, double_quote, identifier, quote, required_duckdb,
  sql_literal, uri_option,
}
use doris_ducklake.Smoke.Lake.Quoting.{
  literals_are_read, opened, read_doris, read_libpq, read_quoted, uri_option-is_read,
}
use doris_ducklake.Smoke.Lake.Guarding.{IsContained, connect_smoke-IsContained}
use doris_ducklake.Smoke.Rows.{
  Row, check_fixture, compare_rows, fixtures, has_shape, reference_rows, same_row, validate_rows,
}
use doris_ducklake.Smoke.Rows.Typed.{AreReference, reference_rows-AreReference, validate_rows_iff}
use doris_ducklake.Prelude.Int.{◌-ℤ◌}
use doris_ducklake.Smoke.Exact.{exact, py_eq, same_key_set}
use doris_ducklake.Smoke.Exact.Reflexive.{IsDocument}
use doris_ducklake.Smoke.Ledger.Phases.{Moves, perform-Moves, phase_of}
use doris_ducklake.Smoke.Ledger.Lifecycle.{Event, check, complete, perform, perform_all, start}
use doris_ducklake.Smoke.Ledger.Closed.{IsFailed, IsFailed-stays-IsFailed}
use doris_ducklake.Smoke.Ledger.Completed.{IsComplete, verify_completed-IsComplete}
use doris_ducklake.Smoke.Ledger.Finished.{finish-verify_completed}
use doris_ducklake.Prelude.{
  Dict, Guard, List, Result, Text, [], contains, false, if◌then◌else◌, is_digit, is_hex, lookup,
  map, member, none, ok, or_key_error, refl, some, starts_with, suc, text, text_eq, texts_equal,
  true, zero, ℕ, ◌++◌, ◌↔◌, ◌∷◌, ◌≡◌, ◌≢◌,
}
use doris_ducklake.Json.{Decimal, Fields, Value, end, eq_Decimal, field, null, obj, str}
use doris_ducklake.Smoke.Policy.{
  cleanup_holds, equals, evaluate, expiry_holds, field_is, int, int_of, is_policy, list, named_row,
  orphans_hold, policy, required_cases, validate_policy,
}
use doris_ducklake.Smoke.Ledger.{
  Check, Files, Ledger, Receipt, RunState, are_all_there, are_known, check_row, close_files,
  context, covers_required, finish, finishable, is_bound, is_own, is_run_id, ledger_schema,
  new_receipt, receipt_of, smoke_scope, validate_ledger, verify_completed, write_receipt,
}

abbrev a_hash : List ℕ → Text
a_hash bytes = bytes

abbrev no_decimal : Decimal → Text
no_decimal d = []

abbrev dump : Ledger → List ℕ
dump l = l.run_id

abbrev a_state : RunState
a_state = record {
  deployment_attested = true;
  loaded_provider_verified = true;
  mode = text "full";
  owner = text "me";
  build_id = some (text "build");
  runtime_sources = some (str (text "sources"));
  smoke_target = some (str (text "target"));
  qualification = some (text "matching-pinned-fe-be");
}

unfoldable copies : ℕ → Value → List Value
copies zero v = []
copies (suc n) v = v ∷ copies n v

abbrev oracle_rows : ℕ → Value
unfolding copies
oracle_rows n = list (copies n (named_row 1 "O"))

abbrev entry : Text → Value → Fields → Fields
entry k v fs = field k v fs

abbrev maintenance : Text → Value
maintenance operator =
    if text_eq operator (text "expiry")
    then obj (
        field (text "before") (int 3)
          (field (text "after") (int 1) (field (text "expired") (int 2) end)))
    else if text_eq operator (text "cleanup")
    then obj (
        field (text "deleted") (int 1) (
          field (text "failed") (int 0)
            (field (text "blob") (str (text "gone")) (field (text "schedule") (int 0) end))))
    else obj (
        field (text "deleted") (int 1) (
          field (text "failed") (int 0) (
            field (text "orphan") (str (text "gone")) (
              field (text "success") (str (text "present"))
                (field (text "foreign") (str (text "present")) end)))))

abbrev actual_for : Text → Value → Value
actual_for operator null = maintenance operator
actual_for operator v = v

abbrev row_for : Text → Text × Value → Check
row_for case (operator, expected) = record {
  case = case;
  operator = operator;
  expected = expected;
  actual = actual_for operator expected;
  outcome = text "passed";
  at = text "t1";
  known_failure = none;
}

abbrev full_policy : Dict (Text × Value)
full_policy =
    (text "tpch_sample", equals (oracle_rows 5))
    ∷ (text "filter_rows", equals (oracle_rows 7))
    ∷ (text "delete_rows", equals (oracle_rows 93))
    ∷ policy

abbrev full_checks : List Check
full_checks = map (λ e. row_for e.0 e.1) full_policy

abbrev ledger_with : Text → List Check → Ledger
ledger_with status checks = record {
  schema = ledger_schema;
  scope = smoke_scope;
  owner = text "me";
  run_id = text "0123456789abcdef0123456789abcdef";
  build_id = text "build";
  runtime_sources = str (text "sources");
  smoke_target = str (text "target");
  required = required_cases;
  status = status;
  checks = checks;
  started_at = text "t0";
  aborted = none;
  finished_at = none;
}

abbrev a_full_ledger : Ledger
a_full_ledger = ledger_with (text "checking") full_checks

abbrev full_files : Files
full_files = record { ledger = some a_full_ledger; receipt = none }

finishes_full :
    (finish no_decimal dump a_hash (text "source") a_state (text "t2") full_files).1 ≡ ok tt
unfolding finish close_files finishable context text_eq text validate_ledger is_bound is_own py_eq
    is_run_id is_hex texts_equal covers_required are_known member are_all_there check_row eq_Decimal
    contains lookup ◌-ℤ◌ is_digit exact same_key_set new_receipt receipt_of write_receipt
    cleanup_holds evaluate expiry_holds field_is int_of is_policy orphans_hold validate_policy
    copies
finishes_full = refl

abbrev IsVerified : Files → Type 0
IsVerified files =
    (r : Receipt) × (verify_completed no_decimal dump a_hash (text "source") a_state files ≡ ok r)

documents : IsDocument (str (text "sources")) × IsDocument (str (text "target"))
unfolding IsDocument
documents = (tt, tt)

finish-verify_completed_example :
    IsVerified (finish no_decimal dump a_hash (text "source") a_state (text "t2") full_files).0
finish-verify_completed_example =
    finish-verify_completed no_decimal dump a_hash (text "source") a_state (text "t2") full_files
      a_full_ledger (str (text "target")) refl refl documents.0 documents.1 finishes_full

abbrev closed_files : Files
closed_files = (finish no_decimal dump a_hash (text "source") a_state (text "t2") full_files).0

verified : IsVerified closed_files
verified =
    finish-verify_completed no_decimal dump a_hash (text "source") a_state (text "t2") full_files
      a_full_ledger (str (text "target")) refl refl documents.0 documents.1 finishes_full

verify_completed-IsComplete_example :
    IsComplete no_decimal dump a_hash (text "source") a_state closed_files verified.0
verify_completed-IsComplete_example =
    verify_completed-IsComplete no_decimal dump a_hash (text "source") a_state closed_files
      verified.0 verified.1

abbrev failed_files : Files
failed_files = record { ledger = some (ledger_with (text "failed") []); receipt = none }

failed_files-IsFailed : IsFailed failed_files
unfolding text text_eq
failed_files-IsFailed = record {
  ledger = ledger_with (text "failed") [];
  there = refl;
  not_checking = refl;
  not_passed = refl;
}

abbrev later_events : List Event
later_events =
    start (text "0123456789abcdef0123456789abcdef") (text "t3")
    ∷ check (text "ddl_drop") (text "eq") (int 0) (int 0) (text "t4")
    ∷ complete (text "t5")
    ∷ []

abbrev later_files : Files
later_files = perform_all no_decimal dump a_hash (text "source") a_state later_events failed_files

IsFailed-stays-IsFailed_example :
    IsFailed later_files
    × (later_files.receipt ≡ none)
    × ((r : Receipt)
        → verify_completed no_decimal dump a_hash (text "source") a_state later_files ≢ ok r)
IsFailed-stays-IsFailed_example =
    IsFailed-stays-IsFailed no_decimal dump a_hash (text "source") a_state later_events failed_files
      failed_files-IsFailed

perform-Moves_example : Moves (phase_of full_files.ledger) (
    phase_of
      (perform no_decimal dump a_hash
        (text "source")
        a_state
        (complete (text "t2"))
        full_files).ledger)
perform-Moves_example =
    perform-Moves no_decimal dump a_hash (text "source") a_state (complete (text "t2")) full_files

abbrev an_environ : Environ
an_environ =
    (text "SMOKE_RUN_ID", text "0123456789abcdef0123456789abcdef")
    ∷ (text "PG_DB", text "doris_smoke_0123456789abcdef0123456789abcdef")
    ∷ (text "DATA_PATH", text "s3://ducklake/doris-smoke/0123456789abcdef0123456789abcdef/")
    ∷ []

abbrev accepts_all : List Text → Text → Guard
accepts_all done sql = ok tt

connect_smoke-IsContained_example :
    IsContained accepts_all an_environ (connect_smoke accepts_all an_environ (some required_duckdb))
connect_smoke-IsContained_example =
    connect_smoke-IsContained accepts_all an_environ (some required_duckdb)

abbrev tricky : Text
tricky = text "it's \\'; --"

no_quote : starts_with (text " AS lake") (quote ∷ []) ≡ false
unfolding starts_with text
no_quote = refl

no_double_quote : starts_with (text " AS lake") (double_quote ∷ []) ≡ false
unfolding starts_with text
no_double_quote = refl

literals_are_read_example :
    (opened quote (read_quoted quote) (sql_literal tricky ++ text " AS lake")
      ≡ some (tricky, text " AS lake"))
    × (opened double_quote (read_quoted double_quote) (identifier tricky ++ text " AS lake")
        ≡ some (tricky, text " AS lake"))
    × (opened quote read_doris (doris_literal tricky ++ text " AS lake")
        ≡ some (tricky, text " AS lake"))
literals_are_read_example = literals_are_read tricky (text " AS lake") no_quote no_double_quote

uri_option-is_read_example :
    (quoted : Text) × (uri_option (text "user") tricky ++ text " host"
      ≡ text "user" ++ b'=' ∷ quoted)
    × (opened quote read_libpq quoted ≡ some (tricky, text " host"))
uri_option-is_read_example = uri_option-is_read (text "user") tricky (text " host")

abbrev fetched : Text → Result (List Row)
fetched sql = or_key_error (lookup (text "nullable") fixtures)

abbrev nullable_fixture : List Row
nullable_fixture =
    (int 1 ∷ int 10 ∷ []) ∷ (int 2 ∷ null ∷ []) ∷ (int 3 ∷ int 30 ∷ []) ∷ (int 4 ∷ null ∷ []) ∷ []

reference_read : reference_rows fetched (text "nullable_rows") ≡ ok nullable_fixture
unfolding reference_rows contains lookup text text_eq has_shape check_fixture validate_rows
    compare_rows same_row py_eq eq_Decimal ◌-ℤ◌
reference_read = refl

reference_rows-AreReference_example : AreReference (text "nullable_rows") nullable_fixture
reference_rows-AreReference_example =
    reference_rows-AreReference fetched (text "nullable_rows") nullable_fixture reference_read

validate_rows_iff_example :
    (validate_rows nullable_fixture nullable_fixture ≡ ok nullable_fixture)
    ↔ ((nullable_fixture ≡ nullable_fixture) × (nullable_fixture ≡ nullable_fixture))
validate_rows_iff_example =
    validate_rows_iff nullable_fixture nullable_fixture nullable_fixture
      ((tt, (tt, tt)), ((tt, (tt, tt)), ((tt, (tt, tt)), ((tt, (tt, tt)), tt))))
