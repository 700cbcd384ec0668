-- ===== src/Smoke/Ledger.antt =====
-- The assertion ledger of compose/smoke_checks.py: `initialize`, `record`, `abort`, `finish` and
-- `verify_completed`, on the two files that they write beside the lifecycle record.
mod Records
pub mod Lifecycle
pub mod Phases
pub mod Closed
pub mod Completed
pub mod Finished
pub use doris_ducklake.Smoke.Ledger.Records.{Check, Files, KnownFailure, Ledger, Receipt, RunState}
use doris_ducklake.Prelude.{
  Bool, Guard, List, Option, Result, Text, [], err, every, false, for_each, if◌then◌else◌, is_hex,
  is_none, length, map, member, none, not, ok, or_key_error, os_error, require, some, text, text_eq,
  texts_equal, true, ℕ, ◌&&◌, ◌++◌, ◌==◌, ◌>>=◌, ◌>>◌, ◌∷◌,
}
use doris_ducklake.Prelude.Int.{ℤ}
use doris_ducklake.Json.{Decimal, Value}
use doris_ducklake.Smoke.Exact.{exact, py_eq, serializable}
use doris_ducklake.Smoke.Policy.{evaluate, required_cases, validate_policy}
use mathlib.Core.Option

abbrev pub known_failures : List KnownFailure
known_failures = []

abbrev pub smoke_scope : Text
smoke_scope = text "doris-smoke-supported-api27-v1"

abbrev pub ledger_schema : Text
ledger_schema = text "doris-smoke-assertions-v1"

abbrev pub receipt_schema : Text
receipt_schema = text "doris-smoke-correctness-v1"

-- `re.fullmatch(r"[0-9a-f]{32}", run_id)`
unfoldable pub is_run_id : Text → Bool
is_run_id run_id = (length run_id == 32) && every is_hex run_id

unfoldable pub context : RunState → Guard
context state = do
  require (state.deployment_attested && state.loaded_provider_verified)
      "Smoke requires deployment attestation"
  require (text_eq state.mode (text "full")) "Correctness checks require full mode"

-- A file that is not there.
abbrev pub read_file {ℓ} : {A : Type ℓ} → Option A → Result A
read_file none = err os_error
read_file (some a) = ok a

unfoldable pub new_ledger : RunState → Text → Text → Result Ledger
new_ledger state run_id now = do
  build ← or_key_error state.build_id
  sources ← or_key_error state.runtime_sources
  target ← or_key_error state.smoke_target
  ok (record {
    schema = ledger_schema;
    scope = smoke_scope;
    owner = state.owner;
    run_id = run_id;
    build_id = build;
    runtime_sources = sources;
    smoke_target = target;
    required = required_cases;
    status = text "checking";
    checks = [];
    started_at = now;
    aborted = none;
    finished_at = none;
  })

unfoldable pub initialize : RunState → Text → Text → Files → Result Files
initialize state run_id now files = do
  context state
  require (is_run_id run_id) "Invalid smoke run ID"
  require (is_none files.ledger) "Assertion ledger already exists; never adopt another run"
  ledger ← new_ledger state run_id now
  ok (record files { ledger = some ledger })

abbrev pub case_of : Check → Text
case_of c = c.case

unfoldable pub find_known : Text → Value → Value → List KnownFailure → Option KnownFailure
find_known case actual sources [] = none
find_known case actual sources (entry ∷ entries) =
    if text_eq entry.case case && py_eq entry.runtime_sources sources && exact entry.actual actual
    then some entry
    else find_known case actual sources entries

-- `None if passed else known_failure(…)`
unfoldable pub exception_of : Bool → Text → Value → Value → Option KnownFailure
exception_of passed case actual sources =
    if passed then none else find_known case actual sources known_failures

abbrev pub outcome_of : Bool → Option KnownFailure → Text
outcome_of true exception = text "passed"
outcome_of false (some _) = text "expected_failure"
outcome_of false none = text "failed"

-- `ledger["owner"] == state["owner"] and ledger["build_id"] == state["artifact"]["build_id"]`
unfoldable pub is_own : Ledger → RunState → Text → Bool
is_own ledger state build = text_eq ledger.owner state.owner && text_eq ledger.build_id build

unfoldable pub is_open_for : Ledger → Text → Bool
is_open_for ledger case =
    text_eq ledger.status (text "checking")
    && member case required_cases
    && not (member case (map case_of ledger.checks))

-- `decimal_text` is `str` of a `Decimal`, `dumps` the bytes that `write` puts into a file,
-- `sha256` their digest, and `source` the bytes of smoke_checks.py itself.
module _ (decimal_text : Decimal → Text) (dumps : Ledger → List ℕ) (sha256 : List ℕ → Text)
    (source : List ℕ) where
  -- The row that is appended.
  abbrev pub new_check : Text → Text → Value → Value → Text → Bool → Option KnownFailure → Check
  new_check case operator expected actual now passed exception = record {
    case = case;
    operator = operator;
    expected = serializable decimal_text expected;
    actual = serializable decimal_text actual;
    outcome = outcome_of passed exception;
    at = now;
    known_failure = Option.map (λ (k : KnownFailure). k.issue) exception;
  }

  -- The first half of `record`: all that it reads and all that may raise before its write.
  unfoldable pub judge :
      RunState → Text → Text → Value → Value → Text → Files → Result (Ledger × (Check × Bool))
  judge state case operator expected actual now files = do
    context state
    ledger ← read_file files.ledger
    build ← or_key_error state.build_id
    require (is_own ledger state build) "Foreign assertion ledger"
    require (is_open_for ledger case) "Duplicate/unknown check or closed ledger"
    validate_policy case operator expected
    passed ← evaluate operator actual expected
    sources ← or_key_error state.runtime_sources
    let exception = exception_of passed case actual sources
    ok (ledger, (new_check case operator expected actual now passed exception, passed))

  -- `ledger["checks"].append(…)`, and the status of a check that did not pass.
  unfoldable pub append_check : Ledger → Check → Bool → Ledger
  append_check ledger check passed = record ledger {
    checks = ledger.checks ++ check ∷ [];
    status = if passed then ledger.status else check.outcome;
  }

  unfoldable pub commit_check : Files → Result (Ledger × (Check × Bool)) → Files × Guard
  commit_check files (err e) = (files, err e)
  commit_check files (ok (ledger, (check, passed))) = (
    record files { ledger = some (append_check ledger check passed) },
    require passed "Smoke check did not pass",
  )

  -- The check is written before the exception is raised.
  unfoldable pub record_check :
      RunState → Text → Text → Value → Value → Text → Files → Files × Guard
  record_check state case operator expected actual now files =
      commit_check files (judge state case operator expected actual now files)

  unfoldable pub abort_ledger : Option Ledger → Text → ℤ → Text → Option Ledger
  abort_ledger none phase code now = none
  abort_ledger (some ledger) phase code now = some (record ledger {
    status = text "failed";
    aborted = some (phase, code);
    finished_at = some now;
  })

  unfoldable pub abort : RunState → Text → ℤ → Text → Files → Result Files
  abort state phase code now files = do
    context state
    ok (record files { ledger = abort_ledger files.ledger phase code now })

  -- One round of the loop in `validate_ledger`.
  unfoldable pub check_row : Check → Guard
  check_row row = do
    validate_policy row.case row.operator row.expected
    holds ←
        (if text_eq row.outcome (text "passed")
          then evaluate row.operator row.actual row.expected
          else ok false)
    require holds "Required assertion did not pass"

  -- `set(cases) == set(REQUIRED)`, one inclusion each.
  unfoldable pub are_known : List Text → Bool
  are_known cases = every (λ c. member c required_cases) cases

  unfoldable pub are_all_there : List Text → Bool
  are_all_there cases = every (λ r. member r cases) required_cases

  unfoldable pub covers_required : List Check → Bool
  covers_required rows =
      let cases = map case_of rows in
      (length rows == length required_cases) && are_known cases && are_all_there cases

  unfoldable pub is_bound : Ledger → RunState → Text → Value → Value → Bool
  is_bound ledger state build sources target =
      is_own ledger state build
      && py_eq ledger.runtime_sources sources
      && py_eq ledger.smoke_target target

  unfoldable pub validate_ledger : Ledger → RunState → Guard
  validate_ledger ledger state = do
    require (text_eq ledger.schema ledger_schema && text_eq ledger.scope smoke_scope)
        "Invalid assertion schema/scope"
    build ← or_key_error state.build_id
    sources ← or_key_error state.runtime_sources
    target ← or_key_error state.smoke_target
    require (is_bound ledger state build sources target)
        "Assertion owner/build/runtime/target mismatch"
    require (is_run_id ledger.run_id) "Invalid assertion run ID"
    require (texts_equal ledger.required required_cases) "Changed mandatory assertion list"
    require (covers_required ledger.checks) "Missing/duplicate mandatory assertions"
    for_each check_row ledger.checks

  abbrev pub close_ledger : Ledger → Text → Ledger
  close_ledger ledger now = record ledger { status = text "passed"; finished_at = some now }

  unfoldable pub receipt_of : Ledger → RunState → Text → Value → Text → Receipt
  receipt_of ledger state qualification target now = record {
    schema = receipt_schema;
    scope = smoke_scope;
    owner = state.owner;
    run_id = ledger.run_id;
    build_id = ledger.build_id;
    runtime_sources = ledger.runtime_sources;
    qualification = qualification;
    checks_passed = length required_cases;
    checks_required = length required_cases;
    smoke_target = target;
    policy_sha256 = sha256 source;
    ledger_sha256 = sha256 (dumps ledger);
    smoke_correctness_passed = true;
    f25_complete = true;
    finished_at = now;
  }

  -- What may raise before the first write of `finish`.
  unfoldable pub finishable : RunState → Files → Result Ledger
  finishable state files = do
    context state
    ledger ← read_file files.ledger
    require (text_eq ledger.status (text "checking")) "Failed/aborted ledger cannot finish"
    validate_ledger ledger state
    ok ledger

  unfoldable pub new_receipt : RunState → Ledger → Text → Result Receipt
  new_receipt state ledger now = do
    qualification ← or_key_error state.qualification
    target ← or_key_error state.smoke_target
    ok (receipt_of ledger state qualification target now)

  unfoldable pub write_receipt : Files → Result Receipt → Files × Guard
  write_receipt files (err e) = (files, err e)
  write_receipt files (ok receipt) = (record files { receipt = some receipt }, ok tt)

  -- The ledger is written as passed, then the receipt over the written ledger.
  unfoldable pub close_files : RunState → Text → Files → Result Ledger → Files × Guard
  close_files state now files (err e) = (files, err e)
  close_files state now files (ok ledger) =
      let closed = close_ledger ledger now in
      write_receipt (record files { ledger = some closed }) (new_receipt state closed now)

  unfoldable pub finish : RunState → Text → Files → Files × Guard
  finish state now files = close_files state now files (finishable state files)

  unfoldable pub is_current_receipt : Receipt → Ledger → Value → Bool
  is_current_receipt receipt ledger target =
      text_eq receipt.schema receipt_schema
      && text_eq receipt.scope smoke_scope
      && text_eq receipt.owner ledger.owner
      && text_eq receipt.run_id ledger.run_id
      && text_eq receipt.build_id ledger.build_id
      && py_eq receipt.runtime_sources ledger.runtime_sources
      && py_eq receipt.smoke_target target
      && text_eq receipt.policy_sha256 (sha256 source)
      && (receipt.checks_passed == receipt.checks_required)
      && (receipt.checks_required == length required_cases)
      && text_eq receipt.ledger_sha256 (sha256 (dumps ledger))
      && receipt.smoke_correctness_passed
      && receipt.f25_complete

  unfoldable pub verify_completed : RunState → Files → Result Receipt
  verify_completed state files = do
    context state
    ledger ← read_file files.ledger
    require (text_eq ledger.status (text "passed")) "No completed correctness ledger"
    validate_ledger ledger state
    receipt ← read_file files.receipt
    target ← or_key_error state.smoke_target
    require (is_current_receipt receipt ledger target)
        "Correctness receipt is incomplete, stale or foreign"
    ok receipt
