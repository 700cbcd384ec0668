-- ===== src/Smoke/Ledger/Completed.antt =====
-- A run that is verified as completed has checked every required case by its policy, and a run
-- that `finish` closes is verified.
use doris_ducklake.Prelude.{
  ==_iff, >>=-eq-ok, All, All-map, Bool-cases, Guard, List, Text, [], ap, arith, every-All, false,
  for_each, if-eq, if◌then◌else◌, inl, inr, length, map, member, ok, ok_injective, or_key_error,
  refl, require, require->>-eq-ok, require-eq-ok, some, subst, sym, text, text_eq, text_eq_iff,
  text_eq_sound, texts_equal, true, ℕ, ◌&&◌, ◌>>=◌, ◌>>◌, ◌∙◌, ◌∷◌, ◌≡◌,
}
use doris_ducklake.Json.{Decimal, Value}
use doris_ducklake.Smoke.Policy.{evaluate, is_policy, required_cases, validate_policy}
use doris_ducklake.Smoke.Ledger.{
  Check, Files, Ledger, Receipt, RunState, are_all_there, case_of, check_row, context,
  covers_required, is_bound, is_current_receipt, is_run_id, ledger_schema, read_file, smoke_scope,
  validate_ledger, verify_completed,
}
use doris_ducklake.Smoke.Ledger.Lifecycle.{read_file-eq-ok}

-- What `validate_ledger` demands of a check, for one case.
pub record HasPassed (case : Text) (row : Check) : Type 0 where
  pub same_case : row.case ≡ case
  pub by_policy : is_policy row.case row.operator row.expected ≡ true
  pub passed : row.outcome ≡ text "passed"
  pub evaluated : evaluate row.operator row.actual row.expected ≡ ok true

-- One of the rows has passed the case.
pub data Passes (case : Text) : List Check → Type 0 where
  now : {row : Check} → {rows : List Check} → HasPassed case row → Passes case (row ∷ rows)
  later : {row : Check} → {rows : List Check} → Passes case rows → Passes case (row ∷ rows)

module _ (decimal_text : Decimal → Text) (dumps : Ledger → List ℕ) (sha256 : List ℕ → Text)
    (source : List ℕ) where
  abbrev row_ok : Check → Guard
  row_ok = check_row decimal_text dumps sha256 source

  check_row-HasPassed : (row : Check) → row_ok row ≡ ok tt → HasPassed row.case row
  unfolding check_row validate_policy
  check_row-HasPassed row h =
      let (by_policy, h₁) = require->>-eq-ok (is_policy row.case row.operator row.expected) _ _ h in
      let (holds, is_holds, h₂) =
        >>=-eq-ok
          (if text_eq row.outcome (text "passed")
            then evaluate row.operator row.actual row.expected
            else ok false)
          _ h₁ in
      let held =
        subst
          (λ b.
            (if text_eq row.outcome (text "passed")
              then evaluate row.operator row.actual row.expected
              else ok false)
            ≡ ok b)
          (require-eq-ok holds _ h₂) is_holds in
      elim (if-eq (text_eq row.outcome (text "passed"))
        (evaluate row.operator row.actual row.expected) (ok false) held) [
          | inl (passed, evaluated) ↦ record {
            same_case = refl;
            by_policy = by_policy;
            passed = text_eq_sound _ _ passed;
            evaluated = evaluated;
          }
          | inr (_, impossible) ↦ cc
        ]

  Passes-find :
      (case : Text) (rows : List Check)
      → member case (map case_of rows) ≡ true
      → for_each row_ok rows ≡ ok tt
      → Passes case rows
  unfolding member
  Passes-find case [] found h = cc
  Passes-find case (row ∷ rows) found h =
      let (_, first, rest) = >>=-eq-ok (row_ok row) _ h in
      elim (Bool-cases (text_eq case row.case)) [
        | inl same ↦ now (
            subst (λ c. HasPassed c row) (sym (text_eq_sound _ _ same))
              (check_row-HasPassed row first))
        | inr other ↦ later (Passes-find case rows (ground arith) rest)
      ]

  module _ (state : RunState) where
    pub validate_ledger-covers :
        (l : Ledger)
        → validate_ledger decimal_text dumps sha256 source l state ≡ ok tt
        → (covers_required decimal_text dumps sha256 source l.checks ≡ true)
          × (for_each row_ok l.checks ≡ ok tt)
    unfolding validate_ledger
    validate_ledger-covers l h =
        let (_, h₁) =
          require->>-eq-ok (text_eq l.schema ledger_schema && text_eq l.scope smoke_scope) _ _ h in
        let (build, _, h₂) = >>=-eq-ok (or_key_error state.build_id) _ h₁ in
        let (sources, _, h₃) = >>=-eq-ok (or_key_error state.runtime_sources) _ h₂ in
        let (target, _, h₄) = >>=-eq-ok (or_key_error state.smoke_target) _ h₃ in
        let (_, h₅) =
          require->>-eq-ok (is_bound decimal_text dumps sha256 source l state build sources target)
            _ _ h₄ in
        let (_, h₆) = require->>-eq-ok (is_run_id l.run_id) _ _ h₅ in
        let (_, h₇) = require->>-eq-ok (texts_equal l.required required_cases) _ _ h₆ in
        require->>-eq-ok (covers_required decimal_text dumps sha256 source l.checks) _ _ h₇

    each_Passes :
        (rows : List Check)
        → are_all_there decimal_text dumps sha256 source (map case_of rows) ≡ true
        → for_each row_ok rows ≡ ok tt
        → All (λ case. Passes case rows) required_cases
    unfolding are_all_there
    each_Passes rows h each =
        All-map required_cases (λ case found. Passes-find case rows found each)
          (every-All (λ r. member r (map case_of rows)) required_cases h)

    covers-All :
        (rows : List Check)
        → covers_required decimal_text dumps sha256 source rows ≡ true
        → for_each row_ok rows ≡ ok tt
        → All (λ case. Passes case rows) required_cases
    unfolding covers_required
    covers-All rows h each = each_Passes rows (ground arith) each

    -- What a verified run guarantees.
    pub record IsComplete (files : Files) (r : Receipt) : Type 0 where
      pub ledger : Ledger
      pub there : files.ledger ≡ some ledger
      pub receipt_there : files.receipt ≡ some r
      pub as_many : length ledger.checks ≡ length required_cases
      pub each_passes : All (λ case. Passes case ledger.checks) required_cases
      pub sealed : r.ledger_sha256 ≡ sha256 (dumps ledger)

    current-sealed :
        (r : Receipt) (l : Ledger) (target : Value)
        → is_current_receipt decimal_text dumps sha256 source r l target ≡ true
        → r.ledger_sha256 ≡ sha256 (dumps l)
    unfolding is_current_receipt
    current-sealed r l target h = ground (arith, text_eq_iff r.ledger_sha256 (sha256 (dumps l)))

    covers-count :
        (rows : List Check)
        → covers_required decimal_text dumps sha256 source rows ≡ true
        → length rows ≡ length required_cases
    unfolding covers_required
    covers-count rows h = ground (arith, ==_iff (length rows) (length required_cases))

    -- When verify_completed accepts, the ledger that is on disk has exactly as many checks as
    -- there are required cases, each required case has a check with its policy's operator and
    -- expectation that is recorded as passed and evaluates to true again, and the receipt that is
    -- on disk carries the digest of that very ledger.
    pub verify_completed-IsComplete :
        (files : Files) (r : Receipt)
        → verify_completed decimal_text dumps sha256 source state files ≡ ok r
        → IsComplete files r
    unfolding verify_completed
    verify_completed-IsComplete files r h =
        let (_, _, h₁) = >>=-eq-ok (context state) _ h in
        let (l, is_l, h₂) = >>=-eq-ok (read_file files.ledger) _ h₁ in
        let (_, h₃) = require->>-eq-ok (text_eq l.status (text "passed")) _ _ h₂ in
        let (_, valid, h₄) =
          >>=-eq-ok (validate_ledger decimal_text dumps sha256 source l state)
            (λ _. read_file files.receipt >>= (λ receipt.
              or_key_error state.smoke_target >>= (λ target.
                require (is_current_receipt decimal_text dumps sha256 source receipt l target)
                  "Correctness receipt is incomplete, stale or foreign"
                >> ok receipt)))
            h₃ in
        let (receipt, is_receipt, h₅) = >>=-eq-ok (read_file files.receipt) _ h₄ in
        let (target, _, h₆) = >>=-eq-ok (or_key_error state.smoke_target) _ h₅ in
        let (current, h₇) =
          require->>-eq-ok (is_current_receipt decimal_text dumps sha256 source receipt l target) _
            _ h₆ in
        let same : receipt ≡ r = ok_injective h₇ in
        let (covered, each) = validate_ledger-covers l valid in
        record {
          ledger = l;
          there = read_file-eq-ok files.ledger is_l;
          receipt_there = read_file-eq-ok files.receipt is_receipt ∙ ap some same;
          as_many = covers-count l.checks covered;
          each_passes = covers-All l.checks covered each;
          sealed =
              subst (λ (x : Receipt). x.ledger_sha256 ≡ sha256 (dumps l)) same
                (current-sealed receipt l target current);
        }
