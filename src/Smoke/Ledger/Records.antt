-- ===== src/Smoke/Ledger/Records.antt =====
-- The files of a smoke run as compose/smoke_checks.py reads and writes them.
use doris_ducklake.Prelude.{Bool, List, Option, Text, ℕ}
use doris_ducklake.Prelude.Int.{ℤ}
use doris_ducklake.Json.{Value}

-- What the checks read of `lifecycle.json`. `none` is a key that is not there yet.
pub record RunState : Type 0 where
  pub deployment_attested : Bool
  pub loaded_provider_verified : Bool
  pub mode : Text
  pub owner : Text
  pub build_id : Option Text
  pub runtime_sources : Option Value
  pub smoke_target : Option Value
  pub qualification : Option Text

pub record Check : Type 0 where
  pub case : Text
  pub operator : Text
  pub expected : Value
  pub actual : Value
  pub outcome : Text
  pub at : Text
  pub known_failure : Option Text

-- `smoke-assertions.json`
pub record Ledger : Type 0 where
  pub schema : Text
  pub scope : Text
  pub owner : Text
  pub run_id : Text
  pub build_id : Text
  pub runtime_sources : Value
  pub smoke_target : Value
  pub required : List Text
  pub status : Text
  pub checks : List Check
  pub started_at : Text
  pub aborted : Option (Text × ℤ)
  pub finished_at : Option Text

-- `smoke-correctness.json`
pub record Receipt : Type 0 where
  pub schema : Text
  pub scope : Text
  pub owner : Text
  pub run_id : Text
  pub build_id : Text
  pub runtime_sources : Value
  pub qualification : Text
  pub checks_passed : ℕ
  pub checks_required : ℕ
  pub smoke_target : Value
  pub policy_sha256 : Text
  pub ledger_sha256 : Text
  pub smoke_correctness_passed : Bool
  pub f25_complete : Bool
  pub finished_at : Text

pub record Files : Type 0 where
  pub ledger : Option Ledger
  pub receipt : Option Receipt

-- An entry of `KNOWN_FAILURES`.
pub record KnownFailure : Type 0 where
  pub case : Text
  pub runtime_sources : Value
  pub actual : Value
  pub issue : Text
