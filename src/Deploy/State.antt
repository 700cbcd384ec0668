-- ===== src/Deploy/State.antt =====
-- What a deployment of compose/plugin_deploy.py keeps in `self.state` and in its evidence
-- directory, as far as its own code reads it again.
use doris_ducklake.Prelude.{Bool, Dict, List, Option, Text, [], false, none, ℕ}
use doris_ducklake.Json.{Value, null}
use doris_ducklake.Smoke.Ledger.{Files}
use doris_ducklake.Deploy.Process.{Process}
use doris_ducklake.Deploy.Config.{Config}

-- `{"required": required, "passed": passed}`; `none` is a gate that was not decided.
pub record Gate : Type 0 where
  pub required : Bool
  pub passed : Option Bool

-- `state["runtime_sources"]`
pub record Sources : Type 0 where
  pub expected : Text
  pub fe : List Text
  pub be : List Text

-- `state["runtime_images"]`
pub record Images : Type 0 where
  pub fe_reference : Value
  pub fe_id : Value
  pub be_reference : Text
  pub be_id : Value
  pub be_container : Text
  pub be_container_id : Text
  pub be_started_at : Value

-- deployment-attested.json
pub record Attestation : Type 0 where
  pub owner : Text
  pub artifact : Value
  pub prior_process : Option Process
  pub fe_process : Option Process
  pub runtime_images : Images
  pub runtime_sources : Sources
  pub provider_inventory : List (Dict Text)
  pub gates : Dict Gate
  pub qualification : Text
  pub runtime_config_sha256 : Option Text

-- run-result.json
pub record RunResult : Type 0 where
  pub status : Text
  pub run_success : Bool
  pub deployment_attested : Bool
  pub smoke_correctness_passed : Bool
  pub f25_complete : Bool

-- `written_config` is what `stage_config` wrote to `.fe.conf.runtime`. `attestation` and `smoke`
-- are the receipts in the evidence directory; those set aside after an error are the next two.
pub record Lifecycle : Type 0 where
  pub prior : Option Process
  pub fe_image : Value
  pub prior_cluster_id : Option Text
  pub config : Config
  pub written_config : Option (List ℕ)
  pub new_process : Option Process
  pub ready : Bool
  pub artifact : Option Value
  pub lifecycle_complete : Bool
  pub runtime_sources : Option Sources
  pub runtime_images : Option Images
  pub provider_inventory : List (Dict Text)
  pub gates : Dict Gate
  pub qualification : Option Text
  pub loaded_provider_verified : Bool
  pub smoke_target : Option Value
  pub smoke_correctness_passed : Bool
  pub attestation : Option Attestation
  pub smoke : Files
  pub attestation_before_error : Option Attestation
  pub smoke_before_error : Bool
  pub run_result : Option RunResult

abbrev pub no_config : Config
no_config = record { sha256 = none; initialized = false; before_start = [] }

-- A deployment that has not done anything yet.
abbrev pub nothing_done : Lifecycle
nothing_done = record {
  prior = none;
  fe_image = null;
  prior_cluster_id = none;
  config = no_config;
  written_config = none;
  new_process = none;
  ready = false;
  artifact = none;
  lifecycle_complete = false;
  runtime_sources = none;
  runtime_images = none;
  provider_inventory = [];
  gates = [];
  qualification = none;
  loaded_provider_verified = false;
  smoke_target = none;
  smoke_correctness_passed = false;
  attestation = none;
  smoke = record { ledger = none; receipt = none };
  attestation_before_error = none;
  smoke_before_error = false;
  run_result = none;
}
