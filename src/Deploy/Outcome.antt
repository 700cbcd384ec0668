-- ===== src/Deploy/Outcome.antt =====
-- What `run` and `_run` of compose/plugin_deploy.py judge and write, from what was kept.
use doris_ducklake.Prelude.{
  Bool, Guard, List, Option, Result, Text, [], and_then, false, map, none, not, ok, require, some,
  text, true, ℕ, ◌>>=◌, ◌>>◌, ◌||◌, ◌∷◌,
}
use doris_ducklake.Json.{Value, arr, item, obj, str, to_fields, to_items}
use doris_ducklake.Smoke.Exact.{py_eq}
use doris_ducklake.Smoke.Ledger.{Files, Receipt, RunState}
use doris_ducklake.Attest.Gates.{build_id_of, state_item}
use doris_ducklake.Deploy.Inspect.{is_running}
use doris_ducklake.Deploy.Config.{PathState, exists, file, is_file, missing, other}
use doris_ducklake.Deploy.State.{Images, Lifecycle, RunResult, Sources}
use doris_ducklake.Deploy.Process.{Process}
use doris_ducklake.Deploy.Substrate.{Routing}

-- `self.prior is None or self.prior["image"] == self.fe_image`
abbrev pub has_image_of : Option Process → Value → Bool
has_image_of none image = true
has_image_of (some prior) image = py_eq prior.image image

unfoldable pub check_config_files : Bool → PathState → PathState → Guard
check_config_files prior_there runtime template = do
  require (not (exists runtime) || is_file runtime) "Runtime config is not a regular file"
  require (not prior_there || is_file runtime) "Existing FE runtime configuration is missing"
  require (is_file runtime || is_file template) "Bootstrap FE config is missing"

-- The digest of the runtime configuration that is there.
unfoldable pub own_digest : (List ℕ → Text) → PathState → Lifecycle → Lifecycle
own_digest hash (file content) l = record l {
  config = record l.config { sha256 = some (hash content) };
}
own_digest hash missing l = l
own_digest hash other l = l

-- The routing, as it stands in lifecycle.json.
unfoldable pub routing_value : Routing → Value
routing_value r = obj (
    to_fields (
      (text "project", r.project)
      ∷ (text "postgres", str r.postgres)
      ∷ (text "minio", str r.minio)
      ∷ (text "network", str r.network)
      ∷ (
        text "images",
        obj (
            to_fields (
              (text "postgres", r.postgres_image)
              ∷ (text "minio", r.minio_image)
              ∷ (text "python", r.python_image)
              ∷ (text "mc", r.mc_image)
              ∷ [])),
      )
      ∷ (text "compose_sha256", str r.compose_sha256)
      ∷ []))

abbrev pub texts_value : List Text → Value
texts_value ts = arr (to_items (map str ts))

unfoldable pub sources_value : Sources → Value
sources_value sources = obj (
    to_fields (
      (text "expected", str sources.expected)
      ∷ (text "fe", texts_value sources.fe)
      ∷ (text "be", texts_value sources.be)
      ∷ []))

abbrev pub map_sources : Option Sources → Option Value
map_sources none = none
map_sources (some sources) = some (sources_value sources)

abbrev pub known_build : Option Value → Result (Option Text)
known_build none = ok none
known_build (some artifact) = do build ← build_id_of (some artifact); ok (some build)

-- What `verify_completed` reads of lifecycle.json.
unfoldable pub run_state : Text → Text → Bool → Lifecycle → Result RunState
run_state token mode attested l = do
  build ← known_build l.artifact
  ok (record {
    deployment_attested = attested;
    loaded_provider_verified = l.loaded_provider_verified;
    mode = mode;
    owner = token;
    build_id = build;
    runtime_sources = map_sources l.runtime_sources;
    smoke_target = l.smoke_target;
    qualification = l.qualification;
  })

-- The backend is the one of the attestation, and runs.
unfoldable pub is_known_backend : Images → Value → Result Bool
is_known_backend known be = do
  running ← is_running be
  image ← and_then running (do v ← item (text "Image") be; ok (py_eq v known.be_id))
  and_then image
      (do started ← state_item (text "StartedAt") be; ok (py_eq started known.be_started_at))

abbrev pub status_of : Bool → Bool → Text
status_of has_command true = text "smoke-correctness-passed"
status_of true false = text "command-completed"
status_of false false = text "attested-only"

abbrev pub success_result : Bool → Bool → RunResult
success_result has_command passed = record {
  status = status_of has_command passed;
  run_success = true;
  deployment_attested = true;
  smoke_correctness_passed = passed;
  f25_complete = passed;
}

abbrev pub failure_result : Bool → RunResult
failure_result attested = record {
  status = text "failed";
  run_success = false;
  deployment_attested = attested;
  smoke_correctness_passed = false;
  f25_complete = false;
}

-- `verify_completed` of lifecycle.json as it now stands, with the files beside it.
unfoldable pub completed_from :
    (RunState → Files → Result Receipt) → Text → Text → Bool → Lifecycle → Result Receipt
completed_from verified token mode attested l = do
  state ← run_state token mode attested l
  verified state l.smoke
