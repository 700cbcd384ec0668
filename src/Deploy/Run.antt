-- ===== src/Deploy/Run.antt =====
-- A whole deployment: `run`, `_run` and `teardown` of compose/plugin_deploy.py, under the claim.
pub mod Receipts
pub mod Success
pub mod Reaching
pub mod Leaving
pub mod Installed
pub mod Stages
use doris_ducklake.Smoke.Policy.{policy}
use doris_ducklake.Deploy.Exec.{finally, handle, modify, pure, return, ◌>>=◌, ◌>>◌}
use doris_ducklake.Prelude.{
  Bool, Error, Guard, List, Option, Result, Text, [], err, false, if◌then◌else◌, is_none, none, not,
  ok, or_key_error, require, some, take, text, text_eq, true, ℕ, ◌++◌, ◌||◌, ◌∷◌,
}
use doris_ducklake.Json.{Decimal, to_text, truthy}
use doris_ducklake.Smoke.Exact.{py_eq}
use doris_ducklake.Smoke.Ledger.{Files, Ledger, Receipt, RunState, verify_completed}
use doris_ducklake.Preflight.Utf8.{utf8}
use doris_ducklake.Attest.Provider.{attest}
use doris_ducklake.Deploy.State.{Attestation, Lifecycle, RunResult}
use doris_ducklake.Deploy.Process.{Process, process_of}
use doris_ducklake.Deploy.Claim.{Call, Command, Deployment, Step, cleanup_helpers, ownership}
use doris_ducklake.Deploy.Frontend.{fail_closed, fe}
use doris_ducklake.Deploy.Readiness.{startup_late}
use doris_ducklake.Deploy.Host.{
  Host, Settings, ask, frontend_now, look, look_up, note, runtime_now, target_now, update,
}
use doris_ducklake.Deploy.Startup.{confirm_process, metadata_cluster_id, start}
use doris_ducklake.Deploy.Substrate.{image_of, resolve_substrate}
use doris_ducklake.Deploy.Install.{Evidence, backup, install, preserve_candidate}
use doris_ducklake.Deploy.Outcome.{
  check_config_files, completed_from, failure_result, has_image_of, is_known_backend, own_digest,
  routing_value, success_result,
}

-- The smoke command, if there is one: what its process leaves of the ledger's two files, and
-- whether its exit status is 0. `substrate` is the substrate's compose file; `dumps` are the bytes of
-- a ledger's file, and `policy` those of smoke_checks.py.
pub record Smoke : Type 0 where
  pub has_command : Bool
  pub substrate : Text
  pub child : List Call → Files → Files × Result Bool
  pub decimal_text : Decimal → Text
  pub dumps : Ledger → List ℕ
  pub policy : List ℕ

module _ (h : Host) (s : Settings) (files : Evidence h.hash) (smoke : Smoke) where
  abbrev pub is_full : Bool
  is_full = text_eq s.mode (text "full")

  abbrev pub completed : RunState → Files → Result Receipt
  completed = verify_completed smoke.decimal_text smoke.dumps h.hash smoke.policy

  -- The image that is selected, and the frontend that is there before.
  unfoldable pub own_frontend : Step (Unit {0})
  own_frontend = do
    current ← target_now h s
    image ← image_of h s (to_text s.target.spec.image)
    found ← frontend_now h s
    prior ← pure (process_of found)
    update (λ (l : Lifecycle). record l { fe_image = image; prior = prior })
    pure (
        require (has_image_of prior image)
          "Existing FE image differs from selected image; explicit migration required")

  unfoldable pub own_config : Step (Unit {0})
  own_config = do
    runtime ← runtime_now h s
    prior ← look_up (λ (l : Lifecycle). l.prior)
    pure (check_config_files (not (is_none prior)) runtime h.template)
    update (own_digest h.hash runtime)

  unfoldable pub own_cluster : Option Process → Step (Unit {0})
  own_cluster none = return tt
  own_cluster (some prior) = do
    id ← (if truthy prior.running then metadata_cluster_id h s prior.id else return none)
    update (λ (l : Lifecycle). record l { prior_cluster_id = id })

  unfoldable pub own_target : Step (Unit {0})
  own_target = do
    own_frontend
    own_config
    prior ← look_up (λ (l : Lifecycle). l.prior)
    own_cluster prior
    note h s (text "owned-target-revalidated")

  abbrev pub up_substrate : Command
  up_substrate =
      text "compose"
      ∷ text "-f"
      ∷ smoke.substrate
      ∷ text "up"
      ∷ text "-d"
      ∷ text "--no-recreate"
      ∷ text "--wait"
      ∷ text "--wait-timeout"
      ∷ text "120"
      ∷ text "postgres"
      ∷ text "minio"
      ∷ []

  -- In the full mode, the routing must be the same before and after the substrate's start.
  unfoldable pub raise_substrate : Bool → Step (Unit {0})
  raise_substrate false = do started ← ask h s up_substrate; return tt
  raise_substrate true = do
    before ← resolve_substrate h s smoke.substrate false
    started ← ask h s up_substrate
    after ← resolve_substrate h s smoke.substrate true
    pure (
        require (py_eq (routing_value after.0) (routing_value before.0))
          "Substrate routing changed during startup")
    update (λ (l : Lifecycle). record l { smoke_target = some (routing_value after.0) })

  unfoldable pub complete_lifecycle : Step (Unit {0})
  complete_lifecycle = do
    update (λ (l : Lifecycle). record l { lifecycle_complete = true })
    note h s (text "lifecycle-complete-not-provider-attested")

  -- The child process, to its end.
  unfoldable pub run_child : Step Bool
  run_child d =
      let (left, status) = smoke.child d.calls d.lifecycle.smoke in
      (record d { lifecycle = record d.lifecycle { smoke = left } }, status)

  -- `verify_completed(self.evidence / "lifecycle.json")`
  unfoldable pub completed_now : Step Receipt
  completed_now d = (d, completed_from completed s.token s.mode d.deployment_attested d.lifecycle)

  unfoldable pub confirm_backend : Step (Unit {0})
  confirm_backend = do
    images ← look_up (λ (l : Lifecycle). l.runtime_images)
    known ← pure (or_key_error images)
    be ← look h s known.be_container_id
    same ← pure (is_known_backend known be)
    pure (require same "BE process changed during correctness checks")

  unfoldable pub prove_correctness : Bool → Step (Unit {0})
  prove_correctness false = return tt
  prove_correctness true = do
    proof ← completed_now
    fe ← confirm_process h s
    confirm_backend
    update (λ (l : Lifecycle). record l { smoke_correctness_passed = true })
    note h s (text "smoke-correctness-verified")

  unfoldable pub run_command : Bool → Step (Unit {0})
  run_command false = return tt
  run_command true = do
    succeeded ← run_child
    pure (require succeeded "Smoke command failed")
    prove_correctness is_full
    note h s (text "smoke-command-finished")

  -- `false`, the end of the fuel, is not reached.
  abbrev pub ready_or_late : Option (Unit {0}) → Guard
  ready_or_late none = err startup_late
  ready_or_late (some _) = ok tt

  unfoldable pub deploy : Step (Unit {0})
  deploy = do
    own_target
    preserve_candidate h s files
    backup h s files
    (if smoke.has_command then raise_substrate is_full else return tt)
    install h s
    ready ← start h s
    pure (ready_or_late ready)
    complete_lifecycle
    attest h s
    run_command smoke.has_command

  -- Failed helpers are removed before the frontend is stopped, and the exception is raised again.
  unfoldable pub recover : Error → Step (Unit {0})
  recover raised = do
    finally (note h s (text "failed")) (
        finally (cleanup_helpers h.daemon h.loads h.save s.token)
          (fail_closed h.daemon h.loads h.save s.token h.digest s.compose s.target))
    pure (err raised)

  unfoldable pub guarded_deploy : Step (Unit {0})
  guarded_deploy d = handle (deploy d) (λ _. true) recover

  abbrev pub claim_name : Text
  claim_name = text "doris-ducklake-deploy-" ++ take 40 (h.hash (utf8 s.target.spec.volume))

  -- `with self.ownership(): …`
  abbrev pub under_claim : Step (Unit {0}) → Step (Unit {0})
  under_claim body = ownership h.daemon h.loads h.save s.token claim_name s.target.spec.volume body

  -- `_run`
  unfoldable pub run_owned : Step (Unit {0})
  run_owned = under_claim guarded_deploy

  unfoldable pub store_now : Text → Step (Unit {0})
  store_now name d = (d, h.store d.calls name)

  unfoldable pub write_result : RunResult → Step (Unit {0})
  write_result result = do
    store_now (text "run-result.json")
    update (λ (l : Lifecycle). record l { run_result = some result })

  unfoldable pub check_correctness : Bool → Step (Unit {0})
  check_correctness false = return tt
  check_correctness true = do
    passed ← look_up (λ (l : Lifecycle). l.smoke_correctness_passed)
    pure (require passed "Full smoke correctness proof was not completed")
    proof ← completed_now
    return tt

  abbrev pub attested_now : Step Bool
  attested_now d = (d, ok d.deployment_attested)

  -- The body of the `try` in `run`.
  unfoldable pub run_to_result : Step (Unit {0})
  run_to_result = do
    pure (require (not is_full || smoke.has_command) "Full smoke needs a continuation")
    run_owned
    attested ← attested_now
    pure (require attested "Deployment attestation was not completed")
    check_correctness is_full
    passed ← look_up (λ (l : Lifecycle). l.smoke_correctness_passed)
    write_result (success_result smoke.has_command passed)

  -- The rename of a receipt that is there.
  unfoldable pub set_aside_attestation : Option Attestation → Step (Unit {0})
  set_aside_attestation none = return tt
  set_aside_attestation (some receipt) = do
    store_now (text "deployment-attested-before-error.json")
    update (λ (l : Lifecycle). record l {
      attestation = none;
      attestation_before_error = some receipt;
    })

  unfoldable pub set_aside_smoke : Option Receipt → Step (Unit {0})
  set_aside_smoke none = return tt
  set_aside_smoke (some receipt) = do
    store_now (text "smoke-correctness-before-error.json")
    update (λ (l : Lifecycle). record l {
      smoke = record { ledger = l.smoke.ledger; receipt = none };
      smoke_before_error = true;
    })

  unfoldable pub record_failure : Error → Step (Unit {0})
  record_failure raised = do
    attestation ← look_up (λ (l : Lifecycle). l.attestation)
    set_aside_attestation attestation
    receipt ← look_up (λ (l : Lifecycle). l.smoke.receipt)
    set_aside_smoke receipt
    attested ← attested_now
    write_result (failure_result attested)
    pure (err raised)

  unfoldable pub run : Step (Unit {0})
  run d = handle (run_to_result d) (λ _. true) record_failure

  abbrev pub down_command : Command
  down_command = text "compose" ∷ text "-f" ∷ s.compose ∷ text "down" ∷ text "-v" ∷ []

  unfoldable pub tear_down : Step (Unit {0})
  tear_down = do
    current ← target_now h s
    stopped ← ask h s down_command
    note h s (text "explicit-teardown-finished")

  -- A request to remove everything may still be under way: the claim is kept.
  unfoldable pub doubt_teardown : Error → Step (Unit {0})
  doubt_teardown raised = do
    modify (λ (d : Deployment). record d { unsafe_fe_state = true })
    pure (err raised)

  unfoldable pub teardown : Step (Unit {0})
  teardown = under_claim (λ d. handle (tear_down d) (λ _. true) doubt_teardown)
