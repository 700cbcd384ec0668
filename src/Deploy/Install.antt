-- ===== src/Deploy/Install.antt =====
-- `preserve_candidate`, `backup` and `install` of compose/plugin_deploy.py.
use doris_ducklake.Deploy.Exec.{modify, pure, ◌>>=◌, ◌>>◌}
use doris_ducklake.Prelude.{
  Bool, List, Result, Text, [], false, or_key_error, require, some, text, true, ℕ, ◌++◌, ◌∷◌,
}
use doris_ducklake.Json.{Value}
use doris_ducklake.Smoke.Exact.{py_eq}
use doris_ducklake.Preflight.Target.{project_label, volume_label}
use doris_ducklake.Volume.{Backup, Tree, verify_backup}
use doris_ducklake.Deploy.State.{Lifecycle}
use doris_ducklake.Deploy.Claim.{Call, Command, Deployment, Job, Step, copy_worker, fetch_all}
use doris_ducklake.Deploy.Writing.{assert_stopped, stop_fe}
use doris_ducklake.Deploy.Host.{
  Host, Settings, ask, look_up, note, prior_identity, target_now, update, work,
}
use doris_ducklake.Deploy.Startup.{stage_runtime_config}
use doris_ducklake.Attest.Provider.{verify_job}

-- What stands in the evidence directory when it is read: `bundle` is the outcome of
-- `verify_bundle` on the copies of the bundle; `empty_snapshot` is what `snapshot` of an empty
-- directory gives, and `fetched` previous.tar and previous.json, decoded, after these commands.
pub record Evidence (hash : List ℕ → Text) : Type 0 where
  pub bundle : Result Value
  pub empty_snapshot : Result (List ℕ × Backup hash)
  pub fetched : List Call → Result (List ℕ × Backup hash)
  pub open_tar : List ℕ → Result Tree

abbrev pub snapshot_job : Job
snapshot_job = record {
  operation = text "snapshot";
  readonly = true;
  candidate = false;
  previous = false;
  results = text "previous.tar" ∷ text "previous.json" ∷ [];
}

abbrev pub install_job : Job
install_job = record {
  operation = text "install";
  readonly = false;
  candidate = true;
  previous = true;
  results = text "installed.json" ∷ [];
}

abbrev pub prepare_command : Text → Command
prepare_command claim =
    text "exec" ∷ claim ∷ text "python3" ∷ text "/work/plugin_volume.py" ∷ text "prepare" ∷ []

module _ (h : Host) (s : Settings) where
  -- The identity of the claim's container, which is held while this runs.
  unfoldable pub claim_now : Step Text
  claim_now d = (d, or_key_error d.claim)

  unfoldable pub stop_frontend : Step (Unit {0})
  stop_frontend = do
    prior ← look_up (λ (l : Lifecycle). l.prior)
    stop_fe h.daemon h.loads h.save s.token h.digest s.compose s.target (prior_identity prior)

  unfoldable pub require_stopped : Step (Unit {0})
  require_stopped = do
    prior ← look_up (λ (l : Lifecycle). l.prior)
    assert_stopped h.daemon h.loads h.save s.token h.digest s.compose s.target
        (prior_identity prior)

  unfoldable pub cross_boundary : Step (Unit {0})
  cross_boundary = modify (λ (d : Deployment). record d { install_boundary = true })

  abbrev pub create_volume : Command
  create_volume =
      text "volume"
      ∷ text "create"
      ∷ text "--label"
      ∷ (project_label ++ b'=' ∷ s.target.spec.project)
      ∷ text "--label"
      ∷ (volume_label ++ b'=' ∷ s.target.spec.key)
      ∷ s.target.spec.volume
      ∷ []

  -- All of `install` up to the helper that writes to the volume.
  unfoldable pub reach_volume : Step (Unit {0})
  reach_volume = do
    stop_frontend
    cross_boundary
    stage_runtime_config h s
    require_stopped
    created ← ask h s create_volume
    note h s (text "install-started")
    require_stopped

  unfoldable pub install : Step (Unit {0})
  install = do
    reach_volume
    work h s install_job
    work h s verify_job
    note h s (text "installed-files-verified")

  module _ (files : Evidence h.hash) where
    unfoldable pub preserve_candidate : Step (Unit {0})
    preserve_candidate = do
      artifact ← pure files.bundle
      pure (require (py_eq artifact s.artifact) "Frozen artifact changed after preflight")
      update (λ (l : Lifecycle). record l { artifact = some artifact })
      claim ← claim_now
      copy_worker h.daemon h.loads h.save s.token s.source s.evidence claim true false
      prepared ← ask h s (prepare_command claim)
      fetch_all h.daemon h.loads h.save s.token s.evidence claim (text "prepared.json" ∷ [])
      note h s (text "candidate-prepared")

    -- The rollback archive and its receipt, as they now stand in the evidence directory.
    unfoldable pub previous_now : Step (List ℕ × Backup h.hash)
    previous_now d = (d, files.fetched d.calls)

    unfoldable pub take_snapshot : Bool → Step (List ℕ × Backup h.hash)
    take_snapshot true = do work h s snapshot_job; previous_now
    take_snapshot false = pure files.empty_snapshot

    unfoldable pub backup : Step (Unit {0})
    backup = do
      current ← target_now h s
      previous ← take_snapshot current.volume_present
      pure (verify_backup h.hash files.open_tar previous.0 previous.1)
      note h s (text "rollback-preserved")
