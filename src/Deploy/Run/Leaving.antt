-- ===== src/Deploy/Run/Leaving.antt =====
-- What follows the attestation in a run forgets no command.
use doris_ducklake.Prelude.{Bool, [], false, refl, true}
use doris_ducklake.Deploy.State.{RunResult}
use doris_ducklake.Deploy.Host.{Host, Settings}
use doris_ducklake.Deploy.Running.{AllRun, steps}
use doris_ducklake.Deploy.Working.{confirm_process-AllRun}
use doris_ducklake.Deploy.Growing.{
  AllGrow, HasGrown-refl, Run-AllGrow, bind-AllGrow, event-AllGrow, growing, update-AllGrow,
}
use doris_ducklake.Deploy.Install.{Evidence}
use doris_ducklake.Deploy.Startup.Steps.{look-AllRun}
use doris_ducklake.Deploy.Run.{
  Smoke, check_correctness, completed_now, confirm_backend, prove_correctness, run_child,
  run_command, store_now, write_result,
}

module _ (h : Host) (s : Settings) where
  run_child-AllGrow :
      (files : Evidence h.hash) (smoke : Smoke) → AllGrow (run_child h s files smoke)
  unfolding run_child
  run_child-AllGrow files smoke d = record { since = []; grown = refl }

  pub completed-AllGrow :
      (files : Evidence h.hash) (smoke : Smoke) → AllGrow (completed_now h s files smoke)
  unfolding completed_now
  completed-AllGrow files smoke d = HasGrown-refl d

  confirm_backend-AllRun :
      (files : Evidence h.hash) (smoke : Smoke) → AllRun h s (confirm_backend h s files smoke)
  unfolding confirm_backend
  confirm_backend-AllRun files smoke = search (steps, look-AllRun) depth 20

  prove-AllGrow :
      (files : Evidence h.hash) (smoke : Smoke) (full : Bool)
      → AllGrow (prove_correctness h s files smoke full)
  unfolding prove_correctness
  prove-AllGrow files smoke false = search growing
  prove-AllGrow files smoke true =
      search
        (
          growing,
          completed-AllGrow,
          Run-AllGrow h s,
          confirm_process-AllRun,
          confirm_backend-AllRun,
          event-AllGrow h s,
        )
        depth 20

  pub run_command-AllGrow :
      (files : Evidence h.hash) (smoke : Smoke) (there : Bool)
      → AllGrow (run_command h s files smoke there)
  unfolding run_command
  run_command-AllGrow files smoke false = search growing
  run_command-AllGrow files smoke true =
      search (growing, run_child-AllGrow, prove-AllGrow, event-AllGrow h s) depth 20

  pub write_result-AllGrow :
      (files : Evidence h.hash) (smoke : Smoke) (r : RunResult)
      → AllGrow (write_result h s files smoke r)
  unfolding write_result store_now
  write_result-AllGrow files smoke r =
      bind-AllGrow _ _ (λ d. HasGrown-refl d) (λ _. update-AllGrow _)

  pub check-AllGrow :
      (files : Evidence h.hash) (smoke : Smoke) (full : Bool)
      → AllGrow (check_correctness h s files smoke full)
  unfolding check_correctness completed_now
  check-AllGrow files smoke false = search growing
  check-AllGrow files smoke true = search (growing, completed-AllGrow)
