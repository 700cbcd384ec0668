-- ===== src/Deploy/Startup/Steps.antt =====
-- The steps of the wait for the frontend, as runs.
use doris_ducklake.Json.{Value}
use doris_ducklake.Preflight.Target.{Target}
use doris_ducklake.Deploy.Readiness.{is_transient}
use doris_ducklake.Deploy.Frontend.{compare_target, fe, revalidate, some_instance}
use doris_ducklake.Deploy.Running.{AllRun, handle-AllRun, steps}
use doris_ducklake.Deploy.Startup.{
  accept_found, accept_running, check_cluster, check_runtime_config, confirm_ready,
  metadata_cluster_id, read_cluster_id, try_ready, wait_round,
}
use doris_ducklake.Deploy.Exec.{return}
use doris_ducklake.Prelude.{Bool, Option, Text, false, if◌then◌else◌, none, some, true}
use doris_ducklake.Deploy.Claim.{inspect}
use doris_ducklake.Deploy.Host.{Host, Settings, frontend_now, look, note, target_now}

module _ {h : Host} {s : Settings} where
  pub look-AllRun : (c : Text) → AllRun h s (look h s c)
  unfolding inspect
  look-AllRun c = search steps

  compare_target-AllRun :
      (t : Target)
      → AllRun h s (compare_target h.daemon h.loads h.save s.token h.digest s.compose s.target t)
  unfolding compare_target
  compare_target-AllRun t = search steps

  pub revalidate-AllRun : AllRun h s (target_now h s)
  unfolding revalidate
  revalidate-AllRun = search (steps, compare_target-AllRun)

  found-AllRun :
      (present : Bool)
      → AllRun h s (
          if present
          then some_instance h.daemon h.loads h.save s.token h.digest s.compose s.target
              s.target.spec.container
          else return none)
  found-AllRun true = search (steps, look-AllRun)
  found-AllRun false = search steps

  pub fe-AllRun : AllRun h s (frontend_now h s)
  unfolding fe
  fe-AllRun = search (steps, revalidate-AllRun, found-AllRun)

  read_cluster_id-AllRun : (c : Text) → AllRun h s (read_cluster_id h s c)
  unfolding read_cluster_id
  read_cluster_id-AllRun c = search steps

  pub metadata-AllRun : (c : Text) → AllRun h s (metadata_cluster_id h s c)
  unfolding metadata_cluster_id
  metadata-AllRun c =
      handle-AllRun (read_cluster_id h s c) is_transient none (read_cluster_id-AllRun c)

  check_cluster-AllRun : (t : Option Text) (c : Text) → AllRun h s (check_cluster h s t c)
  unfolding check_cluster
  check_cluster-AllRun none c = search steps
  check_cluster-AllRun (some t) c = search (steps, metadata-AllRun)

  noted-AllRun : (b : Bool) (name : Text) → AllRun h s (if b then note h s name else return tt)
  noted-AllRun true name = search steps
  noted-AllRun false name = search steps

  config-AllRun : AllRun h s (check_runtime_config h s)
  unfolding check_runtime_config
  config-AllRun = search (steps, noted-AllRun) depth 20

  confirm_ready-AllRun : (i : Value) → AllRun h s (confirm_ready h s i)
  unfolding confirm_ready
  confirm_ready-AllRun i = search (steps, check_cluster-AllRun, config-AllRun) depth 20

  try_ready-AllRun : (i : Value) → AllRun h s (try_ready h s i)
  unfolding try_ready
  try_ready-AllRun i =
      handle-AllRun (confirm_ready h s i) is_transient none (confirm_ready-AllRun i)

  accept_running-AllRun : (i : Value) → AllRun h s (accept_running h s i)
  unfolding accept_running
  accept_running-AllRun i = search (steps, try_ready-AllRun)

  accept_if-AllRun :
      (running : Bool) (i : Value)
      → AllRun h s (if running then accept_running h s i else return {A = Option (Unit {0})} none)
  accept_if-AllRun true i = accept_running-AllRun i
  accept_if-AllRun false i = search steps

  accept_found-AllRun : (o : Option Value) → AllRun h s (accept_found h s o)
  unfolding accept_found
  accept_found-AllRun none = search steps
  accept_found-AllRun (some i) = search (steps, accept_if-AllRun)

  pub wait_round-AllRun : AllRun h s (wait_round h s)
  unfolding wait_round
  wait_round-AllRun = search (steps, fe-AllRun, accept_found-AllRun)
