-- ===== src/Deploy/Run/Reaching.antt =====
-- The stages of a run before the boundary where the volume is written forget no command.
use doris_ducklake.Json.{Value}
use doris_ducklake.Deploy.Writing.{assert_stopped, stop_fe, stop_if_there}
use doris_ducklake.Deploy.Substrate.{
  check_first, check_routing, resolve_credentials, resolve_network, resolve_service,
  resolve_substrate,
}
use doris_ducklake.Deploy.Networks.{Service}
use doris_ducklake.Deploy.Exec.{modify, return}
use doris_ducklake.Prelude.{
  Bool, Error, List, Option, Text, [], false, if◌then◌else◌, none, refl, some, true, ◌∷◌,
}
use doris_ducklake.Deploy.Claim.{Deployment, acquire, image_id, occupied}
use doris_ducklake.Deploy.Process.{Process}
use doris_ducklake.Deploy.Host.{Host, Settings}
use doris_ducklake.Deploy.Running.{AllRun, runtime-AllRun, steps}
use doris_ducklake.Deploy.Working.{
  containers_named-AllRun, copy_worker-run, fetch_all-run, image_of-AllRun, rendered-AllRun,
  work-AllRun,
}
use doris_ducklake.Deploy.Growing.{
  AllGrow, HasGrown-refl, Run-AllGrow, docker-AllGrow, event-AllGrow, growing, handle-AllGrow,
  modify-AllGrow,
}
use doris_ducklake.Deploy.Install.{
  Evidence, backup, claim_now, cross_boundary, preserve_candidate, previous_now, reach_volume,
  require_stopped, stop_frontend, take_snapshot,
}
use doris_ducklake.Deploy.Startup.{metadata_cluster_id, stage_runtime_config}
use doris_ducklake.Deploy.Startup.Steps.{fe-AllRun, look-AllRun, metadata-AllRun, revalidate-AllRun}
use doris_ducklake.Deploy.Run.{
  Smoke, own_cluster, own_config, own_frontend, own_target, raise_substrate,
}

module _ (h : Host) (s : Settings) where
  occupied-AllGrow : (x : Error) → AllGrow (occupied h.daemon h.loads h.save s.token x)
  unfolding occupied
  occupied-AllGrow x = search growing

  image_id-AllGrow : AllGrow (image_id h.daemon h.loads h.save s.token)
  unfolding image_id
  image_id-AllGrow = search (growing, docker-AllGrow h s)

  set_claim-AllGrow :
      (claim image : Text)
      → AllGrow (modify (λ (d : Deployment). record d { claim = some claim; image = image }))
  set_claim-AllGrow claim image = modify-AllGrow _ (λ d. refl)

  pub acquire-AllGrow :
      (name volume : Text) → AllGrow (acquire h.daemon h.loads h.save s.token name volume)
  unfolding acquire
  acquire-AllGrow name volume =
      search
        (
          growing,
          image_id-AllGrow,
          handle-AllGrow,
          docker-AllGrow h s,
          occupied-AllGrow,
          set_claim-AllGrow,
          event-AllGrow h s,
        )
        depth 20

  own_frontend-AllGrow :
      (files : Evidence h.hash) (smoke : Smoke) → AllGrow (own_frontend h s files smoke)
  unfolding own_frontend
  own_frontend-AllGrow files smoke =
      search (growing, Run-AllGrow h s, revalidate-AllRun, image_of-AllRun, fe-AllRun) depth 20

  own_config-AllGrow :
      (files : Evidence h.hash) (smoke : Smoke) → AllGrow (own_config h s files smoke)
  unfolding own_config
  own_config-AllGrow files smoke = search (growing, Run-AllGrow h s, runtime-AllRun) depth 20

  read_if-AllGrow :
      (running : Bool) (c : Text)
      → AllGrow (if running then metadata_cluster_id h s c else return {A = Option Text} none)
  read_if-AllGrow true c = Run-AllGrow h s (metadata_cluster_id h s c) (metadata-AllRun c)
  read_if-AllGrow false c = search growing

  own_cluster-AllGrow :
      (files : Evidence h.hash) (smoke : Smoke) (prior : Option Process)
      → AllGrow (own_cluster h s files smoke prior)
  unfolding own_cluster
  own_cluster-AllGrow files smoke none = search growing
  own_cluster-AllGrow files smoke (some prior) = search (growing, read_if-AllGrow)

  pub own_target-AllGrow :
      (files : Evidence h.hash) (smoke : Smoke) → AllGrow (own_target h s files smoke)
  unfolding own_target
  own_target-AllGrow files smoke =
      search
        (growing, own_frontend-AllGrow, own_config-AllGrow, own_cluster-AllGrow, event-AllGrow h s)
        depth 20

  claim_now-AllGrow : AllGrow (claim_now h s)
  unfolding claim_now
  claim_now-AllGrow d = HasGrown-refl d

  pub preserve-AllGrow : (files : Evidence h.hash) → AllGrow (preserve_candidate h s files)
  unfolding preserve_candidate
  preserve-AllGrow files =
      search
        (
          growing,
          claim_now-AllGrow,
          Run-AllGrow h s,
          copy_worker-run,
          fetch_all-run,
          docker-AllGrow h s,
          event-AllGrow h s,
        )
        depth 20

  previous-AllGrow : (files : Evidence h.hash) → AllGrow (previous_now h s files)
  unfolding previous_now
  previous-AllGrow files d = HasGrown-refl d

  take_snapshot-AllGrow :
      (files : Evidence h.hash) (present : Bool) → AllGrow (take_snapshot h s files present)
  unfolding take_snapshot
  take_snapshot-AllGrow files true =
      search (growing, Run-AllGrow h s, work-AllRun, previous-AllGrow)
  take_snapshot-AllGrow files false = search growing

  pub backup-AllGrow : (files : Evidence h.hash) → AllGrow (backup h s files)
  unfolding backup
  backup-AllGrow files =
      search (growing, Run-AllGrow h s, revalidate-AllRun, take_snapshot-AllGrow, event-AllGrow h s)
        depth 20

  check_first-AllRun :
      (project : Value) (service : Text) (selected : Service) (image : Value) (running : Bool)
      (ids : List Text)
      → AllRun h s (check_first h s project service selected image running ids)
  unfolding check_first
  check_first-AllRun project service selected image running [] = search steps
  check_first-AllRun project service selected image running (identity ∷ _) =
      search (steps, look-AllRun)

  resolve_service-AllRun :
      (project services : Value) (running : Bool) (service : Text)
      → AllRun h s (resolve_service h s project services running service)
  unfolding resolve_service
  resolve_service-AllRun project services running service =
      search (steps, image_of-AllRun, containers_named-AllRun, check_first-AllRun) depth 20

  resolve_substrate-AllRun :
      (file : Text) (running : Bool) → AllRun h s (resolve_substrate h s file running)
  unfolding resolve_substrate check_routing resolve_network resolve_credentials
  resolve_substrate-AllRun file running =
      search (steps, rendered-AllRun, resolve_service-AllRun, image_of-AllRun) depth 40

  pub raise_substrate-AllGrow :
      (files : Evidence h.hash) (smoke : Smoke) (full : Bool)
      → AllGrow (raise_substrate h s files smoke full)
  unfolding raise_substrate
  raise_substrate-AllGrow files smoke false = search (growing, docker-AllGrow h s)
  raise_substrate-AllGrow files smoke true =
      search (growing, Run-AllGrow h s, resolve_substrate-AllRun, docker-AllGrow h s) depth 20

  stop_instance-AllRun :
      (o : Option Value)
      → AllRun h s (stop_if_there h.daemon h.loads h.save s.token h.digest s.compose s.target o)
  stop_instance-AllRun none = search steps
  stop_instance-AllRun (some i) = search (steps, fe-AllRun) depth 20

  stop_fe-AllRun :
      (prior : Option Text)
      → AllRun h s (stop_fe h.daemon h.loads h.save s.token h.digest s.compose s.target prior)
  unfolding stop_fe
  stop_fe-AllRun prior = search (steps, fe-AllRun, stop_instance-AllRun) depth 20

  cross_boundary-AllGrow : AllGrow (cross_boundary h s)
  unfolding cross_boundary
  cross_boundary-AllGrow = modify-AllGrow _ (λ d. refl)

  stage_config-AllGrow : AllGrow (stage_runtime_config h s)
  unfolding stage_runtime_config
  stage_config-AllGrow = search (growing, Run-AllGrow h s, runtime-AllRun) depth 20

  pub assert_stopped-AllRun :
      (prior : Option Text)
      → AllRun h s
          (assert_stopped h.daemon h.loads h.save s.token h.digest s.compose s.target prior)
  unfolding assert_stopped
  assert_stopped-AllRun prior = search (steps, fe-AllRun) depth 20

  require_stopped-AllRun : AllRun h s (require_stopped h s)
  unfolding require_stopped
  require_stopped-AllRun = search (steps, assert_stopped-AllRun)

  stop_frontend-AllRun : AllRun h s (stop_frontend h s)
  unfolding stop_frontend
  stop_frontend-AllRun = search (steps, stop_fe-AllRun)

  pub reach_volume-AllGrow : AllGrow (reach_volume h s)
  unfolding reach_volume
  reach_volume-AllGrow =
      search
        (
          growing,
          Run-AllGrow h s,
          stop_frontend-AllRun,
          cross_boundary-AllGrow,
          stage_config-AllGrow,
          require_stopped-AllRun,
          docker-AllGrow h s,
          event-AllGrow h s,
        )
        depth 20
