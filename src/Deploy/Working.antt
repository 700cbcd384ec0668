-- ===== src/Deploy/Working.antt =====
-- The steps of the helpers, and of the questions to the frontend, as runs.
use doris_ducklake.Deploy.Exec.{modify, return}
use doris_ducklake.Prelude.{Bool, List, Text, [], false, if◌then◌else◌, true, ◌++◌, ◌∷◌}
use doris_ducklake.Deploy.Claim.{
  Deployment, Job, copy_all, copy_worker, fetch_all, forget_helper, owned, remove_helper,
  remove_owned, start_worker, stop_owned, worker,
}
use doris_ducklake.Deploy.Host.{Host, Settings, work}
use doris_ducklake.Deploy.Running.{AllRun, helped, here, steps}
use doris_ducklake.Deploy.Substrate.{containers_named, image_of, rendered}
use doris_ducklake.Deploy.Startup.{confirm_process}
use doris_ducklake.Deploy.Startup.Steps.{fe-AllRun, look-AllRun}

module _ {h : Host} {s : Settings} where
  owned-run : (c : Text) → AllRun h s (owned h.daemon h.loads h.save s.token c)
  unfolding owned
  owned-run c = search (steps, look-AllRun)

  stop_owned-run : (c : Text) → AllRun h s (stop_owned h.daemon h.loads h.save s.token c)
  unfolding stop_owned
  stop_owned-run c = search (steps, owned-run)

  stop_if-run :
      (running : Bool) (c : Text)
      → AllRun h s (if running then stop_owned h.daemon h.loads h.save s.token c else return tt)
  stop_if-run true c = stop_owned-run c
  stop_if-run false c = search steps

  pub remove_owned-run : (c : Text) → AllRun h s (remove_owned h.daemon h.loads h.save s.token c)
  unfolding remove_owned
  remove_owned-run c = search (steps, owned-run, stop_if-run) depth 12

  set_helpers-run :
      (rest : List Text) → AllRun h s (modify (λ (d : Deployment). record d { helpers = rest }))
  unfolding modify
  set_helpers-run rest d = helped here rest

  add_helper-run :
      (helper : Text)
      → AllRun h s (modify (λ (d : Deployment). record d { helpers = d.helpers ++ helper ∷ [] }))
  unfolding modify
  add_helper-run helper d = helped here (d.helpers ++ helper ∷ [])

  pub remove_helper-run : (c : Text) → AllRun h s (remove_helper h.daemon h.loads h.save s.token c)
  unfolding remove_helper forget_helper
  remove_helper-run c = search (steps, remove_owned-run, set_helpers-run)

  copy_all-run :
      (directory container : Text) (names : List Text)
      → AllRun h s (copy_all h.daemon h.loads h.save s.token directory container names)
  unfolding copy_all
  copy_all-run directory container [] = search steps
  copy_all-run directory container (name ∷ names) =
      search (steps, copy_all-run directory container names)

  pub fetch_all-run :
      (evidence helper : Text) (names : List Text)
      → AllRun h s (fetch_all h.daemon h.loads h.save s.token evidence helper names)
  unfolding fetch_all
  fetch_all-run evidence helper [] = search steps
  fetch_all-run evidence helper (name ∷ names) = search (steps, fetch_all-run evidence helper names)

  pub copy_worker-run :
      (source evidence container : Text) (candidate previous : Bool)
      → AllRun h s
          (copy_worker h.daemon h.loads h.save s.token source evidence container candidate previous)
  unfolding copy_worker
  copy_worker-run source evidence container candidate previous = search (steps, copy_all-run)

  start_worker-run :
      (volume : Text) (job : Job)
      → AllRun h s (start_worker h.daemon h.loads h.save s.token volume job)
  unfolding start_worker
  start_worker-run volume job = search (steps, add_helper-run)

  pub work-AllRun : (job : Job) → AllRun h s (work h s job)
  unfolding worker
  work-AllRun job =
      search (steps, start_worker-run, copy_worker-run, owned-run, fetch_all-run, remove_helper-run)
        depth 20

  pub confirm_process-AllRun : AllRun h s (confirm_process h s)
  unfolding confirm_process
  confirm_process-AllRun = search (steps, fe-AllRun) depth 20

  pub rendered-AllRun : (path : Text) → AllRun h s (rendered h s path)
  unfolding rendered
  rendered-AllRun path = search steps

  pub image_of-AllRun : (reference : Text) → AllRun h s (image_of h s reference)
  unfolding image_of
  image_of-AllRun reference = search steps

  pub containers_named-AllRun : (name : Text) → AllRun h s (containers_named h s name)
  unfolding containers_named
  containers_named-AllRun name = search steps
