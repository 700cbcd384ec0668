-- ===== src/Deploy/Frontend.antt =====
-- The frontend under a deployment: `revalidate`, `fe` and `fail_closed` of
-- compose/plugin_deploy.py. The target is read at one instant, from answers to one history.
use doris_ducklake.Deploy.Exec.{gets, handle, modify, pure, return, ◌>>=◌, ◌>>◌}
use doris_ducklake.Prelude.{
  Bool, Guard, List, Option, Result, Text, [], err, if◌then◌else◌, none, not, ok, require, some,
  strip, text, text_eq, true, type_error, ◌&&◌, ◌||◌, ◌∷◌,
}
use doris_ducklake.Json.{Value}
use doris_ducklake.Smoke.Exact.{py_eq}
use doris_ducklake.Preflight.Target.{Target, target_from_compose}
use doris_ducklake.Deploy.Inspect.{container_id, is_running}
use doris_ducklake.Deploy.Claim.{
  Call, Command, Deployment, Step, docker, event, inspect, is_operational,
}

-- `.strip()` of an answer.
abbrev stripped : Result Text → Result Text
stripped (err e) = err e
stripped (ok output) = ok (strip output)

abbrev same_image : Value → Value → Bool
same_image v w = py_eq v w

-- The fields that `revalidate` compares; the service's name is constant.
unfoldable pub is_same_target : Target → Target → Bool
is_same_target current target =
    text_eq current.spec.project target.spec.project
    && text_eq current.spec.container target.spec.container
    && text_eq current.spec.volume target.spec.volume
    && text_eq current.spec.key target.spec.key
    && same_image current.spec.image target.spec.image

-- Nothing was installed, or what was is attested.
unfoldable pub has_nothing_to_close : Deployment → Bool
has_nothing_to_close d = not d.install_boundary || d.deployment_attested

abbrev pub stop_frontend_command : Text → Command
stop_frontend_command identity = text "stop" ∷ text "--time" ∷ text "60" ∷ identity ∷ []

module _ (daemon : List Call → Command → Result Text) (loads : Text → Result Value)
    (save : List (Text × Text) → Guard) (token : Text) (digest : Value → Text) (compose : Text)
    (target : Target) where
  unfoldable pub current_target : List Call → Result Target
  current_target calls =
      target_from_compose (λ command. stripped (daemon calls command)) loads digest compose

  unfoldable pub compare_target : Target → Step (Unit {0})
  compare_target current = do
    pure (require (is_same_target current target) "Deployment target changed after preflight")
    pure (
        require (text_eq current.compose_sha256 target.compose_sha256)
          "Rendered compose configuration changed after preflight")

  unfoldable pub revalidate : Step Target
  revalidate = do
    calls ← gets (λ (d : Deployment). d.calls)
    current ← pure (current_target calls)
    compare_target current
    return current

  abbrev pub some_instance : Text → Step (Option Value)
  some_instance container = inspect daemon loads save token container >>= (λ i. return (some i))

  -- The frontend's description, if its container is there.
  unfoldable pub fe : Step (Option Value)
  fe = do
    current ← revalidate
    (if current.fe_present then some_instance target.spec.container else return none)

  -- `self.fe()["State"]["Running"]`: there is nothing to read where the frontend is gone.
  abbrev pub running_of : Option Value → Result Bool
  running_of none = err type_error
  running_of (some instance) = is_running instance

  unfoldable pub stop_found : Option Value → Step (Unit {0})
  stop_found none = return tt
  stop_found (some instance) = do
    identity ← pure (container_id instance)
    stopped ← docker daemon loads save token (stop_frontend_command identity)
    again ← fe
    running ← pure (running_of again)
    pure (require (not running) "FE remains running after deployment failure")

  -- The body of the `try` in `fail_closed`.
  unfoldable pub keep_stopped : Step (Unit {0})
  keep_stopped = do
    found ← fe
    stop_found found
    event daemon loads save token (text "failed-fe-kept-stopped") []

  unfoldable pub doubt_frontend : Step (Unit {0})
  doubt_frontend = do
    modify (λ (d : Deployment). record d { unsafe_fe_state = true })
    event daemon loads save token (text "failed-fe-stop-unconfirmed") []

  unfoldable pub fail_closed : Step (Unit {0})
  fail_closed d =
      if has_nothing_to_close d
      then return tt d
      else handle (keep_stopped d) is_operational (λ _. doubt_frontend)
