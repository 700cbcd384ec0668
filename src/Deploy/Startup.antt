-- ===== src/Deploy/Startup.antt =====
-- The frontend's start: `wait_ready`, `metadata_cluster_id`, `start`, `confirm_process`, and the
-- configuration's steps of compose/plugin_deploy.py.
pub mod Steps
pub mod Waiting
pub mod Fresh
use doris_ducklake.Deploy.Exec.{handle, pure, return, ◌>>=◌, ◌>>◌}
use doris_ducklake.Deploy.Readiness.{
  check_started, cluster_id_of, has_initialized, is_confirmed, is_transient, not_running,
  now_written, returned, same_cluster, show_frontends, startup_late, version_file,
}
use doris_ducklake.Prelude.{
  Option, Text, [], if◌then◌else◌, none, require, some, splitlines, suc, text, ◌+◌, ◌∷◌,
}
use doris_ducklake.Json.{Value}
use doris_ducklake.Deploy.Inspect.{container_id, is_running}
use doris_ducklake.Deploy.State.{Lifecycle}
use doris_ducklake.Deploy.Process.{is_first_boot, process_record}
use doris_ducklake.Deploy.Config.{is_current, read_bytes, stage_config, verify_runtime_config}
use doris_ducklake.Deploy.Claim.{Command, Step, owned}
use doris_ducklake.Deploy.Host.{
  Host, Settings, ask, frontend_now, has_prior, look_up, note, poll, runtime_now, set_config,
  set_process, time_now, update,
}

module _ (h : Host) (s : Settings) where
  unfoldable pub stage_runtime_config : Step (Unit {0})
  stage_runtime_config = do
    runtime ← runtime_now h s
    owned ← look_up (λ (l : Lifecycle). has_prior l)
    config ← look_up (λ (l : Lifecycle). l.config)
    staged ← pure (stage_config h.hash owned h.template runtime config)
    update (λ (l : Lifecycle). record l {
      config = staged.0;
      written_config = now_written runtime staged.1 l.written_config;
    })

  unfoldable pub check_runtime_config : Step (Unit {0})
  check_runtime_config = do
    runtime ← runtime_now h s
    observed ← pure (read_bytes runtime)
    prior ← look_up (λ (l : Lifecycle). l.prior)
    config ← look_up (λ (l : Lifecycle). l.config)
    next ← pure (verify_runtime_config h.hash (is_first_boot prior) config observed)
    update (set_config next)
    (if has_initialized config next
        then note h s (text "first-boot-runtime-config-initialized")
        else return tt)

  unfoldable pub read_cluster_id : Text → Step (Option Text)
  read_cluster_id container = do
    content ← ask h s (text "exec" ∷ container ∷ text "cat" ∷ version_file ∷ [])
    return (cluster_id_of (splitlines content))

  unfoldable pub metadata_cluster_id : Text → Step (Option Text)
  metadata_cluster_id container d =
      handle (read_cluster_id container d) is_transient (λ _. return none)

  unfoldable pub check_cluster : Option Text → Text → Step (Unit {0})
  check_cluster none container = return tt
  check_cluster (some expected) container = do
    current ← metadata_cluster_id container
    pure (require (same_cluster current expected) "FE persisted cluster ID changed across restart")

  -- The body of the `try` in `wait_ready`.
  unfoldable pub confirm_ready : Value → Step (Option (Unit {0}))
  confirm_ready instance = do
    container ← pure (container_id instance)
    answered ← ask h s (show_frontends container)
    expected ← look_up (λ (l : Lifecycle). l.prior_cluster_id)
    check_cluster expected container
    check_runtime_config
    current ← pure (process_record instance)
    update (set_process current)
    note h s (text "fresh-fe-sql-ready")
    return (some tt)

  unfoldable pub try_ready : Value → Step (Option (Unit {0}))
  try_ready instance d = handle (confirm_ready instance d) is_transient (λ _. return none)

  unfoldable pub accept_running : Value → Step (Option (Unit {0}))
  accept_running instance = do
    prior ← look_up (λ (l : Lifecycle). l.prior)
    image ← look_up (λ (l : Lifecycle). l.fe_image)
    pure (check_started prior image instance)
    try_ready instance

  unfoldable pub accept_found : Option Value → Step (Option (Unit {0}))
  accept_found none = return none
  accept_found (some instance) = do
    running ← pure (is_running instance)
    (if running then accept_running instance else return none)

  -- One round of the loop, up to the test of the deadline: whether the frontend is ready.
  unfoldable pub wait_round : Step (Option (Unit {0}))
  wait_round = do found ← frontend_now h s; accept_found found

  -- A round pauses for two seconds, so that as many rounds as seconds are enough; `none` means that
  -- the fuel ran out.
  unfoldable pub wait_ready : Step (Option (Unit {0}))
  wait_ready = do
    now ← time_now h s
    poll h s startup_late wait_round (suc s.startup_timeout) (now + s.startup_timeout)

  abbrev pub up_frontend : Command
  up_frontend =
      text "compose"
      ∷ text "-f"
      ∷ s.compose
      ∷ text "up"
      ∷ text "-d"
      ∷ text "--no-deps"
      ∷ text "--no-build"
      ∷ text "--pull"
      ∷ text "never"
      ∷ text "doris-fe"
      ∷ []

  unfoldable pub launch : Option Value → Step Text
  launch none = ask h s up_frontend
  launch (some instance) = do
    container ← pure (container_id instance)
    ask h s (text "start" ∷ container ∷ [])

  unfoldable pub start : Step (Option (Unit {0}))
  start = do
    found ← frontend_now h s
    stopped ← pure (not_running found)
    pure (require stopped "FE restarted before verified installation")
    launched ← launch found
    note h s (text "fe-start-requested")
    wait_ready

  unfoldable pub confirm_process : Step Value
  confirm_process = do
    found ← frontend_now h s
    expected ← look_up (λ (l : Lifecycle). l.new_process)
    same ← pure (is_confirmed expected found)
    pure (require same "FE process changed after fresh startup")
    runtime ← runtime_now h s
    observed ← pure (read_bytes runtime)
    config ← look_up (λ (l : Lifecycle). l.config)
    current ← pure (is_current h.hash config observed)
    pure (require current "Runtime config changed after fresh startup")
    pure (returned found)
