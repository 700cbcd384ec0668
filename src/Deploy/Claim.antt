-- ===== src/Deploy/Claim.antt =====
-- The claim on a plugin volume and the helpers that work under it: `owned`, `ownership`,
-- `cleanup_helpers`, `remove_owned`, `copy_worker` and `worker` of compose/plugin_deploy.py.
use doris_ducklake.Deploy.Exec.{Exec, finally, gets, handle, modify, pure, return, ◌>>=◌, ◌>>◌}
use doris_ducklake.Prelude.{
  Bool, Error, Guard, List, Option, Result, Text, [], err, false, if◌then◌else◌, not, ok, os_error,
  require, reverse, runtime_error, some, subprocess_error, text, text_eq, true, value_error, ◌++◌,
  ◌||◌, ◌∷◌,
}
use doris_ducklake.Json.{Value}
use doris_ducklake.Deploy.State.{Lifecycle}
use doris_ducklake.Deploy.Inspect.{
  container_id, first_item, is_finished, is_owned_by, is_running, owner_label, volume_label,
}

-- A command line of `docker`, and what it answered.
abbrev pub Command : Type 0
Command = List Text

abbrev pub Call : Type 0
Call = Command × Result Text

-- What a deployment keeps. `calls` are the docker commands it has run, and its pauses, the newest
-- first.
pub record Deployment : Type 0 where
  pub calls : List Call
  pub claim : Option Text
  pub image : Text
  pub helpers : List Text
  pub events : List (Text × Text)
  pub unsafe_helper_state : Bool
  pub unsafe_fe_state : Bool
  pub install_boundary : Bool
  pub deployment_attested : Bool
  pub lifecycle : Lifecycle

abbrev pub Step {ℓ} : Type ℓ → Type ℓ
Step A = Exec Deployment A

-- `(RuntimeError, ValueError, OSError, subprocess.SubprocessError)`
abbrev pub is_operational : Error → Bool
is_operational (runtime_error _) = true
is_operational (value_error _) = true
is_operational os_error = true
is_operational subprocess_error = true
is_operational _ = false

abbrev pub is_runtime_error : Error → Bool
is_runtime_error (runtime_error _) = true
is_runtime_error _ = false

abbrev pub inspect_command : Text → Command
inspect_command container = text "container" ∷ text "inspect" ∷ container ∷ []

abbrev pub stop_command : Text → Command
stop_command container = text "stop" ∷ text "--time" ∷ text "10" ∷ container ∷ []

abbrev pub remove_command : Text → Command
remove_command container = text "rm" ∷ container ∷ []

abbrev pub keep_head : Text → Result (List Text) → Result (List Text)
keep_head h (err e) = err e
keep_head h (ok rest) = ok (h ∷ rest)

-- `self.helpers.remove(helper)`, which raises where there is none.
unfoldable pub without : Text → List Text → Result (List Text)
without helper [] = err (value_error "list.remove(x): x not in list")
without helper (h ∷ hs) =
    let rest = without helper hs in if text_eq h helper then ok hs else keep_head h rest

-- How a worker is called.
pub record Job : Type 0 where
  pub operation : Text
  pub readonly : Bool
  pub candidate : Bool
  pub previous : Bool
  pub results : List Text

-- `HELPER_IMAGE`
abbrev pub helper_image : Text
helper_image = text "python:3.12-slim"

-- `daemon` is what the Docker command line answers to a command after those that were run before
-- (its trailing line ends removed), `loads` is `json.loads`, `save` the outcome of writing
-- lifecycle.json with these events, and `token` the deployment's owner token.
module _ (daemon : List Call → Command → Result Text) (loads : Text → Result Value)
    (save : List (Text × Text) → Guard) (token : Text) where
  unfoldable pub docker : Command → Step Text
  docker command d =
      let answer = daemon d.calls command in
      (record d { calls = (command, answer) ∷ d.calls }, answer)

  unfoldable pub event : Text → Text → Step (Unit {0})
  event name detail d =
      let events = d.events ++ (name, detail) ∷ [] in (record d { events = events }, save events)

  unfoldable pub inspect : Text → Step Value
  inspect container = do
    output ← docker (inspect_command container)
    described ← pure (loads output)
    pure (first_item described)

  unfoldable pub owned : Text → Step Value
  owned container = do
    instance ← inspect container
    mine ← pure (is_owned_by token instance)
    pure (require mine "Helper/claim owner token changed; refusing cleanup")
    return instance

  unfoldable pub stop_owned : Text → Step (Unit {0})
  stop_owned identity = do
    stopped ← docker (stop_command identity)
    instance ← owned identity
    running ← pure (is_running instance)
    pure (require (not running) "Owned helper is still running")

  unfoldable pub remove_owned : Text → Step (Unit {0})
  remove_owned container = do
    instance ← owned container
    running ← pure (is_running instance)
    identity ← pure (container_id instance)
    (if running then stop_owned identity else return tt)
    removed ← docker (remove_command identity)
    return tt

  unfoldable pub forget_helper : Text → Step (Unit {0})
  forget_helper helper = do
    helpers ← gets (λ (d : Deployment). d.helpers)
    rest ← pure (without helper helpers)
    modify (λ (d : Deployment). record d { helpers = rest })

  -- The body of the `try` in `cleanup_helpers`.
  unfoldable pub remove_helper : Text → Step (Unit {0})
  remove_helper helper = do remove_owned helper; forget_helper helper

  unfoldable pub refuse_helper : Text → Step (Unit {0})
  refuse_helper helper = do
    modify (λ (d : Deployment). record d { unsafe_helper_state = true })
    event (text "helper-cleanup-refused") helper

  unfoldable pub try_helper : Text → Step (Unit {0})
  try_helper helper d = handle (remove_helper helper d) is_operational (λ _. refuse_helper helper)

  unfoldable pub cleanup_all : List Text → Step (Unit {0})
  cleanup_all [] = return tt
  cleanup_all (helper ∷ helpers) = do try_helper helper; cleanup_all helpers

  unfoldable pub cleanup_helpers : Step (Unit {0})
  cleanup_helpers d = cleanup_all (reverse d.helpers) d

  unfoldable pub is_unsafe : Deployment → Bool
  is_unsafe d = d.unsafe_helper_state || d.unsafe_fe_state

  unfoldable pub give_up_claim : Text → Step (Unit {0})
  give_up_claim claim = do remove_owned claim; event (text "claim-released") claim

  -- The `finally` of `ownership`.
  unfoldable pub release : Text → Step (Unit {0})
  release claim = do
    cleanup_helpers
    unsafe ← gets is_unsafe
    if unsafe then event (text "claim-retained-for-recovery") claim else give_up_claim claim

  -- `claim_name` is "doris-ducklake-deploy-" and forty digits of the volume's digest.
  unfoldable pub create_claim : Text → Text → Text → Command
  create_claim name volume image =
      text "create"
      ∷ text "--pull=never"
      ∷ text "--name"
      ∷ name
      ∷ text "--network"
      ∷ text "none"
      ∷ text "--label"
      ∷ (owner_label ++ b'=' ∷ token)
      ∷ text "--label"
      ∷ (volume_label ++ b'=' ∷ volume)
      ∷ text "--workdir"
      ∷ text "/work"
      ∷ text "--entrypoint"
      ∷ text "python3"
      ∷ image
      ∷ text "-c"
      ∷ text
          "import signal,sys,time; signal.signal(signal.SIGTERM,lambda *_:sys.exit(0)); time.sleep(2147483647)"
      ∷ []

  unfoldable pub occupied : Error → Step Text
  occupied e = pure (err (runtime_error "Deployment claim occupied or acquisition failed"))

  unfoldable pub image_id : Step Text
  image_id = do
    output ← docker (text "image" ∷ text "inspect" ∷ helper_image ∷ [])
    described ← pure (loads output)
    image ← pure (first_item described)
    pure (container_id image)

  unfoldable pub acquire : Text → Text → Step Text
  acquire name volume = do
    image ← image_id
    claim ← λ d. handle (docker (create_claim name volume image) d) is_runtime_error occupied
    modify (λ (d : Deployment). record d { claim = some claim; image = image })
    event (text "claim-acquired") claim
    return claim

  unfoldable pub hold_claim {ℓ} : {A : Type ℓ} → Text → Step A → Step A
  hold_claim claim body = do started ← docker (text "start" ∷ claim ∷ []); body

  -- `with self.ownership(): body`
  unfoldable pub ownership {ℓ} : {A : Type ℓ} → Text → Text → Step A → Step A
  ownership name volume body = do
    claim ← acquire name volume
    finally (hold_claim claim body) (release claim)

  -- `docker cp`, for each of the names.
  unfoldable pub copy_all : Text → Text → List Text → Step (Unit {0})
  copy_all directory container [] = return tt
  copy_all directory container (name ∷ names) = do
    copied ←
        docker (text "cp" ∷ (directory ++ b'/' ∷ name) ∷ (container ++ text ":/work/" ++ name) ∷ [])
    copy_all directory container names

  unfoldable pub copy_worker : Text → Text → Text → Bool → Bool → Step (Unit {0})
  copy_worker source evidence container candidate previous = do
    copy_all source container (text "plugin_volume.py" ∷ text "plugin_preflight.py" ∷ [])
    copy_all evidence container
        (if candidate then text "plugin.zip" ∷ text "plugin.identity.json" ∷ [] else [])
    copy_all evidence container (if previous then text "previous.json" ∷ [] else [])

  -- The results of a helper, copied back.
  unfoldable pub fetch_all : Text → Text → List Text → Step (Unit {0})
  fetch_all evidence helper [] = return tt
  fetch_all evidence helper (name ∷ names) = do
    copied ←
        docker (text "cp" ∷ (helper ++ text ":/work/" ++ name) ∷ (evidence ++ b'/' ∷ name) ∷ [])
    fetch_all evidence helper names

  unfoldable pub create_worker : Text → Text → Job → Command
  create_worker volume image job =
      text "create"
      ∷ text "--pull=never"
      ∷ text "--network"
      ∷ text "none"
      ∷ text "--label"
      ∷ (owner_label ++ b'=' ∷ token)
      ∷ text "--workdir"
      ∷ text "/work"
      ∷ text "-v"
      ∷ (volume ++ text ":/dest:" ++ (if job.readonly then text "ro" else text "rw"))
      ∷ text "--entrypoint"
      ∷ text "python3"
      ∷ image
      ∷ text "/work/plugin_volume.py"
      ∷ job.operation
      ∷ []

  unfoldable pub start_worker : Text → Job → Step Text
  start_worker volume job = do
    image ← gets (λ (d : Deployment). d.image)
    helper ← docker (create_worker volume image job)
    modify (λ (d : Deployment). record d { helpers = d.helpers ++ helper ∷ [] })
    event (text "worker-created") helper
    return helper

  unfoldable pub worker : Text → Text → Text → Job → Step (Unit {0})
  worker source evidence volume job = do
    helper ← start_worker volume job
    copy_worker source evidence helper job.candidate job.previous
    attached ← docker (text "start" ∷ text "--attach" ∷ helper ∷ [])
    instance ← owned helper
    finished ← pure (is_finished instance)
    pure (require finished "Plugin worker failed")
    fetch_all evidence helper job.results
    remove_helper helper
    event (text "worker-finished") helper
