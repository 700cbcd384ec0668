-- ===== src/Deploy/Readiness.antt =====
-- What `wait_ready`, `start` and `confirm_process` of compose/plugin_deploy.py require of a
-- frontend, from its description.
pub mod Accepted
use doris_ducklake.Prelude.{
  Bool, Error, Guard, List, Option, Result, Text, [], and_then, err, every, false, has_no_items,
  if◌then◌else◌, is_digit, key_error, none, not, ok, partition, require, runtime_error, some, strip,
  subprocess_error, text, text_eq, true, type_error, ℕ, ◌&&◌, ◌>>=◌, ◌>>◌, ◌∷◌,
}
use doris_ducklake.Json.{Value, item}
use doris_ducklake.Smoke.Exact.{py_eq}
use doris_ducklake.Deploy.Inspect.{is_running}
use doris_ducklake.Deploy.Process.{
  Process, is_fresh, is_same_identity, is_same_process, process_record,
}
use doris_ducklake.Deploy.Config.{Config, PathState, missing}
use doris_ducklake.Deploy.Claim.{Command}

-- `(RuntimeError, subprocess.TimeoutExpired)`
abbrev pub is_transient : Error → Bool
is_transient (runtime_error _) = true
is_transient subprocess_error = true
is_transient _ = false

abbrev pub version_file : Text
version_file = text "/opt/apache-doris/fe/doris-meta/image/VERSION"

-- `value.isdigit()`: the file has ASCII digits only.
unfoldable pub is_numeral : Text → Bool
unfolding is_digit
is_numeral t = not (has_no_items t) && every is_digit t

-- What one line of VERSION says of the cluster.
unfoldable pub cluster_line : Text → Option Text
cluster_line line =
    let (key, found, value) = partition b'=' line in
    if text_eq (strip key) (text "clusterId") && is_numeral (strip value)
    then some (strip value)
    else none

abbrev pub first_found : Option Text → Option Text → Option Text
first_found none later = later
first_found (some t) later = some t

unfoldable pub cluster_id_of : List Text → Option Text
cluster_id_of [] = none
cluster_id_of (line ∷ lines) = first_found (cluster_line line) (cluster_id_of lines)

abbrev pub show_frontends : Text → Command
show_frontends container =
    text "exec"
    ∷ container
    ∷ text "mysql"
    ∷ text "-h127.0.0.1"
    ∷ text "-P9030"
    ∷ text "-uroot"
    ∷ text "-e"
    ∷ text "SHOW FRONTENDS"
    ∷ []

-- `self.metadata_cluster_id(…) == self.state["prior_cluster_id"]`
abbrev pub same_cluster : Option Text → Text → Bool
same_cluster none expected = false
same_cluster (some t) expected = text_eq t expected

-- With no frontend there before, there is nothing to compare with.
unfoldable pub check_kept : Option Process → Value → Guard
check_kept none instance = ok tt
check_kept (some prior) instance = do
  current ← process_record instance
  require (is_same_identity current prior) "FE identity or persistent mounts changed during restart"

-- `instance["State"]["StartedAt"]`
unfoldable pub started_of : Value → Result Value
started_of instance = do state ← item (text "State") instance; item (text "StartedAt") state

-- What `wait_ready` requires of a frontend that runs, before it asks it anything.
unfoldable pub check_started : Option Process → Value → Value → Guard
check_started prior fe_image instance = do
  started ← started_of instance
  fresh ← is_fresh started prior
  require fresh "FE process is not fresh"
  image ← item (text "Image") instance
  require (py_eq image fe_image) "Started FE image changed"
  check_kept prior instance

-- What was written, if nothing stood there.
abbrev pub now_written : PathState → List ℕ → Option (List ℕ) → Option (List ℕ)
now_written missing content earlier = some content
now_written _ content earlier = earlier

abbrev pub has_initialized : Config → Config → Bool
has_initialized before after = after.initialized && not before.initialized

-- No frontend, or one that does not run.
abbrev pub not_running : Option Value → Result Bool
not_running none = ok true
not_running (some instance) = do running ← is_running instance; ok (not running)

-- `process_record(instance) == self.state["new_process"]`, of one that runs.
unfoldable pub is_confirmed : Option Process → Option Value → Result Bool
is_confirmed expected none = ok false
is_confirmed none (some instance) = do
  running ← is_running instance
  and_then running (err key_error)
is_confirmed (some expected) (some instance) = do
  running ← is_running instance
  and_then running (do current ← process_record instance; ok (is_same_process current expected))

abbrev pub returned : Option Value → Result Value
returned none = err type_error
returned (some instance) = ok instance

-- What `wait_ready` raises at the deadline.
abbrev pub startup_late : Error
startup_late = runtime_error "FE startup/readiness timed out"
