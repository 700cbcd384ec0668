-- ===== src/Deploy/Inspect.antt =====
-- What compose/plugin_deploy.py reads of a container that `docker container inspect` describes.
use doris_ducklake.Prelude.{
  Bool, Result, Text, err, false, if◌then◌else◌, index_error, ok, text, type_error, ◌>>=◌,
}
use doris_ducklake.Json.{
  Value, arr, cons, end, get, is_text, item, nil, num, obj, or_else, to_text, truthy,
}
use doris_ducklake.Smoke.Exact.{py_eq}
use doris_ducklake.Prelude.Int.{pos}

-- `OWNER` and `VOLUME`
abbrev pub owner_label : Text
owner_label = text "dev.brikk.ducklake.deployment.owner"

abbrev pub volume_label : Text
volume_label = text "dev.brikk.ducklake.deployment.volume"

-- `values[0]`
unfoldable pub first_item : Value → Result Value
first_item (arr (cons v _)) = ok v
first_item (arr nil) = err index_error
first_item _ = err type_error

-- `instance["State"]["Running"]`
unfoldable pub is_running : Value → Result Bool
is_running instance = do
  state ← item (text "State") instance
  running ← item (text "Running") state
  ok (truthy running)

-- `instance["State"]["ExitCode"] == 0`
unfoldable pub has_succeeded : Value → Result Bool
has_succeeded instance = do
  state ← item (text "State") instance
  code ← item (text "ExitCode") state
  ok (py_eq code (num (pos 0)))

-- `not instance["State"]["Running"] and instance["State"]["ExitCode"] == 0`
unfoldable pub is_finished : Value → Result Bool
is_finished instance = do
  running ← is_running instance
  if running then ok false else has_succeeded instance

-- `str(instance["Id"])`
unfoldable pub container_id : Value → Result Text
container_id instance = do identity ← item (text "Id") instance; ok (to_text identity)

-- `(instance["Config"].get("Labels") or {}).get(OWNER) == token`
unfoldable pub is_owned_by : Text → Value → Result Bool
is_owned_by token instance = do
  config ← item (text "Config") instance
  labels ← get (text "Labels") config
  owner ← get owner_label (or_else labels (obj end))
  ok (is_text owner token)
