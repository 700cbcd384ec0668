-- ===== src/Deploy/Networks.antt =====
-- What `resolve_substrate` of compose/smoke_targets.py reads of the rendered configurations: names,
-- networks and credentials.
pub mod Shared
use doris_ducklake.Prelude.{
  Bool, Guard, List, Result, String, Text, [], and_then, err, false, has_char, has_no_items,
  if◌then◌else◌, keys, member, not, ok, require, text, true, type_error, value_error, ◌&&◌, ◌>>=◌,
  ◌>>◌, ◌∷◌,
}
use doris_ducklake.Json.{Value, end, field, get, item, iterate, null, obj, or_else, str, truthy}
use doris_ducklake.Smoke.Exact.{py_eq}
use doris_ducklake.Preflight.Target.{
  is_named, is_safe_name, item_at, label_is, labels_of, project_label, safe_name, service_label,
}
use doris_ducklake.Deploy.Inspect.{is_running}

-- A selected service: its container's name, and its image.
pub record Service : Type 0 where
  pub name : Text
  pub image : Value

abbrev pub unnamed : String
unnamed = "Expected explicit substrate container names/images"

unfoldable pub selected_service : Value → Text → Result Service
selected_service services service = do
  selected ← item service services
  name_value ← get (text "container_name") selected
  name ← safe_name unnamed name_value
  image ← get (text "image") selected
  require (truthy image) unnamed
  ok (record { name = name; image = image })

-- `labels.get("com.docker.compose.project") == project and …`
unfoldable pub has_labels : Value → Text → Value → Result Bool
has_labels project service labels = do
  of_project ← get project_label labels
  and_then (py_eq of_project project) (label_is service_label service labels)

-- The container is that of the service, in its project.
unfoldable pub is_of_service : Value → Text → Text → Value → Result Bool
is_of_service project service name instance = do
  labels ← labels_of instance
  named_value ← item (text "Name") instance
  named ← is_named named_value name
  and_then named (has_labels project service labels)

-- `not running or instance["State"]["Running"]`
abbrev pub runs_if : Bool → Value → Result Bool
runs_if false instance = ok true
runs_if true instance = is_running instance

unfoldable pub check_container : Value → Text → Text → Value → Bool → Value → Guard
check_container project service name image running instance = do
  own ← is_of_service project service name instance
  require own "Foreign substrate container ownership"
  current ← item (text "Image") instance
  require (py_eq current image)
      "Substrate image differs from selected image; explicit migration required"
  runs ← runs_if running instance
  require runs "Selected substrate is not running"

abbrev pub default_network : Value
default_network = obj (field (text "default") null end)

-- `full["networks"][key]["name"]`, which is a text.
abbrev pub text_of : Value → Result Text
text_of (str t) = ok t
text_of _ = err type_error

unfoldable pub network_name : Value → Value → Result Text
network_name networks key = do
  network ← item_at key networks
  name ← item (text "name") network
  text_of name

unfoldable pub names_of_keys : Value → List Value → Result (List Text)
names_of_keys networks [] = ok []
names_of_keys networks (key ∷ keys) = do
  name ← network_name networks key
  names ← names_of_keys networks keys
  ok (name ∷ names)

-- A set, as the list of its members.
unfoldable pub network_names : Value → Value → Result (List Text)
network_names full service = do
  listed ← get (text "networks") service
  keys ← iterate (or_else listed default_network)
  networks ← item (text "networks") full
  names_of_keys networks keys

-- `xs & ys`, each member once.
unfoldable pub intersection : List Text → List Text → List Text
unfolding member
intersection [] ys = []
intersection (x ∷ xs) ys =
    let rest = intersection xs ys in if member x ys && not (member x rest) then x ∷ rest else rest

abbrev pub only_network : List Text → Result Text
only_network (n ∷ []) = ok n
only_network _ = err (value_error "Expected one shared FE/BE/substrate network")

unfoldable pub common_names : List Text → List Text → List Text → List Text → List Text
common_names pg s3 fe be = intersection (intersection pg s3) (intersection fe be)

unfoldable pub shared_network : Value → Value → Value → Value → Value → Value → Result Text
shared_network config postgres minio doris fe be = do
  pg_names ← network_names config postgres
  s3_names ← network_names config minio
  fe_names ← network_names doris fe
  be_names ← network_names doris be
  network ← only_network (common_names pg_names s3_names fe_names be_names)
  require (is_safe_name network) "Unsupported substrate network name"
  ok network

-- `isinstance(v, str) and v and "\x00" not in v`
abbrev pub is_credential : Value → Bool
is_credential (str t) = not (has_no_items t) && not (has_char 0 t)
is_credential _ = false

pub record Credentials : Type 0 where
  pub pg_user : Value
  pub pg_password : Value
  pub s3_key_id : Value
  pub s3_secret : Value

unfoldable pub are_credentials : Credentials → Bool
are_credentials c =
    is_credential c.pg_user
    && is_credential c.pg_password
    && is_credential c.s3_key_id
    && is_credential c.s3_secret

-- `service.get("environment") or {}`
unfoldable pub environment_of : Value → Result Value
environment_of service = do listed ← get (text "environment") service; ok (or_else listed (obj end))

unfoldable pub credentials_of : Value → Value → Result Credentials
credentials_of postgres minio = do
  pg ← environment_of postgres
  s3 ← environment_of minio
  pg_user ← get (text "POSTGRES_USER") pg
  pg_password ← get (text "POSTGRES_PASSWORD") pg
  s3_key_id ← get (text "MINIO_ROOT_USER") s3
  s3_secret ← get (text "MINIO_ROOT_PASSWORD") s3
  let found : Credentials = record {
    pg_user = pg_user;
    pg_password = pg_password;
    s3_key_id = s3_key_id;
    s3_secret = s3_secret;
  }
  require (are_credentials found) "Full smoke requires explicit substrate credentials"
  ok found
