-- ===== src/Preflight/Target.antt =====
-- `target_from_compose` of compose/plugin_preflight.py: which volume and which containers a
-- deployment is about, from the rendered configuration and from what Docker says of them.
mod Tests
pub mod Sample
pub mod Ownership
use doris_ducklake.Prelude.{
  Bool, Guard, List, Result, String, Text, [], and_then, attribute_error, err, every, false,
  has_no_items, if◌then◌else◌, index_error, key_error, leb, member, not, ok, require, splitlines,
  text, text_eq, true, type_error, value_error, ℕ, ◌&&◌, ◌++◌, ◌==◌, ◌>>=◌, ◌>>◌, ◌||◌, ◌∷◌,
}
use doris_ducklake.Json.{
  Value, arr, cons, end, get, get_default, is_text, item, iterate, nil, null, obj, or_else, str,
  truthy,
}
use doris_ducklake.Preflight.Network.{development_compose_network, development_container_network}

-- `PLUGIN_MOUNT`
abbrev pub plugin_mount : Text
plugin_mount = text "/opt/apache-doris/fe/plugins/connector/ducklake"

abbrev pub frontend : Text
frontend = text "doris-fe"

abbrev pub backend : Text
backend = text "doris-be"

abbrev pub project_label : Text
project_label = text "com.docker.compose.project"

abbrev pub service_label : Text
service_label = text "com.docker.compose.service"

abbrev pub volume_label : Text
volume_label = text "com.docker.compose.volume"

-- `[A-Za-z0-9]` and `[A-Za-z0-9_.-]`
unfoldable pub is_letter_or_digit : ℕ → Bool
is_letter_or_digit c =
    (leb b'A' c && leb c b'Z') || (leb b'a' c && leb c b'z') || (leb b'0' c && leb c b'9')

unfoldable pub is_name_char : ℕ → Bool
is_name_char c = is_letter_or_digit c || (c == b'_') || (c == b'.') || (c == b'-')

unfoldable pub is_safe_name : Text → Bool
is_safe_name [] = false
is_safe_name (c ∷ cs) = is_letter_or_digit c && every is_name_char cs

-- A name of the configuration: a text that is a safe name.
unfoldable pub safe_name : String → Value → Result Text
safe_name complaint (str name) = require (is_safe_name name) complaint >> ok name
safe_name complaint _ = err (value_error complaint)

-- `v[k]`, for a key that is itself a value of the document.
unfoldable pub item_at : Value → Value → Result Value
item_at (str key) v = item key v
item_at (arr _) v = err type_error
item_at (obj _) v = err type_error
item_at _ v = err key_error

-- `[m for m in mounts if m.get(k) == value]`
unfoldable pub with_field : Text → Text → List Value → Result (List Value)
with_field k value [] = ok []
with_field k value (m ∷ ms) = do
  v ← get k m
  rest ← with_field k value ms
  ok (if is_text v value then m ∷ rest else rest)

-- What the configuration says of the frontend.
pub record FrontendSpec : Type 0 where
  pub project : Text
  pub container : Text
  pub key : Text
  pub volume : Text
  pub image : Value

-- The one mount, if it is a volume.
unfoldable pub volume_mount : List Value → Result Value
volume_mount (mount ∷ []) = do
  kind ← get (text "type") mount
  require (is_text kind (text "volume")) "Expected one named FE plugin volume"
  ok mount
volume_mount _ = err (value_error "Expected one named FE plugin volume")

abbrev pub unsupported : String
unsupported = "Unsupported compose target name"

unfoldable pub frontend_spec : Value → Result FrontendSpec
frontend_spec config = do
  project_value ← item (text "name") config
  services ← item (text "services") config
  service ← item frontend services
  container_value ← get (text "container_name") service
  listed ← get_default (text "volumes") (arr nil) service
  all_mounts ← iterate listed
  mounts ← with_field (text "target") plugin_mount all_mounts
  mount ← volume_mount mounts
  key_value ← item (text "source") mount
  volumes ← item (text "volumes") config
  definition ← item_at key_value volumes
  volume_value ← item (text "name") definition
  project ← safe_name unsupported project_value
  container ← safe_name unsupported container_value
  key ← safe_name unsupported key_value
  volume ← safe_name unsupported volume_value
  image ← get (text "image") service
  require (truthy image) "Expected an explicit FE image"
  ok (record {
    project = project;
    container = container;
    key = key;
    volume = volume;
    image = image;
  })

-- `instance["Config"].get("Labels") or {}`
unfoldable pub labels_of : Value → Result Value
labels_of instance_value = do
  config ← item (text "Config") instance_value
  labels ← get (text "Labels") config
  ok (or_else labels (obj end))

-- `name.removeprefix("/")`
abbrev pub without_slash : Text → Text
without_slash [] = []
without_slash (c ∷ cs) = if c == b'/' then cs else c ∷ cs

abbrev pub is_named : Value → Text → Result Bool
is_named (str name) container = ok (text_eq (without_slash name) container)
is_named _ container = err attribute_error

unfoldable pub label_is : Text → Text → Value → Result Bool
label_is k value labels = do v ← get k labels; ok (is_text v value)

-- The container is that of this project's service.
unfoldable pub is_own_service : Value → Text → Text → Text → Result Bool
is_own_service instance_value container project service = do
  labels ← labels_of instance_value
  name ← item (text "Name") instance_value
  named ← is_named name container
  of_project ← and_then named (label_is project_label project labels)
  and_then of_project (label_is service_label service labels)

-- The one mount of the frontend at the plugin's path is the volume.
unfoldable pub mounts_volume : List Value → Text → Result Bool
mounts_volume (m ∷ []) volume = do
  kind ← get (text "Type") m
  and_then (is_text kind (text "volume")) (label_is (text "Name") volume m)
mounts_volume _ volume = ok false

unfoldable pub check_frontend : FrontendSpec → Value → Guard
check_frontend spec instance_value = do
  own ← is_own_service instance_value spec.container spec.project frontend
  require own "Foreign FE container ownership"
  listed ← get_default (text "Mounts") (arr nil) instance_value
  mounts ← iterate listed
  found ← with_field (text "Destination") plugin_mount mounts
  same ← mounts_volume found spec.volume
  require same "Existing FE uses a different plugin volume"
  development_container_network instance_value frontend

unfoldable pub check_backend : Text → Text → Value → Guard
check_backend project container instance_value = do
  own ← is_own_service instance_value container project backend
  require own "Foreign BE container ownership"
  development_container_network instance_value backend

-- `value in {None, text}`
abbrev pub is_absent_or : Value → Text → Bool
is_absent_or null t = true
is_absent_or v t = is_text v t

-- Who the volume belongs to, and who mounts it. `mounted` is whether the frontend's container is
-- there, `ids` its identity, `consumers` the containers that use the volume.
unfoldable pub check_volume : FrontendSpec → Bool → List Text → Value → List Text → Guard
check_volume spec mounted ids labels consumers = do
  owner ← get project_label labels
  logical ← get volume_label labels
  require (is_absent_or owner spec.project && is_absent_or logical spec.key)
      "Foreign plugin volume ownership"
  require (mounted || (is_text owner spec.project && is_text logical spec.key))
      "Orphan/unlabelled plugin volume ownership is unproven"
  require (every (λ c. member c ids) consumers) "Plugin volume is also used by a foreign container"

pub record Target : Type 0 where
  pub spec : FrontendSpec
  pub compose_sha256 : Text
  pub fe_present : Bool
  pub volume_present : Bool

abbrev pub is_single : List Text → Bool
is_single [] = true
is_single (_ ∷ []) = true
is_single (_ ∷ _ ∷ _) = false

-- The first of what `docker … inspect` describes.
abbrev pub first_of : Value → Result Value
first_of (arr (cons v _)) = ok v
first_of (arr nil) = err index_error
first_of _ = err type_error

-- `ask` is the answer of the Docker command line (its surrounding white space removed), `loads`
-- is `json.loads`, and `digest` the SHA-256 of the configuration's canonical JSON.
module _ (ask : List Text → Result Text) (loads : Text → Result Value) (digest : Value → Text) where
  unfoldable pub docker_json : List Text → Result Value
  docker_json command = do output ← ask command; loads output

  -- `docker container ls --all --filter name=^/…$`
  unfoldable pub container_ids : Text → Result (List Text)
  container_ids container = do
    output ← ask (
        text "container"
        ∷ text "ls"
        ∷ text "--all"
        ∷ text "--filter"
        ∷ (text "name=^/" ++ container ++ text "$")
        ∷ text "--format"
        ∷ text "{{.ID}}"
        ∷ [])
    ok (splitlines output)

  unfoldable pub described : Text → Result Value
  described identity = do
    answers ← docker_json (text "container" ∷ text "inspect" ∷ identity ∷ [])
    first_of answers

  unfoldable pub check_each_frontend : FrontendSpec → List Text → Guard
  check_each_frontend spec [] = ok tt
  check_each_frontend spec (identity ∷ _) = described identity >>= check_frontend spec

  unfoldable pub check_each_backend : Text → Text → List Text → Guard
  check_each_backend project name [] = ok tt
  check_each_backend project name (identity ∷ _) = described identity >>= check_backend project name

  unfoldable pub check_backend_service : Text → Value → Guard
  check_backend_service project null = ok tt
  check_backend_service project service = do
    name_value ← get (text "container_name") service
    name ← safe_name "Expected an explicit BE container name" name_value
    ids ← container_ids name
    require (is_single ids) "Ambiguous BE container"
    check_each_backend project name ids

  unfoldable pub volume_names : Text → Result (List Text)
  volume_names volume = do
    output ← ask (
        text "volume"
        ∷ text "ls"
        ∷ text "--filter"
        ∷ (text "name=^" ++ volume ++ text "$")
        ∷ text "--format"
        ∷ text "{{.Name}}"
        ∷ [])
    ok (splitlines output)

  unfoldable pub consumers_of : Text → Result (List Text)
  consumers_of volume = do
    output ← ask (
        text "container"
        ∷ text "ls"
        ∷ text "--all"
        ∷ text "--filter"
        ∷ (text "volume=" ++ volume)
        ∷ text "--format"
        ∷ text "{{.ID}}"
        ∷ [])
    ok (splitlines output)

  unfoldable pub check_volumes : FrontendSpec → Bool → List Text → List Text → Guard
  check_volumes spec mounted ids [] = ok tt
  check_volumes spec mounted ids (_ ∷ _) = do
    answers ← docker_json (text "volume" ∷ text "inspect" ∷ spec.volume ∷ [])
    volume ← first_of answers
    labels ← get (text "Labels") volume
    consumers ← consumers_of spec.volume
    check_volume spec mounted ids (or_else labels (obj end)) consumers

  unfoldable pub target_from_compose : Text → Result Target
  target_from_compose compose = do
    config ←
        docker_json (
          text "compose" ∷ text "-f" ∷ compose ∷ text "config" ∷ text "--format" ∷ text "json" ∷ [])
    development_compose_network config
    spec ← frontend_spec config
    ids ← container_ids spec.container
    require (is_single ids) "Ambiguous FE container"
    check_each_frontend spec ids
    services ← item (text "services") config
    be ← get backend services
    check_backend_service spec.project be
    volumes ← volume_names spec.volume
    require (every (λ v. text_eq v spec.volume) volumes) "Ambiguous plugin volume lookup"
    require (has_no_items ids || not (has_no_items volumes))
        "Existing FE plugin volume was not found"
    check_volumes spec (not (has_no_items ids)) ids volumes
    ok (record {
      spec = spec;
      compose_sha256 = digest config;
      fe_present = not (has_no_items ids);
      volume_present = not (has_no_items volumes);
    })
