-- ===== src/Attest/Gates.antt =====
-- What `ProviderAttestation` of compose/plugin_attest.py requires, from what it has read.
use doris_ducklake.Prelude.{
  Bool, Dict, Guard, Option, Result, String, Text, [], and_then, every, false, is_hex, leb, length,
  none, not, ok, or_key_error, require, some, text, true, ◌&&◌, ◌>>=◌, ◌>>◌, ◌||◌, ◌∷◌,
}
use doris_ducklake.Json.{Value, get, item, str, truthy}
use doris_ducklake.Smoke.Exact.{py_eq}
use doris_ducklake.Preflight.Target.{backend, safe_name}
use doris_ducklake.Deploy.Inspect.{container_id, is_running}
use doris_ducklake.Deploy.State.{Attestation, Gate, Images, Lifecycle}
use doris_ducklake.Deploy.Networks.{is_of_service, text_of}

-- The selected backend: its container's name, and its image by reference and by identity.
pub record Backend : Type 0 where
  pub name : Text
  pub reference : Text
  pub image : Value

-- `STOCK_BE`
abbrev pub stock_backend : Text
stock_backend = text "apache/doris:be-4.1.4"

abbrev pub default_pin : Text
default_pin = text "4bc7f426828"

abbrev pub pin_or_default : Option Text → Text
pin_or_default none = default_pin
pin_or_default (some pin) = pin

-- `re.fullmatch(r"[0-9a-f]{7,40}", pin)`
unfoldable pub is_pin : Text → Bool
unfolding is_hex
is_pin pin = leb 7 (length pin) && leb (length pin) 40 && every is_hex pin

abbrev pub no_backend : String
no_backend = "Expected one explicit BE container and image"

-- The name and the image's reference of the service `doris-be`.
unfoldable pub backend_service : Value → Result (Text × Value)
backend_service config = do
  services ← item (text "services") config
  service ← item backend services
  name_value ← get (text "container_name") service
  name ← safe_name no_backend name_value
  image ← get (text "image") service
  require (truthy image) no_backend
  ok (name, image)

unfoldable pub check_owned_backend : Text → Backend → Value → Guard
check_owned_backend project selected instance = do
  own ← is_of_service (str project) backend selected.name instance
  require own "Foreign BE container ownership"
  image ← item (text "Image") instance
  require (py_eq image selected.image)
      "BE image differs from selected image; explicit migration required"

unfoldable pub state_item : Text → Value → Result Value
state_item k instance = do state ← item (text "State") instance; item k state

-- `after["Id"] == be["Id"]`, it runs, and it was started when `be` was.
unfoldable pub same_start : Value → Value → Result Bool
same_start be after = do
  started_after ← state_item (text "StartedAt") after
  started_before ← state_item (text "StartedAt") be
  ok (py_eq started_after started_before)

unfoldable pub is_stable : Value → Value → Result Bool
is_stable be after = do
  id_after ← item (text "Id") after
  id_before ← item (text "Id") be
  running ← and_then (py_eq id_after id_before) (is_running after)
  and_then running (same_start be after)

abbrev pub has_passed : Option Bool → Bool
has_passed none = false
has_passed (some b) = b

-- `not value["required"] or value["passed"]`
abbrev pub is_satisfied : Gate → Bool
is_satisfied gate = not gate.required || has_passed gate.passed

unfoldable pub all_satisfied : Dict Gate → Bool
all_satisfied [] = true
all_satisfied ((name, gate) ∷ gates) = is_satisfied gate && all_satisfied gates

-- `artifact["build_id"]`, a text in every artifact that is verified.
unfoldable pub build_id_of : Option Value → Result Text
build_id_of artifact = do
  known ← or_key_error artifact
  identity ← item (text "build_id") known
  text_of identity

unfoldable pub images_of : Value → Value → Backend → Value → Result Images
images_of fe_reference fe_id selected be = do
  image ← item (text "Image") be
  id ← container_id be
  started ← state_item (text "StartedAt") be
  ok (record {
    fe_reference = fe_reference;
    fe_id = fe_id;
    be_reference = selected.reference;
    be_id = image;
    be_container = selected.name;
    be_container_id = id;
    be_started_at = started;
  })

abbrev pub qualification_of : Bool → Text
qualification_of true = text "stock-be-compatibility-experiment"
qualification_of false = text "matching-pinned-fe-be"

-- deployment-attested.json, from what the deployment has kept, without what is constant in it.
unfoldable pub attestation_of : Text → Text → Lifecycle → Result Attestation
attestation_of token qualification l = do
  artifact ← or_key_error l.artifact
  images ← or_key_error l.runtime_images
  sources ← or_key_error l.runtime_sources
  ok (record {
    owner = token;
    artifact = artifact;
    prior_process = l.prior;
    fe_process = l.new_process;
    runtime_images = images;
    runtime_sources = sources;
    provider_inventory = l.provider_inventory;
    gates = l.gates;
    qualification = qualification;
    runtime_config_sha256 = l.config.sha256;
  })
