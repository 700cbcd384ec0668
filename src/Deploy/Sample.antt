-- ===== src/Deploy/Sample.antt =====
-- A machine on which a whole deployment succeeds: a project whose frontend is there and does not
-- run until it is started, the stock backend, and helpers that end well.
use doris_ducklake.Prelude.{
  Bool, List, Result, String, Text, [], err, false, if◌then◌else◌, length, member, none, ok,
  os_error, some_of, starts_with, subprocess_error, text, text_eq, texts_equal, true, ℕ, ◌+◌, ◌||◌,
  ◌∷◌,
}
use doris_ducklake.Prelude.Int.{pos}
use doris_ducklake.Json.{Value, arr, bool, cons, end, nil, num, obj, str, to_fields}
use doris_ducklake.Preflight.Target.Sample.{a_target, constant_digest}
use doris_ducklake.Preflight.Target.{
  backend, frontend, plugin_mount, project_label, service_label, volume_label,
}
use doris_ducklake.Deploy.Config.{file, missing}
use doris_ducklake.Deploy.Inspect.{owner_label}
use doris_ducklake.Deploy.State.{nothing_done}
use doris_ducklake.Deploy.Claim.{Call, Command, Deployment}
use doris_ducklake.Deploy.Host.{Host, Settings}
use doris_ducklake.Deploy.Install.{Evidence}
use doris_ducklake.Deploy.Run.{Smoke}
use doris_ducklake.Attest.Gates.{stock_backend}

abbrev pub fields : List (Text × Value) → Value
fields entries = obj (to_fields entries)

abbrev pub single : Value → Value
single v = arr (cons v nil)

abbrev pub named : String → Value → Text × Value
named k v = (text k, v)

abbrev pub fe_service : Value
fe_service = fields (
    named "container_name" (str (text "fe"))
    ∷ named "image" (str (text "img"))
    ∷ named "volumes" (
        single (
          fields (
            named "type" (str (text "volume"))
            ∷ named "source" (str (text "plugins"))
            ∷ named "target" (str plugin_mount)
            ∷ [])))
    ∷ [])

abbrev pub be_service : Value
be_service =
    fields (named "container_name" (str (text "be")) ∷ named "image" (str stock_backend) ∷ [])

abbrev pub two_services : Value
two_services = fields (
    named "name" (str (text "proj"))
    ∷ named "services" (fields ((frontend, fe_service) ∷ (backend, be_service) ∷ []))
    ∷ named "volumes" (fields (named "plugins" (fields (named "name" (str (text "pv")) ∷ [])) ∷ []))
    ∷ [])

abbrev pub labels_for : Text → Value
labels_for service = fields (
    (project_label, str (text "proj"))
    ∷ (service_label, str service)
    ∷ (volume_label, str (text "plugins"))
    ∷ [])

abbrev pub mounts_of_frontend : Value
mounts_of_frontend = single (
    fields (
      named "Type" (str (text "volume"))
      ∷ named "Name" (str (text "pv"))
      ∷ named "Destination" (str plugin_mount)
      ∷ []))

-- A container of one of the two services.
abbrev pub a_service : String → String → Text → Bool → String → Value → Value
a_service id name service running started mounts = fields (
    named "Id" (str (text id))
    ∷ named "Name" (str (text name))
    ∷ named "Image" (str (text "sha"))
    ∷ named "Config" (fields (named "Labels" (labels_for service) ∷ []))
    ∷ named "State"
        (fields (named "Running" (bool running) ∷ named "StartedAt" (str (text started)) ∷ []))
    ∷ named "Mounts" mounts
    ∷ named "HostConfig" (
        fields (
          named "NetworkMode" (str (text "proj_default"))
          ∷ named "PublishAllPorts" (bool false)
          ∷ named "PortBindings" (obj end)
          ∷ []))
    ∷ named "NetworkSettings" (fields (named "Ports" (obj end) ∷ []))
    ∷ [])

abbrev pub a_helper : Value
a_helper = fields (
    named "Id" (str (text "h0"))
    ∷ named "Config" (fields (named "Labels" (fields ((owner_label, str (text "t0")) ∷ [])) ∷ []))
    ∷ named "State" (fields (named "Running" (bool false) ∷ named "ExitCode" (num (pos 0)) ∷ []))
    ∷ [])

-- What an answer stands for.
abbrev pub read_answer : Text → Result Value
read_answer t =
    if text_eq t (text "config")
    then ok two_services
    else if text_eq t (text "image")
    then ok (single (fields (named "Id" (str (text "sha")) ∷ [])))
    else if text_eq t (text "fe stopped")
    then ok (single (a_service "id1" "/fe" frontend false "2024-01-01" mounts_of_frontend))
    else if text_eq t (text "fe running")
    then ok (single (a_service "id1" "/fe" frontend true "2025-01-01" mounts_of_frontend))
    else if text_eq t (text "be")
    then ok (single (a_service "id2" "/be" backend true "2025-01-01" (arr nil)))
    else if text_eq t (text "volume")
    then ok (single (fields (named "Labels" (labels_for frontend) ∷ [])))
    else ok (single a_helper)

abbrev pub last_of : List Text → Text
last_of [] = []
last_of (t ∷ []) = t
last_of (t ∷ u ∷ us) = last_of (u ∷ us)

abbrev pub is_start_of_frontend : Call → Bool
is_start_of_frontend (command, answer) = texts_equal command (text "start" ∷ text "id1" ∷ [])

abbrev pub sql_answer : Text → Text
sql_answer sql =
    if starts_with sql (text "SHOW")
    then text "Alive\tVersion\ntrue\tdoris-0.0.0-4bc7f426828"
    else if starts_with sql (text "SELECT 1")
    then text "1"
    else text "ducklake\tCONNECTOR\tb\tEXTERNAL"

abbrev pub described_as : List Call → Text → Text
described_as earlier container =
    if text_eq container (text "id2")
    then text "be"
    else if text_eq container (text "id1") || text_eq container (text "fe")
    then if some_of is_start_of_frontend earlier then text "fe running" else text "fe stopped"
    else text "helper"

abbrev pub listed_for : List Text → Text
listed_for command = if member (text "name=^/be$") command then text "id2" else text "id1"

abbrev pub answer_for : List Call → Text → Text → List Text → Text
answer_for earlier first second rest =
    if text_eq first (text "compose")
    then text "config"
    else if text_eq first (text "image")
    then text "image"
    else if text_eq first (text "volume")
    then if text_eq second (text "inspect") then text "volume" else text "pv"
    else if text_eq first (text "create")
    then text "h0"
    else if text_eq first (text "exec")
    then sql_answer (last_of rest)
    else if text_eq second (text "inspect")
    then described_as earlier (last_of rest)
    else listed_for rest

abbrev pub machine : List Call → Command → Result Text
machine earlier (first ∷ second ∷ rest) = ok (answer_for earlier first second rest)
machine earlier _ = err subprocess_error

abbrev pub same_bytes : List ℕ → Text
same_bytes bytes = bytes

abbrev pub a_host : Host
a_host = record {
  daemon = machine;
  loads = read_answer;
  save = λ events. ok tt;
  digest = constant_digest;
  hash = same_bytes;
  store = λ calls name. ok tt;
  runtime_file = λ calls written. file (text "conf");
  template = missing;
  clock = λ calls. length calls + length calls;
}

abbrev pub an_artifact : Value
an_artifact = fields (named "build_id" (str (text "b")) ∷ [])

abbrev pub some_settings : Settings
some_settings = record {
  token = text "t0";
  compose = text "c.yml";
  target = a_target;
  artifact = an_artifact;
  mode = text "attested-only";
  evidence = text "ev";
  source = text "src";
  startup_timeout = 3;
  source_pin = none;
}

abbrev pub an_evidence : Evidence same_bytes
an_evidence = record {
  bundle = ok an_artifact;
  empty_snapshot = err os_error;
  fetched = λ calls. ok (
    [],
    record {
      schema = text "doris-plugin-backup-v1";
      held = record { files = []; directories = [] };
      archive_sha256 = [];
    },
  );
  open_tar = λ bytes. ok [];
}

abbrev pub no_smoke : Smoke
no_smoke = record {
  has_command = false;
  substrate = [];
  child = λ calls files. (files, err os_error);
  decimal_text = λ d. [];
  dumps = λ ledger. [];
  policy = [];
}

abbrev pub at_first : Deployment
at_first = record {
  calls = [];
  claim = none;
  image = [];
  helpers = [];
  events = [];
  unsafe_helper_state = false;
  unsafe_fe_state = false;
  install_boundary = false;
  deployment_attested = false;
  lifecycle = nothing_done;
}
