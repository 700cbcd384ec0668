-- ===== src/Attest/Provider.antt =====
-- `ProviderAttestation` of compose/plugin_attest.py, as steps of the deployment that it attests.
pub mod Steps
pub mod Asked
pub mod Pinned
pub mod Loaded
pub mod Concluded
pub mod Leading
pub mod Passed
use doris_ducklake.Deploy.Exec.{pure, return, ◌>>=◌, ◌>>◌}
use doris_ducklake.Prelude.{
  Bool, Error, List, Option, Result, Text, [], err, false, has_no_items, none, not, ok, require,
  some, suc, text, text_eq, texts_equal, true, value_error, ◌&&◌, ◌++◌, ◌+◌, ◌||◌, ◌∷◌,
}
use doris_ducklake.Json.{Value, to_text}
use doris_ducklake.Preflight.Target.{is_single}
use doris_ducklake.Attest.{alive_versions, inventory_rows, validate_inventory}
use doris_ducklake.Attest.Gates.{
  Backend, all_satisfied, attestation_of, backend_service, build_id_of, check_owned_backend,
  images_of, is_pin, is_stable, pin_or_default, qualification_of, stock_backend,
}
use doris_ducklake.Deploy.Inspect.{container_id, is_running}
use doris_ducklake.Deploy.State.{Attestation, Gate, Lifecycle}
use doris_ducklake.Deploy.Claim.{Command, Job, Step}
use doris_ducklake.Deploy.Host.{
  Host, Settings, ask, look, look_up, note, poll, set_gate, target_now, time_now, update, work,
}
use doris_ducklake.Deploy.Substrate.{containers_named, image_of, rendered}
use doris_ducklake.Deploy.Startup.{confirm_process}

abbrev pub passed_gate : Gate
passed_gate = record { required = true; passed = some true }

abbrev pub undecided_gate : Gate
undecided_gate = record { required = false; passed = none }

abbrev pub batch_flags : Bool → List Text
batch_flags true = text "-B" ∷ text "-r" ∷ []
batch_flags false = text "-B" ∷ text "-r" ∷ text "-N" ∷ []

-- `INVENTORY_SQL`
abbrev pub inventory_sql : Text
inventory_sql =
    text "SELECT EXTENSION_NAME, EXTENSION_TYPE, EXTENSION_VERSION, SOURCE"
    ++ text " FROM information_schema.extensions WHERE LOWER(EXTENSION_NAME) = 'ducklake'"

-- The worker that compares what is installed with the bundle.
abbrev pub verify_job : Job
verify_job = record {
  operation = text "verify";
  readonly = true;
  candidate = true;
  previous = false;
  results = text "verified.json" ∷ [];
}

-- What `require(time.monotonic() < deadline, …)` raises.
abbrev pub registration_late : Error
registration_late = value_error "BE registration timed out"

abbrev pub present : Option Value → Result Value
present none = err (value_error "Missing or ambiguous owned BE container")
present (some instance) = ok instance

abbrev pub some_versions : List Text → Option (List Text)
some_versions [] = none
some_versions (v ∷ vs) = some (v ∷ vs)

-- `alive_versions(output) if output else []`
abbrev pub versions_in : Text → Result (List Text)
versions_in [] = ok []
versions_in (c ∷ cs) = alive_versions (c ∷ cs)

abbrev pub found_versions : Option (List Text) → Result (List Text)
found_versions none = err registration_late
found_versions (some versions) = ok versions

module _ (h : Host) (s : Settings) where
  unfoldable pub gate : Text → Gate → Step (Unit {0})
  gate name value = update (set_gate name value)

  abbrev pub sql_command : Text → Bool → Text → Command
  sql_command container headers sql =
      text "exec"
        ∷ container
        ∷ text "mysql"
        ∷ text "-h127.0.0.1"
        ∷ text "-P9030"
        ∷ text "-uroot"
        ∷ batch_flags headers
      ++ text "-e" ∷ sql ∷ []

  unfoldable pub query : Text → Bool → Step Text
  query sql headers = do
    fe ← confirm_process h s
    container ← pure (container_id fe)
    ask h s (sql_command container headers sql)

  unfoldable pub backend_spec : Step Backend
  backend_spec = do
    current ← target_now h s
    config ← rendered h s s.compose
    pure (
        require (text_eq (h.digest config) s.target.compose_sha256)
          "Rendered runtime configuration changed")
    service ← pure (backend_service config)
    image ← image_of h s (to_text service.1)
    return (record { name = service.0; reference = to_text service.1; image = image })

  unfoldable pub inspect_backend : Backend → List Text → Step (Option Value)
  inspect_backend selected [] = return none
  inspect_backend selected (identity ∷ _) = do
    instance ← look h s identity
    pure (check_owned_backend s.target.spec.project selected instance)
    return (some instance)

  -- `self.backend(required=…)`
  unfoldable pub backend_now : Backend → Bool → Step (Option Value)
  backend_now selected required = do
    ids ← containers_named h s selected.name
    pure (
        require (is_single ids && (not (has_no_items ids) || not required))
          "Missing or ambiguous owned BE container")
    inspect_backend selected ids

  abbrev pub up_backend : Command
  up_backend =
      text "compose"
      ∷ text "-f"
      ∷ s.compose
      ∷ text "up"
      ∷ text "-d"
      ∷ text "--no-deps"
      ∷ text "--no-build"
      ∷ text "--pull"
      ∷ text "never"
      ∷ text "doris-be"
      ∷ []

  -- The backend is checked for its owner before anything is started.
  unfoldable pub start_backend : Backend → Step Value
  start_backend selected = do
    before ← backend_now selected false
    launched ← ask h s up_backend
    found ← backend_now selected true
    be ← pure (present found)
    running ← pure (is_running be)
    pure (require running "Selected BE is not running")
    return be

  -- One round of the wait for the backend's registration.
  unfoldable pub registration_round : Step (Option (List Text))
  registration_round = do
    output ← query (text "SHOW BACKENDS") true
    versions ← pure (versions_in output)
    return (some_versions versions)

  unfoldable pub wait_registered : Step (List Text)
  wait_registered = do
    now ← time_now h s
    found ←
        poll h s registration_late registration_round (suc s.startup_timeout)
          (now + s.startup_timeout)
    versions ← pure (found_versions found)
    gate (text "be_registered") passed_gate
    return versions

  unfoldable pub check_backend_sources : Bool → List Text → List Text → Step (Unit {0})
  check_backend_sources true fe be = gate (text "be_source_exact") undecided_gate
  check_backend_sources false fe be = do
    pure (require (texts_equal fe be) "FE/BE source mismatch")
    gate (text "be_source_exact") passed_gate

  -- `output` is what the server answered about its frontends.
  unfoldable pub accept_sources : Bool → List Text → Text → Step (Unit {0})
  accept_sources stock be_versions output = do
    fe_versions ← pure (alive_versions output)
    let pin = pin_or_default s.source_pin
    pure (require (is_pin pin) "Invalid expected Doris source pin")
    let expected = text "doris-0.0.0-" ++ pin
    update (λ (l : Lifecycle). record l {
      runtime_sources = some (record { expected = expected; fe = fe_versions; be = be_versions });
    })
    pure (require (texts_equal fe_versions (expected ∷ [])) "Unexpected FE/BE source")
    gate (text "fe_source_exact") passed_gate
    check_backend_sources stock fe_versions be_versions

  unfoldable pub attest_sources : Bool → List Text → Step (Unit {0})
  attest_sources stock be_versions = do
    output ← query (text "SHOW FRONTENDS") true
    accept_sources stock be_versions output

  -- `output` is what the server's registry answered.
  unfoldable pub accept_provider : Text → Step (Unit {0})
  accept_provider output = do
    rows ← pure (inventory_rows output)
    update (λ (l : Lifecycle). record l { provider_inventory = rows })
    artifact ← look_up (λ (l : Lifecycle). l.artifact)
    expected ← pure (build_id_of artifact)
    pure (validate_inventory rows expected)
    gate (text "loaded_provider") passed_gate
    note h s (text "loaded-provider-identity-matched")

  unfoldable pub attest_provider : Step (Unit {0})
  attest_provider = do output ← query inventory_sql false; accept_provider output

  unfoldable pub attest_sql : Step (Unit {0})
  attest_sql = do
    output ← query (text "SELECT 1 AS wire_compat_ok") false
    pure (require (text_eq output (text "1")) "Runtime SELECT 1 readiness failed")
    gate (text "sql_ready") passed_gate

  unfoldable pub attest_stable : Backend → Value → Step (Unit {0})
  attest_stable selected be = do
    work h s verify_job
    gate (text "installed_files_exact") passed_gate
    fe ← confirm_process h s
    found ← backend_now selected true
    after ← pure (present found)
    stable ← pure (is_stable be after)
    pure (require stable "BE process changed during attestation")
    gate (text "stable_processes") passed_gate

  -- `write_record("deployment-attested.json", receipt)`
  unfoldable pub write_attestation : Attestation → Step (Unit {0})
  write_attestation receipt = do
    calls ← (λ d. (d, ok d.calls))
    pure (h.store calls (text "deployment-attested.json"))
    update (λ (l : Lifecycle). record l { attestation = some receipt })

  unfoldable pub set_attested : Text → Step (Unit {0})
  set_attested qualification d = (
    record d {
      deployment_attested = true;
      lifecycle = record d.lifecycle {
        loaded_provider_verified = true;
        qualification = some qualification;
      };
    },
    ok tt,
  )

  unfoldable pub conclude : Text → Step (Unit {0})
  conclude qualification = do
    gates ← look_up (λ (l : Lifecycle). l.gates)
    pure (require (all_satisfied gates) "Required identity gate failed")
    kept ← look_up (λ (l : Lifecycle). l)
    receipt ← pure (attestation_of s.token qualification kept)
    write_attestation receipt
    set_attested qualification
    note h s (text "deployment-attested")

  -- The processes, up to the backend's registration.
  unfoldable pub attest_processes : Step (Backend × Value × List Text)
  attest_processes = do
    update (λ (l : Lifecycle). record l { gates = [] })
    fe ← confirm_process h s
    gate (text "fresh_fe_process") passed_gate
    selected ← backend_spec
    be ← start_backend selected
    be_versions ← wait_registered
    return (selected, be, be_versions)

  unfoldable pub keep_images : Backend → Value → Step (Unit {0})
  keep_images selected be = do
    fe_id ← look_up (λ (l : Lifecycle). l.fe_image)
    images ← pure (images_of s.target.spec.image fe_id selected be)
    update (λ (l : Lifecycle). record l { runtime_images = some images })

  abbrev pub is_stock : Backend → Bool
  is_stock selected = text_eq selected.reference stock_backend

  unfoldable pub attest : Step (Unit {0})
  attest = do
    started ← attest_processes
    attest_sources (is_stock started.0) started.2
    attest_provider
    attest_sql
    attest_stable started.0 started.1
    keep_images started.0 started.1
    conclude (qualification_of (is_stock started.0))
