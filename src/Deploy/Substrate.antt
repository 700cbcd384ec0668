-- ===== src/Deploy/Substrate.antt =====
-- `resolve_substrate` of compose/smoke_targets.py: the substrate of a full smoke, from the two
-- rendered configurations and from what Docker says of its containers.
use doris_ducklake.Deploy.Exec.{pure, return, ◌>>=◌, ◌>>◌}
use doris_ducklake.Prelude.{
  Bool, List, Text, [], has_no_items, not, require, splitlines, text, text_eq, ◌&&◌, ◌++◌, ◌||◌,
  ◌∷◌,
}
use doris_ducklake.Json.{Value, item, to_text}
use doris_ducklake.Preflight.Target.{backend, frontend, is_single}
use doris_ducklake.Deploy.Inspect.{first_item}
use doris_ducklake.Deploy.Claim.{Step}
use doris_ducklake.Deploy.Networks.{
  Credentials, Service, check_container, credentials_of, selected_service, shared_network,
}
use doris_ducklake.Deploy.Host.{Host, Settings, ask, look}

-- What may enter a receipt.
pub record Routing : Type 0 where
  pub project : Value
  pub postgres : Text
  pub minio : Text
  pub network : Text
  pub postgres_image : Value
  pub minio_image : Value
  pub python_image : Value
  pub mc_image : Value
  pub compose_sha256 : Text

module _ (h : Host) (s : Settings) where
  -- `json.loads(docker("compose", "-f", path, "config", "--format", "json"))`
  unfoldable pub rendered : Text → Step Value
  rendered path = do
    output ←
        ask h s
          (text "compose" ∷ text "-f" ∷ path ∷ text "config" ∷ text "--format" ∷ text "json" ∷ [])
    pure (h.loads output)

  -- `json.loads(docker("image", "inspect", reference))[0]["Id"]`
  unfoldable pub image_of : Text → Step Value
  image_of reference = do
    output ← ask h s (text "image" ∷ text "inspect" ∷ reference ∷ [])
    answers ← pure (h.loads output)
    first ← pure (first_item answers)
    pure (item (text "Id") first)

  unfoldable pub containers_named : Text → Step (List Text)
  containers_named name = do
    output ← ask h s (
        text "container"
        ∷ text "ls"
        ∷ text "--all"
        ∷ text "--filter"
        ∷ (text "name=^/" ++ name ++ text "$")
        ∷ text "--format"
        ∷ text "{{.ID}}"
        ∷ [])
    return (splitlines output)

  unfoldable pub check_first : Value → Text → Service → Value → Bool → List Text → Step (Unit {0})
  check_first project service selected image running [] = return tt
  check_first project service selected image running (identity ∷ _) = do
    instance ← look h s identity
    pure (check_container project service selected.name image running instance)

  -- One round of the loop over the services.
  unfoldable pub resolve_service : Value → Value → Bool → Text → Step (Text × Value)
  resolve_service project services running service = do
    selected ← pure (selected_service services service)
    image ← image_of (to_text selected.image)
    ids ← containers_named selected.name
    pure (
        require (is_single ids && (not (has_no_items ids) || not running))
          "Missing or ambiguous substrate container")
    check_first project service selected image running ids
    return (selected.name, image)

  unfoldable pub check_routing : Value → Step (Unit {0})
  check_routing doris = pure (
      require (text_eq (h.digest doris) s.target.compose_sha256)
        "Doris routing changed after preflight")

  unfoldable pub resolve_network : Value → Value → Value → Step Text
  resolve_network config services doris = do
    postgres ← pure (item (text "postgres") services)
    minio ← pure (item (text "minio") services)
    doris_services ← pure (item (text "services") doris)
    fe ← pure (item frontend doris_services)
    be ← pure (item backend doris_services)
    pure (shared_network config postgres minio doris fe be)

  unfoldable pub resolve_credentials : Value → Step Credentials
  resolve_credentials services = do
    postgres ← pure (item (text "postgres") services)
    minio ← pure (item (text "minio") services)
    pure (credentials_of postgres minio)

  -- `file` is the substrate's compose file.
  unfoldable pub resolve_substrate : Text → Bool → Step (Routing × Credentials)
  resolve_substrate file running = do
    config ← rendered file
    doris ← rendered s.compose
    check_routing doris
    project ← pure (item (text "name") config)
    services ← pure (item (text "services") config)
    postgres ← resolve_service project services running (text "postgres")
    minio ← resolve_service project services running (text "minio")
    network ← resolve_network config services doris
    credentials ← resolve_credentials services
    python ← image_of (text "python:3.12-slim")
    mc ← image_of (text "minio/mc:latest")
    return (
      record {
        project = project;
        postgres = postgres.0;
        minio = minio.0;
        network = network;
        postgres_image = postgres.1;
        minio_image = minio.1;
        python_image = python;
        mc_image = mc;
        compose_sha256 = h.digest config;
      },
      credentials,
    )
