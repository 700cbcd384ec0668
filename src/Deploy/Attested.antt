-- ===== src/Deploy/Attested.antt =====
-- The wait for the frontend and the attestation on the sample machine.
use doris_ducklake.Attest.Provider.Passed.{IsAttested, attest-IsAttested}
use doris_ducklake.Deploy.Exec.{gets, modify, pure, ◌>>=◌}
use doris_ducklake.Prelude.{
  Guard, Option, Result, [], ap, arith, insert, lookup, lstrip, none, ok, refl, some, splitlines,
  strip, text, texts_equal, ◌∷◌, ◌≡◌, ◌≢◌,
}
use doris_ducklake.Json.{
  by_key, decode_fields, decode_items, decode_unique, eq_Decimal, get, get_default, has_key, in_set,
  item, iterate, to_text, truthy, unique_object,
}
use doris_ducklake.Preflight.Target.{
  check_backend, check_backend_service, check_each_backend, check_each_frontend, check_frontend,
  check_volume, check_volumes, consumers_of, container_ids, described, docker_json, frontend_spec,
  is_letter_or_digit, is_name_char, is_own_service, is_safe_name, item_at, label_is, labels_of,
  mounts_volume, safe_name, target_from_compose, volume_mount, volume_names, with_field,
}
use doris_ducklake.Preflight.Network.{
  check_binding, check_bindings, check_network, check_port, check_port_map, check_service,
  development_binding, development_compose_network, development_container_network,
  development_network_mode, is_contained_mode, is_inspected, is_port,
}
use doris_ducklake.Preflight.Utf8.{utf8, utf8_decode}
use doris_ducklake.Preflight.Path.{canonical_path, is_canonical}
use doris_ducklake.Smoke.Exact.{py_eq, py_eq_fields, py_eq_items, same_key_set}
use doris_ducklake.Attest.{
  add_live, add_version, alive_version, alive_versions, are_distinct, collect_versions, column_is,
  has_header, insert_text, inventory_rows, is_external_connector, parse_row, parse_rows, sort_texts,
  text_le, validate_inventory, validate_row, versions_of, zip_onto,
}
use doris_ducklake.Attest.Gates.{
  all_satisfied, attestation_of, backend_service, build_id_of, check_owned_backend, images_of,
  is_pin, is_stable, same_start, state_item,
}
use doris_ducklake.Attest.Provider.{
  accept_provider, accept_sources, attest, attest_processes, attest_provider, attest_sources,
  attest_sql, attest_stable, backend_now, backend_spec, check_backend_sources, conclude, gate,
  inspect_backend, keep_images, query, registration_round, set_attested, start_backend,
  wait_registered, write_attestation,
}
use doris_ducklake.Deploy.Inspect.{
  container_id, first_item, has_succeeded, is_finished, is_owned_by, is_running,
}
use doris_ducklake.Deploy.Config.{
  accept_change, is_current, stage_config, verify_rounds, verify_runtime_config,
}
use doris_ducklake.Deploy.Process.{
  insert_mount, is_first_boot, is_fresh, is_same_identity, is_same_process, keeps_identity,
  mount_fields, mount_le, mount_record, mount_records, process_of, process_record, sort_mounts,
}
use doris_ducklake.Deploy.Claim.{
  Deployment, copy_all, copy_worker, create_worker, docker, event, fetch_all, forget_helper,
  inspect, owned, ownership, remove_helper, remove_owned, start_worker, stop_owned, without, worker,
}
use doris_ducklake.Deploy.Frontend.{
  compare_target, current_target, fe, has_nothing_to_close, is_same_target, keep_stopped,
  revalidate, stop_found,
}
use doris_ducklake.Deploy.Readiness.{check_kept, check_started, is_confirmed, started_of}
use doris_ducklake.Deploy.Networks.{
  check_container, credentials_of, environment_of, has_labels, is_of_service, network_name,
  selected_service,
}
use doris_ducklake.Deploy.Substrate.{
  check_first, containers_named, image_of, rendered, resolve_credentials, resolve_substrate,
}
use doris_ducklake.Deploy.Host.{
  before_deadline, check_deadline, look_up, pause, poll, runtime_now, time_now, update,
}
use doris_ducklake.Deploy.Startup.{
  accept_found, accept_running, check_cluster, check_runtime_config, confirm_process, confirm_ready,
  launch, metadata_cluster_id, read_cluster_id, stage_runtime_config, start, try_ready, wait_ready,
  wait_round,
}
use doris_ducklake.Deploy.Install.{backup}
use doris_ducklake.Deploy.Outcome.{check_config_files, completed_from, is_known_backend, own_digest}
use doris_ducklake.Deploy.Run.{own_cluster, own_config, own_frontend, own_target}
use doris_ducklake.Deploy.Sample.{
  a_host, an_artifact, an_evidence, at_first, no_smoke, some_settings,
}
use doris_ducklake.Deploy.Startup.Waiting.{IsClock, wait_ready-ends}

ticks : IsClock a_host.clock
ticks = record { forward = λ c calls. omega arith; slept = λ calls. omega arith }

wait_ready-ends_example : wait_ready a_host some_settings at_first ≢ (at_first, ok none)
wait_ready-ends_example = wait_ready-ends a_host some_settings ticks at_first at_first

-- The frontend is owned, and has been started.
abbrev owned_state : Deployment
owned_state = (own_target a_host some_settings an_evidence no_smoke at_first).0

abbrev waiting_state : Deployment
waiting_state = record owned_state {
  calls = (text "start" ∷ text "id1" ∷ [], ok []) ∷ owned_state.calls;
}

abbrev waited : Deployment × Result (Option (Unit {0}))
waited = wait_ready a_host some_settings waiting_state

-- The frontend is ready, and the artifact is kept.
abbrev ready_state : Deployment
ready_state = record waited.0 {
  claim = some (text "h0");
  lifecycle = record waited.0.lifecycle { artifact = some an_artifact };
}

abbrev attested : Deployment × Guard
attested = attest a_host some_settings ready_state

attest_succeeds : attested.1 ≡ ok tt
unfolding lstrip strip splitlines texts_equal lookup insert eq_Decimal truthy get get_default item
    has_key iterate in_set by_key to_text unique_object decode_unique decode_items decode_fields
    is_letter_or_digit is_name_char is_safe_name safe_name item_at with_field volume_mount
    frontend_spec labels_of label_is is_own_service mounts_volume check_frontend check_backend
    check_volume docker_json container_ids described check_each_frontend check_each_backend
    check_backend_service volume_names consumers_of check_volumes target_from_compose is_port
    development_binding is_contained_mode development_network_mode check_network check_port
    check_service development_compose_network check_binding check_bindings check_port_map
    is_inspected development_container_network utf8 utf8_decode is_canonical canonical_path
    same_key_set py_eq py_eq_items py_eq_fields zip_onto parse_row parse_rows inventory_rows
    column_is is_external_connector validate_row validate_inventory are_distinct has_header
    add_version add_live alive_version collect_versions text_le insert_text sort_texts versions_of
    alive_versions is_pin backend_service check_owned_backend state_item same_start is_stable
    all_satisfied build_id_of images_of attestation_of gate query backend_spec inspect_backend
    backend_now start_backend registration_round wait_registered check_backend_sources
    accept_sources attest_sources accept_provider attest_provider attest_sql attest_stable
    write_attestation set_attested conclude attest_processes keep_images attest pure gets modify
    ◌>>=◌ first_item is_running has_succeeded is_finished container_id is_owned_by stage_config
    is_current accept_change verify_runtime_config verify_rounds mount_fields mount_record
    mount_records mount_le insert_mount sort_mounts process_record process_of is_same_identity
    is_same_process is_first_boot is_fresh keeps_identity without docker event inspect owned
    stop_owned remove_owned forget_helper remove_helper ownership copy_all copy_worker fetch_all
    create_worker start_worker worker is_same_target has_nothing_to_close current_target
    compare_target revalidate fe stop_found keep_stopped check_kept started_of check_started
    is_confirmed selected_service has_labels is_of_service check_container network_name
    environment_of credentials_of rendered image_of containers_named check_first resolve_credentials
    resolve_substrate look_up update pause before_deadline runtime_now time_now check_deadline poll
    stage_runtime_config check_runtime_config read_cluster_id metadata_cluster_id check_cluster
    confirm_ready try_ready accept_running accept_found wait_round wait_ready launch start
    confirm_process backup check_config_files own_digest is_known_backend completed_from
    own_frontend own_config own_cluster own_target
attest_succeeds = refl

attest-IsAttested_example : IsAttested a_host some_settings attested.0
attest-IsAttested_example =
    attest-IsAttested a_host some_settings ready_state (ap (λ r. (attested.0, r)) attest_succeeds)
