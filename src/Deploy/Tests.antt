-- ===== src/Deploy/Tests.antt =====
-- A daemon with two helpers and a claim, and the theorems at such runs.
use doris_ducklake.Smoke.Exact.{py_eq}
use doris_ducklake.Preflight.Network.{
  check_port_map, check_service, development_compose_network, development_container_network,
  development_network_mode, is_contained_mode, is_inspected,
}
use doris_ducklake.Preflight.Target.Sample.{a_target, answers, constant_digest, decodes}
use doris_ducklake.Deploy.Boundary.{has_identity, is_quiet}
use doris_ducklake.Deploy.Writing.{IsStopped, assert_stopped, assert_stopped-IsStopped}
use doris_ducklake.Preflight.Target.{
  Target, check_backend_service, check_each_frontend, check_frontend, check_volume, check_volumes,
  consumers_of, container_ids, described, docker_json, frontend_spec, is_letter_or_digit,
  is_name_char, is_own_service, is_safe_name, item_at, label_is, labels_of, mounts_volume,
  safe_name, target_from_compose, volume_mount, volume_names, with_field,
}
use doris_ducklake.Deploy.Frontend.{
  compare_target, current_target, doubt_frontend, fail_closed, fe, has_nothing_to_close,
  is_same_target, keep_stopped, revalidate,
}
use doris_ducklake.Deploy.Stopping.{IsDown, fail_closed-IsDown}
use doris_ducklake.Deploy.Exec.{gets, modify, pure, ◌>>=◌}
use doris_ducklake.Prelude.{
  Guard, List, Result, Text, [], contains, err, false, is_line_end, is_space, lookup, lstrip,
  member, ok, refl, runtime_error, some, splitlines, starts_with, strip, text, text_eq, true, ◌∷◌,
  ◌≡◌, ◌⊎◌,
}
use doris_ducklake.Deploy.State.{nothing_done}
use doris_ducklake.Json.{
  Value, arr, bool, cons, end, field, get, get_default, has_key, item, iterate, nil, obj, str,
  to_text, truthy,
}
use doris_ducklake.Deploy.Inspect.{container_id, first_item, is_owned_by, is_running, owner_label}
use doris_ducklake.Deploy.Claim.{
  Call, Command, Deployment, cleanup_all, cleanup_helpers, docker, event, forget_helper,
  give_up_claim, inspect, inspect_command, is_unsafe, owned, release, remove_command, remove_helper,
  remove_owned, try_helper, without,
}
use doris_ducklake.Deploy.Release.{IsSettled, release-IsSettled}
use doris_ducklake.Deploy.Removal.{Careful, remove_owned-Careful}

abbrev a_token : Text
a_token = text "t0"

-- Every container is the deployment's own, has the identity `c1` and does not run.
abbrev a_container : Value
a_container = arr (
    cons
      (obj (
        field (text "Id") (str (text "c1")) (
          field (text "Config")
            (obj (field (text "Labels") (obj (field owner_label (str a_token) end)) end))
            (field (text "State") (obj (field (text "Running") (bool false) end)) end))))
      nil)

abbrev a_daemon : List Call → Command → Result Text
a_daemon earlier command = ok []

abbrev reads_container : Text → Result Value
reads_container output = ok a_container

abbrev saves : List (Text × Text) → Guard
saves events = ok tt

abbrev with_helpers : Deployment
with_helpers = record {
  calls = [];
  claim = some (text "c0");
  image = text "image";
  helpers = text "c1" ∷ text "c2" ∷ [];
  events = [];
  unsafe_helper_state = false;
  unsafe_fe_state = false;
  install_boundary = true;
  deployment_attested = false;
  lifecycle = nothing_done;
}

release-IsSettled_example :
    IsSettled a_daemon reads_container saves a_token
      (cleanup_helpers a_daemon reads_container saves a_token with_helpers).0
      (release a_daemon reads_container saves a_token (text "c0") with_helpers).0
release-IsSettled_example =
    release-IsSettled a_daemon reads_container saves a_token (text "c0") with_helpers

remove_owned-Careful_example :
    Careful a_daemon reads_container saves a_token []
      (remove_owned a_daemon reads_container saves a_token (text "c1") with_helpers).0.calls
remove_owned-Careful_example =
    remove_owned-Careful a_daemon reads_container saves a_token (text "c1") with_helpers

-- The inspection and the removal, the newest first.
removal_calls :
    (remove_owned a_daemon reads_container saves a_token (text "c1") with_helpers).0.calls
    ≡ (remove_command (text "c1"), ok []) ∷ (inspect_command (text "c1"), ok []) ∷ []
unfolding remove_owned owned inspect docker ◌>>=◌ pure first_item is_owned_by item lookup text_eq
    text get truthy is_running container_id to_text
removal_calls = refl

released_helpers :
    (release a_daemon reads_container saves a_token (text "c0") with_helpers).0.helpers ≡ []
unfolding release cleanup_helpers cleanup_all try_helper remove_helper forget_helper without gets
    modify is_unsafe give_up_claim event remove_owned owned inspect docker ◌>>=◌ pure first_item
    is_owned_by item lookup text_eq text get truthy is_running container_id to_text
released_helpers = refl

-- A daemon that does not answer: the frontend's state is in doubt.
abbrev silent_daemon : List Call → Command → Result Text
silent_daemon earlier command = err (runtime_error "docker failed")

abbrev any_target : Target
any_target = record {
  spec = record { project = []; container = text "fe"; key = []; volume = []; image = str [] };
  compose_sha256 = [];
  fe_present = true;
  volume_present = true;
}

abbrev after_failure : Deployment × Guard
after_failure =
    fail_closed silent_daemon reads_container saves a_token constant_digest (text "c.yml")
      any_target with_helpers

failure_recorded : after_failure.1 ≡ ok tt
unfolding fail_closed has_nothing_to_close keep_stopped fe revalidate current_target
    target_from_compose docker_json ◌>>=◌ gets pure doubt_frontend modify event
failure_recorded = refl

fail_closed-IsDown_example :
    (after_failure.0.unsafe_fe_state ≡ true)
    ⊎ IsDown silent_daemon reads_container saves a_token constant_digest
        (text "c.yml")
        any_target
        after_failure.0.calls
fail_closed-IsDown_example =
    fail_closed-IsDown silent_daemon reads_container saves a_token constant_digest (text "c.yml")
      any_target with_helpers refl refl failure_recorded

abbrev docker_answers : List Call → Command → Result Text
docker_answers earlier command = answers command

abbrev boundary_state : Deployment
boundary_state = record with_helpers {
  calls = (inspect_command (text "fe"), ok (text "container")) ∷ [];
}

boundary_reached :
    assert_stopped docker_answers decodes saves a_token constant_digest
      (text "c.yml")
      a_target
      (some (text "id1"))
      with_helpers
    ≡ (boundary_state, ok tt)
unfolding assert_stopped ◌>>=◌ pure gets fe revalidate compare_target is_same_target current_target
    inspect docker first_item is_quiet has_identity strip lstrip is_space py_eq target_from_compose
    docker_json text text_eq development_compose_network check_service item has_key contains lookup
    get get_default iterate truthy development_network_mode is_contained_mode frontend_spec
    with_field volume_mount item_at safe_name is_safe_name is_letter_or_digit is_name_char
    container_ids splitlines is_line_end check_each_frontend described check_frontend is_own_service
    labels_of label_is mounts_volume development_container_network is_inspected check_port_map
    check_backend_service volume_names check_volumes consumers_of check_volume member starts_with
boundary_reached = refl

assert_stopped-IsStopped_example :
    IsStopped docker_answers decodes saves a_token constant_digest
      (text "c.yml")
      a_target
      (some (text "id1"))
      boundary_state.calls
assert_stopped-IsStopped_example =
    assert_stopped-IsStopped docker_answers decodes saves a_token constant_digest (text "c.yml")
      a_target (some (text "id1")) with_helpers boundary_state boundary_reached
