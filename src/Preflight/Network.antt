-- ===== src/Preflight/Network.antt =====
-- The F23 network checks of compose/plugin_preflight.py: no development endpoint is published
-- beyond the loopback interface.
pub mod Loopback
use doris_ducklake.Prelude.{
  Bool, Guard, Text, [], contains, err, false, for_each, if◌then◌else◌, leb, lookup, member, none,
  not, ok, partition, require, some, starts_with, text, text_eq, true, value_error, ◌&&◌, ◌>>=◌,
  ◌>>◌, ◌||◌, ◌∷◌,
}
use doris_ducklake.Prelude.Digits.{is_numeral, read}
use doris_ducklake.Json.{
  Value, arr, bool, by_key, end, get, get_default, has_key, in_set, is_obj, is_str, is_text, item,
  items, iterate, nil, null, obj, or_else, pairs, str, to_text,
}

-- `re.fullmatch(r"[0-9]+", str(published)) and 1 <= int(published) <= 65535`
unfoldable pub is_port : Value → Bool
is_port published =
    let digits = to_text published in
    is_numeral digits && leb 1 (read digits) && leb (read digits) 65535

-- The tests stand in the source's order, since a `host` without a hash raises before the last.
unfoldable pub development_binding : Text → Value → Value → Value → Value → Guard
development_binding service target protocol host published = do
  loopback ←
      if text_eq service (text "doris-fe")
        && member (to_text target) (text "8030" ∷ text "9030" ∷ [])
        && is_text protocol (text "tcp")
      then in_set host (text "127.0.0.1" ∷ text "::1" ∷ [])
      else ok false
  require (loopback && is_port published) "Unsafe port publication (F23)"

unfoldable pub is_contained_mode : Value → Bool
is_contained_mode null = true
is_contained_mode (str mode) =
    not (text_eq mode (text "host"))
    && not (starts_with mode (text "container:") || starts_with mode (text "service:"))
is_contained_mode _ = false

unfoldable pub development_network_mode : Value → Guard
development_network_mode mode =
    require (is_contained_mode mode) "Unsafe development network mode (F23)"

-- One round of `for network in service.get("networks") or []`.
unfoldable pub check_network : Value → Value → Guard
check_network config network = do
  networks ← get_default (text "networks") (obj end) config
  definition ← by_key network networks
  driver ← get (text "driver") definition
  name ← get (text "name") definition
  require (not (is_text driver (text "host")) && not (is_text name (text "host")))
      "Unsafe development host network (F23)"

unfoldable pub check_port : Text → Value → Guard
check_port service port = do
  require (is_obj port) "Expected normalized compose port mapping (F23)"
  target ← get (text "target") port
  protocol ← get_default (text "protocol") (str (text "tcp")) port
  host ← get (text "host_ip") port
  published ← get (text "published") port
  development_binding service target protocol host published

-- One round of the loop over the two services.
unfoldable pub check_service : Value → Text → Guard
check_service config name = do
  services ← item (text "services") config
  present ← has_key name services
  if not present then ok tt else do
    service ← item name services
    mode ← get (text "network_mode") service
    development_network_mode mode
    networks ← get (text "networks") service
    listed ← iterate (or_else networks (arr nil))
    for_each (check_network config) listed
    ports ← get (text "ports") service
    published ← iterate (or_else ports (arr nil))
    for_each (check_port name) published

unfoldable pub development_compose_network : Value → Guard
development_compose_network config =
    for_each (check_service config) (text "doris-fe" ∷ text "doris-be" ∷ [])

-- `development_binding` on one inspected binding of the port `target`, "9030/tcp".
unfoldable pub check_binding : Text → Text → Value → Guard
check_binding service target binding = do
  require (is_obj binding) "Malformed inspected port binding (F23)"
  let number_protocol = partition b'/' target
  host ← get (text "HostIp") binding
  port ← get (text "HostPort") binding
  development_binding service (str number_protocol.0) (str number_protocol.2) host port

-- EXPOSE alone, `null`, is not a published host port.
unfoldable pub check_bindings : Text → Text × Value → Guard
check_bindings service (target, null) = ok tt
check_bindings service (target, arr bindings) =
    for_each (check_binding service target) (items bindings)
check_bindings service (target, _) = err (value_error "Malformed inspected port bindings (F23)")

-- One round of the loop over the requested and the effective bindings.
unfoldable pub check_port_map : Text → Value → Guard
check_port_map service null = ok tt
check_port_map service (obj ports) = for_each (check_bindings service) (pairs ports)
check_port_map service _ = err (value_error "Malformed inspected port bindings (F23)")

abbrev pub is_false : Value → Bool
is_false (bool false) = true
is_false _ = false

-- What the first `require` of `development_container_network` tests.
unfoldable pub is_inspected : Value → Value → Bool
is_inspected (obj host) (obj network) =
    (elim (lookup (text "NetworkMode") (pairs host)) [ none ↦ false | some mode ↦ is_str mode ])
    && (elim (lookup (text "PublishAllPorts") (pairs host)) [
      | none ↦ false
      | some all ↦ is_false all
    ])
    && contains (text "PortBindings") (pairs host)
    && contains (text "Ports") (pairs network)
is_inspected _ _ = false

unfoldable pub development_container_network : Value → Text → Guard
development_container_network instance_value service = do
  host ← get (text "HostConfig") instance_value
  network ← get (text "NetworkSettings") instance_value
  require (is_inspected host network)
      "Missing network inspection or automatic port publication (F23)"
  mode ← item (text "NetworkMode") host
  development_network_mode mode
  requested ← item (text "PortBindings") host
  check_port_map service requested
  effective ← item (text "Ports") network
  check_port_map service effective
