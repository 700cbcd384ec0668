-- ===== src/Preflight/Network/Loopback.antt =====
-- The containers that `development_container_network` accepts publish ports on the loopback
-- interface only, and a backend publishes none.
use doris_ducklake.Prelude.{
  >>=-eq-ok, All, Bool, List, Result, Text, [], and_true, ap, arith, false, for_each-All,
  if◌then◌else◌, member, ok, partition, refl, require->>-eq-ok, require-eq-ok, starts_with, text,
  text_eq, text_eq_iff, text_eq_refl, text_eq_sound, true, ◌&&◌, ◌++◌, ◌∙◌, ◌∷◌, ◌≡◌, ◌≢◌, ◌⊎◌,
}
use doris_ducklake.Json.{
  Value, arr, bool, dec, get, in_set, is_obj, is_text, is_text-eq, item, items, null, num, obj,
  pairs, str, str_injective, to_text,
}
use doris_ducklake.Preflight.Network.{
  check_binding, check_bindings, check_port_map, development_binding, development_container_network,
  development_network_mode, is_contained_mode, is_inspected, is_port,
}

-- One binding of the port `target`: the frontend's HTTP or MySQL port over TCP, on a loopback
-- address and a valid host port.
pub record IsLoopback (service target : Text) (binding : Value) : Type 0 where
  pub is_frontend : service ≡ text "doris-fe"
  pub number : ((partition b'/' target).0 ≡ text "8030") ⊎ ((partition b'/' target).0 ≡ text "9030")
  pub protocol : (partition b'/' target).2 ≡ text "tcp"
  pub ip : Text
  pub ip_is : get (text "HostIp") binding ≡ ok (str ip)
  pub ip_loopback : (ip ≡ text "127.0.0.1") ⊎ (ip ≡ text "::1")
  pub port : Value
  pub port_is : get (text "HostPort") binding ≡ ok port
  pub port_valid : is_port port ≡ true

abbrev pub IsContainedPort : Text → Text × Value → Type 0
IsContainedPort service (target, null) = Unit
IsContainedPort service (target, arr bindings) = All (IsLoopback service target) (items bindings)
IsContainedPort service (target, _) = ⊥

abbrev pub IsContained : Text → Value → Type 0
IsContained service null = Unit
IsContained service (obj ports) = All (IsContainedPort service) (pairs ports)
IsContained service _ = ⊥

member_two : (s a b : Text) → member s (a ∷ b ∷ []) ≡ true → (s ≡ a) ⊎ (s ≡ b)
unfolding member
member_two s a b h = ground (arith, text_eq_iff s a, text_eq_iff s b)

in_set-eq-ok :
    (v : Value) (ts : List Text)
    → in_set v ts ≡ ok true
    → (s : Text) × (v ≡ str s) × (member s ts ≡ true)
unfolding in_set
in_set-eq-ok (str s) ts h = (s, refl, ground arith)
in_set-eq-ok null ts h = cc
in_set-eq-ok (bool _) ts h = cc
in_set-eq-ok (num _) ts h = cc
in_set-eq-ok (dec _) ts h = cc
in_set-eq-ok (arr _) ts h = cc
in_set-eq-ok (obj _) ts h = cc

taken :
    (c : Bool) (m : Result Bool)
    → (if c then m else ok false) ≡ ok true
    → (c ≡ true) × (m ≡ ok true)
taken true m h = (refl, h)
taken false m h = cc

-- What an accepted publication is.
development_binding-eq-ok :
    (service : Text) (target protocol host published : Value)
    → development_binding service target protocol host published ≡ ok tt
    → (service ≡ text "doris-fe")
      × ((to_text target ≡ text "8030") ⊎ (to_text target ≡ text "9030"))
      × (protocol ≡ str (text "tcp"))
      × ((ip : Text) × (host ≡ str ip) × ((ip ≡ text "127.0.0.1") ⊎ (ip ≡ text "::1")))
      × (is_port published ≡ true)
unfolding development_binding
development_binding-eq-ok service target protocol host published h =
    let test =
      text_eq service (text "doris-fe")
      && member (to_text target) (text "8030" ∷ text "9030" ∷ [])
      && is_text protocol (text "tcp") in
    let (loopback, checked, h₁) =
      >>=-eq-ok (if test then in_set host (text "127.0.0.1" ∷ text "::1" ∷ []) else ok false) _ h in
    let both = require-eq-ok (loopback && is_port published) _ h₁ in
    let (is_loopback, valid) = and_true loopback (is_port published) both in
    let (tested, in_two) =
      taken test (in_set host (text "127.0.0.1" ∷ text "::1" ∷ [])) (checked ∙ ap ok is_loopback) in
    let (front, tcp) = and_true _ _ tested in
    let (fe, port) = and_true _ _ front in
    let (ip, is_ip, known) = in_set-eq-ok host _ in_two in
    (
      text_eq_sound _ _ fe,
      member_two _ _ _ port,
      is_text-eq protocol _ tcp,
      (ip, is_ip, member_two _ _ _ known),
      valid,
    )

check_binding-IsLoopback :
    (service target : Text) (binding : Value)
    → check_binding service target binding ≡ ok tt
    → IsLoopback service target binding
unfolding check_binding to_text
check_binding-IsLoopback service target binding h =
    let (_, h₁) = require->>-eq-ok (is_obj binding) _ _ h in
    let (host, is_host, h₂) = >>=-eq-ok (get (text "HostIp") binding) _ h₁ in
    let (port, is_port_field, h₃) = >>=-eq-ok (get (text "HostPort") binding) _ h₂ in
    let (fe, number, protocol, (ip, is_ip, loopback), valid) =
      development_binding-eq-ok service _ _ host port h₃ in
    record {
      is_frontend = fe;
      number = number;
      protocol = str_injective protocol;
      ip = ip;
      ip_is = is_host ∙ ap ok is_ip;
      ip_loopback = loopback;
      port = port;
      port_is = is_port_field;
      port_valid = valid;
    }

check_bindings-IsContainedPort :
    (service : Text) (entry : Text × Value)
    → check_bindings service entry ≡ ok tt
    → IsContainedPort service entry
unfolding check_bindings
check_bindings-IsContainedPort service (target, null) h = tt
check_bindings-IsContainedPort service (target, arr bindings) h =
    for_each-All (check_binding-IsLoopback service target) (items bindings) h
check_bindings-IsContainedPort service (target, bool _) h = cc
check_bindings-IsContainedPort service (target, num _) h = cc
check_bindings-IsContainedPort service (target, dec _) h = cc
check_bindings-IsContainedPort service (target, str _) h = cc
check_bindings-IsContainedPort service (target, obj _) h = cc

check_port_map-IsContained :
    (service : Text) (ports : Value)
    → check_port_map service ports ≡ ok tt
    → IsContained service ports
unfolding check_port_map
check_port_map-IsContained service null h = tt
check_port_map-IsContained service (obj ports) h =
    for_each-All (check_bindings-IsContainedPort service) (pairs ports) h
check_port_map-IsContained service (bool _) h = cc
check_port_map-IsContained service (num _) h = cc
check_port_map-IsContained service (dec _) h = cc
check_port_map-IsContained service (str _) h = cc
check_port_map-IsContained service (arr _) h = cc

-- No mode, or one that is neither the host's network nor that of another container or service.
abbrev pub IsOwnNetwork : Value → Type 0
IsOwnNetwork null = Unit
IsOwnNetwork (str mode) =
    (mode ≢ text "host")
    × ((name : Text) → mode ≢ text "container:" ++ name)
    × ((name : Text) → mode ≢ text "service:" ++ name)
IsOwnNetwork _ = ⊥

starts_with-append : (p rest : Text) → starts_with (p ++ rest) p ≡ true
unfolding starts_with
starts_with-append [] [] = refl
starts_with-append [] (c ∷ cs) = refl
starts_with-append (c ∷ p) rest = ground (arith, starts_with-append p rest)

own_mode :
    (mode : Text)
    → is_contained_mode (str mode) ≡ true
    → (text_eq mode (text "host") ≡ false)
      × (starts_with mode (text "container:") ≡ false)
      × (starts_with mode (text "service:") ≡ false)
unfolding is_contained_mode
own_mode mode h = (ground arith, ground arith, ground arith)

no_prefix : (mode p : Text) → starts_with mode p ≡ false → (name : Text) → mode ≢ p ++ name
no_prefix mode p h name same = cc (ap (λ m. starts_with m p) same, starts_with-append p name, h)

is_contained_mode-IsOwnNetwork : (mode : Value) → is_contained_mode mode ≡ true → IsOwnNetwork mode
unfolding is_contained_mode
is_contained_mode-IsOwnNetwork null h = tt
is_contained_mode-IsOwnNetwork (str mode) h =
    let (not_host, not_container, not_service) = own_mode mode h in
    (
      (λ same. cc (ap (λ m. text_eq m (text "host")) same, text_eq_refl (text "host"), not_host)),
      no_prefix mode (text "container:") not_container,
      no_prefix mode (text "service:") not_service,
    )
is_contained_mode-IsOwnNetwork (bool _) h = cc
is_contained_mode-IsOwnNetwork (num _) h = cc
is_contained_mode-IsOwnNetwork (dec _) h = cc
is_contained_mode-IsOwnNetwork (arr _) h = cc
is_contained_mode-IsOwnNetwork (obj _) h = cc

-- Whatever the container requested and whatever is in effect, each published port is the
-- frontend's HTTP or MySQL port, over TCP, on a loopback address and a valid host port; and its
-- network mode is neither the host's nor another container's.
abbrev pub PublishesOnLoopback : Value → Text → Type 0
PublishesOnLoopback container service =
    (host network mode requested effective : Value) × (get (text "HostConfig") container ≡ ok host)
    × (get (text "NetworkSettings") container ≡ ok network)
    × (item (text "NetworkMode") host ≡ ok mode)
    × IsOwnNetwork mode
    × (item (text "PortBindings") host ≡ ok requested)
    × IsContained service requested
    × (item (text "Ports") network ≡ ok effective)
    × IsContained service effective

-- A container that `development_container_network` accepts for a service publishes, both in its
-- requested and in its effective bindings, no port but the frontend's 8030 and 9030 over TCP on
-- a loopback address, and its network mode is neither the host's nor another container's.
pub development_container_network-IsContained :
    (container : Value) (service : Text)
    → development_container_network container service ≡ ok tt
    → PublishesOnLoopback container service
unfolding development_container_network development_network_mode
development_container_network-IsContained container service h =
    let (host, is_host, h₁) = >>=-eq-ok (get (text "HostConfig") container) _ h in
    let (network, is_network, h₂) = >>=-eq-ok (get (text "NetworkSettings") container) _ h₁ in
    let (_, h₃) = require->>-eq-ok (is_inspected host network) _ _ h₂ in
    let (mode, is_mode, h₄) = >>=-eq-ok (item (text "NetworkMode") host) _ h₃ in
    let (contained, h₅) = require->>-eq-ok (is_contained_mode mode) _ _ h₄ in
    let (requested, is_requested, h₆) = >>=-eq-ok (item (text "PortBindings") host) _ h₅ in
    let (_, checked, h₇) = >>=-eq-ok (check_port_map service requested) _ h₆ in
    let (effective, is_effective, checked') = >>=-eq-ok (item (text "Ports") network) _ h₇ in
    (
      host,
      network,
      mode,
      requested,
      effective,
      is_host,
      is_network,
      is_mode,
      is_contained_mode-IsOwnNetwork mode contained,
      is_requested,
      check_port_map-IsContained service requested checked,
      is_effective,
      check_port_map-IsContained service effective checked',
    )
