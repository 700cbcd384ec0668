-- ===== src/Deploy/Readings.antt =====
-- A runtime configuration that changes once, and four services that share one network.
use doris_ducklake.Prelude.{
  List, String, Text, [], err, false, keys, lookup, member, ok, refl, some, text, text_eq, true,
  value_error, ℕ, ◌++◌, ◌∷◌, ◌≡◌,
}
use doris_ducklake.Json.{Value, get, item, iterate, null, str, truthy}
use doris_ducklake.Preflight.Target.{is_letter_or_digit, is_name_char, is_safe_name, item_at}
use doris_ducklake.Deploy.Config.{
  Config, accept_change, elected_network, is_current, verify_rounds, verify_runtime_config,
}
use doris_ducklake.Deploy.Networks.{
  common_names, intersection, names_of_keys, network_name, network_names, shared_network,
}
use doris_ducklake.Deploy.Networks.Shared.{IsShared, shared_network-IsShared}
use doris_ducklake.Deploy.Sample.{fields, named, same_bytes}

-- What was copied from the repository, with the elected network.
abbrev staged_bytes : List ℕ
staged_bytes = text "a = b" ++ elected_network

abbrev changed_bytes : List ℕ
changed_bytes = staged_bytes ++ text "priority_networks = 172.30.80.0/24" ++ 10 ∷ []

abbrev staged_config : Config
staged_config = record {
  sha256 = some staged_bytes;
  initialized = false;
  before_start = staged_bytes;
}

abbrev changed_config : Config
changed_config = record {
  sha256 = some changed_bytes;
  initialized = true;
  before_start = staged_bytes;
}

abbrev three_rounds : List (List ℕ)
three_rounds = staged_bytes ∷ changed_bytes ∷ changed_bytes ∷ []

-- A second duplicate is refused.
rounds_refused :
    verify_rounds same_bytes true changed_config ((changed_bytes ++ elected_network) ∷ [])
    ≡ err (value_error "FE runtime configuration changed during restart")
unfolding verify_rounds verify_runtime_config is_current accept_change text_eq text
rounds_refused = refl

abbrev on_networks : List (Text × Value) → Value
on_networks keys = fields (named "networks" (fields keys) ∷ [])

abbrev a_network : String → Text × Value
a_network name = (text name, fields (named "name" (str (text name)) ∷ []))

abbrev two_networks : Value
two_networks = on_networks (a_network "shared" ∷ a_network "own" ∷ [])

abbrev on_both : Value
on_both = on_networks (named "shared" null ∷ named "own" null ∷ [])

abbrev on_shared : Value
on_shared = on_networks (named "shared" null ∷ [])

network_found :
    shared_network two_networks on_both on_shared two_networks on_shared on_both
    ≡ ok (text "shared")
unfolding shared_network network_names names_of_keys network_name common_names intersection member
    item item_at get iterate truthy lookup is_safe_name is_letter_or_digit is_name_char text_eq text
network_found = refl

both_named : network_names two_networks on_both ≡ ok (text "shared" ∷ text "own" ∷ [])
unfolding network_names names_of_keys network_name item item_at get iterate truthy lookup text_eq
    text
both_named = refl

one_named : network_names two_networks on_shared ≡ ok (text "shared" ∷ [])
unfolding network_names names_of_keys network_name item item_at get iterate truthy lookup text_eq
    text
one_named = refl

shared_network-IsShared_example :
    IsShared
      (text "shared")
      (text "shared" ∷ text "own" ∷ [])
      (text "shared" ∷ [])
      (text "shared" ∷ [])
      (text "shared" ∷ text "own" ∷ [])
    × (is_safe_name (text "shared") ≡ true)
shared_network-IsShared_example =
    shared_network-IsShared two_networks on_both on_shared two_networks on_shared on_both
      (text "shared") network_found (text "shared" ∷ text "own" ∷ []) (text "shared" ∷ [])
      (text "shared" ∷ []) (text "shared" ∷ text "own" ∷ []) both_named one_named one_named
      both_named
