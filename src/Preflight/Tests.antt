-- ===== src/Preflight/Tests.antt =====
-- Runs of the preflight checks on concrete inputs, and the theorems at such inputs.
use doris_ducklake.Preflight.Bundle.Contents.{verify_bundle_determines}
use doris_ducklake.Preflight.Manifest.{manifest_sections}
use doris_ducklake.Preflight.Network.Loopback.{
  PublishesOnLoopback, development_container_network-IsContained,
}
use doris_ducklake.Preflight.Zip.{Archive, Entry, add_entry, zip_files, zip_files_from}
use doris_ducklake.Prelude.Digits.{is_numeral, read}
use doris_ducklake.Prelude.{
  Dict, List, Result, Text, [], contains, err, false, insert, join, lookup, ok, ok_injective,
  partition, refl, split, starts_with, sym, text, text_eq, value_error, ℕ, ◌++◌, ◌∙◌, ◌∷◌, ◌≡◌,
}
use doris_ducklake.Json.{
  Value, arr, bool, cons, decode_unique, end, field, get, in_set, item, nil, null, obj, str,
  to_fields, to_text, unique_object,
}
use doris_ducklake.Preflight.Path.{canonical_path, is_canonical}
use doris_ducklake.Preflight.Path.Below.{canonical_path-stays_below, descend, walk}
use doris_ducklake.Preflight.Utf8.{utf8, utf8_decode}
use doris_ducklake.Preflight.Records.{build_id, canonical, header, is_sha256, line}
use doris_ducklake.Preflight.Records.Injective.{build_id_determines}
use doris_ducklake.Preflight.Network.{
  check_binding, check_bindings, check_port_map, development_binding, development_container_network,
  development_network_mode, is_contained_mode, is_inspected, is_port,
}
use doris_ducklake.Preflight.Bundle.{
  Provider, api_version, check_identity, check_packages, check_sdk, check_sections, find_providers,
  has_main_headers, has_main_versions, is_lib_jar, is_sdk, manifest_file, only_provider, payload_of,
  provider_class, provider_file, read_bundle, read_provider, runtime_of, same_keys, service_classes,
  service_file, texts_eq, verify_bundle,
}

abbrev sample_path : Text
sample_path = text "lib/a.jar"

sample_path_ok : canonical_path sample_path ≡ ok tt
unfolding canonical_path text
sample_path_ok = refl

escaping_paths :
    (is_canonical (text "lib/../../etc/passwd") ≡ false)
    × (is_canonical (text "/etc/passwd") ≡ false)
    × (is_canonical (text "lib//a.jar") ≡ false)
    × (is_canonical (text "lib\\a.jar") ≡ false)
unfolding is_canonical text
escaping_paths = (refl, refl, refl, refl)

canonical_path-stays_below_example :
    (walk (text "root" ∷ []) (split b'/' sample_path)
      ≡ descend (text "root" ∷ []) (split b'/' sample_path))
    × (join b'/' (split b'/' sample_path) ≡ sample_path)
canonical_path-stays_below_example =
    canonical_path-stays_below (text "root" ∷ []) sample_path sample_path_ok

abbrev hex_a : Text
hex_a = text "aaaaaaaaaaaaaaaaaaaaaaaaaaaaaaaaaaaaaaaaaaaaaaaaaaaaaaaaaaaaaaaa"

abbrev hex_b : Text
hex_b = text "0123456789abcdef0123456789abcdef0123456789abcdef0123456789abcdef"

-- The same payload in two orders.
abbrev classes : Dict Value
classes = (text "A.class", str hex_a) ∷ (text "B.class", str hex_b) ∷ []

abbrev classes_turned : Dict Value
classes_turned = (text "B.class", str hex_b) ∷ (text "A.class", str hex_a) ∷ []

abbrev libraries : Dict Value
libraries = (text "lib/c.jar", str hex_b) ∷ []

abbrev two_classes : Text
two_classes =
    header api_version
    ++ (line (text "P") (text "A.class") (str hex_a)
        ++ (line (text "P") (text "B.class") (str hex_b)
            ++ line (text "D") (text "lib/c.jar") (str hex_b)))

classes_text : canonical api_version classes libraries ≡ ok two_classes
unfolding canonical text canonical_path utf8 lookup to_text
classes_text = refl

classes_turned_text : canonical api_version classes_turned libraries ≡ ok two_classes
unfolding canonical text canonical_path utf8 lookup to_text
classes_turned_text = refl

abbrev no_hash : List ℕ → Text
no_hash bytes = bytes

build_id_of_classes :
    build_id no_hash api_version classes libraries
    ≡ ok (text "doris-ducklake-v1-" ++ no_hash (utf8 two_classes))
unfolding build_id
build_id_of_classes = rw classes_text

build_id_of_classes_turned :
    build_id no_hash api_version classes_turned libraries
    ≡ ok (text "doris-ducklake-v1-" ++ no_hash (utf8 two_classes))
unfolding build_id
build_id_of_classes_turned = rw classes_turned_text

build_id_determines_example :
    (lookup (text "B.class") classes ≡ lookup (text "B.class") classes_turned)
    × (lookup (text "B.class") libraries ≡ lookup (text "B.class") libraries)
unfolding lookup text text_eq
build_id_determines_example =
    build_id_determines no_hash api_version classes libraries classes_turned libraries
      (refl, (refl, tt)) (refl, tt) (refl, (refl, tt)) (refl, tt) classes_text classes_turned_text
      (λ _. refl) build_id_of_classes build_id_of_classes_turned (text "B.class")

-- What `docker inspect` shows of a frontend whose MySQL port is published on the loopback address.
abbrev loopback_ports : Value
loopback_ports = obj (
    field (text "9030/tcp")
      (arr (
        cons
          (obj (
            field (text "HostIp") (str (text "127.0.0.1"))
              (field (text "HostPort") (str (text "19030")) end)))
          nil))
      (field (text "8060/tcp") null end))

abbrev frontend : Value
frontend = obj (
    field (text "HostConfig")
      (obj (
        field (text "NetworkMode") (str (text "doris-net")) (
          field (text "PublishAllPorts") (bool false)
            (field (text "PortBindings") loopback_ports end))))
      (field (text "NetworkSettings") (obj (field (text "Ports") loopback_ports end)) end))

frontend_ok : development_container_network frontend (text "doris-fe") ≡ ok tt
unfolding development_container_network check_port_map check_bindings check_binding
    development_binding is_inspected development_network_mode is_contained_mode is_port in_set get
    item to_text is_numeral read partition contains starts_with text text_eq
frontend_ok = refl

-- A backend may not publish the same port.
backend_refused :
    development_container_network frontend (text "doris-be")
    ≡ err (value_error "Unsafe port publication (F23)")
unfolding development_container_network check_port_map check_bindings check_binding
    development_binding is_inspected development_network_mode is_contained_mode is_port in_set get
    item to_text is_numeral read partition contains starts_with text text_eq
backend_refused = refl

development_container_network-IsContained_example : PublishesOnLoopback frontend (text "doris-fe")
development_container_network-IsContained_example =
    development_container_network-IsContained frontend (text "doris-fe") frontend_ok

-- A bundle of one library, its provider. The digest is constant and the two archives are told
-- apart by their first byte.
abbrev constant_hash : List ℕ → Text
constant_hash _ = hex_a

abbrev sample_identity : Text
sample_identity = text "doris-ducklake-v1-" ++ hex_a

abbrev file : Text → List ℕ → Entry
file name content = record { filename = name; is_dir = false; mode = 33188; content = content }

abbrev sample_manifest : List ℕ
sample_manifest =
    text "Manifest-Version: 1.0"
    ++ 13
      ∷ 10
      ∷ (text "Implementation-Version: doris-ducklake-v1-"
          ++ 10
            ∷ b' '
            ∷ (hex_a ++ 10 ∷ (text "Doris-Connector-Plugin-Api-Version: 27.0" ++ 10 ∷ 10 ∷ [])))

abbrev sample_jar : Archive
sample_jar =
    file service_file (provider_class ++ text " # the provider")
    ∷ file provider_file []
    ∷ file manifest_file sample_manifest
    ∷ []

abbrev sample_name : Text
sample_name = text "lib/doris-ducklake-0.0.1.jar"

abbrev open_sample : List ℕ → Result Archive
open_sample [] = ok sample_jar
open_sample (_ ∷ _) = ok (file sample_name [] ∷ [])

abbrev sample_receipt : Value
sample_receipt = obj (
    to_fields (
      (text "schema", str (text "doris-plugin-artifact-v1"))
      ∷ (text "api_version", str api_version)
      ∷ (text "plugin_zip_sha256", str hex_a)
      ∷ (text "files", obj (field sample_name (str hex_a) end))
      ∷ (text "provider_jar", str sample_name)
      ∷ (text "provider_jar_sha256", str hex_a)
      ∷ (text "build_id", str sample_identity)
      ∷ (text "compile_sdk", obj (field (text "spi.jar") (str hex_b) end))
      ∷ (text "compile_sdk_id", str hex_a)
      ∷ []))

manifest_runs :
    manifest_sections sample_manifest
    ≡ ok (
        ((text "manifest-version", text "1.0")
          ∷ (text "implementation-version", sample_identity)
          ∷ (text "doris-connector-plugin-api-version", text "27.0")
          ∷ [])
        ∷ [])
unfolding manifest_sections text utf8_decode text_eq
manifest_runs = refl

abbrev sample_provider : Provider
sample_provider = record {
  jar = sample_name;
  payload = (service_file, str hex_a) ∷ (provider_file, str hex_a) ∷ [];
  sections =
      ((text "manifest-version", text "1.0")
        ∷ (text "implementation-version", sample_identity)
        ∷ (text "doris-connector-plugin-api-version", text "27.0")
        ∷ [])
      ∷ [];
}

sample_read :
    read_bundle constant_hash open_sample sample_receipt (1 ∷ [])
    ≡ ok ((sample_name, hex_a) ∷ [], sample_provider)
unfolding read_bundle find_providers read_provider payload_of only_provider zip_files zip_files_from
    add_entry canonical_path texts_eq is_lib_jar service_classes manifest_sections utf8_decode get
    lookup insert contains text text_eq
sample_read = refl

sample_verified :
    verify_bundle constant_hash open_sample (1 ∷ []) sample_receipt ≡ ok sample_receipt
unfolding verify_bundle read_bundle find_providers read_provider payload_of only_provider zip_files
    zip_files_from add_entry canonical_path texts_eq is_lib_jar service_classes manifest_sections
    utf8_decode get lookup insert contains text text_eq decode_unique unique_object check_identity
    check_sdk check_sections check_packages has_main_headers has_main_versions same_keys is_sdk
    build_id canonical utf8 to_text is_sha256
sample_verified = refl

verify_bundle_determines_example :
    (lookup provider_file sample_provider.payload ≡ lookup provider_file sample_provider.payload)
    × (lookup sample_name
          (runtime_of constant_hash open_sample sample_name ((sample_name, hex_a) ∷ []))
        ≡ lookup sample_name
            (runtime_of constant_hash open_sample sample_name ((sample_name, hex_a) ∷ [])))
unfolding text lookup text_eq
verify_bundle_determines_example =
    verify_bundle_determines constant_hash open_sample (1 ∷ []) (1 ∷ []) sample_receipt
      sample_receipt sample_verified sample_verified sample_read sample_read refl
      (λ c c' e e' _. ok_injective (sym e ∙ e')) provider_file
