-- ===== src/Preflight/Bundle.antt =====
-- `verify_bundle` of compose/plugin_preflight.py, from the bytes of the archive and the decoded
-- receipt.
pub mod Identity
pub mod Contents
use doris_ducklake.Prelude.{
  Bool, Dict, Guard, List, Result, Text, [], contains, drop, ends_with, err, every, false, has_char,
  has_no_items, if◌then◌else◌, keep, key_error, keys, length, lookup, ltb, map, map_values, member,
  none, not, ok, or_key_error, partition, require, some, splitlines, starts_with, strip, text,
  text_eq, value_error, ℕ, ◌&&◌, ◌++◌, ◌==◌, ◌>>=◌, ◌>>◌, ◌∷◌,
}
use doris_ducklake.Json.{
  Value, decode_unique, end, entries_of, field, get, is_obj, is_text, obj, pairs, str,
}
use doris_ducklake.Preflight.Utf8.{utf8, utf8_decode}
use doris_ducklake.Preflight.Records.{build_id, line, records}
use doris_ducklake.Preflight.Manifest.{Section, manifest_sections}
use doris_ducklake.Preflight.Zip.{Archive, Entry, zip_files}

abbrev pub api_version : Text
api_version = text "27.0"

abbrev pub provider_class : Text
provider_class = text "dev.brikk.ducklake.doris.plugin.DuckLakeConnectorProvider"

-- `PROVIDER.replace(".", "/") + ".class"`
abbrev pub provider_file : Text
provider_file = text "dev/brikk/ducklake/doris/plugin/DuckLakeConnectorProvider.class"

abbrev pub package_name : Text
package_name = text "dev/brikk/ducklake/doris/plugin/"

abbrev pub service_file : Text
service_file = text "META-INF/services/org.apache.doris.connector.spi.ConnectorProvider"

abbrev pub manifest_file : Text
manifest_file = text "META-INF/MANIFEST.MF"

-- `re.fullmatch(r"lib/[^/]+\.jar", name)`
unfoldable pub is_lib_jar : Text → Bool
unfolding starts_with ends_with has_char drop
is_lib_jar name =
    let file = drop 4 name in
    starts_with name (text "lib/")
    && ends_with file (text ".jar")
    && not (has_char b'/' file)
    && ltb 4 (length file)

-- `line.partition("#")[0].strip()` of each line, without the empty ones.
unfoldable pub service_classes : Text → List Text
unfolding splitlines partition strip
service_classes service =
    keep (λ c. not (has_no_items c))
      (map (λ line. strip (partition b'#' line).0) (splitlines service))

abbrev pub is_only : List Text → Text → Bool
is_only (x ∷ []) t = text_eq x t
is_only _ t = false

-- `d == v`, for a dictionary of texts and a decoded value.
unfoldable pub texts_eq : Dict Text → Value → Bool
texts_eq d (obj fs) =
    (length d == length (pairs fs))
    && every (λ (k, t). elim (lookup k (pairs fs)) [ none ↦ false | some v ↦ is_text v t ]) d
texts_eq d _ = false

-- `set(section) == {…}`, for a section, whose keys are distinct.
unfoldable pub same_keys : Section → List Text → Bool
same_keys section names = (length section == length names) && every (λ n. contains n section) names

-- The provider that the loop over the libraries has found, the last one.
pub record Provider : Type 0 where
  pub jar : Text
  pub payload : Dict Value
  pub sections : List Section

abbrev pub header_is : Section → Text → Text → Bool
header_is section name value = elim (lookup name section) [
  | none ↦ false
  | some v ↦ text_eq v value
]

abbrev pub sdk_name : Text → Bool
sdk_name name = not (has_char b'/' name) && ends_with name (text ".jar")

-- `isinstance(sdk, dict) and sdk and all("/" not in name and name.endswith(".jar") …)`
unfoldable pub is_sdk : Value → Bool
is_sdk (obj end) = false
is_sdk (obj (field k v fs)) = every sdk_name (keys (pairs (field k v fs)))
is_sdk _ = false

unfoldable pub is_package_section : Section → Bool
is_package_section section =
    same_keys section (text "name" ∷ text "implementation-version" ∷ [])
    && header_is section (text "name") package_name

unfoldable pub has_main_headers : Section → Bool
has_main_headers main = same_keys main (
    text "manifest-version"
    ∷ text "implementation-version"
    ∷ text "doris-connector-plugin-api-version"
    ∷ [])

unfoldable pub has_main_versions : Section → Bool
has_main_versions main =
    header_is main (text "manifest-version") (text "1.0")
    && header_is main (text "doris-connector-plugin-api-version") api_version

-- `for section in sections[1:]`, with the names seen.
unfoldable pub check_packages : Text → List Text → List Section → Guard
check_packages identity seen [] = ok tt
check_packages identity seen (section ∷ sections) = do
  require (is_package_section section) "Unsupported provider package section"
  require (not (member package_name seen)) "Duplicate provider package section"
  require (header_is section (text "implementation-version") identity)
      "Conflicting provider package identity"
  check_packages identity (package_name ∷ seen) sections

-- The main section of the provider's manifest, then the others.
unfoldable pub check_sections : Text → List Section → Guard
check_sections identity [] = err key_error
check_sections identity (main ∷ sections) = do
  require (has_main_headers main) "Unsupported provider manifest attributes"
  require (has_main_versions main) "Provider manifest API mismatch"
  require (header_is main (text "implementation-version") identity)
      "Provider main identity mismatch"
  check_packages identity [] sections

-- `open_zip` reads the bytes of a ZIP file, and raises if they are none.
module _ (sha256 : List ℕ → Text) (open_zip : List ℕ → Result Archive) where
  abbrev pub hash_entries : Dict Entry → Dict Text
  hash_entries entries = map_values (λ e. sha256 e.content) entries

  abbrev pub as_values : Dict Text → Dict Value
  as_values d = map_values str d

  -- `{path: sha256(jar.read(item)) for path, item in jar_entries.items() if path != MANIFEST}`
  unfoldable pub payload_of : Dict Entry → Dict Value
  payload_of entries =
      as_values (hash_entries (keep (λ e. not (text_eq e.0 manifest_file)) entries))

  -- The body of `if SERVICE in jar_entries`.
  unfoldable pub read_provider : Text → Dict Entry → Result Provider
  read_provider name entries = do
    service ← or_key_error (lookup service_file entries)
    declared ← utf8_decode service.content
    require (is_only (service_classes declared) provider_class)
        "Unexpected connector service provider"
    require (contains provider_file entries) "Provider class missing"
    manifest ← or_key_error (lookup manifest_file entries)
    sections ← manifest_sections manifest.content
    ok (record { jar = name; payload = payload_of entries; sections = sections })

  -- The providers among the libraries, the last one first.
  unfoldable pub find_providers : List Provider → Dict Entry → Result (List Provider)
  find_providers found [] = ok found
  find_providers found ((name, entry) ∷ entries) = do
    archive ← open_zip entry.content
    jar_entries ← zip_files archive
    let skipped = find_providers found entries
    let added = (do
      provider ← read_provider name jar_entries
      find_providers (provider ∷ found) entries)
    if contains service_file jar_entries then added else skipped

  -- `len(providers) == 1 and providers[0] == receipt.get("provider_jar")`
  unfoldable pub only_provider : List Provider → Value → Result Provider
  only_provider (provider ∷ []) jar = do
    require (is_text jar provider.jar) "Expected exactly one defining provider JAR"
    ok provider
  only_provider _ jar = err (value_error "Expected exactly one defining provider JAR")

  -- `{name: digest for name, digest in hashes.items() if name != provider}`
  abbrev pub runtime_of : Text → Dict Text → Dict Value
  runtime_of provider hashes = as_values (keep (λ e. not (text_eq e.0 provider)) hashes)

  -- From the checksum of the archive to the one provider that it defines.
  unfoldable pub read_bundle : Value → List ℕ → Result (Dict Text × Provider)
  read_bundle receipt archive_bytes = do
    require (is_obj receipt) "Artifact receipt must be a JSON object"
    receipt_schema ← get (text "schema") receipt
    api ← get (text "api_version") receipt
    require (is_text receipt_schema (text "doris-plugin-artifact-v1") && is_text api api_version)
        "Unsupported artifact schema/API"
    zip_sha256 ← get (text "plugin_zip_sha256") receipt
    require (is_text zip_sha256 (sha256 archive_bytes)) "Plugin ZIP checksum mismatch"
    archive ← open_zip archive_bytes
    entries ← zip_files archive
    require (every is_lib_jar (keys entries)) "Unexpected plugin ZIP layout"
    let hashes = hash_entries entries
    files ← get (text "files") receipt
    require (texts_eq hashes files) "Plugin file set/checksums differ from receipt"
    found ← find_providers [] entries
    jar ← get (text "provider_jar") receipt
    provider ← only_provider found jar
    ok (hashes, provider)

  -- The identity that the payload and the runtime libraries have, against every copy of it.
  unfoldable pub check_identity : Value → Dict Text → Provider → Guard
  check_identity receipt hashes provider = do
    digest ← or_key_error (lookup provider.jar hashes)
    expected ← get (text "provider_jar_sha256") receipt
    require (is_text expected digest) "Provider checksum mismatch"
    identity ← build_id sha256 api_version provider.payload (runtime_of provider.jar hashes)
    claimed ← get (text "build_id") receipt
    require (is_text claimed identity) "Payload identity mismatch"
    check_sections identity provider.sections

  unfoldable pub check_sdk : Value → Guard
  check_sdk receipt = do
    sdk ← get (text "compile_sdk") receipt
    require (is_sdk sdk) "Compile SDK metadata missing/invalid"
    listed ← records (text "S") (entries_of sdk)
    sdk_id ← get (text "compile_sdk_id") receipt
    require (is_text sdk_id (sha256 (utf8 (text "doris-compile-sdk-v1" ++ b'\n' ∷ listed))))
        "Compile SDK metadata identity mismatch"

  -- `raw` is the receipt as it is decoded before `unique_object` sees its objects.
  unfoldable pub verify_bundle : List ℕ → Value → Result Value
  verify_bundle archive_bytes raw = do
    receipt ← decode_unique raw
    (hashes, provider) ← read_bundle receipt archive_bytes
    check_identity receipt hashes provider
    check_sdk receipt
    ok receipt
