-- ===== src/Preflight/Bundle/Identity.antt =====
-- What an accepted bundle says of its identity, and that the identity determines its contents.
use doris_ducklake.Json.{Value, decode_unique, get, is_text, is_text-eq, str}
use doris_ducklake.Preflight.Records.{build_id}
use doris_ducklake.Preflight.Bundle.{
  Provider, api_version, check_identity, check_packages, check_sdk, check_sections,
  has_main_headers, has_main_versions, header_is, is_package_section, package_name, read_bundle,
  runtime_of, verify_bundle,
}
use doris_ducklake.Prelude.{
  >>=-eq-ok, All, Dict, List, Option-cases, Result, Text, Unique, [], ap, arith, contains, if-eq,
  inl, inr, insert, insert-Unique, lookup, member, not, ok, ok_injective, or_key_error,
  require->>-eq-ok, some, subst, text, text_eq_iff, true, ℕ, ◌∙◌, ◌∷◌, ◌≡◌,
}
use doris_ducklake.Preflight.Manifest.{Section}
use doris_ducklake.Preflight.Path.{canonical_path}
use doris_ducklake.Preflight.Zip.{Archive, Entry, add_entry, zip_files, zip_files_from}

-- The manifest's sections all carry the identity, and there is a main one.
abbrev pub CarriesIdentity : Text → List Section → Type 0
CarriesIdentity identity [] = ⊥
CarriesIdentity identity (main ∷ sections) =
    All (λ s. lookup (text "implementation-version") s ≡ some identity) (main ∷ sections)

add_entry-Unique :
    (d : Dict Entry) (e : Entry) {d' : Dict Entry} → Unique d → add_entry d e ≡ ok d' → Unique d'
unfolding add_entry
add_entry-Unique d e u h =
    let (_, _, h₁) = >>=-eq-ok (canonical_path e.filename) _ h in
    let (_, h₂) = require->>-eq-ok _ _ _ h₁ in
    let (_, h₃) =
      require->>-eq-ok (not (contains e.filename d)) _ (ok (insert e.filename e d)) h₂ in
    subst Unique (ok_injective h₃) (insert-Unique e.filename e d u)

zip_files_from-Unique :
    (d : Dict Entry) (es : Archive) {d' : Dict Entry}
    → Unique d
    → zip_files_from d es ≡ ok d'
    → Unique d'
unfolding zip_files_from
zip_files_from-Unique d [] u h = subst Unique (ok_injective h) u
zip_files_from-Unique d (e ∷ es) u h = elim (if-eq e.is_dir _ _ h) [
  | inl (directory, h₁) ↦ zip_files_from-Unique d es u h₁
  | inr (file, h₁) ↦
      let (d₁, added, h₂) = >>=-eq-ok (add_entry d e) (λ r. zip_files_from r es) h₁ in
      zip_files_from-Unique d₁ es (add_entry-Unique d e u added) h₂
]

-- No file of an accepted archive stands in it twice.
pub zip_files-Unique : (es : Archive) {d : Dict Entry} → zip_files es ≡ ok d → Unique d
unfolding zip_files
zip_files-Unique es h = zip_files_from-Unique [] es tt h

header_is-lookup :
    (s : Section) (name value : Text) → header_is s name value ≡ true → lookup name s ≡ some value
header_is-lookup s name value h = elim (Option-cases (lookup name s)) [
  | inl missing ↦ ground arith
  | inr (v, found) ↦ ground (arith, text_eq_iff v value)
]

check_packages-carry :
    (identity : Text) (seen : List Text) (sections : List Section)
    → check_packages identity seen sections ≡ ok tt
    → All (λ s. lookup (text "implementation-version") s ≡ some identity) sections
unfolding check_packages
check_packages-carry identity seen [] h = tt
check_packages-carry identity seen (s ∷ sections) h =
    let (_, h₁) = require->>-eq-ok (is_package_section s) _ _ h in
    let (_, h₂) = require->>-eq-ok (not (member package_name seen)) _ _ h₁ in
    let (carries, h₃) =
      require->>-eq-ok (header_is s (text "implementation-version") identity) _ _ h₂ in
    (
      header_is-lookup s _ identity carries,
      check_packages-carry identity (package_name ∷ seen) sections h₃,
    )

check_sections-CarriesIdentity :
    (identity : Text) (sections : List Section)
    → check_sections identity sections ≡ ok tt
    → CarriesIdentity identity sections
unfolding check_sections
check_sections-CarriesIdentity identity [] h = cc
check_sections-CarriesIdentity identity (main ∷ sections) h =
    let (_, h₁) = require->>-eq-ok (has_main_headers main) _ _ h in
    let (_, h₂) = require->>-eq-ok (has_main_versions main) _ _ h₁ in
    let (carries, h₃) =
      require->>-eq-ok (header_is main (text "implementation-version") identity) _ _ h₂ in
    (header_is-lookup main _ identity carries, check_packages-carry identity [] sections h₃)

module _ (sha256 : List ℕ → Text) (open_zip : List ℕ → Result Archive) where
  -- The identity that a bundle claims is the one that its payload and its runtime libraries have,
  -- and the provider's manifest carries it.
  pub record HasIdentity (receipt : Value) (hashes : Dict Text) (provider : Provider) : Type 0 where
    pub identity : Text
    pub computed :
        build_id sha256 api_version provider.payload
          (runtime_of sha256 open_zip provider.jar hashes)
        ≡ ok identity
    pub claimed : get (text "build_id") receipt ≡ ok (str identity)
    pub carried : CarriesIdentity identity provider.sections

  check_identity-HasIdentity :
      (receipt : Value) (hashes : Dict Text) (provider : Provider)
      → check_identity sha256 open_zip receipt hashes provider ≡ ok tt
      → HasIdentity receipt hashes provider
  unfolding check_identity
  check_identity-HasIdentity receipt hashes provider h =
      let (digest, _, h₁) = >>=-eq-ok (or_key_error (lookup provider.jar hashes)) _ h in
      let (expected, _, h₂) = >>=-eq-ok (get (text "provider_jar_sha256") receipt) _ h₁ in
      let (_, h₃) = require->>-eq-ok (is_text expected digest) _ _ h₂ in
      let (identity, computed, h₄) = >>=-eq-ok (build_id sha256 _ _ _) _ h₃ in
      let (claimed, is_claimed, h₅) = >>=-eq-ok (get (text "build_id") receipt) _ h₄ in
      let (same, h₆) = require->>-eq-ok (is_text claimed identity) _ _ h₅ in
      record {
        identity = identity;
        computed = computed;
        claimed = is_claimed ∙ ap ok (is_text-eq claimed identity same);
        carried = check_sections-CarriesIdentity identity provider.sections h₆;
      }

  -- An accepted bundle has one provider, found among libraries of distinct names, and the
  -- identity of its receipt is the one computed from the provider's payload and from the other
  -- libraries, and is carried by every section of the provider's manifest.
  pub verify_bundle-HasIdentity :
      (archive_bytes : List ℕ) (raw : Value) {receipt : Value}
      → verify_bundle sha256 open_zip archive_bytes raw ≡ ok receipt
      → (hashes : Dict Text) × (provider : Provider) × (read_bundle sha256 open_zip receipt
            archive_bytes
          ≡ ok (hashes, provider))
        × HasIdentity receipt hashes provider
  unfolding verify_bundle
  verify_bundle-HasIdentity archive_bytes raw {receipt = receipt} h =
      let (decoded, _, h₁) = >>=-eq-ok (decode_unique raw) _ h in
      let ((hashes, provider), read_all, h₂) =
        >>=-eq-ok (read_bundle sha256 open_zip decoded archive_bytes) _ h₁ in
      let (_, checked, h₃) =
        >>=-eq-ok (check_identity sha256 open_zip decoded hashes provider) _ h₂ in
      let (_, _, h₄) = >>=-eq-ok (check_sdk sha256 open_zip decoded) (λ _. ok decoded) h₃ in
      let same : decoded ≡ receipt = ok_injective h₄ in
      (
        hashes,
        provider,
        subst (λ r. read_bundle sha256 open_zip r archive_bytes ≡ ok (hashes, provider)) same
            read_all,
        subst (λ r. HasIdentity r hashes provider) same
            (check_identity-HasIdentity decoded hashes provider checked),
      )
