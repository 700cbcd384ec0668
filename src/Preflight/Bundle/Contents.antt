-- ===== src/Preflight/Bundle/Contents.antt =====
-- The identity of an accepted bundle determines its contents, file by file.
use doris_ducklake.Preflight.Records.Injective.{build_id_determines}
use doris_ducklake.Prelude.{
  >>=-eq-ok, All, Dict, List, Result, Text, Unique, [], ap, contains, every, if-eq, inl, inr, keep,
  keep-Unique, keys, lookup, map_values-Unique, not, ok, ok_injective, or_key_error,
  require->>-eq-ok, subst, sym, text, text_eq, ℕ, ◌&&◌, ◌∙◌, ◌∷◌, ◌≡◌,
}
use doris_ducklake.Json.{Value, get, is_obj, is_text, str, str_injective}
use doris_ducklake.Preflight.Utf8.{utf8, utf8_decode}
use doris_ducklake.Preflight.Manifest.{manifest_sections}
use doris_ducklake.Preflight.Records.{build_id, canonical}
use doris_ducklake.Preflight.Zip.{Archive, Entry, zip_files}
use doris_ducklake.Preflight.Bundle.{
  Provider, api_version, find_providers, hash_entries, is_lib_jar, is_only, manifest_file,
  only_provider, payload_of, provider_class, provider_file, read_bundle, read_provider, runtime_of,
  service_classes, service_file, texts_eq, verify_bundle,
}
use doris_ducklake.Preflight.Bundle.Identity.{
  HasIdentity, verify_bundle-HasIdentity, zip_files-Unique,
}

abbrev HasUniquePayload : Provider → Type 0
HasUniquePayload p = Unique p.payload

module _ (sha256 : List ℕ → Text) (open_zip : List ℕ → Result Archive) where
  read_provider-Unique :
      (name : Text) (entries : Dict Entry) {p : Provider}
      → Unique entries
      → read_provider sha256 open_zip name entries ≡ ok p
      → HasUniquePayload p
  unfolding read_provider payload_of
  read_provider-Unique name entries {p = p} u h =
      let (service, _, h₁) = >>=-eq-ok (or_key_error (lookup service_file entries)) _ h in
      let (declared, _, h₂) = >>=-eq-ok (utf8_decode service.content) _ h₁ in
      let (_, h₃) = require->>-eq-ok (is_only (service_classes declared) provider_class) _ _ h₂ in
      let (_, h₄) = require->>-eq-ok (contains provider_file entries) _ _ h₃ in
      let (manifest, _, h₅) = >>=-eq-ok (or_key_error (lookup manifest_file entries)) _ h₄ in
      let (sections, _, h₆) = >>=-eq-ok (manifest_sections manifest.content) _ h₅ in
      let kept = keep (λ (e : Text × Entry). not (text_eq e.0 manifest_file)) entries in
      let built : record {
        jar = name;
        payload = payload_of sha256 open_zip entries;
        sections = sections;
      }
          ≡ p =
        ok_injective h₆ in
      subst HasUniquePayload built (
        map_values-Unique str (hash_entries sha256 open_zip kept)
          (map_values-Unique (λ (e : Entry). sha256 e.content) kept (keep-Unique _ entries u)))

  find_providers-Unique :
      (found : List Provider) (entries : Dict Entry) {ps : List Provider}
      → All HasUniquePayload found
      → find_providers sha256 open_zip found entries ≡ ok ps
      → All HasUniquePayload ps
  unfolding find_providers
  find_providers-Unique found [] u h = subst (All HasUniquePayload) (ok_injective h) u
  find_providers-Unique found ((name, entry) ∷ entries) u h =
      let (archive, _, h₁) = >>=-eq-ok (open_zip entry.content) _ h in
      let (jar_entries, listed, h₂) = >>=-eq-ok (zip_files archive) _ h₁ in
      elim (if-eq (contains service_file jar_entries) _ _ h₂) [
        | inl (_, h₃) ↦
            let (p, read_one, h₄) =
              >>=-eq-ok (read_provider sha256 open_zip name jar_entries) _ h₃ in
            find_providers-Unique (p ∷ found) entries
              (read_provider-Unique name jar_entries (zip_files-Unique archive listed) read_one, u)
              h₄
        | inr (_, h₃) ↦ find_providers-Unique found entries u h₃
      ]

  only_provider-Unique :
      (found : List Provider) (jar : Value) {p : Provider}
      → All HasUniquePayload found
      → only_provider sha256 open_zip found jar ≡ ok p
      → HasUniquePayload p
  unfolding only_provider
  only_provider-Unique (q ∷ []) jar u h =
      let (_, same) = require->>-eq-ok (is_text jar q.jar) _ (ok q) h in
      subst HasUniquePayload (ok_injective same) u.0
  only_provider-Unique [] jar u h = cc
  only_provider-Unique (_ ∷ _ ∷ _) jar u h = cc

  -- The file names of an accepted bundle are distinct, and so are those of its provider.
  read_bundle-Unique :
      (receipt : Value) (archive_bytes : List ℕ) {hashes : Dict Text} {p : Provider}
      → read_bundle sha256 open_zip receipt archive_bytes ≡ ok (hashes, p)
      → Unique hashes × HasUniquePayload p
  unfolding read_bundle
  read_bundle-Unique receipt archive_bytes {hashes = hashes} {p = p} h =
      let (_, h₁) = require->>-eq-ok (is_obj receipt) _ _ h in
      let (receipt_schema, _, h₂) = >>=-eq-ok (get (text "schema") receipt) _ h₁ in
      let (api, _, h₃) = >>=-eq-ok (get (text "api_version") receipt) _ h₂ in
      let (_, h₄) =
        require->>-eq-ok
          (is_text receipt_schema (text "doris-plugin-artifact-v1") && is_text api api_version) _ _
          h₃ in
      let (zip_sha256, _, h₅) = >>=-eq-ok (get (text "plugin_zip_sha256") receipt) _ h₄ in
      let (_, h₆) = require->>-eq-ok (is_text zip_sha256 (sha256 archive_bytes)) _ _ h₅ in
      let (archive, _, h₇) = >>=-eq-ok (open_zip archive_bytes) _ h₆ in
      let (entries, listed, h₈) = >>=-eq-ok (zip_files archive) _ h₇ in
      let (_, h₉) = require->>-eq-ok (every is_lib_jar (keys entries)) _ _ h₈ in
      let (files, _, k₁) = >>=-eq-ok (get (text "files") receipt) _ h₉ in
      let (_, k₂) =
        require->>-eq-ok (texts_eq (hash_entries sha256 open_zip entries) files) _ _ k₁ in
      let (found, found_all, k₃) = >>=-eq-ok (find_providers sha256 open_zip [] entries) _ k₂ in
      let (jar, _, k₄) = >>=-eq-ok (get (text "provider_jar") receipt) _ k₃ in
      let (q, only, k₅) =
        >>=-eq-ok (only_provider sha256 open_zip found jar)
          (λ r. ok (hash_entries sha256 open_zip entries, r)) k₄ in
      let same = ok_injective k₅ in
      let same_hashes : hash_entries sha256 open_zip entries ≡ hashes =
        ap (λ (c : Dict Text × Provider). c.0) same in
      let same_provider : q ≡ p = ap (λ (c : Dict Text × Provider). c.1) same in
      (
        subst Unique same_hashes (
            map_values-Unique (λ (e : Entry). sha256 e.content) entries
              (zip_files-Unique archive listed)),
        subst HasUniquePayload same_provider
            (only_provider-Unique found jar (find_providers-Unique [] entries tt found_all) only),
      )

  runtime-Unique :
      (jar : Text) (hashes : Dict Text)
      → Unique hashes
      → Unique (runtime_of sha256 open_zip jar hashes)
  runtime-Unique jar hashes u =
      map_values-Unique str _ (keep-Unique (λ (e : Text × Text). not (text_eq e.0 jar)) hashes u)

  -- `canonical` at the contents of a bundle.
  abbrev pub canonical_of : Dict Text → Provider → Result Text
  canonical_of hashes provider =
      canonical api_version provider.payload (runtime_of sha256 open_zip provider.jar hashes)

  HasIdentity-of :
      (bytes : List ℕ) (raw : Value) {r : Value} {hashes : Dict Text} {p : Provider}
      → verify_bundle sha256 open_zip bytes raw ≡ ok r
      → read_bundle sha256 open_zip r bytes ≡ ok (hashes, p)
      → HasIdentity sha256 open_zip r hashes p
  HasIdentity-of bytes raw {r = r} v b =
      let (_, _, read_all, identity) = verify_bundle-HasIdentity sha256 open_zip bytes raw v in
      subst (λ (c : Dict Text × Provider). HasIdentity sha256 open_zip r c.0 c.1)
        (ok_injective (sym read_all ∙ b)) identity

  -- Two accepted bundles whose receipts claim the same identity hold the same libraries beside
  -- the provider and the same files in the provider (its manifest aside), digest by digest,
  -- unless SHA-256 collides on the two canonical texts.
  pub verify_bundle_determines :
      (bytes bytes' : List ℕ) (raw raw' : Value) {r r' : Value} {hashes hashes' : Dict Text}
      {p p' : Provider}
      → verify_bundle sha256 open_zip bytes raw ≡ ok r
      → verify_bundle sha256 open_zip bytes' raw' ≡ ok r'
      → read_bundle sha256 open_zip r bytes ≡ ok (hashes, p)
      → read_bundle sha256 open_zip r' bytes' ≡ ok (hashes', p')
      → get (text "build_id") r ≡ get (text "build_id") r'
      → ((c c' : Text)
          → canonical_of hashes p ≡ ok c
          → canonical_of hashes' p' ≡ ok c'
          → sha256 (utf8 c) ≡ sha256 (utf8 c')
          → c ≡ c')
      → (k : Text)
      → (lookup k p.payload ≡ lookup k p'.payload)
        × (lookup k (runtime_of sha256 open_zip p.jar hashes)
            ≡ lookup k (runtime_of sha256 open_zip p'.jar hashes'))
  unfolding build_id
  verify_bundle_determines bytes bytes' raw raw' {r} {r'} {hashes} {hashes'} {p} {p'} v v' b b' same
        no_collision k =
      let i = HasIdentity-of bytes raw v b in
      let i' = HasIdentity-of bytes' raw' v' b' in
      let ids : i.identity ≡ i'.identity =
        str_injective (ok_injective (sym i.claimed ∙ same ∙ i'.claimed)) in
      let (c, is_c, _) = >>=-eq-ok (canonical_of hashes p) _ i.computed in
      let (c', is_c', _) = >>=-eq-ok (canonical_of hashes' p') _ i'.computed in
      let (u, w) = read_bundle-Unique r bytes b in
      let (u', w') = read_bundle-Unique r' bytes' b' in
      build_id_determines sha256 api_version p.payload (runtime_of sha256 open_zip p.jar hashes)
        p'.payload (runtime_of sha256 open_zip p'.jar hashes') w (runtime-Unique p.jar hashes u) w'
        (runtime-Unique p'.jar hashes' u') is_c is_c' (no_collision c c' is_c is_c') i.computed
        (i'.computed ∙ ap ok (sym ids)) k
