-- ===== src/Attest/Provider/Concluded.antt =====
-- The receipt that the attestation writes at its end.
use doris_ducklake.Deploy.Ran.{bind-ok, pure-ok}
use doris_ducklake.Prelude.{
  >>=-eq-ok, Guard, Text, ap, ok, ok_injective, or_key_error, or_key_error-eq-ok, refl,
  require-eq-ok, some, sym, text, true, ◌∙◌, ◌≡◌,
}
use doris_ducklake.Json.{Value, item}
use doris_ducklake.Attest.Gates.{Backend, all_satisfied, attestation_of, images_of, state_item}
use doris_ducklake.Attest.Provider.{conclude, keep_images, set_attested, write_attestation}
use doris_ducklake.Deploy.Inspect.{container_id}
use doris_ducklake.Deploy.State.{Attestation, Images, Lifecycle}
use doris_ducklake.Deploy.Claim.{Deployment, event}
use doris_ducklake.Deploy.Host.{Host, Settings, note}
use doris_ducklake.Deploy.Later.{
  AllLater, IsLater-refl, calls-AllLater, laters, look_up-ok, no_call, update-ok,
}
use doris_ducklake.Attest.Provider.Steps.{facts_of}

module _ (h : Host) (s : Settings) where
  -- The receipt that was written holds the facts that had been read.
  pub record IsConcluded (d e : Deployment) : Type 0 where
    pub receipt : Attestation
    pub is_written : e.lifecycle.attestation ≡ some receipt
    pub is_attested : e.deployment_attested ≡ true
    pub same_artifact : some receipt.artifact ≡ d.lifecycle.artifact
    pub same_sources : some receipt.runtime_sources ≡ d.lifecycle.runtime_sources
    pub same_rows : receipt.provider_inventory ≡ d.lifecycle.provider_inventory
    pub same_images : some receipt.runtime_images ≡ d.lifecycle.runtime_images
    pub gates_pass : all_satisfied receipt.gates ≡ true

  attestation-parts :
      (qualification : Text) (l : Lifecycle) (r : Attestation)
      → attestation_of s.token qualification l ≡ ok r
      → (some r.artifact ≡ l.artifact)
        × (some r.runtime_sources ≡ l.runtime_sources)
        × (r.provider_inventory ≡ l.provider_inventory)
        × (r.gates ≡ l.gates)
        × (some r.runtime_images ≡ l.runtime_images)
  unfolding attestation_of
  attestation-parts qualification l r p =
      let (artifact, is_a, p₁) = >>=-eq-ok (or_key_error l.artifact) _ p in
      let (images, is_i, p₂) = >>=-eq-ok (or_key_error l.runtime_images) _ p₁ in
      let (sources, is_s, p₃) = >>=-eq-ok (or_key_error l.runtime_sources) _ p₂ in
      let same = ok_injective (sym p₃) in
      (
        ap (λ (x : Attestation). some x.artifact) same ∙ sym (or_key_error-eq-ok l.artifact is_a),
        ap (λ (x : Attestation). some x.runtime_sources) same
            ∙ sym (or_key_error-eq-ok l.runtime_sources is_s),
        ap (λ (x : Attestation). x.provider_inventory) same,
        ap (λ (x : Attestation). x.gates) same,
        ap (λ (x : Attestation). some x.runtime_images) same
            ∙ sym (or_key_error-eq-ok l.runtime_images is_i),
      )

  finished :
      (qualification : Text) (receipt : Attestation) (d₄ d₅ d₆ : Deployment) {e : Deployment}
      {u v w : Unit {0}}
      → write_attestation h s receipt d₄ ≡ (d₅, ok u)
      → set_attested h s qualification d₅ ≡ (d₆, ok v)
      → note h s (text "deployment-attested") d₆ ≡ (e, ok w)
      → (e.lifecycle.attestation ≡ some receipt) × (e.deployment_attested ≡ true)
  unfolding write_attestation set_attested event
  finished qualification receipt d₄ d₅ d₆ wrote set told =
      let (c₁, calls, _, q₁) = bind-ok _ _ d₄ wrote in
      let (c₂, _, _, q₂) = bind-ok _ _ c₁ q₁ in
      let stored = update-ok (λ (l : Lifecycle). record l { attestation = some receipt }) c₂ q₂ in
      let is_set = ap (λ (x : Deployment × Guard). x.0) (sym set) in
      let is_told = ap (λ (x : Deployment × Guard). x.0) (sym told) in
      (
        ap (λ (x : Deployment). x.lifecycle.attestation) is_told
            ∙ ap (λ (x : Deployment). x.lifecycle.attestation) is_set
            ∙ ap (λ (l : Lifecycle). l.attestation) stored,
        ap (λ (x : Deployment). x.deployment_attested) is_told
            ∙ ap (λ (x : Deployment). x.deployment_attested) is_set,
      )

  pub conclude-ok :
      (qualification : Text) (d : Deployment) {e : Deployment} {u : Unit {0}}
      → conclude h s qualification d ≡ (e, ok u)
      → IsConcluded d e
  unfolding conclude
  conclude-ok qualification d {e} p =
      let (d₁, gates, looked, p₁) = bind-ok _ _ d p in
      let (d₂, _, passed, p₂) = bind-ok _ _ d₁ p₁ in
      let (d₃, l, kept, p₃) = bind-ok _ _ d₂ p₂ in
      let (d₄, receipt, is_r, p₄) = bind-ok _ _ d₃ p₃ in
      let (d₅, _, wrote, p₅) = bind-ok _ _ d₄ p₄ in
      let (d₆, _, set, p₆) = bind-ok _ _ d₅ p₅ in
      let (same₁, are_gates) = look_up-ok (λ (l : Lifecycle). l.gates) d looked in
      let (same₂, pass) = pure-ok _ d₁ passed in
      let (same₃, is_l) = look_up-ok (λ (l : Lifecycle). l) d₂ kept in
      let l_is : l ≡ d.lifecycle =
        sym is_l ∙ ap (λ (x : Deployment). x.lifecycle) (sym (same₁ ∙ same₂)) in
      let parts = attestation-parts qualification l receipt (pure-ok _ d₃ is_r).1 in
      let final = finished qualification receipt d₄ d₅ d₆ wrote set p₆ in
      record {
        receipt = receipt;
        is_written = final.0;
        is_attested = final.1;
        same_artifact = parts.0 ∙ ap (λ (x : Lifecycle). x.artifact) l_is;
        same_sources = parts.1 ∙ ap (λ (x : Lifecycle). x.runtime_sources) l_is;
        same_rows = parts.2 ∙ ap (λ (x : Lifecycle). x.provider_inventory) l_is;
        same_images = parts.4 ∙ ap (λ (x : Lifecycle). x.runtime_images) l_is;
        gates_pass =
            ap all_satisfied (parts.3 ∙ ap (λ (x : Lifecycle). x.gates) l_is ∙ are_gates)
            ∙ require-eq-ok (all_satisfied gates) _ pass;
      }

  write_attestation-AllLater : (r : Attestation) → AllLater (write_attestation h s r)
  unfolding write_attestation
  write_attestation-AllLater r = search (laters, calls-AllLater)

  set_attested-AllLater : (q : Text) → AllLater (set_attested h s q)
  unfolding set_attested
  set_attested-AllLater q d = no_call (IsLater-refl d) refl refl refl

  pub conclude-AllLater : (q : Text) → AllLater (conclude h s q)
  unfolding conclude
  conclude-AllLater q = search (laters, write_attestation-AllLater, set_attested-AllLater) depth 20

  pub keep_images-facts :
      (selected : Backend) (be : Value) (d : Deployment) {e : Deployment} {u : Unit {0}}
      → keep_images h s selected be d ≡ (e, ok u)
      → facts_of e ≡ facts_of d
  unfolding keep_images
  keep_images-facts selected be d p =
      let (d₁, fe_id, looked, p₁) = bind-ok _ _ d p in
      let (d₂, images, read, p₂) = bind-ok _ _ d₁ p₁ in
      let same =
        (look_up-ok (λ (l : Lifecycle). l.fe_image) d looked).0
        ∙ (pure-ok (images_of s.target.spec.image fe_id selected be) d₁ read).0 in
      ap (λ (l : Lifecycle). (l.artifact, l.runtime_sources, l.provider_inventory))
        (update-ok (λ (l : Lifecycle). record l { runtime_images = some images }) d₂ p₂)
      ∙ ap facts_of (sym same)

  images_of-reference :
      (fe_id be : Value) (selected : Backend) (images : Images)
      → images_of s.target.spec.image fe_id selected be ≡ ok images
      → images.be_reference ≡ selected.reference
  unfolding images_of
  images_of-reference fe_id be selected images p =
      let (image, _, p₁) = >>=-eq-ok (item (text "Image") be) _ p in
      let (id, _, p₂) = >>=-eq-ok (container_id be) _ p₁ in
      let (started, _, p₃) = >>=-eq-ok (state_item (text "StartedAt") be) _ p₂ in
      ap (λ (i : Images). i.be_reference) (sym (ok_injective p₃))

  pub keep_images-kept :
      (selected : Backend) (be : Value) (d : Deployment) {e : Deployment} {u : Unit {0}}
      → keep_images h s selected be d ≡ (e, ok u)
      → (images : Images) × (e.lifecycle.runtime_images ≡ some images)
        × (images.be_reference ≡ selected.reference)
  unfolding keep_images
  keep_images-kept selected be d p =
      let (d₁, fe_id, looked, p₁) = bind-ok _ _ d p in
      let (d₂, images, read, p₂) = bind-ok _ _ d₁ p₁ in
      (
        images,
        ap (λ (l : Lifecycle). l.runtime_images)
            (update-ok (λ (l : Lifecycle). record l { runtime_images = some images }) d₂ p₂),
        images_of-reference fe_id be selected images (pure-ok _ d₁ read).1,
      )

  pub keep_images-AllLater :
      (selected : Backend) (be : Value) → AllLater (keep_images h s selected be)
  unfolding keep_images
  keep_images-AllLater selected be = search laters
