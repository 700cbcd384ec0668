-- ===== src/Attest/Provider/Passed.antt =====
-- What a deployment has shown that is attested: the sources, the provider and the gates.
use doris_ducklake.Deploy.Ran.{bind-ok}
use doris_ducklake.Prelude.{
  List, Text, ap, ok, some, some_injective, subst, sym, text, text_eq, true, ◌∙◌, ◌≡◌,
}
use doris_ducklake.Json.{Value}
use doris_ducklake.Attest.Gates.{Backend, all_satisfied, stock_backend}
use doris_ducklake.Attest.Provider.{
  attest, attest_sql, attest_stable, conclude, is_stock, keep_images,
}
use doris_ducklake.Deploy.State.{Attestation, Images, Sources}
use doris_ducklake.Deploy.Claim.{Deployment}
use doris_ducklake.Deploy.Host.{Host, Settings}
use doris_ducklake.Deploy.Later.{AllRun-AllLater, IsLater, IsLater-after, IsLater-trans}
use doris_ducklake.Attest.Provider.Steps.{
  attest_sql-AllRun, attest_stable-AllRun, facts_of, run-facts,
}
use doris_ducklake.Attest.Provider.Asked.{AreRead, AreRead-later, attest_processes-ok}
use doris_ducklake.Attest.Provider.Pinned.{AreExact, AreKept, attest_sources-ok}
use doris_ducklake.Attest.Provider.Loaded.{IsLoaded, IsLoaded-later, attest_provider-ok}
use doris_ducklake.Attest.Provider.Concluded.{
  IsConcluded, conclude-AllLater, conclude-ok, keep_images-AllLater, keep_images-facts,
  keep_images-kept,
}

module _ (h : Host) (s : Settings) where
  -- A receipt that says what has been read.
  pub record IsAttested (e : Deployment) : Type 0 where
    pub receipt : Attestation
    pub is_written : e.lifecycle.attestation ≡ some receipt
    pub is_attested : e.deployment_attested ≡ true
    pub sources_exact :
        AreExact h s
          (text_eq receipt.runtime_images.be_reference stock_backend)
          receipt.runtime_sources
    pub fe_read : AreRead h s (text "SHOW FRONTENDS") receipt.runtime_sources.fe e
    pub be_read : AreRead h s (text "SHOW BACKENDS") receipt.runtime_sources.be e
    pub is_loaded : IsLoaded h s (some receipt.artifact) receipt.provider_inventory e
    pub gates_pass : all_satisfied receipt.gates ≡ true

  -- From the sources to the end, with what is read in between.
  IsAttested-from :
      (selected : Backend) (be : List Text) (d₁ d₂ d₃ e : Deployment)
      → AreKept h s (is_stock h s selected) be d₁
      → AreRead h s (text "SHOW BACKENDS") be d₁
      → IsLater d₁ d₂
      → (d₂.lifecycle.runtime_sources ≡ d₁.lifecycle.runtime_sources)
        × IsLoaded h s d₂.lifecycle.artifact d₂.lifecycle.provider_inventory d₂
      → facts_of d₃ ≡ facts_of d₂
      → IsLater d₂ e
      → (images : Images) × (d₃.lifecycle.runtime_images ≡ some images)
        × (images.be_reference ≡ selected.reference)
      → IsConcluded h s d₃ e
      → IsAttested e
  IsAttested-from selected be d₁ d₂ d₃ e kept read later loaded same at_end images c =
      let (images, are_kept, of_selected) = images in
      let sourced : c.receipt.runtime_sources ≡ kept.sources =
        some_injective (c.same_sources ∙ ap (λ x. x.1) same ∙ loaded.0 ∙ kept.is_kept) in
      let all_later = IsLater-trans d₁ d₂ e later at_end in
      record {
        receipt = c.receipt;
        is_written = c.is_written;
        is_attested = c.is_attested;
        sources_exact =
            subst (λ r. AreExact h s (text_eq r stock_backend) c.receipt.runtime_sources)
              (sym (
                ap (λ (i : Images). i.be_reference) (some_injective (c.same_images ∙ are_kept))
                ∙ of_selected))
              (subst (AreExact h s (is_stock h s selected)) (sym sourced) kept.exact);
        fe_read =
            subst (λ (x : Sources). AreRead h s (text "SHOW FRONTENDS") x.fe e) (sym sourced)
              (AreRead-later h s (text "SHOW FRONTENDS") kept.sources.fe d₁ e all_later
                kept.fe_read);
        be_read =
            subst (λ vs. AreRead h s (text "SHOW BACKENDS") vs e)
              (sym (ap (λ (x : Sources). x.be) sourced ∙ kept.same_be))
              (AreRead-later h s (text "SHOW BACKENDS") be d₁ e all_later read);
        is_loaded =
            subst (λ a. IsLoaded h s a c.receipt.provider_inventory e)
              (sym (c.same_artifact ∙ ap (λ x. x.0) same))
              (subst (λ r. IsLoaded h s d₂.lifecycle.artifact r e)
                (sym (c.same_rows ∙ ap (λ x. x.2) same))
                (IsLoaded-later h s _ _ d₂ e at_end loaded.1));
        gates_pass = c.gates_pass;
      }

  -- What follows the provider only leads on.
  ending :
      (selected : Backend) (be : Value) (d₃ d₄ d₅ d₆ e : Deployment) (q : Text) {u v w x : Unit {0}}
      → attest_sql h s d₃ ≡ (d₄, ok u)
      → attest_stable h s selected be d₄ ≡ (d₅, ok v)
      → keep_images h s selected be d₅ ≡ (d₆, ok w)
      → conclude h s q d₆ ≡ (e, ok x)
      → IsLater d₃ e
  ending selected be d₃ d₄ d₅ d₆ e q answered stable kept concluded =
      IsLater-trans d₃ d₄ e
        (IsLater-after (attest_sql h s) d₃ answered
          (AllRun-AllLater {h = h} {s = s} (attest_sql h s) (attest_sql-AllRun h s)))
        (IsLater-trans d₄ d₅ e
          (IsLater-after (attest_stable h s selected be) d₄ stable (
            AllRun-AllLater {h = h} {s = s} (attest_stable h s selected be)
              (attest_stable-AllRun h s selected be)))
          (IsLater-trans d₅ d₆ e
            (IsLater-after (keep_images h s selected be) d₅ kept
              (keep_images-AllLater h s selected be))
            (IsLater-after (conclude h s q) d₆ concluded (conclude-AllLater h s q))))

  -- When the attestation returns, the deployment is marked attested and a receipt is written, by
  -- which every required gate has passed. The docker commands include SHOW FRONTENDS, with an answer
  -- by which the frontends that are alive run the pinned source and no other, and SHOW BACKENDS, with
  -- an answer by which so do the backends, unless the backend's image, by the receipt, is the stock
  -- one. They include the query of the registry, and its answer is one line, the external DuckLake
  -- connector with the build identity of the artifact in the receipt.
  pub attest-IsAttested :
      (d : Deployment) {e : Deployment} {u : Unit {0}} → attest h s d ≡ (e, ok u) → IsAttested e
  unfolding attest
  attest-IsAttested d {e} p =
      let (d₁, started, began, p₁) = bind-ok _ _ d p in
      let (selected, be, versions) = started in
      let (d₂, _, sourced, p₂) = bind-ok _ _ d₁ p₁ in
      let (d₃, _, provided, p₃) = bind-ok _ _ d₂ p₂ in
      let (d₄, _, answered, p₄) = bind-ok _ _ d₃ p₃ in
      let (d₅, _, stable, p₅) = bind-ok _ _ d₄ p₄ in
      let (d₆, _, kept, p₆) = bind-ok _ _ d₅ p₅ in
      let (sources, since) = attest_sources-ok h s (is_stock h s selected) versions d₁ sourced in
      let (same_sources, loaded, later) = attest_provider-ok h s d₂ provided in
      let same : facts_of d₆ ≡ facts_of d₃ =
        keep_images-facts h s selected be d₅ kept
        ∙ run-facts h s (attest_stable h s selected be) d₄ (attest_stable-AllRun h s selected be)
            stable
        ∙ run-facts h s (attest_sql h s) d₃ (attest_sql-AllRun h s) answered in
      IsAttested-from selected versions d₂ d₃ d₆ e sources
        (AreRead-later h s (text "SHOW BACKENDS") versions d₁ d₂ since
          (attest_processes-ok h s d began))
        later (same_sources, loaded) same
        (ending selected be d₃ d₄ d₅ d₆ e _ answered stable kept p₆)
        (keep_images-kept h s selected be d₅ kept) (conclude-ok h s _ d₆ p₆)
