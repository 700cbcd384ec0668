-- ===== src/Attest/Provider/Loaded.antt =====
-- The provider that the server has loaded is the one of the bundle.
use doris_ducklake.Attest.{inventory_rows, validate_inventory}
use doris_ducklake.Attest.Inventory.{connector_line, inventory_is_exact}
use doris_ducklake.Deploy.Ran.{bind-ok, pure-ok}
use doris_ducklake.Prelude.{
  Dict, List, Option, Text, [], ap, false, ok, splitlines, sym, ◌∙◌, ◌∷◌, ◌≡◌,
}
use doris_ducklake.Json.{Value}
use doris_ducklake.Attest.Gates.{build_id_of}
use doris_ducklake.Attest.Provider.{accept_provider, attest_provider, gate, inventory_sql, query}
use doris_ducklake.Deploy.State.{Lifecycle}
use doris_ducklake.Deploy.Claim.{Deployment}
use doris_ducklake.Deploy.Host.{Host, Settings, note}
use doris_ducklake.Deploy.Later.{
  AllLater, AllRun-AllLater, IsLater, IsLater-after, IsLater-trans, laters, look_up-ok, update-ok,
}
use doris_ducklake.Deploy.Running.{here, noted}
use doris_ducklake.Attest.Provider.Steps.{facts_of, gate-AllRun, query-AllRun, run-facts}
use doris_ducklake.Attest.Provider.Asked.{IsAnswer, IsAnswer-later, query-IsAnswer}

module _ (h : Host) (s : Settings) where
  -- The server's registry has one DuckLake row, with the identity of the bundle.
  pub record IsLoaded (artifact : Option Value) (rows : List (Dict Text)) (e : Deployment)
      : Type 0 where
    pub build : Text
    pub is_build : build_id_of artifact ≡ ok build
    pub output : Text
    pub is_asked : IsAnswer h s inventory_sql false output e
    pub read : inventory_rows output ≡ ok rows
    pub one_line : splitlines output ≡ connector_line build ∷ []

  pub IsLoaded-later :
      (artifact : Option Value) (rows : List (Dict Text)) (d e : Deployment)
      → IsLater d e
      → IsLoaded artifact rows d
      → IsLoaded artifact rows e
  IsLoaded-later artifact rows d e later l = record {
    build = l.build;
    is_build = l.is_build;
    output = l.output;
    is_asked = IsAnswer-later h s inventory_sql false l.output d e later l.is_asked;
    read = l.read;
    one_line = l.one_line;
  }

  pub accept_provider-AllLater : (output : Text) → AllLater (accept_provider h s output)
  unfolding accept_provider gate
  accept_provider-AllLater output = search laters depth 20

  pub attest_provider-ok :
      (d : Deployment) {e : Deployment} {u : Unit {0}}
      → attest_provider h s d ≡ (e, ok u)
      → (e.lifecycle.runtime_sources ≡ d.lifecycle.runtime_sources)
        × IsLoaded e.lifecycle.artifact e.lifecycle.provider_inventory e
        × IsLater d e
  unfolding attest_provider accept_provider
  attest_provider-ok d {e} p =
      let (d₁, output, asks, p₁) =
        bind-ok (query h s inventory_sql false) (accept_provider h s) d p in
      let since =
        IsLater-after (accept_provider h s output) d₁ p₁ (accept_provider-AllLater output) in
      let (d₂, rows, read, p₂) = bind-ok _ _ d₁ p₁ in
      let (d₃, _, set, p₃) = bind-ok _ _ d₂ p₂ in
      let (d₄, artifact, looked, p₄) = bind-ok _ _ d₃ p₃ in
      let (d₅, build, is_b, p₅) = bind-ok _ _ d₄ p₄ in
      let (d₆, _, passed, p₆) = bind-ok _ _ d₅ p₅ in
      let (d₇, _, is_gate, p₇) = bind-ok _ _ d₆ p₆ in
      let (same₂, is_rows) = pure-ok (inventory_rows output) d₁ read in
      let (same₄, is_artifact) = look_up-ok (λ (l : Lifecycle). l.artifact) d₃ looked in
      let (same₅, is_build) = pure-ok (build_id_of artifact) d₄ is_b in
      let (same₆, valid) = pure-ok (validate_inventory rows build) d₅ passed in
      let after : facts_of e ≡ facts_of d₃ =
        run-facts h s (note h s _) d₇ (λ x. noted here _ _) p₇
        ∙ run-facts h s (gate h s _ _) d₆ (gate-AllRun h s _ _) is_gate
        ∙ ap facts_of (sym (same₄ ∙ same₅ ∙ same₆)) in
      let stored = update-ok (λ (l : Lifecycle). record l { provider_inventory = rows }) d₂ set in
      let before : facts_of d₂ ≡ facts_of d =
        ap facts_of (sym same₂) ∙ run-facts h s (query h s _ _) d (query-AllRun h s _ _) asks in
      let art : e.lifecycle.artifact ≡ artifact = ap (λ x. x.0) after ∙ is_artifact in
      let inv : e.lifecycle.provider_inventory ≡ rows =
        ap (λ x. x.2) after ∙ ap (λ (l : Lifecycle). l.provider_inventory) stored in
      (
        ap (λ x. x.1) after
            ∙ ap (λ (l : Lifecycle). l.runtime_sources) stored
            ∙ ap (λ x. x.1) before,
        record {
          build = build;
          is_build = ap build_id_of art ∙ is_build;
          output = output;
          is_asked =
              IsAnswer-later h s inventory_sql false output d₁ e since
                (query-IsAnswer h s inventory_sql false d asks);
          read = is_rows ∙ ap ok (sym inv);
          one_line = inventory_is_exact output build rows is_rows valid;
        },
        IsLater-trans d d₁ e
            (IsLater-after (query h s inventory_sql false) d asks (
              AllRun-AllLater {h = h} {s = s} (query h s inventory_sql false)
                (query-AllRun h s inventory_sql false)))
            since,
      )
