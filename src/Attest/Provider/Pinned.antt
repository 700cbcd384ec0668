-- ===== src/Attest/Provider/Pinned.antt =====
-- The sources that the servers run are those that they were is_asked for.
use doris_ducklake.Attest.{alive_versions}
use doris_ducklake.Deploy.Ran.{bind-ok, pure-ok}
use doris_ducklake.Prelude.{
  Bool, List, Text, [], ap, false, ok, refl, require-eq-ok, some, sym, text, texts_equal,
  texts_equal_sound, true, ◌++◌, ◌∙◌, ◌∷◌, ◌≡◌,
}
use doris_ducklake.Attest.Gates.{pin_or_default}
use doris_ducklake.Attest.Provider.{
  accept_sources, attest_sources, check_backend_sources, gate, is_stock, query,
}
use doris_ducklake.Deploy.State.{Lifecycle, Sources}
use doris_ducklake.Deploy.Claim.{Deployment}
use doris_ducklake.Deploy.Host.{Host, Settings}
use doris_ducklake.Deploy.Later.{
  AllLater, AllRun-AllLater, IsLater, IsLater-after, IsLater-trans, laters, update-ok,
}
use doris_ducklake.Attest.Provider.Steps.{
  check_backend_sources-AllRun, gate-AllRun, query-AllRun, run-facts,
}
use doris_ducklake.Attest.Provider.Asked.{AreRead, IsAnswer-later, query-IsAnswer}

module _ (h : Host) (s : Settings) where
  abbrev pub expected_source : Text
  expected_source = text "doris-0.0.0-" ++ pin_or_default s.source_pin

  -- The frontend runs the pinned source and nothing else, and so does the backend, unless it is
  -- the stock one.
  pub record AreExact (stock : Bool) (sources : Sources) : Type 0 where
    pub exact_fe : sources.fe ≡ expected_source ∷ []
    pub exact_be : stock ≡ false → sources.be ≡ expected_source ∷ []

  check_backend_sources-ok :
      (stock : Bool) (fe be : List Text) (d : Deployment) {e : Deployment} {u : Unit {0}}
      → check_backend_sources h s stock fe be d ≡ (e, ok u)
      → stock ≡ false
      → fe ≡ be
  unfolding check_backend_sources
  check_backend_sources-ok true fe be d p is_stock = cc
  check_backend_sources-ok false fe be d p is_stock =
      let (d₁, _, passed, _) = bind-ok _ _ d p in
      texts_equal_sound fe be (require-eq-ok (texts_equal fe be) _ (pure-ok _ d passed).1)

  check_backend_sources-AllLater :
      (stock : Bool) (fe be : List Text) → AllLater (check_backend_sources h s stock fe be)
  check_backend_sources-AllLater stock fe be =
      AllRun-AllLater {h = h} {s = s} (check_backend_sources h s stock fe be)
        (check_backend_sources-AllRun h s stock fe be)

  pub accept_sources-AllLater :
      (stock : Bool) (be : List Text) (output : Text)
      → AllLater (accept_sources h s stock be output)
  unfolding accept_sources gate
  accept_sources-AllLater stock be output = search (laters, check_backend_sources-AllLater) depth 20

  -- What is kept of the sources, exactly as they were read.
  pub record AreKept (stock : Bool) (be : List Text) (e : Deployment) : Type 0 where
    pub sources : Sources
    pub is_kept : e.lifecycle.runtime_sources ≡ some sources
    pub exact : AreExact stock sources
    pub same_be : sources.be ≡ be
    pub fe_read : AreRead h s (text "SHOW FRONTENDS") sources.fe e

  accept_sources-ok :
      (stock : Bool) (be : List Text) (output : Text) (d : Deployment) {e : Deployment}
      {u : Unit {0}}
      → accept_sources h s stock be output d ≡ (e, ok u)
      → (fe : List Text) × (alive_versions output ≡ ok fe)
        × (e.lifecycle.runtime_sources
            ≡ some (record { expected = expected_source; fe = fe; be = be }))
        × AreExact stock (record { expected = expected_source; fe = fe; be = be })
  unfolding accept_sources
  accept_sources-ok stock be output d₁ p₁ =
      let (d₂, fe, read, p₂) = bind-ok _ _ d₁ p₁ in
      let (d₃, _, _, p₃) = bind-ok _ _ d₂ p₂ in
      let (d₄, _, set, p₄) = bind-ok _ _ d₃ p₃ in
      let (d₅, _, passed, p₅) = bind-ok _ _ d₄ p₄ in
      let (d₆, _, is_gate, p₆) = bind-ok _ _ d₅ p₅ in
      let (same, is_exact) = pure-ok _ d₄ passed in
      let exact =
        texts_equal_sound fe (expected_source ∷ [])
          (require-eq-ok (texts_equal fe (expected_source ∷ [])) _ is_exact) in
      let kept =
        run-facts h s (check_backend_sources h s stock fe be) d₆
          (check_backend_sources-AllRun h s stock fe be) p₆
        ∙ run-facts h s (gate h s _ _) d₅ (gate-AllRun h s _ _) is_gate in
      (
        fe,
        (pure-ok (alive_versions output) d₁ read).1,
        ap (λ x. x.1) kept
            ∙ ap (λ (x : Deployment). x.lifecycle.runtime_sources) (sym same)
            ∙ ap (λ (l : Lifecycle). l.runtime_sources) (update-ok _ d₃ set),
        record {
          exact_fe = exact;
          exact_be = λ is_own. sym (check_backend_sources-ok stock fe be d₆ p₆ is_own) ∙ exact;
        },
      )

  pub attest_sources-ok :
      (stock : Bool) (be : List Text) (d : Deployment) {e : Deployment} {u : Unit {0}}
      → attest_sources h s stock be d ≡ (e, ok u)
      → AreKept stock be e × IsLater d e
  unfolding attest_sources
  attest_sources-ok stock be d {e} p =
      let (c, output, asks, p₁) = bind-ok (query h s _ _) _ d p in
      let (fe, read, kept, exact) = accept_sources-ok stock be output c p₁ in
      let later =
        IsLater-after (accept_sources h s stock be output) c p₁
          (accept_sources-AllLater stock be output) in
      (
        record {
          sources = record { expected = expected_source; fe = fe; be = be };
          is_kept = kept;
          exact = exact;
          same_be = refl;
          fe_read = record {
            output = output;
            is_asked =
                IsAnswer-later h s (text "SHOW FRONTENDS") true output c e later
                  (query-IsAnswer h s (text "SHOW FRONTENDS") true d asks);
            read = read;
          };
        },
        IsLater-trans d c e
            (IsLater-after (query h s (text "SHOW FRONTENDS") true) d asks (
              AllRun-AllLater {h = h} {s = s} (query h s (text "SHOW FRONTENDS") true)
                (query-AllRun h s (text "SHOW FRONTENDS") true)))
            later,
      )
