-- ===== src/Attest/Provider/Asked.antt =====
-- What the server was is_asked, by the docker commands of a deployment, and what it answered.
use doris_ducklake.Attest.{alive_versions}
use doris_ducklake.Deploy.Ran.{bind-ok, pure-ok}
use doris_ducklake.Prelude.{
  Bool, List, Option, Result, Text, [], ap, append_assoc, none, ok, ok_injective, some,
  some_injective, subst, suc, sym, text, true, ◌++◌, ◌+◌, ◌∙◌, ◌∷◌, ◌≡◌,
}
use doris_ducklake.Json.{Value}
use doris_ducklake.Attest.Gates.{Backend}
use doris_ducklake.Attest.Provider.{
  attest_processes, found_versions, gate, query, registration_late, registration_round,
  some_versions, sql_command, versions_in, wait_registered,
}
use doris_ducklake.Deploy.Claim.{Call, Deployment, docker}
use doris_ducklake.Deploy.Host.{Host, Settings, ask}
use doris_ducklake.Deploy.Later.{AllRun-AllLater, IsLater, IsLater-after, poll-found}
use doris_ducklake.Deploy.Running.{AllRun, steps}
use doris_ducklake.Attest.Provider.Steps.{gate-AllRun, query-AllRun}

module _ (h : Host) (s : Settings) where
  -- Among the docker commands that led to the state is this query, to some container, with this
  -- output as its answer.
  pub record IsAnswer (sql : Text) (headers : Bool) (output : Text) (e : Deployment) : Type 0 where
    pub container : Text
    pub since : List Call
    pub earlier : List Call
    pub in_calls : e.calls ≡ since ++ (sql_command h s container headers sql, ok output) ∷ earlier
    pub answered : h.daemon earlier (sql_command h s container headers sql) ≡ ok output

  pub IsAnswer-later :
      (sql : Text) (headers : Bool) (output : Text) (d e : Deployment)
      → IsLater d e
      → IsAnswer sql headers output d
      → IsAnswer sql headers output e
  IsAnswer-later sql headers output d e later a = record {
    container = a.container;
    since = later.since ++ a.since;
    earlier = a.earlier;
    in_calls =
        later.grown
        ∙ ap (λ cs. later.since ++ cs) a.in_calls
        ∙ sym (append_assoc later.since a.since _);
    answered = a.answered;
  }

  ask-IsAnswer :
      (sql : Text) (headers : Bool) (container : Text) (d : Deployment) {e : Deployment}
      {output : Text}
      → ask h s (sql_command h s container headers sql) d ≡ (e, ok output)
      → IsAnswer sql headers output e
  unfolding docker
  ask-IsAnswer sql headers container d p =
      let answered = ap (λ (x : Deployment × Result Text). x.1) p in
      record {
        container = container;
        since = [];
        earlier = d.calls;
        in_calls =
            sym (ap (λ (x : Deployment × Result Text). x.0.calls) p)
            ∙ ap (λ r. (sql_command h s container headers sql, r) ∷ d.calls) answered;
        answered = answered;
      }

  pub query-IsAnswer :
      (sql : Text) (headers : Bool) (d : Deployment) {e : Deployment} {output : Text}
      → query h s sql headers d ≡ (e, ok output)
      → IsAnswer sql headers output e
  unfolding query
  query-IsAnswer sql headers d p =
      let (d₁, _, _, p₁) = bind-ok _ _ d p in
      let (d₂, container, _, p₂) = bind-ok _ _ d₁ p₁ in ask-IsAnswer sql headers container d₂ p₂

  -- These are the versions of the servers that are alive, by such an answer.
  pub record AreRead (sql : Text) (versions : List Text) (e : Deployment) : Type 0 where
    pub output : Text
    pub is_asked : IsAnswer sql true output e
    pub read : alive_versions output ≡ ok versions

  pub AreRead-later :
      (sql : Text) (versions : List Text) (d e : Deployment)
      → IsLater d e
      → AreRead sql versions d
      → AreRead sql versions e
  AreRead-later sql versions d e later r = record {
    output = r.output;
    is_asked = IsAnswer-later sql true r.output d e later r.is_asked;
    read = r.read;
  }

  versions_in-some :
      (output : Text) (found versions : List Text)
      → versions_in output ≡ ok found
      → some_versions found ≡ some versions
      → alive_versions output ≡ ok versions
  versions_in-some [] [] versions p q = cc
  versions_in-some [] (v ∷ vs) versions p q = cc
  versions_in-some (c ∷ cs) [] versions p q = cc
  versions_in-some (c ∷ cs) (v ∷ vs) versions p q = p ∙ ap ok (some_injective q)

  pub registration_round-AllRun : AllRun h s (registration_round h s)
  unfolding registration_round
  registration_round-AllRun = search (steps, query-AllRun)

  registration_round-ok :
      (d : Deployment) {e : Deployment} {versions : List Text}
      → registration_round h s d ≡ (e, ok (some versions))
      → AreRead (text "SHOW BACKENDS") versions e
  unfolding registration_round
  registration_round-ok d {e} {versions} p =
      let (d₁, output, asks, p₁) = bind-ok _ _ d p in
      let (d₂, found, read, p₂) = bind-ok _ _ d₁ p₁ in
      let (same₁, is_found) = pure-ok (versions_in output) d₁ read in
      let (same₂, are_some) = pure-ok (ok (some_versions found)) d₂ p₂ in
      record {
        output = output;
        is_asked =
            subst (IsAnswer (text "SHOW BACKENDS") true output) (same₁ ∙ same₂)
              (query-IsAnswer (text "SHOW BACKENDS") true d asks);
        read = versions_in-some output found versions is_found (ok_injective are_some);
      }

  found_versions-ok :
      (o : Option (List Text)) {versions : List Text}
      → found_versions o ≡ ok versions
      → o ≡ some versions
  found_versions-ok none p = cc
  found_versions-ok (some vs) p = ap some (ok_injective p)

  wait_registered-ok :
      (d : Deployment) {e : Deployment} {versions : List Text}
      → wait_registered h s d ≡ (e, ok versions)
      → AreRead (text "SHOW BACKENDS") versions e
  unfolding wait_registered
  wait_registered-ok d {e} {versions} p =
      let (d₁, now, _, p₁) = bind-ok _ _ d p in
      let (d₂, found, waited, p₂) = bind-ok _ _ d₁ p₁ in
      let (d₃, kept, read, p₃) = bind-ok _ _ d₂ p₂ in
      let (d₄, _, is_gate, p₄) = bind-ok _ _ d₃ p₃ in
      let (same₃, is_found) = pure-ok (found_versions found) d₂ read in
      let (same₄, is_kept) = pure-ok (ok kept) d₄ p₄ in
      let (c, _, ended) =
        poll-found h s registration_late (registration_round h s)
          (AllRun-AllLater {h = h} {s = s} (registration_round h s) registration_round-AllRun)
          (suc s.startup_timeout) (now + s.startup_timeout) d₁
          (waited ∙ ap (λ o. (d₂, ok o)) (found_versions-ok found is_found)) in
      let later =
        IsLater-after (gate h s _ _) d₃ is_gate
          (AllRun-AllLater {h = h} {s = s} (gate h s _ _) (gate-AllRun h s _ _)) in
      subst (λ vs. AreRead (text "SHOW BACKENDS") vs e) (ok_injective is_kept)
        (subst (AreRead (text "SHOW BACKENDS") kept) same₄ (
          AreRead-later (text "SHOW BACKENDS") kept d₃ d₄ later
            (subst (AreRead (text "SHOW BACKENDS") kept) same₃ (registration_round-ok c ended))))

  pub attest_processes-ok :
      (d : Deployment) {e : Deployment} {started : Backend × Value × List Text}
      → attest_processes h s d ≡ (e, ok started)
      → AreRead (text "SHOW BACKENDS") started.2 e
  unfolding attest_processes
  attest_processes-ok d {e} p =
      let (d₁, _, _, p₁) = bind-ok _ _ d p in
      let (d₂, _, _, p₂) = bind-ok _ _ d₁ p₁ in
      let (d₃, _, _, p₃) = bind-ok _ _ d₂ p₂ in
      let (d₄, selected, _, p₄) = bind-ok _ _ d₃ p₃ in
      let (d₅, be, _, p₅) = bind-ok _ _ d₄ p₄ in
      let (d₆, versions, waited, p₆) = bind-ok _ _ d₅ p₅ in
      let (same, is_started) = pure-ok (ok (selected, be, versions)) d₆ p₆ in
      subst (λ vs. AreRead (text "SHOW BACKENDS") vs e) (ap (λ x. x.2) (ok_injective is_started))
        (subst (AreRead (text "SHOW BACKENDS") versions) same (wait_registered-ok d₅ waited))
