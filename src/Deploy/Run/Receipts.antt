-- ===== src/Deploy/Run/Receipts.antt =====
-- The receipts that a run leaves, when it returns and when it raises.
use doris_ducklake.Deploy.Ran.{bind-run}
use doris_ducklake.Deploy.Exec.{handle, pure}
use doris_ducklake.Prelude.{
  Error, Guard, List, Option, Text, ap, err, false, none, ok, refl, some, subst, sym, true, ◌∙◌,
  ◌≡◌,
}
use doris_ducklake.Smoke.Ledger.{Receipt}
use doris_ducklake.Deploy.State.{Attestation, Lifecycle, RunResult}
use doris_ducklake.Deploy.Claim.{Call, Deployment}
use doris_ducklake.Deploy.Host.{Host, Settings, look_up, update}
use doris_ducklake.Deploy.Install.{Evidence}
use doris_ducklake.Deploy.Outcome.{failure_result}
use doris_ducklake.Deploy.Run.{
  Smoke, attested_now, record_failure, run, run_to_result, set_aside_attestation, set_aside_smoke,
  store_now, write_result,
}

module _ (h : Host) (s : Settings) (files : Evidence h.hash) (smoke : Smoke) where
  -- No receipt of an attestation or of a correct smoke run, and a result that says so.
  pub record HasFailed (e : Deployment) : Type 0 where
    pub no_attestation : e.lifecycle.attestation ≡ none
    pub no_smoke_receipt : e.lifecycle.smoke.receipt ≡ none
    pub result : RunResult
    pub is_written : e.lifecycle.run_result ≡ some result
    pub unsuccessful : result.run_success ≡ false
    pub incorrect : result.smoke_correctness_passed ≡ false

  module _ (stores : (calls : List Call) (name : Text) → h.store calls name ≡ ok tt) where
    store-ok : (name : Text) (c : Deployment) → store_now h s files smoke name c ≡ (c, ok tt)
    unfolding store_now
    store-ok name c = ap (λ r. (c, r)) (stores c.calls name)

    attestation-aside :
        (o : Option Attestation) (c : Deployment)
        → c.lifecycle.attestation ≡ o
        → (e : Deployment) × (set_aside_attestation h s files smoke o c ≡ (e, ok tt))
          × (e.lifecycle.attestation ≡ none)
    unfolding set_aside_attestation pure update
    attestation-aside none c is_o = (c, refl, is_o)
    attestation-aside (some x) c is_o = (
      record c {
        lifecycle = record c.lifecycle { attestation = none; attestation_before_error = some x };
      },
      bind-run _ _ c (store-ok _ c),
      refl,
    )

    smoke-aside :
        (o : Option Receipt) (c : Deployment)
        → c.lifecycle.smoke.receipt ≡ o
        → c.lifecycle.attestation ≡ none
        → (e : Deployment) × (set_aside_smoke h s files smoke o c ≡ (e, ok tt))
          × (e.lifecycle.attestation ≡ none)
          × (e.lifecycle.smoke.receipt ≡ none)
    unfolding set_aside_smoke pure update
    smoke-aside none c is_o gone = (c, refl, gone, is_o)
    smoke-aside (some x) c is_o gone = (
      record c {
        lifecycle = record c.lifecycle {
          smoke = record { ledger = c.lifecycle.smoke.ledger; receipt = none };
          smoke_before_error = true;
        };
      },
      bind-run _ _ c (store-ok _ c),
      gone,
      refl,
    )

    result-written :
        (r : RunResult) (c : Deployment)
        → write_result h s files smoke r c
          ≡ (record c { lifecycle = record c.lifecycle { run_result = some r } }, ok tt)
    unfolding write_result update
    result-written r c = bind-run _ _ c (store-ok _ c)

    record_failure-HasFailed :
        (raised : Error) (c : Deployment) → HasFailed (record_failure h s files smoke raised c).0
    unfolding record_failure look_up pure
    record_failure-HasFailed raised c =
        let (c₁, first, gone) = attestation-aside c.lifecycle.attestation c refl in
        let (c₂, second, still, no_receipt) = smoke-aside c₁.lifecycle.smoke.receipt c₁ refl gone in
        let wrote = result-written (failure_result c₂.deployment_attested) c₂ in
        let ran =
          bind-run (look_up (λ (l : Lifecycle). l.attestation)) _ c refl
          ∙ bind-run (set_aside_attestation h s files smoke c.lifecycle.attestation) _ c first
          ∙ bind-run (look_up (λ (l : Lifecycle). l.smoke.receipt)) _ c₁ refl
          ∙ bind-run (set_aside_smoke h s files smoke c₁.lifecycle.smoke.receipt) _ c₁ second
          ∙ bind-run (attested_now h s files smoke) _ c₂ refl
          ∙ bind-run (write_result h s files smoke (failure_result c₂.deployment_attested)) _ c₂
              wrote in
        subst (λ (x : Deployment × Guard). HasFailed x.0) (sym ran)
          (record {
            no_attestation = still;
            no_smoke_receipt = no_receipt;
            result = failure_result c₂.deployment_attested;
            is_written = refl;
            unsuccessful = refl;
            incorrect = refl;
          })

    handled-HasFailed :
        (p : Deployment × Guard) {e : Deployment} {raised : Error}
        → handle p (λ _. true) (record_failure h s files smoke) ≡ (e, err raised)
        → HasFailed e
    handled-HasFailed (c, ok _) q = cc
    handled-HasFailed (c, err x) q =
        subst (λ (x : Deployment × Guard). HasFailed x.0) q (record_failure-HasFailed x c)

    -- If files of the evidence directory can be written and renamed, then a run that raises leaves
    -- no receipt of an attestation and none of a correct smoke run, whatever it had written before,
    -- and a result that says neither success nor correctness.
    pub run-HasFailed :
        (d : Deployment) {e : Deployment} {raised : Error}
        → run h s files smoke d ≡ (e, err raised)
        → HasFailed e
    unfolding run
    run-HasFailed d q = handled-HasFailed (run_to_result h s files smoke d) q
