-- ===== src/Deploy/Run/Success.antt =====
-- What a run has shown that returns.
use doris_ducklake.Deploy.Exec.{handle}
use doris_ducklake.Prelude.{
  Bool, Error, Guard, Result, Text, ap, arith, err, false, not, ok, ok_injective, refl, require,
  require-eq-ok, some, subst, sym, true, ◌||◌, ◌∙◌, ◌≡◌, ◌≢◌,
}
use doris_ducklake.Smoke.Ledger.{Receipt}
use doris_ducklake.Deploy.Ran.{bind-ok, pure-ok}
use doris_ducklake.Deploy.State.{Lifecycle, RunResult}
use doris_ducklake.Deploy.Claim.{Deployment}
use doris_ducklake.Deploy.Host.{Host, Settings, look_up, update}
use doris_ducklake.Deploy.Install.{Evidence}
use doris_ducklake.Deploy.Outcome.{completed_from, run_state, success_result}
use doris_ducklake.Deploy.Run.{
  Smoke, attested_now, check_correctness, completed, completed_now, is_full, record_failure, run,
  run_to_result, store_now, write_result,
}

module _ (h : Host) (s : Settings) (files : Evidence h.hash) (smoke : Smoke) where
  -- The files of the smoke run, as they stand, are verified as completed.
  abbrev pub IsVerified : Deployment → Type 0
  IsVerified e =
      (receipt : Receipt) × (completed_from (completed h s files smoke) s.token s.mode
          e.deployment_attested e.lifecycle
        ≡ ok receipt)

  pub record HasSucceeded (e : Deployment) : Type 0 where
    pub attested : e.deployment_attested ≡ true
    pub result : RunResult
    pub is_written : e.lifecycle.run_result ≡ some result
    pub succeeded : result.run_success ≡ true
    pub same_verdict : result.smoke_correctness_passed ≡ e.lifecycle.smoke_correctness_passed
    pub proved_if_full :
        is_full h s files smoke ≡ true
        → (smoke.has_command ≡ true) × (e.lifecycle.smoke_correctness_passed ≡ true) × IsVerified e

  failure-raises : (x : Error) (c e : Deployment) → record_failure h s files smoke x c ≢ (e, ok tt)
  unfolding record_failure
  failure-raises x c e q =
      let (c₁, _, _, q₁) = bind-ok _ _ c q in
      let (c₂, _, _, q₂) = bind-ok _ _ c₁ q₁ in
      let (c₃, _, _, q₃) = bind-ok _ _ c₂ q₂ in
      let (c₄, _, _, q₄) = bind-ok _ _ c₃ q₃ in
      let (c₅, _, _, q₅) = bind-ok _ _ c₄ q₄ in
      let (c₆, _, _, q₆) = bind-ok _ _ c₅ q₅ in
      let raised = (pure-ok {A = Unit {0}} (err x) c₆ q₆).1 in cc raised

  pub handled-ok :
      (p : Deployment × Guard) (e : Deployment)
      → handle p (λ _. true) (record_failure h s files smoke) ≡ (e, ok tt)
      → p ≡ (e, ok tt)
  handled-ok (c, ok tt) e q = q
  handled-ok (c, err x) e q = absurd (failure-raises x c e q)

  completed-ok :
      (c : Deployment) {d : Deployment} {receipt : Receipt}
      → completed_now h s files smoke c ≡ (d, ok receipt)
      → (c ≡ d) × IsVerified c
  unfolding completed_now
  completed-ok c {receipt = receipt} q = (ap (λ x. x.0) q, (receipt, ap (λ x. x.1) q))

  correctness-ok :
      (full : Bool) (c : Deployment) {d : Deployment} {u : Unit {0}}
      → check_correctness h s files smoke full c ≡ (d, ok u)
      → (c ≡ d) × (full ≡ true → (c.lifecycle.smoke_correctness_passed ≡ true) × IsVerified c)
  unfolding check_correctness look_up
  correctness-ok false c q = ((pure-ok (ok tt) c q).0, λ full. cc full)
  correctness-ok true c q =
      let (c₁, passed, looked, q₁) =
        bind-ok (look_up (λ (l : Lifecycle). l.smoke_correctness_passed)) _ c q in
      let (c₂, _, required, q₂) = bind-ok _ _ c₁ q₁ in
      let (c₃, receipt, read, q₃) = bind-ok _ _ c₂ q₂ in
      let (same₂, holds) =
        pure-ok (require passed "Full smoke correctness proof was not completed") c₁ required in
      let same₁ = ap (λ (x : Deployment × Result Bool). x.0) looked in
      let is_p = ok_injective (ap (λ (x : Deployment × Result Bool). x.1) looked) in
      let (same₃, verified) = completed-ok c₂ read in
      (
        same₁ ∙ same₂ ∙ same₃ ∙ (pure-ok (ok tt) c₃ q₃).0,
        λ full.
            (is_p ∙ require-eq-ok passed _ holds, subst IsVerified (sym (same₁ ∙ same₂)) verified),
      )

  stored-same :
      (name : Text) (c : Deployment) {d : Deployment} {u : Unit {0}}
      → store_now h s files smoke name c ≡ (d, ok u)
      → c ≡ d
  unfolding store_now
  stored-same name c q = ap (λ x. x.0) q

  abbrev with_result : RunResult → Deployment → Deployment
  with_result r c = record c { lifecycle = record c.lifecycle { run_result = some r } }

  written-ok :
      (r : RunResult) (c : Deployment) {e : Deployment} {u : Unit {0}}
      → write_result h s files smoke r c ≡ (e, ok u)
      → with_result r c ≡ e
  unfolding write_result update
  written-ok r c q =
      let (c₁, _, stored, q₁) = bind-ok _ _ c q in
      ap (with_result r) (stored-same _ c stored) ∙ ap (λ (x : Deployment × Guard). x.0) q₁

  -- The result itself is not read by `verify_completed`.
  still-IsVerified : (r : RunResult) (c : Deployment) → IsVerified c → IsVerified (with_result r c)
  unfolding completed_from run_state
  still-IsVerified r c v = v

  attested-ok :
      (c : Deployment) {d : Deployment} {b : Bool}
      → attested_now h s files smoke c ≡ (d, ok b)
      → (c ≡ d) × (c.deployment_attested ≡ b)
  attested-ok c q = (ap (λ x. x.0) q, ok_injective (ap (λ x. x.1) q))

  succeeded :
      (c : Deployment) (passed : Bool)
      → c.deployment_attested ≡ true
      → c.lifecycle.smoke_correctness_passed ≡ passed
      → (not (is_full h s files smoke) || smoke.has_command) ≡ true
      → (is_full h s files smoke ≡ true
          → (c.lifecycle.smoke_correctness_passed ≡ true) × IsVerified c)
      → HasSucceeded (with_result (success_result smoke.has_command passed) c)
  succeeded c passed attested is_p allowed proved = record {
    attested = attested;
    result = success_result smoke.has_command passed;
    is_written = refl;
    succeeded = refl;
    same_verdict = sym is_p;
    proved_if_full = λ full.
        let (correct, verified) = proved full in
        (
          ground arith,
          correct,
          still-IsVerified (success_result smoke.has_command passed) c verified,
        );
  }

  run_to_result-ok :
      (d : Deployment) {e : Deployment} {u : Unit {0}}
      → run_to_result h s files smoke d ≡ (e, ok u)
      → HasSucceeded e
  unfolding run_to_result look_up
  run_to_result-ok d q =
      let (d₁, _, allowed, q₁) = bind-ok _ _ d q in
      let (d₂, _, _, q₂) = bind-ok _ _ d₁ q₁ in
      let (d₃, attested, read, q₃) = bind-ok _ _ d₂ q₂ in
      let (d₄, _, required, q₄) = bind-ok _ _ d₃ q₃ in
      let (d₅, _, checked, q₅) = bind-ok _ _ d₄ q₄ in
      let (d₆, passed, looked, q₆) =
        bind-ok (look_up (λ (l : Lifecycle). l.smoke_correctness_passed)) _ d₅ q₅ in
      let may =
        require-eq-ok (not (is_full h s files smoke) || smoke.has_command) _
          (pure-ok _ d allowed).1 in
      let (same₃, is_a) = attested-ok d₂ read in
      let (same₄, holds) =
        pure-ok (require attested "Deployment attestation was not completed") d₃ required in
      let (same₅, proved) = correctness-ok (is_full h s files smoke) d₄ checked in
      let same₆ = ap (λ (x : Deployment × Result Bool). x.0) looked in
      let is_p = ok_injective (ap (λ (x : Deployment × Result Bool). x.1) looked) in
      let is_attested : d₄.deployment_attested ≡ true =
        ap (λ (x : Deployment). x.deployment_attested) (sym (same₃ ∙ same₄))
        ∙ is_a
        ∙ require-eq-ok attested _ holds in
      subst HasSucceeded (written-ok (success_result smoke.has_command passed) d₆ q₆) (
        subst
          (λ (x : Deployment).
            HasSucceeded (with_result (success_result smoke.has_command passed) x))
          (same₅ ∙ same₆)
          (succeeded d₄ passed is_attested
            (ap (λ (x : Deployment). x.lifecycle.smoke_correctness_passed) same₅ ∙ is_p) may
            proved))

  -- A run that returns has left the deployment attested and a successful result, whose verdict on
  -- the smoke run is the one that was kept; in the full mode there was a smoke command, its checks
  -- are marked correct, and the ledger and the receipt that stand in the evidence directory are
  -- verified as completed for the state that the run has left.
  pub run-HasSucceeded :
      (d : Deployment) {e : Deployment} → run h s files smoke d ≡ (e, ok tt) → HasSucceeded e
  unfolding run
  run-HasSucceeded d {e} q = run_to_result-ok d (handled-ok (run_to_result h s files smoke d) e q)
