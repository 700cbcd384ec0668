-- ===== src/Deploy/Run/Installed.antt =====
-- The installation of a run, at the boundary where the frontend is down, and the start after it.
use doris_ducklake.Deploy.Run.Reaching.{assert_stopped-AllRun, reach_volume-AllGrow}
use doris_ducklake.Deploy.Growing.{HasGrown, HasGrown-after}
use doris_ducklake.Prelude.{Option, ap, none, ok, some, subst, sym, text, ◌∙◌, ◌≡◌}
use doris_ducklake.Json.{Value}
use doris_ducklake.Deploy.Ran.{bind-ok, pure-ok}
use doris_ducklake.Deploy.Claim.{Deployment, Job}
use doris_ducklake.Deploy.State.{Lifecycle}
use doris_ducklake.Deploy.Readiness.{not_running}
use doris_ducklake.Deploy.Host.{Host, Settings, frontend_now, note, prior_identity, work}
use doris_ducklake.Deploy.Later.{
  AllRun-AllLater, IsLater, IsLater-after, IsLater-trans, laters, look_up-ok, poll-AllRun,
}
use doris_ducklake.Deploy.Running.{AllRun, steps}
use doris_ducklake.Deploy.Working.{work-AllRun}
use doris_ducklake.Deploy.Writing.{IsStopped, assert_stopped, assert_stopped-IsStopped}
use doris_ducklake.Deploy.Install.{install, install_job, reach_volume, require_stopped}
use doris_ducklake.Deploy.Startup.{launch, start, wait_ready}
use doris_ducklake.Deploy.Startup.Steps.{fe-AllRun, wait_round-AllRun}
use doris_ducklake.Deploy.Startup.Fresh.{IsReady, wait_ready-IsReady}
use doris_ducklake.Attest.Provider.{verify_job}

module _ (h : Host) (s : Settings) where
  -- The frontend that was there before is shown to be quiet, or there was none and is none.
  abbrev pub IsAtBoundary : Deployment → Type 0
  IsAtBoundary e =
      IsStopped h.daemon h.loads h.save s.token h.digest s.compose s.target
        (prior_identity e.lifecycle.prior) e.calls

  require_stopped-ok :
      (d : Deployment) {e : Deployment} → require_stopped h s d ≡ (e, ok tt) → IsAtBoundary e
  unfolding require_stopped
  require_stopped-ok d {e} p =
      let (c, prior, looked, q) = bind-ok _ _ d p in
      let (same, is_prior) = look_up-ok (λ (l : Lifecycle). l.prior) d looked in
      let later =
        IsLater-after
          (assert_stopped h.daemon h.loads h.save s.token h.digest s.compose s.target
            (prior_identity prior))
          c q
          (AllRun-AllLater {h = h} {s = s}
            (assert_stopped h.daemon h.loads h.save s.token h.digest s.compose s.target
              (prior_identity prior))
            (assert_stopped-AllRun h s (prior_identity prior))) in
      let kept : prior ≡ e.lifecycle.prior =
        sym (later.same_prior ∙ ap (λ (x : Deployment). x.lifecycle.prior) (sym same) ∙ is_prior) in
      subst
        (λ o.
          IsStopped h.daemon h.loads h.save s.token h.digest s.compose s.target (prior_identity o)
            e.calls)
        kept
        (assert_stopped-IsStopped h.daemon h.loads h.save s.token h.digest s.compose s.target
          (prior_identity prior) c e q)

  reach_volume-IsAtBoundary :
      (d : Deployment) {e : Deployment} → reach_volume h s d ≡ (e, ok tt) → IsAtBoundary e
  unfolding reach_volume
  reach_volume-IsAtBoundary d p =
      let (d₁, _, _, p₁) = bind-ok _ _ d p in
      let (d₂, _, _, p₂) = bind-ok _ _ d₁ p₁ in
      let (d₃, _, _, p₃) = bind-ok _ _ d₂ p₂ in
      let (d₄, _, _, p₄) = bind-ok _ _ d₃ p₃ in
      let (d₅, _, _, p₅) = bind-ok _ _ d₄ p₄ in
      let (d₆, _, _, p₆) = bind-ok _ _ d₅ p₅ in require_stopped-ok d₆ p₆

  worked : (job : Job) (d : Deployment) {e : Deployment} → work h s job d ≡ (e, ok tt) → IsLater d e
  worked job d p =
      IsLater-after (work h s job) d p
        (AllRun-AllLater {h = h} {s = s} (work h s job) (work-AllRun job))

  -- The helper that writes to the volume starts at the boundary, and it and the one that compares
  -- the volume with the bundle have both succeeded.
  pub record IsInstalled (d e : Deployment) : Type 0 where
    pub boundary : Deployment
    pub written : Deployment
    pub verified : Deployment
    pub reached : HasGrown d boundary
    pub at_boundary : IsAtBoundary boundary
    pub writes : work h s install_job boundary ≡ (written, ok tt)
    pub verifies : work h s verify_job written ≡ (verified, ok tt)
    pub since_boundary : IsLater boundary e

  pub install-IsInstalled :
      (d : Deployment) {e : Deployment} → install h s d ≡ (e, ok tt) → IsInstalled d e
  unfolding install
  install-IsInstalled d {e} p =
      let (b, _, at_volume, p₁) = bind-ok (reach_volume h s) _ d p in
      let (w, _, writes, p₂) = bind-ok (work h s install_job) _ b p₁ in
      let (v, _, verifies, p₃) = bind-ok (work h s verify_job) _ w p₂ in
      record {
        boundary = b;
        written = w;
        verified = v;
        reached = HasGrown-after (reach_volume h s) d at_volume (reach_volume-AllGrow h s);
        at_boundary = reach_volume-IsAtBoundary d at_volume;
        writes = writes;
        verifies = verifies;
        since_boundary = IsLater-trans b w e (worked install_job b writes) (
            IsLater-trans w v e (worked verify_job w verifies)
              (IsLater-after (note h s _) v p₃ (search laters)));
      }

  launch-AllRun : (o : Option Value) → AllRun h s (launch h s o)
  unfolding launch
  launch-AllRun none = search steps
  launch-AllRun (some i) = search steps

  wait_ready-AllRun : AllRun h s (wait_ready h s)
  unfolding wait_ready
  wait_ready-AllRun = search (steps, poll-AllRun, wait_round-AllRun)

  -- When the wait begins that ends with a frontend that is ready.
  pub start-ok :
      (d : Deployment) {e : Deployment}
      → start h s d ≡ (e, ok (some tt))
      → (c : Deployment) × IsLater d c × IsLater c e × IsReady h s c e
  unfolding start
  start-ok d {e} p =
      let (d₁, o, found, p₁) = bind-ok _ _ d p in
      let (d₂, stopped, is_s, p₂) = bind-ok _ _ d₁ p₁ in
      let (d₃, _, passed, p₃) = bind-ok _ _ d₂ p₂ in
      let (d₄, out, launched, p₄) = bind-ok _ _ d₃ p₃ in
      let (d₅, _, told, p₅) = bind-ok _ _ d₄ p₄ in
      let same = (pure-ok (not_running o) d₁ is_s).0 ∙ (pure-ok _ d₂ passed).0 in
      let looked =
        IsLater-after (frontend_now h s) d found
          (AllRun-AllLater {h = h} {s = s} (frontend_now h s) fe-AllRun) in
      let went =
        IsLater-after (launch h s o) d₃ launched
          (AllRun-AllLater {h = h} {s = s} (launch h s o) (launch-AllRun o)) in
      let is_noted = IsLater-after (note h s (text "fe-start-requested")) d₄ told (search laters) in
      (
        d₅,
        IsLater-trans d d₁ d₅ looked
            (subst (λ x. IsLater x d₅) (sym same) (IsLater-trans d₃ d₄ d₅ went is_noted)),
        IsLater-after (wait_ready h s) d₅ p₅
            (AllRun-AllLater {h = h} {s = s} (wait_ready h s) wait_ready-AllRun),
        wait_ready-IsReady h s d₅ e p₅,
      )
