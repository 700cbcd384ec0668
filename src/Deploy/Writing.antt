-- ===== src/Deploy/Writing.antt =====
-- What is known of the frontend at the boundary where the volume is written.
use doris_ducklake.Deploy.Ran.{bind-ok, pure-ok}
use doris_ducklake.Prelude.{
  Guard, List, Option, Result, Text, [], ap, none, ok, require, require-eq-ok, some, subst, text,
  true, ◌∙◌, ◌≡◌,
}
use doris_ducklake.Json.{Value}
use doris_ducklake.Preflight.Target.{Target}
use doris_ducklake.Deploy.Inspect.{container_id}
use doris_ducklake.Deploy.Claim.{Call, Command, Deployment, Step, docker, event}
use doris_ducklake.Deploy.Frontend.{fe, stop_frontend_command}
use doris_ducklake.Deploy.Boundary.{
  has_identity, is_down, is_quiet, is_same_and_quiet, is_unchanged,
}
use doris_ducklake.Deploy.Stopping.{IsAbsent, IsFound, IsShown, fe-ok}
use doris_ducklake.Deploy.Exec.{pure, return, ◌>>=◌, ◌>>◌}

module _ (daemon : List Call → Command → Result Text) (loads : Text → Result Value)
    (save : List (Text × Text) → Guard) (token : Text) (digest : Value → Text) (compose : Text)
    (target : Target) where
  unfoldable pub assert_stopped : Option Text → Step (Unit {0})
  assert_stopped prior = do
    found ← fe daemon loads save token digest compose target
    down ← pure (is_down found)
    pure (require down "FE is not stopped at the plugin-write boundary")
    unchanged ← pure (is_unchanged prior found)
    pure (require unchanged "FE container changed at the plugin-write boundary")

  abbrev pub stop_instance : Value → Step (Unit {0})
  stop_instance instance = do
    identity ← pure (container_id instance)
    answered ← docker daemon loads save token (stop_frontend_command identity)
    again ← fe daemon loads save token digest compose target
    stopped ← pure (is_same_and_quiet identity again)
    pure (require stopped "FE stop was not confirmed")

  abbrev pub stop_if_there : Option Value → Step (Unit {0})
  stop_if_there none = return tt
  stop_if_there (some instance) = stop_instance instance

  unfoldable pub stop_fe : Option Text → Step (Unit {0})
  stop_fe prior = do
    found ← fe daemon loads save token digest compose target
    unchanged ← pure (is_unchanged prior found)
    pure (require unchanged "FE container changed before stop")
    stop_if_there found
    event daemon loads save token (text "fe-stopped") []

  -- The frontend that was there before is shown to be quiet, or there was none and is none.
  abbrev pub IsStopped : Option Text → List Call → Type 0
  IsStopped none calls = IsAbsent daemon loads save token digest compose target calls
  IsStopped (some prior) calls =
      (i : Value) × IsShown daemon loads save token digest compose target i calls
      × (has_identity prior i ≡ ok true)
      × (is_quiet i ≡ ok true)

  IsFound-IsStopped :
      (prior : Option Text) (o : Option Value) (calls : List Call)
      → IsFound daemon loads save token digest compose target o calls
      → is_down o ≡ ok true
      → is_unchanged prior o ≡ ok true
      → IsStopped prior calls
  IsFound-IsStopped none none calls found down same = found
  IsFound-IsStopped none (some i) calls found down same = cc
  IsFound-IsStopped (some prior) none calls found down same = cc
  IsFound-IsStopped (some prior) (some i) calls found down same = (i, found, same, down)

  -- When assert_stopped returns, the frontend that was there before is still the one in place and
  -- the last docker command showed that it neither runs nor restarts nor is paused; or there was
  -- none before, and by the target as it then is there still is none.
  pub assert_stopped-IsStopped :
      (prior : Option Text) (d e : Deployment)
      → assert_stopped prior d ≡ (e, ok tt)
      → IsStopped prior e.calls
  unfolding assert_stopped
  assert_stopped-IsStopped prior d e h =
      let (e₁, o, found, h₁) = bind-ok _ _ d h in
      let (e₂, down, is_d, h₂) = bind-ok _ _ e₁ h₁ in
      let (e₃, _, quiet, h₃) = bind-ok _ _ e₂ h₂ in
      let (e₄, unchanged, is_u, h₄) = bind-ok _ _ e₃ h₃ in
      let (same₁, down_is) = pure-ok (is_down o) e₁ is_d in
      let (same₂, holds) =
        pure-ok (require down "FE is not stopped at the plugin-write boundary") e₂ quiet in
      let (same₃, unchanged_is) = pure-ok (is_unchanged prior o) e₃ is_u in
      let (same₄, kept) =
        pure-ok (require unchanged "FE container changed at the plugin-write boundary") e₄ h₄ in
      subst (λ (x : Deployment). IsStopped prior x.calls) (same₁ ∙ same₂ ∙ same₃ ∙ same₄)
        (IsFound-IsStopped prior o e₁.calls
          (fe-ok daemon loads save token digest compose target d found)
          (down_is ∙ ap ok (require-eq-ok down _ holds))
          (unchanged_is ∙ ap ok (require-eq-ok unchanged _ kept)))
