-- ===== src/Deploy/Stopping.antt =====
-- After a failure the frontend is down, or the deployment says that it may not be.
use doris_ducklake.Deploy.Exec.{handle, modify, return, ◌>>=◌}
use doris_ducklake.Deploy.Ran.{bind-ok, gets-ok, pure-ok}
use doris_ducklake.Prelude.{
  Bool, Bool-cases, Guard, List, Option, Result, Text, [], ap, arith, err, false, if◌then◌else◌,
  inl, inr, none, not, ok, ok_injective, refl, require, require-eq-ok, some, subst, sym, true, ◌∙◌,
  ◌∷◌, ◌≡◌, ◌⊎◌,
}
use doris_ducklake.Json.{Value}
use doris_ducklake.Preflight.Target.{Target}
use doris_ducklake.Deploy.Inspect.{first_item, is_running}
use doris_ducklake.Deploy.Claim.{
  Call, Command, Deployment, docker, event, inspect, inspect_command, is_operational,
}
use doris_ducklake.Deploy.Frontend.{
  compare_target, current_target, doubt_frontend, fail_closed, fe, has_nothing_to_close,
  keep_stopped, revalidate, running_of, some_instance, stop_found,
}

module _ (daemon : List Call → Command → Result Text) (loads : Text → Result Value)
    (save : List (Text × Text) → Guard) (token : Text) (digest : Value → Text) (compose : Text)
    (target : Target) where
  -- The newest docker command asked for the frontend, and it answered with this instance.
  pub record IsShown (instance : Value) (calls : List Call) : Type 0 where
    pub output : Text
    pub value : Value
    pub earlier : List Call
    pub newest : calls ≡ (inspect_command target.spec.container, ok output) ∷ earlier
    pub decoded : loads output ≡ ok value
    pub is_described : first_item value ≡ ok instance

  -- By the target as it now is, there is no frontend.
  pub record IsAbsent (calls : List Call) : Type 0 where
    pub current : Target
    pub is_current : current_target daemon loads save token digest compose target calls ≡ ok current
    pub absent : current.fe_present ≡ false

  abbrev pub IsFound : Option Value → List Call → Type 0
  IsFound none calls = IsAbsent calls
  IsFound (some instance) calls = IsShown instance calls

  docker-ok :
      (c : Command) (d : Deployment) {e : Deployment} {output : Text}
      → docker daemon loads save token c d ≡ (e, ok output)
      → e.calls ≡ (c, ok output) ∷ d.calls
  unfolding docker
  docker-ok c d h =
      let answered = ap (λ (x : Deployment × Result Text). x.1) h in
      sym (ap (λ (x : Deployment × Result Text). x.0.calls) h) ∙ ap (λ r. (c, r) ∷ d.calls) answered

  inspect-ok :
      (d : Deployment) {e : Deployment} {i : Value}
      → inspect daemon loads save token target.spec.container d ≡ (e, ok i)
      → IsShown i e.calls
  unfolding inspect
  inspect-ok d h =
      let (e₁, output, asked, h₁) = bind-ok _ _ d h in
      let (e₂, value, decoded, h₂) = bind-ok _ _ e₁ h₁ in
      let (same₁, is_value) = pure-ok (loads output) e₁ decoded in
      let (same₂, is_i) = pure-ok (first_item value) e₂ h₂ in
      record {
        output = output;
        value = value;
        earlier = d.calls;
        newest =
            sym (ap (λ (x : Deployment). x.calls) (same₁ ∙ same₂))
            ∙ docker-ok (inspect_command target.spec.container) d asked;
        decoded = is_value;
        is_described = is_i;
      }

  compare_target-ok :
      (t : Target) (d : Deployment) {e : Deployment} {u : Unit {0}}
      → compare_target daemon loads save token digest compose target t d ≡ (e, ok u)
      → d ≡ e
  unfolding compare_target
  compare_target-ok t d h =
      let (e₁, _, first, h₁) = bind-ok _ _ d h in (pure-ok _ d first).0 ∙ (pure-ok _ e₁ h₁).0

  revalidate-ok :
      (d : Deployment) {e : Deployment} {t : Target}
      → revalidate daemon loads save token digest compose target d ≡ (e, ok t)
      → (d ≡ e) × (current_target daemon loads save token digest compose target d.calls ≡ ok t)
  unfolding revalidate
  revalidate-ok d h =
      let (e₁, calls, got, h₁) = bind-ok _ _ d h in
      let (e₂, t, read, h₂) = bind-ok _ _ e₁ h₁ in
      let (e₃, _, compared, h₃) = bind-ok _ _ e₂ h₂ in
      let (same₁, are_calls) = gets-ok (λ (x : Deployment). x.calls) d got in
      let (same₂, is_t) = pure-ok _ e₁ read in
      let (same₄, returned) = pure-ok (ok t) e₃ h₃ in
      (
        same₁ ∙ same₂ ∙ compare_target-ok t e₂ compared ∙ same₄,
        ap (current_target daemon loads save token digest compose target) are_calls
            ∙ is_t
            ∙ returned,
      )

  fe_from-ok :
      (present : Bool) (t : Target) (d : Deployment) {e : Deployment} {o : Option Value}
      → t.fe_present ≡ present
      → current_target daemon loads save token digest compose target d.calls ≡ ok t
      → (if present
            then some_instance daemon loads save token digest compose target target.spec.container
            else return none)
          d
        ≡ (e, ok o)
      → IsFound o e.calls
  fe_from-ok false t d {e} is_present is_t h =
      let (same, returned) = pure-ok (ok none) d h in
      subst (λ (x : Option Value). IsFound x e.calls) (ok_injective returned)
        (subst (λ (x : Deployment). IsAbsent x.calls) same
          (record { current = t; is_current = is_t; absent = is_present }))
  fe_from-ok true t d {e} is_present is_t h =
      let (e₁, i, shown, h₁) = bind-ok _ _ d h in
      let (same, returned) = pure-ok (ok (some i)) e₁ h₁ in
      subst (λ (x : Option Value). IsFound x e.calls) (ok_injective returned)
        (subst (λ (x : Deployment). IsShown i x.calls) same (inspect-ok d shown))

  pub fe-ok :
      (d : Deployment) {e : Deployment} {o : Option Value}
      → fe daemon loads save token digest compose target d ≡ (e, ok o)
      → IsFound o e.calls
  unfolding fe
  fe-ok d h =
      let (e₁, t, read, h₁) = bind-ok _ _ d h in
      let (same, is_t) = revalidate-ok d read in
      fe_from-ok t.fe_present t e₁ refl
        (ap
            (λ (x : Deployment).
              current_target daemon loads save token digest compose target x.calls)
            (sym same)
          ∙ is_t)
        h₁

  -- No frontend, or one that does not run, by what was asked last.
  abbrev pub IsDown : List Call → Type 0
  IsDown calls = IsAbsent calls ⊎ ((i : Value) × IsShown i calls × (is_running i ≡ ok false))

  IsFound-IsDown :
      (o : Option Value) (calls : List Call) (running : Bool)
      → IsFound o calls
      → running_of daemon loads save token digest compose target o ≡ ok running
      → not running ≡ true
      → IsDown calls
  IsFound-IsDown none calls running found is_r stopped = cc
  IsFound-IsDown (some i) calls true found is_r stopped = cc
  IsFound-IsDown (some i) calls false found is_r stopped = inr (i, found, is_r)

  stop_found-ok :
      (o : Option Value) (d : Deployment) {e : Deployment} {u : Unit {0}}
      → IsFound o d.calls
      → stop_found daemon loads save token digest compose target o d ≡ (e, ok u)
      → IsDown e.calls
  unfolding stop_found
  stop_found-ok none d found h =
      subst (λ (x : Deployment). IsDown x.calls) (pure-ok (ok tt) d h).0 (inl found)
  stop_found-ok (some i) d found h =
      let (e₁, identity, _, h₁) = bind-ok _ _ d h in
      let (e₂, _, _, h₂) = bind-ok _ _ e₁ h₁ in
      let (e₃, again, shown, h₃) = bind-ok _ _ e₂ h₂ in
      let (e₄, running, read, h₄) = bind-ok _ _ e₃ h₃ in
      let (same₁, is_r) =
        pure-ok (running_of daemon loads save token digest compose target again) e₃ read in
      let (same₂, passed) =
        pure-ok (require (not running) "FE remains running after deployment failure") e₄ h₄ in
      subst (λ (x : Deployment). IsDown x.calls) (same₁ ∙ same₂)
        (IsFound-IsDown again e₃.calls running (fe-ok e₂ shown) is_r
          (require-eq-ok (not running) _ passed))

  event-ok :
      (name detail : Text) (d : Deployment) {e : Deployment} {u : Unit {0}}
      → event daemon loads save token name detail d ≡ (e, ok u)
      → d.calls ≡ e.calls
  unfolding event
  event-ok name detail d h = ap (λ (x : Deployment × Guard). x.0.calls) h

  keep_stopped-ok :
      (d : Deployment) {e : Deployment} {u : Unit {0}}
      → keep_stopped daemon loads save token digest compose target d ≡ (e, ok u)
      → IsDown e.calls
  unfolding keep_stopped
  keep_stopped-ok d h =
      let (e₁, o, found, h₁) = bind-ok _ _ d h in
      let (e₂, _, stopped, h₂) = bind-ok _ _ e₁ h₁ in
      subst IsDown (event-ok _ [] e₂ h₂) (stop_found-ok o e₁ (fe-ok d found) stopped)

  doubted :
      (d : Deployment)
      → (doubt_frontend daemon loads save token digest compose target d).0.unsafe_fe_state ≡ true
  unfolding doubt_frontend ◌>>=◌ modify event
  doubted d = refl

  handled-IsDown :
      (p : Deployment × Guard)
      → ((e : Deployment) → p ≡ (e, ok tt) → IsDown e.calls)
      → (handle p is_operational
          (λ _. doubt_frontend daemon loads save token digest compose target)).1
        ≡ ok tt
      → ((handle p is_operational
            (λ _. doubt_frontend daemon loads save token digest compose target)).0.unsafe_fe_state
          ≡ true)
        ⊎ IsDown
            (handle p is_operational
              (λ _. doubt_frontend daemon loads save token digest compose target)).0.calls
  handled-IsDown (e, ok tt) rule fine = inr (rule e refl)
  handled-IsDown (e, err raised) rule fine = elim (Bool-cases (is_operational raised)) [
    | inl caught ↦ inl (rw caught (doubted e))
    | inr missed ↦ cc (missed, fine)
  ]

  must_close :
      (d : Deployment)
      → d.install_boundary ≡ true
      → d.deployment_attested ≡ false
      → has_nothing_to_close d ≡ false
  unfolding has_nothing_to_close
  must_close d begun unattested = ground arith

  -- When fail_closed returns after the installation has begun and before the deployment is
  -- attested, the frontend's state is marked unsafe, or the last docker command showed that the
  -- frontend does not run, or by the target as it then is there is none.
  pub fail_closed-IsDown :
      (d : Deployment)
      → d.install_boundary ≡ true
      → d.deployment_attested ≡ false
      → (fail_closed daemon loads save token digest compose target d).1 ≡ ok tt
      → ((fail_closed daemon loads save token digest compose target d).0.unsafe_fe_state ≡ true)
        ⊎ IsDown (fail_closed daemon loads save token digest compose target d).0.calls
  unfolding fail_closed
  fail_closed-IsDown d begun unattested = rw (must_close d begun unattested) (
      handled-IsDown (keep_stopped daemon loads save token digest compose target d)
        (λ e h. keep_stopped-ok d h))
