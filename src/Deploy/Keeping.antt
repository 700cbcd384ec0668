-- ===== src/Deploy/Keeping.antt =====
-- What the docker commands leave as it is: the list of helpers, and what is in doubt.
use doris_ducklake.Deploy.Exec.{continue, pure, return, ◌>>=◌}
use doris_ducklake.Prelude.{
  Bool, Guard, List, Result, Text, err, false, if◌then◌else◌, ok, refl, true, ◌∙◌, ◌≡◌,
}
use doris_ducklake.Json.{Value}
use doris_ducklake.Deploy.Claim.{
  Call, Command, Deployment, Step, docker, inspect, inspect_command, owned, remove_command,
  remove_owned, stop_command, stop_owned,
}

-- What no docker command changes.
pub record Keeps (d d' : Deployment) : Type 0 where
  pub same_helpers : d'.helpers ≡ d.helpers
  pub same_helper_state : d'.unsafe_helper_state ≡ d.unsafe_helper_state
  pub same_fe_state : d'.unsafe_fe_state ≡ d.unsafe_fe_state

abbrev pub AllKeep {ℓ} : {A : Type ℓ} → Step A → Type 0
AllKeep m = (d : Deployment) → Keeps d (m d).0

pub Keeps-refl : (d : Deployment) → Keeps d d
Keeps-refl d = record { same_helpers = refl; same_helper_state = refl; same_fe_state = refl }

pub Keeps-trans : (d e f : Deployment) → Keeps d e → Keeps e f → Keeps d f
Keeps-trans d e f h k = record {
  same_helpers = k.same_helpers ∙ h.same_helpers;
  same_helper_state = k.same_helper_state ∙ h.same_helper_state;
  same_fe_state = k.same_fe_state ∙ h.same_fe_state;
}

continue-Keeps {ℓ κ} :
    {A : Type ℓ} {B : Type κ} (d : Deployment) (p : Deployment × Result A) (k : A → Step B)
    → Keeps d p.0
    → ((a : A) → AllKeep (k a))
    → Keeps d (continue p k).0
continue-Keeps d (e, err raised) k h rest = h
continue-Keeps d (e, ok a) k h rest = Keeps-trans d e (k a e).0 h (rest a e)

bind-AllKeep {ℓ κ} :
    {A : Type ℓ} {B : Type κ} (m : Step A) (k : A → Step B)
    → AllKeep m
    → ((a : A) → AllKeep (k a))
    → AllKeep (m >>= k)
unfolding ◌>>=◌
bind-AllKeep m k h rest d = continue-Keeps d (m d) k (h d) rest

pure-AllKeep {ℓ} : {A : Type ℓ} (r : Result A) → AllKeep (pure r)
unfolding pure
pure-AllKeep r d = Keeps-refl d

module _ (daemon : List Call → Command → Result Text) (loads : Text → Result Value)
    (save : List (Text × Text) → Guard) (token : Text) where
  docker-AllKeep : (c : Command) → AllKeep (docker daemon loads save token c)
  unfolding docker
  docker-AllKeep c =
      λ d. record { same_helpers = refl; same_helper_state = refl; same_fe_state = refl }

  owned-AllKeep : (c : Text) → AllKeep (owned daemon loads save token c)
  unfolding owned inspect
  owned-AllKeep c =
      bind-AllKeep _ _
        (bind-AllKeep _ _ (docker-AllKeep (inspect_command c))
          (λ output. bind-AllKeep _ _ (pure-AllKeep _) (λ v. pure-AllKeep _)))
        (λ instance.
          bind-AllKeep _ _ (pure-AllKeep _)
            (λ mine. bind-AllKeep _ _ (pure-AllKeep _) (λ _. pure-AllKeep (ok instance))))

  stop_owned-AllKeep : (c : Text) → AllKeep (stop_owned daemon loads save token c)
  unfolding stop_owned
  stop_owned-AllKeep c = bind-AllKeep _ _ (docker-AllKeep (stop_command c)) (λ _.
      bind-AllKeep _ _ (owned-AllKeep c)
        (λ instance. bind-AllKeep _ _ (pure-AllKeep _) (λ running. pure-AllKeep _)))

  stop_if-AllKeep :
      (running : Bool) (c : Text)
      → AllKeep (if running then stop_owned daemon loads save token c else return tt)
  stop_if-AllKeep true c = stop_owned-AllKeep c
  stop_if-AllKeep false c = pure-AllKeep (ok tt)

  pub remove_owned-AllKeep : (c : Text) → AllKeep (remove_owned daemon loads save token c)
  unfolding remove_owned
  remove_owned-AllKeep c = bind-AllKeep _ _ (owned-AllKeep c) (λ instance.
      bind-AllKeep _ _ (pure-AllKeep _) (λ running. bind-AllKeep _ _ (pure-AllKeep _) (λ identity.
        bind-AllKeep _ _ (stop_if-AllKeep running identity) (λ _.
          bind-AllKeep _ _ (docker-AllKeep (remove_command identity))
            (λ _. pure-AllKeep (ok tt))))))
