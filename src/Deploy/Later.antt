-- ===== src/Deploy/Later.antt =====
-- What is later in the same deployment, and the steps and loops that only lead on.
use doris_ducklake.Deploy.Exec.{continue, pure, ◌>>=◌}
use doris_ducklake.Deploy.Ran.{bind-ok, pure-ok}
use doris_ducklake.Deploy.Claim.{Call, Command, Deployment, Step, docker, event}
use doris_ducklake.Json.{Value}
use doris_ducklake.Deploy.State.{Attestation, Gate, Images, Lifecycle, Sources}
use doris_ducklake.Deploy.Host.{
  Host, Settings, check_deadline, look_up, or_again, pause, poll, set_gate, sleep_command, update,
}
use doris_ducklake.Deploy.Running.{
  AllRun, Runs, asked, bind-AllRun, configured, gated, helped, here, noted, paused, readied, steps,
}
use doris_ducklake.Prelude.{
  Dict, Error, Guard, List, Option, Option-cases, Result, Text, [], ap, append_assoc, err, inl, inr,
  none, ok, ok_injective, refl, some, subst, suc, sym, true, zero, ℕ, ◌++◌, ◌∙◌, ◌∷◌, ◌≡◌,
}

-- Later in the same deployment: the owned frontend, the selected image and the past are the same.
pub record IsLater (d e : Deployment) : Type 0 where
  pub same_prior : e.lifecycle.prior ≡ d.lifecycle.prior
  pub same_image : e.lifecycle.fe_image ≡ d.lifecycle.fe_image
  pub since : List Call
  pub grown : e.calls ≡ since ++ d.calls

pub IsLater-refl : (d : Deployment) → IsLater d d
IsLater-refl d = record { same_prior = refl; same_image = refl; since = []; grown = refl }

pub IsLater-trans : (d e f : Deployment) → IsLater d e → IsLater e f → IsLater d f
IsLater-trans d e f p q = record {
  same_prior = q.same_prior ∙ p.same_prior;
  same_image = q.same_image ∙ p.same_image;
  since = q.since ++ p.since;
  grown = q.grown ∙ ap (λ cs. q.since ++ cs) p.grown ∙ sym (append_assoc q.since p.since d.calls);
}

-- What a step that runs no command keeps.
pub no_call :
    {d e f : Deployment}
    → IsLater d e
    → f.lifecycle.prior ≡ e.lifecycle.prior
    → f.lifecycle.fe_image ≡ e.lifecycle.fe_image
    → f.calls ≡ e.calls
    → IsLater d f
no_call p same₁ same₂ same₃ = record {
  same_prior = same₁ ∙ p.same_prior;
  same_image = same₂ ∙ p.same_image;
  since = p.since;
  grown = same₃ ∙ p.grown;
}

-- What a command keeps.
one_call :
    {d e f : Deployment} (c : Call)
    → IsLater d e
    → f.lifecycle ≡ e.lifecycle
    → f.calls ≡ c ∷ e.calls
    → IsLater d f
one_call c p same longer = record {
  same_prior = ap (λ (l : Lifecycle). l.prior) same ∙ p.same_prior;
  same_image = ap (λ (l : Lifecycle). l.fe_image) same ∙ p.same_image;
  since = c ∷ p.since;
  grown = longer ∙ ap (λ cs. c ∷ cs) p.grown;
}

pub Runs-IsLater : {h : Host} {s : Settings} {d e : Deployment} → Runs h s d e → IsLater d e
unfolding docker event update pause
Runs-IsLater {d = d} here = IsLater-refl d
Runs-IsLater {h = h} (asked {e} r c) = one_call (c, h.daemon e.calls c) (Runs-IsLater r) refl refl
Runs-IsLater (noted {e} r n t) = no_call (Runs-IsLater r) refl refl refl
Runs-IsLater (paused {e} r) = one_call (sleep_command, ok []) (Runs-IsLater r) refl refl
Runs-IsLater (configured r c) = no_call (Runs-IsLater r) refl refl refl
Runs-IsLater (readied r q) = no_call (Runs-IsLater r) refl refl refl
Runs-IsLater (gated r n g) = no_call (Runs-IsLater r) refl refl refl
Runs-IsLater (helped r hs) = no_call (Runs-IsLater r) refl refl refl

-- Every run of the step leads on.
abbrev pub AllLater {ℓ} : {A : Type ℓ} → Step A → Type 0
AllLater m = (d : Deployment) → IsLater d (m d).0

continue-IsLater {ℓ κ} :
    {A : Type ℓ} {B : Type κ} (d : Deployment) (p : Deployment × Result A) (k : A → Step B)
    → IsLater d p.0
    → ((a : A) → AllLater (k a))
    → IsLater d (continue p k).0
continue-IsLater d (e, err raised) k first rest = first
continue-IsLater d (e, ok a) k first rest = IsLater-trans d e (k a e).0 first (rest a e)

pub bind-AllLater {ℓ κ} :
    {A : Type ℓ} {B : Type κ} (m : Step A) (k : A → Step B)
    → AllLater m
    → ((a : A) → AllLater (k a))
    → AllLater (m >>= k)
unfolding ◌>>=◌
bind-AllLater m k first rest d = continue-IsLater d (m d) k (first d) rest

pub pure-AllLater {ℓ} : {A : Type ℓ} (r : Result A) → AllLater (pure r)
unfolding pure
pure-AllLater r d = IsLater-refl d

pub calls-AllLater : AllLater (λ d. (d, ok d.calls))
calls-AllLater d = IsLater-refl d

pub look_up-AllLater {ℓ} : {A : Type ℓ} (f : Lifecycle → A) → AllLater (look_up f)
unfolding look_up
look_up-AllLater f d = IsLater-refl d

pub AllRun-AllLater {ℓ} :
    {h : Host} {s : Settings} {A : Type ℓ} (m : Step A) → AllRun h s m → AllLater m
AllRun-AllLater m runs d = Runs-IsLater (runs d)

-- The state after a step that returned.
pub IsLater-after {ℓ} :
    {A : Type ℓ} (m : Step A) (d : Deployment) {e : Deployment} {a : A}
    → m d ≡ (e, ok a)
    → AllLater m
    → IsLater d e
IsLater-after {A} m d p leads = subst (λ (x : Deployment × Result A). IsLater d x.0) p (leads d)

pub update-ok :
    (f : Lifecycle → Lifecycle) (d : Deployment) {e : Deployment} {u : Unit {0}}
    → update f d ≡ (e, ok u)
    → e.lifecycle ≡ f d.lifecycle
unfolding update
update-ok f d p = ap (λ (x : Deployment × Guard). x.0.lifecycle) (sym p)

pub look_up-ok {ℓ} :
    {A : Type ℓ} (f : Lifecycle → A) (d : Deployment) {e : Deployment} {a : A}
    → look_up f d ≡ (e, ok a)
    → (d ≡ e) × (f d.lifecycle ≡ a)
unfolding look_up
look_up-ok f d p = (ap (λ x. x.0) p, ok_injective (ap (λ x. x.1) p))

pub event-AllLater :
    (daemon : List Call → Command → Result Text) (loads : Text → Result Value)
    (save : List (Text × Text) → Guard) (token n m : Text)
    → AllLater (event daemon loads save token n m)
unfolding event
event-AllLater daemon loads save token n m d = no_call (IsLater-refl d) refl refl refl

pub sources-set-AllLater :
    (x : Sources) → AllLater (update (λ (l : Lifecycle). record l { runtime_sources = some x }))
unfolding update
sources-set-AllLater x d = no_call (IsLater-refl d) refl refl refl

pub rows-set-AllLater :
    (x : List (Dict Text))
    → AllLater (update (λ (l : Lifecycle). record l { provider_inventory = x }))
unfolding update
rows-set-AllLater x d = no_call (IsLater-refl d) refl refl refl

pub images-set-AllLater :
    (x : Images) → AllLater (update (λ (l : Lifecycle). record l { runtime_images = some x }))
unfolding update
images-set-AllLater x d = no_call (IsLater-refl d) refl refl refl

pub receipt-set-AllLater :
    (x : Attestation) → AllLater (update (λ (l : Lifecycle). record l { attestation = some x }))
unfolding update
receipt-set-AllLater x d = no_call (IsLater-refl d) refl refl refl

pub no_gates-AllLater : AllLater (update (λ (l : Lifecycle). record l { gates = [] }))
unfolding update
no_gates-AllLater d = no_call (IsLater-refl d) refl refl refl

pub complete-set-AllLater :
    AllLater (update (λ (l : Lifecycle). record l { lifecycle_complete = true }))
unfolding update
complete-set-AllLater d = no_call (IsLater-refl d) refl refl refl

pub gate-set-AllLater : (n : Text) (g : Gate) → AllLater (update (set_gate n g))
unfolding update
gate-set-AllLater n g d = no_call (IsLater-refl d) refl refl refl

module _ (h : Host) (s : Settings) where
  deadline-AllRun : (late : Error) (deadline : ℕ) → AllRun h s (check_deadline h s late deadline)
  unfolding check_deadline
  deadline-AllRun late deadline = search steps

  or_again-AllRun :
      {A : Type 0} (o : Option A) (again : Step (Option A))
      → AllRun h s again
      → AllRun h s (or_again o again)
  or_again-AllRun none again runs = runs
  or_again-AllRun (some a) again runs = search steps

  pub poll-AllRun :
      {A : Type 0} (late : Error) (round : Step (Option A))
      → AllRun h s round
      → (fuel deadline : ℕ) → AllRun h s (poll h s late round fuel deadline)
  unfolding poll
  poll-AllRun late round runs zero deadline = search steps
  poll-AllRun late round runs (suc fuel) deadline = bind-AllRun round _ runs (λ found.
      or_again-AllRun found _ (
        bind-AllRun (check_deadline h s late deadline) _ (deadline-AllRun late deadline)
          (λ _. poll-AllRun late round runs fuel deadline)))

  -- The round that ended a loop which found something, and the state in which it began.
  pub poll-found :
      {A : Type 0} (late : Error) (round : Step (Option A))
      → AllLater round
      → (fuel deadline : ℕ) (d : Deployment) {e : Deployment} {a : A}
      → poll h s late round fuel deadline d ≡ (e, ok (some a))
      → (c : Deployment) × IsLater d c × (round c ≡ (e, ok (some a)))
  unfolding poll
  poll-found late round leads zero deadline d p = cc (pure-ok (ok none) d p).1
  poll-found late round leads (suc fuel) deadline d {e} p =
      let (d₁, found, went, p₁) = bind-ok round _ d p in
      elim (Option-cases found) [
        | inr (b, is_found) ↦
            let (same, is_a) = pure-ok (ok (some b)) d₁ (rw is_found at p₁) in
            (
              d,
              IsLater-refl d,
              went
                  ∙ ap (λ o. (d₁, ok o)) is_found
                  ∙ ap (λ x. (x, ok (some b))) same
                  ∙ ap (λ r. (e, r)) is_a,
            )
        | inl not_found ↦
            let (d₂, _, passed, p₂) =
              bind-ok (check_deadline h s late deadline) (λ _. poll h s late round fuel deadline) d₁
                (rw not_found at p₁) in
            let (c, from, ended) = poll-found late round leads fuel deadline d₂ p₂ in
            let slept = IsLater-after (check_deadline h s late deadline) d₁ passed (
              AllRun-AllLater {h = h} {s = s} (check_deadline h s late deadline)
                (deadline-AllRun late deadline)) in
            (
              c,
              IsLater-trans d d₁ c (IsLater-after round d went leads)
                  (IsLater-trans d₁ d₂ c slept from),
              ended,
            )
      ]

pub ruleset laters = (
  bind-AllLater, pure-AllLater, look_up-AllLater, event-AllLater, sources-set-AllLater,
  rows-set-AllLater, images-set-AllLater, receipt-set-AllLater, gate-set-AllLater,
)
