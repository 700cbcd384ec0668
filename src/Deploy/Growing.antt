-- ===== src/Deploy/Growing.antt =====
-- The docker commands that a deployment has run are never forgotten, whatever else changes.
use doris_ducklake.Deploy.Exec.{continue, gets, handle, modify, pure, ◌>>=◌}
use doris_ducklake.Prelude.{
  Bool, Bool-cases, Error, List, Result, Text, [], ap, append_assoc, err, false, if◌then◌else◌, inl,
  inr, ok, refl, reverse, subst, sym, text, true, ◌++◌, ◌∙◌, ◌∷◌, ◌≡◌,
}
use doris_ducklake.Deploy.Claim.{
  Call, Command, Deployment, Step, cleanup_all, cleanup_helpers, docker, event, give_up_claim,
  is_operational, refuse_helper, release, remove_helper, remove_owned, try_helper,
}
use doris_ducklake.Deploy.State.{Lifecycle}
use doris_ducklake.Deploy.Host.{Host, Settings, look_up, update}
use doris_ducklake.Deploy.Later.{IsLater, Runs-IsLater}
use doris_ducklake.Deploy.Running.{AllRun}
use doris_ducklake.Deploy.Working.{remove_helper-run, remove_owned-run}

-- The commands of the later state are those of the earlier one and some more.
pub record HasGrown (d e : Deployment) : Type 0 where
  pub since : List Call
  pub grown : e.calls ≡ since ++ d.calls

pub HasGrown-refl : (d : Deployment) → HasGrown d d
HasGrown-refl d = record { since = []; grown = refl }

pub HasGrown-trans : (d e f : Deployment) → HasGrown d e → HasGrown e f → HasGrown d f
HasGrown-trans d e f p q = record {
  since = q.since ++ p.since;
  grown = q.grown ∙ ap (λ cs. q.since ++ cs) p.grown ∙ sym (append_assoc q.since p.since d.calls);
}

pub IsLater-HasGrown : (d e : Deployment) → IsLater d e → HasGrown d e
IsLater-HasGrown d e p = record { since = p.since; grown = p.grown }

abbrev pub AllGrow {ℓ} : {A : Type ℓ} → Step A → Type 0
AllGrow m = (d : Deployment) → HasGrown d (m d).0

pub HasGrown-after {ℓ} :
    {A : Type ℓ} (m : Step A) (d : Deployment) {e : Deployment} {a : A}
    → m d ≡ (e, ok a)
    → AllGrow m
    → HasGrown d e
HasGrown-after {A} m d p grows = subst (λ (x : Deployment × Result A). HasGrown d x.0) p (grows d)

continue-HasGrown {ℓ κ} :
    {A : Type ℓ} {B : Type κ} (d : Deployment) (p : Deployment × Result A) (k : A → Step B)
    → HasGrown d p.0
    → ((a : A) → AllGrow (k a))
    → HasGrown d (continue p k).0
continue-HasGrown d (e, err raised) k first rest = first
continue-HasGrown d (e, ok a) k first rest = HasGrown-trans d e (k a e).0 first (rest a e)

pub bind-AllGrow {ℓ κ} :
    {A : Type ℓ} {B : Type κ} (m : Step A) (k : A → Step B)
    → AllGrow m
    → ((a : A) → AllGrow (k a))
    → AllGrow (m >>= k)
unfolding ◌>>=◌
bind-AllGrow m k first rest d = continue-HasGrown d (m d) k (first d) rest

pub pure-AllGrow {ℓ} : {A : Type ℓ} (r : Result A) → AllGrow (pure r)
unfolding pure
pure-AllGrow r d = HasGrown-refl d

pub gets-AllGrow {ℓ} : {A : Type ℓ} (f : Deployment → A) → AllGrow (gets f)
unfolding gets
gets-AllGrow f d = HasGrown-refl d

pub look_up-AllGrow {ℓ} : {A : Type ℓ} (f : Lifecycle → A) → AllGrow (look_up f)
unfolding look_up
look_up-AllGrow f d = HasGrown-refl d

pub update-AllGrow : (f : Lifecycle → Lifecycle) → AllGrow (update f)
unfolding update
update-AllGrow f d = record { since = []; grown = refl }

pub modify-AllGrow :
    (f : Deployment → Deployment) → ((d : Deployment) → (f d).calls ≡ d.calls) → AllGrow (modify f)
unfolding modify
modify-AllGrow f same d = record { since = []; grown = same d }

handled-HasGrown {ℓ} :
    {A : Type ℓ} (d : Deployment) (p : Deployment × Result A) (caught : Error → Bool)
    (handler : Error → Step A)
    → HasGrown d p.0
    → ((x : Error) → AllGrow (handler x))
    → HasGrown d (handle p caught handler).0
handled-HasGrown d (e, ok a) caught handler first rest = first
handled-HasGrown d (e, err x) caught handler first rest = elim (Bool-cases (caught x)) [
  | inl yes_caught ↦ rw yes_caught (HasGrown-trans d e (handler x e).0 first (rest x e))
  | inr missed ↦ rw missed first
]

pub handle-AllGrow {ℓ} :
    {A : Type ℓ} (m : Step A) (caught : Error → Bool) (handler : Error → Step A)
    → AllGrow m
    → ((x : Error) → AllGrow (handler x))
    → AllGrow (λ d. handle (m d) caught handler)
handle-AllGrow m caught handler first rest d =
    handled-HasGrown d (m d) caught handler (first d) rest

module _ (h : Host) (s : Settings) where
  pub docker-AllGrow : (c : Command) → AllGrow (docker h.daemon h.loads h.save s.token c)
  unfolding docker
  docker-AllGrow c d = record { since = (c, h.daemon d.calls c) ∷ []; grown = refl }

  pub event-AllGrow : (n m : Text) → AllGrow (event h.daemon h.loads h.save s.token n m)
  unfolding event
  event-AllGrow n m d = record { since = []; grown = refl }

  pub Run-AllGrow : {A : Type 0} (m : Step A) → AllRun h s m → AllGrow m
  Run-AllGrow m runs d = IsLater-HasGrown d (m d).0 (Runs-IsLater (runs d))

  try_helper-AllGrow : (c : Text) → AllGrow (try_helper h.daemon h.loads h.save s.token c)
  unfolding try_helper refuse_helper
  try_helper-AllGrow c =
      handle-AllGrow (remove_helper h.daemon h.loads h.save s.token c) is_operational
        (λ _. refuse_helper h.daemon h.loads h.save s.token c)
        (Run-AllGrow (remove_helper h.daemon h.loads h.save s.token c)
          (remove_helper-run {h = h} {s = s} c))
        (λ _.
          bind-AllGrow _ _ (modify-AllGrow _ (λ d. refl))
            (λ _. event-AllGrow (text "helper-cleanup-refused") c))

  cleanup_all-AllGrow : (cs : List Text) → AllGrow (cleanup_all h.daemon h.loads h.save s.token cs)
  unfolding cleanup_all
  cleanup_all-AllGrow [] = pure-AllGrow (ok tt)
  cleanup_all-AllGrow (c ∷ cs) =
      bind-AllGrow _ _ (try_helper-AllGrow c) (λ _. cleanup_all-AllGrow cs)

  cleanup-AllGrow : AllGrow (cleanup_helpers h.daemon h.loads h.save s.token)
  unfolding cleanup_helpers
  cleanup-AllGrow d = cleanup_all-AllGrow (reverse d.helpers) d

  give_up-AllGrow : (c : Text) → AllGrow (give_up_claim h.daemon h.loads h.save s.token c)
  unfolding give_up_claim
  give_up-AllGrow c =
      bind-AllGrow _ _
        (Run-AllGrow (remove_owned h.daemon h.loads h.save s.token c)
          (remove_owned-run {h = h} {s = s} c))
        (λ _. event-AllGrow (text "claim-released") c)

  ending :
      (unsafe : Bool) (c : Text)
      → AllGrow (
          if unsafe
          then event h.daemon h.loads h.save s.token (text "claim-retained-for-recovery") c
          else give_up_claim h.daemon h.loads h.save s.token c)
  ending true c = event-AllGrow (text "claim-retained-for-recovery") c
  ending false c = give_up-AllGrow c

  pub release-AllGrow : (c : Text) → AllGrow (release h.daemon h.loads h.save s.token c)
  unfolding release
  release-AllGrow c =
      bind-AllGrow _ _ cleanup-AllGrow
        (λ _. bind-AllGrow _ _ (gets-AllGrow _) (λ unsafe. ending unsafe c))

pub ruleset growing = (bind-AllGrow, pure-AllGrow, gets-AllGrow, look_up-AllGrow, update-AllGrow)
