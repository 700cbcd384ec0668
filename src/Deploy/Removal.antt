-- ===== src/Deploy/Removal.antt =====
-- `remove_owned` stops and removes nothing but containers of its own deployment.
use doris_ducklake.Deploy.Exec.{continue, pure, return, ◌>>=◌, ◌>>◌}
use doris_ducklake.Prelude.{
  Bool, Guard, List, Result, Text, ap, err, false, if◌then◌else◌, inl, inr, not, ok, ok_injective,
  refl, require, subst, true, ◌∷◌, ◌≡◌, ◌⊎◌,
}
use doris_ducklake.Json.{Value}
use doris_ducklake.Deploy.Inspect.{container_id, first_item, is_owned_by, is_running}
use doris_ducklake.Deploy.Claim.{
  Call, Command, Deployment, Step, docker, inspect, inspect_command, owned, remove_command,
  remove_owned, stop_command, stop_owned,
}

module _ (daemon : List Call → Command → Result Text) (loads : Text → Result Value)
    (save : List (Text × Text) → Guard) (token : Text) where
  -- The newest call inspected `container`, and it answered with this instance.
  pub record Inspected (container : Text) (instance : Value) (calls : List Call) : Type 0 where
    pub output : Text
    pub value : Value
    pub earlier : List Call
    pub newest : calls ≡ (inspect_command container, ok output) ∷ earlier
    pub decoded : loads output ≡ ok value
    pub described : first_item value ≡ ok instance

  -- It belongs to this deployment, and it was asked for by this identity or has it.
  pub record IsOwn (identity : Text) (calls : List Call) : Type 0 where
    pub container : Text
    pub instance : Value
    pub inspected : Inspected container instance calls
    pub mine : is_owned_by token instance ≡ ok true
    pub same : (container ≡ identity) ⊎ (container_id instance ≡ ok identity)

  -- What was run since `before`: inspections, and what stops or removes a container right after
  -- an inspection has shown that it is this deployment's.
  pub data Careful (before : List Call) : List Call → Type 0 where
    start : Careful before before
    look :
        {calls : List Call}
        → (container : Text) → (answer : Result Text) → Careful before calls
        → Careful before ((inspect_command container, answer) ∷ calls)
    act :
        {calls : List Call}
        → (identity : Text) → (command : Command) → (answer : Result Text) → IsOwn identity calls
        → (command ≡ stop_command identity) ⊎ (command ≡ remove_command identity)
        → Careful before calls
        → Careful before ((command, answer) ∷ calls)

  -- What is known after an inspection: of the calls, and of the instance if there is one.
  record After {ℓ} {A : Type ℓ} (P : A → List Call → Type 0) (before : List Call)
      (p : Deployment × Result A) : Type ℓ where
    careful : Careful before p.0.calls
    holds : (a : A) → p.1 ≡ ok a → P a p.0.calls

  -- A step that asks nothing of Docker.
  then_pure {ℓ κ} :
      {A : Type ℓ} {B : Type κ} (P : A → List Call → Type 0) (Q : B → List Call → Type 0)
      (before : List Call) (p : Deployment × Result A) (f : A → Result B)
      → After P before p
      → ((a : A) (b : B) (calls : List Call) → P a calls → f a ≡ ok b → Q b calls)
      → After Q before (continue p (λ a. pure (f a)))
  unfolding pure
  then_pure P Q before (d, err e) f h rule = record { careful = h.careful; holds = λ b fine. cc }
  then_pure P Q before (d, ok a) f h rule = record {
    careful = h.careful;
    holds = λ b fine. rule a b d.calls (h.holds a refl) fine;
  }

  then_step {ℓ κ} :
      {A : Type ℓ} {B : Type κ} (P : A → List Call → Type 0) (Q : B → List Call → Type 0)
      (before : List Call) (p : Deployment × Result A) (k : A → Step B)
      → After P before p
      → ((a : A) (d : Deployment) → Careful before d.calls → P a d.calls → After Q before (k a d))
      → After Q before (continue p k)
  then_step P Q before (d, err e) k h rule = record { careful = h.careful; holds = λ b fine. cc }
  then_step P Q before (d, ok a) k h rule = rule a d h.careful (h.holds a refl)

  -- The output that the newest call answered.
  abbrev Answered : Text → Text → List Call → Type 0
  Answered container output calls =
      (earlier : List Call) × (calls ≡ (inspect_command container, ok output) ∷ earlier)

  ask-After :
      (container : Text) (before : List Call) (d : Deployment)
      → Careful before d.calls
      → After
          (Answered container)
          before
          (docker daemon loads save token (inspect_command container) d)
  unfolding docker
  ask-After container before d h = record {
    careful = look container (daemon d.calls (inspect_command container)) h;
    holds = λ output fine. (d.calls, ap (λ r. (inspect_command container, r) ∷ d.calls) fine);
  }

  inspect-After :
      (container : Text) (before : List Call) (d : Deployment)
      → Careful before d.calls
      → After (Inspected container) before (inspect daemon loads save token container d)
  unfolding inspect ◌>>=◌
  inspect-After container before d h =
      then_step (Answered container) (Inspected container) before _ _
        (ask-After container before d h)
        (λ output e careful answered.
          then_pure (λ v calls. Answered container output calls × (loads output ≡ ok v))
            (Inspected container) before (pure (loads output) e) first_item
            (unfold pure in record { careful = careful; holds = λ v fine. (answered, fine) })
            (λ v instance calls known fine. record {
              output = output;
              value = v;
              earlier = known.0.0;
              newest = known.0.1;
              decoded = known.1;
              described = fine;
            }))

  abbrev Owned : Text → Value → List Call → Type 0
  Owned container instance calls =
      Inspected container instance calls × (is_owned_by token instance ≡ ok true)

  judged :
      (container : Text) (instance : Value) (before : List Call) (e : Deployment) (r : Result Bool)
      → Careful before e.calls
      → Inspected container instance e.calls
      → is_owned_by token instance ≡ r
      → After (Owned container) before (
          continue
            (e, r)
            (λ mine.
              pure (require mine "Helper/claim owner token changed; refusing cleanup")
              >>= (λ _. pure (ok instance))))
  unfolding ◌>>=◌ pure
  judged container instance before e (err raised) careful seen from = record {
    careful = careful;
    holds = λ i fine. cc;
  }
  judged container instance before e (ok false) careful seen from = record {
    careful = careful;
    holds = λ i fine. cc;
  }
  judged container instance before e (ok true) careful seen from = record {
    careful = careful;
    holds = λ i fine. subst (λ x. Owned container x e.calls) (ok_injective fine) (seen, from);
  }

  owned-After :
      (container : Text) (before : List Call) (d : Deployment)
      → Careful before d.calls
      → After (Owned container) before (owned daemon loads save token container d)
  unfolding owned ◌>>=◌ pure
  owned-After container before d h =
      then_step (Inspected container) (Owned container) before _ _
        (inspect-After container before d h)
        (λ instance e careful seen. judged container instance before e _ careful seen refl)

  -- What lets a container be removed.
  abbrev Removable : Text → Unit {0} → List Call → Type 0
  Removable identity _ calls = IsOwn identity calls

  stop-After :
      (identity : Text) (before : List Call) (d : Deployment)
      → Careful before d.calls
      → IsOwn identity d.calls
      → After
          (λ (_ : Text) _. Unit {0})
          before
          (docker daemon loads save token (stop_command identity) d)
  unfolding docker
  stop-After identity before d h own = record {
    careful =
        act identity (stop_command identity) (daemon d.calls (stop_command identity)) own (inl refl)
          h;
    holds = λ _ _. tt;
  }

  is_stopped-After :
      (identity : Text) (instance : Value) (before : List Call) (f : Deployment)
      → Careful before f.calls
      → Owned identity instance f.calls
      → After (Removable identity) before (
          (pure (is_running instance)
              >>= (λ running. pure (require (not running) "Owned helper is still running")))
            f)
  unfolding pure ◌>>=◌
  is_stopped-After identity instance before f careful seen =
      then_pure (λ running calls. Owned identity instance calls) (Removable identity) before
        (f, is_running instance) (λ running. require (not running) "Owned helper is still running")
        (record { careful = careful; holds = λ _ _. seen })
        (λ _ _ calls own _. record {
          container = identity;
          instance = instance;
          inspected = own.0;
          mine = own.1;
          same = inl refl;
        })

  stop_owned-After :
      (identity : Text) (before : List Call) (d : Deployment)
      → Careful before d.calls
      → IsOwn identity d.calls
      → After (Removable identity) before (stop_owned daemon loads save token identity d)
  unfolding stop_owned ◌>>=◌
  stop_owned-After identity before d h own =
      then_step (λ (_ : Text) _. Unit {0}) (Removable identity) before
        (docker daemon loads save token (stop_command identity) d) _
        (stop-After identity before d h own)
        (λ _ e careful _.
          then_step (Owned identity) (Removable identity) before
            (owned daemon loads save token identity e) _ (owned-After identity before e careful)
            (λ instance f careful' seen. is_stopped-After identity instance before f careful' seen))

  remove-After :
      (identity : Text) (before : List Call) (d : Deployment)
      → Careful before d.calls
      → IsOwn identity d.calls
      → Careful before (docker daemon loads save token (remove_command identity) d).0.calls
  unfolding docker
  remove-After identity before d h own =
      act identity (remove_command identity) (daemon d.calls (remove_command identity)) own
        (inr refl) h

  removed-Careful :
      (before : List Call) (p : Deployment × Result Text)
      → Careful before p.0.calls
      → Careful before (continue p (λ _. return {A = Unit {0}} tt)).0.calls
  unfolding pure
  removed-Careful before (e, err _) c = c
  removed-Careful before (e, ok _) c = c

  last_step :
      (identity : Text) (before : List Call) (p : Deployment × Guard)
      → After (Removable identity) before p
      → Careful before
          (continue p (λ _.
            docker daemon loads save token (remove_command identity)
            >>= (λ _. return {A = Unit {0}} tt))).0.calls
  unfolding ◌>>=◌
  last_step identity before (d, err e) h = h.careful
  last_step identity before (d, ok _) h =
      removed-Careful before (docker daemon loads save token (remove_command identity) d)
        (remove-After identity before d h.careful (h.holds tt refl))

  stop_if-After :
      (running : Bool) (identity : Text) (before : List Call) (d : Deployment)
      → Careful before d.calls
      → IsOwn identity d.calls
      → After
          (Removable identity)
          before
          ((if running then stop_owned daemon loads save token identity else return tt) d)
  unfolding pure
  stop_if-After true identity before d h own = stop_owned-After identity before d h own
  stop_if-After false identity before d h own = record { careful = h; holds = λ _ _. own }

  -- What follows the inspection.
  abbrev ending : Value → Step (Unit {0})
  ending instance = do
    running ← pure (is_running instance)
    identity ← pure (container_id instance)
    (if running then stop_owned daemon loads save token identity else return tt)
    removed ← docker daemon loads save token (remove_command identity)
    return tt

  ending-Careful :
      (container : Text) (instance : Value) (before : List Call) (d : Deployment)
      → Careful before d.calls
      → Owned container instance d.calls
      → (r : Result Bool) (i : Result Text) → container_id instance ≡ i
      → Careful before
          (continue
            (d, r)
            (λ running e.
              continue
                (e, i)
                (λ identity f.
                  continue
                    ((if running then stop_owned daemon loads save token identity else return tt) f)
                    (λ _.
                      docker daemon loads save token (remove_command identity)
                      >>= (λ _. return {A = Unit {0}} tt))))).0.calls
  ending-Careful container instance before d h own (err _) i is_i = h
  ending-Careful container instance before d h own (ok running) (err _) is_i = h
  ending-Careful container instance before d h own (ok running) (ok identity) is_i =
      last_step identity before _ (
        stop_if-After running identity before d h (record {
          container = container;
          instance = instance;
          inspected = own.0;
          mine = own.1;
          same = inr is_i;
        }))

  removal-Careful :
      (container : Text) (before : List Call) (p : Deployment × Result Value)
      → After (Owned container) before p
      → Careful before (continue p ending).0.calls
  unfolding pure ◌>>=◌
  removal-Careful container before (d, err e) h = h.careful
  removal-Careful container before (d, ok instance) h =
      ending-Careful container instance before d h.careful (h.holds instance refl)
        (is_running instance) (container_id instance) refl

  -- Whatever Docker answers, remove_owned runs only inspections and commands that stop or remove
  -- a container, and each of these comes right after an inspection that answered with a container
  -- of this deployment's token, asked for by that identity or having it.
  pub remove_owned-Careful :
      (container : Text) (d : Deployment)
      → Careful d.calls (remove_owned daemon loads save token container d).0.calls
  unfolding remove_owned ◌>>=◌
  remove_owned-Careful container d =
      removal-Careful container d.calls (owned daemon loads save token container d)
        (owned-After container d.calls d start)
