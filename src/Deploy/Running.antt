-- ===== src/Deploy/Running.antt =====
-- The steps of a deployment that change nothing of what it has decided: one relation between the
-- states before and after, of which every such step is a part.
use doris_ducklake.Deploy.Exec.{continue, gets, handle, pure, return, ◌>>=◌}
use doris_ducklake.Prelude.{Bool, Bool-cases, Error, List, Result, Text, err, inl, inr, ok}
use doris_ducklake.Deploy.State.{Gate, Lifecycle}
use doris_ducklake.Deploy.Claim.{Command, Deployment, Step}
use doris_ducklake.Deploy.Config.{Config}
use doris_ducklake.Deploy.Process.{Process}
use doris_ducklake.Deploy.Host.{
  Host, Settings, ask, look_up, pause, runtime_now, set_config, set_gate, set_process, tell,
  time_now, update,
}

-- What one step after the other does that only asks, notes, and keeps what it has found: the
-- commands, events, pauses and changes of a run from `d`, the last one outermost.
pub data Runs (h : Host) (s : Settings) (d : Deployment) : Deployment → Type 0 where
  here : Runs h s d d
  asked : {e : Deployment} → Runs h s d e → (c : Command) → Runs h s d (ask h s c e).0
  noted : {e : Deployment} → Runs h s d e → (n t : Text) → Runs h s d (tell h s n t e).0
  paused : {e : Deployment} → Runs h s d e → Runs h s d (pause e).0
  configured :
      {e : Deployment} → Runs h s d e → (c : Config) → Runs h s d (update (set_config c) e).0
  readied :
      {e : Deployment} → Runs h s d e → (p : Process) → Runs h s d (update (set_process p) e).0
  gated :
      {e : Deployment}
      → Runs h s d e
      → (n : Text) (g : Gate) → Runs h s d (update (set_gate n g) e).0
  helped :
      {e : Deployment} → Runs h s d e → (hs : List Text) → Runs h s d (record e { helpers = hs })

-- Every run of the step is such a run.
abbrev pub AllRun {ℓ} : {A : Type ℓ} → Host → Settings → Step A → Type 0
AllRun h s m = (d : Deployment) → Runs h s d (m d).0

module _ {h : Host} {s : Settings} where
  pub Runs-trans : {d e f : Deployment} → Runs h s d e → Runs h s e f → Runs h s d f
  Runs-trans r here = r
  Runs-trans r (asked q c) = asked (Runs-trans r q) c
  Runs-trans r (noted q n t) = noted (Runs-trans r q) n t
  Runs-trans r (paused q) = paused (Runs-trans r q)
  Runs-trans r (configured q c) = configured (Runs-trans r q) c
  Runs-trans r (readied q p) = readied (Runs-trans r q) p
  Runs-trans r (gated q n g) = gated (Runs-trans r q) n g
  Runs-trans r (helped q hs) = helped (Runs-trans r q) hs

  continue-Runs {ℓ κ} :
      {A : Type ℓ} {B : Type κ} (d : Deployment) (p : Deployment × Result A) (k : A → Step B)
      → Runs h s d p.0
      → ((a : A) → AllRun h s (k a))
      → Runs h s d (continue p k).0
  continue-Runs d (e, err raised) k first rest = first
  continue-Runs d (e, ok a) k first rest = Runs-trans first (rest a e)

  pub bind-AllRun {ℓ κ} :
      {A : Type ℓ} {B : Type κ} (m : Step A) (k : A → Step B)
      → AllRun h s m
      → ((a : A) → AllRun h s (k a))
      → AllRun h s (m >>= k)
  unfolding ◌>>=◌
  bind-AllRun m k first rest d = continue-Runs d (m d) k (first d) rest

  pub pure-AllRun {ℓ} : {A : Type ℓ} (r : Result A) → AllRun h s (pure r)
  unfolding pure
  pure-AllRun r d = here

  pub gets-AllRun {ℓ} : {A : Type ℓ} (f : Deployment → A) → AllRun h s (gets f)
  unfolding gets
  gets-AllRun f d = here

  pub look_up-AllRun {ℓ} : {A : Type ℓ} (f : Lifecycle → A) → AllRun h s (look_up f)
  unfolding look_up
  look_up-AllRun f d = here

  pub config-set-AllRun : (next : Config) → AllRun h s (update (set_config next))
  config-set-AllRun next d = configured here next

  pub process-set-AllRun : (p : Process) → AllRun h s (update (set_process p))
  process-set-AllRun p d = readied here p

  pub gate-set-AllRun : (n : Text) (g : Gate) → AllRun h s (update (set_gate n g))
  gate-set-AllRun n g d = gated here n g

  pub docker-AllRun : (c : Command) → AllRun h s (ask h s c)
  docker-AllRun c d = asked here c

  pub event-AllRun : (n t : Text) → AllRun h s (tell h s n t)
  event-AllRun n t d = noted here n t

  pub runtime-AllRun : AllRun h s (runtime_now h s)
  unfolding runtime_now
  runtime-AllRun d = here

  pub time-AllRun : AllRun h s (time_now h s)
  unfolding time_now
  time-AllRun d = here

  pub pause-AllRun : AllRun h s pause
  pause-AllRun d = paused here

  handle-Runs {ℓ} :
      {A : Type ℓ} (d : Deployment) (p : Deployment × Result A) (caught : Error → Bool) (r : A)
      → Runs h s d p.0
      → Runs h s d (handle p caught (λ _. return r)).0
  unfolding pure
  handle-Runs d (e, ok a) caught r first = first
  handle-Runs d (e, err raised) caught r first = elim (Bool-cases (caught raised)) [
    | inl yes_caught ↦ rw yes_caught first
    | inr missed ↦ rw missed first
  ]

  pub handle-AllRun {ℓ} :
      {A : Type ℓ} (m : Step A) (caught : Error → Bool) (r : A)
      → AllRun h s m
      → AllRun h s (λ d. handle (m d) caught (λ _. return r))
  handle-AllRun m caught r first d = handle-Runs d (m d) caught r (first d)

pub ruleset steps = (
  bind-AllRun, pure-AllRun, gets-AllRun, look_up-AllRun, config-set-AllRun, process-set-AllRun,
  gate-set-AllRun, docker-AllRun, event-AllRun, runtime-AllRun, time-AllRun, pause-AllRun,
)
