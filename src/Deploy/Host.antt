-- ===== src/Deploy/Host.antt =====
-- What compose/plugin_deploy.py is given: the machine it runs on, and the arguments of one
-- deployment. Its steps, as they stand with these.
use doris_ducklake.Deploy.Exec.{pure, return, ◌>>=◌, ◌>>◌}
use doris_ducklake.Prelude.{
  Bool, Error, Guard, List, Option, Result, Text, [], err, if◌then◌else◌, insert, is_none, leb,
  none, not, ok, some, suc, text, true, zero, ℕ, ◌∷◌,
}
use doris_ducklake.Json.{Value}
use doris_ducklake.Preflight.Target.{Target}
use doris_ducklake.Deploy.Process.{Process}
use doris_ducklake.Deploy.State.{Gate, Lifecycle}
use doris_ducklake.Deploy.Config.{Config, PathState}
use doris_ducklake.Deploy.Claim.{Call, Command, Job, Step, docker, event, inspect, worker}
use doris_ducklake.Deploy.Frontend.{fe, revalidate}

-- `daemon`, `loads`, `save` and `digest` as before; `hash` is `file_hash` of a file's bytes;
-- `store` is whether a file of the evidence directory can be written or renamed; `runtime_file`
-- what stands at `.fe.conf.runtime` after these commands, where the deployment itself may have
-- written it; `template` what stands at `fe.conf`; `clock` is `time.monotonic()`, in seconds.
pub record Host : Type 0 where
  pub daemon : List Call → Command → Result Text
  pub loads : Text → Result Value
  pub save : List (Text × Text) → Guard
  pub digest : Value → Text
  pub hash : List ℕ → Text
  pub store : List Call → Text → Guard
  pub runtime_file : List Call → Option (List ℕ) → PathState
  pub template : PathState
  pub clock : List Call → ℕ

-- What `Deployment.__init__` is given, and DORIS_EXPECTED_SOURCE from the environment. `source` is
-- the directory of the scripts.
pub record Settings : Type 0 where
  pub token : Text
  pub compose : Text
  pub target : Target
  pub artifact : Value
  pub mode : Text
  pub evidence : Text
  pub source : Text
  pub startup_timeout : ℕ
  pub source_pin : Option Text

abbrev pub has_prior : Lifecycle → Bool
has_prior l = not (is_none l.prior)

abbrev pub prior_identity : Option Process → Option Text
prior_identity none = none
prior_identity (some prior) = some prior.id

-- `self.state` and the other fields, read and written.
unfoldable pub look_up {ℓ} : {A : Type ℓ} → (Lifecycle → A) → Step A
look_up f d = (d, ok (f d.lifecycle))

unfoldable pub update : (Lifecycle → Lifecycle) → Step (Unit {0})
update f d = (record d { lifecycle = f d.lifecycle }, ok tt)

abbrev pub set_config : Config → Lifecycle → Lifecycle
set_config next l = record l { config = next }

abbrev pub set_process : Process → Lifecycle → Lifecycle
set_process current l = record l { new_process = some current; ready = true }

abbrev pub set_gate : Text → Gate → Lifecycle → Lifecycle
set_gate name value l = record l { gates = insert name value l.gates }

-- `time.sleep(2)`: it stands among the commands, since what is answered later may differ.
abbrev pub sleep_command : Command
sleep_command = text "sleep" ∷ text "2" ∷ []

unfoldable pub pause : Step (Unit {0})
pause d = (record d { calls = (sleep_command, ok []) ∷ d.calls }, ok tt)

-- `if time.monotonic() >= deadline: raise`
unfoldable pub before_deadline : Error → ℕ → ℕ → Guard
before_deadline late now deadline = if leb deadline now then err late else ok tt

abbrev pub or_again : {A : Type 0} → Option A → Step (Option A) → Step (Option A)
or_again (some a) again = return (some a)
or_again none again = again

module _ (h : Host) (s : Settings) where
  abbrev pub ask : Command → Step Text
  ask command = docker h.daemon h.loads h.save s.token command

  abbrev pub note : Text → Step (Unit {0})
  note name = event h.daemon h.loads h.save s.token name []

  abbrev pub tell : Text → Text → Step (Unit {0})
  tell name detail = event h.daemon h.loads h.save s.token name detail

  abbrev pub look : Text → Step Value
  look container = inspect h.daemon h.loads h.save s.token container

  abbrev pub frontend_now : Step (Option Value)
  frontend_now = fe h.daemon h.loads h.save s.token h.digest s.compose s.target

  abbrev pub target_now : Step Target
  target_now = revalidate h.daemon h.loads h.save s.token h.digest s.compose s.target

  abbrev pub work : Job → Step (Unit {0})
  work job = worker h.daemon h.loads h.save s.token s.source s.evidence s.target.spec.volume job

  unfoldable pub runtime_now : Step PathState
  runtime_now d = (d, ok (h.runtime_file d.calls d.lifecycle.written_config))

  unfoldable pub time_now : Step ℕ
  time_now d = (d, ok (h.clock d.calls))

  unfoldable pub check_deadline : Error → ℕ → Step (Unit {0})
  check_deadline late deadline = do now ← time_now; pure (before_deadline late now deadline); pause

  -- `while True:` a round, that ends the loop with what it returns if it finds something; else the
  -- test of the deadline, and `time.sleep(2)`. `none` means that the fuel ran out.
  unfoldable pub poll : {A : Type 0} → Error → Step (Option A) → ℕ → ℕ → Step (Option A)
  poll late round zero deadline = return none
  poll late round (suc fuel) deadline =
      let again = (check_deadline late deadline >>= (λ _. poll late round fuel deadline)) in
      (round >>= (λ found. or_again found again))
