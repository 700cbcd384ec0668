-- ===== src/Attest/Provider/Steps.antt =====
-- The steps of the attestation that change nothing of what has been read, as runs.
use doris_ducklake.Prelude.{
  Bool, Dict, List, Option, Result, Text, [], false, ok, refl, subst, true, ◌∷◌, ◌≡◌,
}
use doris_ducklake.Json.{Value}
use doris_ducklake.Attest.Gates.{Backend}
use doris_ducklake.Attest.Provider.{
  attest_sql, attest_stable, backend_now, check_backend_sources, gate, inspect_backend, query,
}
use doris_ducklake.Deploy.State.{Gate, Sources}
use doris_ducklake.Deploy.Claim.{Deployment, Step, docker, event}
use doris_ducklake.Deploy.Host.{Host, Settings, pause, update}
use doris_ducklake.Deploy.Running.{
  AllRun, Runs, asked, configured, gated, helped, here, noted, paused, readied, steps,
}
use doris_ducklake.Deploy.Working.{confirm_process-AllRun, containers_named-AllRun, work-AllRun}
use doris_ducklake.Deploy.Startup.Steps.{look-AllRun}

-- What was read from the server, and the bundle.
abbrev pub facts_of : Deployment → Option Value × Option Sources × List (Dict Text)
facts_of d = (d.lifecycle.artifact, d.lifecycle.runtime_sources, d.lifecycle.provider_inventory)

-- A run leaves them alone.
Runs-facts : {h : Host} {s : Settings} {d e : Deployment} → Runs h s d e → facts_of e ≡ facts_of d
unfolding docker event update pause
Runs-facts here = refl
Runs-facts (asked r c) = Runs-facts r
Runs-facts (noted r n t) = Runs-facts r
Runs-facts (paused r) = Runs-facts r
Runs-facts (configured r c) = Runs-facts r
Runs-facts (readied r q) = Runs-facts r
Runs-facts (gated r n g) = Runs-facts r
Runs-facts (helped r hs) = Runs-facts r

module _ (h : Host) (s : Settings) where
  pub query-AllRun : (sql : Text) (headers : Bool) → AllRun h s (query h s sql headers)
  unfolding query
  query-AllRun sql headers = search (steps, confirm_process-AllRun)

  pub gate-AllRun : (name : Text) (value : Gate) → AllRun h s (gate h s name value)
  unfolding gate
  gate-AllRun name value = search steps

  pub inspect_backend-AllRun :
      (selected : Backend) (ids : List Text) → AllRun h s (inspect_backend h s selected ids)
  unfolding inspect_backend
  inspect_backend-AllRun selected [] = search steps
  inspect_backend-AllRun selected (identity ∷ _) = search (steps, look-AllRun)

  pub backend_now-AllRun :
      (selected : Backend) (required : Bool) → AllRun h s (backend_now h s selected required)
  unfolding backend_now
  backend_now-AllRun selected required =
      search (steps, containers_named-AllRun, inspect_backend-AllRun)

  pub check_backend_sources-AllRun :
      (stock : Bool) (fe be : List Text) → AllRun h s (check_backend_sources h s stock fe be)
  unfolding check_backend_sources
  check_backend_sources-AllRun true fe be = search (steps, gate-AllRun)
  check_backend_sources-AllRun false fe be = search (steps, gate-AllRun)

  pub attest_sql-AllRun : AllRun h s (attest_sql h s)
  unfolding attest_sql
  attest_sql-AllRun = search (steps, query-AllRun, gate-AllRun)

  pub attest_stable-AllRun :
      (selected : Backend) (be : Value) → AllRun h s (attest_stable h s selected be)
  unfolding attest_stable
  attest_stable-AllRun selected be =
      search (steps, work-AllRun, gate-AllRun, confirm_process-AllRun, backend_now-AllRun) depth 20

  pub run-facts :
      {A : Type 0} (m : Step A) (d : Deployment) {e : Deployment} {a : A}
      → AllRun h s m
      → m d ≡ (e, ok a)
      → facts_of e ≡ facts_of d
  run-facts {A} m d runs p =
      subst (λ (x : Deployment × Result A). facts_of x.0 ≡ facts_of d) p (Runs-facts (runs d))
