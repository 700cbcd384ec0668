-- ===== src/Attest/Provider/Leading.antt =====
-- The whole attestation leads on.
use doris_ducklake.Deploy.State.{Lifecycle}
use doris_ducklake.Prelude.{Bool, List, Text, []}
use doris_ducklake.Deploy.Host.{Host, Settings, update}
use doris_ducklake.Deploy.Later.{
  AllLater, AllRun-AllLater, bind-AllLater, laters, no_gates-AllLater, poll-AllRun,
}
use doris_ducklake.Deploy.Running.{AllRun, steps}
use doris_ducklake.Deploy.Working.{confirm_process-AllRun, image_of-AllRun, rendered-AllRun}
use doris_ducklake.Deploy.Startup.Steps.{revalidate-AllRun}
use doris_ducklake.Attest.Gates.{Backend}
use doris_ducklake.Attest.Provider.{
  attest, attest_processes, attest_provider, attest_sources, backend_spec, start_backend,
  wait_registered,
}
use doris_ducklake.Attest.Provider.Steps.{
  attest_sql-AllRun, attest_stable-AllRun, backend_now-AllRun, gate-AllRun, query-AllRun,
}
use doris_ducklake.Attest.Provider.Asked.{registration_round-AllRun}
use doris_ducklake.Attest.Provider.Pinned.{accept_sources-AllLater}
use doris_ducklake.Attest.Provider.Loaded.{accept_provider-AllLater}
use doris_ducklake.Attest.Provider.Concluded.{conclude-AllLater, keep_images-AllLater}

module _ (h : Host) (s : Settings) where
  backend_spec-AllRun : AllRun h s (backend_spec h s)
  unfolding backend_spec
  backend_spec-AllRun = search (steps, revalidate-AllRun, rendered-AllRun, image_of-AllRun) depth 20

  start_backend-AllRun : (selected : Backend) → AllRun h s (start_backend h s selected)
  unfolding start_backend
  start_backend-AllRun selected = search (steps, backend_now-AllRun) depth 20

  wait_registered-AllRun : AllRun h s (wait_registered h s)
  unfolding wait_registered
  wait_registered-AllRun =
      search (steps, poll-AllRun, registration_round-AllRun, gate-AllRun) depth 20

  attest_processes-AllLater : AllLater (attest_processes h s)
  unfolding attest_processes
  attest_processes-AllLater =
      bind-AllLater (update (λ (l : Lifecycle). record l { gates = [] })) _ no_gates-AllLater (λ _.
        search
          (
            laters,
            AllRun-AllLater {0} {h = h} {s = s},
            confirm_process-AllRun,
            gate-AllRun,
            backend_spec-AllRun,
            start_backend-AllRun,
            wait_registered-AllRun,
          )
          depth 20)

  attest_sources-AllLater : (stock : Bool) (be : List Text) → AllLater (attest_sources h s stock be)
  unfolding attest_sources
  attest_sources-AllLater stock be =
      search (laters, AllRun-AllLater {0} {h = h} {s = s}, query-AllRun, accept_sources-AllLater)

  attest_provider-AllLater : AllLater (attest_provider h s)
  unfolding attest_provider
  attest_provider-AllLater =
      search (laters, AllRun-AllLater {0} {h = h} {s = s}, query-AllRun, accept_provider-AllLater)

  pub attest-AllLater : AllLater (attest h s)
  unfolding attest
  attest-AllLater =
      search
        (
          laters,
          AllRun-AllLater {0} {h = h} {s = s},
          attest_processes-AllLater,
          attest_sources-AllLater,
          attest_provider-AllLater,
          attest_sql-AllRun,
          attest_stable-AllRun,
          keep_images-AllLater,
          conclude-AllLater,
        )
        depth 20
