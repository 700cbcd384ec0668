-- ===== src/Lib.antt =====
-- The deployment and smoke tooling of the DuckLake connector for Doris, the Python programs under
-- compose/: which plugin may be deployed where, how a deployment keeps others from the same
-- volume, what it reads back from the server, which checks make a smoke run count, and how
-- failures of the corpus are sorted.
--
-- The parts and how they interact. plugin_preflight.py accepts a bundle and a target;
-- plugin_deploy.py claims the plugin volume and runs helpers on it (plugin_volume.py);
-- plugin_attest.py reads from the server what has been loaded; smoke_checks.py keeps a ledger of
-- the smoke run's assertions, whose reference rows come from smoke_rows.py through the guarded
-- connection of smoke_lake.py; corpus_baseline.py and corpus_baseline_triage.py sort failures.
--
-- Files and what they model:
--   Prelude: Python's exceptions as results (Results), `str` and `bytes` as lists of numbers
--     (Texts), `dict` as an association list (Dicts), integers (Int), numerals (Digits).
--   Json: decoded JSON documents and the dynamic operations that the scripts apply to them.
--   Preflight: compose/plugin_preflight.py. Path is canonical_path, Records is records and
--     build_id, Manifest is manifest_sections, Zip is zip_files, Bundle is verify_bundle, Network
--     is development_compose_network and development_container_network, Target is
--     target_from_compose. Below, Injective, Identity, Contents, Loopback and Ownership prove
--     their theorems.
--   Deploy: compose/plugin_deploy.py. Exec is state that stays changed when an exception is
--     raised; Inspect reads a container's description; Claim is ownership, worker, copy_worker,
--     cleanup_helpers, remove_owned and owned, on a record Deployment that keeps every docker
--     command and its answer; Frontend is revalidate, fe and fail_closed, where the target is read
--     from answers to one history; Boundary and Writing are stop_fe and assert_stopped. Config is
--     stage_config and verify_runtime_config on the bytes of the configuration, Process is
--     process_record. State is what the later methods keep, the receipts included; Host is the
--     machine and the settings of a run, Startup is wait_ready, metadata_cluster_id, start and
--     confirm_process, with the tests of Readiness; Install is preserve_candidate, backup and
--     install; Run, with Outcome, is _run, run, claim_name and teardown. Networks and Substrate are
--     resolve_substrate of compose/smoke_targets.py. Ran, Running, Later and Growing are lemmas on
--     steps, what they keep and that no docker command is forgotten; Keeping,
--     Release, Removal, Stopping, Writing, Config.Once, Readiness.Accepted, the children of Startup,
--     Networks.Shared, Working and the children of Run prove.
--   Volume: inventory, verify_installed and verify_backup of compose/plugin_volume.py, on the
--     entries below a mount; Candidate is prepare and snapshot, Install is install, as steps on
--     the volume's listing; Exactness and Install.Guarded prove.
--   Attest: inventory_rows, validate_inventory and alive_versions of compose/plugin_attest.py;
--     Gates and Provider are ProviderAttestation, on the state of the deployment.
--   Smoke.Exact, Smoke.Policy, Smoke.Ledger: exact, evaluate, validate_policy, initialize, record,
--     abort, finish and verify_completed of compose/smoke_checks.py, the two files as a record;
--     Ledger.Lifecycle has the processes of a run as events in any order,
--     Ledger.Phases the machine that they implement. Smoke.Objects is
--     object_state; Smoke.Procedures is the procedure and stats operations of main, and
--     Smoke.Commands its eq, ge, rows, plan, fixture and catalog-sql.
--   Smoke.Lake: compose/smoke_lake.py. Smoke.Rows: compose/smoke_rows.py.
--   Corpus.Baseline: baseline_measurements of compose/corpus_baseline.py. Corpus.Triage:
--     compose/corpus_baseline_triage.py, Triage.Joining the comparisons of its main.
--   Each Tests, Smoke.Answers, Deploy.Answers, Deploy.Attested and Deploy.Readings, with the data of
--   Preflight.Target.Sample and Deploy.Sample, runs the definitions on concrete inputs.
--
-- Parameters stand for what is not in the repository: SHA-256 and the reading of a zip or tar
-- archive (Preflight, Ledger, Volume), `str` of a Decimal and the bytes that `json.dumps` makes
-- of a ledger (Ledger), `json.loads` and the answers of the Docker command line (Deploy), the
-- execution of SQL by DuckDB (Lake, Rows), `int` of a row's line (Triage). A docker answer may
-- depend on every command before it. Those of a run are gathered in records: Host (the daemon,
-- the files, the clock, which may depend on the commands that were run), Evidence (what the
-- evidence directory holds), Smoke (the child process), Disk (whether an entry of the volume can be
-- removed or written).
--
-- Loops are structural recursion, but for two kinds of fuel. `show`, which prints a number, is
-- given the number itself, which is more than it has digits. The waits for the frontend and for the
-- backend's registration are given one round more than the timeout has seconds, where each round
-- pauses for two.
--
-- Not modelled: time stamps are arguments, or left out of events and receipts; an exception keeps
-- the constant part of its message; signals and process groups; the digests of the tools in the
-- deployment's state; the corpus directory that a run makes; the steps within the removal of one
-- directory; the parsing of arguments; the Kotlin connector and its build; the drivers that only
-- start processes; the parts of plugin_preflight.py and corpus_baseline.py that are not named
-- above.
pub mod Prelude
pub mod Json
pub mod Preflight
pub mod Smoke
pub mod Attest
pub mod Deploy
pub mod Corpus
pub mod Volume
