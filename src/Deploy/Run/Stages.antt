-- ===== src/Deploy/Run/Stages.antt =====
-- What a deployment has gone through that returns: the stages of `_run`, in their order.
use doris_ducklake.Deploy.Run.Installed.{IsInstalled}
use doris_ducklake.Deploy.Growing.{HasGrown}
use doris_ducklake.Prelude.{List, ok, ℕ, ◌≡◌}
use doris_ducklake.Volume.{Backup, verify_backup}
use doris_ducklake.Deploy.Claim.{Deployment}
use doris_ducklake.Deploy.Host.{Host, Settings}
use doris_ducklake.Deploy.Later.{IsLater}
use doris_ducklake.Deploy.Install.{Evidence}
use doris_ducklake.Deploy.Startup.Fresh.{IsReady}
use doris_ducklake.Deploy.Run.{Smoke}
use doris_ducklake.Attest.Provider.Passed.{IsAttested}

module _ (h : Host) (s : Settings) (files : Evidence h.hash) (smoke : Smoke) where
  -- The rollback archive has been verified against its receipt.
  abbrev pub IsBackedUp : Type 0
  IsBackedUp =
      (previous : List ℕ × Backup h.hash) × (verify_backup h.hash files.open_tar previous.0
          previous.1
        ≡ ok tt)

  pub record HasPassed (d e : Deployment) : Type 0 where
    pub backed_up : IsBackedUp
    pub installed : Deployment
    pub is_installed : IsInstalled h s d installed
    pub waiting : Deployment
    pub since_install : IsLater installed waiting
    pub ready : Deployment
    pub while_waiting : IsLater waiting ready
    pub is_ready : IsReady h s waiting ready
    pub attested : Deployment
    pub since_ready : IsLater ready attested
    pub is_attested : IsAttested h s attested
    pub to_end : HasGrown attested e
