-- ===== src/Preflight/Target/Ownership.antt =====
-- What an accepted target has been checked for.
use doris_ducklake.Prelude.{All, List, Result, Text, [], has_no_items, member, not, ok, true, ◌≡◌}
use doris_ducklake.Json.{Value}
use doris_ducklake.Preflight.Network.Loopback.{PublishesOnLoopback}
use doris_ducklake.Preflight.Target.{
  FrontendSpec, Target, consumers_of, container_ids, described, frontend, is_own_service, label_is,
  project_label, volume_label,
}

module _ (ask : List Text → Result Text) (loads : Text → Result Value) (digest : Value → Text) where
  -- The container is the project's frontend, and it publishes nothing beyond the loopback.
  pub record IsOwnFrontend (spec : FrontendSpec) (identity : Text) : Type 0 where
    pub container : Value
    pub inspected : described ask loads digest identity ≡ ok container
    pub own : is_own_service container spec.container spec.project frontend ≡ ok true
    pub contained : PublishesOnLoopback container frontend

  -- Every container that uses the volume is among these, and an unmounted volume carries the
  -- labels of this project and key.
  pub record IsOwnVolume (spec : FrontendSpec) (ids : List Text) : Type 0 where
    pub labels : Value
    pub consumers : List Text
    pub used_by : consumers_of ask loads digest spec.volume ≡ ok consumers
    pub only : All (λ c. member c ids ≡ true) consumers
    pub unmounted :
        ids ≡ []
        → (label_is project_label spec.project labels ≡ ok true)
          × (label_is volume_label spec.key labels ≡ ok true)

  pub record IsOwnTarget (t : Target) : Type 0 where
    pub ids : List Text
    pub listed : container_ids ask loads digest t.spec.container ≡ ok ids
    pub present : t.fe_present ≡ not (has_no_items ids)
    pub frontends : All (IsOwnFrontend t.spec) ids
    pub volume : t.volume_present ≡ true → IsOwnVolume t.spec ids
