-- ===== src/Managed/Schedule.antt =====
-- managed.go: the schedule of an upgrade with the provider, and the version gate before it. The
-- dates are left out.
pub mod Gates
use osde2e.Prelude.{
  String, Bool, true, false, Option, none, some, [], ◌∷◌, if◌then◌else◌, str_eq, ltb, trim_prefix,
}
use osde2e.Go.{Error, errorf, wrapf, passed_on}
use osde2e.Go.Calls.{
  Reply, Run, pure, fail, call, given, try_call, or_fail, ends, fails, dies, after_end, ◌>>=◌, ◌>>◌,
}
use osde2e.Semver.{Semver}
use osde2e.Versions.Common.{create_major_minor}
use osde2e.Versions.Selector.{openshift_version_to_semver}
use osde2e.Managed.{
  UpgradeSettings, Call, get_version_gate_id, add_gate_agreement, upgrade, create_upgrade_config,
  get_upgrade_policy_id, update_schedule, ProviderSource, provider_ocm, provider_local,
  get_provider_source,
}

-- What the provider and the API of the cluster reply.
pub record ScheduleReplies : Type 0 where
  pub provider : Reply Unit
  pub version_gate : Reply String
  pub gate_agreement : Reply Unit
  pub upgrade_started : Reply Unit
  pub upgrade_config_created : Reply Unit
  pub policy : Reply String
  pub schedule_updated : Reply Unit

pub record UpgradeManager (V : Type 0) : Type 0 where
  pub cluster_id : String
  pub cluster_version : V
  pub upgrade_version : V

abbrev pub as_it_is : Error → Error
as_it_is e = e

module _ {V : Type 0} ⦃sv : Semver V⦄ where
  abbrev pub parsed : String → Error → Run Call V
  parsed text e = elim (openshift_version_to_semver text) [ none ↦ fail e | some v ↦ pure v ]

  abbrev pub manager_of : UpgradeSettings → ScheduleReplies → Run Call (UpgradeManager V)
  manager_of s r = do
    cluster ← parsed s.cluster_version (
        wrapf "unable to semantic-version parse cluster version: %v" []
          (passed_on "semver.NewVersion" s.cluster_version))
    target ←
        parsed s.release_name
          (errorf "unable to semantic-version parse release name: %v" (s.release_name ∷ []))
    _ ← given r.provider (wrapf "error getting clusterprovider for upgrade: %v" [])
    pure (record { cluster_id = s.cluster_id; cluster_version = cluster; upgrade_version = target })

  unfoldable pub init_upgrade_manager :
      UpgradeSettings → ScheduleReplies → Run Call (UpgradeManager V)
  init_upgrade_manager s r =
      if str_eq s.release_name ""
      then fail (errorf "missing release name used for upgrade" [])
      else manager_of s r

  -- A version gate that is not found only makes a message.
  abbrev pub agree_to_gate : UpgradeManager V → ScheduleReplies → Run Call Unit
  agree_to_gate m r = do
    gate ←
        try_call (get_version_gate_id (create_major_minor (some m.upgrade_version))) r.version_gate
    elim gate [
      | none ↦ pure tt
      | some id ↦ call (add_gate_agreement m.cluster_id id) r.gate_agreement as_it_is
    ]

  unfoldable pub apply_version_gate_agreement : UpgradeManager V → ScheduleReplies → Run Call Unit
  apply_version_gate_agreement m r =
      if ltb (sv.minor m.cluster_version) (sv.minor m.upgrade_version)
      then agree_to_gate m r
      else pure tt

module _ (V : Type 0) ⦃sv : Semver V⦄ where
  unfoldable pub schedule_ocm_upgrade : UpgradeSettings → ScheduleReplies → Run Call Unit
  schedule_ocm_upgrade s r = do
    m ← init_upgrade_manager {V = V} s r
    _ ← apply_version_gate_agreement m r
    call (upgrade m.cluster_id (sv.string m.upgrade_version)) r.upgrade_started
        (wrapf "error initiating upgrade from provider: %w" [])

  -- The conversion of the new UpgradeConfig, which the code builds itself, does not fail.
  abbrev pub schedule_local_upgrade_of : String → UpgradeSettings → ScheduleReplies → Run Call Unit
  schedule_local_upgrade_of upgrade_type s r = do
    m ← init_upgrade_manager {V = V} s r
    _ ← apply_version_gate_agreement m r
    call (create_upgrade_config s.image upgrade_type) r.upgrade_config_created as_it_is

  unfoldable pub schedule_local_upgrade : UpgradeSettings → ScheduleReplies → Run Call Unit
  schedule_local_upgrade s r =
      if str_eq s.upgrade_type "OSD"
      then schedule_local_upgrade_of "OSD" s r
      else (if str_eq s.upgrade_type "ARO"
          then schedule_local_upgrade_of "ARO" s r
          else fail (errorf "unsupported upgrade type: %v" (s.upgrade_type ∷ [])))

  unfoldable pub schedule_upgrade_with_provider : UpgradeSettings → ScheduleReplies → Run Call Unit
  schedule_upgrade_with_provider s r = elim (get_provider_source s) [
    | provider_ocm ↦ schedule_ocm_upgrade s r
    | provider_local ↦ schedule_local_upgrade s r
  ]

  abbrev pub update_policy : UpgradeSettings → ScheduleReplies → V → String → Run Call Unit
  update_policy s r v policy =
      if str_eq policy ""
      then fail (errorf "no upgrade policy exists on the cluster to update" [])
      else call (update_schedule s.cluster_id (sv.string v) policy) r.schedule_updated
          (wrapf "error updating the upgrade schedule via provider: %v" [])

  abbrev pub update_ocm_upgrade : UpgradeSettings → ScheduleReplies → Run Call Unit
  update_ocm_upgrade s r = do
    v ← parsed {V = V} s.release_name (
        wrapf "error parsing releasename into semver: %v" []
          (passed_on "semver.NewVersion" s.release_name))
    _ ← given r.provider (wrapf "error getting clusterprovider for upgrade: %v" [])
    policy ←
        call (get_upgrade_policy_id s.cluster_id) r.policy
          (wrapf "unable to retrieve upgrade policy ID to update: %v" [])
    update_policy s r v policy

  unfoldable pub update_upgrade_with_provider : UpgradeSettings → ScheduleReplies → Run Call Unit
  update_upgrade_with_provider s r = elim (get_provider_source s) [
    | provider_local ↦ pure tt
    | provider_ocm ↦ update_ocm_upgrade s r
  ]
