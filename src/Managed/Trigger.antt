-- ===== src/Managed/Trigger.antt =====
-- managed.go: `TriggerManagedUpgrade` and `isUpgradeTriggered`.
pub mod Laws
use osde2e.Prelude.{
  ℕ, zero, suc, String, Bool, true, false, not, Option, none, some, List, [], ◌∷◌, if◌then◌else◌,
  str_eq,
}
use osde2e.Go.{Error, errorf, wrapf, passed_on}
use osde2e.Go.Calls.{
  Reply, replied, refused, End, Run, pure, fail, die, call, or_fail, wrapped_end, ends, fails, dies,
  after_end, ◌>>=◌, ◌>>◌,
}
use osde2e.Semver.{Semver}
use osde2e.Versions.Selector.{openshift_version_to_semver}
use osde2e.Managed.{UpgradeSettings, Call, list_upgrade_configs}
use osde2e.Managed.Schedule.{
  ScheduleReplies, schedule_upgrade_with_provider, update_upgrade_with_provider,
}
use osde2e.Managed.Operator.{
  OperatorReplies, RestartRound, WorkloadReplies, create_upgrade_cluster_workloads,
  override_operator_config, restart_operator,
}

pub record TriggerReplies : Type 0 where
  pub pdb : WorkloadReplies
  pub drain : WorkloadReplies
  pub operator : OperatorReplies
  pub schedule : ScheduleReplies
  pub restarts : List RestartRound

-- `configv1.Update`.
pub record Update : Type 0 where
  pub version : String
  pub image : String

-- `isUpgradeConfigCreated` is asked six times, whatever it says.
abbrev pub wait_for_upgrade_config : ℕ → Run Call Unit
wait_for_upgrade_config zero = pure tt
wait_for_upgrade_config (suc n) =
    record { calls = list_upgrade_configs ∷ []; end = ends tt } >> wait_for_upgrade_config n

module _ (V : Type 0) ⦃sv : Semver V⦄ where
  -- The branch that takes the version is the one where the text is no version, and `String` of the
  -- nil version panics.
  abbrev pub desired_update : UpgradeSettings → Run Call Update
  desired_update s =
      if str_eq s.release_name ""
      then pure (record { version = ""; image = s.image })
      else elim (openshift_version_to_semver {V = V} s.release_name) [
        | none ↦ die
        | some v ↦ pure (record { version = ""; image = s.image })
      ]

  abbrev pub reschedule : UpgradeSettings → ScheduleReplies → Run Call Unit
  reschedule s r =
      if s.managed_upgrade_rescheduled
      then or_fail (wrapf "can't reschedule upgrade: %v" []) (update_upgrade_with_provider V s r)
      else pure tt

  -- All that comes before the update that is returned.
  unfoldable pub start_upgrade : UpgradeSettings → TriggerReplies → Run Call Unit
  start_upgrade s r = do
    _ ← create_upgrade_cluster_workloads s r.pdb r.drain
    _ ←
        or_fail (wrapf "unable to override operator configuration: %v" [])
          (override_operator_config r.operator)
    _ ←
        or_fail (wrapf "can't initiate managed upgrade: %v" [])
          (schedule_upgrade_with_provider V s r.schedule)
    _ ←
        or_fail (wrapf "error restarting managed-upgrade-operator: %v" [])
          (restart_operator r.restarts)
    _ ← wait_for_upgrade_config 6
    reschedule s r.schedule

  unfoldable pub trigger_managed_upgrade : UpgradeSettings → TriggerReplies → Run Call Update
  trigger_managed_upgrade s r = start_upgrade s r >> desired_update s

-- The part of an UpgradeConfig's history that the code reads.
pub record History : Type 0 where
  pub phase : String
  -- The messages of the conditions.
  pub conditions : List String

-- An UpgradeConfig; `get_history` is the operator's function of its history.
pub record UpgradeConfig : Type 0 where
  pub desired_version : String
  pub pdb_force_drain_timeout : ℕ
  pub get_history : String → Option History

-- The UpgradeConfig is read and converted.
unfoldable pub is_upgrade_triggered :
    Reply Unit → Reply UpgradeConfig → Update → Bool × Option Error
is_upgrade_triggered (refused e) converted desired =
    (false, some (wrapf "failed to get the upgrade config: %v" [] e))
is_upgrade_triggered (replied u) (refused e) desired = (false, some e)
is_upgrade_triggered (replied u) (replied uc) desired = elim (uc.get_history desired.version) [
  | none ↦ (false, some (errorf "upgrade has not been scheduled" []))
  | some h ↦
      if not (str_eq h.phase "Pending")
      then (true, some (errorf "cluster upgrade has been triggered" []))
      else (false, none)
]
