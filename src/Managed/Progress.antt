-- ===== src/Managed/Progress.antt =====
-- managed.go: `isManagedUpgradeDone`. Of its three results the message only goes to the log.
use osde2e.Prelude.{
  ℕ, Bool, true, false, String, Option, none, some, List, [], ◌∷◌, if◌then◌else◌, str_eq, ◌==◌,
}
use osde2e.Go.{Error, errorf, wrapf}
use osde2e.Go.Calls.{Reply, replied, refused, Run, ends}
use osde2e.Managed.{Call, update_upgrade_config}
use osde2e.Managed.Trigger.{UpgradeConfig, History}

-- What is replied in one round: the first UpgradeConfig of the list, if there is one, with its
-- conversion; the provider and its policy; and the update of the UpgradeConfig.
pub record Snapshot : Type 0 where
  pub listed : Reply (Option (Reply UpgradeConfig))
  pub provider : Reply Unit
  pub policy : Reply String
  pub config_updated : Reply Unit

-- `configPdbDrainTimeoutOverride`.
abbrev pub pdb_drain_timeout_override : ℕ
pdb_drain_timeout_override = 5

-- `overrideUpgradeConfig`, whose error only makes a message.
abbrev pub override_upgrade_config : UpgradeConfig → List Call
override_upgrade_config uc =
    if uc.pdb_force_drain_timeout == pdb_drain_timeout_override
    then []
    else update_upgrade_config pdb_drain_timeout_override ∷ []

-- The cluster has no UpgradeConfig: what the provider says of its policy.
abbrev pub without_config : Reply Unit → Reply String → Bool × Option Error
without_config (refused e) policy =
    (false, some (wrapf "error getting clusterprovider for upgrade: %v" [] e))
without_config (replied u) (refused e) = (false, none)
without_config (replied u) (replied policy) =
    if str_eq policy ""
    then (
      true,
      some (
          errorf
            "the provider no longer has an upgrade policy, the upgrade has been cancelled or failed"
            []),
    )
    else (false, none)

abbrev pub by_history : Option History → Bool × Option Error
by_history none = (false, none)
by_history (some h) =
    if str_eq h.phase "Failed"
    then (
      true,
      some (errorf "managed-upgrade-operator has indicated upgrade failed to commence" []),
    )
    else (if str_eq h.phase "Upgraded" then (true, none) else (false, none))

abbrev pub by_config : Reply UpgradeConfig → Bool × Option Error
by_config (refused e) = (false, some (errorf "error parsing upgradeconfig into object" []))
by_config (replied uc) = by_history (uc.get_history uc.desired_version)

abbrev pub by_list : Snapshot → Reply (Option (Reply UpgradeConfig)) → Bool × Option Error
by_list s (refused e) = (false, none)
by_list s (replied none) = without_config s.provider s.policy
by_list s (replied (some converted)) = by_config converted

abbrev pub override_calls : Reply (Option (Reply UpgradeConfig)) → List Call
override_calls (refused e) = []
override_calls (replied none) = []
override_calls (replied (some (refused e))) = []
override_calls (replied (some (replied uc))) = override_upgrade_config uc

unfoldable pub is_managed_upgrade_done : Snapshot → Run Call (Bool × Option Error)
is_managed_upgrade_done s = record {
  calls = override_calls s.listed;
  end = ends (by_list s s.listed);
}
