-- ===== src/Managed/Runs.antt =====
-- upgrade.go: `RunUpgrade`. The rounds of the upgrade's poll until its timeout are a list; the wait
-- for the cluster after it is that of Cluster/Wait.
pub mod Rounds
pub mod Rescheduled
use osde2e.Prelude.{
  String, Bool, true, false, not, ◌||◌, Option, none, some, List, [], ◌∷◌, ◌++◌, if◌then◌else◌,
  str_eq, concat, has_prefix,
}
use osde2e.Go.{Error, errorf, wrapf}
use osde2e.Go.Calls.{
  Reply, replied, refused, Run, pure, fail, die, call, given, or_fail, wrapped_end, ends, fails,
  dies, after_end, ◌>>=◌, ◌>>◌,
}
use osde2e.Semver.{Semver, dotted}
use osde2e.Versions.Selector.{openshift_version_to_semver}
use osde2e.Cluster.Wait.{Inputs, wait_for_cluster_ready}
use osde2e.Managed.{UpgradeSettings, Call, update_pod, delete_pod}
use osde2e.Managed.Operator.{OperatorReplies, override_operator_config}
use osde2e.Managed.Trigger.{
  TriggerReplies, Update, UpgradeConfig, trigger_managed_upgrade, is_upgrade_triggered,
}
use osde2e.Managed.Progress.{Snapshot, is_managed_upgrade_done}

-- A round of the poll: the configuration of the operator is overridden first, and an error of that
-- only makes a message.
pub record UpgradeRound : Type 0 where
  pub operator : OperatorReplies
  pub snapshot : Snapshot

abbrev pub attempt : {A : Type 0} → Run Call A → Run Call Unit
attempt m = record { calls = m.calls; end = ends tt }

abbrev pub timed_out : Error
timed_out = errorf "failed to upgrade cluster: %v" []

abbrev pub failed_upgrade : Error → Error
failed_upgrade e = wrapf "failed to upgrade cluster: %v" [] e

abbrev pub judge_round : Bool × Option Error → Run Call Unit → Run Call Unit
judge_round (over, some e) rest = fail (failed_upgrade e)
judge_round (true, none) rest = pure tt
judge_round (false, none) rest = rest

unfoldable pub upgrade_rounds : List UpgradeRound → Run Call Unit
upgrade_rounds [] = fail timed_out
upgrade_rounds (r ∷ rs) =
    let rest = upgrade_rounds rs in
    attempt (override_operator_config r.operator)
    >> (is_managed_upgrade_done r.snapshot >>= λ p. judge_round p rest)

-- A pod of the node drain test: its finalizers are removed and it is deleted.
pub record DrainPod : Type 0 where
  pub name : String
  pub updated : Reply Unit
  pub deleted : Reply Unit

pub remove_drain_pods : List DrainPod → Run Call Unit
remove_drain_pods [] = pure tt
remove_drain_pods (p ∷ ps) =
    let rest = remove_drain_pods ps in
    call (update_pod p.name) p.updated (λ e. e)
    >> (call (delete_pod p.name) p.deleted (λ e. e) >> rest)

abbrev pub no_error : String → Option Error → Run Call Unit
no_error format none = pure tt
no_error format (some e) = fail (wrapf format [] e)

pub record RunReplies : Type 0 where
  pub provider : Reply String
  pub trigger : TriggerReplies
  pub config_read : Reply Unit
  pub config_converted : Reply UpgradeConfig
  pub rounds : List UpgradeRound
  pub wait : Inputs
  pub drain_pods : Reply (List DrainPod)

-- After the pause: whether the upgrade that was put off has started.
abbrev pub check_rescheduled : Bool × Option Error → Run Call Unit
check_rescheduled (true, none) = fail (errorf "the upgrade was triggered unexpectly: %v" [])
check_rescheduled (true, some e) = fail (wrapf "the upgrade was triggered unexpectly: %v" [] e)
check_rescheduled (false, e) = pure tt

abbrev pub remove_drain_pods_if : Bool → Reply (List DrainPod) → Run Call Unit
remove_drain_pods_if false pods = pure tt
remove_drain_pods_if true pods =
    given pods (wrapf "error listing pods: %s" []) >>= λ items. remove_drain_pods items

abbrev pub follow_upgrade : UpgradeSettings → RunReplies → Run Call Unit
follow_upgrade s r = do
  _ ← upgrade_rounds r.rounds
  _ ← no_error "failed waiting for cluster ready: %v" (wait_for_cluster_ready r.wait true false).0
  remove_drain_pods_if s.managed_upgrade_test_node_drain r.drain_pods

abbrev pub after_trigger : UpgradeSettings → RunReplies → Update → Run Call Unit
after_trigger s r desired =
    if s.managed_upgrade_rescheduled
    then check_rescheduled (is_upgrade_triggered r.config_read r.config_converted desired)
    else follow_upgrade s r

module _ (V : Type 0) ⦃sv : Semver V⦄ where
  abbrev pub trigger_for : String → UpgradeSettings → TriggerReplies → Run Call Update
  trigger_for provider_type s r =
      if str_eq provider_type "rosa" || str_eq provider_type "ocm"
      then or_fail (wrapf "failed triggering upgrade: %v" []) (trigger_managed_upgrade V s r)
      else fail (errorf "unsupported provider for managed upgrades (%s)" (provider_type ∷ []))

  unfoldable pub run_upgrade : UpgradeSettings → RunReplies → Run Call Unit
  run_upgrade s r = do
    provider_type ← given r.provider (wrapf "can't determine provider for managed upgrade: %s" [])
    desired ← trigger_for provider_type s r.trigger
    after_trigger s r desired

-- `VersionToChannel`: the channel of a version, or of the version that is installed when upgrades
-- stay within its Z releases. The reply is the provider's `CincinnatiChannel`.
module _ {V : Type 0} ⦃sv : Semver V⦄ where
  abbrev pub channel_of : String → V → String
  channel_of channel v = concat (channel ∷ "-" ∷ dotted (sv.major v) (sv.minor v) ∷ [])

  abbrev pub provider_channel : Reply String → V → Run Call String
  provider_channel channel v =
      if has_prefix (sv.prerelease v) "rc"
      then pure (channel_of "candidate" v)
      else (given channel (wrapf "unable to get provider: %s" []) >>= λ name.
          pure (channel_of name v))

  abbrev pub channel_or_die : Reply String → Option V → Run Call String
  channel_or_die channel none = die
  channel_or_die channel (some v) = provider_channel channel v

  unfoldable pub version_to_channel : Bool → String → Reply String → V → Run Call String
  version_to_channel to_latest_z cluster_version channel v =
      channel_or_die channel
        (if to_latest_z then openshift_version_to_semver cluster_version else some v)
