-- ===== src/Managed/Operator.antt =====
-- managed.go: the configuration of the managed-upgrade-operator, its restart, and the workloads that
-- are created before an upgrade.
use osde2e.Prelude.{
  String, Bool, true, false, Option, none, some, List, [], ◌∷◌, ◌++◌, if◌then◌else◌, str_eq,
}
use osde2e.Go.{errorf, wrapf}
use osde2e.Go.Calls.{Reply, replied, refused, Run, pure, fail, call, given, or_fail, ends, ◌>>=◌}
use osde2e.Health.{Verdict}
use osde2e.Managed.{UpgradeSettings, Call, apply_workload, update_config_map, scale_operator}

-- The config map's `config.yaml`, which may be missing, and the text of the template, which is read
-- and then filled in.
pub record OperatorReplies : Type 0 where
  pub config_map : Reply (Option String)
  pub template : Reply Unit
  pub config_override : Reply String
  pub config_map_updated : Reply Unit

abbrev pub override_with : String → String → Reply Unit → Run Call Unit
override_with config config_override updated =
    if str_eq config config_override
    then pure tt
    else call (update_config_map config_override) updated
        (wrapf "managed-upgrade-operator configmap could not be updated: %v" [])

abbrev pub config_of : Option String → Run Call String
config_of none =
    fail (errorf "managed-upgrade-operator configmap missing mandatory key config.yaml" [])
config_of (some config) = pure config

unfoldable pub override_operator_config : OperatorReplies → Run Call Unit
override_operator_config r = do
  found ← given r.config_map (wrapf "managed-upgrade-operator configmap not found: %v" [])
  config ← config_of found
  _ ← given r.template (wrapf "can't read upgrade config override template: %v" [])
  config_override ←
      given r.config_override (wrapf "can't parse upgrade config override template: %v" [])
  override_with config config_override r.config_map_updated

-- One round of the restart: the scale is read and set to 0, and read and set to 1. `true` ends it.
pub record RestartRound : Type 0 where
  pub down_read : Reply Unit
  pub down_set : Reply Unit
  pub up_read : Reply Unit
  pub up_set : Reply Unit

-- A call of a round whose error ends the round.
abbrev pub or_round_ends : List Call → Reply Unit → Run Call Bool → Run Call Bool
or_round_ends made (refused e) rest = record { calls = made; end = ends false }
or_round_ends made (replied u) rest = record rest { calls = made ++ rest.calls }

abbrev pub restart_round : RestartRound → Run Call Bool
restart_round r = or_round_ends [] r.down_read (
    or_round_ends (scale_operator 0 ∷ []) r.down_set
      (or_round_ends [] r.up_read (or_round_ends (scale_operator 1 ∷ []) r.up_set (pure true))))

-- The rounds until the timeout.
pub restart_rounds : List RestartRound → Run Call Unit
restart_rounds [] =
    fail (errorf "couldn't restart managed-upgrade-operator for config re-sync: %v" [])
restart_rounds (r ∷ rs) =
    let rest = restart_rounds rs in restart_round r >>= λ over. if over then pure tt else rest

unfoldable pub restart_operator : List RestartRound → Run Call Unit
unfolding restart_rounds
restart_operator rounds = restart_rounds rounds

-- A workload that the helper has already is not created again; the health of its pods is polled
-- until the timeout.
pub record WorkloadReplies : Type 0 where
  pub installed : Bool
  pub applied : Reply Unit
  pub pod_checks : List Verdict

abbrev pub is_healthy : Verdict → Bool
is_healthy (ok, none) = ok
is_healthy (ok, some e) = false

abbrev pub becomes_healthy : List Verdict → Bool
becomes_healthy [] = false
becomes_healthy (v ∷ vs) = if is_healthy v then true else becomes_healthy vs

abbrev pub poll_pods : String → List Verdict → Run Call Unit
poll_pods name checks =
    if becomes_healthy checks
    then pure tt
    else fail (errorf "%s workload not running correctly: %v" (name ∷ []))

abbrev pub apply_then_poll : String → WorkloadReplies → Run Call Unit
apply_then_poll name w = do
  _ ← call (apply_workload name) w.applied (wrapf "can't create %s workload: %v" (name ∷ []))
  poll_pods name w.pod_checks

unfoldable pub create_managed_upgrade_workload : String → WorkloadReplies → Run Call Unit
create_managed_upgrade_workload name w = if w.installed then pure tt else apply_then_poll name w

abbrev pub workload_if : Bool → String → String → WorkloadReplies → Run Call Unit
workload_if wanted format name w =
    if wanted then or_fail (wrapf format []) (create_managed_upgrade_workload name w) else pure tt

unfoldable pub create_upgrade_cluster_workloads :
    UpgradeSettings → WorkloadReplies → WorkloadReplies → Run Call Unit
create_upgrade_cluster_workloads s pdb drain = do
  _ ←
      workload_if s.managed_upgrade_test_pod_disruption_budgets
        "unable to setup PDB workload for upgrade: %v" "pdb" pdb
  workload_if s.managed_upgrade_test_node_drain
      "unable to setup node drain test workload for upgrade: %v" "node-drain-test" drain
