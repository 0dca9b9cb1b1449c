-- ===== src/Examples/Managed.antt =====
-- The managed upgrade on concrete settings and replies.
use osde2e.Prelude.{
  ◌≡◌, refl, ◌↔◌, true, false, String, Option, none, some, [], ◌∷◌, if◌then◌else◌, str_eq,
  trim_prefix, itoa,
}
use osde2e.Prelude.Int.{pos}
use osde2e.Go.Calls.{replied, ends}
use osde2e.Semver.Sample.{Sample, sample_semver}
use osde2e.Versions.Common.{major_minor}
use osde2e.Managed.{UpgradeSettings, get_version_gate_id, add_gate_agreement, upgrade}
use osde2e.Managed.Schedule.{
  ScheduleReplies, init_upgrade_manager, apply_version_gate_agreement, schedule_ocm_upgrade,
  schedule_upgrade_with_provider, update_upgrade_with_provider,
}
use osde2e.Managed.Schedule.Gates.{CallsOf, schedule_ocm_upgrade_lem}
use osde2e.Managed.Operator.{
  OperatorReplies, create_upgrade_cluster_workloads, override_operator_config, restart_operator,
}
use osde2e.Managed.Trigger.{
  TriggerReplies, Update, UpgradeConfig, History, start_upgrade, trigger_managed_upgrade,
}
use osde2e.Managed.Runs.{UpgradeRound, RunReplies, upgrade_rounds, run_upgrade}
use osde2e.Managed.Runs.Rounds.{Succeeds, upgrade_rounds_lem}
use osde2e.Managed.Runs.Rescheduled.{run_upgrade_rescheduled}

abbrev settings : UpgradeSettings
settings = record {
  cluster_id = "1a2b";
  cluster_version = "openshift-v4.3.12";
  release_name = "openshift-v4.4.0";
  image = "";
  upgrade_type = "OSD";
  managed_upgrade_rescheduled = true;
  managed_upgrade_test_pod_disruption_budgets = false;
  managed_upgrade_test_node_drain = false;
}

abbrev schedule_replies : ScheduleReplies
schedule_replies = record {
  provider = replied tt;
  version_gate = replied "gate";
  gate_agreement = replied tt;
  upgrade_started = replied tt;
  upgrade_config_created = replied tt;
  policy = replied "policy";
  schedule_updated = replied tt;
}

-- To 4.4 the gate is agreed to first.
agrees_first :
    (schedule_ocm_upgrade Sample settings schedule_replies).calls
    ≡ get_version_gate_id "4.4" ∷ add_gate_agreement "1a2b" "gate" ∷ upgrade "1a2b" "4.4.0" ∷ []
unfolding schedule_ocm_upgrade init_upgrade_manager apply_version_gate_agreement trim_prefix
    major_minor itoa
agrees_first = refl

schedule_ocm_upgrade_lem_example :
    CallsOf settings
      (init_upgrade_manager {V = Sample} settings schedule_replies).end
      schedule_replies
      (schedule_ocm_upgrade Sample settings schedule_replies).calls
schedule_ocm_upgrade_lem_example = schedule_ocm_upgrade_lem Sample settings schedule_replies

abbrev operator_replies : OperatorReplies
operator_replies = record {
  config_map = replied (some "old");
  template = replied tt;
  config_override = replied "new";
  config_map_updated = replied tt;
}

-- The upgrade to 4.4.0 has started.
abbrev started : String → Option History
started version =
    if str_eq version "4.4.0" then some (record { phase = "Upgrading"; conditions = [] }) else none

abbrev upgraded : String → Option History
upgraded version =
    if str_eq version "4.4.0" then some (record { phase = "Upgraded"; conditions = [] }) else none

abbrev config_with : (String → Option History) → UpgradeConfig
config_with history = record {
  desired_version = "4.4.0";
  pdb_force_drain_timeout = 5;
  get_history = history;
}

abbrev round_with : (String → Option History) → UpgradeRound
round_with history = record {
  operator = operator_replies;
  snapshot = record {
    listed = replied (some (replied (config_with history)));
    provider = replied tt;
    policy = replied "policy";
    config_updated = replied tt;
  };
}

upgrade_rounds_lem_example :
    ((upgrade_rounds (round_with started ∷ round_with upgraded ∷ [])).end ≡ ends tt)
    ↔ Succeeds (round_with started ∷ round_with upgraded ∷ [])
upgrade_rounds_lem_example = upgrade_rounds_lem (round_with started ∷ round_with upgraded ∷ [])

abbrev trigger_replies : TriggerReplies
trigger_replies = record {
  pdb = record { installed = true; applied = replied tt; pod_checks = [] };
  drain = record { installed = true; applied = replied tt; pod_checks = [] };
  operator = operator_replies;
  schedule = schedule_replies;
  restarts =
      record {
        down_read = replied tt;
        down_set = replied tt;
        up_read = replied tt;
        up_set = replied tt;
      }
      ∷ [];
}

abbrev run_replies : RunReplies
run_replies = record {
  provider = replied "ocm";
  trigger = trigger_replies;
  config_read = replied tt;
  config_converted = replied (config_with started);
  rounds = [];
  wait = record {
    skip_cluster_health_checks = true;
    clean_check_runs = pos 1;
    provider = replied tt;
    provisioning = replied tt;
    cluster_ready = replied true;
    rounds = [];
    healthy_added = replied tt;
  };
  drain_pods = replied [];
}

abbrev nameless : Update
nameless = record { version = ""; image = "" }

is_triggered : (trigger_managed_upgrade Sample settings trigger_replies).end ≡ ends nameless
unfolding trigger_managed_upgrade start_upgrade create_upgrade_cluster_workloads
    override_operator_config schedule_upgrade_with_provider schedule_ocm_upgrade
    init_upgrade_manager trim_prefix apply_version_gate_agreement restart_operator
    update_upgrade_with_provider
is_triggered = refl

-- The upgrade that was put off has started.
run_upgrade_rescheduled_example : (run_upgrade Sample settings run_replies).end ≡ ends tt
run_upgrade_rescheduled_example =
    run_upgrade_rescheduled Sample settings run_replies "ocm" nameless refl refl refl is_triggered
      refl
