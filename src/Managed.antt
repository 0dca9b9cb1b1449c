-- ===== src/Managed.antt =====
-- pkg/common/upgrade: the managed upgrade of a cluster. The cluster's API, the provider and the
-- managed-upgrade-operator are outside: what they reply is an input, and the calls that the code
-- makes are listed in their order. Only the calls that change something, or that the results speak
-- of, are in the list.
pub mod Schedule
pub mod Operator
pub mod Trigger
pub mod Progress
pub mod Runs
use osde2e.Prelude.{ℕ, String, Bool, List, if◌then◌else◌, str_eq}

-- The settings of config.Cluster and config.Upgrade that the upgrade reads.
pub record UpgradeSettings : Type 0 where
  pub cluster_id : String
  pub cluster_version : String
  pub release_name : String
  pub image : String
  pub upgrade_type : String
  pub managed_upgrade_rescheduled : Bool
  pub managed_upgrade_test_pod_disruption_budgets : Bool
  pub managed_upgrade_test_node_drain : Bool

pub data Call : Type 0 where
  apply_workload : String → Call
  update_config_map : String → Call
  get_version_gate_id : String → Call
  add_gate_agreement : String → String → Call
  upgrade : String → String → Call
  create_upgrade_config : String → String → Call
  scale_operator : ℕ → Call
  list_upgrade_configs : Call
  get_upgrade_policy_id : String → Call
  update_upgrade_config : ℕ → Call
  update_pod delete_pod : String → Call
  update_schedule : String → String → String → Call

pub data ProviderSource : Type 0 where
  provider_ocm provider_local : ProviderSource

-- `getProviderSource`.
abbrev pub get_provider_source : UpgradeSettings → ProviderSource
get_provider_source s = if str_eq s.image "" then provider_ocm else provider_local
