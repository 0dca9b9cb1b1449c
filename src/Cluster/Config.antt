-- ===== src/Cluster/Config.antt =====
-- The settings that the life of a cluster reads and writes, the clusters themselves
-- (pkg/common/spi/cluster.go), and the calls that pkg/common/cluster/clusterutil.go makes. A state
-- has the settings and the calls that were made, in their order.
use osde2e.Prelude.{ℕ, String, Bool, List, [], ◌∷◌, ◌++◌}
use osde2e.Go.{Error}
use osde2e.Go.Calls.{Reply, ends}
use osde2e.Go.Steps.{Step, from_reply, ◌>>=◌, change}
use osde2e.Versions.Settings.{Settings}

-- The fields of `spi.Cluster` that the code does more with than log them; the two times are
-- minutes.
pub record Cluster : Type 0 where
  pub id : String
  pub name : String
  pub version : String
  pub channel_group : String
  pub cloud_provider : String
  pub region : String
  pub creation_timestamp : ℕ
  pub expiration_timestamp : ℕ
  pub num_compute_nodes : ℕ

pub record ClusterConfig : Type 0 where
  -- The settings of the choice of versions, `config.Cluster.Version` and `Channel` among them.
  pub versions : Settings
  -- config.Cluster
  pub id : String
  pub name : String
  pub use_cluster_reserve : Bool
  pub reserve : Bool
  pub claimed_from_reserve : Bool
  pub skip_destroy_cluster : Bool
  pub passing : Bool
  -- config.Suffix, Provider, Hypershift, SharedDir, and rosaprovider.STS
  pub suffix : String
  pub provider : String
  pub hypershift : Bool
  pub shared_dir : String
  pub sts : Bool
  -- config.CloudProvider
  pub cloud_provider_id : String
  pub region : String
  -- config.Kubeconfig
  pub kubeconfig_contents : String
  pub kubeconfig_path : String
  -- config.Tests and config.Upgrade
  pub skip_cluster_health_checks : Bool
  pub only_health_check_nodes : Bool
  pub upgrade_version_equal_to_install_version : Bool
  -- config.Addons
  pub addon_ids : String
  pub addon_parameters : String

-- The calls of the provider and of the cluster reserve, and the files that are written. What only
-- reads in a poll (the rounds' `GetCluster`, `ClusterKubeconfig`) is left out.
pub data Call : Type 0 where
  claim_cluster_from_reserve : String → String → String → Call
  query_reserve : String → String → String → Call
  is_valid_cluster_name : String → Call
  launch_cluster : String → Call
  get_cluster : String → Call
  add_property : String → String → Call
  install_addons : String → List String → Call
  delete_cluster : String → Call
  expire : String → ℕ → Call
  extend_expiry : String → ℕ → ℕ → ℕ → Call
  write_file : String → String → Call

pub record World : Type 0 where
  pub config : ClusterConfig
  pub calls : List Call

abbrev pub made : Call → World → World
made c w = record w { calls = w.calls ++ (c ∷ []) }

abbrev pub set_config : (ClusterConfig → ClusterConfig) → World → World
set_config f w = record w { config = f w.config }

abbrev pub config_of : Step World ClusterConfig
config_of w = (ends w.config, w)

-- A call, with what the code makes of its error.
abbrev pub call : {A : Type 0} → Call → (Error → Error) → Reply A → Step World A
call c wrap r = change (made c) >>= λ _. from_reply wrap r

abbrev pub same : Error → Error
same e = e
