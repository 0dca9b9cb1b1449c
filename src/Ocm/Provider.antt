-- ===== src/Ocm/Provider.antt =====
-- The provider of pkg/common/providers/ocmprovider: its settings and caches, and the service that it
-- asks. A state has the settings, the caches and the calls that were made, in their order. The
-- service is outside: a reply may depend on every call so far, the one that it replies to last. An
-- error that a response holds is the error of its call. Of the tries of the retryer the last one is
-- modelled: the ones before it failed, and what they asked is not listed.
use osde2e.Prelude.{ℕ, String, Bool, Option, List, [], ◌∷◌, ◌++◌}
use osde2e.Prelude.Int.{ℤ}
use osde2e.Prelude.Maps.{assign}
use osde2e.Spi.Cluster.{Cluster, Properties}
use osde2e.Go.{Error}
use osde2e.Go.Calls.{Reply, ends}
use osde2e.Go.Steps.{Step, from_reply, Keeps, from_reply-Keeps, change}

-- The states of a cluster that the code names, and the others.
pub data OcmState : Type 0 where
  error installing pending ready uninstalling hibernating resuming : OcmState
  other : String → OcmState

-- What the code reads of a cluster of the service; an optional part may be absent. A version has its
-- id and its channel group.
pub record OcmCluster : Type 0 where
  pub id : Option String
  pub name : String
  pub region : String
  pub flavour : String
  pub version : Option (String × String)
  pub cloud_provider : Option String
  pub product : Option String
  pub state : Option OcmState
  pub properties : Option Properties
  pub role_arn : String
  pub creation_timestamp : ℕ
  pub expiration_timestamp : ℕ
  pub compute_nodes : ℕ

-- The body of an update.
pub data Update : Type 0 where
  expire_at : ℕ → Update
  set_properties : Properties → Update
  set_proxy : String → String → String → Update
  drop_bundle : Update

-- The nodes of a new cluster.
pub record Nodes : Type 0 where
  pub availability_zones : List String
  pub compute : Option ℕ
  pub machine_type : Option String

-- The account that a new cluster of a customer runs on.
pub data Account : Type 0 where
  aws_account : String → String → String → List String → Account
  gcp_account : String → Account

-- The description of a new cluster.
pub record NewCluster : Type 0 where
  pub name : String
  pub flavour : String
  pub region : String
  pub multi_az : Bool
  pub version : String
  pub channel : String
  pub cloud_provider : String
  pub properties : Properties
  pub trust_bundle : Option String
  pub http_proxy : Option String
  pub https_proxy : Option String
  pub account : Option Account
  pub expiration_timestamp : Option ℕ
  pub nodes : Nodes
  pub addons : List String

pub data Call : Type 0 where
  get_cluster : String → Call
  list_addons : String → Call
  update_cluster : String → Update → Call
  delete_cluster : String → Call
  get_credentials : String → Call
  list_clusters : String → ℕ → Call
  list_names : String → ℕ → Call
  get_account : Call
  list_subscriptions : String → ℕ → Call
  list_regions : String → Call
  list_machine_types : String → Call
  list_subnets : Call
  get_sku : String → Call
  get_quota : String → Call
  search_reserve : String → Call
  create_cluster : NewCluster → Call
  get_addon : String → Call
  install_addon : String → String → Properties → Call

pub record OcmSettings : Type 0 where
  -- The environment of the provider.
  pub environment : String
  -- config.Cluster
  pub version : String
  pub channel : String
  pub multi_az : Bool
  pub reserve : Bool
  pub use_cluster_reserve : Bool
  pub claimed_from_reserve : Bool
  pub provision_shard_id : String
  pub image_content_source : String
  pub install_config : String
  -- A duration that may be negative, in minutes, and a number that may be negative.
  pub expiry_in_minutes : ℤ
  pub num_worker_nodes : ℤ
  pub use_proxy_for_install : Bool
  -- config.Addons
  pub skip_addon_list : Bool
  pub addon_ids : String
  pub ids_at_creation : String
  -- config.CloudProvider
  pub cloud_provider_id : String
  pub region : String
  -- config.JobName, JobID and JobType
  pub job_name : String
  pub job_id : ℤ
  pub job_type : String
  -- config.Kubeconfig
  pub kubeconfig_path : String
  pub kubeconfig_contents : String
  -- config.Proxy
  pub user_ca_bundle : String
  pub http_proxy : String
  pub https_proxy : String
  -- config.AWSAccountId, AWSVPCSubnetIDs, GCPProjectID, and the images of the test suites
  pub aws_account_id : String
  pub aws_vpc_subnet_ids : String
  pub gcp_project_id : String
  pub ad_hoc_test_images : String
  -- The settings of the provider (config.go), and rosa.STS
  pub compute_machine_type : String
  pub compute_machine_type_regex : String
  pub user_override : String
  pub additional_labels : String
  pub flavours : String
  pub skus : String
  pub ccs : Bool
  pub sts : Bool

pub record State : Type 0 where
  pub settings : OcmSettings
  pub cluster_cache : List (String × Cluster)
  pub credential_cache : List (String × String)
  pub calls : List Call

abbrev pub settings_of : Step State OcmSettings
settings_of s = (ends s.settings, s)

abbrev pub set_settings : (OcmSettings → OcmSettings) → Step State Unit
set_settings f = change (λ s. record s { settings = f s.settings })

abbrev pub cache_cluster : String → Cluster → Step State Unit
cache_cluster id cl = change (λ s. record s { cluster_cache = assign id cl s.cluster_cache })

abbrev pub cache_credentials : String → String → Step State Unit
cache_credentials id text =
    change (λ s. record s { credential_cache = assign id text s.credential_cache })

abbrev pub called : Call → State → State
called c s = record s { calls = s.calls ++ (c ∷ []) }

-- A call, what the service replies, and what the code makes of its error.
abbrev pub ask : {A : Type 0} → Call → (List Call → Reply A) → (Error → Error) → Step State A
ask c f wrap s = from_reply wrap (f (s.calls ++ (c ∷ []))) (called c s)

-- What the state keeps when a call is listed, asking the call keeps.
pub ask-Keeps :
    {A : Type 0} (P : State → Type 0) (c : Call) (f : List Call → Reply A) (wrap : Error → Error)
    → ((s : State) → P s → P (called c s))
    → Keeps P (ask c f wrap)
ask-Keeps P c f wrap h s p = from_reply-Keeps P wrap (f (s.calls ++ (c ∷ []))) (called c s) (h s p)

abbrev pub same : Error → Error
same e = e
