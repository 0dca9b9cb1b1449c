-- ===== src/Spi/Cluster.antt =====
-- pkg/common/spi/cluster.go: a cluster between a provider and the rest of the program. A builder has
-- the same fields, so it is a cluster. Times are seconds; properties may be nil.
use osde2e.Prelude.{ℕ, String, Option, none, List, []}

pub data ClusterState : Type 0 where
  error installing pending pending_account ready uninstalling unknown powering_down hibernating
        resuming :
      ClusterState

abbrev pub Properties : Type 0
Properties = List (String × String)

pub record Cluster : Type 0 where
  pub id : String
  pub name : String
  pub version : String
  pub channel_group : String
  pub cloud_provider : String
  pub product : String
  pub region : String
  pub creation_timestamp : ℕ
  pub expiration_timestamp : ℕ
  pub state : ClusterState
  pub flavour : String
  pub addons : List String
  pub num_compute_nodes : ℕ
  pub properties : Option Properties

-- `NewClusterBuilder`; a time that is not set is the zero time.
abbrev pub new_cluster : Cluster
new_cluster = record {
  id = "";
  name = "";
  version = "";
  channel_group = "";
  cloud_provider = "";
  product = "";
  region = "";
  creation_timestamp = 0;
  expiration_timestamp = 0;
  state = unknown;
  flavour = "";
  addons = [];
  num_compute_nodes = 0;
  properties = none;
}
