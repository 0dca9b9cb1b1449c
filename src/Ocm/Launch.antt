-- ===== src/Ocm/Launch.antt =====
-- `LaunchCluster` of pkg/common/providers/ocmprovider/cluster.go. What is outside is a parameter: the
-- draws, the time, the user, the credentials and the file of the certificates. Of the data that
-- `RetrieveGCPConfigs` copies into the settings, the project is kept.
pub mod Created
use osde2e.Prelude.{
  ℕ, zero, suc, ◌+◌, ◌*◌, ◌%◌, String, Bool, true, false, not, ◌&&◌, Option, none, some, List, [],
  ◌∷◌, str_eq, if◌then◌else◌, split_commas, ◌==◌,
}
use osde2e.Prelude.Int.{ℤ, pos, negsuc}
use osde2e.Prelude.Maps.{assign}
use osde2e.Go.{Error, errorf, wrapf}
use osde2e.Go.Calls.{Reply, End, ends, fails, dies, wrapped_end}
use osde2e.Go.Steps.{Step, pure, fail, from_reply, bind_end, or_fail, ◌>>=◌, ◌>>◌}
use osde2e.Semver.{Semver}
use osde2e.Spi.Cluster.{Properties}
use osde2e.Ocm.Provider.{
  Account, aws_account, gcp_account, NewCluster, Nodes, OcmSettings, State, Call, list_subnets,
  create_cluster, settings_of, set_settings, ask, same,
}
use osde2e.Ocm.Clusters.{ClusterService}
use osde2e.Ocm.Choices.{
  CloudRegion, ChoiceService, Draws, get_flavour, get_sku, determine_region, determine_machine_type,
  try_step,
}
use osde2e.Ocm.Quota.{QuotaService, check_quota}
use osde2e.Ocm.Reserve.{Reserve, claim_cluster_from_reserve}
use osde2e.Ocm.Description.{
  Subnetwork, install_config_of, generate_properties, get_availability_zones,
}

pub record Inputs : Type 0 where
  pub draws : Draws
  pub shuffle : List CloudRegion → List CloudRegion
  pub now : ℕ
  pub user : Reply String
  -- The key and its secret, and the id of the account.
  pub aws_credentials : Reply (String × String)
  pub aws_account_id : String
  pub gcp_project : Reply String
  pub ca_bundle : String → Reply String

pub record LaunchService : Type 0 where
  pub subnets : List Call → Reply (List Subnetwork)
  pub created : List Call → Reply String

-- What the branch for the cluster of a customer adds.
pub record Extra : Type 0 where
  pub account : Option Account
  pub zones : List String
  pub trust_bundle : Option String
  pub http_proxy : Option String
  pub https_proxy : Option String

abbrev pub no_extra : Extra
no_extra = record {
  account = none;
  zones = [];
  trust_bundle = none;
  http_proxy = none;
  https_proxy = none;
}

abbrev pub unless_empty : String → Option String
unless_empty t = if str_eq t "" then none else some t

abbrev pub as_some : {A : Type 0} → Step State A → Step State (Option A)
as_some m = m >>= λ a. pure (some a)

abbrev pub quota_verdict : Option Bool → Step State Unit
quota_verdict none = pure tt
quota_verdict (some true) = pure tt
quota_verdict (some false) = fail (errorf "currently not enough quota exists to run this test" [])

-- An error of the check is a message.
abbrev pub check_enough : QuotaService → String → Step State Unit
check_enough qv sku =
    if str_eq sku "" then pure tt else try_step (check_quota qv sku) >>= quota_verdict

-- `GetSubnetworks`.
abbrev pub get_subnetworks : LaunchService → OcmSettings → Step State (List Subnetwork)
get_subnetworks lv st =
    if st.ccs && str_eq st.cloud_provider_id "aws"
    then ask list_subnets lv.subnets same
    else pure []

abbrev pub zones_of : LaunchService → OcmSettings → Step State (List String)
zones_of lv st =
    if str_eq st.aws_vpc_subnet_ids ""
    then pure []
    else or_fail (wrapf "error retrieving AWS subnetworks: %v" []) (get_subnetworks lv st)
      >>= λ subnets. pure (get_availability_zones subnets (split_commas st.aws_vpc_subnet_ids))

abbrev pub subnet_ids : OcmSettings → List String
subnet_ids st = if str_eq st.aws_vpc_subnet_ids "" then [] else split_commas st.aws_vpc_subnet_ids

abbrev pub trust_bundle_of : Inputs → OcmSettings → Step State (Option String)
trust_bundle_of i st =
    if st.use_proxy_for_install && not (str_eq st.user_ca_bundle "")
    then as_some
        (from_reply (wrapf "error loading CA contents: %v" []) (i.ca_bundle st.user_ca_bundle))
    else pure none

abbrev pub proxy_of : OcmSettings → String → Option String
proxy_of st url = if st.use_proxy_for_install then unless_empty url else none

abbrev pub need_account : String → Step State Unit
need_account id = if str_eq id "" then fail (errorf "aws account id is not set" []) else pure tt

abbrev pub aws_extra : Inputs → LaunchService → OcmSettings → Step State Extra
aws_extra i lv st = do
  creds ← from_reply same i.aws_credentials
  _ ← need_account i.aws_account_id
  zones ← zones_of lv st
  bundle ← trust_bundle_of i st
  pure (record {
    account = some (aws_account i.aws_account_id creds.0 creds.1 (subnet_ids st));
    zones = zones;
    trust_bundle = bundle;
    http_proxy = proxy_of st st.http_proxy;
    https_proxy = proxy_of st st.https_proxy;
  })

-- `RetrieveGCPConfigs`.
abbrev pub retrieve_gcp_configs : Inputs → Step State String
retrieve_gcp_configs i =
    from_reply (wrapf "error unmarshalling GCP credentials: %v" []) i.gcp_project >>= λ project.
    set_settings (λ st. record st { gcp_project_id = project }) >> pure project

abbrev pub gcp_extra : Inputs → Step State Extra
gcp_extra i = retrieve_gcp_configs i >>= λ project.
    if str_eq project ""
    then fail (errorf "no gcp project found" [])
    else pure (record no_extra { account = some (gcp_account project) })

abbrev pub ccs_extra : Inputs → LaunchService → OcmSettings → Step State Extra
ccs_extra i lv st =
    if not st.ccs
    then pure no_extra
    else if str_eq st.cloud_provider_id "aws"
    then aws_extra i lv st
    else if str_eq st.cloud_provider_id "gcp"
    then gcp_extra i
    else fail (errorf "invalid or no CCS Credentials provided for CCS cluster" [])

-- The positive value of a setting.
abbrev pub positive : ℤ → Option ℕ
positive (pos zero) = none
positive (pos (suc n)) = some (suc n)
positive (negsuc n) = none

abbrev pub compute_multi_az : Option ℕ → Option ℕ
compute_multi_az none = some 9
compute_multi_az (some n) = if (n % 3) == 0 then some n else some 9

unfoldable pub compute_of : Bool → ℤ → Option ℕ
compute_of multi_az n = if multi_az then compute_multi_az (positive n) else positive n

abbrev pub expiration_in : ℕ → Option ℕ → Option ℕ
expiration_in now none = none
expiration_in now (some minutes) = some (now + minutes * 60)

-- The expiry cannot be set on "prod".
unfoldable pub expiration_of : ℕ → OcmSettings → Option ℕ
expiration_of now st =
    if str_eq st.environment "prod" then none else expiration_in now (positive st.expiry_in_minutes)

abbrev pub with_install_config : String → Properties → Properties
with_install_config text ps = if not (str_eq text "") then assign "install_config" text ps else ps

-- What is found out for a description, with the settings at its time.
pub record Parts : Type 0 where
  pub flavour : String
  pub machine_type : String
  pub region : String
  pub properties : Properties
  pub extra : Extra
  pub settings : OcmSettings

abbrev pub describe : ℕ → String → Parts → NewCluster
describe now name p = record {
  name = name;
  flavour = p.flavour;
  region = p.region;
  multi_az = p.settings.multi_az;
  version = p.settings.version;
  channel = p.settings.channel;
  cloud_provider = p.settings.cloud_provider_id;
  properties = with_install_config (install_config_of p.settings) p.properties;
  trust_bundle = p.extra.trust_bundle;
  http_proxy = p.extra.http_proxy;
  https_proxy = p.extra.https_proxy;
  account = p.extra.account;
  expiration_timestamp = expiration_of now p.settings;
  nodes = record {
    availability_zones = p.extra.zones;
    compute = compute_of p.settings.multi_az p.settings.num_worker_nodes;
    machine_type = unless_empty p.machine_type;
  };
  addons =
      if str_eq p.settings.ids_at_creation "" then [] else split_commas p.settings.ids_at_creation;
}

module _ (cs : ChoiceService) (qv : QuotaService) (lv : LaunchService) (i : Inputs) where
  unfoldable pub gather : Step State Parts
  gather = do
    flavour ← get_flavour i.draws.flavour
    sku ← get_sku i.draws.sku
    _ ← check_enough qv sku
    before ← settings_of
    machine_type ←
        or_fail (wrapf "error while determining machine type: %v" [])
          (determine_machine_type cs i.draws before.cloud_provider_id)
    region ←
        or_fail (wrapf "error while determining region: %v" [])
          (determine_region cs i.shuffle before.cloud_provider_id)
    st ← settings_of
    ps ←
        from_reply (wrapf "error generating cluster properties: %v" [])
          (generate_properties i.user st)
    x ← ccs_extra i lv st
    pure (record {
      flavour = flavour;
      machine_type = machine_type;
      region = region;
      properties = ps;
      extra = x;
      settings = st;
    })

  abbrev pub create_unless : NewCluster → String → Step State String
  create_unless c id =
      if not (str_eq id "")
      then pure id
      else ask (create_cluster c) lv.created (wrapf "couldn't create cluster: %v" [])

module _ (V : Type 0) ⦃sv : Semver V⦄ (cs : ChoiceService) (qv : QuotaService) (reserve : Reserve)
    (cv : ClusterService) (lv : LaunchService) (i : Inputs) where
  -- The product is never set in the description, so it is the default.
  abbrev pub claimed_id : OcmSettings → NewCluster → Step State String
  claimed_id st c =
      if st.use_cluster_reserve && str_eq st.addon_ids ""
      then claim_cluster_from_reserve V reserve cv i.now c.version c.cloud_provider "osd"
      else pure ""

  abbrev pub claim_or_create : OcmSettings → NewCluster → Step State String
  claim_or_create st c = claimed_id st c >>= create_unless cs qv lv i c

  unfoldable pub launch_cluster : String → Step State String
  launch_cluster name =
      gather cs qv lv i >>= λ p. claim_or_create p.settings (describe i.now name p)
