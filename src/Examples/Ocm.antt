-- ===== src/Examples/Ocm.antt =====
-- The provider of the cluster manager on concrete settings and replies.
use osde2e.Prelude.{
  inl, inr, ℕ, zero, suc, ◌+◌, ◌<◌, ◌≡◌, refl, subst, ◌↔◌, ◌⊎◌, arith, true, false, String, none,
  some, List, [], ◌∷◌, ◌++◌, map, length, any_if,
}
use osde2e.Prelude.Int.{pos, negsuc}
use osde2e.Prelude.Maps.{lookup}
use osde2e.Go.{Error, errorf}
use osde2e.Go.Calls.{replied, refused, ends, fails, dies}
use osde2e.Spi.Cluster.{Cluster}
use osde2e.Ocm.Provider
use osde2e.Ocm.Provider.{
  OcmState, OcmCluster, OcmSettings, State, Call, list_clusters, list_regions, list_machine_types,
}
use osde2e.Ocm.Clusters.{
  ClusterService, get_spi_cluster, ocm_to_spi_cluster, cluster_kubeconfig, add_property,
  update_cluster_cache,
}
use osde2e.Ocm.Clusters.Kubeconfig.{cluster_kubeconfig_again}
use osde2e.Ocm.Deletion.{poll_ready, request_deletion, delete}
use osde2e.Ocm.Deletion.Requests.{deletions, FetchedReady, delete_requests, delete_not_ready}
use osde2e.Ocm.Listing.{Page, ListService, list_clusters_for}
use osde2e.Ocm.Listing.Totals.{
  items_from, converted, Serves, list_clusters_for_lem, list_clusters_for_endless,
}
use osde2e.Ocm.Choices.{CloudRegion, ChoiceService, Draws, determine_machine_type, is_drawn}
use osde2e.Ocm.Choices.Machines.{types_reply, IsBeyond, determine_machine_type-dies}
use osde2e.Semver.Sample.{Sample, sample_semver}
use osde2e.Ocm.Quota.{QuotaService}
use osde2e.Ocm.Reserve.{Reserve}
use osde2e.Ocm.Launch.{Inputs, LaunchService}
use osde2e.Ocm.Description.{Subnetwork, get_availability_zones}
use osde2e.Ocm.Description.Zones.{times, bit, is_used, get_availability_zones_lem}

abbrev settings : String → OcmSettings
settings region = record {
  environment = "stage";
  version = "openshift-v4.4.6";
  channel = "candidate";
  multi_az = true;
  reserve = false;
  use_cluster_reserve = false;
  claimed_from_reserve = false;
  provision_shard_id = "";
  image_content_source = "random";
  install_config = "";
  expiry_in_minutes = pos 360;
  num_worker_nodes = pos 4;
  use_proxy_for_install = false;
  skip_addon_list = true;
  addon_ids = "";
  ids_at_creation = "";
  cloud_provider_id = "aws";
  region = region;
  job_name = "nightly";
  job_id = negsuc 0;
  job_type = "periodic";
  kubeconfig_path = "";
  kubeconfig_contents = "";
  user_ca_bundle = "";
  http_proxy = "";
  https_proxy = "";
  aws_account_id = "1234";
  aws_vpc_subnet_ids = "";
  gcp_project_id = "";
  ad_hoc_test_images = "";
  compute_machine_type = "random";
  compute_machine_type_regex = "m5";
  user_override = "tester";
  additional_labels = "";
  flavours = "osd-4";
  skus = "";
  ccs = false;
  sts = false;
}

abbrev pub start : State
start = record {
  settings = settings "random";
  cluster_cache = [];
  credential_cache = [];
  calls = [];
}

abbrev pub ocm_cluster : String → OcmState → OcmCluster
ocm_cluster id state = record {
  id = some id;
  name = id;
  region = "us-east-1";
  flavour = "osd-4";
  version = some ("openshift-v4.4.6", "stable");
  cloud_provider = some "aws";
  product = some "osd";
  state = some state;
  properties = none;
  role_arn = "";
  creation_timestamp = 0;
  expiration_timestamp = 0;
  compute_nodes = 9;
}

abbrev pub service : OcmState → ClusterService
service state = record {
  cluster = λ cs. replied (ocm_cluster "c1" state);
  addons = λ cs. replied [];
  kubeconfig = λ cs. replied "kubeconfig";
  deleted = λ cs. replied tt;
}

abbrev pub no_addons : OcmCluster → List String
no_addons c = []

abbrev pub plain_cluster : OcmCluster → Cluster
plain_cluster = converted "stage" no_addons

abbrev pub timeout : Error
timeout = errorf "timed out waiting for the condition" []

-- The cluster is ready, so it is deleted.
ready_is_deleted : deletions (delete (service Provider.ready) timeout 2 "c1" start).1 ≡ 1
unfolding delete poll_ready get_spi_cluster ocm_to_spi_cluster add_property update_cluster_cache
ready_is_deleted = refl

delete_requests_example :
    (deletions (delete (service Provider.ready) timeout 2 "c1" start).1 ≡ deletions start)
    ⊎ ((cl : Cluster) × (after : State) × FetchedReady
          (service Provider.ready)
          timeout
          "c1"
          cl
          after
        × (delete (service Provider.ready) timeout 2 "c1" start
            ≡ request_deletion (service Provider.ready) "c1" cl after))
delete_requests_example = delete_requests (service Provider.ready) timeout "c1" 2 start

-- A cluster that hibernates, with fifteen rounds.
delete_not_ready_example :
    delete (service Provider.hibernating) timeout 15 "c1" start
    ≡ (fails timeout, (get_spi_cluster (service Provider.hibernating) "c1" start).1)
unfolding get_spi_cluster ocm_to_spi_cluster
delete_not_ready_example =
    delete_not_ready (service Provider.hibernating) timeout "c1" 15 start
      (plain_cluster (ocm_cluster "c1" Provider.hibernating)) refl refl refl refl

abbrev kubeconfig_of : State
kubeconfig_of = (cluster_kubeconfig (service Provider.ready) (λ p. refused timeout) "c1" start).1

cluster_kubeconfig_again_example :
    ((cluster_kubeconfig (service Provider.ready) (λ p. refused timeout) "c1" kubeconfig_of).0
      ≡ ends "kubeconfig")
    × ((cluster_kubeconfig
          (service Provider.ready)
          (λ p. refused timeout)
          "c1"
          kubeconfig_of).1.calls
        ≡ kubeconfig_of.calls)
unfolding cluster_kubeconfig lookup
cluster_kubeconfig_again_example =
    cluster_kubeconfig_again (service Provider.ready) (λ p. refused timeout) "c1" start
      kubeconfig_of "kubeconfig" refl refl

-- A service that replies pages by the page of the last call.
abbrev page_of : Call → ℕ
page_of (Provider.list_clusters query page) = page
page_of c = zero

abbrev last_page : ℕ → List Call → ℕ
last_page n [] = n
last_page n (c ∷ cs) = last_page (page_of c) cs

last_page_append :
    (n : ℕ) (cs : List Call) (query : String) (page : ℕ)
    → last_page n (cs ++ (list_clusters query page ∷ [])) ≡ page
last_page_append n [] query page = refl
last_page_append n (c ∷ cs) query page = last_page_append (page_of c) cs query page

abbrev pub paged : (ℕ → Page OcmCluster) → ListService
paged pages = record {
  clusters = λ cs. replied (pages (last_page zero cs));
  names = λ cs. refused timeout;
  account = λ cs. refused timeout;
  subscriptions = λ cs. refused timeout;
}

paged-Serves : (pages : ℕ → Page OcmCluster) (query : String) → Serves (paged pages) query pages
paged-Serves pages query cs page = rw last_page_append refl

-- One page with two clusters, and a total.
abbrev pub one_page : ℕ → ℕ → Page OcmCluster
one_page total (suc zero) = record {
  items = ocm_cluster "c1" Provider.ready ∷ ocm_cluster "c2" Provider.error ∷ [];
  total = total;
}
one_page total _ = record { items = []; total = total }

one_is_filled : (i : ℕ) → i < 1 → 0 < length (one_page 2 (1 + i)).items
one_is_filled zero h = omega arith
one_is_filled (suc i) h = absurd (omega arith)

-- The addons are listed.
abbrev lists_addons : State
lists_addons = record start { settings = record start.settings { skip_addon_list = false } }

abbrev with_addon : ClusterService
with_addon = record (service Provider.ready) { addons = λ cs. replied ("logging" ∷ []) }

list_clusters_for_lem_example :
    (list_clusters_for (paged (one_page 2)) with_addon 3 "" lists_addons).0
    ≡ ends (some (map (converted "stage" (λ c. "logging" ∷ [])) (items_from (one_page 2) 1 1)))
list_clusters_for_lem_example =
    list_clusters_for_lem (paged (one_page 2)) with_addon "" (one_page 2)
      (paged-Serves (one_page 2) "") (λ c. "logging" ∷ []) 1 3 lists_addons
      (inr (refl, λ cs c. refl)) (omega arith) one_is_filled refl (omega arith)

no_more : (total page n : ℕ) → items_from (one_page total) (suc (suc page)) n ≡ []
no_more total page zero = refl
no_more total page (suc n) = no_more total (suc page) n

always_fewer : (n : ℕ) → length (items_from (one_page 3) 1 n) < 3
always_fewer zero = omega arith
always_fewer (suc n) = rw (no_more 3 0 n) (omega arith)

-- The first page says that there are three clusters, and there are two.
list_clusters_for_endless_example :
    (list_clusters_for (paged (one_page 3)) (service Provider.ready) 1000 "" start).0 ≡ ends none
list_clusters_for_endless_example =
    list_clusters_for_endless (paged (one_page 3)) (service Provider.ready) "" (one_page 3)
      (paged-Serves (one_page 3) "") no_addons 1000 start (inl (refl, λ c. refl)) always_fewer

abbrev regions : List CloudRegion
regions =
    record { id = "us-west-1"; enabled = false } ∷ record { id = "us-west-2"; enabled = true } ∷ []

-- A page with one machine type of three.
abbrev one_type : Page String
one_type = record { items = "m5.xlarge" ∷ []; total = 3 }

abbrev choices : ChoiceService
choices = record { regions = λ cs. replied regions; machine_types = λ cs. replied one_type }

abbrev draws : Draws
draws = record { flavour = 0; sku = 0; use_random = 0; machine_type = 2 }

below_total :
    (p : Page String)
    → types_reply choices draws "aws" start ≡ replied p
    → draws.machine_type < p.total
below_total p e = let it : one_type ≡ p = cc in subst (λ q. 2 < q.total) it (omega arith)

determine_machine_type-dies_example :
    ((determine_machine_type choices draws "aws" start).0 ≡ dies) ↔ (
      (is_drawn draws.use_random start.settings ≡ true)
      × ((p : Page String) × (types_reply choices draws "aws" start ≡ replied p)
          × IsBeyond draws.machine_type p.items))
determine_machine_type-dies_example =
    determine_machine_type-dies choices draws "aws" start below_total

abbrev subnets : List Subnetwork
subnets =
    record { subnet_id = "s1"; availability_zone = "us-west-2a" }
    ∷ record { subnet_id = "s2"; availability_zone = "us-west-2a" }
    ∷ record { subnet_id = "s3"; availability_zone = "us-west-2b" }
    ∷ []

get_availability_zones_lem_example :
    times "us-west-2a" (get_availability_zones subnets ("s2" ∷ "s1" ∷ []))
    ≡ bit (any_if (is_used "us-west-2a" ("s2" ∷ "s1" ∷ [])) subnets)
get_availability_zones_lem_example =
    get_availability_zones_lem subnets ("s2" ∷ "s1" ∷ []) "us-west-2a"

abbrev inputs : Inputs
inputs = record {
  draws = record draws { machine_type = 0 };
  shuffle = λ xs. xs;
  now = 100;
  user = refused timeout;
  aws_credentials = refused timeout;
  aws_account_id = "";
  gcp_project = refused timeout;
  ca_bundle = λ path. refused timeout;
}

abbrev quota : QuotaService
quota = record {
  sku_rule = λ cs. refused timeout;
  account = λ cs. refused timeout;
  quota = λ cs. refused timeout;
}

abbrev launches : LaunchService
launches = record { subnets = λ cs. replied subnets; created = λ cs. replied "new" }

abbrev no_reserve : Reserve
no_reserve = λ cs. refused timeout
