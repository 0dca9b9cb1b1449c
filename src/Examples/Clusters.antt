-- ===== src/Examples/Clusters.antt =====
-- The life of a cluster on concrete settings and replies.
use osde2e.Prelude.{◌≡◌, refl, ◌⊎◌, ℕ, Bool, true, false, none, some, [], ◌∷◌, contains}
use osde2e.Go.{Error, returns}
use osde2e.Go.Calls.{replied, ends, fails}
use osde2e.Semver.Sample.{Sample, sample_semver, v4_4_6}
use osde2e.Examples.Data.{base, listing, tagged}
use osde2e.Prelude.Int.{pos}
use osde2e.Versions.Settings.{Settings}
use osde2e.Versions.Selector.{
  VersionSelector, Poll, listed, set_install_version, get_install_version, selected_selector,
  pick_selector,
}
use osde2e.Versions.Install.Registry.{global_selector_registry}
use osde2e.Versions.Install.Tagged.{y_scan}
use osde2e.Versions.Common.{sort_versions}
use osde2e.Prelude.Sorting.{sort_by}
use osde2e.Versions.ClusterVersions.{poll, set_upgrade_version, select_cluster_versions}
use osde2e.Go.{wrapf}
use osde2e.Go.Steps.{or_fail, ◌>>=◌}
use osde2e.Cluster.Setup.{PostInstallReplies, new_selector, version_verdict}
use osde2e.Cluster.Setup.Provision.{
  ProvisionReplies, finish_provision, unconfigured, provision, set_cluster_into_viper_config,
  provision_or_reuse_cluster,
}
use osde2e.Cluster.Setup.Laws.{MayProvision, selected, provision_lem}
use osde2e.Cluster.Config.{Cluster, ClusterConfig, World, get_cluster, extend_expiry}
use osde2e.Cluster.Names.{Draw, random_name, new_name}
use osde2e.Cluster.Launch.{LaunchReplies, provision_cluster}
use osde2e.Cluster.Launch.Names.{LaunchedOnce, provision_cluster_launches}
use osde2e.Cluster.Teardown.{ExpiryReplies, handle_expiration_extension}
use osde2e.Cluster.Teardown.Laws.{AllowedTimes, handle_expiration_extension_bound}

abbrev draw : ℕ → ℕ → ℕ → ℕ → ℕ → Draw
draw do_prefix do_suffix name name_prefix name_suffix = record {
  do_prefix = do_prefix;
  do_suffix = do_suffix;
  name = name;
  name_prefix = name_prefix;
  name_suffix = name_suffix;
}

-- "prod-cache-final", which is too long, and "s-ocp-13".
abbrev long_draw : Draw
long_draw = draw 1 2 2 0 8

abbrev short_draw : Draw
short_draw = draw 2 1 3 5 6

two_draws : random_name (long_draw ∷ short_draw ∷ []) ≡ some "s-ocp-13"
unfolding random_name new_name
two_draws = refl

abbrev a_cluster : Cluster
a_cluster = record {
  id = "1a2b";
  name = "s-ocp-13";
  version = "openshift-v4.4.0";
  channel_group = "stable";
  cloud_provider = "aws";
  region = "us-east-1";
  creation_timestamp = 0;
  expiration_timestamp = 600;
  num_compute_nodes = 2;
}

abbrev config : ClusterConfig
config = record {
  versions = base;
  id = "";
  name = "random";
  use_cluster_reserve = false;
  reserve = true;
  claimed_from_reserve = false;
  skip_destroy_cluster = true;
  passing = true;
  suffix = "";
  provider = "rosa";
  hypershift = false;
  shared_dir = "";
  sts = true;
  cloud_provider_id = "aws";
  region = "us-east-1";
  kubeconfig_contents = "";
  kubeconfig_path = "";
  skip_cluster_health_checks = false;
  only_health_check_nodes = false;
  upgrade_version_equal_to_install_version = false;
  addon_ids = "";
  addon_parameters = "";
}

abbrev start : ClusterConfig → World
start c = record { config = c; calls = [] }

abbrev launch_replies : LaunchReplies
launch_replies = record {
  provider = replied tt;
  ocm_provider = replied tt;
  claimed = "";
  reserve_total = replied 4;
  attempts = λ k. record {
    name_draws = record { draws = long_draw ∷ short_draw ∷ []; suffix = [] };
    is_valid = replied true;
  };
  launched_id = "1a2b";
  launch_error = none;
  cluster = replied a_cluster;
}

provision_cluster_launches_example :
    LaunchedOnce launch_replies config (provision_cluster launch_replies (start config)).1
provision_cluster_launches_example = provision_cluster_launches launch_replies (start config) refl

abbrev kept : World
kept = start (record config { id = "1a2b" })

abbrev expiry_replies : ExpiryReplies
expiry_replies = record { expired = replied tt; cluster = replied a_cluster; extended = replied tt }

extended_once :
    (handle_expiration_extension expiry_replies kept).1.calls
    ≡ get_cluster "1a2b" ∷ extend_expiry "1a2b" 6 0 0 ∷ []
unfolding handle_expiration_extension
extended_once = refl

handle_expiration_extension_bound_example :
    AllowedTimes kept.config
      (replied a_cluster)
      1
      (handle_expiration_extension expiry_replies kept).1.calls
handle_expiration_extension_bound_example =
    handle_expiration_extension_bound expiry_replies kept refl

-- The latest Y release is asked for, and the only version that is listed is the default one.
abbrev latest_y : Settings
latest_y = record base {
  channel = "stable";
  use_middle_cluster_image_set_for_install = false;
  delta_release_from_default = pos 0;
  latest_y_release_after_prod_default = true;
}

abbrev no_newer : Poll Sample
no_newer = listed (listing (tagged v4_4_6 ∷ []))

abbrev selected_nothing : VersionSelector Sample
selected_nothing = record {
  settings = latest_y;
  version_list = some (listing (tagged v4_4_6 ∷ []));
  cluster_version = none;
}

nothing_selected :
    select_cluster_versions true (new_selector Sample latest_y) (no_newer ∷ [])
    ≡ returns (record { selector = selected_nothing; error = none })
unfolding select_cluster_versions poll set_install_version get_install_version set_upgrade_version
    selected_selector pick_selector global_selector_registry contains y_scan sort_versions sort_by
nothing_selected = refl

abbrev post_install : PostInstallReplies
post_install = record {
  provider = replied tt;
  cluster = replied a_cluster;
  cluster_config = replied tt;
  kube_client = replied tt;
  node_rounds = [];
  healthcheck_job = replied tt;
  healthy_added = replied tt;
}

abbrev provision_replies : ProvisionReplies Sample
provision_replies = record {
  polls = no_newer ∷ [];
  launch = launch_replies;
  provisioning_rounds = [];
  id_written = replied tt;
  upgrade_version_added = replied tt;
  post_install = post_install;
  kubeconfigs = [];
  kubeconfig_file = "";
  kubeconfig_written = replied tt;
}

abbrev never : Error → Bool
never e = false

abbrev latest : World
latest = start (record config { versions = latest_y })

-- The settings have no version to install, and a cluster may be launched.
MayProvision-nothing : MayProvision (selected latest_y latest).config
MayProvision-nothing = (refl, refl, refl, refl, refl)

provision_lem_example :
    (MayProvision latest.config
      × (provision Sample never never provision_replies latest
          ≡ (or_fail
                  (wrapf "failed to set up or retrieve cluster: %w" [])
                  (provision_cluster launch_replies)
                >>= finish_provision Sample never never provision_replies)
              latest))
    ⊎ ((¬ MayProvision latest.config)
        × (provision Sample never never provision_replies latest
            ≡ (fails (unconfigured (version_verdict latest.config).1), latest)))
provision_lem_example =
    provision_lem Sample never never provision_replies latest selected_nothing nothing_selected

abbrev reused : World
reused = start (record config { id = "1a2b"; kubeconfig_contents = "apiVersion: v1" })

reuse_ends :
    (provision_or_reuse_cluster Sample never never provision_replies (replied a_cluster) reused).0
    ≡ ends a_cluster
unfolding provision_or_reuse_cluster set_cluster_into_viper_config
reuse_ends = refl
