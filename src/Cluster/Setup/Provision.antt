-- ===== src/Cluster/Setup/Provision.antt =====
-- pkg/common/cluster/clusterutil.go: `Provision`, `SetClusterIntoViperConfig`,
-- `ProvisionOrReuseCluster` and `InstallAddonsIfConfigured`.
use osde2e.Prelude.{
  ℕ, String, Bool, false, not, Option, none, some, List, [], ◌∷◌, ◌++◌, map, reverse, str_eq,
  if◌then◌else◌, ltb, ◌==◌, concat, split_commas,
}
use osde2e.Go.{Error, errorf, wrapf}
use osde2e.Go.Calls.{Reply, replied, refused}
use osde2e.Go.Steps.{Step, pure, fail, change, from_reply, or_fail, step_if, forget, ◌>>=◌, ◌>>◌}
use osde2e.Semver.{Semver}
use osde2e.Versions.Selector.{Poll}
use osde2e.Cluster.Provisioning.{ProvisioningRound, wait_for_ocm_provisioning}
use osde2e.Cluster.Config.{
  Cluster, World, made, set_config, config_of, call, same, get_cluster, add_property,
  install_addons, write_file,
}
use osde2e.Cluster.Launch.{LaunchReplies, provision_cluster}
use osde2e.Cluster.Setup.{
  PostInstallReplies, success, timed_out, configure_version, wait_for_cluster_ready_post_install,
}

-- What the calls of `Provision` reply, and the path that `filepath.Join` makes of the shared
-- directory and "kubeconfig". The rounds of the two polls until their timeouts are lists.
pub record ProvisionReplies (V : Type 0) : Type 0 where
  pub polls : List (Poll V)
  pub launch : LaunchReplies
  pub provisioning_rounds : List ProvisioningRound
  pub id_written : Reply Unit
  pub upgrade_version_added : Reply Unit
  pub post_install : PostInstallReplies
  pub kubeconfigs : List (Reply String)
  pub kubeconfig_file : String
  pub kubeconfig_written : Reply Unit

-- The calls of the wait are the statuses that it asks for.
abbrev pub after_provisioning : Bool × List String → Step World Unit
after_provisioning (over, statuses) =
    change (λ w. record w { calls = w.calls ++ map (add_property "Status") (reverse statuses) })
    >> (if over then pure tt else fail timed_out)

abbrev pub await_provisioning : List ProvisioningRound → Step World Unit
await_provisioning rounds = after_provisioning (wait_for_ocm_provisioning false rounds [])

-- The kubeconfig of the first round that has one.
pub poll_kubeconfig : List (Reply String) → Step World String
poll_kubeconfig [] = fail timed_out
poll_kubeconfig (refused e ∷ rs) = poll_kubeconfig rs
poll_kubeconfig (replied k ∷ rs) =
    change (set_config (λ c. record c { kubeconfig_contents = k })) >> pure k

abbrev pub in_dir : String → String → String
in_dir dir name = concat (dir ∷ "/" ∷ name ∷ [])

abbrev pub set_kubeconfig_path : String → Reply Unit → Step World Unit
set_kubeconfig_path path (refused e) = pure tt
set_kubeconfig_path path (replied u) =
    change (set_config (λ c. record c { kubeconfig_path = path }))

abbrev pub write_cluster_id : Reply Unit → Cluster → Step World Unit
write_cluster_id written cluster = config_of >>= λ c.
    step_if (not (str_eq c.shared_dir ""))
      (forget (call (write_file (in_dir c.shared_dir "cluster-id") cluster.id) same written))

abbrev pub write_kubeconfig : String → Reply Unit → String → Step World Unit
write_kubeconfig file written kubeconfig = config_of >>= λ c.
    step_if (not (str_eq c.shared_dir ""))
      (change (made (write_file file kubeconfig)) >> set_kubeconfig_path file written)

abbrev pub add_upgrade_version : Reply Unit → Step World Unit
add_upgrade_version added = config_of >>= λ c.
    forget (call (add_property "UpgradeVersion" c.versions.release_name) same added)

-- The error with a nil error or an error in it.
abbrev pub unconfigured : Option Error → Error
unconfigured none = errorf "failed configure cluster version: %v" []
unconfigured (some e) = wrapf "failed configure cluster version: %v" [] e

-- `status != config.Success` is the only test of what `ConfigureVersion` returns.
abbrev pub version_configured : ℕ × Option Error → Step World Unit
version_configured (status, e) = if status == success then pure tt else fail (unconfigured e)

unfoldable pub set_cluster_into_viper_config : Cluster → Step World Unit
set_cluster_into_viper_config cluster = change (
    set_config (λ c. record c {
      versions = record c.versions {
        channel = cluster.channel_group;
        cluster_version = cluster.version;
      };
      name = cluster.name;
      cloud_provider_id = cluster.cloud_provider;
      region = cluster.region;
    }))

abbrev pub settled : Cluster → Step World Cluster
settled cluster = set_cluster_into_viper_config cluster >> pure cluster

module _ (V : Type 0) ⦃sv : Semver V⦄ (is_timeout is_retryable : Error → Bool) where
  -- From a new cluster to the end of `Provision`.
  abbrev pub finish_provision : ProvisionReplies V → Cluster → Step World Cluster
  finish_provision r cluster = do
    _ ← change (set_config (λ c. record c { id = cluster.id }))
    _ ←
        or_fail (wrapf "cluster never became ready: %v" [])
          (await_provisioning r.provisioning_rounds)
    _ ← write_cluster_id r.id_written cluster
    _ ← add_upgrade_version r.upgrade_version_added
    c ← config_of
    _ ← step_if (not c.skip_cluster_health_checks) (
        forget
          (wait_for_cluster_ready_post_install is_timeout is_retryable r.post_install cluster.id))
    kubeconfig ←
        or_fail (wrapf "failed retrieving kubeconfig: %v" []) (poll_kubeconfig r.kubeconfigs)
    _ ← write_kubeconfig r.kubeconfig_file r.kubeconfig_written kubeconfig
    pure cluster

  unfoldable pub provision : ProvisionReplies V → Step World Cluster
  provision r = do
    verdict ← configure_version V r.polls
    _ ← version_configured verdict
    cluster ←
        or_fail (wrapf "failed to set up or retrieve cluster: %w" []) (provision_cluster r.launch)
    finish_provision r cluster

  -- The reply is that of the `GetCluster` call for a cluster that is there.
  unfoldable pub provision_or_reuse_cluster :
      ProvisionReplies V → Reply Cluster → Step World Cluster
  provision_or_reuse_cluster r existing = do
    c ← config_of
    cluster ←
        if str_eq c.kubeconfig_contents ""
        then or_fail (wrapf "cluster provisioning failed: %w" []) (provision r)
        else call (get_cluster c.id) (wrapf "failed to get cluster %s: %w" (c.id ∷ [])) existing
    settled cluster

-- The parameters are a JSON text, which is read outside, and the reply has the number of addons.
pub record AddonReplies : Type 0 where
  pub unmarshalled : Reply Unit
  pub installed : Reply ℕ
  pub post_install : PostInstallReplies

module _ (is_timeout is_retryable : Error → Bool) where
  unfoldable pub install_addons_if_configured : AddonReplies → String → Step World Bool
  install_addons_if_configured r cluster_id = config_of >>= λ c.
      if str_eq c.addon_ids "" then pure false else (do
        _ ←
            step_if (not (str_eq c.addon_parameters ""))
              (from_reply (wrapf "failed to unmarshal addon parameters: %w" []) r.unmarshalled)
        num ←
            call (install_addons cluster_id (split_commas c.addon_ids))
              (wrapf "failed to install addons: %w" []) r.installed
        _ ← step_if (ltb 0 num) (
            or_fail (wrapf "cluster not ready after addon installation: %w" []) (
              wait_for_cluster_ready_post_install is_timeout is_retryable r.post_install
                cluster_id))
        pure (ltb 0 num))
