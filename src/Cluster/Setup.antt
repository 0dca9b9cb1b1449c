-- ===== src/Cluster/Setup.antt =====
-- pkg/common/cluster/clusterutil.go: `ConfigureVersion` and `WaitForClusterReadyPostInstall`.
pub mod Provision
pub mod Laws
use osde2e.Prelude.{
  ℕ, zero, suc, String, Bool, true, false, not, ◌&&◌, ◌||◌, Option, none, some, List, [], ◌∷◌, ◌++◌,
  map, reverse, fold, length, str_eq, if◌then◌else◌, ltb, ◌==◌, concat, split_commas,
}
use osde2e.Go.{Error, errorf, wrapf, Outcome, returns, panics}
use osde2e.Go.Calls.{Reply, replied, refused, ends, fails, dies, wrapped_end}
use osde2e.Go.Steps.{
  Step, pure, fail, change, from_reply, bind_end, or_fail, step_if, forget, ◌>>=◌, ◌>>◌,
}
use osde2e.Semver.{Semver}
use osde2e.Health.{Condition}
use osde2e.Health.Nodes.{Node, check_node_health}
use osde2e.Versions.Settings.{Settings}
use osde2e.Versions.Selector.{VersionSelector, Poll}
use osde2e.Versions.ClusterVersions.{Ended, no_version_found, select_cluster_versions}
use osde2e.Cluster.Provisioning.{ProvisioningRound, wait_for_ocm_provisioning}
use osde2e.Cluster.Config.{
  Cluster, ClusterConfig, World, Call, made, set_config, config_of, call, same, get_cluster,
  add_property, install_addons, write_file,
}
use osde2e.Cluster.Launch.{LaunchReplies, provision_cluster}

-- `config.Success`, `config.Failure` and `config.Aborted`.
abbrev pub success : ℕ
success = 0

abbrev pub failure : ℕ
failure = 1

abbrev pub aborted : ℕ
aborted = 130

abbrev pub aborted_for : String → ℕ × Option Error
aborted_for text = (aborted, some (errorf text []))

-- The cases of the `switch` of `ConfigureVersion`.
unfoldable pub version_verdict : ClusterConfig → ℕ × Option Error
version_verdict c =
    if not c.versions.enough_versions_for_oldest_or_middle_test
    then aborted_for
        "there were not enough available cluster image sets to choose and oldest or middle cluster image set to test against -- skipping tests"
    else (if not c.versions.previous_version_from_default_found
        then aborted_for "no previous version from default found with the given arguments"
        else (if c.upgrade_version_equal_to_install_version
            then aborted_for "install version and upgrade version are the same -- skipping tests"
            else (if str_eq c.versions.release_name no_version_found
                then aborted_for "no valid upgrade versions were found. Skipping tests"
                else (if str_eq c.versions.cluster_version ""
                    then (
                      if c.versions.latest_y_release_after_prod_default
                            || c.versions.latest_z_release_after_prod_default
                          then success
                          else aborted,
                      some (errorf "no valid install version found" []),
                    )
                    else (success, none)))))

abbrev pub after_selection : {V : Type 0} → Outcome (Ended V) → Step World (ℕ × Option Error)
after_selection panics w = (dies, w)
after_selection (returns r) w =
    let c = record w.config { versions = r.selector.settings } in
    elim r.error [
      | some e ↦ (ends (failure, some e), record w { config = c })
      | none ↦ (ends (version_verdict c), record w { config = c })
    ]

module _ (V : Type 0) ⦃sv : Semver V⦄ where
  abbrev pub new_selector : Settings → VersionSelector V
  new_selector s = record { settings = s; version_list = none; cluster_version = none }

  unfoldable pub configure_version : List (Poll V) → Step World (ℕ × Option Error)
  configure_version polls w =
      after_selection (select_cluster_versions true (new_selector w.config.versions) polls) w

-- The replies of `WaitForClusterReadyPostInstall`. What `ClusterConfig` and `CheckHealthcheckJob`
-- return stands among them, and the rounds of the polls are lists. The new pod error tracker, which
-- the wait only sets, is left out.
pub record PostInstallReplies : Type 0 where
  pub provider : Reply Unit
  pub cluster : Reply Cluster
  pub cluster_config : Reply Unit
  pub kube_client : Reply Unit
  pub node_rounds : List (Reply (List Node))
  pub healthcheck_job : Reply Unit
  pub healthy_added : Reply Unit

abbrev pub nodes_not_ready : Node → Bool
nodes_not_ready node =
    fold (λ bad c. bad || (str_eq c.kind "Ready" && not (str_eq c.status "True"))) false
      node.conditions

abbrev pub timed_out : Error
timed_out = errorf "timed out waiting for the condition" []

-- `os.IsTimeout` and `IsRetryableAPIError` are outside.
module _ (is_timeout is_retryable : Error → Bool) where
  -- The poll of the nodes of a hosted control plane.
  unfoldable pub poll_node_count : ℕ → List (Reply (List Node)) → Step World Unit
  poll_node_count wanted [] = fail timed_out
  poll_node_count wanted (refused e ∷ rs) =
      let rest = poll_node_count wanted rs in if is_timeout e then rest else fail e
  poll_node_count wanted (replied nodes ∷ rs) =
      let rest = poll_node_count wanted rs in
      if not (fold (λ bad n. bad || nodes_not_ready n) false nodes) && (length nodes == wanted)
      then pure tt
      else rest

  abbrev pub after_check : Bool × Option Error → Step World Unit → Step World Unit
  after_check (ok, some e) rest = fail e
  after_check (true, none) rest = pure tt
  after_check (false, none) rest = rest

  unfoldable pub poll_node_health : List (Reply (List Node)) → Step World Unit
  poll_node_health [] = fail timed_out
  poll_node_health (r ∷ rs) =
      let rest = poll_node_health rs in after_check (check_node_health is_retryable r) rest

  abbrev pub healthy_by_job : PostInstallReplies → Step World Unit
  healthy_by_job r = do
    _ ← from_reply (wrapf "cluster failed health check: %w" []) r.healthcheck_job
    call (add_property "Status" "healthy")
        (wrapf "error trying to add healthy property to cluster ID %s: %w" []) r.healthy_added

  abbrev pub judged_healthy : PostInstallReplies → ClusterConfig → Cluster → Step World Unit
  judged_healthy r c cluster =
      if c.hypershift
      then or_fail (wrapf "HyperShift healthcheck: %w" [])
          (poll_node_count cluster.num_compute_nodes r.node_rounds)
      else (if c.only_health_check_nodes
          then or_fail (wrapf "node health check failed: %w" []) (poll_node_health r.node_rounds)
          else healthy_by_job r)

  unfoldable pub wait_for_cluster_ready_post_install : PostInstallReplies → String → Step World Unit
  wait_for_cluster_ready_post_install r cluster_id = do
    _ ← from_reply (wrapf "error getting cluster provisioning client: %v" []) r.provider
    cluster ←
        call (get_cluster cluster_id) (wrapf "failed getting cluster from provider: %w" [])
          r.cluster
    _ ←
        from_reply (wrapf "failed looking up cluster config for healthcheck: %w" [])
          r.cluster_config
    _ ← from_reply (wrapf "error generating Kube Clientset: %w" []) r.kube_client
    c ← config_of
    judged_healthy r c cluster
