-- ===== src/Cluster/Setup/Laws.antt =====
-- Which clusters `Provision` launches, and the settings after `ProvisionOrReuseCluster`.
use osde2e.Prelude.{
  not, ◌⊎◌, ◌≡◌, refl, ap, ◌∙◌, ◌↔◌, inl, inr, arith, Bool, true, false, ◌||◌, none, [], ◌∷◌, ◌++◌,
  str_eq, Bool-cases, ◌==◌,
}
use osde2e.Go.{Error, wrapf, returns}
use osde2e.Go.Calls.{Reply, replied, reply_cases, ends, fails}
use osde2e.Go.Steps.{Step, bind_ends, or_fail, ◌>>=◌}
use osde2e.Semver.{Semver}
use osde2e.Versions.Settings.{Settings}
use osde2e.Versions.Selector.{VersionSelector}
use osde2e.Versions.ClusterVersions.{no_version_found, select_cluster_versions}
use osde2e.Cluster.Config.{Cluster, ClusterConfig, World, get_cluster}
use osde2e.Cluster.Launch.{provision_cluster}
use osde2e.Cluster.Setup.{version_verdict, configure_version, new_selector, success}
use osde2e.Cluster.Setup.Provision.{
  ProvisionReplies, finish_provision, provision, provision_or_reuse_cluster,
  set_cluster_into_viper_config, settled, unconfigured,
}

-- What lets the selected versions pass. The last part lets settings without a version pass.
abbrev pub MayProvision : ClusterConfig → Type 0
MayProvision c =
    (c.versions.enough_versions_for_oldest_or_middle_test ≡ true)
    × (c.versions.previous_version_from_default_found ≡ true)
    × (c.upgrade_version_equal_to_install_version ≡ false)
    × (str_eq c.versions.release_name no_version_found ≡ false)
    × ((not (str_eq c.versions.cluster_version "")
          || (c.versions.latest_y_release_after_prod_default
              || c.versions.latest_z_release_after_prod_default))
        ≡ true)

version_verdict-success :
    (c : ClusterConfig) → (((version_verdict c).0 == success) ≡ true) ↔ MayProvision c
unfolding version_verdict
version_verdict-success c = ground arith

-- The state after the selection.
abbrev pub selected : Settings → World → World
selected s w = record w { config = record w.config { versions = s } }

-- The settings of a cluster.
abbrev pub Describes : ClusterConfig → Cluster → Type 0
Describes c cl =
    (c.name ≡ cl.name)
    × (c.versions.cluster_version ≡ cl.version)
    × (c.versions.channel ≡ cl.channel_group)
    × (c.cloud_provider_id ≡ cl.cloud_provider)
    × (c.region ≡ cl.region)

settled-Describes :
    (m : Step World Cluster) (w : World) (cl : Cluster)
    → ((m >>= settled) w).0 ≡ ends cl
    → Describes ((m >>= settled) w).1.config cl
unfolding set_cluster_into_viper_config
settled-Describes m w cl h =
    let (found, e, same, all) = bind_ends m settled w h in
    let it : found ≡ cl = cc in rw (all, it) (refl, refl, refl, refl, refl)

module _ (V : Type 0) ⦃sv : Semver V⦄ (is_timeout is_retryable : Error → Bool) where
  -- When the versions are selected without an error, `Provision` goes on to launch or retrieve a
  -- cluster exactly with settings that may be used: there were enough versions, a previous one and an
  -- upgrade, and there is a version to install or the latest Y or Z release was asked for. With other
  -- settings it fails and makes no call.
  pub provision_lem :
      (r : ProvisionReplies V) (w : World) (v : VersionSelector V)
      → select_cluster_versions true (new_selector V w.config.versions) r.polls
        ≡ returns (record { selector = v; error = none })
      → (MayProvision (selected v.settings w).config
          × (provision V is_timeout is_retryable r w
              ≡ (or_fail
                      (wrapf "failed to set up or retrieve cluster: %w" [])
                      (provision_cluster r.launch)
                    >>= finish_provision V is_timeout is_retryable r)
                  (selected v.settings w)))
        ⊎ ((¬ MayProvision (selected v.settings w).config)
            × (provision V is_timeout is_retryable r w ≡ (
              fails (unconfigured (version_verdict (selected v.settings w).config).1),
              selected v.settings w,
            )))
  unfolding provision configure_version
  provision_lem r w v e =
      let c = (selected v.settings w).config in
      let (to, back) = version_verdict-success c in
      elim (Bool-cases ((version_verdict c).0 == success)) [
        | inl t ↦ inl (to t, rw (e, t) refl)
        | inr f ↦ inr (λ may. let t = back may in absurd (cc), rw (e, f) refl)
      ]

  -- However `ProvisionOrReuseCluster` comes by the cluster that it returns, the settings describe it
  -- afterwards; and with a kubeconfig, the one call that it makes asks for the cluster.
  pub provision_or_reuse_cluster_lem :
      (r : ProvisionReplies V) (existing : Reply Cluster) (w : World) (cl : Cluster)
      → (provision_or_reuse_cluster V is_timeout is_retryable r existing w).0 ≡ ends cl
      → Describes (provision_or_reuse_cluster V is_timeout is_retryable r existing w).1.config cl
        × ((str_eq w.config.kubeconfig_contents "" ≡ true)
            ⊎ ((existing ≡ replied cl)
                × ((provision_or_reuse_cluster V is_timeout is_retryable r existing w).1.calls
                    ≡ w.calls ++ (get_cluster w.config.id ∷ []))))
  unfolding provision_or_reuse_cluster set_cluster_into_viper_config
  provision_or_reuse_cluster_lem r existing w cl h =
      elim (Bool-cases (str_eq w.config.kubeconfig_contents "")) [
        | inl t ↦ (
          rw t (
              settled-Describes
                (or_fail (wrapf "cluster provisioning failed: %w" [])
                  (provision V is_timeout is_retryable r))
                w cl (rw t at h)),
          inl t,
        )
        | inr f ↦ elim (reply_cases existing) [
          | inl (x, e) ↦ absurd (let k = rw (f, e) at h in cc)
          | inr (found, e) ↦
              let k = rw (f, e) at h in
              let it : found ≡ cl = cc in
              (
                rw (f, e, it) (refl, refl, refl, refl, refl),
                inr (e ∙ ap replied it, rw (f, e) refl),
              )
        ]
      ]
