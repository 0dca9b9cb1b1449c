-- ===== src/Ocm/Addons.antt =====
-- `InstallAddons` of pkg/common/providers/ocmprovider/cluster.go.
use osde2e.Prelude.{
  ℕ, suc, String, Bool, true, false, Option, none, some, List, [], ◌∷◌, str_eq, if◌then◌else◌,
  find_first,
}
use osde2e.Prelude.Maps.{lookup}
use osde2e.Go.{errorf, wrapf}
use osde2e.Go.Calls.{Reply}
use osde2e.Go.Steps.{Step, pure, or_fail, ◌>>=◌, ◌>>◌}
use osde2e.Spi.Cluster.{Cluster, Properties}
use osde2e.Ocm.Provider.{State, Call, get_addon, install_addon, ask, same}
use osde2e.Ocm.Clusters.{ClusterService, get_spi_cluster, get_ocm_cluster, update_cluster_cache}
use osde2e.Ocm.Gates.{is_some}

-- Whether an addon is enabled, and the end of its installation.
pub record AddonService : Type 0 where
  pub is_enabled : List Call → Reply Bool
  pub installed : List Call → Reply Unit

abbrev pub params_of : Option Properties → Properties
params_of none = []
params_of (some ps) = ps

-- The parameters of each addon.
abbrev pub Params : Type 0
Params = List (String × Properties)

module _ (av : AddonService) (cv : ClusterService) where
  -- An installation, and the cache after it; both are in the function of the retryer.
  abbrev pub install : String → String → Properties → Step State Unit
  install cluster addon ps = do
    _ ← ask (install_addon cluster addon ps) av.installed same
    c ← get_ocm_cluster cv cluster
    or_fail (wrapf "error updating cluster cache: %v" []) (update_cluster_cache cv c)

  -- Whether one addon was installed by this call.
  abbrev pub install_missing : String → String → Params → Bool → Cluster → Step State Bool
  install_missing cluster addon params enabled cl =
      if is_some (find_first (λ a. str_eq a addon) cl.addons)
      then pure false
      else if enabled
      then install cluster addon (params_of (lookup addon params)) >> pure true
      else pure false

  abbrev pub try_addon : String → Params → String → Step State Bool
  try_addon cluster params addon = do
    enabled ← ask (get_addon addon) av.is_enabled same
    cl ←
        or_fail
          (λ e.
            errorf "error getting current cluster state when trying to install addon %s"
              (addon ∷ []))
          (get_spi_cluster cv cluster)
    install_missing cluster addon params enabled cl

  -- How many addons were installed.
  unfoldable pub install_addons : String → List String → Params → ℕ → Step State ℕ
  install_addons cluster [] params num = pure num
  install_addons cluster (addon ∷ addons) params num = try_addon cluster params addon >>= λ done.
      install_addons cluster addons params (if done then suc num else num)
