-- ===== src/Versions/Install/Registry.antt =====
-- installselectors/registry.go. Each file registers its selector in an `init` function, and Go runs
-- those in the order of the files' names.
use osde2e.Prelude.{List, [], ◌∷◌, ◌++◌}
use osde2e.Versions.Install.Helpers.{Selector}
use osde2e.Versions.Install.Ordered.{
  latest_version, middle_cluster_image_set, oldest_cluster_image_set, delta_release_from_default,
}
use osde2e.Versions.Install.Tagged.{
  default_version, latest_xy_version, latest_y_version, latest_z_version,
}
use osde2e.Versions.Install.Delta.{
  latest_y_from_delta, latest_z_from_delta, next_version_after_prod_default,
}
use osde2e.Versions.Install.Named.{specific_image, specific_nightlies, triggered_nightlies}
use osde2e.Semver.{Semver}

pub record Registry (V : Type 0) : Type 0 where
  pub selectors : List (Selector V)

module _ {V : Type 0} where
  abbrev pub register_selector : Registry V → Selector V → Registry V
  register_selector r i = record r { selectors = r.selectors ++ i ∷ [] }

  abbrev pub get_version_selectors : Registry V → List (Selector V)
  get_version_selectors r = r.selectors

  pub register_all : Registry V → List (Selector V) → Registry V
  register_all r [] = r
  register_all r (s ∷ ss) = register_all (register_selector r s) ss

module _ {V : Type 0} ⦃sv : Semver V⦄ where
  unfoldable pub global_selector_registry : Registry V
  unfolding register_all default_version delta_release_from_default latest_version latest_xy_version
      latest_y_version latest_y_from_delta latest_z_version latest_z_from_delta
      middle_cluster_image_set next_version_after_prod_default oldest_cluster_image_set
      specific_image specific_nightlies triggered_nightlies
  global_selector_registry =
      register_all (record { selectors = [] })
        (default_version ∷ delta_release_from_default ∷ latest_version ∷ latest_xy_version
          ∷ latest_y_version ∷ latest_y_from_delta ∷ latest_z_version ∷ latest_z_from_delta
          ∷ middle_cluster_image_set ∷ next_version_after_prod_default ∷ oldest_cluster_image_set
          ∷ specific_image ∷ specific_nightlies ∷ triggered_nightlies ∷ [])
