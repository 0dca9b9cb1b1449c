-- ===== src/Examples/Upgrades.antt =====
-- The upgrade selectors on concrete edges.
use osde2e.Prelude.{◌≡◌, refl, [], ◌∷◌, contains}
use osde2e.Go.{returns}
use osde2e.Semver.Sample.{
  Sample, v4_3_12, v4_4_0_nightly, v4_4_0, v4_4_6, v4_5_0, sample_semver, sample_laws,
}
use osde2e.Spi.Version.{Version, build, find_version}
use osde2e.Versions.Settings.{Selection}
use osde2e.Versions.Upgrade.{
  choose_latest, choose_y, choose_z, upgrade_to, replacement, scan_versions, latest_step, y_step,
  z_step,
}
use osde2e.Versions.Upgrade.Best.{BestChoice, choose_latest_best}
use osde2e.Versions.Upgrade.Orders.{with_edges, choose_latest_by_order}
use osde2e.Examples.Data.{plain, edge, from}

choose_latest_best_example :
    (r : Selection (Version Sample)) × (choose_latest
        (plain v4_3_12)
        (from v4_3_12 (edge v4_4_0 ∷ edge v4_5_0 ∷ []))
      ≡ returns r)
    × BestChoice v4_3_12 (with_edges (plain v4_3_12) (edge v4_4_0 ∷ edge v4_5_0 ∷ [])) r.version
unfolding find_version contains
choose_latest_best_example =
    choose_latest_best sample_laws (plain v4_3_12) (from v4_3_12 (edge v4_4_0 ∷ edge v4_5_0 ∷ []))
      (with_edges (plain v4_3_12) (edge v4_4_0 ∷ edge v4_5_0 ∷ [])) refl refl
      ((refl, (refl, tt)), tt)

latest_to_4_5_0 :
    choose_latest (plain v4_3_12) (from v4_3_12 (edge v4_4_0 ∷ edge v4_5_0 ∷ []))
    ≡ upgrade_to (replacement v4_5_0) "latest version"
unfolding choose_latest latest_step find_version scan_versions contains build
latest_to_4_5_0 = refl

y_to_4_4_0 :
    choose_y (plain v4_3_12) (from v4_3_12 (edge v4_5_0 ∷ edge v4_4_0 ∷ []))
    ≡ upgrade_to (replacement v4_4_0) "latest y version"
unfolding choose_y y_step find_version scan_versions contains build
y_to_4_4_0 = refl

z_to_4_4_6 :
    choose_z (plain v4_4_0) (from v4_4_0 (edge v4_5_0 ∷ edge v4_4_6 ∷ []))
    ≡ upgrade_to (replacement v4_4_6) "latest z version"
unfolding choose_z z_step find_version scan_versions contains build
z_to_4_4_6 = refl

choose_latest_by_order_example :
    (choose_latest (plain v4_3_12) (from v4_3_12 (edge v4_4_0_nightly ∷ edge v4_4_6 ∷ []))
      ≡ upgrade_to (replacement v4_4_6) "latest version")
    × (choose_latest (plain v4_3_12) (from v4_3_12 (edge v4_4_6 ∷ edge v4_4_0_nightly ∷ []))
        ≡ upgrade_to (replacement v4_4_0_nightly) "latest version")
unfolding find_version contains
choose_latest_by_order_example =
    choose_latest_by_order (plain v4_3_12) (plain v4_3_12) (edge v4_4_0_nightly) (edge v4_4_6) refl
      refl refl refl refl refl (from v4_3_12 (edge v4_4_0_nightly ∷ edge v4_4_6 ∷ []))
      (from v4_3_12 (edge v4_4_6 ∷ edge v4_4_0_nightly ∷ [])) refl refl
