-- ===== src/Versions/Upgrade/Orders.antt =====
-- latest_version_selector.go of pkg/common/versions/upgradeselectors with a nightly among the edges.
use osde2e.Prelude.{◌≡◌, refl, true, false, ◌||◌, List, [], ◌∷◌}
use osde2e.Go.{returns}
use osde2e.Semver.{Semver}
use osde2e.Spi.Version.{Ptr, Version, VersionList, build, find_version}
use osde2e.Versions.Upgrade.{
  scan_versions, nightly, latest_step, replacement, upgrade_to, choose_latest,
}

module _ {V : Type 0} ⦃sv : Semver V⦄ where
  -- A listed version, with the given edges.
  abbrev pub with_edges : Version V → List (Ptr V) → List (Version V)
  with_edges v edges = record v { available_upgrades = edges } ∷ []

  module _ (install v : Version V) (n p : Ptr V) (stable_install : nightly install.version ≡ false)
      (is_nightly : nightly n.target ≡ true) (stable : nightly p.target ≡ false)
      (nightly_up : sv.greater_than n.target install.version ≡ true)
      (stable_up : sv.greater_than p.target install.version ≡ true)
      (higher : sv.greater_than p.target n.target ≡ true) where
    nightly_first :
        scan_versions latest_step install (with_edges v (n ∷ p ∷ [])) ≡ replacement p.target
    unfolding scan_versions latest_step build
    nightly_first = simp (is_nightly, stable_install, stable, higher, ◌||◌)

    nightly_last :
        scan_versions latest_step install (with_edges v (p ∷ n ∷ [])) ≡ replacement n.target
    unfolding scan_versions latest_step build
    nightly_last = simp (is_nightly, stable_install, stable, stable_up, ◌||◌)

    -- From a version that is no nightly, with two edges that are both greater than it, a nightly and
    -- a build that is greater than the nightly and no nightly itself, the latest selector goes to the
    -- latter when the map yields the nightly first, and to the nightly when the map yields it last.
    pub choose_latest_by_order :
        (vl vl' : VersionList V)
        → find_version vl (sv.original install.version) ≡ returns (with_edges v (n ∷ p ∷ []))
        → find_version vl' (sv.original install.version) ≡ returns (with_edges v (p ∷ n ∷ []))
        → (choose_latest install vl ≡ upgrade_to (replacement p.target) "latest version")
          × (choose_latest install vl' ≡ upgrade_to (replacement n.target) "latest version")
    unfolding choose_latest build
    choose_latest_by_order vl vl' e e' =
        (rw e (rw nightly_first (rw stable_up refl)), rw e' (rw nightly_last (rw nightly_up refl)))
