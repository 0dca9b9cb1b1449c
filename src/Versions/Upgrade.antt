-- ===== src/Versions/Upgrade.antt =====
-- pkg/common/versions/upgradeselectors: the selectors of the version to upgrade to. The order in
-- which Go ranges over a map of upgrade edges is not fixed; here it is the order of the list of
-- edges, so a statement for every list is one for every order.
pub mod Scans
pub mod Chosen
pub mod Best
pub mod Orders
use osde2e.Prelude.{
  ℕ, ◌+◌, ◌%◌, String, Bool, false, not, ◌&&◌, ◌||◌, Option, none, some, List, [], ◌∷◌, ◌++◌, ◌==◌,
  contains, if◌then◌else◌,
}
use osde2e.Prelude.Int.{ℤ, pos, word_size}
use osde2e.Go.{Outcome, returns, Error, errorf, ◌>>=◌}
use osde2e.Spi.Version.{Ptr, Version, VersionList, build, find_version}
use osde2e.Versions.Settings.{Settings, Selection}
use osde2e.Semver.{Semver}

-- The methods of `Interface`; `choose` is `SelectVersion`.
pub record Selector (V : Type 0) : Type 0 where
  pub should_use : Settings → Bool
  pub priority : ℤ
  pub choose : Version V → VersionList V → Outcome (Selection (Version V))

module _ {V : Type 0} where
  -- The two nested loops, over the versions and over the upgrades of each.
  unfoldable pub scan_upgrades : (Version V → V → Version V) → Version V → List (Ptr V) → Version V
  scan_upgrades step newest [] = newest
  scan_upgrades step newest (p ∷ ps) = scan_upgrades step (step newest p.target) ps

  unfoldable pub scan_versions :
      (Version V → V → Version V) → Version V → List (Version V) → Version V
  unfolding scan_upgrades
  scan_versions step newest [] = newest
  scan_versions step newest (v ∷ vs) =
      scan_versions step (scan_upgrades step newest v.available_upgrades) vs

module _ {V : Type 0} ⦃sv : Semver V⦄ where
  abbrev pub nightly : V → Bool
  nightly v = contains (sv.original v) "nightly"

  abbrev pub replacement : V → Version V
  replacement u = build u false none

  -- The body of the inner loop of each of the three selectors.
  unfoldable pub latest_step : Version V → V → Version V
  latest_step newest u =
      if nightly u && not (nightly newest.version) || sv.greater_than u newest.version
      then replacement u
      else newest

  unfoldable pub y_step : V → Version V → V → Version V
  unfolding latest_step
  y_step install newest u =
      if sv.minor u == ((sv.minor install + 1) % word_size) then latest_step newest u else newest

  unfoldable pub z_step : V → Version V → V → Version V
  unfolding latest_step
  z_step install newest u =
      if sv.minor u == sv.minor install
      then (if nightly u && not (nightly newest.version)
          then replacement u
          else latest_step newest u)
      else newest

  abbrev pub upgrade_to : Version V → String → Outcome (Selection (Version V))
  upgrade_to v selector = returns (record { version = some v; selector = selector; error = none })

  abbrev pub no_upgrade : Version V → String → Outcome (Selection (Version V))
  no_upgrade install selector = returns (record {
    version = none;
    selector = selector;
    error =
        some (errorf "no available upgrade path for version %s" (sv.original install.version ∷ []));
  })

  unfoldable pub choose_latest : Version V → VersionList V → Outcome (Selection (Version V))
  choose_latest install vl = do
    vs ← find_version vl (sv.original install.version)
    let newest = scan_versions latest_step install vs
    if sv.greater_than newest.version install.version
        then upgrade_to newest "latest version"
        else no_upgrade install "latest version"

  unfoldable pub choose_y : Version V → VersionList V → Outcome (Selection (Version V))
  choose_y install vl = do
    vs ← find_version vl (sv.original install.version)
    let newest = scan_versions (y_step install.version) install vs
    if sv.greater_than newest.version install.version
        then upgrade_to newest "latest y version"
        else no_upgrade install "latest y version"

  unfoldable pub choose_z : Version V → VersionList V → Outcome (Selection (Version V))
  choose_z install vl = do
    vs ← find_version vl (sv.original install.version)
    let newest = scan_versions (z_step install.version) install vs
    if sv.equal newest.version install.version
        then no_upgrade install "latest z version"
        else upgrade_to newest "latest z version"

  unfoldable pub latest_version : Selector V
  unfolding choose_latest
  latest_version = record {
    should_use = λ s. s.upgrade_to_latest;
    priority = pos 70;
    choose = choose_latest;
  }

  unfoldable pub latest_y_version : Selector V
  unfolding choose_y
  latest_y_version = record {
    should_use = λ s. s.upgrade_to_latest_y;
    priority = pos 70;
    choose = choose_y;
  }

  unfoldable pub latest_z_version : Selector V
  unfolding choose_z
  latest_z_version = record {
    should_use = λ s. s.upgrade_to_latest_z;
    priority = pos 70;
    choose = choose_z;
  }

  -- registry.go, with the `init` functions in the order of the files' names.
  unfoldable pub get_version_selectors : List (Selector V)
  get_version_selectors = latest_version ∷ latest_y_version ∷ latest_z_version ∷ []
