-- ===== src/Versions/Install/Tagged.antt =====
-- The selectors that start from the default version: default_version.go, latest_xy.go,
-- latest_y_from_default_selector.go and latest_z_from_default_selector.go.
pub mod Scans
pub mod Choices
use osde2e.Prelude.{
  ℕ, ◌+◌, ◌%◌, String, Bool, true, false, not, ◌&&◌, Option, none, some, List, [], ◌∷◌, length,
  ◌==◌, str_eq, if◌then◌else◌, find_first, concat, itoa_ℤ,
}
use osde2e.Prelude.Int.{ℤ, pos, negsuc, word, word_size, eqb_ℤ, ltb_ℤ}
use osde2e.Go.{Outcome, returns, Error, errorf, ◌>>=◌}
use osde2e.Spi.Version.{Version, default}
use osde2e.Versions.Common.{sort_versions, next_release}
use osde2e.Versions.Settings.{Settings, World, Selection}
use osde2e.Versions.Install.Helpers.{
  Selector, chosen, refused, chosen_or, find_default_version, no_default_found, available,
  sorted_world,
}
use osde2e.Semver.{Semver}

module _ {V : Type 0} where
  unfoldable pub choose_default : World V → Outcome (Selection V × World V)
  choose_default w = elim (default w.version_list) [
    | none ↦
        refused "current default"
          (errorf "no default version set for channel group: %s" (w.settings.channel ∷ [])) w
    | some v ↦ chosen v "current default" w
  ]

  unfoldable pub default_version : Selector V
  unfolding choose_default
  default_version = record {
    name = "default";
    should_use = λ s. true;
    priority = pos 0;
    choose = choose_default;
  }

-- `version`, `default` and `latest` of the two loops over the sorted list.
pub record Scan (V : Type 0) : Type 0 where
  pub default_seen : Option (Version V)
  pub latest : Option (Version V)

abbrev pub nothing_seen : {V : Type 0} → Scan V
nothing_seen = record { default_seen = none; latest = none }

abbrev pub not_enough : Error
not_enough = errorf "not enough versions to select the latest version" []

abbrev pub no_match : Error
no_match = errorf "no version matching selector found" []

module _ {V : Type 0} ⦃sv : Semver V⦄ where
  unfoldable pub choose_latest_xy : World V → Outcome (Selection V × World V)
  choose_latest_xy w =
      let xy = w.settings.install_latest_xy in
      elim (sv.new_version xy) [
        | none ↦
            refused "latest X.Y version available"
              (errorf "error parsing semantic version for %s" (xy ∷ [])) w
        | some want ↦
            chosen_or
              (find_first
                (λ v. sv.major v.version == sv.major want && sv.minor v.version == sv.minor want)
                (available w))
              "latest X.Y version available"
              (errorf "unable to locate latest version for %s" (xy ∷ [])) w
      ]

  unfoldable pub latest_xy_version : Selector V
  unfolding choose_latest_xy
  latest_xy_version = record {
    name = "latest XY";
    should_use = λ s. not (str_eq s.install_latest_xy "");
    priority = pos 60;
    choose = choose_latest_xy;
  }

  abbrev pub newer : Version V → Option (Version V) → Option (Version V)
  newer v none = some v
  newer v (some l) = if sv.greater_than v.version l.version then some v else some l

  -- `int64(version.Minor()) == nextMinor` compares 64-bit patterns.
  abbrev pub is_next_minor : Version V → Version V → Bool
  is_next_minor d v = (sv.minor v.version % word_size) == ((sv.minor d.version + 1) % word_size)

  pub y_after_default : Version V → Option (Version V) → Option (Version V) → Option (Version V)
  y_after_default v none latest = latest
  y_after_default v (some d) latest = if is_next_minor d v then newer v latest else latest

  pub y_step : Scan V → Version V → Scan V
  unfolding y_after_default
  y_step s v =
      if v.is_default
      then record s { default_seen = some v }
      else record s { latest = y_after_default v s.default_seen s.latest }

  unfoldable pub y_scan : Scan V → List (Version V) → Scan V
  unfolding y_step
  y_scan s [] = s
  y_scan s (v ∷ vs) = y_scan (y_step s v) vs

  unfoldable pub choose_latest_y : World V → Outcome (Selection V × World V)
  choose_latest_y w =
      if length (available w) == 0
      then refused "latest y version from default" not_enough w
      else chosen_or (y_scan nothing_seen (sort_versions (available w))).latest
          "latest y version from default" no_match (sorted_world w)

  unfoldable pub latest_y_version : Selector V
  unfolding choose_latest_y
  latest_y_version = record {
    name = "latest Y from default";
    should_use = λ s. s.latest_y_release_after_prod_default;
    priority = pos 70;
    choose = choose_latest_y;
  }

  -- A default version becomes both; then any version of its minor that is greater than the latest.
  abbrev pub z_mark : Scan V → Version V → Scan V
  z_mark s v = if v.is_default then record { default_seen = some v; latest = some v } else s

  pub z_after_default : Version V → Option (Version V) → Option (Version V) → Option (Version V)
  z_after_default v none latest = latest
  z_after_default v (some d) latest =
      if sv.minor v.version == sv.minor d.version then newer v latest else latest

  pub z_step : Scan V → Version V → Scan V
  unfolding z_after_default
  z_step s v = let t = z_mark s v in record t { latest = z_after_default v t.default_seen t.latest }

  unfoldable pub z_scan : Scan V → List (Version V) → Scan V
  unfolding z_step
  z_scan s [] = s
  z_scan s (v ∷ vs) = z_scan (z_step s v) vs

  -- The latest version, unless it equals the default version.
  pub z_result : Option (Version V) → Option (Version V) → Option (Version V)
  z_result none d = none
  z_result (some l) none = some l
  z_result (some l) (some d) = if sv.equal l.version d.version then none else some l

  unfoldable pub choose_latest_z : World V → Outcome (Selection V × World V)
  unfolding z_result
  choose_latest_z w =
      let s = z_scan nothing_seen (sort_versions (available w)) in
      if length (available w) == 0
      then refused "latest z version from default" not_enough w
      else chosen_or (z_result s.latest s.default_seen) "latest z version from default" no_match
          (sorted_world w)

  unfoldable pub latest_z_version : Selector V
  unfolding choose_latest_z
  latest_z_version = record {
    name = "latest Z from default";
    should_use = λ s. s.latest_z_release_after_prod_default;
    priority = pos 70;
    choose = choose_latest_z;
  }
