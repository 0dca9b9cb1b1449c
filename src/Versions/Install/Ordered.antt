-- ===== src/Versions/Install/Ordered.antt =====
-- The selectors that choose by the order of the versions: latest_version_selector.go,
-- middle_cluster_image_set.go, oldest_cluster_image_set.go and delta_release_from_default.go.
pub mod Laws
use osde2e.Prelude.{
  ℕ, zero, suc, ◌-◌, ◌/◌, String, Bool, true, false, not, Option, none, some, List, [], ◌∷◌, length,
  ltb, leb, ◌==◌, if◌then◌else◌, concat, itoa_ℤ,
}
use osde2e.Prelude.Int.{ℤ, pos, negsuc, add_int, eqb_ℤ}
use osde2e.Go.{Outcome, returns, panics, Error, errorf, index, ◌>>=◌}
use osde2e.Spi.Version.{Version}
use osde2e.Versions.Common.{sort_versions}
use osde2e.Versions.Settings.{Settings, World, Selection}
use osde2e.Versions.Install.Helpers.{
  Selector, chosen, not_chosen, refused, remove_default_version, available, sorted_world,
}
use osde2e.Semver.{Semver}

module _ {V : Type 0} ⦃sv : Semver V⦄ where
  unfoldable pub choose_latest : World V → Outcome (Selection V × World V)
  choose_latest w =
      if length (available w) == 0
      then refused "latest version" (errorf "not enough versions to select the latest version" []) w
      else do
        v ← index (sort_versions (available w)) (length (sort_versions (available w)) - 1)
        chosen v.version "latest version" (sorted_world w)

  unfoldable pub latest_version : Selector V
  unfolding choose_latest
  latest_version = record {
    name = "latest";
    should_use = λ s. s.use_latest_version_for_install;
    priority = pos 70;
    choose = choose_latest;
  }

  -- Too few versions is no error: the flag is cleared and no version is chosen.
  abbrev pub too_few : String → World V → Outcome (Selection V × World V)
  too_few selector w = not_chosen selector (record w {
    settings = record w.settings { enough_versions_for_oldest_or_middle_test = false };
  })

  abbrev pub others : World V → List (Version V)
  others w = remove_default_version (available w)

  unfoldable pub choose_middle : World V → Outcome (Selection V × World V)
  choose_middle w = if ltb (length (others w)) 2 then too_few "middle version" w else do
    v ← index (sort_versions (others w)) (length (others w) / 2)
    chosen v.version "middle version" w

  unfoldable pub middle_cluster_image_set : Selector V
  unfolding choose_middle
  middle_cluster_image_set = record {
    name = "middle";
    should_use = λ s. s.use_middle_cluster_image_set_for_install;
    priority = pos 60;
    choose = choose_middle;
  }

  unfoldable pub choose_oldest : World V → Outcome (Selection V × World V)
  choose_oldest w =
      if ltb (length (others w)) 2
      then too_few "oldest version" w
      else do v ← index (sort_versions (others w)) 0; chosen v.version "oldest version" w

  unfoldable pub oldest_cluster_image_set : Selector V
  unfolding choose_oldest
  oldest_cluster_image_set = record {
    name = "oldest";
    should_use = λ s. s.use_oldest_cluster_image_set_for_install;
    priority = pos 60;
    choose = choose_oldest;
  }

abbrev pub delta_text : ℤ → String
delta_text d = concat ("version " ∷ itoa_ℤ d ∷ " releases from the default" ∷ [])

module _ {V : Type 0} where
  -- The index of the first default version, or -1.
  pub default_index_from : ℕ → List (Version V) → ℤ
  default_index_from i [] = negsuc 0
  default_index_from i (v ∷ vs) = if v.is_default then pos i else default_index_from (suc i) vs

  unfoldable pub find_default_version_index : List (Version V) → ℤ
  unfolding default_index_from
  find_default_version_index vs = default_index_from 0 vs

  abbrev pub previous_not_found : World V → World V
  previous_not_found w = record w {
    settings = record w.settings { previous_version_from_default_found = false };
  }

  -- `targetIndex < 0 || targetIndex >= len(availableVersions)`, and the access.
  pub at_target : ℤ → World V → Outcome (Selection V × World V)
  at_target (negsuc n) w =
      not_chosen (delta_text w.settings.delta_release_from_default) (previous_not_found w)
  at_target (pos i) w =
      if leb (length (available w)) i
      then not_chosen (delta_text w.settings.delta_release_from_default) (previous_not_found w)
      else do
        v ← index (available w) i
        chosen v.version (delta_text w.settings.delta_release_from_default) w

  abbrev pub noted : ℤ → World V → World V
  noted (negsuc n) w = previous_not_found w
  noted (pos i) w = w

  -- A missing default clears the flag, and the function goes on with the index -1.
  unfoldable pub choose_delta : World V → Outcome (Selection V × World V)
  unfolding find_default_version_index at_target
  choose_delta w =
      let i = find_default_version_index (available w) in
      at_target (add_int i w.settings.delta_release_from_default) (noted i w)

  unfoldable pub delta_release_from_default : Selector V
  unfolding choose_delta
  delta_release_from_default = record {
    name = "delta from default";
    should_use = λ s. not (eqb_ℤ s.delta_release_from_default (pos 0));
    priority = pos 50;
    choose = choose_delta;
  }
