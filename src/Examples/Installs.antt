-- ===== src/Examples/Installs.antt =====
-- The install selectors and their choice on concrete lists.
use osde2e.Prelude.{
  ◌≡◌, refl, true, false, none, some, [], ◌∷◌, arith, All, Any, contains, itoa_ℤ, trim_prefix,
}
use osde2e.Prelude.Int.{◌≤ℤ◌}
use osde2e.Prelude.Sorting.{sort_by}
use osde2e.Go.{returns, panics}
use osde2e.Semver.Sample.{Sample, v4_4_0, v4_4_6, v4_5_0, sample_semver}
use osde2e.Spi.Version.{Version}
use osde2e.Versions.Common.{sort_versions}
use osde2e.Versions.Settings.{World, Selection}
use osde2e.Versions.Install.Helpers
use osde2e.Versions.Install.Helpers.{chosen, available, sorted_world, remove_default_version}
use osde2e.Versions.Install.Ordered.{
  choose_latest, choose_middle, choose_delta, middle_cluster_image_set,
}
use osde2e.Versions.Install.Registry.{global_selector_registry}
use osde2e.Versions.Selector.{
  VersionSelector, listed, pick_selector, selected_selector, get_install_version,
  openshift_version_to_semver,
}
use osde2e.Versions.Selector.Priorities.{selected_selector_lem}
use osde2e.Versions.Selector.Install.{middle_too_few-panics}
use osde2e.Versions.ClusterVersions.{poll, ended, release_of}
use osde2e.Versions.ClusterVersions.Names.{release_of-round_trip}
use osde2e.Versions.ClusterVersions.Polls.{poll_supplied}
use osde2e.Examples.Data.{base, plain, listing, world, four, two}

latest_is_4_5_0 :
    choose_latest (world four) ≡ chosen v4_5_0 "latest version" (sorted_world (world four))
unfolding choose_latest sort_versions sort_by
latest_is_4_5_0 = refl

middle_is_4_4_6 : choose_middle (world four) ≡ chosen v4_4_6 "middle version" (world four)
unfolding choose_middle remove_default_version sort_versions sort_by
middle_is_4_4_6 = refl

-- With no default version in the list a delta of 1 still chooses the first version.
delta_without_default :
    choose_delta (world (plain v4_5_0 ∷ plain v4_4_0 ∷ []))
    ≡ returns (
      record {
        version = some v4_5_0;
        selector = "version 1 releases from the default";
        error = none;
      },
      record {
        settings = record base { previous_version_from_default_found = false };
        version_list = listing (plain v4_5_0 ∷ plain v4_4_0 ∷ []);
      },
    )
unfolding choose_delta itoa_ℤ
delta_without_default = refl

-- The middle selector is the one to use.
picks_middle : selected_selector {V = Sample} base ≡ some middle_cluster_image_set
unfolding selected_selector pick_selector global_selector_registry contains
picks_middle = refl

selected_selector_lem_example :
    (i : Helpers.Selector Sample) × (selected_selector base ≡ some i)
    × Any
        (λ (j : Helpers.Selector Sample). (j ≡ i) × (j.should_use base ≡ true))
        global_selector_registry.selectors
    × All
        (λ (j : Helpers.Selector Sample). j.should_use base ≡ true → j.priority ≤ℤ i.priority)
        global_selector_registry.selectors
selected_selector_lem_example = selected_selector_lem base

middle_too_few-panics_example : get_install_version (world two) ≡ panics
unfolding remove_default_version
middle_too_few-panics_example = middle_too_few-panics (world two) picks_middle (omega arith) refl

abbrev nightly_world : World Sample
nightly_world = record {
  settings = record base { channel = "stable" };
  version_list = listing four;
}

picks_4_4_6 :
    get_install_version nightly_world
    ≡ returns
        (record { version = some v4_4_6; selector = "middle version"; error = none }, nightly_world)
unfolding get_install_version selected_selector pick_selector global_selector_registry contains
    remove_default_version sort_versions sort_by
picks_4_4_6 = refl

abbrev supplied_selector : VersionSelector Sample
supplied_selector = record {
  settings = record base { cluster_version = "openshift-v4.4.0" };
  version_list = none;
  cluster_version = none;
}

supplied_polled :
    poll supplied_selector (listed (listing two) ∷ [])
    ≡ ended
        (record {
          settings = supplied_selector.settings;
          version_list = some (listing two);
          cluster_version = some v4_4_0;
        })
        none
unfolding trim_prefix
supplied_polled = poll_supplied supplied_selector (listing two) [] v4_4_0 refl refl

abbrev upgrade_choice : Selection (Version Sample)
upgrade_choice = record { version = some (plain v4_4_0); selector = "latest version"; error = none }

release_of-round_trip_example :
    openshift_version_to_semver (release_of upgrade_choice).name ≡ some v4_4_0
release_of-round_trip_example = release_of-round_trip upgrade_choice (plain v4_4_0) refl refl refl
