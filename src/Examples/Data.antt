-- ===== src/Examples/Data.antt =====
-- The settings and the version lists of the examples.
use osde2e.Prelude.{true, false, none, List, [], ◌∷◌}
use osde2e.Prelude.Int.{pos, negsuc}
use osde2e.Semver.Sample.{Sample, v4_3_12, v4_4_0, v4_4_6, v4_5_0, sample_semver}
use osde2e.Spi.Version.{Ptr, Version, VersionList}
use osde2e.Versions.Settings.{Settings, World}

abbrev pub base : Settings
base = record {
  cluster_version = "";
  channel = "candidate";
  release_image_latest = "";
  install_specific_nightly = "";
  install_latest_xy = "";
  use_latest_version_for_install = false;
  use_middle_cluster_image_set_for_install = true;
  use_oldest_cluster_image_set_for_install = false;
  latest_y_release_after_prod_default = false;
  latest_z_release_after_prod_default = false;
  delta_release_from_default = pos 1;
  next_release_after_prod_default = negsuc 0;
  install_latest_y_from_delta = pos 0;
  install_latest_z_from_delta = pos 0;
  enough_versions_for_oldest_or_middle_test = true;
  previous_version_from_default_found = true;
  prow_job_id = "";
  upgrade_to_latest = false;
  upgrade_to_latest_y = false;
  upgrade_to_latest_z = false;
  release_name = "";
  image = "";
}

abbrev pub plain : Sample → Version Sample
plain v = record { version = v; available_upgrades = []; is_default = false }

abbrev pub tagged : Sample → Version Sample
tagged v = record { version = v; available_upgrades = []; is_default = true }

abbrev pub listing : List (Version Sample) → VersionList Sample
listing vs = record { available_versions = vs; default_version_override = none }

abbrev pub world : List (Version Sample) → World Sample
world vs = record { settings = base; version_list = listing vs }

-- 4.4.6, the default 4.3.12, 4.5.0 and 4.4.0.
abbrev pub four : List (Version Sample)
four = plain v4_4_6 ∷ tagged v4_3_12 ∷ plain v4_5_0 ∷ plain v4_4_0 ∷ []

-- Only the default and one more version.
abbrev pub two : List (Version Sample)
two = tagged v4_3_12 ∷ plain v4_4_0 ∷ []

abbrev pub edge : Sample → Ptr Sample
edge v = record { address = 1; target = v }

abbrev pub from : Sample → List (Ptr Sample) → VersionList Sample
from v edges = listing (record { version = v; available_upgrades = edges; is_default = false } ∷ [])
