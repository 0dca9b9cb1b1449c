-- ===== src/Versions/Settings.antt =====
-- The settings of pkg/common/config/config.go that the choice of versions reads and writes, in one
-- record: a `viper.GetX` is a field, a `viper.Set` is the record with that field given anew.
use osde2e.Prelude.{String, Bool, Option}
use osde2e.Prelude.Int.{ℤ}
use osde2e.Go.{Error}
use osde2e.Spi.Version.{VersionList}

pub record Settings : Type 0 where
  -- config.Cluster
  pub cluster_version : String
  pub channel : String
  pub release_image_latest : String
  pub install_specific_nightly : String
  pub install_latest_xy : String
  pub use_latest_version_for_install : Bool
  pub use_middle_cluster_image_set_for_install : Bool
  pub use_oldest_cluster_image_set_for_install : Bool
  pub latest_y_release_after_prod_default : Bool
  pub latest_z_release_after_prod_default : Bool
  pub delta_release_from_default : ℤ
  pub next_release_after_prod_default : ℤ
  pub install_latest_y_from_delta : ℤ
  pub install_latest_z_from_delta : ℤ
  pub enough_versions_for_oldest_or_middle_test : Bool
  pub previous_version_from_default_found : Bool
  -- config.ProwJobId
  pub prow_job_id : String
  -- config.Upgrade
  pub upgrade_to_latest : Bool
  pub upgrade_to_latest_y : Bool
  pub upgrade_to_latest_z : Bool
  pub release_name : String
  pub image : String

-- What a selector reads and may change: the settings, and the version list, whose slice
-- `SortVersions` sorts in place.
pub record World (V : Type 0) : Type 0 where
  pub settings : Settings
  pub version_list : VersionList V

-- The three results of `SelectVersion`.
pub record Selection (A : Type 0) : Type 0 where
  pub version : Option A
  pub selector : String
  pub error : Option Error
