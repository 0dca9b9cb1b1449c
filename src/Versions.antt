-- ===== src/Versions.antt =====
-- pkg/common/versions: which version a cluster is installed with and upgraded to.
pub mod Common
pub mod Settings
pub mod Install
pub mod Upgrade
pub mod Selector
pub mod ClusterVersions
