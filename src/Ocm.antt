-- ===== src/Ocm.antt =====
-- pkg/common/providers/ocmprovider: the provider that asks the OpenShift cluster manager.
pub mod Versions
pub mod Provider
pub mod Clusters
pub mod Deletion
pub mod Listing
pub mod Choices
pub mod Reserve
pub mod Quota
pub mod Description
pub mod Launch
pub mod Gates
pub mod Addons
pub mod Environments
pub mod Proxy
pub mod Logs
