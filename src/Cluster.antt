-- ===== src/Cluster.antt =====
-- pkg/common/cluster/clusterutil.go: the health of a cluster from all the checks, the wait for its
-- provisioning, and the wait for a number of clean checks in a row.
pub mod Poll
pub mod Wait
pub mod Provisioning
pub mod Names
pub mod Config
pub mod Launch
pub mod Setup
pub mod Teardown
