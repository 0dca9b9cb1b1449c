-- ===== src/Examples.antt =====
-- Runs on concrete inputs, and each theorem that has hypotheses at an input that meets them.
pub mod Data
mod Versions
mod Installs
mod Upgrades
mod Health
mod Managed
mod Clusters
mod Providers
mod Ocm
mod Cleanup
mod Results
