-- ===== src/Versions/Install.antt =====
-- pkg/common/versions/installselectors: the selectors, each with its test, its priority and its
-- choice, and the registry. A selector's choice takes and returns the world: the settings and the
-- version list. `log` calls have no effect that is modelled.
pub mod Helpers
pub mod Ordered
pub mod Tagged
pub mod Delta
pub mod Named
pub mod Registry
