-- ===== src/Spi.antt =====
-- pkg/common/spi: the data that a cluster provider hands to the rest of the program.
pub mod Version
pub mod Cluster
