-- ===== src/Registry.antt =====
-- src/apex/registry: what is registered, and the order that data availability derives.
pub mod Sealing
pub mod Graph
pub mod Tests
