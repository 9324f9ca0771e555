-- ===== src/Provisioning.antt =====
-- What a machine is started with, and what it leaves (src/apex/provisioning/).
pub mod Backing
pub mod Compacting
pub mod Tests
