-- ===== src/Attestation.antt =====
-- src/apex/attestation: whether a candidate may be installed, and the records that say so.
pub mod Readiness
pub mod Attesting
pub mod Retracting
pub mod Tests
pub mod Ledger
pub mod Proofs
pub mod Minting
pub mod Columns
pub mod Electing
pub mod Selecting
pub mod Stores
