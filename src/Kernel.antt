-- ===== src/Kernel.antt =====
-- The kernel: values that everything else is written in (src/apex/kernel).
pub mod Refusals
pub mod Errors
pub mod Verdicts
pub mod Claims
pub mod Bounded
pub mod Documents
pub mod Identifiers
pub mod Tests
