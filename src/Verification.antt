-- ===== src/Verification.antt =====
-- What runs observed and how it is judged (src/apex/verification/).
pub mod Tracing
pub mod Tests
