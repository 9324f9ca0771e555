-- ===== src/Pipeline.antt =====
-- src/apex/pipeline: stages, the facts they write, the plan of their order, and the run of a plan.
pub mod Facts
pub mod Ports
pub mod Stages
pub mod Plans
pub mod Runner
pub mod Tests
