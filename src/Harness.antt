-- ===== src/Harness.antt =====
-- gateway/app/execution_routing.py: the choice of an execution profile.
pub mod Select
pub mod Best
pub mod Tests
