-- ===== src/Objective.antt =====
-- gateway/app/deployment_mode.py and gateway/app/contracts.py: the durable state of an objective.
pub mod State
pub mod Advance
pub mod Persist
pub mod Life
pub mod Refine
pub mod Total
pub mod Right
pub mod Stored
mod Tests
