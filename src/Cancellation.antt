-- ===== src/Cancellation.antt =====
-- gateway/app/objective_cancellation.py: requests to cancel an objective, and their delivery.
pub mod Model
pub mod Notify
pub mod Request
pub mod Recover
pub mod Replay
pub mod Unique
pub mod Tests
