-- ===== src/Execution.antt =====
-- gateway/app/firstmate_execution.py: the immutable events of an execution, and the message that reports
-- its completion.
pub mod Rows
pub mod Ingest
pub mod Generation
pub mod Keys
pub mod Added
pub mod Steps
pub mod Life
pub mod Report
pub mod Again
pub mod Ended
mod Tests
